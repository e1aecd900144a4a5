-- ===== src/Skew/Clocks/Recorded.antt =====
-- benches/skew.rs over src/bench.rs: the measurements of Bench/PerThread.antt,
-- Bench/CrossThread.antt and Bench/Skew.antt as what the program calls, for readings given ahead.
use Prim.Native.String.{String}
use hotclock.Prelude.{
  ap, refl, some, Option, ℕ, ◌≡◌, ◌↔◌, sym, ◌∙◌, arith, none, List, length, Bool,
}
use native.Mathlib.Decide.{dec_lt}
use hotclock.Duration.{Duration}
use hotclock.Bench.PerThread.{Tally}
use hotclock.Bench.CrossThread.{Round, measure_cross_thread}
use hotclock.Bench.Skew.{Reads, SkewFigures, measure_skew}
use hotclock.Word.Floats.{F64}
use hotclock.Bench.Skew.Order.{measure_skew_lem}
use hotclock.Bench.Results.{SkewResult, per_thread_result, cross_thread_result, skew_result}
use hotclock.Skew.Clocks.{Clock, name_of, Bench}

-- what the clocks read: the counts at the end of the loop of one thread, the rounds of the threads
-- in the order of their `fetch_max`, and the rounds of a skew, as many as are asked for; and the
-- nanoseconds that the two first take; with the arithmetic on f64
pub record Log : Type 0 where
  pub floats : F64
  pub counts : Clock → Duration → Tally
  pub rounds : Clock → ℕ → Duration → List Round
  pub reads : Clock → Duration → ℕ → List Reads
  pub reads_count : (c : Clock) (interval : Duration) (n : ℕ) → length (reads c interval n) ≡ n
  pub wall_nanos : Clock → Duration → ℕ
  pub backed : Clock → Bool

abbrev pub skew_of : Log → Clock → Duration → ℕ → String → Option SkewResult
skew_of l c interval n label =
    skew_result (name_of c) label (measure_skew ⦃f = l.floats⦄ (l.reads c interval n))

abbrev text_of : String → (SkewResult → String) → Option SkewResult → String
text_of d text none = d
text_of d text (some r) = text r

-- a result under a name has that name
pub skew_result-clock :
    (name label : String) (f : Option SkewFigures) (r : SkewResult)
    → skew_result name label f ≡ some r
    → (r.clock ≡ name) × (r.interval ≡ label)
skew_result-clock name label none r e = cc e
skew_result-clock name label (some f) r e =
    (sym (ap (text_of name (λ x. x.clock)) e), sym (ap (text_of label (λ x. x.interval)) e))

pub skew_of-none :
    (l : Log) (c : Clock) (interval : Duration) (n : ℕ) (label : String)
    → (skew_of l c interval n label ≡ none) ↔ (n ≡ 0)
skew_of-none l c interval n label =
    let size = l.reads_count c interval n in
    let (empty, made) = measure_skew_lem ⦃f = l.floats⦄ (l.reads c interval n) in
    (
      λ e. elim (dec_lt 0 n) [
        | yes pos ↦
            let (r, f, _, _, _) = made (omega arith) in
            cc (sym e ∙ ap (skew_result (name_of c) label) f)
        | no h ↦ omega arith
      ],
      λ e. ap (skew_result (name_of c) label) (empty (omega arith)),
    )

abbrev pub bench_of : Log → Bench
bench_of l = record {
  backed_by_arch_counter = l.backed;
  measure_per_thread = λ c d. per_thread_result (name_of c) (l.wall_nanos c d) (l.counts c d);
  measure_cross_thread = λ c threads d.
      cross_thread_result (name_of c) threads (l.wall_nanos c d)
        (measure_cross_thread threads (l.rounds c threads d));
  measure_skew = skew_of l;
  panics_iff = skew_of-none l;
  per_thread_named = λ c d. refl;
  cross_thread_named = λ c threads d. refl;
  skew_named = λ c interval n label r e.
      skew_result-clock (name_of c) label (measure_skew ⦃f = l.floats⦄ (l.reads c interval n)) r e;
}
