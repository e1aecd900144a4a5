-- ===== src/Skew/Clocks/Report.antt =====
-- benches/skew.rs, `main`: which clocks the report holds.
use Prim.Native.String.{String}
use hotclock.Prelude.{
  ℕ, ◌<◌, ◌≡◌, refl, ap, ◌∙◌, subst, Option, arith, Bool, Bool-cases, Option-cases, inl, inr, none,
  some, List, [], ◌∷◌, All,
}
use hotclock.Skew.Args.{Mode, fast, drift, all, Args}
use hotclock.Duration.{Duration, from_secs}
use hotclock.Bench.Results.{SkewResult}
use hotclock.Skew.Clocks.{
  Clock, name_of, all_clocks, ClockReport, Bench, empty_per_thread, empty_cross_thread,
  empty_skew_1s, short_part, long_part, run_for, run_clock, insert, is_selected, report,
}
use hotclock.Skew.Clocks.Names.{
  keys, wanted, IsKnown, all_clocks-IsKnown, inserted, in_order, keys-insert, insert-All,
  chosen_names, chosen_names-wanted,
}

-- the skew over a minute, if there is one, is of that clock
abbrev pub IsMinute : String → Option SkewResult → Type 0
IsMinute name none = Unit
IsMinute name (some s) = (s.clock ≡ name) × (s.interval ≡ "1m")

-- every result in the report is of the clock of that name
pub record IsNamed (name : String) (r : ClockReport) : Type 0 where
  pub per_thread_named : r.per_thread.clock ≡ name
  pub cross_thread_named : r.cross_thread.clock ≡ name
  pub skew_1s_named : (r.skew_1s.clock ≡ name) × (r.skew_1s.interval ≡ "1s")
  pub skew_1m_named : IsMinute name r.skew_1m

-- the short measurements, made with the numbers of the arguments
abbrev pub IsShort : Bench → Args → Clock → ClockReport → Type 0
IsShort b args c r =
    (r.per_thread ≡ b.measure_per_thread c args.duration)
    × (r.cross_thread ≡ b.measure_cross_thread c args.threads args.duration)
    × (b.measure_skew c (from_secs 1) args.skew_1s_samples "1s" ≡ some r.skew_1s)

-- none of them is made
abbrev pub IsNoShort : Clock → ClockReport → Type 0
IsNoShort c r =
    (r.per_thread ≡ empty_per_thread c)
    × (r.cross_thread ≡ empty_cross_thread c)
    × (r.skew_1s ≡ empty_skew_1s c)

-- the skew over a minute, made with the number of the arguments
abbrev pub IsLong : Bench → Args → Clock → ClockReport → Type 0
IsLong b args c r =
    (s : SkewResult) × (b.measure_skew c (from_secs 60) args.skew_1m_samples "1m" ≡ some s)
    × (r.skew_1m ≡ some s)

-- what each mode measures
abbrev pub IsAsked : Bench → Args → Clock → Mode → ClockReport → Type 0
IsAsked b args c fast r = IsShort b args c r × (r.skew_1m ≡ none)
IsAsked b args c drift r = IsNoShort c r × IsLong b args c r
IsAsked b args c all r = IsShort b args c r × IsLong b args c r

-- the report of a clock of that name: what the mode asks for is measured, and what it
-- leaves out is empty
abbrev pub IsReport : Bench → Args → (String × ClockReport) → Type 0
IsReport b args (name, r) =
    (c : Clock) × (name_of c ≡ name)
    × (run_for b c args ≡ some r)
    × (r.backed_by_arch_counter ≡ b.backed_by_arch_counter c)
    × IsAsked b args c args.mode r
    × IsNamed name r

measure_skew-some :
    (b : Bench) (c : Clock) (interval : Duration) (n : ℕ) (label : String)
    → 0 < n
    → (r : SkewResult) × (b.measure_skew c interval n label ≡ some r)
measure_skew-some b c interval n label pos =
    elim (Option-cases (b.measure_skew c interval n label)) [
      | inl e ↦ let zero_made = (b.panics_iff c interval n label).0 e in absurd (omega arith)
      | inr a ↦ a
    ]

-- the report of a clock under each mode, given its skews
abbrev fast_report : Bench → Clock → Args → SkewResult → ClockReport
fast_report b c args s1 = record {
  backed_by_arch_counter = b.backed_by_arch_counter c;
  per_thread = b.measure_per_thread c args.duration;
  cross_thread = b.measure_cross_thread c args.threads args.duration;
  skew_1s = s1;
  skew_1m = none;
}

abbrev drift_report : Bench → Clock → SkewResult → ClockReport
drift_report b c s60 = record {
  backed_by_arch_counter = b.backed_by_arch_counter c;
  per_thread = empty_per_thread c;
  cross_thread = empty_cross_thread c;
  skew_1s = empty_skew_1s c;
  skew_1m = some s60;
}

abbrev IsMade : Bench → Clock → Args → Mode → ClockReport → Type 0
IsMade b c args mode r =
    (run_for b c args ≡ some r)
    × (r.backed_by_arch_counter ≡ b.backed_by_arch_counter c)
    × IsAsked b args c mode r
    × IsNamed (name_of c) r

run_for-some :
    (b : Bench) (c : Clock) (args : Args) (mode : Mode)
    → args.mode ≡ mode
    → 0 < args.skew_1s_samples
    → 0 < args.skew_1m_samples
    → (r : ClockReport) × IsMade b c args mode r
unfolding run_for short_part long_part
run_for-some b c args fast e short long =
    let (s1, e1) = measure_skew-some b c (from_secs 1) args.skew_1s_samples "1s" short in
    (
      fast_report b c args s1,
      (
        rw (e, e1),
        refl,
        ((refl, refl, e1), refl),
        record {
          per_thread_named = b.per_thread_named c args.duration;
          cross_thread_named = b.cross_thread_named c args.threads args.duration;
          skew_1s_named = b.skew_named c (from_secs 1) args.skew_1s_samples "1s" s1 e1;
          skew_1m_named = tt;
        },
      ),
    )
run_for-some b c args drift e short long =
    let (s60, e60) = measure_skew-some b c (from_secs 60) args.skew_1m_samples "1m" long in
    (
      drift_report b c s60,
      (
        rw (e, e60),
        refl,
        ((refl, refl, refl), (s60, e60, refl)),
        record {
          per_thread_named = refl;
          cross_thread_named = refl;
          skew_1s_named = (refl, refl);
          skew_1m_named = b.skew_named c (from_secs 60) args.skew_1m_samples "1m" s60 e60;
        },
      ),
    )
run_for-some b c args all e short long =
    let (s1, e1) = measure_skew-some b c (from_secs 1) args.skew_1s_samples "1s" short in
    let (s60, e60) = measure_skew-some b c (from_secs 60) args.skew_1m_samples "1m" long in
    (
      record (fast_report b c args s1) { skew_1m = some s60 },
      (
        rw (e, e1, e60),
        refl,
        ((refl, refl, e1), (s60, e60, refl)),
        record {
          per_thread_named = b.per_thread_named c args.duration;
          cross_thread_named = b.cross_thread_named c args.threads args.duration;
          skew_1s_named = b.skew_named c (from_secs 1) args.skew_1s_samples "1s" s1 e1;
          skew_1m_named = b.skew_named c (from_secs 60) args.skew_1m_samples "1m" s60 e60;
        },
      ),
    )

run_clock-known :
    (b : Bench) (recal : Bool) (args : Args) (name : String)
    → IsKnown recal name
    → 0 < args.skew_1s_samples
    → 0 < args.skew_1m_samples
    → (r : ClockReport) × (run_clock b recal name args ≡ some r) × IsReport b args (name, r)
unfolding run_clock
run_clock-known b recal args name (c, known, named) short long =
    let (r, (e, backed, asked, names)) = run_for-some b c args args.mode refl short long in
    (r, rw (known, e), (c, named, e, backed, asked, subst (λ n. IsNamed n r) named names))

abbrev IsExtended : Bench → Bool → Args → List String → List (String × ClockReport) → Type 0
IsExtended b recal args names clocks =
    (rs : List (String × ClockReport)) × (report b recal args names clocks ≡ some rs)
    × (keys rs ≡ inserted (chosen_names args.only_clock names) (keys clocks))
    × All (IsReport b args) rs

report_from :
    (b : Bench) (recal : Bool) (args : Args) (names : List String)
    (clocks : List (String × ClockReport))
    → 0 < args.skew_1s_samples
    → 0 < args.skew_1m_samples
    → All (IsKnown recal) names
    → All (IsReport b args) clocks
    → IsExtended b recal args names clocks
unfolding report
report_from b recal args [] clocks short long k h = (clocks, refl, refl, h)
report_from b recal args (name ∷ names) clocks short long (known, k) h =
    elim (Bool-cases (is_selected args.only_clock name)) [
      | inl chosen ↦
          let (r, e, good) = run_clock-known b recal args name known short long in
          let (rs, e2, ks, goods) =
            report_from b recal args names (insert name r clocks) short long k
              (insert-All (IsReport b args) name r clocks good h) in
          let chosen_rest = chosen_names args.only_clock names in
          (
            rs,
            rw (report, chosen, e, e2),
            rw chosen (ks ∙ ap (inserted chosen_rest) (keys-insert name r clocks)),
            goods,
          )
      | inr other ↦
          let (rs, e, ks, goods) = report_from b recal args names clocks short long k h in
          (rs, rw (report, other, e), rw other ks, goods)
    ]

-- `main` runs every clock that `--only-clock` lets through, and no other, each by the measurements
-- of its own type that the mode asks for, and puts them in the order of their names; when both
-- numbers of samples are positive, it does not panic.
pub report_lem :
    (b : Bench) (recal : Bool) (args : Args)
    → 0 < args.skew_1s_samples
    → 0 < args.skew_1m_samples
    → (rs : List (String × ClockReport)) × (report b recal args (all_clocks recal) [] ≡ some rs)
      × (keys rs ≡ in_order (wanted args.only_clock (all_clocks recal)))
      × All (IsReport b args) rs
report_lem b recal args short long =
    let names = all_clocks recal in
    let (rs, e, ks, goods) =
      report_from b recal args names [] short long (all_clocks-IsKnown recal) tt in
    (rs, e, ks ∙ ap in_order (chosen_names-wanted args.only_clock names), goods)
