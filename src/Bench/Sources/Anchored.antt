-- ===== src/Bench/Sources/Anchored.antt =====
-- src/bench.rs, `measure_skew`: its reads of a clock and of the reference clock, with the static
-- anchors of the two. What other threads do to the statics while it sleeps is a parameter.
use hotclock.Prelude.{
  ℕ, zero, suc, ◌<◌, ◌≡◌, refl, ap, ◌∙◌, arith, Option, none, some, List, [], ◌∷◌, length,
}
use hotclock.Machine.{World, Run, ok, pure, ◌>>=◌}
use hotclock.Bench.Skew.{Reads, SkewFigures, measure_skew}
use hotclock.Word.Floats.{F64}
use hotclock.Bench.Skew.Order.{measure_skew_lem, measure_skew-samples}
use hotclock.Bench.Sources.{
  ClockSource, Crate, init_anchor, anchored_now, reference_clock_ns, nanos_of,
}

-- the state of the two static anchors
pub record Statics (s : ClockSource) (c : Crate) : Type 0 where
  pub anchor : Option s.Anchor
  pub ref_anchor : Option c.I

abbrev pub sleeping : (World → World) → Run (Unit {0})
sleeping sleep w = ok tt (sleep w)

-- one round, with the reads in the order in which they are made
unfoldable pub skew_round :
    (s : ClockSource) (c : Crate) → (World → World) → Statics s c → Run (Statics s c × Reads)
skew_round s c sleep st = do
  r_start ← reference_clock_ns c st.ref_anchor
  c_start ← anchored_now s st.anchor
  _ ← sleeping sleep
  c_end ← anchored_now s st.anchor
  r_end ← reference_clock_ns c r_start.0
  pure (
    record st { ref_anchor = r_end.0 },
    record { r_start = r_start.1; c_start = c_start; c_end = c_end; r_end = r_end.1 },
  )

unfoldable pub skew_rounds :
    (s : ClockSource) (c : Crate)
    → (World → World)
    → ℕ
    → Statics s c
    → Run (Statics s c × List Reads)
unfolding skew_round
skew_rounds s c sleep zero st = pure (st, [])
skew_rounds s c sleep (suc samples) st = do
  first ← skew_round s c sleep st
  rest ← skew_rounds s c sleep samples first.0
  pure (rest.0, first.1 ∷ rest.1)

-- the whole measurement; `none` in the result is the panic where there is no sample
unfoldable pub measure_skew_of :
    ⦃f : F64⦄ (s : ClockSource) (c : Crate)
    → (World → World)
    → ℕ
    → Statics s c
    → Run (Statics s c × Option SkewFigures)
unfolding skew_rounds
measure_skew_of s c sleep samples st = do
  anchor ← init_anchor s st.anchor
  reference ← reference_clock_ns c st.ref_anchor
  rounds ← skew_rounds s c sleep samples (record { anchor = anchor; ref_anchor = reference.0 })
  pure (rounds.0, measure_skew rounds.1)

-- it returns in every world
abbrev pub Returns {ℓ} : {A : Type ℓ} → Run A → Type ℓ
Returns {A = A} run = (w : World) → (a : A) × (w' : World) × (run w ≡ ok a w')

-- an anchor that was there before stays
abbrev pub Keeps {ℓ} : {A : Type ℓ} → Option A → A → Type ℓ
Keeps none a = Unit
Keeps (some before) a = before ≡ a

-- the clock under test and the reference clock return
pub record Answering (s : ClockSource) (c : Crate) : Type 0 where
  pub first_returns : Returns s.first
  pub reads_return : (a : s.Anchor) → Returns (s.since_anchor a)
  pub reference_returns : Returns c.now

module _ (s : ClockSource) (c : Crate) (sleep : World → World) (h : Answering s c) where
  skew_round-returns :
      (a : s.Anchor) (r : c.I) (w : World)
      → (reads : Reads) × (w' : World) × (skew_round s c sleep
            (record { anchor = some a; ref_anchor = some r })
            w
          ≡ ok (record { anchor = some a; ref_anchor = some r }, reads) w')
  unfolding skew_round anchored_now reference_clock_ns
  skew_round-returns a r w =
      let (t1, w1, e1) = h.reference_returns w in
      let (x1, w2, e2) = h.reads_return a w1 in
      let (x2, w3, e3) = h.reads_return a (sleep w2) in
      let (t2, w4, e4) = h.reference_returns w3 in
      (
        record {
          r_start = nanos_of (c.duration_since t1 r);
          c_start = x1;
          c_end = x2;
          r_end = nanos_of (c.duration_since t2 r);
        },
        w4,
        rw (e1, e2, e3, e4),
      )

  skew_rounds-returns :
      (samples : ℕ) (a : s.Anchor) (r : c.I) (w : World)
      → (rounds : List Reads) × (w' : World) × (skew_rounds s c sleep samples
            (record { anchor = some a; ref_anchor = some r })
            w
          ≡ ok (record { anchor = some a; ref_anchor = some r }, rounds) w')
        × (length rounds ≡ samples)
  unfolding skew_rounds
  skew_rounds-returns zero a r w = ([], w, refl, refl)
  skew_rounds-returns (suc samples) a r w =
      let (reads, w1, e1) = skew_round-returns a r w in
      let (rest, w2, e2, size) = skew_rounds-returns samples a r w1 in
      (reads ∷ rest, w2, rw (e1, e2), ap suc size)

  init_anchor-returns :
      (before : Option s.Anchor) (w : World)
      → (a : s.Anchor) × (w' : World) × (init_anchor s before w ≡ ok (some a) w') × Keeps before a
  unfolding init_anchor
  init_anchor-returns none w = let (a, w', e) = h.first_returns w in (a, w', rw e, tt)
  init_anchor-returns (some a) w = (a, w, refl, refl)

  reference-returns :
      (before : Option c.I) (w : World)
      → (r : c.I) × (x : ℕ) × (w' : World) × (reference_clock_ns c before w ≡ ok (some r, x) w')
        × Keeps before r
  unfolding reference_clock_ns
  reference-returns none w =
      let (r, w1, e1) = h.reference_returns w in
      let (t, w2, e2) = h.reference_returns w1 in
      (r, nanos_of (c.duration_since t r), w2, rw (e1, e2), tt)
  reference-returns (some r) w =
      let (t, w1, e1) = h.reference_returns w in
      (r, nanos_of (c.duration_since t r), w1, rw e1, refl)

-- Whatever the state of the static anchors, and whatever the other threads do while it sleeps: a
-- measurement of at least one sample, of clocks that return, returns as many samples as are asked
-- for and leaves both anchors taken, those that were taken before unchanged. So the panic
-- `init_anchor first` is never reached.
pub measure_skew_of_lem :
    ⦃f : F64⦄ (s : ClockSource) (c : Crate) (sleep : World → World) (samples : ℕ) (st : Statics s c)
    (w : World)
    → Answering s c
    → 0 < samples
    → (a : s.Anchor) × (r : c.I) × (result : SkewFigures) × (w' : World) × (measure_skew_of s c
          sleep samples st w
        ≡ ok (record { anchor = some a; ref_anchor = some r }, some result) w')
      × (length result.samples ≡ samples)
      × Keeps st.anchor a
      × Keeps st.ref_anchor r
unfolding measure_skew_of
measure_skew_of_lem s c sleep samples st w h pos =
    let (a, w1, e1, kept) = init_anchor-returns s c sleep h st.anchor w in
    let (r, x, w2, e2, ref_kept) = reference-returns s c sleep h st.ref_anchor w1 in
    let (rounds, w3, e3, size) = skew_rounds-returns s c sleep h samples a r w2 in
    let (result, e4, _, _, _) = (measure_skew_lem rounds).1 (omega (arith, size)) in
    (
      a,
      r,
      result,
      w3,
      rw (e1, e2, e3, e4),
      measure_skew-samples rounds result e4 ∙ size,
      kept,
      ref_kept,
    )
