-- ===== src/Examples/InterleavedExamples.antt =====
-- src/bench.rs, `measure_cross_thread`: two threads, the second 10 ns behind, that meet between the
-- reads and the `fetch_max` of the first.
use hotclock.Prelude.{
  ℕ, zero, suc, ◌+◌, ◌-◌, ◌*◌, ◌<◌, ◌≡◌, ◌≤◌, ◌⊎◌, ◌==◌, true, if◌then◌else◌, refl, arith,
}
use hotclock.Bench.CrossThread.Interleaved.Monotone.{max_violation_bounded}
use hotclock.Bench.CrossThread.Interleaved.Collected.{collect}
use hotclock.Bench.CrossThread.{join, after_round, count_in, fresh, measure_cross_thread}
use hotclock.Bench.CrossThread.Runs.{IsMadeBy}
use hotclock.Bench.CrossThread.Interleaved.{
  State, Reach, reading, checking, finished, start, here, next, go_on, read, publish, close,
  set_stop, leave,
}
use hotclock.Bench.CrossThread.Interleaved.Finishing.{left, own_steps, Enabled, threads_finish}
use hotclock.Bench.CrossThread.Interleaved.Rounds.{
  outcome, rounds, interleaved-measure_cross_thread,
}

abbrev behind : ℕ → ℕ → ℕ
behind i k = 100 + 50 * k - 10 * i

-- the second thread meets the maximum of the first
abbrev meeting : (t : State) × Reach behind (start 2) t
meeting = (
  _,
  next
      (next
        (next
          (next
            (next
              (next
                (next
                  (next
                    (next (next (next here (go_on 0 refl refl)) (go_on 1 refl refl)) (read 0 refl))
                    (read 1 refl))
                  (publish 0 100 refl))
                (publish 1 90 refl))
              (close 1 100 90 refl))
            set_stop)
          (close 0 0 100 refl))
        (leave 0 refl refl))
      (leave 1 refl refl),
)

meeting_over : (i : ℕ) → i < 2 → meeting.0.pcs i ≡ finished
meeting_over zero h = refl
meeting_over (suc zero) h = refl
meeting_over (suc (suc i)) h = absurd (omega arith)

interleaved-measure_cross_thread_example :
    (outcome 2 meeting.0 ≡ measure_cross_thread 2 (rounds meeting.1))
    × IsMadeBy 2 (rounds meeting.1)
interleaved-measure_cross_thread_example =
    interleaved-measure_cross_thread behind 2 meeting.0 meeting.1 meeting_over

-- the flag is set while the first thread is about to read and the second about to test it
abbrev stopping : State
stopping = record {
  shared = 100;
  stop = true;
  pcs = λ i. if i == 0 then reading else checking;
  reads = λ i. 2;
  local = λ i. fresh;
}

abbrev last_steps : (t : State) × Reach behind stopping t
last_steps = (_, next (next here (read 0 refl)) (leave 1 refl refl))

threads_finish_example :
    ((last_steps.0.pcs 0 ≡ finished) ⊎ Enabled behind 0 last_steps.0)
    × (own_steps 0 last_steps.1 + left (last_steps.0.pcs 0) ≡ 4)
    × (4 ≤ 4)
threads_finish_example = threads_finish behind stopping last_steps.0 0 last_steps.1 refl

-- a clock that goes up by 5 at each read of the two threads, one after the other
abbrev shared_clock : ℕ → ℕ → ℕ
shared_clock i k = if i == 0 then 100 + 20 * k else 105 + 5 * k

-- The first thread reads 100 and is overtaken before its `fetch_max` by the second, which reads and
-- publishes 105.
abbrev overtaken : (t : State) × Reach shared_clock (start 2) t
overtaken = (
  _,
  next
      (next
        (next
          (next
            (next
              (next
                (next
                  (next
                    (next (next (next here (go_on 0 refl refl)) (go_on 1 refl refl)) (read 0 refl))
                    (read 1 refl))
                  (publish 1 105 refl))
                (publish 0 100 refl))
              (close 1 0 105 refl))
            (close 0 105 100 refl))
          set_stop)
        (leave 0 refl refl))
      (leave 1 refl refl),
)

max_violation_bounded_example : (outcome 2 overtaken.0).max_violation_ns ≤ 10_000
max_violation_bounded_example =
    max_violation_bounded shared_clock 2 overtaken.0 overtaken.1
      (omega arith, (omega arith, (omega arith, (omega arith, tt))))

-- the clock never went back, and a violation is reported
false_alarm : (outcome 2 overtaken.0).total_violations ≡ 1
unfolding join collect after_round count_in
false_alarm = refl
