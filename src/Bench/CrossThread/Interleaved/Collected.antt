-- ===== src/Bench/CrossThread/Interleaved/Collected.antt =====
-- src/bench.rs, `measure_cross_thread`: the locals of the threads as a list, and rounds that one
-- more follows.
use hotclock.Prelude.{ℕ, zero, suc, ◌<◌, ◌≡◌, refl, sym, ap, ap₂, arith, max, List, [], ◌∷◌, ◌++◌}
use hotclock.Bench.CrossThread.{Round, Local, fresh, after_round, modify, run, locals}
use hotclock.Bench.CrossThread.Runs.{IsMadeBy}

-- the locals of so many threads, in the order of the handles
unfoldable pub collect : ℕ → (ℕ → Local) → List Local
collect zero f = []
collect (suc n) f = f 0 ∷ collect n (λ i. f (suc i))

pub collect_ext :
    (n : ℕ) (f g : ℕ → Local) → ((i : ℕ) → i < n → f i ≡ g i) → collect n f ≡ collect n g
unfolding collect
collect_ext zero f g same = refl
collect_ext (suc n) f g same =
    ap₂ (λ l ls. l ∷ ls) (same 0 (omega arith))
      (collect_ext n (λ i. f (suc i)) (λ i. g (suc i)) (λ i h. same (suc i) (omega arith)))

pub modify-collect :
    (n i : ℕ) (h : Local → Local) (f g : ℕ → Local)
    → g i ≡ h (f i)
    → ((j : ℕ) → ¬ (j ≡ i) → g j ≡ f j)
    → modify i h (collect n f) ≡ collect n g
unfolding modify collect
modify-collect zero i h f g one others = refl
modify-collect (suc n) zero h f g one others =
    ap₂ (λ l ls. l ∷ ls) (sym one)
      (collect_ext n _ _ (λ i _. sym (others (suc i) (λ e. absurd (omega arith)))))
modify-collect (suc n) (suc i) h f g one others =
    ap₂ (λ l ls. l ∷ ls) (sym (others 0 (λ e. absurd (omega arith))))
      (modify-collect n i h (λ k. f (suc k)) (λ k. g (suc k)) one
        (λ j differ. others (suc j) (λ e. differ (omega arith))))

pub locals-collect : (n : ℕ) → locals n ≡ collect n (λ i. fresh)
unfolding locals collect
locals-collect zero = refl
locals-collect (suc n) = ap (λ ls. fresh ∷ ls) (locals-collect n)

-- the shared maximum after so many rounds
unfoldable pub peak : List Round → ℕ → ℕ
peak [] shared = shared
peak (e ∷ es) shared = peak es (max shared e.r1)

pub peak-snoc :
    (es : List Round) (e : Round) (m : ℕ) → peak (es ++ (e ∷ [])) m ≡ max (peak es m) e.r1
unfolding peak
peak-snoc [] e m = refl
peak-snoc (a ∷ es) e m = peak-snoc es e (max m a.r1)

pub run-snoc :
    (es : List Round) (e : Round) (m : ℕ) (ls : List Local)
    → run (es ++ (e ∷ [])) m ls ≡ modify e.thread (after_round (peak es m) e) (run es m ls)
unfolding run peak
run-snoc [] e m ls = refl
run-snoc (a ∷ es) e m ls = run-snoc es e (max m a.r1) (modify a.thread (after_round m a) ls)

pub All-snoc :
    (threads : ℕ) (es : List Round) (e : Round)
    → IsMadeBy threads es
    → e.thread < threads
    → IsMadeBy threads (es ++ (e ∷ []))
All-snoc threads [] e made one = (one, tt)
All-snoc threads (a ∷ es) e made one = (made.0, All-snoc threads es e made.1 one)
