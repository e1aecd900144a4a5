-- ===== src/Arch/Order/Barrier.antt =====
-- src/arch/*.rs: what the barrier in front of an ordered read guarantees.
use hotclock.Prelude.{
  ◌≡◌, ◌↔◌, refl, true, false, List, [], ◌∷◌, ◌++◌, All, All-append, some, sym, subst, Bool-cases,
  inl, inr,
}
use hotclock.Target.Items.{Reader}
use hotclock.Arch.Order.{
  Insn, acquire_load, is_barrier, is_read, read_of, barrier_of, before, inside, after, Placed,
  placed, plain_block, ordered_block, around, Rules, keeps,
}
use hotclock.Arch.Order.Reorder.{
  swap, skip, same, more, Reordered-NoneAfter, Reordered-has, NoneAfter-none, NoneAfter-never,
  NoneAfter-append, has-append, NoneAfter-trans,
}
use hotclock.Arch.Order.Kinds.{
  is_inside, earlier_load, own_barrier, own_read, Documented, IsOrdered, Known, outside-All,
  outside-Known, later-All, barrier_of-kind, both-left, earlier_load-insn, keeps_false,
  own_read-kind, both_keep,
}

abbrev two : Insn → Insn → List Placed
two b read = placed inside false (b ∷ read ∷ [])

module _ (rules : Rules) (b read : Insn) (d : Documented rules b)
    (kinds : (is_barrier b ≡ true)
      × (is_read b ≡ false)
      × (is_read read ≡ true)
      × (is_barrier read ≡ false)) where
  around-Known :
      (earlier later : List Insn) → All (Known b read) (around earlier (two b read) later)
  around-Known earlier later =
      All-append (Known b read) (placed before false earlier) _
        (outside-Known b read before earlier refl)
        (
          record { memory = λ z. refl; barrier_is = λ z. refl; read_is = λ z. cc },
          (
            record { memory = λ z. refl; barrier_is = λ z. cc; read_is = λ z. refl },
            outside-Known b read after later refl,
          ),
        )

  load_barrier :
      (x y : Placed)
      → Known b read x
      → Known b read y
      → earlier_load x ≡ true
      → own_barrier y ≡ true
      → keeps rules x y ≡ true
  load_barrier x y kx ky ex by =
      both_keep rules x y acquire_load b
        (d.touches_memory x y ex (ky.memory (both-left (is_inside y.part) (is_barrier y.insn) by)))
        (earlier_load-insn x ex) (ky.barrier_is by) d.waits

  barrier_read :
      rules.processor b read ≡ true
      → (x y : Placed) → Known b read x
      → Known b read y
      → own_barrier x ≡ true
      → own_read y ≡ true
      → keeps rules x y ≡ true
  barrier_read p x y kx ky bx ry =
      both_keep rules x y b read
        (d.one_block x y (both-left (is_inside x.part) (is_barrier x.insn) bx)
          (both-left (is_inside y.part) (is_read y.insn) ry))
        (kx.barrier_is bx) (ky.read_is ry) p

  two-IsOrdered : rules.processor b read ≡ true → IsOrdered rules (two b read)
  two-IsOrdered p earlier later happened r =
      let known = around-Known earlier later in
      let first = placed before false earlier in
      let outer : All (λ x. own_barrier x ≡ false) first =
        outside-All before is_barrier earlier refl in
      let none_earlier =
        NoneAfter-append earlier_load own_barrier first (two b read ++ placed after false later)
          outer
          (NoneAfter-none earlier_load own_barrier (two b read ++ placed after false later)
            (refl, (refl, later-All later))) in
      let none_barrier =
        NoneAfter-append own_barrier own_read first _ (outside-All before is_read earlier refl) (
          λ z. cc (kinds.1),
          (
            λ z. outside-All after is_barrier later refl,
            NoneAfter-never own_barrier own_read _ (outside-All after is_read later refl),
          ),
        ) in
      let there =
        has-append own_barrier first (two b read ++ placed after false later) (rw (kinds.0)) in
      NoneAfter-trans earlier_load own_barrier own_read own_read-kind happened
        (Reordered-has own_barrier (keeps rules) r there)
        (Reordered-NoneAfter (Known b read) earlier_load own_barrier (keeps rules) load_barrier r
          known none_earlier)
        (Reordered-NoneAfter (Known b read) own_barrier own_read (keeps rules) (barrier_read p) r
          known none_barrier)

-- the order in which the read comes first
hoisted :
    (rules : Rules) (b read : Insn)
    → rules.processor b read ≡ false
    → rules.processor acquire_load read ≡ false
    → (is_read read ≡ true)
    → IsOrdered rules (two b read)
    → true ≡ false
hoisted rules b read p l kind ordered =
    ((ordered (acquire_load ∷ []) [] _ (
        more (more same (skip (swap (keeps_false rules _ _ p))))
          (swap (keeps_false rules _ _ l)))).0
      kind).0

ordered_block-eq :
    (r : Reader) (b : Insn) → barrier_of r ≡ some b → ordered_block r ≡ two b (read_of r)
unfolding ordered_block
ordered_block-eq r b e = rw e

plain_hoisted :
    (rules : Rules) (r : Reader)
    → rules.processor acquire_load (read_of r) ≡ false
    → is_read (read_of r) ≡ true
    → ¬ IsOrdered rules (plain_block r)
unfolding plain_block
plain_hoisted rules r l kind ordered =
    cc (((ordered (acquire_load ∷ []) [] _ (more same (swap (keeps_false rules _ _ l)))).0 kind).0)

-- Where the compiler and the barrier are as documented, and the processor may by itself read the
-- counter before an earlier load: the ordered read comes after every load that the caller made
-- before it, in every order that may happen between any instructions, exactly if the processor
-- keeps the read behind the barrier. The plain read has no such guarantee on any of these targets.
pub IsOrdered-iff :
    (rules : Rules) (r : Reader) (barrier : Insn)
    → barrier_of r ≡ some barrier
    → Documented rules barrier
    → rules.processor acquire_load (read_of r) ≡ false
    → ((rules.processor barrier (read_of r) ≡ true) ↔ IsOrdered rules (ordered_block r))
      × ¬ IsOrdered rules (plain_block r)
IsOrdered-iff rules r barrier e d hoists =
    let kinds = barrier_of-kind r barrier e in
    let block = ordered_block-eq r barrier e in
    (
      (
        λ p.
            subst (IsOrdered rules) (sym block) (two-IsOrdered rules barrier (read_of r) d kinds p),
        λ ordered. elim (Bool-cases (rules.processor barrier (read_of r))) [
          | inl p ↦ p
          | inr p ↦ cc (
              hoisted rules barrier (read_of r) p hoists kinds.2
                (subst (IsOrdered rules) block ordered))
        ],
      ),
      plain_hoisted rules r hoists kinds.2,
    )
