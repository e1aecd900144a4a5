-- ===== src/Arch/Order/Kinds.antt =====
-- src/arch/*.rs: the loads, barriers and reads around a block, and what is documented of them.
use hotclock.Prelude.{◌≡◌, refl, Bool, true, false, ◌&&◌, List, [], ◌∷◌, All, some, arith}
use hotclock.Target.Items.{Reader}
use hotclock.Arch.Order.{
  Insn, acquire_load, is_barrier, is_read, read_of, barrier_of, Part, before, inside, after, Placed,
  placed, around, Rules, keeps,
}
use hotclock.Arch.Order.Reorder.{Reordered, NoneAfter}

abbrev pub is_before : Part → Bool
is_before before = true
is_before _ = false

abbrev pub is_inside : Part → Bool
is_inside inside = true
is_inside _ = false

abbrev pub is_load : Insn → Bool
is_load acquire_load = true
is_load _ = false

-- the loads that the caller made before the read, and the barrier and the read of the block
abbrev pub earlier_load : Placed → Bool
earlier_load x = is_before x.part && is_load x.insn

abbrev pub own_barrier : Placed → Bool
own_barrier x = is_inside x.part && is_barrier x.insn

abbrev pub own_read : Placed → Bool
own_read x = is_inside x.part && is_read x.insn

-- What compilers document of `asm!`: a block without `nomem` stays behind an earlier `Acquire`
-- load, and the instructions of one block stay in order; and what the processor documents of the
-- barrier: it waits for earlier loads.
pub record Documented (rules : Rules) (barrier : Insn) : Type 0 where
  pub touches_memory :
      (x y : Placed) → earlier_load x ≡ true → y.nomem ≡ false → rules.compiler x y ≡ true
  pub one_block :
      (x y : Placed) → is_inside x.part ≡ true → is_inside y.part ≡ true → rules.compiler x y ≡ true
  pub waits : rules.processor acquire_load barrier ≡ true

-- In every order that the rules allow for the block between any instructions of the caller, no
-- load that the caller made before it comes after its read.
abbrev pub IsOrdered : Rules → List Placed → Type 0
IsOrdered rules block =
    (earlier later : List Insn) (happened : List Placed)
    → Reordered (keeps rules) (around earlier block later) happened
    → NoneAfter earlier_load own_read happened

-- what is known of an instruction: the block has no `nomem`, one barrier and one read
pub record Known (barrier read : Insn) (x : Placed) : Type 0 where
  pub memory : is_inside x.part ≡ true → x.nomem ≡ false
  pub barrier_is : own_barrier x ≡ true → x.insn ≡ barrier
  pub read_is : own_read x ≡ true → x.insn ≡ read

pub outside-All :
    (part : Part) (of_kind : Insn → Bool) (is : List Insn)
    → is_inside part ≡ false
    → All (λ x. (is_inside x.part && of_kind x.insn) ≡ false) (placed part false is)
outside-All part k [] h = tt
outside-All part k (i ∷ is) h = (rw h, outside-All part k is h)

pub outside-Known :
    (b read : Insn) (part : Part) (is : List Insn)
    → is_inside part ≡ false
    → All (Known b read) (placed part false is)
outside-Known b read part [] h = tt
outside-Known b read part (i ∷ is) h = (
  record { memory = λ z. refl; barrier_is = λ z. ground arith; read_is = λ z. ground arith },
  outside-Known b read part is h,
)

pub later-All : (is : List Insn) → All (λ x. earlier_load x ≡ false) (placed after false is)
later-All [] = tt
later-All (i ∷ is) = (refl, later-All is)

-- each of the five barriers is a barrier, and no read
pub barrier_of-kind :
    (r : Reader) (b : Insn)
    → barrier_of r ≡ some b
    → (is_barrier b ≡ true)
      × (is_read b ≡ false)
      × (is_read (read_of r) ≡ true)
      × (is_barrier (read_of r) ≡ false)
barrier_of-kind r b e = ground arith

pub both-left : (a c : Bool) → (a && c) ≡ true → a ≡ true
both-left a c h = ground arith

pub is_load-eq : (i : Insn) → is_load i ≡ true → i ≡ acquire_load
is_load-eq i h = ground arith

pub earlier_load-insn : (x : Placed) → earlier_load x ≡ true → x.insn ≡ acquire_load
earlier_load-insn x h = is_load-eq x.insn (ground arith)

pub keeps_false :
    (rules : Rules) (x y : Placed) → rules.processor x.insn y.insn ≡ false → keeps rules x y ≡ false
keeps_false rules x y h = ground arith

pub is_read-kind : (i : Insn) → is_read i ≡ true → is_barrier i ≡ false
is_read-kind i h = ground arith

pub own_read-kind : (x : Placed) → own_read x ≡ true → own_barrier x ≡ false
own_read-kind x h = ground (arith, is_read-kind x.insn)

-- what each keeps is kept by both
pub both_keep :
    (rules : Rules) (x y : Placed) (i j : Insn)
    → rules.compiler x y ≡ true
    → x.insn ≡ i
    → y.insn ≡ j
    → rules.processor i j ≡ true
    → keeps rules x y ≡ true
both_keep rules x y i j c e f p = rw (c, e, f, p)
