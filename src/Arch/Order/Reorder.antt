-- ===== src/Arch/Order/Reorder.antt =====
-- Orders of events that differ by exchanges of neighbours, and what no exchange can undo.
use hotclock.Prelude.{
  ◌≡◌, inl, inr, refl, Bool, true, false, ◌||◌, List, [], ◌∷◌, ◌++◌, All, arith, Bool-cases,
}

module _ {ℓ} {A : Type ℓ} where
  -- two neighbours that are not kept in order change places
  pub data Exchanged (keeps : A → A → Bool) : List A → List A → Type ℓ where
    swap : {x y : A} {l : List A} → keeps x y ≡ false → Exchanged keeps (x ∷ y ∷ l) (y ∷ x ∷ l)
    skip : {x : A} {l l' : List A} → Exchanged keeps l l' → Exchanged keeps (x ∷ l) (x ∷ l')

  pub data Reordered (keeps : A → A → Bool) (l : List A) : List A → Type ℓ where
    same : Reordered keeps l l
    more : {k m : List A} → Reordered keeps l k → Exchanged keeps k m → Reordered keeps l m

  -- no element of the first kind comes after one of the second
  abbrev pub NoneAfter : (A → Bool) → (A → Bool) → List A → Type 0
  NoneAfter p q [] = Unit {0}
  NoneAfter p q (x ∷ l) = (q x ≡ true → All (λ y. p y ≡ false) l) × NoneAfter p q l

  abbrev pub has : (A → Bool) → List A → Bool
  has p [] = false
  has p (x ∷ l) = p x || has p l

  Exchanged-All :
      (P : A → Type 0) (keeps : A → A → Bool) {l l' : List A}
      → Exchanged keeps l l'
      → All P l
      → All P l'
  Exchanged-All P keeps (swap e) h = (h.1.0, (h.0, h.1.1))
  Exchanged-All P keeps (skip s) h = (h.0, Exchanged-All P keeps s h.1)

  -- What is kept in order stays in order. `K` is what is known of all that happens.
  Exchanged-NoneAfter :
      (K : A → Type 0) (p q : A → Bool) (keeps : A → A → Bool)
      → ((x y : A) → K x → K y → p x ≡ true → q y ≡ true → keeps x y ≡ true)
      → {l l' : List A} → Exchanged keeps l l'
      → All K l
      → NoneAfter p q l
      → NoneAfter p q l'
  Exchanged-NoneAfter K p q keeps kept (swap {x} {y} e) (kx, (ky, ks)) (first, (second, rest)) = (
    λ qy. (elim (Bool-cases (p x)) [ inl px ↦ cc (kept x y kx ky px qy) | inr px ↦ px ], second qy),
    (λ qx. (first qx).1, rest),
  )
  Exchanged-NoneAfter K p q keeps kept (skip s) (kx, ks) (first, rest) = (
    λ qx. Exchanged-All (λ y. p y ≡ false) keeps s (first qx),
    Exchanged-NoneAfter K p q keeps kept s ks rest,
  )

  Exchanged-has :
      (p : A → Bool) (keeps : A → A → Bool) {l l' : List A}
      → Exchanged keeps l l'
      → has p l ≡ true
      → has p l' ≡ true
  Exchanged-has p keeps (swap {x} {y} e) h = ground arith
  Exchanged-has p keeps (skip {x} {l} {l'} s) h = elim (Bool-cases (p x)) [
    | inl px ↦ rw px
    | inr px ↦ rw px (Exchanged-has p keeps s (rw px at h))
  ]

  Reordered-All :
      (P : A → Type 0) (keeps : A → A → Bool) {l l' : List A}
      → Reordered keeps l l'
      → All P l
      → All P l'
  Reordered-All P keeps same h = h
  Reordered-All P keeps (more r e) h = Exchanged-All P keeps e (Reordered-All P keeps r h)

  pub Reordered-NoneAfter :
      (K : A → Type 0) (p q : A → Bool) (keeps : A → A → Bool)
      → ((x y : A) → K x → K y → p x ≡ true → q y ≡ true → keeps x y ≡ true)
      → {l l' : List A} → Reordered keeps l l'
      → All K l
      → NoneAfter p q l
      → NoneAfter p q l'
  Reordered-NoneAfter K p q keeps kept same ks h = h
  Reordered-NoneAfter K p q keeps kept (more r e) ks h =
      Exchanged-NoneAfter K p q keeps kept e (Reordered-All K keeps r ks)
        (Reordered-NoneAfter K p q keeps kept r ks h)

  pub Reordered-has :
      (p : A → Bool) (keeps : A → A → Bool) {l l' : List A}
      → Reordered keeps l l'
      → has p l ≡ true
      → has p l' ≡ true
  Reordered-has p keeps same h = h
  Reordered-has p keeps (more r e) h = Exchanged-has p keeps e (Reordered-has p keeps r h)

  -- Nothing of a kind that is not there comes after anything.
  pub NoneAfter-none : (p q : A → Bool) (l : List A) → All (λ x. p x ≡ false) l → NoneAfter p q l
  NoneAfter-none p q [] h = tt
  NoneAfter-none p q (x ∷ l) (_, rest) = (λ _. rest, NoneAfter-none p q l rest)

  pub NoneAfter-never : (p q : A → Bool) (l : List A) → All (λ x. q x ≡ false) l → NoneAfter p q l
  NoneAfter-never p q [] h = tt
  NoneAfter-never p q (x ∷ l) (first, rest) = (λ qx. cc, NoneAfter-never p q l rest)

  pub NoneAfter-append :
      (p q : A → Bool) (l k : List A)
      → All (λ x. q x ≡ false) l
      → NoneAfter p q k
      → NoneAfter p q (l ++ k)
  NoneAfter-append p q [] k none h = h
  NoneAfter-append p q (x ∷ l) k (first, rest) h = (λ qx. cc, NoneAfter-append p q l k rest h)

  pub has-append : (p : A → Bool) (l k : List A) → has p k ≡ true → has p (l ++ k) ≡ true
  has-append p [] k h = h
  has-append p (x ∷ l) k h = elim (Bool-cases (p x)) [
    | inl px ↦ rw px
    | inr px ↦ rw px (has-append p l k h)
  ]

  has-none : (p : A → Bool) (l : List A) → All (λ x. p x ≡ false) l → has p l ≡ false
  has-none p [] h = refl
  has-none p (x ∷ l) (first, rest) = rw (first, has-none p l rest)

  -- A barrier that is there, behind all of the first kind and before all of the last, parts them.
  pub NoneAfter-trans :
      (p b q : A → Bool)
      → ((x : A) → q x ≡ true → b x ≡ false)
      → (l : List A) → has b l ≡ true
      → NoneAfter p b l
      → NoneAfter b q l
      → NoneAfter p q l
  NoneAfter-trans p b q other [] h f s = tt
  NoneAfter-trans p b q other (x ∷ l) h (f, fs) (s, ss) = elim (Bool-cases (b x)) [
    | inl bx ↦ (λ _. f bx, NoneAfter-none p q l (f bx))
    | inr bx ↦
        let later : has b l ≡ true = rw bx at h in
        (λ qx. cc (has-none b l (s qx), later), NoneAfter-trans p b q other l later fs ss)
  ]
