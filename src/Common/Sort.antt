-- ===== src/Common/Sort.antt =====
-- `slice::sort_by`: a stable sort by "comes before". Any stable sort gives the same list.
use Prim.Native.Nat.{ℕ, zero, suc}
use mathlib.Core.Path.{◌≡◌, refl, ap, sym, ◌∙◌}
use native.Mathlib.Omega.{arith}
use mathlib.Core.Bool.{Bool, true, false, ◌||◌}
use mathlib.Core.List.{List, [], ◌∷◌, ◌++◌, Perm}
use mathlib.Core.List.Perm
use lixun.Common.Tests.{if◌then◌else◌, Bool-cases}
use lixun.Common.Lists.{take, retain, any}
use mathlib.Core.Logic.{inl, inr}

abbrev pub All {ℓ κ} : {A : Type ℓ} → (A → Type κ) → List A → Type κ
All P [] = Unit
All P (x ∷ xs) = P x × All P xs

pub All-map {ℓ κ ι} :
    {A : Type ℓ} {P : A → Type κ} {Q : A → Type ι} (xs : List A)
    → ((x : A) → P x → Q x)
    → All P xs
    → All Q xs
All-map [] f a = tt
All-map (x ∷ xs) f a = (f x a.0, All-map xs f a.1)

pub All-take {ℓ κ} :
    {A : Type ℓ} (P : A → Type κ) (n : ℕ) (xs : List A) → All P xs → All P (take n xs)
All-take P zero xs a = tt
All-take P (suc n) [] a = tt
All-take P (suc n) (x ∷ xs) a = (a.0, All-take P n xs a.1)

module _ {ℓ} {A : Type ℓ} (before : A → A → Bool) where
  unfoldable pub insert : A → List A → List A
  insert x [] = x ∷ []
  insert x (y ∷ ys) = let rest = insert x ys in if before y x then y ∷ rest else x ∷ y ∷ ys

  unfoldable pub sort : List A → List A
  unfolding insert
  sort [] = []
  sort (x ∷ xs) = insert x (sort xs)

  -- Nothing that stands later comes before what stands earlier.
  abbrev pub IsSorted : List A → Type ℓ
  IsSorted [] = Unit
  IsSorted (x ∷ xs) = All (λ z. before z x ≡ false) xs × IsSorted xs

  insert-perm : (x : A) (ys : List A) → Perm (insert x ys) (x ∷ ys)
  unfolding insert
  insert-perm x [] = Perm.rfl
  insert-perm x (y ∷ ys) = elim (Bool-cases (before y x)) [
    | inl e ↦ rw e (Perm.trans (Perm.cons y (insert-perm x ys)) (Perm.swap x y ys))
    | inr e ↦ rw e Perm.rfl
  ]

  pub sort-perm : (xs : List A) → Perm (sort xs) xs
  unfolding sort
  sort-perm [] = Perm.rfl
  sort-perm (x ∷ xs) = Perm.trans (insert-perm x (sort xs)) (Perm.cons x (sort-perm xs))

  All-insert {κ} : (P : A → Type κ) (x : A) (ys : List A) → P x → All P ys → All P (insert x ys)
  unfolding insert
  All-insert P x [] h a = (h, tt)
  All-insert P x (y ∷ ys) h a = elim (Bool-cases (before y x)) [
    | inl e ↦ rw e (a.0, All-insert P x ys h a.1)
    | inr e ↦ rw e (h, a)
  ]

  pub All-sort {κ} : (P : A → Type κ) (xs : List A) → All P xs → All P (sort xs)
  unfolding sort
  All-sort P [] a = tt
  All-sort P (x ∷ xs) a = All-insert P x (sort xs) a.0 (All-sort P xs a.1)

  pub IsSorted-take : (n : ℕ) (xs : List A) → IsSorted xs → IsSorted (take n xs)
  IsSorted-take zero xs s = tt
  IsSorted-take (suc n) [] s = tt
  IsSorted-take (suc n) (x ∷ xs) s = (All-take _ n xs s.0, IsSorted-take n xs s.1)

-- The order need be one on the values that satisfy `P` only.
module _ {ℓ κ} {A : Type ℓ} (before : A → A → Bool) (P : A → Type κ)
    (asym : (x y : A) → before x y ≡ true → before y x ≡ false)
    (neg_trans : (x y z : A)
      → P x
      → P y
      → P z
      → before x y ≡ false
      → before y z ≡ false
      → before x z ≡ false) where
  All-below :
      (x y : A) (zs : List A)
      → P x
      → P y
      → All P zs
      → before y x ≡ false
      → All (λ z. before z y ≡ false) zs
      → All (λ z. before z x ≡ false) zs
  All-below x y [] px py pz h a = tt
  All-below x y (z ∷ zs) px py pz h a =
      (neg_trans z y x pz.0 py px a.0 h, All-below x y zs px py pz.1 h a.1)

  insert-IsSorted :
      (x : A) (ys : List A)
      → P x
      → All P ys
      → IsSorted before ys
      → IsSorted before (insert before x ys)
  unfolding insert
  insert-IsSorted x [] px ps s = (tt, tt)
  insert-IsSorted x (y ∷ ys) px ps s = elim (Bool-cases (before y x)) [
    | inl e ↦ rw e (
      All-insert before (λ z. before z y ≡ false) x ys (asym y x e) s.0,
      insert-IsSorted x ys px ps.1 s.1,
    )
    | inr e ↦ rw e ((e, All-below x y ys px ps.0 ps.1 e s.0), s)
  ]

  pub sort-IsSorted : (xs : List A) → All P xs → IsSorted before (sort before xs)
  unfolding sort
  sort-IsSorted [] ps = tt
  sort-IsSorted (x ∷ xs) ps =
      insert-IsSorted x (sort before xs) ps.0 (All-sort before P xs ps.1) (sort-IsSorted xs ps.1)

-- The order may be told in other words.
pub IsSorted-congr {ℓ} :
    {A : Type ℓ} (p q : A → A → Bool) (xs : List A)
    → ((x y : A) → p x y ≡ q x y)
    → IsSorted p xs
    → IsSorted q xs
IsSorted-congr p q [] e s = tt
IsSorted-congr p q (x ∷ xs) e s =
    (All-map xs (λ z h. sym (e z x) ∙ h) s.0, IsSorted-congr p q xs e s.1)

pub retain_congr {ℓ} :
    {A : Type ℓ} (p q : A → Bool) (xs : List A)
    → All (λ x. p x ≡ q x) xs
    → retain p xs ≡ retain q xs
unfolding retain
retain_congr p q [] h = refl
retain_congr p q (x ∷ xs) h = let e = retain_congr p q xs h.1 in ground (arith, h.0)

pub All-retain {ℓ κ} :
    {A : Type ℓ} (P : A → Type κ) (p : A → Bool) (xs : List A) → All P xs → All P (retain p xs)
unfolding retain
All-retain P p [] h = tt
All-retain P p (x ∷ xs) h = elim (Bool-cases (p x)) [
  | inl e ↦ rw e (h.0, All-retain P p xs h.1)
  | inr e ↦ rw e (All-retain P p xs h.1)
]

pub All-append {ℓ κ} :
    {A : Type ℓ} (P : A → Type κ) (xs ys : List A) → All P xs → All P ys → All P (xs ++ ys)
All-append P [] ys h k = k
All-append P (x ∷ xs) ys h k = (h.0, All-append P xs ys h.1 k)

module _ {ℓ} {A : Type ℓ} (before : A → A → Bool) (p : A → Bool) where
  any-insert : (y : A) (ys : List A) → any p (insert before y ys) ≡ (p y || any p ys)
  unfolding any insert
  any-insert y [] = refl
  any-insert y (z ∷ zs) = ground (arith, any-insert y zs)

  -- The sorted list has the same elements.
  pub any-sort : (xs : List A) → any p (sort before xs) ≡ any p xs
  unfolding any sort
  any-sort [] = refl
  any-sort (x ∷ xs) = any-insert x (sort before xs) ∙ ap (λ b. p x || b) (any-sort xs)

-- What is retained satisfies the test too.
pub All-retain_both {ℓ κ} :
    {A : Type ℓ} (P : A → Type κ) (p : A → Bool) (xs : List A)
    → All P xs
    → All (λ x. P x × (p x ≡ true)) (retain p xs)
unfolding retain
All-retain_both P p [] h = tt
All-retain_both P p (x ∷ xs) h = elim (Bool-cases (p x)) [
  | inl e ↦ rw e ((h.0, e), All-retain_both P p xs h.1)
  | inr e ↦ rw e (All-retain_both P p xs h.1)
]
