-- ===== src/Fusion/Partition.antt =====
-- The precision-first partition moves the documents with lexical standing ahead and is stable.
use lixun.Common.{
  Bool, true, false, not, List, [], ◌∷◌, ◌++◌, ◌≡◌, refl, ◌∙◌, Bool-cases, inl, inr, arith,
}
use mathlib.Core.List.{append-nil}
use lixun.Common.Text.{Text}
use lixun.Fusion.{filter_by, is_lexical, is_ann_only, precision_first}

module _ {ℓ} {A : Type ℓ} where
  pub filter_by-append :
      (p : A → Bool) (xs ys : List A) → filter_by p (xs ++ ys) ≡ filter_by p xs ++ filter_by p ys
  unfolding filter_by
  filter_by-append p [] ys = refl
  filter_by-append p (x ∷ xs) ys = elim (Bool-cases (p x)) [
    | inl e ↦ rw (e, filter_by-append p xs ys)
    | inr e ↦ rw (e, filter_by-append p xs ys)
  ]

  filter_by-filter_by : (p : A → Bool) (xs : List A) → filter_by p (filter_by p xs) ≡ filter_by p xs
  unfolding filter_by
  filter_by-filter_by p [] = refl
  filter_by-filter_by p (x ∷ xs) = elim (Bool-cases (p x)) [
    | inl e ↦ rw (e, filter_by, e, filter_by-filter_by p xs)
    | inr e ↦ rw (e, filter_by-filter_by p xs)
  ]

  filter_by-disjoint :
      (p q : A → Bool) (xs : List A)
      → ((x : A) → q x ≡ true → p x ≡ false)
      → filter_by p (filter_by q xs) ≡ []
  unfolding filter_by
  filter_by-disjoint p q [] h = refl
  filter_by-disjoint p q (x ∷ xs) h = elim (Bool-cases (q x)) [
    | inl e ↦ rw (e, filter_by, h x e) (filter_by-disjoint p q xs h)
    | inr e ↦ rw e (filter_by-disjoint p q xs h)
  ]

  -- The two parts of a partition, put together.
  abbrev parts : (A → Bool) → List A → List A
  parts p xs = filter_by p xs ++ filter_by (λ x. not (p x)) xs

  parts-accepted : (p : A → Bool) (xs : List A) → filter_by p (parts p xs) ≡ filter_by p xs
  parts-accepted p xs =
      filter_by-append p (filter_by p xs) (filter_by (λ x. not (p x)) xs)
      ∙ rw
          (filter_by-filter_by p xs, filter_by-disjoint p (λ x. not (p x)) xs (λ x e. ground arith))
          (append-nil (filter_by p xs))

  parts-rejected :
      (p : A → Bool) (xs : List A)
      → filter_by (λ x. not (p x)) (parts p xs) ≡ filter_by (λ x. not (p x)) xs
  parts-rejected p xs =
      filter_by-append (λ x. not (p x)) (filter_by p xs) (filter_by (λ x. not (p x)) xs)
      ∙ rw
          (
            filter_by-filter_by (λ x. not (p x)) xs,
            filter_by-disjoint (λ x. not (p x)) p xs (λ x e. rw e refl),
          )
          refl

-- Where there is a precision match, `precision_first` keeps the documents with lexical standing, and
-- the others, each in the order that they had, and no document without that standing comes before one
-- that has it.
pub precision_first_lem {ℓ} :
    {F : Type ℓ} (fused : List (Text × F)) (p : Text) (ps lexical_ids : List Text)
    → let out = precision_first fused (p ∷ ps) lexical_ids in
      (filter_by (is_lexical lexical_ids) out ≡ filter_by (is_lexical lexical_ids) fused)
      × (filter_by (is_ann_only lexical_ids) out ≡ filter_by (is_ann_only lexical_ids) fused)
      × (out ≡ filter_by (is_lexical lexical_ids) out ++ filter_by (is_ann_only lexical_ids) out)
unfolding precision_first
precision_first_lem fused p ps lexical_ids =
    let first = parts-accepted (is_lexical lexical_ids) fused in
    let second = parts-rejected (is_lexical lexical_ids) fused in
    (first, second, rw (first, second) refl)
