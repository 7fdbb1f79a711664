-- ===== src/Frecency/Ranking.antt =====
-- The ranking of `top_docs`, and the weights of ages.
use mathlib.Core.List.{Perm}
use lixun.Common.{
  Bool, ◌||◌, ◌&&◌, not, ℕ, ◌≤◌, ◌/◌, true, false, List, [], ◌∷◌, ◌≡◌, refl, arith, take,
  Bool-cases, inl, inr, Option-cases, retain, map, ap,
}
use lixun.Common.Text.{Text, text_lt, text_lt-asym, text_lt-neg_trans}
use lixun.Common.Dict.{Dict, get}
use lixun.Common.Int.{ℤ, pos, negsuc, ◌≤ℤ◌, pos_part, sub_i64}
use lixun.Common.Float.{Float, IsNonneg, IsIeee}
use lixun.Common.Sort.{All, sort, sort-perm, All-map, IsSorted, IsSorted-congr, sort-IsSorted}
use lixun.Frecency.{
  Visits, FrecencyStore, day_weight, bucket_weight, sum_weights, raw, ranks_before, scored, ids,
  top_docs, seconds_per_day,
}

module _ {ℓ} {F : Type ℓ} (fl : Float F) (laws : IsIeee fl) where
  open laws use {lt_asym, lt_neg_trans, decimal_le, decimal_nonneg, sum_start_nonneg, add_nonneg}

  day_weight-antitone : (d e : ℕ) → d ≤ e → fl.le (day_weight fl e) (day_weight fl d) ≡ true
  unfolding day_weight
  day_weight-antitone d e h = ground (
    arith,
    decimal_le 2 10 10 (omega arith),
    decimal_le 2 10 30 (omega arith),
    decimal_le 2 10 50 (omega arith),
    decimal_le 2 10 70 (omega arith),
    decimal_le 2 10 100 (omega arith),
    decimal_le 2 30 30 (omega arith),
    decimal_le 2 30 50 (omega arith),
    decimal_le 2 30 70 (omega arith),
    decimal_le 2 30 100 (omega arith),
    decimal_le 2 50 50 (omega arith),
    decimal_le 2 50 70 (omega arith),
    decimal_le 2 50 100 (omega arith),
    decimal_le 2 70 70 (omega arith),
    decimal_le 2 70 100 (omega arith),
    decimal_le 2 100 100 (omega arith),
  )

  -- Of two visits the older never weighs more; an age below zero counts as zero.
  bucket_weight-antitone :
      (a b : ℤ) → a ≤ℤ b → fl.le (bucket_weight fl b) (bucket_weight fl a) ≡ true
  unfolding bucket_weight
  bucket_weight-antitone (pos m) (pos n) h =
      day_weight-antitone (m / seconds_per_day) (n / seconds_per_day) (omega arith)
  bucket_weight-antitone (pos m) (negsuc n) h = absurd (omega arith)
  bucket_weight-antitone (negsuc m) b h =
      day_weight-antitone (0 / seconds_per_day) (pos_part b / seconds_per_day) (omega arith)

  day_weight-IsNonneg : (d : ℕ) → IsNonneg fl (day_weight fl d)
  unfolding day_weight
  day_weight-IsNonneg d = ground (
    arith,
    decimal_nonneg 100 2,
    decimal_nonneg 70 2,
    decimal_nonneg 50 2,
    decimal_nonneg 30 2,
    decimal_nonneg 10 2,
  )

  sum_weights-IsNonneg :
      (now : ℤ) (acc : F) (vs : Visits) → IsNonneg fl acc → IsNonneg fl (sum_weights fl now acc vs)
  unfolding sum_weights bucket_weight
  sum_weights-IsNonneg now acc [] h = h
  sum_weights-IsNonneg now acc (v ∷ vs) h =
      sum_weights-IsNonneg now (fl.add acc (bucket_weight fl (sub_i64 now v.ts))) vs
        (add_nonneg acc _ h (day_weight-IsNonneg (pos_part (sub_i64 now v.ts) / seconds_per_day)))

  raw-IsNonneg : (s : FrecencyStore) (id : Text) (now : ℤ) → IsNonneg fl (raw fl s id now)
  unfolding raw
  raw-IsNonneg s id now = elim (Option-cases (get id s.records)) [
    | inl e ↦ rw (e, raw) (decimal_nonneg 0 0)
    | inr (vs, e) ↦ rw (e, raw) (sum_weights-IsNonneg now fl.sum_start vs sum_start_nonneg)
  ]

  ranks_before-asym : (p q : F × Text) → ranks_before fl p q ≡ true → ranks_before fl q p ≡ false
  unfolding ranks_before
  ranks_before-asym (x, i) (y, j) h = ground (arith, lt_asym y x, lt_asym x y, text_lt-asym i j)

  abbrev pub ScoreNonneg : F × Text → Type 0
  ScoreNonneg p = IsNonneg fl p.0

  ranks_before-neg_trans :
      (p q r : F × Text)
      → ScoreNonneg p
      → ScoreNonneg q
      → ScoreNonneg r
      → ranks_before fl p q ≡ false
      → ranks_before fl q r ≡ false
      → ranks_before fl p r ≡ false
  unfolding ranks_before
  ranks_before-neg_trans (x, i) (y, j) (z, k) px py pz h g = ground (
    arith,
    lt_neg_trans z y x pz py px,
    lt_neg_trans x z y px pz py,
    lt_neg_trans y x z py px pz,
    text_lt-neg_trans i j k,
  )

  abbrev IsScored : FrecencyStore → ℤ → F × Text → Type ℓ
  IsScored s now p = p.0 ≡ raw fl s p.1 now

  -- The documents of the store with a score above zero, each with its score.
  abbrev pub above_zero : FrecencyStore → ℤ → Dict Visits → List (F × Text)
  above_zero s now rs =
      retain (λ (p : F × Text). fl.lt (fl.decimal 0 0) p.0)
        (map (λ (r : Text × Visits). (raw fl s r.0 now, r.0)) rs)

  scored-above_zero :
      (s : FrecencyStore) (now : ℤ) (rs : Dict Visits) → scored fl s now rs ≡ above_zero s now rs
  unfolding scored retain
  scored-above_zero s now [] = refl
  scored-above_zero s now ((id, vs) ∷ rs) = ground (arith, scored-above_zero s now rs)

  All-scored :
      (s : FrecencyStore) (now : ℤ) (rs : Dict Visits) → All (IsScored s now) (scored fl s now rs)
  unfolding scored
  All-scored s now [] = tt
  All-scored s now ((id, vs) ∷ rs) = elim (Bool-cases (fl.lt (fl.decimal 0 0) (raw fl s id now))) [
    | inl e ↦ rw e (refl, All-scored s now rs)
    | inr e ↦ rw e (All-scored s now rs)
  ]

  All-nonneg :
      (s : FrecencyStore) (now : ℤ) (ps : List (F × Text))
      → All (IsScored s now) ps
      → All ScoreNonneg ps
  All-nonneg s now ps = All-map ps (λ p h. rw h (raw-IsNonneg s p.1 now))

  ids-map : (ps : List (F × Text)) → ids fl ps ≡ map (λ (p : F × Text). p.1) ps
  unfolding ids
  ids-map [] = refl
  ids-map ((x, id) ∷ ps) = ap (λ r. id ∷ r) (ids-map ps)

  -- The higher score first, then the smaller id.
  abbrev pub ranks_higher : F × Text → F × Text → Bool
  ranks_higher p q = fl.lt q.0 p.0 || (not (fl.lt p.0 q.0) && text_lt p.1 q.1)

  ranks_before-ranks_higher : (p q : F × Text) → ranks_before fl p q ≡ ranks_higher p q
  unfolding ranks_before
  ranks_before-ranks_higher (x, i) (y, j) = refl

  -- `top_docs` gives the first `limit` ids of a list that holds each record of the store with a score
  -- above zero once and nothing else, the higher score first, then the smaller id.
  pub top_docs_lem :
      (s : FrecencyStore) (now : ℤ) (limit : ℕ)
      → (ranked : List (F × Text)) × (top_docs fl s now limit
          ≡ map (λ (p : F × Text). p.1) (take limit ranked))
        × Perm ranked (above_zero s now s.records)
        × IsSorted ranks_higher ranked
  unfolding top_docs
  top_docs_lem s now limit =
      let found : List (F × Text) = scored fl s now s.records in
      (
        sort (ranks_before fl) found,
        ids-map (take limit (sort (ranks_before fl) found)),
        rw (← scored-above_zero s now s.records) (sort-perm (ranks_before fl) found),
        IsSorted-congr (ranks_before fl) ranks_higher (sort (ranks_before fl) found)
            ranks_before-ranks_higher
            (sort-IsSorted (ranks_before fl) ScoreNonneg ranks_before-asym ranks_before-neg_trans
              found (All-nonneg s now found (All-scored s now s.records))),
      )
