-- ===== src/TopHit/Laws.antt =====
-- crates/lixun-daemon/src/top_hit.rs: the selection, described without the multipliers and the maxima.
use lixun.Common.{
  ℕ, Bool, true, false, none, some, List, [], ◌∷◌, ◌≡◌, refl, arith, inl, inr, if◌then◌else◌, ◌&&◌,
  ◌||◌, not, Bool-cases,
}
use lixun.Common.Text.{Text, starts_with, is_empty}
use lixun.Common.Int.{ℤ}
use lixun.Common.Float.{Float, IsIeee}
use lixun.Frecency.{FrecencyStore, raw}
use lixun.QueryLatch.{QueryLatchStore, strong}
use lixun.Normalize.{normalize_for_match}
use lixun.Scoring.{CharTable, prefix_mult, acronym_mult, acronym_initials}
use lixun.Fusion.Hits.{Hit}
use lixun.TopHit.{
  epsilon, frecency_dominance_min_raw, frecency_dominance_ratio, max_f32, one_if,
  frecency_dominance, margin_of, select_top_hit,
}

-- The query is not empty and begins the text.
abbrev pub matches_prefix : Text → Text → Bool
matches_prefix s q = not (is_empty q) && starts_with s q

module _ (nfkd to_lowercase : Text → Text) (chars : CharTable) where
  -- The query begins the title or its initials.
  abbrev pub matches_title : Text → Text → Bool
  matches_title q_raw t =
      let q = normalize_for_match nfkd to_lowercase q_raw in
      matches_prefix (normalize_for_match nfkd to_lowercase t) q
      || matches_prefix (normalize_for_match nfkd to_lowercase (acronym_initials chars t)) q

module _ {F R : Type 0} (fl : Float F) where
  -- The candidate is used enough, and twice as much as the second hit, where there is one.
  abbrev pub leads : FrecencyStore → ℤ → List (Hit F R) → Bool
  leads frecency now [] = false
  leads frecency now (h ∷ []) = fl.le (frecency_dominance_min_raw fl) (raw fl frecency h.id now)
  leads frecency now (h ∷ runner ∷ hits) =
      fl.le (frecency_dominance_min_raw fl) (raw fl frecency h.id now)
      && fl.le
          (fl.mul (frecency_dominance_ratio fl)
            (max_f32 fl (raw fl frecency runner.id now) (epsilon fl)))
          (raw fl frecency h.id now)

module _ {F : Type 0} (fl : Float F) where
  -- What IEEE 754 says of 0, 1 and 2.
  pub record KnowsOne : Type 0 where
    pub zero_lt_one : fl.lt (fl.decimal 0 1) (fl.decimal 10 1) ≡ true
    pub one_lt_two : fl.lt (fl.decimal 10 1) (fl.decimal 20 1) ≡ true

  module _ (ieee : IsIeee fl) (one : KnowsOne) where
    lt_irrefl : (x : F) → fl.lt x x ≡ false
    lt_irrefl x = elim (Bool-cases (fl.lt x x)) [ inl e ↦ ieee.lt_asym x x e | inr e ↦ e ]

    decimal_self :
        (digits places : ℕ) → fl.le (fl.decimal digits places) (fl.decimal digits places) ≡ true
    decimal_self digits places = ieee.decimal_le places digits digits (omega arith)

    max_f32-one_if : (a b : Bool) → max_f32 fl (one_if fl a) (one_if fl b) ≡ one_if fl (a || b)
    unfolding max_f32 one_if
    max_f32-one_if true true = rw (lt_irrefl (fl.decimal 10 1), decimal_self 10 1) refl
    max_f32-one_if true false =
        rw (ieee.lt_asym (fl.decimal 0 1) (fl.decimal 10 1) one.zero_lt_one, decimal_self 10 1) refl
    max_f32-one_if false true = rw (one.zero_lt_one, decimal_self 0 1) refl
    max_f32-one_if false false = rw (lt_irrefl (fl.decimal 0 1), decimal_self 0 1) refl

    prefix_mult-matches_prefix :
        (s q : Text)
        → fl.lt (fl.decimal 10 1) (prefix_mult fl s q (fl.decimal 20 1)) ≡ matches_prefix s q
    unfolding prefix_mult
    prefix_mult-matches_prefix s q = ground (arith, lt_irrefl (fl.decimal 10 1), one.one_lt_two)

    module _ {R : Type 0} (infinity neg_infinity : F) (title : R → Text)
        (nfkd to_lowercase : Text → Text) (chars : CharTable) where
      acronym_mult-matches_prefix :
          (t q : Text)
          → fl.lt (fl.decimal 10 1) (acronym_mult fl nfkd to_lowercase chars t q (fl.decimal 20 1))
            ≡ matches_prefix (normalize_for_match nfkd to_lowercase (acronym_initials chars t)) q
      unfolding acronym_mult
      acronym_mult-matches_prefix t q = ground (arith, lt_irrefl (fl.decimal 10 1), one.one_lt_two)

      frecency_dominance-leads :
          (h : Hit F R) (hits : List (Hit F R)) (frecency : FrecencyStore) (now : ℤ)
          → frecency_dominance fl h (h ∷ hits) frecency now
            ≡ one_if fl (leads fl frecency now (h ∷ hits))
      unfolding frecency_dominance
      frecency_dominance-leads h [] frecency now = refl
      frecency_dominance-leads h (runner ∷ hits) frecency now = refl

      one_if-le :
          (m : F) (b : Bool)
          → fl.le m (fl.decimal 10 1) ≡ true
          → fl.le m (fl.decimal 0 1) ≡ false
          → fl.le m (one_if fl b) ≡ b
      unfolding one_if
      one_if-le m true h k = h
      one_if-le m false h k = k

      -- With the laws of IEEE 754 and a least confidence above 0 and at most 1: the first hit is promoted
      -- exactly where its score is far enough above the second one's, and the query begins its title or its
      -- initials, or it has a strong latch for the query, or it leads in frecency.
      pub select_top_hit_lem :
          (q_raw : Text) (h : Hit F R) (hits : List (Hit F R)) (frecency : FrecencyStore)
          (latch : QueryLatchStore) (now : ℤ) (min_confidence min_margin : F) (threshold : ℕ)
          → fl.le min_confidence (fl.decimal 10 1) ≡ true
          → fl.le min_confidence (fl.decimal 0 1) ≡ false
          → (select_top_hit fl infinity neg_infinity title nfkd to_lowercase chars q_raw
              (h ∷ hits)
              frecency
              latch
              now
              min_confidence
              min_margin
              threshold).id
            ≡ (if ((matches_title nfkd to_lowercase chars q_raw (title h.rest)
                      || strong nfkd to_lowercase latch q_raw h.id threshold)
                    || leads fl frecency now (h ∷ hits))
                  && fl.le min_margin (margin_of fl infinity (h ∷ hits))
                then some h.id
                else none)
      unfolding select_top_hit
      select_top_hit_lem q_raw h hits frecency latch now min_confidence min_margin threshold le_one
            gt_zero =
          let q = normalize_for_match nfkd to_lowercase q_raw in
          let t = normalize_for_match nfkd to_lowercase (title h.rest) in
          let matches = matches_title nfkd to_lowercase chars q_raw (title h.rest) in
          let is_strong = strong nfkd to_lowercase latch q_raw h.id threshold in
          let is_leading = leads fl frecency now (h ∷ hits) in
          rw
            (
              prefix_mult-matches_prefix t q,
              acronym_mult-matches_prefix (title h.rest) q,
              frecency_dominance-leads h hits frecency now,
              max_f32-one_if matches is_strong,
              max_f32-one_if (matches || is_strong) is_leading,
              one_if-le min_confidence ((matches || is_strong) || is_leading) le_one gt_zero,
            )
            refl
