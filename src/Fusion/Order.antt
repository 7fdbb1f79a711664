-- ===== src/Fusion/Order.antt =====
-- The order of the fused documents.
use lixun.Common.{
  Bool, not, ◌&&◌, ◌||◌, refl, ℕ, suc, ◌+◌, true, false, List, [], ◌∷◌, ◌≡◌, arith, Bool-cases, inl,
  inr,
}
use lixun.Common.Text.{Text, text_lt, text_eq, text_lt-asym, text_lt-neg_trans}
use lixun.Common.Dict.{Dict, get, put}
use lixun.Common.Float.{Float, IsNonneg, IsIeee}
use lixun.Common.Sort.{All, sort-IsSorted, IsSorted, IsSorted-congr}
use lixun.Fusion.{or_zero, share, add_list, fused_before, fused_scores, rrf_fuse_3way_weighted}

module _ {ℓ} {F : Type ℓ} (fl : Float F) (laws : IsIeee fl) where
  open laws use {lt_asym, lt_neg_trans, decimal_nonneg, add_nonneg}

  fused_before-asym : (p q : Text × F) → fused_before fl p q ≡ true → fused_before fl q p ≡ false
  unfolding fused_before
  fused_before-asym (i, x) (j, y) h = ground (arith, lt_asym y x, lt_asym x y, text_lt-asym i j)

  abbrev ScoreNonneg : Text × F → Type 0
  ScoreNonneg p = IsNonneg fl p.1

  fused_before-neg_trans :
      (p q r : Text × F)
      → ScoreNonneg p
      → ScoreNonneg q
      → ScoreNonneg r
      → fused_before fl p q ≡ false
      → fused_before fl q r ≡ false
      → fused_before fl p r ≡ false
  unfolding fused_before
  fused_before-neg_trans (i, x) (j, y) (k, z) px py pz h g = ground (
    arith,
    lt_neg_trans z y x pz py px,
    lt_neg_trans x z y px pz py,
    lt_neg_trans y x z py px pz,
    text_lt-neg_trans i j k,
  )

  All-put :
      (id : Text) (x : F) (fused : Dict F)
      → IsNonneg fl x
      → All ScoreNonneg fused
      → All ScoreNonneg (put id x fused)
  unfolding put
  All-put id x [] h a = (h, tt)
  All-put id x ((j, y) ∷ fused) h a = elim (Bool-cases (text_eq j id)) [
    | inl e ↦ rw e (h, a.1)
    | inr e ↦ rw e (a.0, All-put id x fused h a.1)
  ]

  or_zero-IsNonneg :
      (id : Text) (fused : Dict F) → All ScoreNonneg fused → IsNonneg fl (or_zero fl (get id fused))
  unfolding or_zero get
  or_zero-IsNonneg id [] a = decimal_nonneg 0 0
  or_zero-IsNonneg id ((j, y) ∷ fused) a = elim (Bool-cases (text_eq j id)) [
    | inl e ↦ rw e a.0
    | inr e ↦ rw e (or_zero-IsNonneg id fused a.1)
  ]

  -- No share of the weight is negative or no number.
  abbrev pub SharesNonneg : F → F → Type 0
  SharesNonneg w k = (rank : ℕ) → IsNonneg fl (share fl w k rank)

  add_list-nonneg :
      (w k : F) (pos : ℕ) (docs : List (Text × F)) (fused : Dict F)
      → SharesNonneg w k
      → All ScoreNonneg fused
      → All ScoreNonneg (add_list fl w k pos docs fused)
  unfolding add_list
  add_list-nonneg w k pos [] fused h a = a
  add_list-nonneg w k pos ((j, x) ∷ docs) fused h a =
      add_list-nonneg w k (suc pos) docs _ h
        (All-put j _ fused (add_nonneg _ _ (or_zero-IsNonneg j fused a) (h (pos + 1))) a)

  -- The higher score first, then the smaller id.
  abbrev pub ranks_higher : Text × F → Text × F → Bool
  ranks_higher p q = fl.lt q.1 p.1 || (not (fl.lt p.1 q.1) && text_lt p.0 q.0)

  fused_before-ranks_higher : (p q : Text × F) → fused_before fl p q ≡ ranks_higher p q
  unfolding fused_before
  fused_before-ranks_higher (i, x) (j, y) = refl

  -- Where no share is negative, the fused list is sorted: the higher score first, and of equal scores the
  -- smaller id.
  pub rrf_fuse_3way_weighted-IsSorted :
      (bm25 text_ann image_ann : List (Text × F)) (k w_bm25 w_text w_image : F)
      → SharesNonneg w_bm25 k
      → SharesNonneg w_text k
      → SharesNonneg w_image k
      → IsSorted ranks_higher
          (rrf_fuse_3way_weighted fl bm25 text_ann image_ann k (w_bm25, w_text, w_image))
  unfolding rrf_fuse_3way_weighted fused_scores
  rrf_fuse_3way_weighted-IsSorted bm25 text_ann image_ann k w_bm25 w_text w_image hb ht hi =
      IsSorted-congr (fused_before fl) ranks_higher _ fused_before-ranks_higher (
        sort-IsSorted (fused_before fl) ScoreNonneg fused_before-asym fused_before-neg_trans _ (
          add_list-nonneg w_image k 0 image_ann _ hi
            (add_list-nonneg w_text k 0 text_ann _ ht (add_list-nonneg w_bm25 k 0 bm25 [] hb tt))))
