-- ===== src/Fusion/Scores.antt =====
-- The scores of the fused documents.
use mathlib.Core.List.{Perm}
use lixun.Common.{
  ℕ, suc, ◌+◌, Option, none, some, List, [], ◌∷◌, ◌≡◌, refl, ◌∙◌, arith, if◌then◌else◌, Bool-cases,
  inl, inr,
}
use lixun.Common.Text.{Text, text_eq, eq_of_text_eq}
use lixun.Common.Dict.{Dict, get, put, get-put, HasDistinctKeys, put-HasDistinctKeys}
use lixun.Common.Float.{Float}
use lixun.Common.Sort.{sort-perm}
use lixun.Fusion.{
  or_zero, share, add_list, fused_before, rrf_fuse, rrf_fuse_3way, fused_scores,
  rrf_fuse_3way_weighted,
}

-- The ranks at which a document stands in a list, of which the first is `rank`.
unfoldable pub ranks_from {ℓ} : {F : Type ℓ} → ℕ → Text → List (Text × F) → List ℕ
ranks_from rank id [] = []
ranks_from rank id ((j, x) ∷ docs) =
    let rest = ranks_from (suc rank) id docs in if text_eq j id then rank ∷ rest else rest

module _ {ℓ} {F : Type ℓ} (fl : Float F) where
  -- Specification: a score to which one share for each rank has been added.
  unfoldable pub credit : F → F → Option F → List ℕ → Option F
  credit w k score [] = score
  credit w k score (r ∷ rs) = credit w k (some (fl.add (or_zero fl score) (share fl w k r))) rs

  get-add_list :
      (w k : F) (id : Text) (pos : ℕ) (docs : List (Text × F)) (fused : Dict F)
      → get id (add_list fl w k pos docs fused)
        ≡ credit w k (get id fused) (ranks_from (suc pos) id docs)
  unfolding add_list credit ranks_from
  get-add_list w k id pos [] fused = refl
  get-add_list w k id pos ((j, x) ∷ docs) fused =
      let s : F = fl.add (or_zero fl (get j fused)) (share fl w k (pos + 1)) in
      let e : pos + 1 ≡ suc pos = omega arith in
      get-add_list w k id (suc pos) docs (put j s fused)
      ∙ rw (get-put j id s fused) (elim (Bool-cases (text_eq j id)) [
        | inl h ↦ rw (h, eq_of_text_eq j id h, e, credit) refl
        | inr h ↦ rw h refl
      ])

  add_list-HasDistinctKeys :
      (w k : F) (pos : ℕ) (docs : List (Text × F)) (fused : Dict F)
      → HasDistinctKeys fused
      → HasDistinctKeys (add_list fl w k pos docs fused)
  unfolding add_list
  add_list-HasDistinctKeys w k pos [] fused h = h
  add_list-HasDistinctKeys w k pos ((j, x) ∷ docs) fused h =
      add_list-HasDistinctKeys w k (suc pos) docs _ (put-HasDistinctKeys j _ fused h)

  -- Every document of the three lists is in the fused list once, with one share of the weight of a
  -- list for each rank that it has there; no other document is.
  pub rrf_fuse_3way_weighted_lem :
      (bm25 text_ann image_ann : List (Text × F)) (k w_bm25 w_text w_image : F)
      → (scores : Dict F) × Perm
          (rrf_fuse_3way_weighted fl bm25 text_ann image_ann k (w_bm25, w_text, w_image))
          scores
        × HasDistinctKeys scores
        × ((id : Text)
            → get id scores
              ≡ credit w_image k
                  (credit w_text k
                    (credit w_bm25 k none (ranks_from 1 id bm25))
                    (ranks_from 1 id text_ann))
                  (ranks_from 1 id image_ann))
  unfolding rrf_fuse_3way_weighted fused_scores
  rrf_fuse_3way_weighted_lem bm25 text_ann image_ann k w_bm25 w_text w_image =
      let first : Dict F = add_list fl w_bm25 k 0 bm25 [] in
      let second : Dict F = add_list fl w_text k 0 text_ann first in
      let third : Dict F = add_list fl w_image k 0 image_ann second in
      (
        third,
        sort-perm (fused_before fl) third,
        add_list-HasDistinctKeys w_image k 0 image_ann second (
            add_list-HasDistinctKeys w_text k 0 text_ann first
              (add_list-HasDistinctKeys w_bm25 k 0 bm25 [] tt)),
        λ id.
            get-add_list w_image k id 0 image_ann second
            ∙ rw (get-add_list w_text k id 0 text_ann first, get-add_list w_bm25 k id 0 bm25 [])
                (unfold get in refl),
      )

  -- With weights of 1.0 and no image hits the weighted fusion is the plain one of two lists.
  pub rrf_fuse_3way-rrf_fuse :
      (bm25 ann : List (Text × F)) (k : F) → rrf_fuse_3way fl bm25 ann [] k ≡ rrf_fuse fl bm25 ann k
  unfolding rrf_fuse_3way rrf_fuse
  rrf_fuse_3way-rrf_fuse bm25 ann k = refl
