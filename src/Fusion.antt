-- ===== src/Fusion.antt =====
-- crates/lixun-fusion/src/rrf.rs: reciprocal rank fusion of ranked lists, and the precision-first
-- partition. Fusion.Page models src/handle.rs, which makes a page of results of it. A `HashMap` is a
-- `Dict` here; the fused documents are sorted by score and id, so its order does not matter.
pub mod Hits
pub mod Page
pub mod Scores
pub mod Partition
pub mod Order
mod Tests
use lixun.Common.{
  ℕ, suc, ◌+◌, Bool, true, false, not, ◌&&◌, ◌||◌, Option, none, some, List, [], ◌∷◌, ◌++◌,
  if◌then◌else◌,
}
use lixun.Common.Text.{Text, text_eq, text_lt}
use lixun.Common.Dict.{Dict, get, put}
use lixun.Common.Float.{Float}
use lixun.Common.Sort.{sort}

-- A set of ids: `contains`.
unfoldable pub contains : List Text → Text → Bool
contains [] k = false
contains (x ∷ xs) k = text_eq x k || contains xs k

module _ {ℓ} {F : Type ℓ} (fl : Float F) where
  -- `or_insert(0.0)`.
  unfoldable pub or_zero : Option F → F
  or_zero none = fl.decimal 0 0
  or_zero (some x) = x

  -- `w / (k + rank)`.
  unfoldable pub share : F → F → ℕ → F
  share w k rank = fl.div w (fl.add k (fl.of_nat rank))

  -- The loop over one list, at position `pos`.
  unfoldable pub add_list : F → F → ℕ → List (Text × F) → Dict F → Dict F
  unfolding or_zero share
  add_list w k pos [] fused = fused
  add_list w k pos ((doc_id, _) ∷ docs) fused =
      add_list w k (suc pos) docs
        (put doc_id (fl.add (or_zero (get doc_id fused)) (share w k (pos + 1))) fused)

  -- The higher score first, then the smaller id; scores that do not compare count as equal.
  unfoldable pub fused_before : Text × F → Text × F → Bool
  fused_before (i, x) (j, y) = fl.lt y x || (not (fl.lt x y) && text_lt i j)

  unfoldable pub rrf_fuse : List (Text × F) → List (Text × F) → F → List (Text × F)
  unfolding add_list fused_before
  rrf_fuse bm25 ann k =
      let one : F = fl.decimal 1 0 in
      sort fused_before (add_list one k 0 ann (add_list one k 0 bm25 []))

  -- The map that the three lists leave behind.
  unfoldable pub fused_scores :
      List (Text × F) → List (Text × F) → List (Text × F) → F → F × F × F → Dict F
  unfolding add_list
  fused_scores bm25 text_ann image_ann k (w_bm25, w_text, w_image) =
      add_list w_image k 0 image_ann (add_list w_text k 0 text_ann (add_list w_bm25 k 0 bm25 []))

  unfoldable pub rrf_fuse_3way_weighted :
      List (Text × F) → List (Text × F) → List (Text × F) → F → F × F × F → List (Text × F)
  unfolding fused_scores fused_before
  rrf_fuse_3way_weighted bm25 text_ann image_ann k weights =
      sort fused_before (fused_scores bm25 text_ann image_ann k weights)

  unfoldable pub rrf_fuse_3way :
      List (Text × F) → List (Text × F) → List (Text × F) → F → List (Text × F)
  unfolding rrf_fuse_3way_weighted
  rrf_fuse_3way bm25 text_ann image_ann k =
      let one : F = fl.decimal 1 0 in
      rrf_fuse_3way_weighted bm25 text_ann image_ann k (one, one, one)

-- `filter`; `partition` is this for a test and for its negation.
unfoldable pub filter_by {ℓ} : {A : Type ℓ} → (A → Bool) → List A → List A
filter_by p [] = []
filter_by p (x ∷ xs) = let rest = filter_by p xs in if p x then x ∷ rest else rest

unfoldable pub is_lexical {ℓ} : {F : Type ℓ} → List Text → Text × F → Bool
unfolding contains
is_lexical lexical_ids (id, x) = contains lexical_ids id

abbrev pub is_ann_only {ℓ} : {F : Type ℓ} → List Text → Text × F → Bool
is_ann_only lexical_ids doc = not (is_lexical lexical_ids doc)

unfoldable pub precision_first {ℓ} :
    {F : Type ℓ} → List (Text × F) → List Text → List Text → List (Text × F)
unfolding filter_by is_lexical
precision_first fused [] lexical_ids = fused
precision_first fused (p ∷ ps) lexical_ids =
    filter_by (is_lexical lexical_ids) fused ++ filter_by (is_ann_only lexical_ids) fused
