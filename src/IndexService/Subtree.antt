-- ===== src/IndexService/Subtree.antt =====
-- Which ids `collect_subtree_ids` finds.
use lixun.Common.{
  Bool, ◌&&◌, ◌||◌, some, List, [], ◌∷◌, ◌++◌, ◌≡◌, refl, arith, any, retain, any-append,
  Option-cases, inl, inr, Bool-cases, ◌∙◌,
}
use lixun.Common.Text.{Text, text_eq, text_eq_iff, eq_of_text_eq, text_eq_refl, text_lt}
use lixun.Common.Sort.{sort, any-sort}
use lixun.Index.{IndexConfig, LixunIndex, all_doc_ids, has_live, live_terms, collect_ids}
use lixun.Index.Spec.{is_alive, has_id, IsTantivy, IsReliable}
use lixun.IndexService.{MutationBatch, id_in_subtree}
use lixun.IndexService.Apply.{dedup_from, dedup, staged_ids, collect_subtree_ids}

-- `Vec::contains`.
abbrev pub contains : Text → List Text → Bool
contains k ks = any (λ j. text_eq k j) ks

contains-dedup_from :
    (k x : Text) (xs : List Text) → contains k (x ∷ dedup_from x xs) ≡ contains k (x ∷ xs)
unfolding dedup_from any
contains-dedup_from k x [] = refl
contains-dedup_from k x (y ∷ ys) =
    ground (arith, contains-dedup_from k x ys, contains-dedup_from k y ys, text_eq_iff x y)

contains-dedup : (k : Text) (xs : List Text) → contains k (dedup xs) ≡ contains k xs
unfolding dedup
contains-dedup k [] = refl
contains-dedup k (x ∷ xs) = contains-dedup_from k x xs

contains-retain :
    (k : Text) (p : Text → Bool) (xs : List Text)
    → contains k (retain p xs) ≡ (p k && contains k xs)
unfolding any retain
contains-retain k p [] = ground arith
contains-retain k p (x ∷ xs) = elim (Bool-cases (text_eq k x)) [
  | inl e ↦ rw (← eq_of_text_eq k x e) (ground (arith, contains-retain k p xs, text_eq_refl k))
  | inr e ↦ ground (arith, contains-retain k p xs)
]

has_live-any : (bs : List Bool) → has_live bs ≡ any (λ b. b) bs
unfolding has_live any
has_live-any [] = refl
has_live-any (b ∷ bs) = ground (arith, has_live-any bs)

contains-live_terms :
    (k : Text) (ts : List (Text × List Bool))
    → contains k (live_terms ts)
      ≡ any (λ (t : Text × List Bool). text_eq k t.0 && any (λ b. b) t.1) ts
unfolding live_terms any
contains-live_terms k [] = refl
contains-live_terms k ((t, bs) ∷ ts) = ground (arith, contains-live_terms k ts, has_live-any bs)

pub contains-collect_ids :
    (k : Text) (segments : List (List (Text × List Bool)))
    → contains k (collect_ids segments) ≡ is_alive k segments
unfolding collect_ids any
contains-collect_ids k [] = refl
contains-collect_ids k (s ∷ ss) =
    any-append (λ j. text_eq k j) (live_terms s) (collect_ids ss)
    ∙ rw (contains-live_terms k s, contains-collect_ids k ss) refl

module _ {W : Type 0} (cfg : IndexConfig W) (laws : IsTantivy cfg.tantivy)
    (reliable : IsReliable cfg.tantivy) where
  contains-all_doc_ids :
      (ix : LixunIndex W) (k : Text)
      → (ids : List Text) × (all_doc_ids cfg ix ≡ some ids)
        × (contains k ids ≡ has_id k (laws.live ix.writer))
  unfolding all_doc_ids
  contains-all_doc_ids ix k = elim (Option-cases (cfg.tantivy.id_terms ix.writer)) [
    | inl e ↦ absurd (reliable.ids_ok ix.writer e)
    | inr (segments, e) ↦ (
      collect_ids segments,
      rw (e, all_doc_ids) refl,
      contains-collect_ids k segments ∙ laws.ids_live ix.writer segments k e,
    )
  ]

  -- The ids of the subtree that the reader sees, or that are staged.
  pub contains-collect_subtree_ids :
      (ix : LixunIndex W) (b : MutationBatch) (p k : Text)
      → contains k (collect_subtree_ids cfg ix b p) ≡ (
          id_in_subtree k p
          && (has_id k (laws.live ix.writer) || contains k (staged_ids b.upserts)))
  unfolding collect_subtree_ids
  contains-collect_subtree_ids ix b p k =
      let (ids, e, f) = contains-all_doc_ids ix k in
      let staged = staged_ids b.upserts in
      let inside : Text → Bool = λ j. id_in_subtree j p in
      rw (e, collect_subtree_ids)
        (contains-dedup k (sort text_lt (retain inside ids ++ retain inside staged))
          ∙ any-sort text_lt (λ j. text_eq k j) (retain inside ids ++ retain inside staged)
          ∙ any-append (λ j. text_eq k j) (retain inside ids) (retain inside staged)
          ∙ rw (contains-retain k inside ids, contains-retain k inside staged, f) (ground arith))
