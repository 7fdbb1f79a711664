-- ===== src/IndexService/Orphans.antt =====
-- No document stays under a deleted prefix: the tombstones of the batch.
use lixun.Common.{
  true, false, not, ◌||◌, Option, some, List, [], ◌∷◌, ◌≡◌, arith, any, any-append, Option-cases,
  inl, inr, Bool-cases, ◌∙◌,
}
use lixun.Common.Text.{Text, text_eq, text_eq_iff, eq_of_text_eq}
use lixun.Common.Int.{ℤ}
use lixun.Common.Sort.{All, All-map, All-append, All-retain, All-retain_both}
use lixun.Document.{Document}
use lixun.Index.{IndexConfig, id_term}
use lixun.Index.Convert.{TantivyDocument, to_tantivy, doc_from_tantivy}
use lixun.Index.Spec.{Docs, remove_term, find_doc}
use lixun.IndexService.{
  Mutation, upsert_one, delete_one, upsert_many, delete_many, delete_subtree,
  delete_source_instance, upsert_body, barrier, applied, shutdown, commit_now, id_in_subtree,
  id_tombstoned,
}
use lixun.IndexService.Apply.{is_stale, add_tombstone}
use lixun.IndexService.Staged.{put, remove_subtree}
use lixun.IndexService.Refines.{
  View, put_in, spec_upsert, spec_upserts, spec_subtree, spec_found, spec_body, spec,
}
use lixun.IndexService.Covered.{to_tantivy-id}

-- No working document lies under a tombstone.
abbrev pub IsFree : View → Type 0
IsFree v = All (λ (d : TantivyDocument). id_tombstoned d.id v.tombstones ≡ false) v.working

tombstoned-add_tombstone :
    (k p : Text) (ts : List Text)
    → id_tombstoned k (add_tombstone p ts) ≡ (id_tombstoned k ts || id_in_subtree k p)
unfolding id_tombstoned add_tombstone any
tombstoned-add_tombstone k p ts = elim (Bool-cases (any (λ t. text_eq t p) ts)) [
  | inr e ↦ rw (e, add_tombstone) (any-append (λ t. id_in_subtree k t) ts (p ∷ []) ∙ ground arith)
  | inl e ↦ rw (e, add_tombstone) (already ts e)
]
  where
    already :
        (us : List Text)
        → any (λ t. text_eq t p) us ≡ true
        → any (λ t. id_in_subtree k t) us ≡ (any (λ t. id_in_subtree k t) us || id_in_subtree k p)
    already [] h = absurd (ground arith)
    already (u ∷ us) h = elim (Bool-cases (text_eq u p)) [
      | inl f ↦ rw (eq_of_text_eq u p f) (ground arith)
      | inr f ↦ let ih = already us (ground arith) in ground arith
    ]

pub in_subtree-tombstoned :
    (k p : Text) (ts : List Text)
    → any (λ t. text_eq t p) ts ≡ true
    → id_tombstoned k ts ≡ false
    → id_in_subtree k p ≡ false
unfolding id_tombstoned any
in_subtree-tombstoned k p [] h f = absurd (ground arith)
in_subtree-tombstoned k p (t ∷ ts) h f = elim (Bool-cases (text_eq t p)) [
  | inl e ↦ rw (← eq_of_text_eq t p e) (ground arith)
  | inr e ↦ in_subtree-tombstoned k p ts (ground arith) (ground arith)
]

pub find_doc-id : (k : Text) (ds : Docs) (t : TantivyDocument) → find_doc k ds ≡ some t → t.id ≡ k
unfolding find_doc
find_doc-id k [] t h = absurd (ground arith)
find_doc-id k (d ∷ ds) t h = ground (arith, find_doc-id k ds t, text_eq_iff k d.id)

module _ {W : Type 0} (cfg : IndexConfig W) where
  abbrev Free : List Text → TantivyDocument → Type 0
  Free ts d = id_tombstoned d.id ts ≡ false

  IsFree-put_in :
      (d : Document) (v : View)
      → id_tombstoned d.id v.tombstones ≡ false
      → IsFree v
      → IsFree (put_in cfg d v)
  unfolding put_in remove_term
  IsFree-put_in d v n f = elim (Option-cases (to_tantivy cfg.plugins cfg.json d)) [
    | inl e ↦ rw (e, put_in, put) (All-retain (Free v.tombstones) _ v.working f)
    | inr (t, e) ↦
        rw (e, put_in, put)
          (All-append (Free v.tombstones) (remove_term (id_term d.id) v.working) (t ∷ [])
            (All-retain (Free v.tombstones) _ v.working f)
            (rw (to_tantivy-id cfg.plugins cfg.json d t e) n, tt))
  ]

  IsFree-spec_upsert : (d : Document) (v : View) → IsFree v → IsFree (spec_upsert cfg d v)
  unfolding spec_upsert
  IsFree-spec_upsert d v f = elim (Bool-cases (id_tombstoned d.id v.tombstones)) [
    | inl e ↦ rw (e, spec_upsert) f
    | inr e ↦ rw (e, spec_upsert) (IsFree-put_in d v e f)
  ]

  IsFree-spec_upserts : (ds : List Document) (v : View) → IsFree v → IsFree (spec_upserts cfg ds v)
  unfolding spec_upserts
  IsFree-spec_upserts [] v f = f
  IsFree-spec_upserts (d ∷ ds) v f =
      IsFree-spec_upserts ds (spec_upsert cfg d v) (IsFree-spec_upsert d v f)

  IsFree-spec_subtree : (p : Text) (v : View) → IsFree v → IsFree (spec_subtree cfg p v)
  unfolding spec_subtree
  IsFree-spec_subtree p v f =
      All-map (remove_subtree p v.working)
        (λ (d : TantivyDocument) (h : Free v.tombstones d × (not (id_in_subtree d.id p) ≡ true)).
          rw (tombstoned-add_tombstone d.id p v.tombstones) (ground arith))
        (All-retain_both (Free v.tombstones) _ v.working f)

  IsFree-spec_body :
      (k body : Text) (expected : Option ℤ) (v : View)
      → IsFree v
      → IsFree (spec_body cfg k body expected v)
  unfolding spec_body spec_found doc_from_tantivy
  IsFree-spec_body k body expected v f = elim (Bool-cases (id_tombstoned k v.tombstones)) [
    | inl e ↦ rw (e, spec_body) f
    | inr e ↦ elim (Option-cases (find_doc k v.visible)) [
      | inl g ↦ rw (e, g, spec_body, spec_found) f
      | inr (t, g) ↦
          let d = doc_from_tantivy cfg.plugins cfg.json t in
          elim (Bool-cases (is_stale expected d k v.recent)) [
            | inl h ↦ rw (e, g, h, spec_body, spec_found) f
            | inr h ↦
                rw (e, g, h, spec_body, spec_found)
                  (IsFree-put_in (record d { body = some body }) v
                    (rw (find_doc-id k v.visible t g) e) f)
          ]
    ]
  ]

  pub IsFree-spec : (m : Mutation) (v : View) → IsFree v → IsFree (spec cfg m v)
  unfolding spec remove_term
  IsFree-spec (upsert_one d) v f = IsFree-spec_upsert d v f
  IsFree-spec (upsert_many ds) v f = IsFree-spec_upserts ds v f
  IsFree-spec (delete_one k) v f = All-retain (Free v.tombstones) _ v.working f
  IsFree-spec (delete_many ks) v f = All-retain (Free v.tombstones) _ v.working f
  IsFree-spec (delete_subtree p) v f = IsFree-spec_subtree p v f
  IsFree-spec (delete_source_instance k) v f = All-retain (Free v.tombstones) _ v.working f
  IsFree-spec (upsert_body k body expected) v f = IsFree-spec_body k body expected v f
  IsFree-spec (barrier r) v f = f
  IsFree-spec (applied r) v f = f
  IsFree-spec shutdown v f = f
  IsFree-spec (commit_now r) v f = f
