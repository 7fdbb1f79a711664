-- ===== src/IndexService/Tracking.antt =====
-- The write-back of OCR texts: what guards it against newer versions of the document.
use lixun.Common.{
  Bool, true, false, not, ◌&&◌, Option, none, some, List, [], ◌∷◌, ◌++◌, ◌≡◌, ◌⊎◌, refl, arith, any,
  any-append, retain, Option-cases, inl, inr, Bool-cases, ◌∙◌,
}
use lixun.Common.Text.{Text, text_eq, text_eq_comm, text_eq_refl, eq_of_text_eq}
use lixun.Common.Int.{ℤ, eq_ℤ}
use lixun.Common.Sort.{All, All-map, All-append, All-retain, All-retain_both}
use lixun.Document.{Document}
use lixun.Index.{IndexConfig, id_term}
use lixun.Index.Convert.{TantivyDocument, to_tantivy, doc_from_tantivy, action_texts, add_extras}
use lixun.Index.Spec.{Docs, remove_term, find_doc, has_id, HasDistinctIds}
use lixun.IndexService.{
  Mutation, upsert_one, delete_one, upsert_many, delete_many, delete_subtree,
  delete_source_instance, upsert_body, barrier, applied, shutdown, commit_now, id_in_subtree,
  id_tombstoned, UpsertedDoc, upserted_doc_from,
}
use lixun.IndexService.Apply.{is_stale}
use lixun.IndexService.Staged.{put, remove_subtree}
use lixun.IndexService.Refines.{
  View, publish, put_in, spec_upsert, spec_upserts, spec_subtree, spec_found, spec_body, spec,
}
use lixun.IndexService.Covered.{to_tantivy-id}

-- Whether an upsert of the batch has the id and the time of a document.
abbrev pub is_recorded : TantivyDocument → List UpsertedDoc → Bool
is_recorded d us = any (λ (u : UpsertedDoc). text_eq u.doc_id d.id && eq_ℤ d.mtime u.mtime) us

-- A working document is the one that is visible, or is recorded in the batch with its time.
abbrev pub Tracked : View → TantivyDocument → Type 0
Tracked v d = (find_doc d.id v.visible ≡ some d) ⊎ (is_recorded d v.recent ≡ true)

abbrev pub IsTracked : View → Type 0
IsTracked v = All (Tracked v) v.working

to_tantivy-mtime :
    {W : Type 0} (cfg : IndexConfig W) (d : Document) (t : TantivyDocument)
    → to_tantivy cfg.plugins cfg.json d ≡ some t
    → t.mtime ≡ d.mtime
unfolding to_tantivy
to_tantivy-mtime cfg d t h = elim (Option-cases (action_texts cfg.json d)) [
  | inl a ↦ absurd (ground arith)
  | inr (texts, a) ↦ elim (Option-cases (add_extras cfg.plugins d.extra)) [
    | inl e ↦ absurd (ground arith)
    | inr (xs, e) ↦ ground arith
  ]
]

recorded-append :
    (d : TantivyDocument) (us : List UpsertedDoc) (u : UpsertedDoc)
    → is_recorded d us ≡ true
    → is_recorded d (us ++ (u ∷ [])) ≡ true
recorded-append d us u h =
    any-append (λ (x : UpsertedDoc). text_eq x.doc_id d.id && eq_ℤ d.mtime x.mtime) us (u ∷ [])
    ∙ rw h refl

recorded-retain :
    (d : TantivyDocument) (p : Text) (us : List UpsertedDoc)
    → id_in_subtree d.id p ≡ false
    → is_recorded d us ≡ true
    → is_recorded d (retain (λ (u : UpsertedDoc). not (id_in_subtree u.doc_id p)) us) ≡ true
unfolding any retain
recorded-retain d p [] h r = r
recorded-retain d p (u ∷ us) h r = elim (Bool-cases (text_eq u.doc_id d.id)) [
  | inl e ↦
      let same = eq_of_text_eq u.doc_id d.id e in
      let out : id_in_subtree u.doc_id p ≡ false = rw same h in
      ground (arith, recorded-retain d p us h)
  | inr e ↦ ground (arith, recorded-retain d p us h)
]

find_doc-All :
    (ds : Docs) → HasDistinctIds ds → All (λ (d : TantivyDocument). find_doc d.id ds ≡ some d) ds
unfolding find_doc has_id any
find_doc-All [] h = tt
find_doc-All (d ∷ ds) h = (rw (text_eq_refl d.id) refl, later ds h.0 (find_doc-All ds h.1))
  where
    later :
        (es : Docs)
        → has_id d.id es ≡ false
        → All (λ (e : TantivyDocument). find_doc e.id ds ≡ some e) es
        → All (λ (e : TantivyDocument). find_doc e.id (d ∷ ds) ≡ some e) es
    later [] n a = tt
    later (e ∷ es) n a = (ground (arith, text_eq_comm d.id e.id), later es (ground arith) a.1)

pub IsTracked-publish : (v : View) → HasDistinctIds v.working → IsTracked (publish v)
unfolding publish
IsTracked-publish v h =
    All-map v.working (λ (d : TantivyDocument) (e : find_doc d.id v.working ≡ some d). inl e)
      (find_doc-All v.working h)

module _ {W : Type 0} (cfg : IndexConfig W) where
  IsTracked-put_in : (d : Document) (v : View) → IsTracked v → IsTracked (put_in cfg d v)
  unfolding put_in remove_term upserted_doc_from any
  IsTracked-put_in d v a = elim (Option-cases (to_tantivy cfg.plugins cfg.json d)) [
    | inl e ↦ rw (e, put_in, put) (All-retain (Tracked v) _ v.working a)
    | inr (t, e) ↦
        let u = upserted_doc_from d in
        let others = remove_term (id_term d.id) v.working in
        let grown : View = record v {
          working = others ++ (t ∷ []);
          recent = v.recent ++ (u ∷ []);
        } in
        let i = to_tantivy-id cfg.plugins cfg.json d t e in
        let j = to_tantivy-mtime cfg d t e in
        rw (e, put_in, put)
          (All-append (Tracked grown) others (t ∷ [])
            (All-map others
              (λ (x : TantivyDocument) (h : Tracked v x). elim h [
                | inl f ↦ inl f
                | inr f ↦ inr (recorded-append x v.recent u f)
              ])
              (All-retain (Tracked v) _ v.working a))
            (inr (newest t v.recent i j), tt))
  ]
    where
      newest :
          (t : TantivyDocument) (us : List UpsertedDoc)
          → t.id ≡ d.id
          → t.mtime ≡ d.mtime
          → is_recorded t (us ++ (upserted_doc_from d ∷ [])) ≡ true
      newest t [] i j = rw (i, j) (let s = text_eq_refl d.id in ground arith)
      newest t (u ∷ us) i j = let ih = newest t us i j in ground arith

  IsTracked-spec_upsert : (d : Document) (v : View) → IsTracked v → IsTracked (spec_upsert cfg d v)
  unfolding spec_upsert
  IsTracked-spec_upsert d v a = elim (Bool-cases (id_tombstoned d.id v.tombstones)) [
    | inl e ↦ rw (e, spec_upsert) a
    | inr e ↦ rw (e, spec_upsert) (IsTracked-put_in d v a)
  ]

  IsTracked-spec_upserts :
      (ds : List Document) (v : View) → IsTracked v → IsTracked (spec_upserts cfg ds v)
  unfolding spec_upserts
  IsTracked-spec_upserts [] v a = a
  IsTracked-spec_upserts (d ∷ ds) v a =
      IsTracked-spec_upserts ds (spec_upsert cfg d v) (IsTracked-spec_upsert d v a)

  IsTracked-spec_subtree : (p : Text) (v : View) → IsTracked v → IsTracked (spec_subtree cfg p v)
  unfolding spec_subtree
  IsTracked-spec_subtree p v a =
      All-map (remove_subtree p v.working)
        (λ (d : TantivyDocument) (h : Tracked v d × (not (id_in_subtree d.id p) ≡ true)). elim h.0 [
          | inl f ↦ inl f
          | inr f ↦ inr (recorded-retain d p v.recent (ground arith) f)
        ])
        (All-retain_both (Tracked v) _ v.working a)

  IsTracked-spec_found :
      (k body : Text) (expected : Option ℤ) (o : Option TantivyDocument) (v : View)
      → IsTracked v
      → IsTracked (spec_found cfg k body expected o v)
  unfolding spec_found
  IsTracked-spec_found k body expected none v a = a
  IsTracked-spec_found k body expected (some t) v a =
      let d = doc_from_tantivy cfg.plugins cfg.json t in
      elim (Bool-cases (is_stale expected d k v.recent)) [
        | inl e ↦ rw (e, spec_found) a
        | inr e ↦ rw (e, spec_found) (IsTracked-put_in (record d { body = some body }) v a)
      ]

  IsTracked-spec_body :
      (k body : Text) (expected : Option ℤ) (v : View)
      → IsTracked v
      → IsTracked (spec_body cfg k body expected v)
  unfolding spec_body
  IsTracked-spec_body k body expected v a = elim (Bool-cases (id_tombstoned k v.tombstones)) [
    | inl e ↦ rw (e, spec_body) a
    | inr e ↦ rw (e, spec_body) (IsTracked-spec_found k body expected (find_doc k v.visible) v a)
  ]

  pub IsTracked-spec : (m : Mutation) (v : View) → IsTracked v → IsTracked (spec cfg m v)
  unfolding spec remove_term
  IsTracked-spec (upsert_one d) v a = IsTracked-spec_upsert d v a
  IsTracked-spec (upsert_many ds) v a = IsTracked-spec_upserts ds v a
  IsTracked-spec (delete_one k) v a = All-retain (Tracked v) _ v.working a
  IsTracked-spec (delete_many ks) v a = All-retain (Tracked v) _ v.working a
  IsTracked-spec (delete_subtree p) v a = IsTracked-spec_subtree p v a
  IsTracked-spec (delete_source_instance k) v a = All-retain (Tracked v) _ v.working a
  IsTracked-spec (upsert_body k body expected) v a = IsTracked-spec_body k body expected v a
  IsTracked-spec (barrier r) v a = a
  IsTracked-spec (applied r) v a = a
  IsTracked-spec shutdown v a = a
  IsTracked-spec (commit_now r) v a = a
