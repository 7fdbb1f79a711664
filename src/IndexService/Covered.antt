-- ===== src/IndexService/Covered.antt =====
-- Every mutation keeps the working documents covered (`IsCovered`), and so does a commit.
use lixun.Common.{
  Bool, true, false, not, ◌||◌, Option, none, some, List, [], ◌∷◌, ◌++◌, ◌≡◌, refl, arith, any,
  retain, Option-cases, inl, inr, Bool-cases,
}
use lixun.Common.Text.{Text, text_eq, text_eq_comm, text_eq_refl, eq_of_text_eq}
use lixun.Common.Int.{ℤ}
use lixun.Common.Sort.{All, All-map, All-append, All-retain, All-retain_both}
use lixun.Document.{Document}
use lixun.Index.{IndexConfig, id_term}
use lixun.Index.Convert.{
  PluginSchema, TantivyDocument, add_extras, action_texts, ActionJson, to_tantivy, doc_from_tantivy,
}
use lixun.Index.Spec.{Docs, remove_term, find_doc, has_id, HasDistinctIds}
use lixun.IndexService.{
  Mutation, upsert_one, delete_one, upsert_many, delete_many, delete_subtree,
  delete_source_instance, upsert_body, barrier, applied, shutdown, UpsertedDoc, upserted_doc_from,
  id_in_subtree, id_tombstoned, commit_now,
}
use lixun.IndexService.Apply.{is_stale, staged_ids}
use lixun.IndexService.Subtree.{contains}
use lixun.IndexService.Staged.{put, remove_subtree}
use lixun.IndexService.Refines.{
  View, publish, put_in, spec_upsert, spec_upserts, spec_subtree, spec_found, spec_body, spec,
  IsCovered,
}

pub to_tantivy-id :
    (s : PluginSchema) (json : ActionJson) (d : Document) (t : TantivyDocument)
    → to_tantivy s json d ≡ some t
    → t.id ≡ d.id
unfolding to_tantivy
to_tantivy-id s json d t h = elim (Option-cases (action_texts json d)) [
  | inl a ↦ absurd (ground arith)
  | inr (texts, a) ↦ elim (Option-cases (add_extras s d.extra)) [
    | inl e ↦ absurd (ground arith)
    | inr (xs, e) ↦ ground arith
  ]
]

has_id-retain :
    (k : Text) (p : TantivyDocument → Bool) (ds : Docs)
    → has_id k ds ≡ false
    → has_id k (retain p ds) ≡ false
unfolding has_id any retain
has_id-retain k p [] h = refl
has_id-retain k p (d ∷ ds) h = ground (arith, has_id-retain k p ds)

pub HasDistinctIds-retain :
    (p : TantivyDocument → Bool) (ds : Docs) → HasDistinctIds ds → HasDistinctIds (retain p ds)
unfolding retain
HasDistinctIds-retain p [] h = tt
HasDistinctIds-retain p (d ∷ ds) h = elim (Bool-cases (p d)) [
  | inl e ↦ rw e (has_id-retain d.id p ds h.0, HasDistinctIds-retain p ds h.1)
  | inr e ↦ rw e (HasDistinctIds-retain p ds h.1)
]

pub has_id-append_one :
    (k : Text) (ds : Docs) (t : TantivyDocument)
    → has_id k (ds ++ (t ∷ [])) ≡ (has_id k ds || text_eq k t.id)
unfolding has_id any
has_id-append_one k [] t = ground arith
has_id-append_one k (d ∷ ds) t = ground (arith, has_id-append_one k ds t)

HasDistinctIds-append_one :
    (ds : Docs) (t : TantivyDocument)
    → has_id t.id ds ≡ false
    → HasDistinctIds ds
    → HasDistinctIds (ds ++ (t ∷ []))
unfolding has_id any
HasDistinctIds-append_one [] t h k = (refl, tt)
HasDistinctIds-append_one (d ∷ ds) t h k = (
  ground (arith, has_id-append_one d.id ds t, text_eq_comm d.id t.id),
  HasDistinctIds-append_one ds t (ground arith) k.1,
)

pub has_id-remove_term : (k : Text) (ds : Docs) → has_id k (remove_term (id_term k) ds) ≡ false
unfolding has_id remove_term any retain
has_id-remove_term k [] = refl
has_id-remove_term k (d ∷ ds) = ground (arith, has_id-remove_term k ds)

staged_ids-append :
    (k : Text) (us : List UpsertedDoc) (u : UpsertedDoc)
    → contains k (staged_ids (us ++ (u ∷ []))) ≡ (contains k (staged_ids us) || text_eq k u.doc_id)
unfolding staged_ids any
staged_ids-append k [] u = ground arith
staged_ids-append k (v ∷ us) u = ground (arith, staged_ids-append k us u)

staged_ids-retain :
    (k p : Text) (us : List UpsertedDoc)
    → id_in_subtree k p ≡ false
    → contains k (staged_ids (retain (λ (u : UpsertedDoc). not (id_in_subtree u.doc_id p)) us))
      ≡ contains k (staged_ids us)
unfolding staged_ids any retain
staged_ids-retain k p [] h = refl
staged_ids-retain k p (u ∷ us) h = elim (Bool-cases (text_eq k u.doc_id)) [
  | inl e ↦
      rw (← eq_of_text_eq k u.doc_id e) (ground (arith, staged_ids-retain k p us h, text_eq_refl k))
  | inr e ↦ ground (arith, staged_ids-retain k p us h)
]

has_id-All : (ds : Docs) → All (λ (d : TantivyDocument). has_id d.id ds ≡ true) ds
unfolding has_id any
has_id-All [] = tt
has_id-All (d ∷ ds) = (
  rw (text_eq_refl d.id) refl,
  All-map ds (λ (e : TantivyDocument) (h : has_id e.id ds ≡ true). ground arith) (has_id-All ds),
)

module _ {W : Type 0} (cfg : IndexConfig W) where
  abbrev Covered : View → TantivyDocument → Type 0
  Covered v d = (has_id d.id v.visible || contains d.id (staged_ids v.recent)) ≡ true

  pub IsCovered-publish : (v : View) → IsCovered cfg v → IsCovered cfg (publish v)
  unfolding publish
  IsCovered-publish v c = record {
    covered =
        All-map v.working (λ (d : TantivyDocument) (h : has_id d.id v.working ≡ true). ground arith)
          (has_id-All v.working);
    distinct = c.distinct;
    distinct_visible = c.distinct;
  }

  IsCovered-remove :
      (v : View) (p : TantivyDocument → Bool)
      → IsCovered cfg v
      → IsCovered cfg (record v { working = retain p v.working })
  IsCovered-remove v p c = record {
    covered = All-retain (Covered v) p v.working c.covered;
    distinct = HasDistinctIds-retain p v.working c.distinct;
    distinct_visible = c.distinct_visible;
  }

  IsCovered-put_in : (d : Document) (v : View) → IsCovered cfg v → IsCovered cfg (put_in cfg d v)
  unfolding put_in remove_term upserted_doc_from
  IsCovered-put_in d v c = elim (Option-cases (to_tantivy cfg.plugins cfg.json d)) [
    | inl e ↦
        rw (e, put_in, put)
          (IsCovered-remove v (λ (x : TantivyDocument). not (text_eq d.id x.id)) c)
    | inr (t, e) ↦
        let u = upserted_doc_from d in
        let same = to_tantivy-id cfg.plugins cfg.json d t e in
        let itself : text_eq t.id d.id ≡ true = rw same (text_eq_refl d.id) in
        let others = remove_term (id_term d.id) v.working in
        rw (e, put_in, put)
          (record {
            covered =
                All-append _ others (t ∷ [])
                  (All-map others
                    (λ (x : TantivyDocument) (h : Covered v x).
                      rw (staged_ids-append x.id v.recent u) (ground arith))
                    (All-retain (Covered v) _ v.working c.covered))
                  (rw (staged_ids-append t.id v.recent u) (ground arith), tt);
            distinct =
                HasDistinctIds-append_one others t (rw same (has_id-remove_term d.id v.working))
                  (HasDistinctIds-retain _ v.working c.distinct);
            distinct_visible = c.distinct_visible;
          })
  ]

  IsCovered-spec_upsert :
      (d : Document) (v : View) → IsCovered cfg v → IsCovered cfg (spec_upsert cfg d v)
  unfolding spec_upsert
  IsCovered-spec_upsert d v c = elim (Bool-cases (id_tombstoned d.id v.tombstones)) [
    | inl e ↦ rw (e, spec_upsert) c
    | inr e ↦ rw (e, spec_upsert) (IsCovered-put_in d v c)
  ]

  IsCovered-spec_upserts :
      (ds : List Document) (v : View) → IsCovered cfg v → IsCovered cfg (spec_upserts cfg ds v)
  unfolding spec_upserts
  IsCovered-spec_upserts [] v c = c
  IsCovered-spec_upserts (d ∷ ds) v c =
      IsCovered-spec_upserts ds (spec_upsert cfg d v) (IsCovered-spec_upsert d v c)

  IsCovered-spec_subtree :
      (p : Text) (v : View) → IsCovered cfg v → IsCovered cfg (spec_subtree cfg p v)
  unfolding spec_subtree
  IsCovered-spec_subtree p v c = record {
    covered =
        All-map (remove_subtree p v.working)
          (λ (d : TantivyDocument) (h : Covered v d × (not (id_in_subtree d.id p) ≡ true)).
            rw (staged_ids-retain d.id p v.recent (ground arith)) h.0)
          (All-retain_both (Covered v) _ v.working c.covered);
    distinct = HasDistinctIds-retain _ v.working c.distinct;
    distinct_visible = c.distinct_visible;
  }

  IsCovered-spec_found :
      (k body : Text) (expected : Option ℤ) (o : Option TantivyDocument) (v : View)
      → IsCovered cfg v
      → IsCovered cfg (spec_found cfg k body expected o v)
  unfolding spec_found
  IsCovered-spec_found k body expected none v c = c
  IsCovered-spec_found k body expected (some t) v c =
      let d = doc_from_tantivy cfg.plugins cfg.json t in
      elim (Bool-cases (is_stale expected d k v.recent)) [
        | inl e ↦ rw (e, spec_found) c
        | inr e ↦ rw (e, spec_found) (IsCovered-put_in (record d { body = some body }) v c)
      ]

  IsCovered-spec_body :
      (k body : Text) (expected : Option ℤ) (v : View)
      → IsCovered cfg v
      → IsCovered cfg (spec_body cfg k body expected v)
  unfolding spec_body
  IsCovered-spec_body k body expected v c = elim (Bool-cases (id_tombstoned k v.tombstones)) [
    | inl e ↦ rw (e, spec_body) c
    | inr e ↦ rw (e, spec_body) (IsCovered-spec_found k body expected (find_doc k v.visible) v c)
  ]

  -- Every mutation keeps the documents covered.
  pub IsCovered-spec : (m : Mutation) (v : View) → IsCovered cfg v → IsCovered cfg (spec cfg m v)
  unfolding spec remove_term
  IsCovered-spec (upsert_one d) v c = IsCovered-spec_upsert d v c
  IsCovered-spec (upsert_many ds) v c = IsCovered-spec_upserts ds v c
  IsCovered-spec (delete_one k) v c = IsCovered-remove v _ c
  IsCovered-spec (delete_many ks) v c = IsCovered-remove v _ c
  IsCovered-spec (delete_subtree p) v c = IsCovered-spec_subtree p v c
  IsCovered-spec (delete_source_instance k) v c = IsCovered-remove v _ c
  IsCovered-spec (upsert_body k body expected) v c = IsCovered-spec_body k body expected v c
  IsCovered-spec (barrier r) v c = c
  IsCovered-spec (applied r) v c = c
  IsCovered-spec shutdown v c = c
  IsCovered-spec (commit_now r) v c = c
