-- ===== src/IndexService/Bodies.antt =====
-- The write-back of OCR texts, on the writer.
use lixun.Common.{
  true, false, ◌&&◌, Option, none, some, List, [], ◌∷◌, ◌≡◌, refl, sym, ap, subst, arith, any, inl,
  inr, Bool-cases, ◌∙◌,
}
use lixun.Common.Text.{Text, text_eq, text_eq_refl}
use lixun.Common.Int.{ℤ, eq_ℤ, ltb_ℤ, eq_of_eq_ℤ}
use lixun.Common.Sort.{All}
use lixun.Index.{IndexConfig, id_term, delete_by_id}
use lixun.Index.Convert.{TantivyDocument, to_tantivy, doc_from_tantivy}
use lixun.Index.Spec.{Docs, remove_term, has_id, find_doc, IsTantivy, IsReliable}
use lixun.IndexService.{delete_one, id_tombstoned, Writer, UpsertedDoc}
use lixun.IndexService.Apply.{is_stale, has_newer, apply_delete, apply_mutation, handle_upsert_body}
use lixun.IndexService.Staged.{put}
use lixun.IndexService.Refines.{View, put_in, spec_found, spec_body, spec, IsCovered, view}
use lixun.IndexService.Simulation.{apply_mutation-view, handle_upsert_body-view}
use lixun.IndexService.Covered.{
  to_tantivy-id, IsCovered-spec, has_id-remove_term, has_id-append_one,
}
use lixun.IndexService.Orphans.{find_doc-id}
use lixun.IndexService.Tracking.{Tracked, IsTracked, is_recorded}

find_doc-lookup :
    (P : TantivyDocument → Type 0) (k : Text) (ds : Docs) (d : TantivyDocument)
    → All P ds
    → find_doc k ds ≡ some d
    → P d
unfolding find_doc
find_doc-lookup P k [] d a h = absurd (ground arith)
find_doc-lookup P k (e ∷ ds) d a h = elim (Bool-cases (text_eq k e.id)) [
  | inl q ↦ let same : e ≡ d = ground arith in subst P same a.0
  | inr q ↦ find_doc-lookup P k ds d a.1 (ground arith)
]

recorded-has_newer :
    (k : Text) (expected : ℤ) (d : TantivyDocument) (us : List UpsertedDoc)
    → d.id ≡ k
    → ltb_ℤ expected d.mtime ≡ true
    → is_recorded d us ≡ true
    → has_newer k expected us ≡ true
unfolding has_newer any
recorded-has_newer k expected d [] i l r = absurd (ground arith)
recorded-has_newer k expected d (u ∷ us) i l r =
    elim (Bool-cases (text_eq u.doc_id d.id && eq_ℤ d.mtime u.mtime)) [
      | inl e ↦
          let same = eq_of_eq_ℤ d.mtime u.mtime (ground arith) in
          let l' : ltb_ℤ expected u.mtime ≡ true = rw (← same) l in
          let i' : text_eq u.doc_id k ≡ true = rw (← i) (ground arith) in ground arith
      | inr e ↦ let ih = recorded-has_newer k expected d us i l (ground arith) in ground arith
    ]

module _ {W : Type 0} (cfg : IndexConfig W) where
  spec_found-has_newer :
      (k body : Text) (expected : ℤ) (o : Option TantivyDocument) (v : View)
      → has_newer k expected v.recent ≡ true
      → spec_found cfg k body (some expected) o v ≡ v
  unfolding spec_found is_stale
  spec_found-has_newer k body expected none v h = refl
  spec_found-has_newer k body expected (some t) v h = ground arith

  spec_body-newer :
      (k body : Text) (expected : ℤ) (v : View) (d : TantivyDocument)
      → IsTracked v
      → find_doc k v.working ≡ some d
      → ltb_ℤ expected d.mtime ≡ true
      → spec_body cfg k body (some expected) v ≡ v
  unfolding spec_body spec_found is_stale doc_from_tantivy
  spec_body-newer k body expected v d a f l =
      let i = find_doc-id k v.working d f in
      elim (Bool-cases (id_tombstoned k v.tombstones)) [
        | inl e ↦ rw (e, spec_body) refl
        | inr e ↦ elim (find_doc-lookup (Tracked v) k v.working d a f) [
          | inl g ↦
              let g' : find_doc k v.visible ≡ some d = rw (← i) g in
              rw (e, g', l, spec_body, spec_found, is_stale) refl
          | inr r ↦
              rw (e, spec_body)
                (spec_found-has_newer k body expected (find_doc k v.visible) v
                  (recorded-has_newer k expected d v.recent i l r))
        ]
      ]

  spec_body-has_id :
      (k body : Text) (expected : Option ℤ) (v : View) (t t' : TantivyDocument)
      → id_tombstoned k v.tombstones ≡ false
      → find_doc k v.visible ≡ some t
      → is_stale expected (doc_from_tantivy cfg.plugins cfg.json t) k v.recent ≡ false
      → to_tantivy cfg.plugins cfg.json
          (record (doc_from_tantivy cfg.plugins cfg.json t) { body = some body })
        ≡ some t'
      → has_id k (spec_body cfg k body expected v).working ≡ true
  unfolding spec_body spec_found put_in doc_from_tantivy
  spec_body-has_id k body expected v t t' n f s e =
      let d = doc_from_tantivy cfg.plugins cfg.json t in
      let same : t'.id ≡ k =
        to_tantivy-id cfg.plugins cfg.json (record d { body = some body }) t' e
        ∙ find_doc-id k v.visible t f in
      rw (n, f, s, e, spec_body, spec_found, put_in, put)
        (has_id-append_one k (remove_term (id_term d.id) v.working) t'
          ∙ rw same (let r = text_eq_refl k in ground arith))

module _ {W : Type 0} (cfg : IndexConfig W) (laws : IsTantivy cfg.tantivy)
    (reliable : IsReliable cfg.tantivy) where
  -- An OCR text changes neither what is visible nor what is staged where the document that is staged
  -- under its id, committed or not, is newer than the file that was read.
  pub handle_upsert_body-newer :
      (k body : Text) (expected : ℤ) (w : Writer W) (d : TantivyDocument)
      → IsCovered cfg (view cfg laws w)
      → IsTracked (view cfg laws w)
      → find_doc k (laws.staged w.index.writer) ≡ some d
      → ltb_ℤ expected d.mtime ≡ true
      → view cfg laws (handle_upsert_body cfg k body (some expected) w) ≡ view cfg laws w
  handle_upsert_body-newer k body expected w d c a f l =
      handle_upsert_body-view cfg laws reliable k body (some expected) w c
      ∙ spec_body-newer cfg k body expected (view cfg laws w) d a f l

  -- A document whose deletion is staged comes back when an OCR text for it follows in the same batch:
  -- the text is put into the copy that is still visible.
  pub handle_upsert_body-apply_delete :
      (k body : Text) (expected : ℤ) (w : Writer W) (t t' : TantivyDocument)
      → IsCovered cfg (view cfg laws w)
      → id_tombstoned k w.subtree_tombstones ≡ false
      → find_doc k (laws.live w.index.writer) ≡ some t
      → is_stale (some expected) (doc_from_tantivy cfg.plugins cfg.json t) k w.pending_batch.upserts
        ≡ false
      → to_tantivy cfg.plugins cfg.json
          (record (doc_from_tantivy cfg.plugins cfg.json t) { body = some body })
        ≡ some t'
      → let deleted = apply_delete cfg k w in
        (has_id k (laws.staged deleted.index.writer) ≡ false)
        × (has_id k
              (laws.staged (handle_upsert_body cfg k body (some expected) deleted).index.writer)
            ≡ true)
  unfolding apply_delete delete_by_id apply_mutation
  handle_upsert_body-apply_delete k body expected w t t' c n f s e =
      let deleted = apply_delete cfg k w in
      let gone : laws.staged deleted.index.writer
          ≡ remove_term (id_term k) (laws.staged w.index.writer) =
        laws.staged_delete (id_term k) w.index.writer in
      let same : view cfg laws deleted ≡ spec cfg (delete_one k) (view cfg laws w) =
        apply_mutation-view cfg laws reliable false (delete_one k) w c in
      let covered : IsCovered cfg (view cfg laws deleted) =
        subst (IsCovered cfg) (sym same) (IsCovered-spec cfg (delete_one k) (view cfg laws w) c) in
      let written =
        handle_upsert_body-view cfg laws reliable k body (some expected) deleted covered in
      let f' : find_doc k (laws.live deleted.index.writer) ≡ some t =
        ap (λ (ds : Docs). find_doc k ds) (laws.live_delete (id_term k) w.index.writer) ∙ f in
      (
        rw gone (has_id-remove_term k (laws.staged w.index.writer)),
        ap (λ (v : View). has_id k v.working) written
            ∙ spec_body-has_id cfg k body (some expected) (view cfg laws deleted) t t' n f' s e,
      )
