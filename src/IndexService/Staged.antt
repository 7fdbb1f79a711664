-- ===== src/IndexService/Staged.antt =====
-- What each call of the index does to the documents that are staged, and to those that are live.
use lixun.Common.{
  Bool, true, false, not, Option, none, some, List, [], ◌∷◌, ◌++◌, ◌≡◌, refl, sym, ap, arith,
  if◌then◌else◌, any, retain, retain-retain, retain_ext, retain_all, Option-cases, inl, inr, ◌∙◌,
}
use lixun.Common.Text.{Text, text_eq_comm}
use lixun.Document.{Document}
use lixun.Index.{IndexConfig, LixunIndex, id_term, upsert, delete_by_id}
use lixun.Index.Convert.{TantivyDocument, to_tantivy}
use lixun.Index.Spec.{Docs, remove_term, IsTantivy, IsReliable}
use lixun.IndexService.{Writer, id_in_subtree}
use lixun.IndexService.Apply.{apply_delete, apply_deletes}
use lixun.IndexService.Subtree.{contains}

-- The documents without those of a subtree.
abbrev pub remove_subtree : Text → Docs → Docs
remove_subtree p ds = retain (λ (d : TantivyDocument). not (id_in_subtree d.id p)) ds

abbrev pub remove_ids : List Text → Docs → Docs
remove_ids ks ds = retain (λ (d : TantivyDocument). not (contains d.id ks)) ds

abbrev pub is_some {ℓ} : {A : Type ℓ} → Option A → Bool
is_some none = false
is_some (some a) = true

module _ {W : Type 0} (cfg : IndexConfig W) where
  -- The document takes the place of that of its id. One that cannot be converted removes it.
  abbrev pub put : Document → Docs → Docs
  put d ds = elim (to_tantivy cfg.plugins cfg.json d) [
    | none ↦ remove_term (id_term d.id) ds
    | some t ↦ remove_term (id_term d.id) ds ++ (t ∷ [])
  ]

module _ {W : Type 0} (cfg : IndexConfig W) (laws : IsTantivy cfg.tantivy) where
  abbrev pub staged : LixunIndex W → Docs
  staged ix = laws.staged ix.writer

  abbrev pub live : LixunIndex W → Docs
  live ix = laws.live ix.writer

  pub live-upsert : (d : Document) (ix : LixunIndex W) → live (upsert cfg d ix).1 ≡ live ix
  unfolding upsert
  live-upsert d ix = elim (Option-cases (to_tantivy cfg.plugins cfg.json d)) [
    | inl e ↦ rw (e, upsert) (laws.live_delete (id_term d.id) ix.writer)
    | inr (t, e) ↦
        rw (e, upsert)
          (laws.live_add t (cfg.tantivy.delete_term (id_term d.id) ix.writer)
            ∙ laws.live_delete (id_term d.id) ix.writer)
  ]

  pub staged-upsert :
      (reliable : IsReliable cfg.tantivy) (d : Document) (ix : LixunIndex W)
      → staged (upsert cfg d ix).1 ≡ put cfg d (staged ix)
  unfolding upsert
  staged-upsert reliable d ix = elim (Option-cases (to_tantivy cfg.plugins cfg.json d)) [
    | inl e ↦ rw (e, upsert, put) (laws.staged_delete (id_term d.id) ix.writer)
    | inr (t, e) ↦
        let w = cfg.tantivy.delete_term (id_term d.id) ix.writer in
        let added : laws.staged (cfg.tantivy.add_document t w).1 ≡ laws.staged w ++ (t ∷ []) =
          laws.staged_add t w
          ∙ ap (λ b. if b then laws.staged w ++ (t ∷ []) else laws.staged w)
              (reliable.add_ok t w) in
        rw (e, upsert, put)
          (added ∙ ap (λ (ds : Docs). ds ++ (t ∷ [])) (laws.staged_delete (id_term d.id) ix.writer))
  ]

  pub upsert-is_some :
      (reliable : IsReliable cfg.tantivy) (d : Document) (ix : LixunIndex W)
      → (upsert cfg d ix).0 ≡ is_some (to_tantivy cfg.plugins cfg.json d)
  unfolding upsert
  upsert-is_some reliable d ix = elim (Option-cases (to_tantivy cfg.plugins cfg.json d)) [
    | inl e ↦ rw (e, upsert) refl
    | inr (t, e) ↦
        rw (e, upsert) (reliable.add_ok t (cfg.tantivy.delete_term (id_term d.id) ix.writer))
  ]

  pub live-apply_deletes :
      (ks : List Text) (w : Writer W) → live (apply_deletes cfg ks w).index ≡ live w.index
  unfolding apply_deletes delete_by_id
  live-apply_deletes [] w = refl
  live-apply_deletes (k ∷ ks) w =
      live-apply_deletes ks (apply_delete cfg k w) ∙ laws.live_delete (id_term k) w.index.writer

  pub staged-apply_deletes :
      (ks : List Text) (w : Writer W)
      → staged (apply_deletes cfg ks w).index ≡ remove_ids ks (staged w.index)
  unfolding apply_deletes delete_by_id remove_term any
  staged-apply_deletes [] w = sym (retain_all _ (staged w.index) (λ d. refl))
  staged-apply_deletes (k ∷ ks) w =
      staged-apply_deletes ks (apply_delete cfg k w)
      ∙ ap (λ (ds : Docs). remove_ids ks ds) (laws.staged_delete (id_term k) w.index.writer)
      ∙ retain-retain _ _ (staged w.index)
      ∙ retain_ext _ _ (staged w.index)
          (λ (d : TantivyDocument). rw (text_eq_comm k d.id) (ground arith))
