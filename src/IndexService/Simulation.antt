-- ===== src/IndexService/Simulation.antt =====
-- The view of the writer moves as the documents do (`Refines`), mutation by mutation.
use lixun.Common.{
  Bool, true, ◌||◌, Option, none, some, List, [], ◌∷◌, ◌≡◌, refl, ap, arith, Option-cases, inl, inr,
  Bool-cases, ◌∙◌,
}
use lixun.Common.Text.{Text}
use lixun.Common.Int.{ℤ}
use lixun.Common.Sort.{All-map, retain_congr}
use mathlib.Core.Option
use lixun.Document.{Document}
use lixun.Index.{
  IndexConfig, LixunIndex, id_term, source_instance_term, upsert, delete_by_id,
  delete_by_source_instance, get_doc_by_id,
}
use lixun.Index.Convert.{TantivyDocument, doc_from_tantivy}
use lixun.Index.Spec.{remove_term, find_doc, has_id, HasDistinctIds, IsTantivy, IsReliable}
use lixun.IndexService.{
  Mutation, upsert_one, delete_one, upsert_many, delete_many, delete_subtree,
  delete_source_instance, upsert_body, MutationBatch, barrier, applied, shutdown, Writer,
  id_tombstoned, commit_now,
}
use lixun.IndexService.Apply.{
  is_stale, add_tombstone, staged_ids, apply_upsert, apply_upserts, apply_delete, apply_deletes,
  apply_delete_subtree, apply_upsert_body, write_body, note_body, handle_upsert_body,
  apply_mutation, collect_subtree_ids, forget_subtree, push_upsert, push_delete,
}
use lixun.IndexService.Subtree.{contains, contains-collect_subtree_ids}
use lixun.IndexService.Staged.{
  remove_subtree, remove_ids, live-upsert, staged-upsert, upsert-is_some, live-apply_deletes,
  staged-apply_deletes,
}
use lixun.IndexService.Refines.{
  View, put_in, spec_upsert, spec_upserts, spec_subtree, spec_body, spec, IsCovered, view,
  spec_found,
}

module _ {W : Type 0} (cfg : IndexConfig W) (laws : IsTantivy cfg.tantivy)
    (reliable : IsReliable cfg.tantivy) where
  apply_upsert-view :
      (draining : Bool) (d : Document) (w : Writer W)
      → view cfg laws (apply_upsert cfg draining d w) ≡ spec_upsert cfg d (view cfg laws w)
  unfolding spec_upsert put_in apply_upsert push_upsert
  apply_upsert-view draining d w = elim (Bool-cases (id_tombstoned d.id w.subtree_tombstones)) [
    | inl e ↦ rw (e, apply_upsert, spec_upsert) refl
    | inr e ↦ elim (Bool-cases (upsert cfg d w.index).0) [
      | inl f ↦
          rw
            (
              e,
              f,
              apply_upsert,
              spec_upsert,
              live-upsert cfg laws d w.index,
              staged-upsert cfg laws reliable d w.index,
              ← upsert-is_some cfg laws reliable d w.index,
            )
            (rw f refl)
      | inr f ↦
          rw
            (
              e,
              f,
              apply_upsert,
              spec_upsert,
              live-upsert cfg laws d w.index,
              staged-upsert cfg laws reliable d w.index,
              ← upsert-is_some cfg laws reliable d w.index,
            )
            (rw f refl)
    ]
  ]

  apply_upserts-view :
      (draining : Bool) (ds : List Document) (w : Writer W)
      → view cfg laws (apply_upserts cfg draining ds w) ≡ spec_upserts cfg ds (view cfg laws w)
  unfolding spec_upserts apply_upserts
  apply_upserts-view draining [] w = refl
  apply_upserts-view draining (d ∷ ds) w =
      apply_upserts-view draining ds (apply_upsert cfg draining d w)
      ∙ ap (λ (v : View). spec_upserts cfg ds v) (apply_upsert-view draining d w)

  apply_deletes-kept :
      (ks : List Text) (w : Writer W)
      → let r = apply_deletes cfg ks w in
        (r.subtree_tombstones ≡ w.subtree_tombstones)
        × (r.pending_batch.upserts ≡ w.pending_batch.upserts)
        × (r.generation ≡ w.generation)
  unfolding apply_deletes push_delete
  apply_deletes-kept [] w = (refl, refl, refl)
  apply_deletes-kept (k ∷ ks) w = apply_deletes-kept ks (apply_delete cfg k w)

  apply_deletes-view :
      (ks : List Text) (w : Writer W)
      → view cfg laws (apply_deletes cfg ks w)
        ≡ record (view cfg laws w) { working = remove_ids ks (laws.staged w.index.writer) }
  apply_deletes-view ks w =
      let (t, u, g) = apply_deletes-kept ks w in
      rw (live-apply_deletes cfg laws ks w, staged-apply_deletes cfg laws ks w, t, u, g) refl

  apply_subtree-view :
      (p : Text) (w : Writer W)
      → IsCovered cfg (view cfg laws w)
      → view cfg laws (apply_delete_subtree cfg p w) ≡ spec_subtree cfg p (view cfg laws w)
  unfolding spec_subtree apply_delete_subtree forget_subtree
  apply_subtree-view p w c =
      let matched = collect_subtree_ids cfg w.index w.pending_batch p in
      let forgot = record w { pending_batch = forget_subtree p w.pending_batch } in
      let same : remove_ids matched (laws.staged w.index.writer)
          ≡ remove_subtree p (laws.staged w.index.writer) =
        retain_congr _ _ (laws.staged w.index.writer) (
          All-map (laws.staged w.index.writer)
            (λ (d : TantivyDocument)
                (h : (has_id d.id (laws.live w.index.writer)
                    || contains d.id (staged_ids w.pending_batch.upserts))
                  ≡ true).
              rw (contains-collect_subtree_ids cfg laws reliable w.index w.pending_batch p d.id, h)
                (ground arith))
            c.covered) in
      ap (λ (v : View). record v { tombstones = add_tombstone p v.tombstones })
        (apply_deletes-view matched forgot)
      ∙ rw same refl

  -- The reader gives the visible document.
  pub get_doc_by_id-find_doc :
      (k : Text) (ix : LixunIndex W)
      → HasDistinctIds (laws.live ix.writer)
      → get_doc_by_id cfg k ix
        ≡ some
            (Option.map (doc_from_tantivy cfg.plugins cfg.json) (find_doc k (laws.live ix.writer)))
  unfolding get_doc_by_id
  get_doc_by_id-find_doc k ix distinct = elim (Option-cases (cfg.tantivy.search_id k ix.writer)) [
    | inl e ↦ absurd (reliable.search_ok k ix.writer e)
    | inr (r, e) ↦ rw (e, get_doc_by_id, ← laws.search_live ix.writer k r distinct e) (go r)
  ]
    where
      go :
          (r : Option TantivyDocument)
          → (elim r as (λ _. Option (Option Document)) [
            | none ↦ some none
            | some t ↦ some (some (doc_from_tantivy cfg.plugins cfg.json t))
          ])
            ≡ some (Option.map (doc_from_tantivy cfg.plugins cfg.json) r)
      go none = refl
      go (some t) = refl

  write_body-view :
      (k body : Text) (expected : Option ℤ) (w : Writer W) (o : Option TantivyDocument)
      → let r =
          write_body cfg w.pending_batch k body expected w.index
            (Option.map (doc_from_tantivy cfg.plugins cfg.json) o) in
        view cfg laws (note_body cfg r.1 w r.0) ≡ spec_found cfg k body expected o (view cfg laws w)
  unfolding write_body note_body spec_found push_upsert put_in
  write_body-view k body expected w none = refl
  write_body-view k body expected w (some t) =
      let d = doc_from_tantivy cfg.plugins cfg.json t in
      let d' : Document = record d { body = some body } in
      elim (Bool-cases (is_stale expected d k w.pending_batch.upserts)) [
        | inl e ↦ rw (e, write_body, spec_found) refl
        | inr e ↦ elim (Bool-cases (upsert cfg d' w.index).0) [
          | inl f ↦
              rw
                (
                  e,
                  f,
                  write_body,
                  spec_found,
                  live-upsert cfg laws d' w.index,
                  staged-upsert cfg laws reliable d' w.index,
                  ← upsert-is_some cfg laws reliable d' w.index,
                )
                (rw f refl)
          | inr f ↦
              rw
                (
                  e,
                  f,
                  write_body,
                  spec_found,
                  live-upsert cfg laws d' w.index,
                  staged-upsert cfg laws reliable d' w.index,
                  ← upsert-is_some cfg laws reliable d' w.index,
                )
                (rw f refl)
        ]
      ]

  apply_upsert_body-found :
      (b : MutationBatch) (k body : Text) (expected : Option ℤ) (ix : LixunIndex W)
      → HasDistinctIds (laws.live ix.writer)
      → apply_upsert_body cfg b k body expected ix
        ≡ write_body cfg b k body expected ix
            (Option.map (doc_from_tantivy cfg.plugins cfg.json) (find_doc k (laws.live ix.writer)))
  unfolding apply_upsert_body
  apply_upsert_body-found b k body expected ix distinct =
      rw (get_doc_by_id-find_doc k ix distinct, apply_upsert_body) refl

  pub handle_upsert_body-view :
      (k body : Text) (expected : Option ℤ) (w : Writer W)
      → IsCovered cfg (view cfg laws w)
      → view cfg laws (handle_upsert_body cfg k body expected w)
        ≡ spec_body cfg k body expected (view cfg laws w)
  unfolding handle_upsert_body spec_body
  handle_upsert_body-view k body expected w c =
      elim (Bool-cases (id_tombstoned k w.subtree_tombstones)) [
        | inl e ↦ rw (e, handle_upsert_body, spec_body) refl
        | inr e ↦
            rw (e, handle_upsert_body, spec_body)
              (ap
                  (λ (r : Option (Option Document) × LixunIndex W).
                    view cfg laws (note_body cfg r.1 w r.0))
                  (apply_upsert_body-found w.pending_batch k body expected w.index
                    c.distinct_visible)
                ∙ write_body-view k body expected w (find_doc k (laws.live w.index.writer)))
      ]

  -- A mutation of documents does to the view what it does to the documents.
  pub apply_mutation-view :
      (draining : Bool) (m : Mutation) (w : Writer W)
      → IsCovered cfg (view cfg laws w)
      → view cfg laws (apply_mutation cfg draining m w) ≡ spec cfg m (view cfg laws w)
  unfolding apply_mutation spec delete_by_source_instance delete_by_id remove_term
  apply_mutation-view draining (upsert_one d) w c = apply_upsert-view draining d w
  apply_mutation-view draining (upsert_many ds) w c = apply_upserts-view draining ds w
  apply_mutation-view draining (delete_one k) w c =
      rw
        (laws.live_delete (id_term k) w.index.writer, laws.staged_delete (id_term k) w.index.writer)
        refl
  apply_mutation-view draining (delete_many ks) w c = apply_deletes-view ks w
  apply_mutation-view draining (delete_subtree p) w c = apply_subtree-view p w c
  apply_mutation-view draining (delete_source_instance k) w c =
      rw
        (
          laws.live_delete (source_instance_term k) w.index.writer,
          laws.staged_delete (source_instance_term k) w.index.writer,
        )
        refl
  apply_mutation-view draining (upsert_body k body expected) w c =
      handle_upsert_body-view k body expected w c
  apply_mutation-view draining (barrier r) w c = refl
  apply_mutation-view draining (applied r) w c = refl
  apply_mutation-view draining shutdown w c = refl
  apply_mutation-view draining (commit_now r) w c = refl
