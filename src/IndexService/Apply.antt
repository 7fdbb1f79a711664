-- ===== src/IndexService/Apply.antt =====
-- The mutations of documents, as the loop and as the drain apply them.
use lixun.Common.{
  Bool, true, false, not, ◌&&◌, ◌||◌, Option, none, some, List, [], ◌∷◌, ◌++◌, if◌then◌else◌, any,
  retain,
}
use lixun.Common.Text.{Text, text_eq, text_lt}
use lixun.Common.Int.{ℤ, ltb_ℤ}
use lixun.Common.Sort.{sort}
use lixun.Document.{Document}
use lixun.Index.{
  LixunIndex, IndexConfig, upsert, delete_by_id, delete_by_source_instance, all_doc_ids,
  get_doc_by_id,
}
use lixun.IndexService.{
  Mutation, upsert_one, delete_one, upsert_many, delete_many, delete_subtree,
  delete_source_instance, upsert_body, UpsertedDoc, MutationBatch, upserted_doc_from, Writer,
  id_in_subtree, id_tombstoned,
}

-- `Vec::dedup`: of equal neighbours, the first stays.
unfoldable pub dedup_from : Text → List Text → List Text
dedup_from x [] = []
dedup_from x (y ∷ ys) = if text_eq x y then dedup_from x ys else y ∷ dedup_from y ys

unfoldable pub dedup : List Text → List Text
unfolding dedup_from
dedup [] = []
dedup (x ∷ xs) = x ∷ dedup_from x xs

unfoldable pub staged_ids : List UpsertedDoc → List Text
staged_ids [] = []
staged_ids (u ∷ us) = u.doc_id ∷ staged_ids us

unfoldable pub push_upsert : Document → MutationBatch → MutationBatch
unfolding upserted_doc_from
push_upsert d b = record b { upserts = b.upserts ++ (upserted_doc_from d ∷ []) }

unfoldable pub push_delete : Text → MutationBatch → MutationBatch
push_delete k b = record b { deletes = b.deletes ++ (k ∷ []) }

-- Whether a staged upsert of the id is newer than the snapshot.
unfoldable pub has_newer : Text → ℤ → List UpsertedDoc → Bool
has_newer k expected us = any (λ (u : UpsertedDoc). text_eq u.doc_id k && ltb_ℤ expected u.mtime) us

-- The guard of `apply_upsert_body`.
unfoldable pub is_stale : Option ℤ → Document → Text → List UpsertedDoc → Bool
unfolding has_newer
is_stale none d k us = false
is_stale (some expected) d k us = ltb_ℤ expected d.mtime || has_newer k expected us

-- `pending_batch.upserts.retain(..)` and `subtree_tombstones.push(..)`.
unfoldable pub forget_subtree : Text → MutationBatch → MutationBatch
forget_subtree p b = record b {
  upserts = retain (λ (u : UpsertedDoc). not (id_in_subtree u.doc_id p)) b.upserts;
}

unfoldable pub add_tombstone : Text → List Text → List Text
add_tombstone p ts = if any (λ t. text_eq t p) ts then ts else ts ++ (p ∷ [])

module _ {W : Type 0} (cfg : IndexConfig W) where
  unfoldable pub collect_subtree_ids : LixunIndex W → MutationBatch → Text → List Text
  unfolding dedup staged_ids
  collect_subtree_ids ix b prefix =
      let in_subtree : Text → Bool = λ k. id_in_subtree k prefix in
      let committed : List Text = elim (all_doc_ids cfg ix) [
        | none ↦ []
        | some ids ↦ retain in_subtree ids
      ] in
      dedup (sort text_lt (committed ++ retain in_subtree (staged_ids b.upserts)))

  -- The document written, or none where it is skipped; the outer none is an error.
  unfoldable pub write_body :
      MutationBatch
      → Text
      → Text
      → Option ℤ
      → LixunIndex W
      → Option Document
      → Option (Option Document) × LixunIndex W
  unfolding is_stale
  write_body b k body expected ix none = (some none, ix)
  write_body b k body expected ix (some d) =
      if is_stale expected d k b.upserts
      then (some none, ix)
      else (let updated : Document = record d { body = some body } in
          let (ok, ix') = upsert cfg updated ix in (if ok then some (some updated) else none, ix'))

  unfoldable pub apply_upsert_body :
      MutationBatch
      → Text
      → Text
      → Option ℤ
      → LixunIndex W
      → Option (Option Document) × LixunIndex W
  unfolding write_body
  apply_upsert_body b k body expected ix = elim (get_doc_by_id cfg k ix) [
    | none ↦ (none, ix)
    | some found ↦ write_body b k body expected ix found
  ]

  -- `draining`: the drain marks the writer dirty whether or not the call succeeds.
  unfoldable pub apply_upsert : Bool → Document → Writer W → Writer W
  unfolding push_upsert
  apply_upsert draining d w =
      if id_tombstoned d.id w.subtree_tombstones
      then record w { dirty = draining || w.dirty }
      else (let (ok, ix) = upsert cfg d w.index in
          if ok
          then record w { index = ix; pending_batch = push_upsert d w.pending_batch; dirty = true }
          else record w { index = ix; dirty = draining || w.dirty })

  unfoldable pub apply_upserts : Bool → List Document → Writer W → Writer W
  unfolding apply_upsert
  apply_upserts draining [] w = w
  apply_upserts draining (d ∷ ds) w = apply_upserts draining ds (apply_upsert draining d w)

  -- `delete_by_id` does not fail.
  unfoldable pub apply_delete : Text → Writer W → Writer W
  unfolding push_delete
  apply_delete k w = record w {
    index = delete_by_id cfg k w.index;
    pending_batch = push_delete k w.pending_batch;
    dirty = true;
  }

  unfoldable pub apply_deletes : List Text → Writer W → Writer W
  unfolding apply_delete
  apply_deletes [] w = w
  apply_deletes (k ∷ ks) w = apply_deletes ks (apply_delete k w)

  unfoldable pub apply_delete_subtree : Text → Writer W → Writer W
  unfolding collect_subtree_ids forget_subtree apply_deletes add_tombstone
  apply_delete_subtree p w =
      let matched = collect_subtree_ids w.index w.pending_batch p in
      let deleted =
        apply_deletes matched (record w { pending_batch = forget_subtree p w.pending_batch }) in
      record deleted { subtree_tombstones = add_tombstone p deleted.subtree_tombstones }

  unfoldable pub apply_delete_source_instance : Text → Writer W → Writer W
  apply_delete_source_instance k w = record w {
    index = delete_by_source_instance cfg k w.index;
    dirty = true;
  }

  unfoldable pub note_body : LixunIndex W → Writer W → Option (Option Document) → Writer W
  unfolding push_upsert
  note_body ix w (some (some d)) = record w {
    index = ix;
    pending_batch = push_upsert d w.pending_batch;
    dirty = true;
  }
  note_body ix w (some none) = record w { index = ix }
  note_body ix w none = record w { index = ix }

  unfoldable pub handle_upsert_body : Text → Text → Option ℤ → Writer W → Writer W
  unfolding apply_upsert_body note_body
  handle_upsert_body k body expected w =
      if id_tombstoned k w.subtree_tombstones
      then w
      else (let (updated, ix) = apply_upsert_body w.pending_batch k body expected w.index in
          note_body ix w updated)

  -- The mutations of documents; the others change none.
  unfoldable pub apply_mutation : Bool → Mutation → Writer W → Writer W
  unfolding apply_upserts apply_upsert apply_delete apply_deletes apply_delete_subtree
      apply_delete_source_instance handle_upsert_body
  apply_mutation draining (upsert_one d) w = apply_upsert draining d w
  apply_mutation draining (upsert_many ds) w = apply_upserts draining ds w
  apply_mutation draining (delete_one k) w = apply_delete k w
  apply_mutation draining (delete_many ks) w = apply_deletes ks w
  apply_mutation draining (delete_subtree p) w = apply_delete_subtree p w
  apply_mutation draining (delete_source_instance k) w = apply_delete_source_instance k w
  apply_mutation draining (upsert_body k body expected) w = handle_upsert_body k body expected w
  apply_mutation draining _ w = w
