-- ===== src/IndexService/Refines.antt =====
-- The index as documents alone, and the writer as a refinement of it: no terms, no segments, no
-- enumeration of ids. A batch changes the working documents, and a commit publishes them.
use lixun.Common.{
  ℕ, ◌+◌, ◌%◌, ◌^◌, true, not, ◌||◌, Option, none, some, List, [], ◌∷◌, ◌++◌, ◌≡◌, ◌⊎◌,
  if◌then◌else◌, retain,
}
use lixun.Common.Text.{Text}
use lixun.Common.Int.{ℤ}
use lixun.Common.Sort.{All}
use lixun.Document.{Document}
use lixun.Index.{IndexConfig, id_term, source_instance_term}
use lixun.Index.Convert.{TantivyDocument, to_tantivy, doc_from_tantivy}
use lixun.Index.Spec.{Docs, remove_term, find_doc, has_id, HasDistinctIds, IsTantivy}
use lixun.IndexService.{
  Mutation, upsert_one, delete_one, upsert_many, delete_many, delete_subtree,
  delete_source_instance, upsert_body, UpsertedDoc, upserted_doc_from, Writer, id_in_subtree,
  id_tombstoned, commit_now,
}
use lixun.IndexService.Apply.{is_stale, add_tombstone, staged_ids}
use lixun.IndexService.Events.{Event, received, tick}
use lixun.IndexService.Subtree.{contains}
use lixun.IndexService.Staged.{put, is_some, remove_subtree, remove_ids}

pub record View : Type 0 where
  pub visible : Docs  -- to a search
  pub working : Docs  -- visible once the batch is committed
  pub tombstones : List Text
  pub recent : List UpsertedDoc  -- the upserts of the batch
  pub generation : ℕ

unfoldable pub publish : View → View
publish v = record {
  visible = v.working;
  working = v.working;
  tombstones = [];
  recent = [];
  generation = (v.generation + 1) % 2 ^ 64;
}

module _ {W : Type 0} (cfg : IndexConfig W) where
  unfoldable pub put_in : Document → View → View
  put_in d v = record v {
    working = put cfg d v.working;
    recent =
        if is_some (to_tantivy cfg.plugins cfg.json d)
        then v.recent ++ (upserted_doc_from d ∷ [])
        else v.recent;
  }

  unfoldable pub spec_upsert : Document → View → View
  unfolding put_in
  spec_upsert d v = if id_tombstoned d.id v.tombstones then v else put_in d v

  unfoldable pub spec_upserts : List Document → View → View
  unfolding spec_upsert
  spec_upserts [] v = v
  spec_upserts (d ∷ ds) v = spec_upserts ds (spec_upsert d v)

  unfoldable pub spec_subtree : Text → View → View
  spec_subtree p v = record v {
    working = remove_subtree p v.working;
    recent = retain (λ (u : UpsertedDoc). not (id_in_subtree u.doc_id p)) v.recent;
    tombstones = add_tombstone p v.tombstones;
  }

  -- The visible document with the body in it, unless something newer is visible or recent.
  unfoldable pub spec_found : Text → Text → Option ℤ → Option TantivyDocument → View → View
  unfolding put_in
  spec_found k body expected none v = v
  spec_found k body expected (some t) v =
      let d = doc_from_tantivy cfg.plugins cfg.json t in
      if is_stale expected d k v.recent then v else put_in (record d { body = some body }) v

  unfoldable pub spec_body : Text → Text → Option ℤ → View → View
  unfolding spec_found
  spec_body k body expected v =
      if id_tombstoned k v.tombstones
      then v
      else spec_found k body expected (find_doc k v.visible) v

  unfoldable pub spec : Mutation → View → View
  unfolding spec_upsert spec_upserts spec_subtree spec_body
  spec (upsert_one d) v = spec_upsert d v
  spec (upsert_many ds) v = spec_upserts ds v
  spec (delete_one k) v = record v { working = remove_term (id_term k) v.working }
  spec (delete_many ks) v = record v { working = remove_ids ks v.working }
  spec (delete_subtree p) v = spec_subtree p v
  spec (delete_source_instance k) v = record v {
    working = remove_term (source_instance_term k) v.working;
  }
  spec (upsert_body k body expected) v = spec_body k body expected v
  spec _ v = v

  -- What an event may do: a commit that is not due, or that fails, leaves the view.
  abbrev pub Moves : Event → View → View → Type 0
  Moves tick v v' = (v' ≡ v) ⊎ (v' ≡ publish v)
  Moves (received (commit_now r)) v v' = (v' ≡ v) ⊎ (v' ≡ publish v)
  Moves (received m) v v' = v' ≡ spec m v

  -- Every working document is visible or recent, and no id stands twice.
  pub record IsCovered (v : View) : Type 0 where
    pub covered :
        All
          (λ (d : TantivyDocument).
            (has_id d.id v.visible || contains d.id (staged_ids v.recent)) ≡ true)
          v.working
    pub distinct : HasDistinctIds v.working
    pub distinct_visible : HasDistinctIds v.visible

  abbrev pub view : (laws : IsTantivy cfg.tantivy) → Writer W → View
  view laws w = record {
    visible = laws.live w.index.writer;
    working = laws.staged w.index.writer;
    tombstones = w.subtree_tombstones;
    recent = w.pending_batch.upserts;
    generation = w.generation;
  }
