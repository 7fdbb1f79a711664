-- ===== src/IndexService/Tests.antt =====
-- Runs of the writer on an index in memory.
mod Mutations
mod Barriers
mod Cached
use lixun.Common.{
  arith, ℕ, ◌+◌, Bool, true, false, Option, none, some, List, [], ◌∷◌, ◌≡◌, ◌⊎◌, refl, inl, inr,
  if◌then◌else◌,
}
use lixun.Common.Text.{Text, codes, text_eq}
use lixun.Common.Int.{pos}
use lixun.Common.Sort.{All}
use lixun.Document
use lixun.Index.{IndexConfig, LixunIndex, id_term, upsert, commit, reload}
use lixun.Index.Convert.{TantivyDocument}
use lixun.Index.Spec.{Docs, has_id, remove_term, find_doc}
use lixun.Index.Memory.{
  Memory, memory_laws, memory-IsReliable, in_memory, new_index, doc_at, odd_doc,
}
use lixun.IndexService.{
  Mutation, upsert_one, delete_one, upsert_many, delete_many, delete_subtree,
  delete_source_instance, upsert_body, barrier, applied, shutdown, commit_now, Writer,
  id_in_subtree, strip_prefix, starts_with_slash, default_batch,
}
use lixun.IndexService.Apply.{apply_delete, apply_upsert, handle_upsert_body}
use lixun.IndexService.Commit.{do_commit, commit_and_flush, reply_all}
use lixun.IndexService.Events.{Event, received, tick, start, step, run, finish, writer_loop}
use lixun.IndexService.Refines.{view}
use lixun.IndexService.Runs.{Run, run-Run}
use lixun.IndexService.Bodies.{handle_upsert_body-newer, handle_upsert_body-apply_delete}
use lixun.IndexService.Barriers.{run-IsAcked}
use lixun.IndexService.Replies.{count, receivers, writer_loop-replies}
use lixun.IndexService.Cache.{Key, ResultCache, IsFresh, search_with_breakdown, reload-IsFresh}

abbrev pub cfg : IndexConfig Memory
cfg = in_memory true true

abbrev pub failing : IndexConfig Memory
failing = in_memory false true

abbrev pub idle : Writer Memory
idle = start new_index 0

in_subtree : id_in_subtree (codes "fs:/a/b") (codes "fs:/a") ≡ true
unfolding id_in_subtree strip_prefix starts_with_slash text_eq
in_subtree = refl

not_in_subtree : id_in_subtree (codes "fs:/ab") (codes "fs:/a") ≡ false
unfolding id_in_subtree strip_prefix starts_with_slash text_eq
not_in_subtree = refl

abbrev pub events : List (ℕ × Event)
events =
    (0, received (upsert_one (doc_at (codes "d/a") 5)))
    ∷ (10, received (delete_subtree (codes "d")))
    ∷ (15, received (upsert_one (doc_at (codes "d/b") 6)))
    ∷ (20, received (upsert_many (doc_at (codes "e") 7 ∷ [])))
    ∷ (30, received (barrier 1))
    ∷ (40, tick)
    ∷ (3040, tick)
    ∷ []

abbrev pub ran : Writer Memory
ran = run cfg events idle

one_is_visible : has_id (codes "e") ran.index.writer.live ≡ true
unfolding memory_laws lixun.Common.any lixun.Common.retain lixun.Common.Sort.sort
    lixun.Common.Sort.insert lixun.Common.Dict.get lixun.Common.Text.text_eq
    lixun.Common.Text.text_lt lixun.Common.Text.is_empty lixun.Common.Text.trim
    lixun.Common.Text.trim_start lixun.Common.Text.is_whitespace lixun.Document.as_str
    lixun.Index.has_live lixun.Index.live_terms lixun.Index.collect_ids lixun.Index.non_blank
    lixun.Index.upsert lixun.Index.delete_by_id lixun.Index.delete_by_source_instance
    lixun.Index.commit lixun.Index.reload lixun.Index.all_doc_ids lixun.Index.get_doc_by_id
    lixun.Index.get_body_by_id lixun.Index.Convert.unwrap_or_empty lixun.Index.Convert.fits
    lixun.Index.Convert.add_extras lixun.Index.Convert.action_text lixun.Index.Convert.to_tantivy
    lixun.Index.Convert.stored_optional_text lixun.Index.Convert.category_of
    lixun.Index.Convert.action_of lixun.Index.Convert.secondary_action_of
    lixun.Index.Convert.value_as lixun.Index.Convert.read_extras
    lixun.Index.Convert.doc_from_tantivy lixun.Index.Spec.remove_term lixun.Index.Spec.put_doc
    lixun.Index.Spec.find_doc lixun.Index.Spec.has_id lixun.IndexService.is_empty_batch
    lixun.IndexService.upserted_doc_from lixun.IndexService.strip_prefix
    lixun.IndexService.starts_with_slash lixun.IndexService.id_in_subtree
    lixun.IndexService.id_tombstoned lixun.IndexService.Apply.dedup_from
    lixun.IndexService.Apply.dedup lixun.IndexService.Apply.staged_ids
    lixun.IndexService.Apply.push_upsert lixun.IndexService.Apply.push_delete
    lixun.IndexService.Apply.has_newer lixun.IndexService.Apply.is_stale
    lixun.IndexService.Apply.forget_subtree lixun.IndexService.Apply.add_tombstone
    lixun.IndexService.Apply.collect_subtree_ids lixun.IndexService.Apply.write_body
    lixun.IndexService.Apply.apply_upsert_body lixun.IndexService.Apply.apply_upsert
    lixun.IndexService.Apply.apply_upserts lixun.IndexService.Apply.apply_delete
    lixun.IndexService.Apply.apply_deletes lixun.IndexService.Apply.apply_delete_subtree
    lixun.IndexService.Apply.apply_delete_source_instance lixun.IndexService.Apply.note_body
    lixun.IndexService.Apply.handle_upsert_body lixun.IndexService.Apply.apply_mutation
    lixun.IndexService.Commit.reply_all lixun.IndexService.Commit.do_commit
    lixun.IndexService.Commit.flush_post_commit lixun.IndexService.Commit.commit_and_flush
    lixun.IndexService.Commit.on_tick lixun.IndexService.Events.start
    lixun.IndexService.Events.on_barrier lixun.IndexService.Events.step
    lixun.IndexService.Events.run lixun.IndexService.Events.drain_one
    lixun.IndexService.Events.drain_all lixun.IndexService.Events.commit_last
    lixun.IndexService.Events.finish lixun.IndexService.Events.writer_loop
    lixun.IndexService.Cache.key_eq lixun.IndexService.Cache.get_cached
    lixun.IndexService.Cache.insert_cached lixun.IndexService.Cache.put_cached
    lixun.IndexService.Cache.search_with_breakdown
one_is_visible = refl

dropped : has_id (codes "d/b") ran.index.writer.live ≡ false
unfolding memory_laws lixun.Common.any lixun.Common.retain lixun.Common.Sort.sort
    lixun.Common.Sort.insert lixun.Common.Dict.get lixun.Common.Text.text_eq
    lixun.Common.Text.text_lt lixun.Common.Text.is_empty lixun.Common.Text.trim
    lixun.Common.Text.trim_start lixun.Common.Text.is_whitespace lixun.Document.as_str
    lixun.Index.has_live lixun.Index.live_terms lixun.Index.collect_ids lixun.Index.non_blank
    lixun.Index.upsert lixun.Index.delete_by_id lixun.Index.delete_by_source_instance
    lixun.Index.commit lixun.Index.reload lixun.Index.all_doc_ids lixun.Index.get_doc_by_id
    lixun.Index.get_body_by_id lixun.Index.Convert.unwrap_or_empty lixun.Index.Convert.fits
    lixun.Index.Convert.add_extras lixun.Index.Convert.action_text lixun.Index.Convert.to_tantivy
    lixun.Index.Convert.stored_optional_text lixun.Index.Convert.category_of
    lixun.Index.Convert.action_of lixun.Index.Convert.secondary_action_of
    lixun.Index.Convert.value_as lixun.Index.Convert.read_extras
    lixun.Index.Convert.doc_from_tantivy lixun.Index.Spec.remove_term lixun.Index.Spec.put_doc
    lixun.Index.Spec.find_doc lixun.Index.Spec.has_id lixun.IndexService.is_empty_batch
    lixun.IndexService.upserted_doc_from lixun.IndexService.strip_prefix
    lixun.IndexService.starts_with_slash lixun.IndexService.id_in_subtree
    lixun.IndexService.id_tombstoned lixun.IndexService.Apply.dedup_from
    lixun.IndexService.Apply.dedup lixun.IndexService.Apply.staged_ids
    lixun.IndexService.Apply.push_upsert lixun.IndexService.Apply.push_delete
    lixun.IndexService.Apply.has_newer lixun.IndexService.Apply.is_stale
    lixun.IndexService.Apply.forget_subtree lixun.IndexService.Apply.add_tombstone
    lixun.IndexService.Apply.collect_subtree_ids lixun.IndexService.Apply.write_body
    lixun.IndexService.Apply.apply_upsert_body lixun.IndexService.Apply.apply_upsert
    lixun.IndexService.Apply.apply_upserts lixun.IndexService.Apply.apply_delete
    lixun.IndexService.Apply.apply_deletes lixun.IndexService.Apply.apply_delete_subtree
    lixun.IndexService.Apply.apply_delete_source_instance lixun.IndexService.Apply.note_body
    lixun.IndexService.Apply.handle_upsert_body lixun.IndexService.Apply.apply_mutation
    lixun.IndexService.Commit.reply_all lixun.IndexService.Commit.do_commit
    lixun.IndexService.Commit.flush_post_commit lixun.IndexService.Commit.commit_and_flush
    lixun.IndexService.Commit.on_tick lixun.IndexService.Events.start
    lixun.IndexService.Events.on_barrier lixun.IndexService.Events.step
    lixun.IndexService.Events.run lixun.IndexService.Events.drain_one
    lixun.IndexService.Events.drain_all lixun.IndexService.Events.commit_last
    lixun.IndexService.Events.finish lixun.IndexService.Events.writer_loop
    lixun.IndexService.Cache.key_eq lixun.IndexService.Cache.get_cached
    lixun.IndexService.Cache.insert_cached lixun.IndexService.Cache.put_cached
    lixun.IndexService.Cache.search_with_breakdown
dropped = refl

answered : ran.replies ≡ (1, 1) ∷ []
unfolding memory_laws lixun.Common.any lixun.Common.retain lixun.Common.Sort.sort
    lixun.Common.Sort.insert lixun.Common.Dict.get lixun.Common.Text.text_eq
    lixun.Common.Text.text_lt lixun.Common.Text.is_empty lixun.Common.Text.trim
    lixun.Common.Text.trim_start lixun.Common.Text.is_whitespace lixun.Document.as_str
    lixun.Index.has_live lixun.Index.live_terms lixun.Index.collect_ids lixun.Index.non_blank
    lixun.Index.upsert lixun.Index.delete_by_id lixun.Index.delete_by_source_instance
    lixun.Index.commit lixun.Index.reload lixun.Index.all_doc_ids lixun.Index.get_doc_by_id
    lixun.Index.get_body_by_id lixun.Index.Convert.unwrap_or_empty lixun.Index.Convert.fits
    lixun.Index.Convert.add_extras lixun.Index.Convert.action_text lixun.Index.Convert.to_tantivy
    lixun.Index.Convert.stored_optional_text lixun.Index.Convert.category_of
    lixun.Index.Convert.action_of lixun.Index.Convert.secondary_action_of
    lixun.Index.Convert.value_as lixun.Index.Convert.read_extras
    lixun.Index.Convert.doc_from_tantivy lixun.Index.Spec.remove_term lixun.Index.Spec.put_doc
    lixun.Index.Spec.find_doc lixun.Index.Spec.has_id lixun.IndexService.is_empty_batch
    lixun.IndexService.upserted_doc_from lixun.IndexService.strip_prefix
    lixun.IndexService.starts_with_slash lixun.IndexService.id_in_subtree
    lixun.IndexService.id_tombstoned lixun.IndexService.Apply.dedup_from
    lixun.IndexService.Apply.dedup lixun.IndexService.Apply.staged_ids
    lixun.IndexService.Apply.push_upsert lixun.IndexService.Apply.push_delete
    lixun.IndexService.Apply.has_newer lixun.IndexService.Apply.is_stale
    lixun.IndexService.Apply.forget_subtree lixun.IndexService.Apply.add_tombstone
    lixun.IndexService.Apply.collect_subtree_ids lixun.IndexService.Apply.write_body
    lixun.IndexService.Apply.apply_upsert_body lixun.IndexService.Apply.apply_upsert
    lixun.IndexService.Apply.apply_upserts lixun.IndexService.Apply.apply_delete
    lixun.IndexService.Apply.apply_deletes lixun.IndexService.Apply.apply_delete_subtree
    lixun.IndexService.Apply.apply_delete_source_instance lixun.IndexService.Apply.note_body
    lixun.IndexService.Apply.handle_upsert_body lixun.IndexService.Apply.apply_mutation
    lixun.IndexService.Commit.reply_all lixun.IndexService.Commit.do_commit
    lixun.IndexService.Commit.flush_post_commit lixun.IndexService.Commit.commit_and_flush
    lixun.IndexService.Commit.on_tick lixun.IndexService.Events.start
    lixun.IndexService.Events.on_barrier lixun.IndexService.Events.step
    lixun.IndexService.Events.run lixun.IndexService.Events.drain_one
    lixun.IndexService.Events.drain_all lixun.IndexService.Events.commit_last
    lixun.IndexService.Events.finish lixun.IndexService.Events.writer_loop
    lixun.IndexService.Cache.key_eq lixun.IndexService.Cache.get_cached
    lixun.IndexService.Cache.insert_cached lixun.IndexService.Cache.put_cached
    lixun.IndexService.Cache.search_with_breakdown
answered = refl

abbrev pub with_nine : Writer Memory
with_nine = run cfg ((0, received (upsert_one (doc_at (codes "a") 9))) ∷ []) idle

abbrev pub committed_nine : Writer Memory
committed_nine = run cfg ((1, received (commit_now 3)) ∷ []) with_nine
