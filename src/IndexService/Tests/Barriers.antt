-- ===== src/IndexService/Tests/Barriers.antt =====
-- Replies, and commits that fail.
use lixun.Common.{
  arith, ℕ, ◌+◌, Bool, true, false, Option, none, some, List, [], ◌∷◌, ◌≡◌, ◌⊎◌, refl, inl, inr,
  if◌then◌else◌,
}
use lixun.Common.Text.{Text, codes, text_eq}
use lixun.Common.Sort.{All}
use lixun.Document
use lixun.Index.{IndexConfig, LixunIndex, id_term, upsert, commit, reload}
use lixun.Index.Convert.{TantivyDocument}
use lixun.Index.Spec.{Docs, has_id, remove_term, find_doc}
use lixun.Index.Memory.{Memory, memory_laws, memory-IsReliable, new_index, doc_at, odd_doc}
use lixun.IndexService.{
  Mutation, upsert_one, delete_one, upsert_many, delete_many, delete_subtree,
  delete_source_instance, upsert_body, barrier, applied, shutdown, commit_now, Writer,
  id_in_subtree, strip_prefix, starts_with_slash, default_batch,
}
use lixun.IndexService.Apply.{apply_delete, apply_upsert, handle_upsert_body}
use lixun.IndexService.Commit.{do_commit, commit_and_flush, reply_all}
use lixun.IndexService.Events.{Event, received, tick, start, step, run, finish, writer_loop}
use lixun.IndexService.Barriers.{run-IsAcked}
use lixun.IndexService.Replies.{count, receivers, writer_loop-replies}
use lixun.IndexService.Failures.{finish-failed, apply_upsert-failed}
use lixun.IndexService.Cache.{Key, ResultCache, IsFresh, search_with_breakdown, reload-IsFresh}
use lixun.IndexService.Tests.{cfg, failing, idle, events, with_nine}

run-IsAcked_example :
    let w' = run cfg ((0, received (upsert_one (doc_at (codes "a") 9))) ∷ []) idle in
    let w'' = step cfg 1 (received (commit_now 3)) w' in
    (w''.replies ≡ w'.replies) ⊎ (w''.index.writer.live ≡ w''.index.writer.staged)
unfolding memory_laws lixun.Common.any lixun.Common.retain lixun.Common.Sort.sort
    lixun.Common.Sort.insert lixun.Common.Dict.get lixun.Common.Text.text_eq
    lixun.Common.Text.text_lt lixun.Common.Text.is_empty lixun.Common.Text.trim
    lixun.Common.Text.trim_start lixun.Common.Text.is_whitespace lixun.Document.as_str
    lixun.Index.has_live lixun.Index.live_terms lixun.Index.collect_ids lixun.Index.non_blank
    lixun.Index.upsert lixun.Index.delete_by_id lixun.Index.delete_by_source_instance
    lixun.Index.commit lixun.Index.reload lixun.Index.all_doc_ids lixun.Index.get_doc_by_id
    lixun.Index.get_body_by_id lixun.Index.Convert.unwrap_or_empty lixun.Index.Convert.fits
    lixun.Index.Convert.add_extras lixun.Index.Convert.action_text lixun.Index.Convert.to_tantivy
    lixun.Index.Convert.stored_optional_text lixun.Index.Convert.category_of
    lixun.Index.Convert.action_of lixun.Index.Convert.secondary_action_of
    lixun.Index.Convert.value_as lixun.Index.Convert.read_extras
    lixun.Index.Convert.doc_from_tantivy lixun.Index.Spec.remove_term lixun.Index.Spec.put_doc
    lixun.Index.Spec.find_doc lixun.Index.Spec.has_id lixun.IndexService.is_empty_batch
    lixun.IndexService.upserted_doc_from lixun.IndexService.strip_prefix
    lixun.IndexService.starts_with_slash lixun.IndexService.id_in_subtree
    lixun.IndexService.id_tombstoned lixun.IndexService.Apply.dedup_from
    lixun.IndexService.Apply.dedup lixun.IndexService.Apply.staged_ids
    lixun.IndexService.Apply.push_upsert lixun.IndexService.Apply.push_delete
    lixun.IndexService.Apply.has_newer lixun.IndexService.Apply.is_stale
    lixun.IndexService.Apply.forget_subtree lixun.IndexService.Apply.add_tombstone
    lixun.IndexService.Apply.collect_subtree_ids lixun.IndexService.Apply.write_body
    lixun.IndexService.Apply.apply_upsert_body lixun.IndexService.Apply.apply_upsert
    lixun.IndexService.Apply.apply_upserts lixun.IndexService.Apply.apply_delete
    lixun.IndexService.Apply.apply_deletes lixun.IndexService.Apply.apply_delete_subtree
    lixun.IndexService.Apply.apply_delete_source_instance lixun.IndexService.Apply.note_body
    lixun.IndexService.Apply.handle_upsert_body lixun.IndexService.Apply.apply_mutation
    lixun.IndexService.Commit.reply_all lixun.IndexService.Commit.do_commit
    lixun.IndexService.Commit.flush_post_commit lixun.IndexService.Commit.commit_and_flush
    lixun.IndexService.Commit.on_tick lixun.IndexService.Events.start
    lixun.IndexService.Events.on_barrier lixun.IndexService.Events.step
    lixun.IndexService.Events.run lixun.IndexService.Events.drain_one
    lixun.IndexService.Events.drain_all lixun.IndexService.Events.commit_last
    lixun.IndexService.Events.finish lixun.IndexService.Events.writer_loop
    lixun.IndexService.Cache.key_eq lixun.IndexService.Cache.get_cached
    lixun.IndexService.Cache.insert_cached lixun.IndexService.Cache.put_cached
    lixun.IndexService.Cache.search_with_breakdown
run-IsAcked_example =
    run-IsAcked cfg (memory_laws true true) (memory-IsReliable true true) (refl, λ s a e. refl)
      (refl, tt) ((0, received (upsert_one (doc_at (codes "a") 9))) ∷ []) 1
      (received (commit_now 3)) idle (refl, tt) tt (inr refl)

writer_loop-replies_example :
    count 1 (receivers (writer_loop cfg new_index 0 events 4000 (barrier 1 ∷ [])).replies) ≡ 2
unfolding memory_laws lixun.Common.any lixun.Common.retain lixun.Common.Sort.sort
    lixun.Common.Sort.insert lixun.Common.Dict.get lixun.Common.Text.text_eq
    lixun.Common.Text.text_lt lixun.Common.Text.is_empty lixun.Common.Text.trim
    lixun.Common.Text.trim_start lixun.Common.Text.is_whitespace lixun.Document.as_str
    lixun.Index.has_live lixun.Index.live_terms lixun.Index.collect_ids lixun.Index.non_blank
    lixun.Index.upsert lixun.Index.delete_by_id lixun.Index.delete_by_source_instance
    lixun.Index.commit lixun.Index.reload lixun.Index.all_doc_ids lixun.Index.get_doc_by_id
    lixun.Index.get_body_by_id lixun.Index.Convert.unwrap_or_empty lixun.Index.Convert.fits
    lixun.Index.Convert.add_extras lixun.Index.Convert.action_text lixun.Index.Convert.to_tantivy
    lixun.Index.Convert.stored_optional_text lixun.Index.Convert.category_of
    lixun.Index.Convert.action_of lixun.Index.Convert.secondary_action_of
    lixun.Index.Convert.value_as lixun.Index.Convert.read_extras
    lixun.Index.Convert.doc_from_tantivy lixun.Index.Spec.remove_term lixun.Index.Spec.put_doc
    lixun.Index.Spec.find_doc lixun.Index.Spec.has_id lixun.IndexService.is_empty_batch
    lixun.IndexService.upserted_doc_from lixun.IndexService.strip_prefix
    lixun.IndexService.starts_with_slash lixun.IndexService.id_in_subtree
    lixun.IndexService.id_tombstoned lixun.IndexService.Apply.dedup_from
    lixun.IndexService.Apply.dedup lixun.IndexService.Apply.staged_ids
    lixun.IndexService.Apply.push_upsert lixun.IndexService.Apply.push_delete
    lixun.IndexService.Apply.has_newer lixun.IndexService.Apply.is_stale
    lixun.IndexService.Apply.forget_subtree lixun.IndexService.Apply.add_tombstone
    lixun.IndexService.Apply.collect_subtree_ids lixun.IndexService.Apply.write_body
    lixun.IndexService.Apply.apply_upsert_body lixun.IndexService.Apply.apply_upsert
    lixun.IndexService.Apply.apply_upserts lixun.IndexService.Apply.apply_delete
    lixun.IndexService.Apply.apply_deletes lixun.IndexService.Apply.apply_delete_subtree
    lixun.IndexService.Apply.apply_delete_source_instance lixun.IndexService.Apply.note_body
    lixun.IndexService.Apply.handle_upsert_body lixun.IndexService.Apply.apply_mutation
    lixun.IndexService.Commit.reply_all lixun.IndexService.Commit.do_commit
    lixun.IndexService.Commit.flush_post_commit lixun.IndexService.Commit.commit_and_flush
    lixun.IndexService.Commit.on_tick lixun.IndexService.Events.start
    lixun.IndexService.Events.on_barrier lixun.IndexService.Events.step
    lixun.IndexService.Events.run lixun.IndexService.Events.drain_one
    lixun.IndexService.Events.drain_all lixun.IndexService.Events.commit_last
    lixun.IndexService.Events.finish lixun.IndexService.Events.writer_loop
    lixun.IndexService.Cache.key_eq lixun.IndexService.Cache.get_cached
    lixun.IndexService.Cache.insert_cached lixun.IndexService.Cache.put_cached
    lixun.IndexService.Cache.search_with_breakdown
writer_loop-replies_example = writer_loop-replies cfg 1 new_index 0 4000 events (barrier 1 ∷ [])

abbrev dirty_nine : Writer Memory
dirty_nine = run failing ((0, received (upsert_one (doc_at (codes "a") 9))) ∷ []) idle

finish-failed_example :
    let w' = finish failing 5 dirty_nine in
    (w'.broadcasts ≡ dirty_nine.pending_batch ∷ [])
    × (w'.index.writer.live ≡ [])
    × (w'.replies ≡ [])
unfolding memory_laws lixun.Common.any lixun.Common.retain lixun.Common.Sort.sort
    lixun.Common.Sort.insert lixun.Common.Dict.get lixun.Common.Text.text_eq
    lixun.Common.Text.text_lt lixun.Common.Text.is_empty lixun.Common.Text.trim
    lixun.Common.Text.trim_start lixun.Common.Text.is_whitespace lixun.Document.as_str
    lixun.Index.has_live lixun.Index.live_terms lixun.Index.collect_ids lixun.Index.non_blank
    lixun.Index.upsert lixun.Index.delete_by_id lixun.Index.delete_by_source_instance
    lixun.Index.commit lixun.Index.reload lixun.Index.all_doc_ids lixun.Index.get_doc_by_id
    lixun.Index.get_body_by_id lixun.Index.Convert.unwrap_or_empty lixun.Index.Convert.fits
    lixun.Index.Convert.add_extras lixun.Index.Convert.action_text lixun.Index.Convert.to_tantivy
    lixun.Index.Convert.stored_optional_text lixun.Index.Convert.category_of
    lixun.Index.Convert.action_of lixun.Index.Convert.secondary_action_of
    lixun.Index.Convert.value_as lixun.Index.Convert.read_extras
    lixun.Index.Convert.doc_from_tantivy lixun.Index.Spec.remove_term lixun.Index.Spec.put_doc
    lixun.Index.Spec.find_doc lixun.Index.Spec.has_id lixun.IndexService.is_empty_batch
    lixun.IndexService.upserted_doc_from lixun.IndexService.strip_prefix
    lixun.IndexService.starts_with_slash lixun.IndexService.id_in_subtree
    lixun.IndexService.id_tombstoned lixun.IndexService.Apply.dedup_from
    lixun.IndexService.Apply.dedup lixun.IndexService.Apply.staged_ids
    lixun.IndexService.Apply.push_upsert lixun.IndexService.Apply.push_delete
    lixun.IndexService.Apply.has_newer lixun.IndexService.Apply.is_stale
    lixun.IndexService.Apply.forget_subtree lixun.IndexService.Apply.add_tombstone
    lixun.IndexService.Apply.collect_subtree_ids lixun.IndexService.Apply.write_body
    lixun.IndexService.Apply.apply_upsert_body lixun.IndexService.Apply.apply_upsert
    lixun.IndexService.Apply.apply_upserts lixun.IndexService.Apply.apply_delete
    lixun.IndexService.Apply.apply_deletes lixun.IndexService.Apply.apply_delete_subtree
    lixun.IndexService.Apply.apply_delete_source_instance lixun.IndexService.Apply.note_body
    lixun.IndexService.Apply.handle_upsert_body lixun.IndexService.Apply.apply_mutation
    lixun.IndexService.Commit.reply_all lixun.IndexService.Commit.do_commit
    lixun.IndexService.Commit.flush_post_commit lixun.IndexService.Commit.commit_and_flush
    lixun.IndexService.Commit.on_tick lixun.IndexService.Events.start
    lixun.IndexService.Events.on_barrier lixun.IndexService.Events.step
    lixun.IndexService.Events.run lixun.IndexService.Events.drain_one
    lixun.IndexService.Events.drain_all lixun.IndexService.Events.commit_last
    lixun.IndexService.Events.finish lixun.IndexService.Events.writer_loop
    lixun.IndexService.Cache.key_eq lixun.IndexService.Cache.get_cached
    lixun.IndexService.Cache.insert_cached lixun.IndexService.Cache.put_cached
    lixun.IndexService.Cache.search_with_breakdown
finish-failed_example = finish-failed failing (memory_laws false true) 5 dirty_nine refl refl refl

apply_upsert-failed_example :
    (ix : LixunIndex Memory) × (apply_upsert cfg false (odd_doc (codes "a") 10) with_nine
      ≡ record with_nine { index = ix })
    × (ix.writer.staged ≡ [])
unfolding memory_laws lixun.Common.any lixun.Common.retain lixun.Common.Sort.sort
    lixun.Common.Sort.insert lixun.Common.Dict.get lixun.Common.Text.text_eq
    lixun.Common.Text.text_lt lixun.Common.Text.is_empty lixun.Common.Text.trim
    lixun.Common.Text.trim_start lixun.Common.Text.is_whitespace lixun.Document.as_str
    lixun.Index.has_live lixun.Index.live_terms lixun.Index.collect_ids lixun.Index.non_blank
    lixun.Index.upsert lixun.Index.delete_by_id lixun.Index.delete_by_source_instance
    lixun.Index.commit lixun.Index.reload lixun.Index.all_doc_ids lixun.Index.get_doc_by_id
    lixun.Index.get_body_by_id lixun.Index.Convert.unwrap_or_empty lixun.Index.Convert.fits
    lixun.Index.Convert.add_extras lixun.Index.Convert.action_text lixun.Index.Convert.to_tantivy
    lixun.Index.Convert.stored_optional_text lixun.Index.Convert.category_of
    lixun.Index.Convert.action_of lixun.Index.Convert.secondary_action_of
    lixun.Index.Convert.value_as lixun.Index.Convert.read_extras
    lixun.Index.Convert.doc_from_tantivy lixun.Index.Spec.remove_term lixun.Index.Spec.put_doc
    lixun.Index.Spec.find_doc lixun.Index.Spec.has_id lixun.IndexService.is_empty_batch
    lixun.IndexService.upserted_doc_from lixun.IndexService.strip_prefix
    lixun.IndexService.starts_with_slash lixun.IndexService.id_in_subtree
    lixun.IndexService.id_tombstoned lixun.IndexService.Apply.dedup_from
    lixun.IndexService.Apply.dedup lixun.IndexService.Apply.staged_ids
    lixun.IndexService.Apply.push_upsert lixun.IndexService.Apply.push_delete
    lixun.IndexService.Apply.has_newer lixun.IndexService.Apply.is_stale
    lixun.IndexService.Apply.forget_subtree lixun.IndexService.Apply.add_tombstone
    lixun.IndexService.Apply.collect_subtree_ids lixun.IndexService.Apply.write_body
    lixun.IndexService.Apply.apply_upsert_body lixun.IndexService.Apply.apply_upsert
    lixun.IndexService.Apply.apply_upserts lixun.IndexService.Apply.apply_delete
    lixun.IndexService.Apply.apply_deletes lixun.IndexService.Apply.apply_delete_subtree
    lixun.IndexService.Apply.apply_delete_source_instance lixun.IndexService.Apply.note_body
    lixun.IndexService.Apply.handle_upsert_body lixun.IndexService.Apply.apply_mutation
    lixun.IndexService.Commit.reply_all lixun.IndexService.Commit.do_commit
    lixun.IndexService.Commit.flush_post_commit lixun.IndexService.Commit.commit_and_flush
    lixun.IndexService.Commit.on_tick lixun.IndexService.Events.start
    lixun.IndexService.Events.on_barrier lixun.IndexService.Events.step
    lixun.IndexService.Events.run lixun.IndexService.Events.drain_one
    lixun.IndexService.Events.drain_all lixun.IndexService.Events.commit_last
    lixun.IndexService.Events.finish lixun.IndexService.Events.writer_loop
    lixun.IndexService.Cache.key_eq lixun.IndexService.Cache.get_cached
    lixun.IndexService.Cache.insert_cached lixun.IndexService.Cache.put_cached
    lixun.IndexService.Cache.search_with_breakdown
apply_upsert-failed_example =
    apply_upsert-failed cfg (memory_laws true true) (odd_doc (codes "a") 10) with_nine refl refl
