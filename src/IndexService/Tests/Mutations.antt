-- ===== src/IndexService/Tests/Mutations.antt =====
-- What mutations do to the index in memory.
use lixun.Common.{
  arith, ℕ, ◌+◌, Bool, true, false, Option, none, some, List, [], ◌∷◌, ◌≡◌, ◌⊎◌, refl, inl, inr,
  if◌then◌else◌,
}
use lixun.Common.Text.{Text, codes, text_eq}
use lixun.Common.Int.{pos}
use lixun.Common.Sort.{All}
use lixun.Document
use lixun.Index.{IndexConfig, LixunIndex, id_term, upsert, commit, reload}
use lixun.Index.Convert.{TantivyDocument}
use lixun.Index.Spec.{Docs, has_id, remove_term, find_doc}
use lixun.Index.Memory.{memory_laws, memory-IsReliable, doc_at}
use lixun.IndexService.{
  Mutation, upsert_one, delete_one, upsert_many, delete_many, delete_subtree,
  delete_source_instance, upsert_body, barrier, applied, shutdown, commit_now, Writer,
  id_in_subtree, strip_prefix, starts_with_slash, default_batch,
}
use lixun.IndexService.Apply.{apply_delete, apply_upsert, handle_upsert_body}
use lixun.IndexService.Commit.{do_commit, commit_and_flush, reply_all}
use lixun.IndexService.Events.{Event, received, tick, start, step, run, finish, writer_loop}
use lixun.IndexService.Refines.{view}
use lixun.IndexService.Runs.{Run, run-Run}
use lixun.IndexService.Deletion.{IsGone, run-delete_subtree}
use lixun.IndexService.Bodies.{handle_upsert_body-newer, handle_upsert_body-apply_delete}
use lixun.IndexService.Cache.{Key, ResultCache, IsFresh, search_with_breakdown, reload-IsFresh}
use lixun.IndexService.Tests.{cfg, idle, events, ran, with_nine, committed_nine}

run-Run_example :
    Run cfg events (view cfg (memory_laws true true) idle) (view cfg (memory_laws true true) ran)
unfolding memory_laws lixun.Common.any lixun.Common.retain lixun.Common.Sort.sort
    lixun.Common.Sort.insert lixun.Common.Dict.get lixun.Common.Text.text_eq
    lixun.Common.Text.text_lt lixun.Common.Text.is_empty lixun.Common.Text.trim
    lixun.Common.Text.trim_start lixun.Common.Text.is_whitespace lixun.Document.as_str
    lixun.Index.has_live lixun.Index.live_terms lixun.Index.collect_ids lixun.Index.non_blank
    lixun.Index.upsert lixun.Index.delete_by_id lixun.Index.delete_by_source_instance
    lixun.Index.commit lixun.Index.reload lixun.Index.all_doc_ids lixun.Index.get_doc_by_id
    lixun.Index.get_body_by_id lixun.Index.Convert.unwrap_or_empty lixun.Index.Convert.fits
    lixun.Index.Convert.add_extras lixun.Index.Convert.action_text lixun.Index.Convert.to_tantivy
    lixun.Index.Convert.stored_optional_text lixun.Index.Convert.category_of
    lixun.Index.Convert.action_of lixun.Index.Convert.secondary_action_of
    lixun.Index.Convert.value_as lixun.Index.Convert.read_extras
    lixun.Index.Convert.doc_from_tantivy lixun.Index.Spec.remove_term lixun.Index.Spec.put_doc
    lixun.Index.Spec.find_doc lixun.Index.Spec.has_id lixun.IndexService.is_empty_batch
    lixun.IndexService.upserted_doc_from lixun.IndexService.strip_prefix
    lixun.IndexService.starts_with_slash lixun.IndexService.id_in_subtree
    lixun.IndexService.id_tombstoned lixun.IndexService.Apply.dedup_from
    lixun.IndexService.Apply.dedup lixun.IndexService.Apply.staged_ids
    lixun.IndexService.Apply.push_upsert lixun.IndexService.Apply.push_delete
    lixun.IndexService.Apply.has_newer lixun.IndexService.Apply.is_stale
    lixun.IndexService.Apply.forget_subtree lixun.IndexService.Apply.add_tombstone
    lixun.IndexService.Apply.collect_subtree_ids lixun.IndexService.Apply.write_body
    lixun.IndexService.Apply.apply_upsert_body lixun.IndexService.Apply.apply_upsert
    lixun.IndexService.Apply.apply_upserts lixun.IndexService.Apply.apply_delete
    lixun.IndexService.Apply.apply_deletes lixun.IndexService.Apply.apply_delete_subtree
    lixun.IndexService.Apply.apply_delete_source_instance lixun.IndexService.Apply.note_body
    lixun.IndexService.Apply.handle_upsert_body lixun.IndexService.Apply.apply_mutation
    lixun.IndexService.Commit.reply_all lixun.IndexService.Commit.do_commit
    lixun.IndexService.Commit.flush_post_commit lixun.IndexService.Commit.commit_and_flush
    lixun.IndexService.Commit.on_tick lixun.IndexService.Events.start
    lixun.IndexService.Events.on_barrier lixun.IndexService.Events.step
    lixun.IndexService.Events.run lixun.IndexService.Events.drain_one
    lixun.IndexService.Events.drain_all lixun.IndexService.Events.commit_last
    lixun.IndexService.Events.finish lixun.IndexService.Events.writer_loop
    lixun.IndexService.Cache.key_eq lixun.IndexService.Cache.get_cached
    lixun.IndexService.Cache.insert_cached lixun.IndexService.Cache.put_cached
    lixun.IndexService.Cache.search_with_breakdown
run-Run_example =
    run-Run cfg (memory_laws true true) (memory-IsReliable true true) events idle
      (record { covered = tt; distinct = tt; distinct_visible = tt })

abbrev behind : List (ℕ × Event)
behind = (15, received (upsert_one (doc_at (codes "d/b") 6))) ∷ (16, tick) ∷ []

run-delete_subtree_example :
    let w' = run cfg ((10, received (delete_subtree (codes "d"))) ∷ behind) idle in
    let w'' = step cfg 20 (received (commit_now 3)) w' in
    let (ok, done) = do_commit cfg 20 w' in
    ((w''.generation ≡ w'.generation) ⊎ IsGone (codes "d") w''.index.writer.live)
    × ((ok ≡ false) ⊎ IsGone (codes "d") done.index.writer.live)
unfolding memory_laws lixun.Common.any lixun.Common.retain lixun.Common.Sort.sort
    lixun.Common.Sort.insert lixun.Common.Dict.get lixun.Common.Text.text_eq
    lixun.Common.Text.text_lt lixun.Common.Text.is_empty lixun.Common.Text.trim
    lixun.Common.Text.trim_start lixun.Common.Text.is_whitespace lixun.Document.as_str
    lixun.Index.has_live lixun.Index.live_terms lixun.Index.collect_ids lixun.Index.non_blank
    lixun.Index.upsert lixun.Index.delete_by_id lixun.Index.delete_by_source_instance
    lixun.Index.commit lixun.Index.reload lixun.Index.all_doc_ids lixun.Index.get_doc_by_id
    lixun.Index.get_body_by_id lixun.Index.Convert.unwrap_or_empty lixun.Index.Convert.fits
    lixun.Index.Convert.add_extras lixun.Index.Convert.action_text lixun.Index.Convert.to_tantivy
    lixun.Index.Convert.stored_optional_text lixun.Index.Convert.category_of
    lixun.Index.Convert.action_of lixun.Index.Convert.secondary_action_of
    lixun.Index.Convert.value_as lixun.Index.Convert.read_extras
    lixun.Index.Convert.doc_from_tantivy lixun.Index.Spec.remove_term lixun.Index.Spec.put_doc
    lixun.Index.Spec.find_doc lixun.Index.Spec.has_id lixun.IndexService.is_empty_batch
    lixun.IndexService.upserted_doc_from lixun.IndexService.strip_prefix
    lixun.IndexService.starts_with_slash lixun.IndexService.id_in_subtree
    lixun.IndexService.id_tombstoned lixun.IndexService.Apply.dedup_from
    lixun.IndexService.Apply.dedup lixun.IndexService.Apply.staged_ids
    lixun.IndexService.Apply.push_upsert lixun.IndexService.Apply.push_delete
    lixun.IndexService.Apply.has_newer lixun.IndexService.Apply.is_stale
    lixun.IndexService.Apply.forget_subtree lixun.IndexService.Apply.add_tombstone
    lixun.IndexService.Apply.collect_subtree_ids lixun.IndexService.Apply.write_body
    lixun.IndexService.Apply.apply_upsert_body lixun.IndexService.Apply.apply_upsert
    lixun.IndexService.Apply.apply_upserts lixun.IndexService.Apply.apply_delete
    lixun.IndexService.Apply.apply_deletes lixun.IndexService.Apply.apply_delete_subtree
    lixun.IndexService.Apply.apply_delete_source_instance lixun.IndexService.Apply.note_body
    lixun.IndexService.Apply.handle_upsert_body lixun.IndexService.Apply.apply_mutation
    lixun.IndexService.Commit.reply_all lixun.IndexService.Commit.do_commit
    lixun.IndexService.Commit.flush_post_commit lixun.IndexService.Commit.commit_and_flush
    lixun.IndexService.Commit.on_tick lixun.IndexService.Events.start
    lixun.IndexService.Events.on_barrier lixun.IndexService.Events.step
    lixun.IndexService.Events.run lixun.IndexService.Events.drain_one
    lixun.IndexService.Events.drain_all lixun.IndexService.Events.commit_last
    lixun.IndexService.Events.finish lixun.IndexService.Events.writer_loop
    lixun.IndexService.Cache.key_eq lixun.IndexService.Cache.get_cached
    lixun.IndexService.Cache.insert_cached lixun.IndexService.Cache.put_cached
    lixun.IndexService.Cache.search_with_breakdown
run-delete_subtree_example =
    run-delete_subtree cfg (memory_laws true true) (memory-IsReliable true true) (codes "d") 10 20
      behind (received (commit_now 3)) idle
      (record { covered = tt; distinct = tt; distinct_visible = tt }) tt (refl, (refl, tt)) tt

abbrev doc_nine : TantivyDocument
doc_nine = record {
  id = codes "a";
  category = codes "mail";
  title = codes "t";
  subtitle = [];
  icon_name = [];
  kind_label = [];
  body = [];
  path = codes "p";
  mtime = pos 9;
  size = 1;
  action = codes "{}";
  secondary_action = [];
  extract_fail = false;
  sender = codes "s";
  recipients = [];
  source_instance = codes "fs";
  mime = codes "image/png";
  extras = (codes "mail_folder", Document.text (codes "Inbox")) ∷ [];
}

handle_upsert_body-newer_example :
    view cfg
      (memory_laws true true)
      (handle_upsert_body cfg (codes "a") (codes "ocr") (some (pos 5)) with_nine)
    ≡ view cfg (memory_laws true true) with_nine
unfolding memory_laws lixun.Common.any lixun.Common.retain lixun.Common.Sort.sort
    lixun.Common.Sort.insert lixun.Common.Dict.get lixun.Common.Text.text_eq
    lixun.Common.Text.text_lt lixun.Common.Text.is_empty lixun.Common.Text.trim
    lixun.Common.Text.trim_start lixun.Common.Text.is_whitespace lixun.Document.as_str
    lixun.Index.has_live lixun.Index.live_terms lixun.Index.collect_ids lixun.Index.non_blank
    lixun.Index.upsert lixun.Index.delete_by_id lixun.Index.delete_by_source_instance
    lixun.Index.commit lixun.Index.reload lixun.Index.all_doc_ids lixun.Index.get_doc_by_id
    lixun.Index.get_body_by_id lixun.Index.Convert.unwrap_or_empty lixun.Index.Convert.fits
    lixun.Index.Convert.add_extras lixun.Index.Convert.action_text lixun.Index.Convert.to_tantivy
    lixun.Index.Convert.stored_optional_text lixun.Index.Convert.category_of
    lixun.Index.Convert.action_of lixun.Index.Convert.secondary_action_of
    lixun.Index.Convert.value_as lixun.Index.Convert.read_extras
    lixun.Index.Convert.doc_from_tantivy lixun.Index.Spec.remove_term lixun.Index.Spec.put_doc
    lixun.Index.Spec.find_doc lixun.Index.Spec.has_id lixun.IndexService.is_empty_batch
    lixun.IndexService.upserted_doc_from lixun.IndexService.strip_prefix
    lixun.IndexService.starts_with_slash lixun.IndexService.id_in_subtree
    lixun.IndexService.id_tombstoned lixun.IndexService.Apply.dedup_from
    lixun.IndexService.Apply.dedup lixun.IndexService.Apply.staged_ids
    lixun.IndexService.Apply.push_upsert lixun.IndexService.Apply.push_delete
    lixun.IndexService.Apply.has_newer lixun.IndexService.Apply.is_stale
    lixun.IndexService.Apply.forget_subtree lixun.IndexService.Apply.add_tombstone
    lixun.IndexService.Apply.collect_subtree_ids lixun.IndexService.Apply.write_body
    lixun.IndexService.Apply.apply_upsert_body lixun.IndexService.Apply.apply_upsert
    lixun.IndexService.Apply.apply_upserts lixun.IndexService.Apply.apply_delete
    lixun.IndexService.Apply.apply_deletes lixun.IndexService.Apply.apply_delete_subtree
    lixun.IndexService.Apply.apply_delete_source_instance lixun.IndexService.Apply.note_body
    lixun.IndexService.Apply.handle_upsert_body lixun.IndexService.Apply.apply_mutation
    lixun.IndexService.Commit.reply_all lixun.IndexService.Commit.do_commit
    lixun.IndexService.Commit.flush_post_commit lixun.IndexService.Commit.commit_and_flush
    lixun.IndexService.Commit.on_tick lixun.IndexService.Events.start
    lixun.IndexService.Events.on_barrier lixun.IndexService.Events.step
    lixun.IndexService.Events.run lixun.IndexService.Events.drain_one
    lixun.IndexService.Events.drain_all lixun.IndexService.Events.commit_last
    lixun.IndexService.Events.finish lixun.IndexService.Events.writer_loop
    lixun.IndexService.Cache.key_eq lixun.IndexService.Cache.get_cached
    lixun.IndexService.Cache.insert_cached lixun.IndexService.Cache.put_cached
    lixun.IndexService.Cache.search_with_breakdown
handle_upsert_body-newer_example =
    handle_upsert_body-newer cfg (memory_laws true true) (memory-IsReliable true true) (codes "a")
      (codes "ocr") (pos 5) with_nine doc_nine
      (record { covered = (refl, tt); distinct = (refl, tt); distinct_visible = tt }) (inr refl, tt)
      refl refl

handle_upsert_body-apply_delete_example :
    let deleted = apply_delete cfg (codes "a") committed_nine in
    (has_id (codes "a") deleted.index.writer.staged ≡ false)
    × (has_id
          (codes "a")
          (handle_upsert_body cfg
            (codes "a")
            (codes "ocr")
            (some (pos 9))
            deleted).index.writer.staged
        ≡ true)
unfolding memory_laws lixun.Common.any lixun.Common.retain lixun.Common.Sort.sort
    lixun.Common.Sort.insert lixun.Common.Dict.get lixun.Common.Text.text_eq
    lixun.Common.Text.text_lt lixun.Common.Text.is_empty lixun.Common.Text.trim
    lixun.Common.Text.trim_start lixun.Common.Text.is_whitespace lixun.Document.as_str
    lixun.Index.has_live lixun.Index.live_terms lixun.Index.collect_ids lixun.Index.non_blank
    lixun.Index.upsert lixun.Index.delete_by_id lixun.Index.delete_by_source_instance
    lixun.Index.commit lixun.Index.reload lixun.Index.all_doc_ids lixun.Index.get_doc_by_id
    lixun.Index.get_body_by_id lixun.Index.Convert.unwrap_or_empty lixun.Index.Convert.fits
    lixun.Index.Convert.add_extras lixun.Index.Convert.action_text lixun.Index.Convert.to_tantivy
    lixun.Index.Convert.stored_optional_text lixun.Index.Convert.category_of
    lixun.Index.Convert.action_of lixun.Index.Convert.secondary_action_of
    lixun.Index.Convert.value_as lixun.Index.Convert.read_extras
    lixun.Index.Convert.doc_from_tantivy lixun.Index.Spec.remove_term lixun.Index.Spec.put_doc
    lixun.Index.Spec.find_doc lixun.Index.Spec.has_id lixun.IndexService.is_empty_batch
    lixun.IndexService.upserted_doc_from lixun.IndexService.strip_prefix
    lixun.IndexService.starts_with_slash lixun.IndexService.id_in_subtree
    lixun.IndexService.id_tombstoned lixun.IndexService.Apply.dedup_from
    lixun.IndexService.Apply.dedup lixun.IndexService.Apply.staged_ids
    lixun.IndexService.Apply.push_upsert lixun.IndexService.Apply.push_delete
    lixun.IndexService.Apply.has_newer lixun.IndexService.Apply.is_stale
    lixun.IndexService.Apply.forget_subtree lixun.IndexService.Apply.add_tombstone
    lixun.IndexService.Apply.collect_subtree_ids lixun.IndexService.Apply.write_body
    lixun.IndexService.Apply.apply_upsert_body lixun.IndexService.Apply.apply_upsert
    lixun.IndexService.Apply.apply_upserts lixun.IndexService.Apply.apply_delete
    lixun.IndexService.Apply.apply_deletes lixun.IndexService.Apply.apply_delete_subtree
    lixun.IndexService.Apply.apply_delete_source_instance lixun.IndexService.Apply.note_body
    lixun.IndexService.Apply.handle_upsert_body lixun.IndexService.Apply.apply_mutation
    lixun.IndexService.Commit.reply_all lixun.IndexService.Commit.do_commit
    lixun.IndexService.Commit.flush_post_commit lixun.IndexService.Commit.commit_and_flush
    lixun.IndexService.Commit.on_tick lixun.IndexService.Events.start
    lixun.IndexService.Events.on_barrier lixun.IndexService.Events.step
    lixun.IndexService.Events.run lixun.IndexService.Events.drain_one
    lixun.IndexService.Events.drain_all lixun.IndexService.Events.commit_last
    lixun.IndexService.Events.finish lixun.IndexService.Events.writer_loop
    lixun.IndexService.Cache.key_eq lixun.IndexService.Cache.get_cached
    lixun.IndexService.Cache.insert_cached lixun.IndexService.Cache.put_cached
    lixun.IndexService.Cache.search_with_breakdown
handle_upsert_body-apply_delete_example =
    handle_upsert_body-apply_delete cfg (memory_laws true true) (memory-IsReliable true true)
      (codes "a") (codes "ocr") (pos 9) committed_nine doc_nine
      (record doc_nine { body = codes "ocr"; mime = [] })
      (record { covered = (refl, tt); distinct = (refl, tt); distinct_visible = (refl, tt) }) refl
      refl refl refl
