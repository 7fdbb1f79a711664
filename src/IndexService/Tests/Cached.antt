-- ===== src/IndexService/Tests/Cached.antt =====
-- The result cache over an index that counts its documents.
use lixun.Common.{
  arith, ℕ, ◌+◌, Bool, true, false, Option, none, some, List, [], ◌∷◌, ◌≡◌, ◌⊎◌, refl, inr,
  if◌then◌else◌,
}
use lixun.Common.Text.{Text, codes, text_eq}
use lixun.Common.Int.{ℤ, pos}
use lixun.Common.Sort.{All}
use lixun.Document
use lixun.Index.{IndexConfig, LixunIndex, id_term, upsert, commit, reload}
use lixun.Index.Convert.{TantivyDocument}
use lixun.Index.Spec.{Docs, has_id, remove_term, find_doc}
use lixun.Index.Memory.{memory_laws, new_index}
use lixun.IndexService.{
  Mutation, upsert_one, delete_one, upsert_many, delete_many, delete_subtree,
  delete_source_instance, upsert_body, barrier, applied, shutdown, commit_now, Writer,
  id_in_subtree, strip_prefix, starts_with_slash, default_batch,
}
use lixun.IndexService.Apply.{apply_delete, apply_upsert, handle_upsert_body}
use lixun.IndexService.Commit.{do_commit, commit_and_flush, reply_all}
use lixun.IndexService.Events.{Event, received, tick, start, step, run, finish, writer_loop}
use lixun.IndexService.Cache.{
  Key, ResultCache, IsFresh, get_cached, search_with_breakdown, reload-IsFresh,
}
use lixun.IndexService.Tests.{cfg}

-- The index answers whether it has a document.
abbrev count_docs : Docs → ℤ → Text → ℕ → Option ℕ
count_docs [] now text limit = some 0
count_docs (d ∷ ds) now text limit = some 1

abbrev one_entry : ResultCache ℕ
one_entry = (record { text = codes "q"; limit = 5; epoch = 0 }, 0) ∷ []

reload-IsFresh_example :
    let ix' = (reload cfg new_index).1 in
    IsFresh cfg (memory_laws true true) count_docs ix' (pos 9) one_entry
    × ((true ≡ false)
        ⊎ ((text : Text) (limit : ℕ)
            → get_cached (record { text = text; limit = limit; epoch = ix'.reload_epoch }) one_entry
              ≡ none))
unfolding memory_laws lixun.Common.any lixun.Common.retain lixun.Common.Sort.sort
    lixun.Common.Sort.insert lixun.Common.Dict.get lixun.Common.Text.text_eq
    lixun.Common.Text.text_lt lixun.Common.Text.is_empty lixun.Common.Text.trim
    lixun.Common.Text.trim_start lixun.Common.Text.is_whitespace lixun.Document.as_str
    lixun.Index.has_live lixun.Index.live_terms lixun.Index.collect_ids lixun.Index.non_blank
    lixun.Index.upsert lixun.Index.delete_by_id lixun.Index.delete_by_source_instance
    lixun.Index.commit lixun.Index.reload lixun.Index.all_doc_ids lixun.Index.get_doc_by_id
    lixun.Index.get_body_by_id lixun.Index.Convert.unwrap_or_empty lixun.Index.Convert.fits
    lixun.Index.Convert.add_extras lixun.Index.Convert.action_text lixun.Index.Convert.to_tantivy
    lixun.Index.Convert.stored_optional_text lixun.Index.Convert.category_of
    lixun.Index.Convert.action_of lixun.Index.Convert.secondary_action_of
    lixun.Index.Convert.value_as lixun.Index.Convert.read_extras
    lixun.Index.Convert.doc_from_tantivy lixun.Index.Spec.remove_term lixun.Index.Spec.put_doc
    lixun.Index.Spec.find_doc lixun.Index.Spec.has_id lixun.IndexService.is_empty_batch
    lixun.IndexService.upserted_doc_from lixun.IndexService.strip_prefix
    lixun.IndexService.starts_with_slash lixun.IndexService.id_in_subtree
    lixun.IndexService.id_tombstoned lixun.IndexService.Apply.dedup_from
    lixun.IndexService.Apply.dedup lixun.IndexService.Apply.staged_ids
    lixun.IndexService.Apply.push_upsert lixun.IndexService.Apply.push_delete
    lixun.IndexService.Apply.has_newer lixun.IndexService.Apply.is_stale
    lixun.IndexService.Apply.forget_subtree lixun.IndexService.Apply.add_tombstone
    lixun.IndexService.Apply.collect_subtree_ids lixun.IndexService.Apply.write_body
    lixun.IndexService.Apply.apply_upsert_body lixun.IndexService.Apply.apply_upsert
    lixun.IndexService.Apply.apply_upserts lixun.IndexService.Apply.apply_delete
    lixun.IndexService.Apply.apply_deletes lixun.IndexService.Apply.apply_delete_subtree
    lixun.IndexService.Apply.apply_delete_source_instance lixun.IndexService.Apply.note_body
    lixun.IndexService.Apply.handle_upsert_body lixun.IndexService.Apply.apply_mutation
    lixun.IndexService.Commit.reply_all lixun.IndexService.Commit.do_commit
    lixun.IndexService.Commit.flush_post_commit lixun.IndexService.Commit.commit_and_flush
    lixun.IndexService.Commit.on_tick lixun.IndexService.Events.start
    lixun.IndexService.Events.on_barrier lixun.IndexService.Events.step
    lixun.IndexService.Events.run lixun.IndexService.Events.drain_one
    lixun.IndexService.Events.drain_all lixun.IndexService.Events.commit_last
    lixun.IndexService.Events.finish lixun.IndexService.Events.writer_loop
    lixun.IndexService.Cache.key_eq lixun.IndexService.Cache.get_cached
    lixun.IndexService.Cache.insert_cached lixun.IndexService.Cache.put_cached
    lixun.IndexService.Cache.search_with_breakdown
reload-IsFresh_example =
    reload-IsFresh cfg (memory_laws true true) count_docs new_index (pos 9) one_entry (omega arith)
      (inr (refl, (pos 5, omega arith, refl)), tt)
