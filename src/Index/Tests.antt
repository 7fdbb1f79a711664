-- ===== src/Index/Tests.antt =====
-- Runs of the index in memory, and the round trip of a document.
use lixun.Common.{Bool, true, false, Option, none, some, [], ◌∷◌, ◌≡◌, refl, get_or}
use lixun.Common.Text.{codes}
use lixun.Common.Int.{pos}
use lixun.Document
use lixun.Index.{
  LixunIndex, IndexConfig, upsert, commit, reload, all_doc_ids, get_body_by_id, non_blank,
}
use lixun.Index.Convert.{TantivyDocument, to_tantivy, doc_from_tantivy}
use lixun.Index.Laws.{doc_from_tantivy-to_tantivy}
use lixun.Index.Memory.{Memory, in_memory, new_index, doc_at, odd_doc, folder_field}

abbrev cfg : IndexConfig Memory
cfg = in_memory true true

abbrev stored : LixunIndex Memory
stored = (reload cfg (commit cfg (upsert cfg (doc_at (codes "a") 5) new_index).1).1).1

ids_after_commit : all_doc_ids cfg stored ≡ some (codes "a" ∷ [])
unfolding all_doc_ids reload commit upsert to_tantivy lixun.Common.Dict.get
    lixun.Common.Text.text_eq lixun.Index.Spec.remove_term lixun.Common.retain
ids_after_commit = refl

no_body : get_body_by_id cfg (codes "a") stored ≡ some none
unfolding get_body_by_id lixun.Index.Spec.find_doc reload commit upsert to_tantivy
    lixun.Common.Dict.get lixun.Common.Text.text_eq lixun.Index.Spec.remove_term lixun.Common.retain
    lixun.Common.Text.is_empty
no_body = refl

not_before_reload :
    all_doc_ids cfg (commit cfg (upsert cfg (doc_at (codes "a") 5) new_index).1).1 ≡ some []
unfolding all_doc_ids commit upsert to_tantivy lixun.Common.Dict.get lixun.Common.Text.text_eq
not_before_reload = refl

unregistered_fails : (upsert cfg (odd_doc (codes "a") 6) stored).0 ≡ false
unfolding upsert to_tantivy lixun.Common.Dict.get lixun.Common.Text.text_eq
unregistered_fails = refl

blank_body : non_blank (some (codes "  ")) ≡ none
unfolding non_blank lixun.Common.Text.is_empty lixun.Common.Text.trim
blank_body = refl

abbrev stored_doc : TantivyDocument
stored_doc = record {
  id = codes "a";
  category = codes "mail";
  title = codes "t";
  subtitle = [];
  icon_name = [];
  kind_label = [];
  body = [];
  path = codes "p";
  mtime = pos 5;
  size = 1;
  action = codes "{}";
  secondary_action = [];
  extract_fail = false;
  sender = codes "s";
  recipients = [];
  source_instance = codes "fs";
  mime = codes "image/png";
  extras = (codes "mail_folder", Document.text (codes "Inbox")) ∷ [];
}

doc_from_tantivy-to_tantivy_example :
    doc_from_tantivy folder_field cfg.json stored_doc
    ≡ record (doc_at (codes "a") 5) { kind_label = none; mime = none }
unfolding lixun.Common.Text.text_eq lixun.Common.Text.is_empty lixun.Common.Dict.get to_tantivy
    Document.as_str
doc_from_tantivy-to_tantivy_example =
    doc_from_tantivy-to_tantivy folder_field cfg.json (doc_at (codes "a") 5) stored_doc
      (codes "{}", refl, refl, refl) tt (refl, tt) refl
