-- ===== src/Index/Memory.antt =====
-- A Tantivy in memory, for the tests: its segments are one list of documents, and whether a commit or a
-- reload succeeds is a parameter.
use lixun.Common.{
  ℕ, Bool, true, false, none, some, List, [], ◌∷◌, ◌++◌, ◌≡◌, refl, if◌then◌else◌, arith, any,
}
use lixun.Common.Text.{Text, codes, text_eq}
use lixun.Common.Int.{pos}
use lixun.Document.{Document, open_file, mail, keyword_field}
use lixun.Document
use lixun.Index.{Tantivy, IndexConfig, LixunIndex}
use lixun.Index.Convert.{PluginSchema, ActionJson}
use lixun.Index.Spec.{Docs, remove_term, find_doc, has_id, is_alive, IsTantivy, IsReliable}

pub record Memory : Type 0 where
  pub staged : Docs
  pub committed : Docs
  pub live : Docs

abbrev pub no_docs : Memory
no_docs = record { staged = []; committed = []; live = [] }

-- One segment, with a posting for each document.
abbrev pub terms_of : Docs → List (Text × List Bool)
terms_of [] = []
terms_of (d ∷ ds) = (d.id, true ∷ []) ∷ terms_of ds

-- `commits` and `reloads`: whether these succeed.
abbrev pub memory : Bool → Bool → Tantivy Memory
memory commits reloads = record {
  delete_term = λ t m. record m { staged = remove_term t m.staged };
  add_document = λ d m. (true, record m { staged = m.staged ++ (d ∷ []) });
  commit = λ m. (commits, if commits then record m { committed = m.staged } else m);
  reload = λ m. (reloads, if reloads then record m { live = m.committed } else m);
  id_terms = λ m. some (terms_of m.live ∷ []);
  search_id = λ k m. some (find_doc k m.live);
}

pub terms_of-has_id : (k : Text) (ds : Docs) → is_alive k (terms_of ds ∷ []) ≡ has_id k ds
unfolding has_id any
terms_of-has_id k [] = refl
terms_of-has_id k (d ∷ ds) = ground (arith, terms_of-has_id k ds)

unfoldable pub memory_laws : (commits reloads : Bool) → IsTantivy (memory commits reloads)
memory_laws commits reloads = record {
  staged = λ m. m.staged;
  committed = λ m. m.committed;
  live = λ m. m.live;
  staged_delete = λ t w. refl;
  committed_delete = λ t w. refl;
  live_delete = λ t w. refl;
  staged_add = λ d w. refl;
  committed_add = λ d w. refl;
  live_add = λ d w. refl;
  staged_commit = λ w. ground arith;
  committed_commit = λ w h. ground arith;
  live_commit = λ w. ground arith;
  staged_reload = λ w. ground arith;
  live_reload = λ w. ground arith;
  ids_live = λ w segments k h. ground (arith, terms_of-has_id k w.live);
  search_live = λ w k r h e. ground arith;
}

pub memory-IsReliable : (commits reloads : Bool) → IsReliable (memory commits reloads)
memory-IsReliable commits reloads = record {
  add_ok = λ d w. refl;
  ids_ok = λ w. λ e. cc;
  search_ok = λ k w. λ e. cc;
}

-- One plugin field, and a codec that knows the action that opens "x".
abbrev pub folder_field : PluginSchema
folder_field =
    (
      codes "mail_folder",
      record {
        schema_name = codes "mail_folder";
        query_alias = some (codes "folder");
        ty = keyword_field;
        stored = true;
        default_search = false;
      },
    )
    ∷ []

-- Every action is written as the text of one.
abbrev one_action : ActionJson
one_action = record {
  to_string = λ a. some (codes "{}");
  from_str = λ s. if text_eq s (codes "{}") then some (open_file (codes "x")) else none;
}

abbrev pub in_memory : Bool → Bool → IndexConfig Memory
in_memory commits reloads = record {
  tantivy = memory commits reloads;
  plugins = folder_field;
  json = one_action;
}

abbrev pub new_index : LixunIndex Memory
new_index = record { writer = no_docs; reload_epoch = 0 }

-- A document with an id and a time.
abbrev pub doc_at : Text → ℕ → Document
doc_at id mtime = record {
  id = id;
  category = mail;
  title = codes "t";
  subtitle = [];
  icon_name = none;
  kind_label = some [];
  body = none;
  path = codes "p";
  mtime = pos mtime;
  size = 1;
  action = open_file (codes "x");
  extract_fail = false;
  sender = some (codes "s");
  recipients = none;
  source_instance = codes "fs";
  extra = record { field = codes "mail_folder"; value = Document.text (codes "Inbox") } ∷ [];
  secondary_action = none;
  mime = some (codes "image/png");
}

-- It carries an extra field that no plugin registered.
abbrev pub odd_doc : Text → ℕ → Document
odd_doc id mtime = record (doc_at id mtime) {
  extra = record { field = codes "other"; value = Document.bool true } ∷ [];
}
