-- ===== src/Index.antt =====
-- crates/lixun-index/src/lib.rs: the wrapper of the Tantivy index. Tantivy is a parameter (`Tantivy`):
-- its writer and its reader together are a state `W` that the calls pass on. The fields that are only
-- searched (`title_exact`, `title_terms`, `title_initials`) are left out of a stored document.
pub mod Convert
pub mod Laws
pub mod Spec
pub mod Memory
mod Tests
use lixun.Common.{
  ℕ, ◌+◌, ◌%◌, ◌^◌, Bool, true, false, not, Option, none, some, List, [], ◌∷◌, ◌++◌, ◌≡◌, ◌≢◌, ◌↔◌,
  if◌then◌else◌,
}
use lixun.Common.Text.{Text, text_eq, is_empty, trim}
use lixun.Common.Sort.{All}
use lixun.Common.Int.{ℤ}
use lixun.Document.{Document, Action, PluginValue, PluginFieldSpec}
use Convert.{ActionJson, TantivyDocument, PluginSchema, to_tantivy, doc_from_tantivy}

-- The terms by which the code deletes.
pub data Term : Type 0 where
  id_term : Text → Term
  source_instance_term : Text → Term

-- A call that may fail gives whether it succeeded, and the state in either case.
pub record Tantivy (W : Type 0) : Type 0 where
  pub delete_term : Term → W → W
  pub add_document : TantivyDocument → W → Bool × W
  pub commit : W → Bool × W
  pub reload : W → Bool × W
  -- For each segment of the reader, the terms of the `id` field, each with the aliveness of its
  -- postings.
  pub id_terms : W → Option (List (List (Text × List Bool)))
  -- A `TermQuery` on the `id` field, with a limit of one; `none` where the search fails.
  pub search_id : Text → W → Option (Option TantivyDocument)

-- `LixunIndex`, with what its constructor fixed.
pub record IndexConfig (W : Type 0) : Type 0 where
  pub tantivy : Tantivy W
  pub plugins : PluginSchema
  pub json : ActionJson

pub record LixunIndex (W : Type 0) : Type 0 where
  pub writer : W
  pub reload_epoch : ℕ  -- AtomicU64

unfoldable pub has_live : List Bool → Bool
has_live [] = false
has_live (b ∷ bs) = if b then true else has_live bs

unfoldable pub live_terms : List (Text × List Bool) → List Text
unfolding has_live
live_terms [] = []
live_terms ((t, bs) ∷ ts) = let rest = live_terms ts in if has_live bs then t ∷ rest else rest

-- As a list, in which an id of two segments stands twice.
unfoldable pub collect_ids : List (List (Text × List Bool)) → List Text
unfolding live_terms
collect_ids [] = []
collect_ids (s ∷ ss) = live_terms s ++ collect_ids ss

-- A body that is not blank.
unfoldable pub non_blank : Option Text → Option Text
non_blank none = none
non_blank (some s) = if is_empty (trim s) then none else some s

module _ {W : Type 0} (cfg : IndexConfig W) where
  open cfg use {tantivy, plugins, json}

  -- Whether it succeeded. The old document is deleted before anything can fail.
  unfoldable pub upsert : Document → LixunIndex W → Bool × LixunIndex W
  upsert d ix =
      let deleted = tantivy.delete_term (id_term d.id) ix.writer in
      elim (to_tantivy plugins json d) [
        | none ↦ (false, record ix { writer = deleted })
        | some t ↦ let (ok, w) = tantivy.add_document t deleted in (ok, record ix { writer = w })
      ]

  unfoldable pub delete_by_id : Text → LixunIndex W → LixunIndex W
  delete_by_id k ix = record ix { writer = tantivy.delete_term (id_term k) ix.writer }

  unfoldable pub delete_by_source_instance : Text → LixunIndex W → LixunIndex W
  delete_by_source_instance k ix = record ix {
    writer = tantivy.delete_term (source_instance_term k) ix.writer;
  }

  unfoldable pub commit : LixunIndex W → Bool × LixunIndex W
  commit ix = let (ok, w) = tantivy.commit ix.writer in (ok, record ix { writer = w })

  unfoldable pub reload : LixunIndex W → Bool × LixunIndex W
  reload ix =
      let (ok, w) = tantivy.reload ix.writer in
      if ok
      then (true, record { writer = w; reload_epoch = (ix.reload_epoch + 1) % 2 ^ 64 })
      else (false, record ix { writer = w })

  unfoldable pub all_doc_ids : LixunIndex W → Option (List Text)
  unfolding collect_ids
  all_doc_ids ix = elim (tantivy.id_terms ix.writer) [
    | none ↦ none
    | some segments ↦ some (collect_ids segments)
  ]

  unfoldable pub get_doc_by_id : Text → LixunIndex W → Option (Option Document)
  get_doc_by_id k ix = elim (tantivy.search_id k ix.writer) [
    | none ↦ none
    | some none ↦ some none
    | some (some t) ↦ some (some (doc_from_tantivy plugins json t))
  ]

  unfoldable pub get_body_by_id : Text → LixunIndex W → Option (Option Text)
  unfolding non_blank
  get_body_by_id k ix = elim (tantivy.search_id k ix.writer) [
    | none ↦ none
    | some none ↦ some none
    | some (some t) ↦ some (non_blank (if is_empty t.body then none else some t.body))
  ]
