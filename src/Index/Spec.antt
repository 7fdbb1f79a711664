-- ===== src/Index/Spec.antt =====
-- What the code relies on of Tantivy, told by three views of its state: the documents that a commit
-- would write (`staged`), those that the last commit wrote (`committed`), and those that the reader
-- sees (`live`). And the index as a plain list of documents.
use lixun.Common.{
  Bool, true, false, not, ◌&&◌, Option, none, some, List, [], ◌∷◌, ◌++◌, ◌≡◌, ◌≢◌, if◌then◌else◌,
  retain, any,
}
use lixun.Common.Text.{Text, text_eq}
use lixun.Index.{Term, id_term, source_instance_term, Tantivy}
use lixun.Index.Convert.{TantivyDocument}

abbrev pub Docs : Type 0
Docs = List TantivyDocument

abbrev pub matches : Term → TantivyDocument → Bool
matches (id_term k) d = text_eq k d.id
matches (source_instance_term k) d = text_eq k d.source_instance

unfoldable pub remove_term : Term → Docs → Docs
remove_term t ds = retain (λ (d : TantivyDocument). not (matches t d)) ds

-- An upsert: the document in place of any of its id.
unfoldable pub put_doc : TantivyDocument → Docs → Docs
put_doc d ds = remove_term (id_term d.id) ds ++ (d ∷ [])

unfoldable pub find_doc : Text → Docs → Option TantivyDocument
find_doc k [] = none
find_doc k (d ∷ ds) = if text_eq k d.id then some d else find_doc k ds

unfoldable pub has_id : Text → Docs → Bool
has_id k ds = any (λ (d : TantivyDocument). text_eq k d.id) ds

-- No id stands twice.
abbrev pub HasDistinctIds : Docs → Type 0
HasDistinctIds [] = Unit
HasDistinctIds (d ∷ ds) = (has_id d.id ds ≡ false) × HasDistinctIds ds

-- Whether some segment has the term with a posting that is alive.
abbrev pub is_alive : Text → List (List (Text × List Bool)) → Bool
is_alive k segments =
    any
      (λ (s : List (Text × List Bool)).
        any (λ (t : Text × List Bool). text_eq k t.0 && any (λ b. b) t.1) s)
      segments

pub record IsTantivy {W : Type 0} (tv : Tantivy W) : Type 0 where
  pub staged : W → Docs
  pub committed : W → Docs
  pub live : W → Docs
  pub staged_delete : (t : Term) (w : W) → staged (tv.delete_term t w) ≡ remove_term t (staged w)
  pub committed_delete : (t : Term) (w : W) → committed (tv.delete_term t w) ≡ committed w
  pub live_delete : (t : Term) (w : W) → live (tv.delete_term t w) ≡ live w
  pub staged_add :
      (d : TantivyDocument) (w : W)
      → staged (tv.add_document d w).1
        ≡ (if (tv.add_document d w).0 then staged w ++ (d ∷ []) else staged w)
  pub committed_add :
      (d : TantivyDocument) (w : W) → committed (tv.add_document d w).1 ≡ committed w
  pub live_add : (d : TantivyDocument) (w : W) → live (tv.add_document d w).1 ≡ live w
  -- A commit that fails loses nothing that was staged, so that it can be tried again.
  pub staged_commit : (w : W) → staged (tv.commit w).1 ≡ staged w
  pub committed_commit : (w : W) → (tv.commit w).0 ≡ true → committed (tv.commit w).1 ≡ staged w
  pub live_commit : (w : W) → live (tv.commit w).1 ≡ live w
  pub staged_reload : (w : W) → staged (tv.reload w).1 ≡ staged w
  pub live_reload :
      (w : W) → live (tv.reload w).1 ≡ (if (tv.reload w).0 then committed w else live w)
  -- The term dictionary of the reader, and its query for an id that is unique.
  pub ids_live :
      (w : W) (segments : List (List (Text × List Bool))) (k : Text)
      → tv.id_terms w ≡ some segments
      → is_alive k segments ≡ has_id k (live w)
  pub search_live :
      (w : W) (k : Text) (r : Option TantivyDocument)
      → HasDistinctIds (live w)
      → tv.search_id k w ≡ some r
      → r ≡ find_doc k (live w)

-- Reads and additions that do not fail. Commits and reloads may.
pub record IsReliable {W : Type 0} (tv : Tantivy W) : Type 0 where
  pub add_ok : (d : TantivyDocument) (w : W) → (tv.add_document d w).0 ≡ true
  pub ids_ok : (w : W) → tv.id_terms w ≢ none
  pub search_ok : (k : Text) (w : W) → tv.search_id k w ≢ none
