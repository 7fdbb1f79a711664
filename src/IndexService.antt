-- ===== src/IndexService.antt =====
-- crates/lixun-indexer/src/index_service.rs and crates/lixun-mutation/src/lib.rs: the task that owns the
-- index writer. The channel's messages and the timer are events, taken one at a time; the senders of
-- replies are numbers, and what is sent to them and to the broadcaster is written down in the state.
-- Times are in milliseconds. Log lines and the counters for statistics are left out.
pub mod Apply
pub mod Commit
pub mod Events
pub mod Subtree
pub mod Staged
pub mod Refines
pub mod Simulation
pub mod Covered
pub mod Outcomes
pub mod Runs
pub mod Orphans
pub mod Deletion
pub mod Tracking
pub mod Bodies
pub mod Settled
pub mod Waiting
pub mod Barriers
pub mod Replies
pub mod Failures
pub mod Cache
mod Tests
use lixun.Common.{
  ℕ, Bool, true, false, not, ◌&&◌, ◌||◌, Option, none, some, List, [], ◌∷◌, ◌++◌, if◌then◌else◌,
  any, ◌==◌,
}
use lixun.Common.Text.{Text, text_eq}
use lixun.Common.Int.{ℤ}
use lixun.Document.{Document}
use lixun.Index.{LixunIndex}

pub data Mutation : Type 0 where
  upsert_one : Document → Mutation
  delete_one : Text → Mutation
  upsert_many : List Document → Mutation
  delete_many : List Text → Mutation
  delete_subtree : Text → Mutation
  delete_source_instance : Text → Mutation
  upsert_body : Text → Text → Option ℤ → Mutation
  barrier : ℕ → Mutation
  applied : ℕ → Mutation
  shutdown : Mutation
  commit_now : ℕ → Mutation

pub record UpsertedDoc : Type 0 where
  pub doc_id : Text
  pub source_instance : Text
  pub mtime : ℤ
  pub mime : Option Text
  pub body : Option Text

pub record MutationBatch : Type 0 where
  pub upserts : List UpsertedDoc
  pub deletes : List Text
  pub generation : ℕ

abbrev pub default_batch : MutationBatch
default_batch = record { upserts = []; deletes = []; generation = 0 }

unfoldable pub is_empty_batch : MutationBatch → Bool
is_empty_batch b = elim b.upserts [
  | [] ↦ elim b.deletes [ [] ↦ true | _ ∷ _ ↦ false ]
  | _ ∷ _ ↦ false
]

unfoldable pub upserted_doc_from : Document → UpsertedDoc
upserted_doc_from d = record {
  doc_id = d.id;
  source_instance = d.source_instance;
  mtime = d.mtime;
  mime = d.mime;
  body = d.body;
}

-- The locals of `writer_loop`, with the index; and what it has sent, the last first.
pub record Writer (W : Type 0) : Type 0 where
  pub index : LixunIndex W
  pub dirty : Bool
  pub last_commit : ℕ
  pub generation : ℕ  -- u64
  pub pending_barriers : List ℕ
  pub pending_batch : MutationBatch
  pub subtree_tombstones : List Text
  pub replies : List (ℕ × ℕ)  -- a reply to whom, with the generation
  pub acks : List ℕ  -- replies to `applied`
  pub broadcasts : List MutationBatch

unfoldable pub strip_prefix : Text → Text → Option Text
strip_prefix s [] = some s
strip_prefix [] (c ∷ p) = none
strip_prefix (d ∷ s) (c ∷ p) = if d == c then strip_prefix s p else none

-- `starts_with('/')`.
unfoldable pub starts_with_slash : Text → Bool
starts_with_slash [] = false
starts_with_slash (c ∷ s) = c == 47

unfoldable pub id_in_subtree : Text → Text → Bool
unfolding strip_prefix starts_with_slash
id_in_subtree id prefix =
    if text_eq id prefix
    then true
    else elim (strip_prefix id prefix) [ none ↦ false | some rest ↦ starts_with_slash rest ]

unfoldable pub id_tombstoned : Text → List Text → Bool
id_tombstoned id tombstones = any (λ p. id_in_subtree id p) tombstones
