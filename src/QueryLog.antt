-- ===== src/QueryLog.antt =====
-- crates/lixun-daemon/src/query_log.rs: the history of search queries, latest first.
pub mod Laws
mod Tests
use lixun.Common.{
  ℕ, suc, Bool, true, false, not, Option, none, some, List, [], ◌∷◌, ◌++◌, if◌then◌else◌, take,
  length, leb, ltb, ◌==◌,
}
use lixun.Common.Text.{Text, text_eq, is_empty, trim, codes}
use lixun.StateFile.{
  FileState, missing, unreadable, content, Disk, Call, create_dir_all, write, Json, join,
}

abbrev pub default_max : ℕ
default_max = 100

pub record QueryLog : Type 0 where
  pub entries : List Text
  pub max : ℕ

abbrev pub default : QueryLog
default = record { entries = []; max = default_max }

-- `entries.retain(|e| e != q)`.
unfoldable pub without : Text → List Text → List Text
without q [] = []
without q (e ∷ es) = let rest = without q es in if text_eq e q then rest else e ∷ rest

-- `entries.pop_back()`.
unfoldable pub pop_back : List Text → List Text
pop_back [] = []
pop_back (e ∷ []) = []
pop_back (e ∷ f ∷ es) = e ∷ pop_back (f ∷ es)

-- `while entries.len() > max { entries.pop_back() }`. Each round removes one entry, so as many rounds
-- as there are entries are enough.
unfoldable pub truncate_from : ℕ → ℕ → List Text → List Text
truncate_from ℕ.zero max es = es
truncate_from (suc rounds) max es = elim (ltb max (length es)) [
  | true ↦ truncate_from rounds max (pop_back es)
  | false ↦ es
]

unfoldable pub truncate : ℕ → List Text → List Text
unfolding truncate_from pop_back
truncate max es = truncate_from (length es) max es

unfoldable pub record_trimmed : QueryLog → Text → QueryLog
unfolding without truncate is_empty
record_trimmed log q =
    if is_empty q
    then log
    else record log { entries = truncate log.max (q ∷ without q log.entries) }

unfoldable pub record_query : QueryLog → Text → QueryLog
record_query log q = record_trimmed log (trim q)

unfoldable pub recent : QueryLog → ℕ → List Text
recent log n = take n log.entries

-- The `max == 0` of a hand-edited file is replaced.
unfoldable pub checked : QueryLog → QueryLog
checked log = if log.max == 0 then record log { max = default_max } else log

module _ (json : Json QueryLog) where
  -- `none` is the error of `read_to_string`.
  unfoldable pub load_from : FileState → Option QueryLog
  unfolding checked
  load_from missing = some default
  load_from unreadable = none
  load_from (content s) =
      some (checked (elim (json.from_json s) [ none ↦ default | some log ↦ log ]))

  unfoldable pub load : Text → Disk → Option QueryLog
  unfolding load_from
  load dir d = load_from (d (join dir (codes "queries.json")))

  -- Unlike the other stores the file is written in place.
  unfoldable pub save : QueryLog → Text → List Call
  save log dir =
      create_dir_all dir ∷ write (join dir (codes "queries.json")) (json.to_json log) ∷ []
