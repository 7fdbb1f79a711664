-- ===== src/Frecency.antt =====
-- crates/lixun-daemon/src/frecency.rs: the clicks on each document, the last ten of each, and the
-- score that their ages give. The floats are a parameter (Common/Float); a `HashMap` is an
-- association list.
pub mod Laws
pub mod Ranking
mod Tests
use lixun.Common.{
  ℕ, zero, suc, ◌+◌, ◌/◌, Bool, true, false, Option, none, some, List, [], ◌∷◌, ◌++◌, if◌then◌else◌,
  take, length, leb, ltb, ◌||◌, ◌&&◌, not,
}
use lixun.Common.Text.{Text, text_lt, codes}
use lixun.Common.Dict.{Dict, get, put, delete}
use lixun.Common.Int.{ℤ, pos_part, sub_i64}
use lixun.Common.Float.{Float}
use lixun.Common.Sort.{sort}
use lixun.StateFile
use lixun.StateFile.{
  FileState, missing, unreadable, content, Disk, Call, Json, update, join, parse_or,
}

abbrev pub max_visits_per_doc : ℕ
max_visits_per_doc = 10

abbrev pub seconds_per_day : ℕ
seconds_per_day = 86400

pub data VisitKind : Type 0 where
  click : VisitKind

pub record VisitEntry : Type 0 where
  pub ts : ℤ
  pub kind : VisitKind

-- `FrecencyRecord`, a queue of visits with the oldest first.
abbrev pub Visits : Type 0
Visits = List VisitEntry

pub record FrecencyStore : Type 0 where
  pub records : Dict Visits

abbrev pub empty : FrecencyStore
empty = record { records = [] }

unfoldable pub get_or_default : Option Visits → Visits
get_or_default none = []
get_or_default (some v) = v

-- `visits.pop_front()`.
unfoldable pub pop_front : Visits → Visits
pop_front [] = []
pop_front (v ∷ vs) = vs

-- `while visits.len() > MAX_VISITS_PER_DOC { visits.pop_front() }`, in at most as many rounds as there
-- are visits.
unfoldable pub trim_from : ℕ → Visits → Visits
trim_from zero vs = vs
trim_from (suc rounds) vs = elim (ltb max_visits_per_doc (length vs)) [
  | true ↦ trim_from rounds (pop_front vs)
  | false ↦ vs
]

unfoldable pub push_visit : Visits → ℤ → Visits
unfolding trim_from pop_front
push_visit vs now =
    let pushed = vs ++ (record { ts = now; kind = click } ∷ []) in trim_from (length pushed) pushed

unfoldable pub record_click : FrecencyStore → Text → ℤ → FrecencyStore
record_click s doc_id now = record {
  records = put doc_id (push_visit (get_or_default (get doc_id s.records)) now) s.records;
}

unfoldable pub remove_doc : FrecencyStore → Text → FrecencyStore × Bool
remove_doc s doc_id = (
  record { records = delete doc_id s.records },
  elim (get doc_id s.records) [ none ↦ false | some _ ↦ true ],
)

module _ {ℓ} {F : Type ℓ} (fl : Float F) where
  -- The age in days, of an age that is not negative; `age.max(0)` comes first.
  unfoldable pub day_weight : ℕ → F
  day_weight age_days =
      if leb age_days 4
      then fl.decimal 100 2
      else if leb age_days 14
      then fl.decimal 70 2
      else if leb age_days 31
      then fl.decimal 50 2
      else if leb age_days 90
      then fl.decimal 30 2
      else fl.decimal 10 2

  unfoldable pub bucket_weight : ℤ → F
  unfolding day_weight
  bucket_weight age_seconds = day_weight (pos_part age_seconds / seconds_per_day)

  -- `visits.iter().map(|v| bucket_weight(now - v.ts)).sum()`, from `acc`.
  unfoldable pub sum_weights : ℤ → F → Visits → F
  sum_weights now acc [] = acc
  sum_weights now acc (v ∷ vs) = sum_weights now (fl.add acc (bucket_weight (sub_i64 now v.ts))) vs

  unfoldable pub raw : FrecencyStore → Text → ℤ → F
  raw s doc_id now = elim (get doc_id s.records) [
    | none ↦ fl.decimal 0 0
    | some vs ↦ sum_weights now fl.sum_start vs
  ]

  unfoldable pub mult : FrecencyStore → Text → ℤ → F → F
  mult s doc_id now alpha = fl.add (fl.decimal 1 0) (fl.mul alpha (raw s doc_id now))

  -- The order of `top_docs`: the higher score first, then the smaller id. Scores that do not compare
  -- count as equal.
  unfoldable pub ranks_before : F × Text → F × Text → Bool
  ranks_before (x, i) (y, j) = fl.lt y x || (not (fl.lt x y) && text_lt i j)

  -- The ids with a positive score, each with its score.
  unfoldable pub scored : FrecencyStore → ℤ → Dict Visits → List (F × Text)
  scored s now [] = []
  scored s now ((id, vs) ∷ rs) =
      let rest = scored s now rs in
      if fl.lt (fl.decimal 0 0) (raw s id now) then (raw s id now, id) ∷ rest else rest

  unfoldable pub ids : List (F × Text) → List Text
  ids [] = []
  ids ((x, id) ∷ ps) = id ∷ ids ps

  unfoldable pub top_docs : FrecencyStore → ℤ → ℕ → List Text
  top_docs s now limit = ids (take limit (sort ranks_before (scored s now s.records)))

module _ (json : Json FrecencyStore) where
  -- Where there is no `frecency.json`, the older `history.json` is deleted. `removable` is whether
  -- that succeeds; `none` is its error.
  unfoldable pub load_legacy : Text → Bool → Disk → FileState → Option (FrecencyStore × Disk)
  load_legacy dir removable d missing = some (empty, d)
  load_legacy dir removable d _ =
      if removable then some (empty, update d (join dir (codes "history.json")) missing) else none

  unfoldable pub load_at : Text → Bool → Disk → FileState → Option (FrecencyStore × Disk)
  unfolding load_legacy
  load_at dir removable d missing =
      load_legacy dir removable d (d (join dir (codes "history.json")))
  load_at dir removable d unreadable = some (empty, d)
  load_at dir removable d (content s) = some (parse_or json empty s, d)

  unfoldable pub load : Text → Bool → Disk → Option (FrecencyStore × Disk)
  unfolding load_at
  load dir removable d = load_at dir removable d (d (join dir (codes "frecency.json")))

  unfoldable pub save : FrecencyStore → Text → List Call
  save s dir = StateFile.save json (codes "frecency.json") s dir
