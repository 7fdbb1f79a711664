-- ===== src/QueryLatch.antt =====
-- crates/lixun-daemon/src/query_latch.rs: how often each document was chosen for each query. The key of
-- a query (crates/lixun-index/src/normalize.rs) is modelled in Normalize; the floats are a parameter.
pub mod Laws
pub mod Removal
mod Tests
use lixun.Common.{
  ℕ, zero, suc, ◌+◌, ◌/◌, ◌%◌, ◌^◌, min, Bool, true, false, Option, none, some, List, [], ◌∷◌,
  if◌then◌else◌, leb, ◌||◌,
}
use lixun.Common.Text.{Text, is_empty, codes}
use lixun.Common.Dict.{Dict, get, put, delete}
use lixun.Common.Int.{ℤ, pos, pos_part, sub_i64}
use lixun.Common.Float.{Float, clamp}
use lixun.Normalize.{normalize_for_latch_key}
use lixun.StateFile
use lixun.StateFile.{Disk, Call, Json}

abbrev pub max_count : ℕ
max_count = 50

abbrev pub seconds_per_day : ℕ
seconds_per_day = 86400

pub record LatchEntry : Type 0 where
  pub count : ℕ  -- u32
  pub last_ts : ℤ  -- i64

pub record QueryLatchStore : Type 0 where
  pub by_query : Dict (Dict LatchEntry)

abbrev pub empty : QueryLatchStore
empty = record { by_query = [] }

-- `get(&key)`, then `get(doc_id)`.
unfoldable pub entry_in : Text → Text → Dict (Dict LatchEntry) → Option LatchEntry
entry_in key doc_id m = elim (get key m) [ none ↦ none | some per_query ↦ get doc_id per_query ]

unfoldable pub or_default {ℓ} : {V : Type ℓ} → V → Option V → V
or_default d none = d
or_default d (some v) = v

-- `entry.count = (entry.count + 1).min(MAX_COUNT); entry.last_ts = now`.
unfoldable pub bump : LatchEntry → ℤ → LatchEntry
bump e now = record { count = min ((e.count + 1) % 2 ^ 32) max_count; last_ts = now }

unfoldable pub record_key : QueryLatchStore → Text → Text → ℤ → QueryLatchStore
unfolding or_default bump is_empty
record_key s key doc_id now =
    let per_query = or_default [] (get key s.by_query) in
    let entry = or_default (record { count = 0; last_ts = pos 0 }) (get doc_id per_query) in
    if is_empty key
    then s
    else record { by_query = put key (put doc_id (bump entry now) per_query) s.by_query }

-- `!per_query.is_empty()` decides whether `retain` keeps a query.
unfoldable pub keep_or_drop :
    Text → Dict LatchEntry → Dict (Dict LatchEntry) → Dict (Dict LatchEntry)
keep_or_drop key [] rest = rest
keep_or_drop key (e ∷ es) rest = (key, e ∷ es) ∷ rest

-- The loop of `retain` in `remove_doc`: the document goes from each query, and a query left with no
-- document goes too.
unfoldable pub retain_without : Text → Dict (Dict LatchEntry) → Dict (Dict LatchEntry)
unfolding keep_or_drop
retain_without doc_id [] = []
retain_without doc_id ((key, per_query) ∷ m) =
    let rest = retain_without doc_id m in keep_or_drop key (delete doc_id per_query) rest

-- Whether `retain` took the document from some query.
unfoldable pub any_with : Text → Dict (Dict LatchEntry) → Bool
any_with doc_id [] = false
any_with doc_id ((key, per_query) ∷ m) =
    elim (get doc_id per_query) [ none ↦ false | some _ ↦ true ] || any_with doc_id m

unfoldable pub remove_doc : QueryLatchStore → Text → QueryLatchStore × Bool
remove_doc s doc_id =
    (record { by_query = retain_without doc_id s.by_query }, any_with doc_id s.by_query)

module _ (nfkd to_lowercase : Text → Text) where
  -- `QueryLatchStore::record`.
  unfoldable pub record_choice : QueryLatchStore → Text → Text → ℤ → QueryLatchStore
  unfolding record_key
  record_choice s query_raw doc_id now =
      record_key s (normalize_for_latch_key nfkd to_lowercase query_raw) doc_id now

  unfoldable pub entry_of : QueryLatchStore → Text → Text → Option LatchEntry
  unfolding entry_in
  entry_of s query_raw doc_id =
      entry_in (normalize_for_latch_key nfkd to_lowercase query_raw) doc_id s.by_query

  unfoldable pub strong : QueryLatchStore → Text → Text → ℕ → Bool
  strong s query_raw doc_id threshold = elim (entry_of s query_raw doc_id) [
    | none ↦ false
    | some entry ↦ leb threshold entry.count
  ]

  module _ {ℓ} {F : Type ℓ} (fl : Float F) where
    -- The days are a whole number, as `f32`, compared with the bounds as `f32`.
    unfoldable pub recency_weight : ℤ → F
    recency_weight age_seconds =
        let age_days = fl.of_nat (pos_part age_seconds / seconds_per_day) in
        if fl.le age_days (fl.decimal 40 1)
        then fl.decimal 10 1
        else if fl.le age_days (fl.decimal 140 1)
        then fl.decimal 7 1
        else if fl.le age_days (fl.decimal 310 1)
        then fl.decimal 5 1
        else if fl.le age_days (fl.decimal 900 1)
        then fl.decimal 3 1
        else fl.decimal 1 1

    -- `1 + weight * ln(1 + count) * recency`, before it is clamped.
    unfoldable pub boost : LatchEntry → ℤ → F → F
    boost entry now weight = fl.add (fl.decimal 10 1) (
        fl.mul weight (
          fl.mul (fl.ln (fl.add (fl.decimal 10 1) (fl.of_nat entry.count)))
            (recency_weight (sub_i64 now entry.last_ts))))

    unfoldable pub mult : QueryLatchStore → Text → Text → ℤ → F → F → F
    mult s query_raw doc_id now weight cap = elim (entry_of s query_raw doc_id) [
      | none ↦ fl.decimal 10 1
      | some entry ↦ clamp fl (boost entry now weight) (fl.decimal 10 1) cap
    ]

module _ (json : Json QueryLatchStore) where
  unfoldable pub load : Text → Disk → QueryLatchStore
  load dir d = StateFile.load json empty (codes "query_latch.json") dir d

  unfoldable pub save : QueryLatchStore → Text → List Call
  save s dir = StateFile.save json (codes "query_latch.json") s dir
