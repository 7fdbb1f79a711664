-- ===== src/OcrQueue.antt =====
-- crates/lixun-extract/src/ocr_queue.rs: the table of OCR jobs. A row's statements are those of the SQL
-- text in the source; SQLite's clock, `strftime('%s', 'now')`, is an argument. Opening the file and the
-- schema (a PRIMARY KEY on `doc_id`) are SQLite's.
pub mod Rows
pub mod Peek
pub mod Retry
mod Tests
use lixun.Common.{
  ℕ, zero, suc, ◌+◌, ◌%◌, ◌^◌, Bool, true, false, not, ◌&&◌, ◌||◌, Option, none, some, List, [],
  ◌∷◌, ◌++◌, if◌then◌else◌, ltb, leb, ◌==◌, length,
}
use lixun.Common.Text.{Text, text_eq}
use lixun.Common.Int.{ℤ, pos, pos_part, wrap_i64, ◌-ℤ◌, ltb_ℤ}

pub record OcrQueueRow : Type 0 where
  pub doc_id : Text
  pub path : Text
  pub mtime : ℤ
  pub size : ℕ  -- u64
  pub ext : Text
  pub enqueued_at : ℤ
  pub attempts : ℕ  -- u32
  pub last_error : Option Text

-- A row as the table holds it: `size as i64` and `attempts as i64`.
pub record Stored : Type 0 where
  pub doc_id : Text
  pub path : Text
  pub mtime : ℤ
  pub size : ℤ
  pub ext : Text
  pub enqueued_at : ℤ
  pub attempts : ℕ
  pub last_error : Option Text

abbrev pub Table : Type 0
Table = List Stored

pub record OcrQueueStats : Type 0 where
  pub total : ℕ
  pub pending : ℕ
  pub failed : ℕ

-- `OcrQueueRow::new`, at the wall-clock second `now`.
unfoldable pub new : Text → Text → ℤ → ℕ → Text → ℤ → OcrQueueRow
new doc_id path mtime size ext now = record {
  doc_id = doc_id;
  path = path;
  mtime = mtime;
  size = size;
  ext = ext;
  enqueued_at = now;
  attempts = 0;
  last_error = none;
}

unfoldable pub to_sql : OcrQueueRow → Stored
to_sql r = record {
  doc_id = r.doc_id;
  path = r.path;
  mtime = r.mtime;
  size = wrap_i64 (pos r.size);
  ext = r.ext;
  enqueued_at = r.enqueued_at;
  attempts = r.attempts;
  last_error = r.last_error;
}

-- `size_i.max(0) as u64`, `attempts_i.max(0) as u32`.
unfoldable pub row_from_sql : Stored → OcrQueueRow
row_from_sql r = record {
  doc_id = r.doc_id;
  path = r.path;
  mtime = r.mtime;
  size = pos_part r.size;
  ext = r.ext;
  enqueued_at = r.enqueued_at;
  attempts = r.attempts % 2 ^ 32;
  last_error = r.last_error;
}

unfoldable pub find : Text → Table → Option Stored
find k [] = none
find k (r ∷ t) = if text_eq r.doc_id k then some r else find k t

-- INSERT OR IGNORE.
unfoldable pub enqueue : Table → OcrQueueRow → Table
unfolding to_sql
enqueue t row = elim (find row.doc_id t) [ none ↦ t ++ (to_sql row ∷ []) | some _ ↦ t ]

-- DELETE ... WHERE doc_id = ?1.
unfoldable pub remove : Table → Text → Table
remove [] k = []
remove (r ∷ t) k = let rest = remove t k in if text_eq r.doc_id k then rest else r ∷ rest

-- UPDATE ... SET attempts = attempts + 1, last_error = ?2 WHERE doc_id = ?1.
unfoldable pub mark_failure : Table → Text → Text → Table
mark_failure [] k err = []
mark_failure (r ∷ t) k err =
    (if text_eq r.doc_id k
      then record r { attempts = r.attempts + 1; last_error = some err }
      else r)
    ∷ mark_failure t k err

-- DELETE ... WHERE attempts >= ?1 AND enqueued_at < ?2, with the number of rows deleted.
unfoldable pub is_zombie : ℕ → ℤ → Stored → Bool
is_zombie max_attempts older_than r = leb max_attempts r.attempts && ltb_ℤ r.enqueued_at older_than

unfoldable pub reap_zombies : Table → ℕ → ℤ → Table × ℕ
reap_zombies [] max_attempts older_than = ([], 0)
reap_zombies (r ∷ t) max_attempts older_than =
    let (rest, n) = reap_zombies t max_attempts older_than in
    if is_zombie max_attempts older_than r then (rest, n + 1) else (r ∷ rest, n)

-- WHERE attempts < ?1.
unfoldable pub pending : ℕ → Table → Table
pending max_attempts [] = []
pending max_attempts (r ∷ t) =
    let rest = pending max_attempts t in if ltb r.attempts max_attempts then r ∷ rest else rest

-- `now - enqueued_at < 86400`.
unfoldable pub is_recent : ℤ → Stored → Bool
is_recent now r = ltb_ℤ (now -ℤ r.enqueued_at) (pos 86400)

-- The last ORDER BY term, `enqueued_at` of a recent row and `-mtime` of another.
unfoldable pub order_key : ℤ → Stored → ℤ
unfolding is_recent
order_key now r = if is_recent now r then r.enqueued_at else pos 0 -ℤ r.mtime

-- The three terms of the ORDER BY, compared in turn.
unfoldable pub lex_before : ℕ → Bool → ℤ → ℕ → Bool → ℤ → Bool
lex_before m p a n q b = ltb m n || (m == n && ((p && not q) || ((p || not q) && ltb_ℤ a b)))

-- ORDER BY attempts, then recent rows before others, then the key: `r` comes strictly before `s`.
unfoldable pub comes_before : ℤ → Stored → Stored → Bool
unfolding lex_before is_recent order_key
comes_before now r s =
    lex_before r.attempts (is_recent now r) (order_key now r) s.attempts (is_recent now s)
      (order_key now s)

-- LIMIT 1: a row that none comes before. SQLite may choose among equals; this takes the first.
unfoldable pub first_by : ℤ → Stored → Table → Stored
first_by now best [] = best
first_by now best (r ∷ t) = first_by now (if comes_before now r best then r else best) t

unfoldable pub first_of_all : ℤ → Table → Option Stored
unfolding first_by
first_of_all now [] = none
first_of_all now (r ∷ t) = some (first_by now r t)

unfoldable pub peek_next : Table → ℕ → ℤ → Option OcrQueueRow
peek_next t max_attempts now = elim (first_of_all now (pending max_attempts t)) [
  | none ↦ none
  | some r ↦ some (row_from_sql r)
]

unfoldable pub len : Table → ℕ
len t = length t

unfoldable pub is_empty : Table → Bool
is_empty t = len t == 0

-- SUM(CASE WHEN attempts < ?1 ...) and SUM(CASE WHEN attempts >= ?1 ...).
unfoldable pub count_pending : ℕ → Table → ℕ
count_pending max_attempts [] = 0
count_pending max_attempts (r ∷ t) =
    (if ltb r.attempts max_attempts then 1 else 0) + count_pending max_attempts t

unfoldable pub count_failed : ℕ → Table → ℕ
count_failed max_attempts [] = 0
count_failed max_attempts (r ∷ t) =
    (if leb max_attempts r.attempts then 1 else 0) + count_failed max_attempts t

unfoldable pub stats : Table → ℕ → OcrQueueStats
stats t max_attempts = record {
  total = length t;
  pending = count_pending max_attempts t;
  failed = count_failed max_attempts t;
}

-- What one run of a statement gives: its value, BUSY or LOCKED, or another error.
pub data Attempt {ℓ} (A : Type ℓ) : Type ℓ where
  ok : A → Attempt A
  busy : Attempt A
  failed : Attempt A

pub record Retried {ℓ} (A : Type ℓ) : Type ℓ where
  pub result : Attempt A
  pub calls : ℕ
  pub waited : ℕ

-- `once(None).chain(BACKOFFS)`, in milliseconds.
abbrev pub schedule : List (Option ℕ)
schedule =
    none
    ∷ some 25
    ∷ some 50
    ∷ some 100
    ∷ some 150
    ∷ some 200
    ∷ some 250
    ∷ some 250
    ∷ some 250
    ∷ some 250
    ∷ []

abbrev pub sleep_of : Option ℕ → ℕ
sleep_of none = 0
sleep_of (some d) = d

module _ {ℓ} {A : Type ℓ} where
  -- The loop, at call `i` of `f`, which gives `f i`, after `waited` milliseconds of sleep.
  unfoldable pub retry_from : List (Option ℕ) → (ℕ → Attempt A) → ℕ → ℕ → Retried A
  retry_from [] f i waited = record { result = busy; calls = i; waited = waited }
  retry_from (d ∷ ds) f i waited = elim (f i) [
    | ok v ↦ record { result = ok v; calls = suc i; waited = waited }
    | failed ↦ record { result = failed; calls = suc i; waited = waited }
    | busy ↦ retry_from ds f (suc i) (waited + sleep_of d)
  ]

  unfoldable pub with_busy_retry : (ℕ → Attempt A) → Retried A
  unfolding retry_from
  with_busy_retry f = retry_from schedule f 0 0
