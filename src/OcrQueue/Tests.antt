-- ===== src/OcrQueue/Tests.antt =====
-- The OCR queue on small inputs.
use mathlib.Core.List.{Mem}
use lixun.Common.{
  retain, not, ◌≤◌, ℕ, zero, suc, ◌+◌, ◌<◌, arith, Option, none, some, Bool, true, false, List, [],
  ◌∷◌, ◌≡◌, ◌⊎◌, refl, length,
}
use lixun.Common.Text.{Text, codes, text_eq}
use lixun.Common.Int.{ℤ, pos}
use lixun.Common.Sort.{All}
use lixun.OcrQueue.{
  OcrQueueRow, Stored, Table, new, to_sql, row_from_sql, find, enqueue, mark_failure, is_zombie,
  reap_zombies, pending, peek_next, len, stats, Attempt, ok, busy, with_busy_retry, first_of_all,
}
use lixun.OcrQueue.Rows.{reap_zombies_lem, is_spent}
use lixun.OcrQueue.Peek.{GoesFirst, peek_next_lem}
use lixun.OcrQueue.Retry.{Answered, GaveUp, with_busy_retry_lem}

abbrev job : Text → ℤ → ℤ → OcrQueueRow
job id mtime now = new id id mtime 100 (codes "pdf") now

abbrev old_job : OcrQueueRow
old_job = job (codes "old") (pos 7) (pos 1000)

abbrev new_job : OcrQueueRow
new_job = job (codes "new") (pos 9) (pos 900000)

abbrev jobs : Table
jobs = enqueue (enqueue [] old_job) new_job

reap_zombies_example :
    let (t', n) = reap_zombies jobs 0 (pos 2000) in
    (t' ≡ retain (λ (r : Stored). not (is_spent 0 (pos 2000) r)) jobs)
    × (pending 0 t' ≡ pending 0 jobs)
    × (len t' + n ≡ len jobs)
reap_zombies_example = reap_zombies_lem jobs 0 (pos 2000)

-- A recent job goes first.
recent_first : peek_next jobs 3 (pos 900005) ≡ some new_job
unfolding peek_next first_of_all pending enqueue find text_eq new row_from_sql
    lixun.OcrQueue.comes_before lixun.Common.Int.◌-ℤ◌ lixun.Common.Int.wrap_i64
recent_first = refl

peek_next_example :
    ((peek_next jobs 3 (pos 900005) ≡ none) × All (λ (s : Stored). 3 ≤ s.attempts) jobs)
    ⊎ ((r : Stored) × (peek_next jobs 3 (pos 900005) ≡ some (row_from_sql r))
        × Mem r jobs
        × (r.attempts < 3)
        × All (λ (s : Stored). (3 ≤ s.attempts) ⊎ GoesFirst (pos 900005) r s) jobs)
peek_next_example = peek_next_lem jobs 3 (pos 900005)

-- Busy twice, then a value.
abbrev busy_twice : ℕ → Attempt ℕ
busy_twice zero = busy
busy_twice (suc zero) = busy
busy_twice (suc (suc n)) = ok n

waits : (with_busy_retry busy_twice).waited ≡ 25
unfolding with_busy_retry
waits = refl

with_busy_retry_example :
    Answered busy_twice 10 1525 (with_busy_retry busy_twice)
    ⊎ GaveUp busy_twice 10 1525 (with_busy_retry busy_twice)
with_busy_retry_example = with_busy_retry_lem busy_twice
