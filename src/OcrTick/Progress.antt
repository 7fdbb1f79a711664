-- ===== src/OcrTick/Progress.antt =====
-- The worker gets through the queue.
use mathlib.Core.List.{Mem, mem-cons, not-mem-nil}
use mathlib.Core.Logic.Or
use native.Mathlib.Bridge.{le_prop}
use lixun.Common.{
  ℕ, zero, suc, ◌+◌, ◌-◌, ◌≤◌, ◌<◌, true, none, some, [], ◌∷◌, ◌≡◌, ◌⊎◌, refl, arith, inl, inr,
  Bool-cases, ltb, ltb→lt,
}
use lixun.Common.Text.{Text, text_eq_refl}
use lixun.Common.Int.{ℤ}
use lixun.OcrQueue.{
  Stored, OcrQueueRow, Table, row_from_sql, peek_next, first_of_all, pending, remove, mark_failure,
}
use lixun.OcrQueue.Peek.{peek_next-pending}
use lixun.OcrTick.{
  World, OcrWorkerCfg, OcrResult, text, nothing, error, try_mark_failure, is_rejected, on_text,
  on_result, run_job, tick_once,
}

-- The attempts that the rows of a table have left, together.
unfoldable pub work : ℕ → Table → ℕ
work m [] = 0
work m (r ∷ t) = (m - r.attempts) + work m t

work-remove_le : (m : ℕ) (t : Table) (k : Text) → work m (remove t k) ≤ work m t
unfolding work remove
work-remove_le m [] k = omega arith
work-remove_le m (r ∷ t) k = ground (arith, work-remove_le m t k)

work-mark_failure_le : (m : ℕ) (t : Table) (k err : Text) → work m (mark_failure t k err) ≤ work m t
unfolding work mark_failure
work-mark_failure_le m [] k err = omega arith
work-mark_failure_le m (r ∷ t) k err = ground (arith, work-mark_failure_le m t k err)

head-remove :
    (m : ℕ) (r : Stored) (t : Table)
    → r.attempts < m
    → work m (remove (r ∷ t) r.doc_id) < work m (r ∷ t)
unfolding work remove
head-remove m r t h = rw (text_eq_refl r.doc_id) (omega (arith, work-remove_le m t r.doc_id))

head-mark_failure :
    (m : ℕ) (r : Stored) (t : Table) (err : Text)
    → r.attempts < m
    → work m (mark_failure (r ∷ t) r.doc_id err) < work m (r ∷ t)
unfolding work mark_failure
head-mark_failure m r t err h =
    rw (text_eq_refl r.doc_id) (omega (arith, work-mark_failure_le m t r.doc_id err))

tail-remove :
    (m : ℕ) (r : Stored) (t : Table) (k : Text)
    → work m (remove t k) < work m t
    → work m (remove (r ∷ t) k) < work m (r ∷ t)
unfolding work remove
tail-remove m r t k h = ground arith

tail-mark_failure :
    (m : ℕ) (r : Stored) (t : Table) (k err : Text)
    → work m (mark_failure t k err) < work m t
    → work m (mark_failure (r ∷ t) k err) < work m (r ∷ t)
unfolding work mark_failure
tail-mark_failure m r t k err h = ground arith

work_none : (m : ℕ) (t : Table) → pending m t ≡ [] → work m t ≡ 0
unfolding work pending
work_none m [] h = refl
work_none m (r ∷ t) h = elim (Bool-cases (ltb r.attempts m)) [
  | inl e ↦ cc (rw e at h)
  | inr e ↦ ground (arith, work_none m t (rw e at h))
]

-- A row with attempts left is somewhere in the table.
abbrev Within : ℕ → Stored → Table → Type 0
Within m r t = Mem r (pending m t)

work-remove :
    (m : ℕ) (r : Stored) (t : Table) → Within m r t → work m (remove t r.doc_id) < work m t
unfolding pending
work-remove m r [] h = absurd (not-mem-nil h)
work-remove m r (s ∷ t) h = elim (Bool-cases (ltb s.attempts m)) [
  | inl e ↦
      Or.elim le_prop (mem-cons.0 (rw e at h)) (λ p. rw p (head-remove m s t (ltb→lt _ _ e)))
        (λ q. tail-remove m s t r.doc_id (work-remove m r t q))
  | inr e ↦ tail-remove m s t r.doc_id (work-remove m r t (rw e at h))
]

work-mark_failure :
    (m : ℕ) (r : Stored) (t : Table) (err : Text)
    → Within m r t
    → work m (mark_failure t r.doc_id err) < work m t
unfolding pending
work-mark_failure m r [] err h = absurd (not-mem-nil h)
work-mark_failure m r (s ∷ t) err h = elim (Bool-cases (ltb s.attempts m)) [
  | inl e ↦
      Or.elim le_prop (mem-cons.0 (rw e at h))
        (λ p. rw p (head-mark_failure m s t err (ltb→lt _ _ e)))
        (λ q. tail-mark_failure m s t r.doc_id err (work-mark_failure m r t err q))
  | inr e ↦ tail-mark_failure m s t r.doc_id err (work-mark_failure m r t err (rw e at h))
]

-- The system stays idle, and SQLite and the writer do what they are asked.
pub record IsWorking (w : World) : Type 0 where
  pub idle : w.idle ≡ true
  pub idle_after : w.idle_after ≡ true
  pub peek_ok : w.peek_ok ≡ true
  pub sink_ok : w.sink_error ≡ none
  pub statement_ok : w.statement_ok ≡ true

abbrev Moves : Table → Text → Table → Type 0
Moves t k t' = (t' ≡ remove t k) ⊎ ((err : Text) × (t' ≡ mark_failure t k err))

on_text-remove :
    (w : World) (t : Table) (row : OcrQueueRow) (body : Text)
    → IsWorking w
    → (on_text w t row body).table ≡ remove t row.doc_id
unfolding on_text
on_text-remove w t row body ok = ground arith

try_mark_failure-eq :
    (w : World) (t : Table) (k err : Text)
    → IsWorking w
    → try_mark_failure w t k err ≡ mark_failure t k err
unfolding try_mark_failure
try_mark_failure-eq w t k err ok = ground arith

on_result-Moves :
    (w : World) (t : Table) (row : OcrQueueRow) (r : OcrResult)
    → IsWorking w
    → Moves t row.doc_id (on_result w t row r).table
unfolding on_result
on_result-Moves w t row (text body) ok = inl (on_text-remove w t row body ok)
on_result-Moves w t row nothing ok = inr (_, try_mark_failure-eq w t row.doc_id _ ok)
on_result-Moves w t row (error e) ok = inr (e, try_mark_failure-eq w t row.doc_id e ok)

run_job-Moves :
    (cfg : OcrWorkerCfg) (w : World) (t : Table) (row : OcrQueueRow)
    → IsWorking w
    → Moves t row.doc_id (run_job cfg w t row).table
unfolding run_job
run_job-Moves cfg w t row ok = elim (Bool-cases (is_rejected cfg w row)) [
  | inl e ↦ rw (e, run_job) (inr (_, try_mark_failure-eq w t row.doc_id _ ok))
  | inr e ↦ rw (e, run_job) (on_result-Moves w t row (w.run_ocr row.path row.ext) ok)
]

tick_once-run_job :
    (cfg : OcrWorkerCfg) (w : World) (t : Table) (row : OcrQueueRow)
    → IsWorking w
    → peek_next t cfg.max_attempts w.now ≡ some row
    → tick_once cfg w t ≡ run_job cfg w t row
unfolding tick_once is_rejected
tick_once-run_job cfg w t row ok h = rw (ok.idle, ok.peek_ok, h, tick_once)

-- In a working system a tick on a queue with a job left uses up one of the attempts that are left.
tick_once-work :
    (cfg : OcrWorkerCfg) (w : World) (t : Table)
    → IsWorking w
    → (pending cfg.max_attempts t ≡ [])
      ⊎ (work cfg.max_attempts (tick_once cfg w t).table < work cfg.max_attempts t)
tick_once-work cfg w t ok = elim (peek_next-pending t cfg.max_attempts w.now) [
  | inl e ↦ inl e
  | inr (r, h, m) ↦ inr (
      rw (tick_once-run_job cfg w t (row_from_sql r) ok h)
        (less r m (run_job-Moves cfg w t (row_from_sql r) ok)))
]
  where
    less :
        (r : Stored)
        → Within cfg.max_attempts r t
        → {t' : Table} → Moves t (row_from_sql r).doc_id t'
        → work cfg.max_attempts t' < work cfg.max_attempts t
    less r m (inl e) = rw e (unfold row_from_sql in work-remove cfg.max_attempts r t m)
    less r m (inr (err, e)) =
        rw e (unfold row_from_sql in work-mark_failure cfg.max_attempts r t err m)

peek_next-none : (t : Table) (m : ℕ) (now : ℤ) → pending m t ≡ [] → peek_next t m now ≡ none
unfolding peek_next first_of_all
peek_next-none t m now h = rw (h, peek_next, first_of_all)

-- The table after `n` ticks, of which the first meets the world `worlds 0`.
unfoldable pub ticks : ℕ → OcrWorkerCfg → (ℕ → World) → Table → Table
ticks zero cfg worlds t = t
ticks (suc n) cfg worlds t = ticks n cfg (λ i. worlds (suc i)) (tick_once cfg (worlds 0) t).table

tick_once-none :
    (cfg : OcrWorkerCfg) (w : World) (t : Table)
    → IsWorking w
    → pending cfg.max_attempts t ≡ []
    → (tick_once cfg w t).table ≡ t
unfolding tick_once is_rejected
tick_once-none cfg w t ok h =
    rw (ok.idle, ok.peek_ok, peek_next-none t cfg.max_attempts w.now h, tick_once)

-- However the jobs turn out, a working system gets through the queue: after as many ticks as the rows
-- have attempts left together, no row is left for the worker to take.
pub ticks-pending :
    (n : ℕ) (cfg : OcrWorkerCfg) (worlds : ℕ → World) (t : Table)
    → ((i : ℕ) → IsWorking (worlds i))
    → work cfg.max_attempts t ≤ n
    → pending cfg.max_attempts (ticks n cfg worlds t) ≡ []
unfolding ticks
ticks-pending zero cfg worlds t ok h = elim (tick_once-work cfg (worlds 0) t (ok 0)) [
  | inl e ↦ e
  | inr l ↦ absurd (omega arith)
]
ticks-pending (suc n) cfg worlds t ok h = elim (tick_once-work cfg (worlds 0) t (ok 0)) [
  | inl e ↦
      ticks-pending n cfg (λ i. worlds (suc i)) (tick_once cfg (worlds 0) t).table (λ i. ok (suc i))
        (rw (tick_once-none cfg (worlds 0) t (ok 0) e, work_none cfg.max_attempts t e)
          (omega arith))
  | inr l ↦
      ticks-pending n cfg (λ i. worlds (suc i)) (tick_once cfg (worlds 0) t).table (λ i. ok (suc i))
        (omega arith)
]
