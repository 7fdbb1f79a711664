-- ===== src/OcrTick/Writes.antt =====
-- When a tick writes, and what it does to the row.
use lixun.Common.{
  Bool, true, false, Option, none, some, ◌≡◌, ◌⊎◌, refl, arith, inl, inr, if◌then◌else◌, Bool-cases,
  ap, ◌≢◌, Option-cases, subst, sym,
}
use lixun.Common.Text.{Text}
use lixun.Common.Int.{eq_of_eq_ℤ, eq_ℤ_refl}
use lixun.OcrQueue.{OcrQueueRow, Table, peek_next}
use lixun.OcrTick.{
  World, OcrWorkerCfg, OcrResult, text, nothing, error, Metadata, Write, Ticked, TickOutcome,
  no_idle, empty, drained, stale_skipped, permanent_skip, failed, try_remove, try_mark_failure,
  is_same_file, is_rejected, write_back, on_text, on_result, run_job, tick_once,
}

-- What must hold for the tick to have made the call `v` of `upsert_body`.
pub record IsJustified (cfg : OcrWorkerCfg) (w : World) (t : Table) (v : Write) : Type 0 where
  pub row : OcrQueueRow
  pub taken : peek_next t cfg.max_attempts w.now ≡ some row
  pub idle_before : w.idle ≡ true
  pub idle_after : w.idle_after ≡ true
  pub read : w.run_ocr row.path row.ext ≡ text v.body
  pub same_doc : v.doc_id ≡ row.doc_id
  pub same_mtime : v.expected_mtime ≡ row.mtime
  pub unchanged_file : w.metadata row.path ≡ some (record { mtime = row.mtime; len = row.size })

same_file :
    (row : OcrQueueRow) (md : Metadata)
    → is_same_file row md ≡ true
    → md ≡ record { mtime = row.mtime; len = row.size }
unfolding is_same_file
same_file row md h = ground (arith, eq_of_eq_ℤ md.mtime row.mtime)

-- The call that a text leads to.
record WroteText (w : World) (row : OcrQueueRow) (body : Text) (v : Write) : Type 0 where
  still_idle : w.idle_after ≡ true
  same_meta : w.metadata row.path ≡ some (record { mtime = row.mtime; len = row.size })
  the_write : v ≡ record { doc_id = row.doc_id; body = body; expected_mtime = row.mtime }

on_text-WroteText :
    (w : World) (t : Table) (row : OcrQueueRow) (body : Text) (v : Write)
    → (on_text w t row body).write ≡ some v
    → WroteText w row body v
unfolding on_text try_mark_failure
on_text-WroteText w t row body v h = go (w.metadata row.path) refl
  where
    go : (m : Option Metadata) → w.metadata row.path ≡ m → WroteText w row body v
    go none e = ground (arith)
    go (some md) e = record {
      still_idle = ground arith;
      same_meta = ground (arith, same_file row md);
      the_write = ground arith;
    }

on_result-text :
    (w : World) (t : Table) (row : OcrQueueRow) (r : OcrResult) (v : Write)
    → (on_result w t row r).write ≡ some v
    → (body : Text) × (r ≡ text body) × WroteText w row body v
unfolding on_result
on_result-text w t row (text body) v h = (body, refl, on_text-WroteText w t row body v h)
on_result-text w t row nothing v h = cc
on_result-text w t row (error e) v h = cc

run_job-text :
    (cfg : OcrWorkerCfg) (w : World) (t : Table) (row : OcrQueueRow) (v : Write)
    → (run_job cfg w t row).write ≡ some v
    → (body : Text) × (w.run_ocr row.path row.ext ≡ text body) × WroteText w row body v
unfolding run_job
run_job-text cfg w t row v h = elim (Bool-cases (is_rejected cfg w row)) [
  | inl e ↦ absurd (ground arith)
  | inr e ↦ on_result-text w t row (w.run_ocr row.path row.ext) v (rw e at h)
]

tick_once-job :
    (cfg : OcrWorkerCfg) (w : World) (t : Table) (v : Write)
    → (tick_once cfg w t).write ≡ some v
    → (row : OcrQueueRow) × (w.idle ≡ true)
      × (peek_next t cfg.max_attempts w.now ≡ some row)
      × ((run_job cfg w t row).write ≡ some v)
unfolding tick_once
tick_once-job cfg w t v h = go (peek_next t cfg.max_attempts w.now) refl
  where
    go :
        (o : Option OcrQueueRow)
        → peek_next t cfg.max_attempts w.now ≡ o
        → (row : OcrQueueRow) × (w.idle ≡ true)
          × (peek_next t cfg.max_attempts w.now ≡ some row)
          × ((run_job cfg w t row).write ≡ some v)
    go none e = absurd (ground arith)
    go (some row) e = (row, ground arith, e, ground arith)

-- Every write is the text that OCR read from a file that is as it was when the row was enqueued, of the
-- row that the queue gives next, under the mtime of that row, and the system was idle before and after.
pub tick_once-IsJustified :
    (cfg : OcrWorkerCfg) (w : World) (t : Table) (v : Write)
    → (tick_once cfg w t).write ≡ some v
    → IsJustified cfg w t v
tick_once-IsJustified cfg w t v h =
    let (row, idle, taken, job) = tick_once-job cfg w t v h in
    let (body, read, wrote) = run_job-text cfg w t row v job in
    record {
      row = row;
      taken = taken;
      idle_before = idle;
      idle_after = wrote.still_idle;
      read = rw wrote.the_write read;
      same_doc = ap (λ (x : Write). x.doc_id) wrote.the_write;
      same_mtime = ap (λ (x : Write). x.expected_mtime) wrote.the_write;
      unchanged_file = wrote.same_meta;
    }

-- What the job of a row leaves of the table, told by its outcome. Where the outcome is `failed`, either
-- OCR failed, and the failure is counted, or the writer refused the text that OCR read, and the table
-- stays as it was.
abbrev pub RowEffect :
    OcrWorkerCfg → World → Table → OcrQueueRow → TickOutcome → Table → Option Write → Type 0
RowEffect cfg w t row no_idle t' v = (w.idle_after ≡ false) × (t' ≡ t) × (v ≡ none)
RowEffect cfg w t row empty t' v = ⊥
RowEffect cfg w t row (drained k) t' v = (k ≡ row.doc_id) × (t' ≡ try_remove w t k) × (v ≢ none)
RowEffect cfg w t row (stale_skipped k) t' v =
    (k ≡ row.doc_id)
    × (w.metadata row.path ≢ some (record { mtime = row.mtime; len = row.size }))
    × (t' ≡ try_remove w t k)
    × (v ≡ none)
RowEffect cfg w t row (permanent_skip k) t' v =
    (k ≡ row.doc_id)
    × ((is_rejected cfg w row ≡ true) ⊎ (w.run_ocr row.path row.ext ≡ nothing))
    × ((err : Text) × (t' ≡ try_mark_failure w t k err))
    × (v ≡ none)
RowEffect cfg w t row (failed k err) t' v =
    (k ≡ row.doc_id)
    × (((w.run_ocr row.path row.ext ≡ error err) × (t' ≡ try_mark_failure w t k err))
        ⊎ ((body : Text) × (w.run_ocr row.path row.ext ≡ text body)
            × (w.sink_error ≢ none)
            × (t' ≡ t)))
    × (v ≡ none)

-- What a tick leaves of the table: without a job, all of it and no write; else what the job of the row
-- leaves that the queue gives next.
abbrev pub Effect : OcrWorkerCfg → World → Table → TickOutcome → Table → Option Write → Type 0
Effect cfg w t o t' v =
    ((((o ≡ no_idle) × (w.idle ≡ false))
        ⊎ ((o ≡ empty) × ((w.peek_ok ≡ false) ⊎ (peek_next t cfg.max_attempts w.now ≡ none))))
      × (t' ≡ t)
      × (v ≡ none))
    ⊎ ((row : OcrQueueRow) × (peek_next t cfg.max_attempts w.now ≡ some row)
        × RowEffect cfg w t row o t' v)

abbrev HasEffect : OcrWorkerCfg → World → Table → OcrQueueRow → Ticked → Type 0
HasEffect cfg w t row r = RowEffect cfg w t row r.outcome r.table r.write

other_file :
    (row : OcrQueueRow) (md : Metadata)
    → is_same_file row md ≡ false
    → md ≢ record { mtime = row.mtime; len = row.size }
unfolding is_same_file
other_file row md h z =
    let same = eq_ℤ_refl row.mtime in
    let m = ap (λ (x : Metadata). x.mtime) z in
    let l = ap (λ (x : Metadata). x.len) z in absurd (ground arith)

write_back-RowEffect :
    (cfg : OcrWorkerCfg) (w : World) (t : Table) (row : OcrQueueRow) (body : Text)
    → w.run_ocr row.path row.ext ≡ text body
    → HasEffect cfg w t row (write_back w t row body)
unfolding write_back
write_back-RowEffect cfg w t row body read = go w.sink_error refl
  where
    go : (o : Option Text) → w.sink_error ≡ o → HasEffect cfg w t row (write_back w t row body)
    go none e = rw (e, write_back) (refl, refl, λ z. cc)
    go (some x) e = rw (e, write_back) (refl, inr (body, read, (λ z. cc), refl), refl)

on_text-RowEffect :
    (cfg : OcrWorkerCfg) (w : World) (t : Table) (row : OcrQueueRow) (body : Text)
    → w.run_ocr row.path row.ext ≡ text body
    → HasEffect cfg w t row (on_text w t row body)
unfolding on_text try_mark_failure
on_text-RowEffect cfg w t row body read = elim (Bool-cases w.idle_after) [
  | inr e ↦
      let step : on_text w t row body ≡ record { outcome = no_idle; table = t; write = none } =
        rw e in
      subst (HasEffect cfg w t row) (sym step) (e, refl, refl)
  | inl e ↦
      let step : on_text w t row body
          ≡ elim (w.metadata row.path) [ none ↦ skipped | some md ↦ chosen (is_same_file row md) ] =
        rw e in
      subst (HasEffect cfg w t row) (sym step) (go (w.metadata row.path) refl)
]
  where
    skipped : Ticked
    skipped = record {
      outcome = stale_skipped row.doc_id;
      table = try_remove w t row.doc_id;
      write = none;
    }

    chosen : Bool → Ticked
    chosen b = if b then write_back w t row body else skipped

    pick :
        (md : Metadata)
        → w.metadata row.path ≡ some md
        → HasEffect cfg w t row (chosen (is_same_file row md))
    pick md m = elim (Bool-cases (is_same_file row md)) [
      | inl e ↦ rw e (write_back-RowEffect cfg w t row body read)
      | inr e ↦ rw e (refl, (λ z. other_file row md e (ground arith)), refl, refl)
    ]

    go :
        (o : Option Metadata)
        → w.metadata row.path ≡ o
        → HasEffect cfg w t row (elim o [ none ↦ skipped | some md ↦ chosen (is_same_file row md) ])
    go none m = (refl, (λ z. cc), refl, refl)
    go (some md) m = pick md m

run_job-RowEffect :
    (cfg : OcrWorkerCfg) (w : World) (t : Table) (row : OcrQueueRow)
    → HasEffect cfg w t row (run_job cfg w t row)
unfolding run_job
run_job-RowEffect cfg w t row = elim (Bool-cases (is_rejected cfg w row)) [
  | inl e ↦ rw (e, run_job) (refl, inl e, (_, refl), refl)
  | inr e ↦ rw (e, run_job) (go (w.run_ocr row.path row.ext) refl)
]
  where
    go :
        (r : OcrResult)
        → w.run_ocr row.path row.ext ≡ r
        → HasEffect cfg w t row (on_result w t row r)
    go (text body) e = unfold on_result in on_text-RowEffect cfg w t row body e
    go nothing e = unfold on_result in (refl, inr e, (_, refl), refl)
    go (error x) e = unfold on_result in (refl, inl (e, refl), refl)

-- Without a job, since the system is busy or the queue has none, a tick changes nothing. Else it takes
-- the row that the queue gives next. A drained or stale row is removed, and only the first is written;
-- for a skipped row, and one that OCR failed on, a failure is counted; a row whose text the writer
-- refuses stays as it was; and so does a row when the system is busy after OCR. A statement that fails
-- leaves the table too.
pub tick_once-Effect :
    (cfg : OcrWorkerCfg) (w : World) (t : Table)
    → let r = tick_once cfg w t in Effect cfg w t r.outcome r.table r.write
unfolding tick_once is_rejected
tick_once-Effect cfg w t = elim (Bool-cases w.idle) [
  | inr e ↦
      let step : tick_once cfg w t ≡ idle_tick no_idle = rw e in
      subst Goal (sym step) (inl (inl (refl, e), refl, refl))
  | inl e ↦ elim (Bool-cases w.peek_ok) [
    | inr f ↦
        let step : tick_once cfg w t ≡ idle_tick empty = rw (e, f) in
        subst Goal (sym step) (inl (inr (refl, inl f), refl, refl))
    | inl f ↦ elim (Option-cases (peek_next t cfg.max_attempts w.now)) [
      | inl g ↦
          let step : tick_once cfg w t ≡ idle_tick empty = rw (e, f, g) in
          subst Goal (sym step) (inl (inr (refl, inr g), refl, refl))
      | inr (row, g) ↦
          let step : tick_once cfg w t ≡ run_job cfg w t row = rw (e, f, g) in
          subst Goal (sym step) (inr (row, g, run_job-RowEffect cfg w t row))
    ]
  ]
]
  where
    Goal : Ticked → Type 0
    Goal r = Effect cfg w t r.outcome r.table r.write

    idle_tick : TickOutcome → Ticked
    idle_tick o = record { outcome = o; table = t; write = none }
