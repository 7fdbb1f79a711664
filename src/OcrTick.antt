-- ===== src/OcrTick.antt =====
-- crates/lixun-indexer/src/ocr_tick.rs: the idle-gated worker that takes one OCR job at a time from the
-- queue (OcrQueue) and hands the text to the index writer. What the tick meets outside the queue (the
-- idle gate, the content filter, the OCR run, the file's metadata, the writer, SQLite errors) is a
-- `World`, one for each tick. Log lines are left out.
pub mod Writes
pub mod Progress
pub mod Batch
mod Tests
use lixun.Common.{
  ℕ, zero, suc, ◌+◌, ◌%◌, ◌^◌, max, Bool, true, false, ◌&&◌, Option, none, some, List, [], ◌∷◌,
  ◌++◌, if◌then◌else◌, ◌==◌,
}
use lixun.Common.Text.{Text, codes}
use lixun.Common.Int.{ℤ, eq_ℤ}
use lixun.OcrQueue.{OcrQueueRow, Table, peek_next, remove, mark_failure}

pub data OcrResult : Type 0 where
  text : Text → OcrResult
  nothing : OcrResult
  error : Text → OcrResult

-- `content_filter_check`.
pub data FilterResult : Type 0 where
  accepts rejects unknown : FilterResult

pub record Metadata : Type 0 where
  pub mtime : ℤ
  pub len : ℕ

pub record World : Type 0 where
  pub idle : Bool  -- the gate before the job
  pub idle_after : Bool  -- the gate after the OCR run
  pub peek_ok : Bool
  pub now : ℤ  -- SQLite's clock
  pub content_filter : Text → FilterResult
  pub run_ocr : Text → Text → OcrResult  -- of a path and an extension
  pub metadata : Text → Option Metadata
  pub sink_error : Option Text
  pub statement_ok : Bool  -- whether `remove` or `mark_failure` succeeds

pub record OcrWorkerCfg : Type 0 where
  pub interval : ℕ  -- in milliseconds
  pub max_attempts : ℕ
  pub jobs_per_tick : ℕ
  pub throttle : Option (ℤ × Bool)
  pub content_filter_enabled : Bool

pub data TickOutcome : Type 0 where
  no_idle empty : TickOutcome
  drained stale_skipped permanent_skip : Text → TickOutcome
  failed : Text → Text → TickOutcome

-- A call of `upsert_body` that succeeded.
pub record Write : Type 0 where
  pub doc_id : Text
  pub body : Text
  pub expected_mtime : ℤ

pub record Ticked : Type 0 where
  pub outcome : TickOutcome
  pub table : Table
  pub write : Option Write

abbrev unchanged : TickOutcome → Table → Ticked
unchanged o t = record { outcome = o; table = t; write = none }

-- A failing `queue.remove` or `queue.mark_failure` is logged and leaves the table.
unfoldable pub try_remove : World → Table → Text → Table
try_remove w t k = if w.statement_ok then remove t k else t

unfoldable pub try_mark_failure : World → Table → Text → Text → Table
try_mark_failure w t k err = if w.statement_ok then mark_failure t k err else t

-- The file is as it was when the row was enqueued: the text goes to the writer.
unfoldable pub write_back : World → Table → OcrQueueRow → Text → Ticked
unfolding try_remove
write_back w t row body = elim w.sink_error [
  | none ↦ record {
    outcome = drained row.doc_id;
    table = try_remove w t row.doc_id;
    write = some (record { doc_id = row.doc_id; body = body; expected_mtime = row.mtime });
  }
  | some e ↦ unchanged (failed row.doc_id (codes "upsert_body: " ++ e)) t
]

unfoldable pub is_same_file : OcrQueueRow → Metadata → Bool
is_same_file row md = eq_ℤ md.mtime row.mtime && md.len == row.size

-- `Ok(Some(text))`.
unfoldable pub on_text : World → Table → OcrQueueRow → Text → Ticked
unfolding write_back try_remove
on_text w t row body =
    if w.idle_after
    then elim (w.metadata row.path) [
      | none ↦ unchanged (stale_skipped row.doc_id) (try_remove w t row.doc_id)
      | some md ↦
          if is_same_file row md
          then write_back w t row body
          else unchanged (stale_skipped row.doc_id) (try_remove w t row.doc_id)
    ]
    else unchanged no_idle t

unfoldable pub on_result : World → Table → OcrQueueRow → OcrResult → Ticked
unfolding on_text try_mark_failure
on_result w t row (text body) = on_text w t row body
on_result w t row nothing =
    unchanged (permanent_skip row.doc_id)
      (try_mark_failure w t row.doc_id (codes "ocr returned empty (e.g. below min_side_px)"))
on_result w t row (error e) = unchanged (failed row.doc_id e) (try_mark_failure w t row.doc_id e)

-- The content filter, where it is enabled; one that fails is passed over.
unfoldable pub is_rejected : OcrWorkerCfg → World → OcrQueueRow → Bool
is_rejected cfg w row =
    cfg.content_filter_enabled
    && elim (w.content_filter row.path) [ rejects ↦ true | accepts ↦ false | unknown ↦ false ]

unfoldable pub run_job : OcrWorkerCfg → World → Table → OcrQueueRow → Ticked
unfolding on_result try_mark_failure
run_job cfg w t row =
    if is_rejected cfg w row
    then unchanged (permanent_skip row.doc_id)
        (try_mark_failure w t row.doc_id (codes "content_filter: low-complexity image"))
    else on_result w t row (w.run_ocr row.path row.ext)

unfoldable pub tick_once : OcrWorkerCfg → World → Table → Ticked
unfolding run_job
tick_once cfg w t =
    if w.idle
    then if w.peek_ok
      then elim (peek_next t cfg.max_attempts w.now) [
        | none ↦ unchanged empty t
        | some row ↦ run_job cfg w t row
      ]
      else unchanged empty t
    else unchanged no_idle t

-- `OcrWorkerStats`.
pub record OcrWorkerStats : Type 0 where
  pub drained_total : ℕ  -- AtomicU64
  pub last_drain_at : ℤ

-- The hot subset that is read again before each batch.
pub record OcrCfgUpdate : Type 0 where
  pub interval : ℕ
  pub jobs_per_tick : ℕ
  pub throttle : Option (ℤ × Bool)

unfoldable pub refresh : OcrWorkerCfg → OcrCfgUpdate → OcrWorkerCfg
refresh cfg upd = record cfg {
  interval = upd.interval;
  jobs_per_tick = upd.jobs_per_tick;
  throttle = upd.throttle;
}

pub record Batched : Type 0 where
  pub stats : OcrWorkerStats
  pub table : Table
  pub writes : List Write

unfoldable pub is_drained : TickOutcome → Bool
is_drained (drained k) = true
is_drained _ = false

unfoldable pub add_write : Option Write → List Write → List Write
add_write none ws = ws
add_write (some w) ws = w ∷ ws

-- The jobs of one wake-up, in the world `worlds i` at the `i`th, until one is not drained. `clock` is
-- the second that is stored with a drained job.
unfoldable pub batch_from : ℕ → OcrWorkerCfg → (ℕ → World) → ℤ → ℕ → Batched → Batched
unfolding is_drained add_write
batch_from zero cfg worlds clock i b = b
batch_from (suc n) cfg worlds clock i b =
    let r = tick_once cfg (worlds i) b.table in
    elim (is_drained r.outcome) [
      | true ↦ batch_from n cfg worlds clock (suc i) (record {
        stats = record {
          drained_total = (b.stats.drained_total + 1) % 2 ^ 64;
          last_drain_at = clock;
        };
        table = r.table;
        writes = add_write r.write b.writes;
      })
      | false ↦ record b { table = r.table; writes = add_write r.write b.writes }
    ]

unfoldable pub run_batch : OcrWorkerCfg → (ℕ → World) → ℤ → OcrWorkerStats → Table → Batched
unfolding batch_from
run_batch cfg worlds clock stats t =
    batch_from (max cfg.jobs_per_tick 1) cfg worlds clock 0
      (record { stats = stats; table = t; writes = [] })
