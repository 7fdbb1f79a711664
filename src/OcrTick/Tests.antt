-- ===== src/OcrTick/Tests.antt =====
-- The OCR worker on small inputs.
use lixun.Common.{
  ℕ, zero, suc, ◌+◌, ◌%◌, ◌^◌, ◌≤◌, max, arith, Option, none, some, Bool, true, false, List, [],
  ◌∷◌, ◌≡◌, ◌⊎◌, refl, length, if◌then◌else◌,
}
use lixun.Common.Text.{Text, codes, text_eq}
use lixun.Common.Int.{ℤ, pos}
use lixun.OcrQueue.{OcrQueueRow, Table, new, enqueue, peek_next, pending, first_of_all}
use lixun.OcrTick.{
  World, OcrWorkerCfg, OcrResult, text, nothing, error, FilterResult, accepts, Write, Ticked,
  tick_once, OcrWorkerStats, Batched, run_batch, run_job,
}
use lixun.OcrTick.Writes.{IsJustified, tick_once-IsJustified, Effect, tick_once-Effect}
use lixun.OcrTick.Progress.{IsWorking, ticks, ticks-pending}

abbrev cfg : OcrWorkerCfg
cfg = record {
  interval = 5000;
  max_attempts = 2;
  jobs_per_tick = 3;
  throttle = none;
  content_filter_enabled = true;
}

abbrev page : Text
page = codes "/page.pdf"

abbrev scan : Text
scan = codes "/scan.png"

-- The first file yields a text, the second an error.
abbrev ocr : Text → Text → OcrResult
ocr path ext = if text_eq path page then text (codes "hello") else error (codes "boom")

abbrev idle_world : World
idle_world = record {
  idle = true;
  idle_after = true;
  peek_ok = true;
  now = pos 100;
  content_filter = λ path. accepts;
  run_ocr = ocr;
  metadata = λ path. some (record { mtime = pos 7; len = 10 });
  sink_error = none;
  statement_ok = true;
}

abbrev jobs : Table
jobs =
    enqueue (enqueue [] (new page page (pos 7) 10 (codes "pdf") (pos 50)))
      (new scan scan (pos 7) 10 (codes "png") (pos 60))

abbrev the_write : Write
the_write = record { doc_id = page; body = codes "hello"; expected_mtime = pos 7 }

written : (tick_once cfg idle_world jobs).write ≡ some the_write
unfolding tick_once peek_next first_of_all pending enqueue lixun.OcrQueue.find text_eq new
    lixun.OcrTick.is_rejected lixun.OcrQueue.row_from_sql lixun.OcrQueue.comes_before
    lixun.Common.Int.◌-ℤ◌ lixun.OcrTick.is_same_file lixun.Common.Int.wrap_i64
written = refl

tick_once-IsJustified_example : IsJustified cfg idle_world jobs the_write
tick_once-IsJustified_example = tick_once-IsJustified cfg idle_world jobs the_write written

tick_once-Effect_example :
    let r = tick_once cfg idle_world jobs in Effect cfg idle_world jobs r.outcome r.table r.write
tick_once-Effect_example = tick_once-Effect cfg idle_world jobs

works : IsWorking idle_world
works = record {
  idle = refl;
  idle_after = refl;
  peek_ok = refl;
  sink_ok = refl;
  statement_ok = refl;
}

enough : (n : ℕ) → n ≡ 4 → n ≤ 4
enough n e = omega (arith, e)

ticks-pending_example : pending 2 (ticks 4 cfg (λ i. idle_world) jobs) ≡ []
unfolding lixun.OcrTick.Progress.work enqueue lixun.OcrQueue.find text_eq new
ticks-pending_example = ticks-pending 4 cfg (λ i. idle_world) jobs (λ i. works) (enough _ refl)

abbrev no_drains : OcrWorkerStats
no_drains = record { drained_total = 0; last_drain_at = pos 0 }
