-- ===== src/OcrTick/Batch.antt =====
-- What a batch of jobs adds to the statistics and hands to the index writer.
use lixun.Common.{
  ℕ, zero, suc, ◌+◌, ◌%◌, ◌^◌, ◌≤◌, ◌<◌, max, true, false, Option, none, some, [], ◌∷◌, ◌≡◌, ◌⊎◌,
  refl, ◌∙◌, arith, inl, inr, Option-cases, length, ap,
}
use lixun.Common.Int.{ℤ}
use lixun.OcrQueue.{OcrQueueRow, Table}
use lixun.OcrTick.{
  World, OcrWorkerCfg, TickOutcome, no_idle, empty, drained, stale_skipped, permanent_skip, failed,
  Write, tick_once, OcrWorkerStats, Batched, is_drained, add_write, batch_from, run_batch,
}
use lixun.OcrTick.Writes.{tick_once-Effect, RowEffect}

-- An outcome is `drained` exactly where a text was written.
abbrev Agrees : TickOutcome → Option Write → Type 0
Agrees o v =
    ((is_drained o ≡ true) × ((x : Write) × (v ≡ some x))) ⊎ ((is_drained o ≡ false) × (v ≡ none))

RowEffect-Agrees :
    (cfg : OcrWorkerCfg) (w : World) (t : Table) (row : OcrQueueRow) (o : TickOutcome) (t' : Table)
    (v : Option Write)
    → RowEffect cfg w t row o t' v
    → Agrees o v
unfolding is_drained
RowEffect-Agrees cfg w t row no_idle t' v (a, b, c) = inr (refl, c)
RowEffect-Agrees cfg w t row empty t' v e = elim e [ ]
RowEffect-Agrees cfg w t row (drained k) t' v (a, b, c) = elim (Option-cases v) [
  | inl n ↦ absurd (c n)
  | inr s ↦ inl (refl, s)
]
RowEffect-Agrees cfg w t row (stale_skipped k) t' v (a, b, c, d) = inr (refl, d)
RowEffect-Agrees cfg w t row (permanent_skip k) t' v (a, b, c, d) = inr (refl, d)
RowEffect-Agrees cfg w t row (failed k err) t' v (a, b, c) = inr (refl, c)

tick_once-Agrees :
    (cfg : OcrWorkerCfg) (w : World) (t : Table)
    → Agrees (tick_once cfg w t).outcome (tick_once cfg w t).write
unfolding is_drained
tick_once-Agrees cfg w t = elim (tick_once-Effect cfg w t) [
  | inl (inl (o, i), t', v) ↦ inr (ap is_drained o, v)
  | inl (inr (o, i), t', v) ↦ inr (ap is_drained o, v)
  | inr (row, taken, e) ↦ RowEffect-Agrees cfg w t row _ (tick_once cfg w t).table _ e
]

-- `k` texts were written between `b` and `b'`, and the statistics count them.
abbrev Counts : ℕ → Batched → Batched → Type 0
Counts k b b' =
    (length b'.writes ≡ k + length b.writes)
    × (b'.stats.drained_total ≡ (b.stats.drained_total + k) % 2 ^ 64)

add_mod : (a k : ℕ) → ((a + 1) % 2 ^ 64 + k) % 2 ^ 64 ≡ (a + suc k) % 2 ^ 64
add_mod a k = omega arith

batch_from-Counts :
    (n : ℕ) (cfg : OcrWorkerCfg) (worlds : ℕ → World) (clock : ℤ) (i : ℕ) (b : Batched)
    → b.stats.drained_total < 2 ^ 64
    → (k : ℕ) × (k ≤ n) × Counts k b (batch_from n cfg worlds clock i b)
unfolding batch_from add_write
batch_from-Counts zero cfg worlds clock i b h = (0, omega arith, (omega arith, omega arith))
batch_from-Counts (suc n) cfg worlds clock i b h = elim (tick_once-Agrees cfg (worlds i) b.table) [
  | inl (d, (x, e)) ↦
      rw (d, e, batch_from, add_write)
        (let (k, l, (m, s)) =
            batch_from-Counts n cfg worlds clock (suc i)
              (record {
                stats = record {
                  drained_total = (b.stats.drained_total + 1) % 2 ^ 64;
                  last_drain_at = clock;
                };
                table = (tick_once cfg (worlds i) b.table).table;
                writes = x ∷ b.writes;
              })
              (omega arith) in
          (suc k, omega arith, (omega (arith, m), s ∙ add_mod b.stats.drained_total k)))
  | inr (d, e) ↦ rw (d, e, batch_from, add_write) (0, omega arith, (omega arith, omega arith))
]

-- A batch counts the texts that it hands to the writer, each one once and modulo 2^64, and takes
-- `jobs_per_tick` jobs at most, or one where `jobs_per_tick` is 0.
run_batch-Counts :
    (cfg : OcrWorkerCfg) (worlds : ℕ → World) (clock : ℤ) (stats : OcrWorkerStats) (t : Table)
    → stats.drained_total < 2 ^ 64
    → let b = run_batch cfg worlds clock stats t in
      (length b.writes ≤ max cfg.jobs_per_tick 1)
      × (b.stats.drained_total ≡ (stats.drained_total + length b.writes) % 2 ^ 64)
unfolding run_batch
run_batch-Counts cfg worlds clock stats t h =
    let (k, l, (e, s)) =
      batch_from-Counts (max cfg.jobs_per_tick 1) cfg worlds clock 0
        (record { stats = stats; table = t; writes = [] }) h in
    (omega arith, rw (s, e) (omega arith))
