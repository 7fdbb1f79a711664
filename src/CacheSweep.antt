-- ===== src/CacheSweep.antt =====
-- crates/lixun-indexer/src/cache_sweep.rs: one pass over the cache of extracted texts. It removes the
-- temporary files that are too old, then the oldest files until the rest fits `max_bytes`, and reaps
-- zombies from the OCR queue. The walk's listing, what `remove_file` answers for each path and the
-- reaper are parameters. Log lines are left out.
pub mod Eviction
mod Tests
use lixun.Common.{
  ℕ, suc, ◌+◌, ◌-◌, ◌%◌, ◌^◌, Bool, true, false, not, ◌&&◌, Option, none, some, List, [], ◌∷◌, ◌++◌,
  if◌then◌else◌, ltb, leb,
}
use lixun.Common.Text.{Text, codes, starts_with}
use lixun.Common.Int.{ℤ, pos, ltb_ℤ, leb_ℤ, wrap_i64, saturating_sub_i64}
use lixun.Common.Sort.{sort}

pub record CacheSweepCfg : Type 0 where
  pub root_exists : Bool
  pub max_bytes : ℕ
  pub tmp_max_age : ℕ  -- in seconds, like `zombie_max_age`
  pub zombie_max_attempts : ℕ
  pub zombie_max_age : ℕ

pub record SweepOutcome : Type 0 where
  pub evicted_files : ℕ
  pub evicted_bytes : ℕ
  pub tmp_cleaned : ℕ
  pub zombies_reaped : ℕ

abbrev pub nothing_done : SweepOutcome
nothing_done = record { evicted_files = 0; evicted_bytes = 0; tmp_cleaned = 0; zombies_reaped = 0 }

pub record CacheFile : Type 0 where
  pub path : Text
  pub mtime_secs : ℤ
  pub size : ℕ
  pub is_tmp : Bool

-- An entry of the walk: its path, its file name where that is UTF-8, and its metadata where they can be
-- read, with an mtime of 0 where there is none.
pub record WalkEntry : Type 0 where
  pub path : Text
  pub file_name : Option Text
  pub metadata : Option (ℤ × ℕ)

-- What `remove_file` answers.
pub data Removal : Type 0 where
  removed not_found refused : Removal

unfoldable pub has_tmp_name : Option Text → Bool
has_tmp_name none = false
has_tmp_name (some n) = starts_with n (codes ".tmp-")

unfoldable pub gather : List WalkEntry → List CacheFile
unfolding has_tmp_name
gather [] = []
gather (e ∷ es) =
    let rest = gather es in
    elim e.metadata [
      | none ↦ rest
      | some (mtime, size) ↦
          record {
            path = e.path;
            mtime_secs = mtime;
            size = size;
            is_tmp = has_tmp_name e.file_name;
          }
          ∷ rest
    ]

-- What a sweep has done, with the paths that `remove_file` took away.
pub record Swept : Type 0 where
  pub outcome : SweepOutcome
  pub deleted : List Text

unfoldable pub is_stale_tmp : ℤ → ℕ → CacheFile → Bool
is_stale_tmp now max_age f =
    f.is_tmp && leb_ℤ (wrap_i64 (pos max_age)) (saturating_sub_i64 now f.mtime_secs)

unfoldable pub clean_tmps : (Text → Removal) → ℤ → ℕ → List CacheFile → Swept → Swept
unfolding is_stale_tmp
clean_tmps remove_file now max_age [] s = s
clean_tmps remove_file now max_age (f ∷ fs) s =
    let cleaned : Swept = elim (remove_file f.path) [
      | removed ↦ record {
        outcome = record s.outcome { tmp_cleaned = s.outcome.tmp_cleaned + 1 };
        deleted = f.path ∷ s.deleted;
      }
      | not_found ↦ s
      | refused ↦ s
    ] in
    clean_tmps remove_file now max_age fs (if is_stale_tmp now max_age f then cleaned else s)

unfoldable pub regular : List CacheFile → List CacheFile
regular [] = []
regular (f ∷ fs) = let rest = regular fs in if f.is_tmp then rest else f ∷ rest

-- `map(|f| f.size).sum()` on `u64`.
unfoldable pub sum_sizes : List CacheFile → ℕ
sum_sizes [] = 0
sum_sizes (f ∷ fs) = (f.size + sum_sizes fs) % 2 ^ 64

unfoldable pub older : CacheFile → CacheFile → Bool
older f g = ltb_ℤ f.mtime_secs g.mtime_secs

-- What the eviction of one file makes of `remaining` and of the counters.
unfoldable pub evict_file : (Text → Removal) → CacheFile → ℕ × Swept → ℕ × Swept
evict_file remove_file f (remaining, s) = elim (remove_file f.path) [
  | removed ↦ (
    remaining - f.size,
    record {
      outcome = record s.outcome {
        evicted_files = s.outcome.evicted_files + 1;
        evicted_bytes = (s.outcome.evicted_bytes + f.size) % 2 ^ 64;
      };
      deleted = f.path ∷ s.deleted;
    },
  )
  | not_found ↦ (remaining - f.size, s)
  | refused ↦ (remaining, s)
]

unfoldable pub evict_from : (Text → Removal) → ℕ → List CacheFile → ℕ × Swept → Swept
unfolding evict_file
evict_from remove_file max_bytes [] (remaining, s) = s
evict_from remove_file max_bytes (f ∷ fs) (remaining, s) =
    let after = evict_from remove_file max_bytes fs (evict_file remove_file f (remaining, s)) in
    if leb remaining max_bytes then s else after

unfoldable pub evict : (Text → Removal) → ℕ → List CacheFile → Swept → Swept
unfolding regular sum_sizes older evict_from
evict remove_file max_bytes files s =
    let candidates = regular files in
    let total = sum_sizes candidates in
    if ltb 0 max_bytes && ltb max_bytes total
    then evict_from remove_file max_bytes (sort older candidates) (total, s)
    else s

-- An error of the reaper is logged.
unfoldable pub reap : Option (ℕ → ℤ → Option ℕ) → CacheSweepCfg → ℤ → Swept → Swept
reap none cfg now s = s
reap (some reaper) cfg now s =
    elim (reaper cfg.zombie_max_attempts
      (saturating_sub_i64 now (wrap_i64 (pos cfg.zombie_max_age)))) [
        | none ↦ s
        | some n ↦ record s { outcome = record s.outcome { zombies_reaped = n } }
      ]

unfoldable pub sweep_once :
    CacheSweepCfg → Option (ℕ → ℤ → Option ℕ) → (Text → Removal) → ℤ → List WalkEntry → Swept
unfolding gather clean_tmps evict reap
sweep_once cfg reaper remove_file now entries =
    let s : Swept = record { outcome = nothing_done; deleted = [] } in
    if cfg.root_exists
    then (let files = gather entries in
        reap reaper cfg now (
          evict remove_file cfg.max_bytes files
            (clean_tmps remove_file now cfg.tmp_max_age files s)))
    else s
