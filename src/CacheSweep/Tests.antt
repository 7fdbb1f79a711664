-- ===== src/CacheSweep/Tests.antt =====
-- A sweep on small inputs.
use mathlib.Core.List.{Perm}
use lixun.Common.{
  ℕ, ◌<◌, ◌^◌, arith, Option, none, some, Bool, true, false, List, [], ◌∷◌, ◌≡◌, refl,
}
use lixun.Common.Text.{Text, codes}
use lixun.Common.Int.{ltb_ℤ, ℤ, pos}
use lixun.Common.Sort.{IsSorted}
use lixun.CacheSweep.{
  CacheSweepCfg, CacheFile, WalkEntry, Removal, removed, Swept, nothing_done, evict, regular,
  sweep_once,
}
use lixun.CacheSweep.Eviction.{IsEviction, evict_lem}

abbrev file : Text → ℤ → ℕ → CacheFile
file path mtime size = record { path = path; mtime_secs = mtime; size = size; is_tmp = false }

abbrev files : List CacheFile
files =
    file (codes "b") (pos 20) 60 ∷ file (codes "a") (pos 10) 50 ∷ file (codes "c") (pos 30) 40 ∷ []

abbrev untouched : Swept
untouched = record { outcome = nothing_done; deleted = [] }

abbrev always : Text → Removal
always p = removed

evict_example :
    (by_age : List CacheFile) × Perm by_age (regular files)
    × IsSorted (λ (f g : CacheFile). ltb_ℤ f.mtime_secs g.mtime_secs) by_age
    × IsEviction 100 by_age untouched (evict always 100 files untouched)
unfolding regular
evict_example =
    evict_lem always 100 files untouched (λ p. refl) (omega arith) (omega arith) (omega arith)

oldest_goes : (evict always 100 files untouched).deleted ≡ codes "a" ∷ []
unfolding evict lixun.Common.Sort.sort
oldest_goes = refl

entry : Text → Text → ℤ → ℕ → WalkEntry
entry dir name mtime size = record {
  path = dir;
  file_name = some name;
  metadata = some (mtime, size);
}

cfg : CacheSweepCfg
cfg = record {
  root_exists = true;
  max_bytes = 100;
  tmp_max_age = 5;
  zombie_max_attempts = 3;
  zombie_max_age = 50;
}

-- An old temporary file goes, a new one stays, and no other file need go.
tmp_goes :
    (sweep_once cfg none always (pos 100) (
      entry (codes "t") (codes ".tmp-1") (pos 10) 9
      ∷ entry (codes "u") (codes ".tmp-2") (pos 98) 9
      ∷ entry (codes "f") (codes "f") (pos 1) 9
      ∷ [])).deleted
    ≡ codes "t" ∷ []
unfolding sweep_once entry cfg lixun.Common.Text.starts_with lixun.Common.Int.wrap_i64
    lixun.Common.Int.saturating_sub_i64
tmp_goes = refl
