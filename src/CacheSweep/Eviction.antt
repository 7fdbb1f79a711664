-- ===== src/CacheSweep/Eviction.antt =====
-- Which files the eviction takes.
use mathlib.Core.List.{Perm, append_assoc, reverse-cons}
use lixun.Common.{
  ℕ, ◌+◌, ◌-◌, ◌%◌, ◌^◌, ◌≤◌, ◌<◌, true, false, List, [], ◌∷◌, ◌++◌, map, reverse, ◌≡◌, ◌⊎◌, refl,
  sym, ◌∙◌, ap, arith, inl, inr, Bool-cases, leb, leb→le, lt→ltb, length,
}
use lixun.Common.Text.{Text}
use lixun.Common.Int.{ltb_ℤ}
use lixun.Common.Sort.{All, insert, sort, sort-perm, sort-IsSorted, IsSorted}
use lixun.CacheSweep.{
  CacheFile, Swept, Removal, removed, regular, sum_sizes, older, evict_file, evict_from, evict,
}

-- Specification: the sizes together, as a number without bound.
abbrev pub total : List CacheFile → ℕ
total [] = 0
total (f ∷ fs) = f.size + total fs

sum_sizes-total : (fs : List CacheFile) → total fs < 2 ^ 64 → sum_sizes fs ≡ total fs
unfolding sum_sizes
sum_sizes-total [] h = refl
sum_sizes-total (f ∷ fs) h = omega (arith, sum_sizes-total fs (omega arith))

-- An eviction from `fs`: the files `gone` from its front are deleted and counted, the files `kept`
-- fit, and with the last of `gone` they would not.
pub record IsEviction (max_bytes : ℕ) (fs : List CacheFile) (s s' : Swept) : Type 0 where
  pub gone : List CacheFile
  pub kept : List CacheFile
  pub whole : gone ++ kept ≡ fs
  pub fits : total kept ≤ max_bytes
  pub needed :
      (gone ≡ [])
      ⊎ ((before : List CacheFile) × (last : CacheFile) × (gone ≡ before ++ (last ∷ []))
          × (max_bytes < total (last ∷ kept)))
  pub counted : s'.outcome.evicted_files ≡ s.outcome.evicted_files + length gone
  pub deleted : s'.deleted ≡ reverse (map (λ (f : CacheFile). f.path) gone) ++ s.deleted

-- The counters once one file is gone.
evict_one : CacheFile → Swept → Swept
evict_one f s = record {
  outcome = record s.outcome {
    evicted_files = s.outcome.evicted_files + 1;
    evicted_bytes = (s.outcome.evicted_bytes + f.size) % 2 ^ 64;
  };
  deleted = f.path ∷ s.deleted;
}

IsEviction-cons :
    (max_bytes : ℕ) (f : CacheFile) (fs : List CacheFile) (s s' : Swept)
    → max_bytes < total (f ∷ fs)
    → IsEviction max_bytes fs (evict_one f s) s'
    → IsEviction max_bytes (f ∷ fs) s s'
unfolding evict_one
IsEviction-cons max_bytes f fs s s' h e = record {
  gone = f ∷ e.gone;
  kept = e.kept;
  whole = ap (λ (r : List CacheFile). f ∷ r) e.whole;
  fits = e.fits;
  needed = elim e.needed [
    | inl none_gone ↦
        let same : e.kept ≡ fs =
          sym (ap (λ (g : List CacheFile). g ++ e.kept) none_gone) ∙ e.whole in
        inr ([], f, ap (λ (g : List CacheFile). f ∷ g) none_gone, rw same h)
    | inr (before, last, split, over) ↦
        inr (f ∷ before, last, ap (λ (g : List CacheFile). f ∷ g) split, over)
  ];
  counted = omega (arith, e.counted);
  deleted =
      e.deleted
      ∙ rw (reverse-cons f.path (map (λ (g : CacheFile). g.path) e.gone)) (
          sym (
            append_assoc (reverse (map (λ (g : CacheFile). g.path) e.gone)) (f.path ∷ [])
              s.deleted));
}

evict_file-one :
    (remove_file : Text → Removal) (f : CacheFile) (fs : List CacheFile) (s : Swept)
    → remove_file f.path ≡ removed
    → evict_file remove_file f (total (f ∷ fs), s) ≡ (total fs, evict_one f s)
unfolding evict_file evict_one
evict_file-one remove_file f fs s ok =
    let e : total (f ∷ fs) - f.size ≡ total fs = omega arith in rw (ok, e, evict_file) refl

evict_from-IsEviction :
    (remove_file : Text → Removal) (max_bytes : ℕ) (fs : List CacheFile) (s : Swept)
    → ((p : Text) → remove_file p ≡ removed)
    → IsEviction max_bytes fs s (evict_from remove_file max_bytes fs (total fs, s))
unfolding evict_from
evict_from-IsEviction remove_file max_bytes [] s ok = record {
  gone = [];
  kept = [];
  whole = refl;
  fits = omega arith;
  needed = inl refl;
  counted = omega arith;
  deleted = refl;
}
evict_from-IsEviction remove_file max_bytes (f ∷ fs) s ok =
    elim (Bool-cases (leb (total (f ∷ fs)) max_bytes)) [
      | inl small ↦ rw small (record {
        gone = [];
        kept = f ∷ fs;
        whole = refl;
        fits = leb→le _ _ small;
        needed = inl refl;
        counted = omega arith;
        deleted = refl;
      })
      | inr large ↦ rw large (
          rw (evict_file-one remove_file f fs s (ok f.path)) (
            IsEviction-cons max_bytes f fs s _ (ground arith)
              (evict_from-IsEviction remove_file max_bytes fs (evict_one f s) ok)))
    ]

older-asym : (f g : CacheFile) → older f g ≡ true → older g f ≡ false
unfolding older
older-asym f g h = ground arith

older-neg_trans :
    (f g h : CacheFile)
    → Unit {0}
    → Unit {0}
    → Unit {0}
    → older f g ≡ false
    → older g h ≡ false
    → older f h ≡ false
unfolding older
older-neg_trans f g h _ _ _ p q = ground arith

All-unit : (fs : List CacheFile) → All (λ (f : CacheFile). Unit {0}) fs
All-unit [] = tt
All-unit (f ∷ fs) = (tt, All-unit fs)

total-insert : (f : CacheFile) (fs : List CacheFile) → total (insert older f fs) ≡ f.size + total fs
unfolding insert
total-insert f [] = refl
total-insert f (g ∷ fs) = elim (Bool-cases (older g f)) [
  | inl e ↦ rw e (omega (arith, total-insert f fs))
  | inr e ↦ rw e refl
]

total-sort : (fs : List CacheFile) → total (sort older fs) ≡ total fs
unfolding sort
total-sort [] = refl
total-sort (f ∷ fs) = omega (arith, total-insert f (sort older fs), total-sort fs)

-- Where the regular files are too large together and can all be removed, the eviction removes the
-- oldest of them: no more than it takes for the rest to fit `max_bytes`, and no younger file before an
-- older one.
pub evict_lem :
    (remove_file : Text → Removal) (max_bytes : ℕ) (files : List CacheFile) (s : Swept)
    → ((p : Text) → remove_file p ≡ removed)
    → 0 < max_bytes
    → max_bytes < total (regular files)
    → total (regular files) < 2 ^ 64
    → (by_age : List CacheFile) × Perm by_age (regular files)
      × IsSorted (λ (f g : CacheFile). ltb_ℤ f.mtime_secs g.mtime_secs) by_age
      × IsEviction max_bytes by_age s (evict remove_file max_bytes files s)
unfolding evict older
evict_lem remove_file max_bytes files s ok pos over small = (
  sort older (regular files),
  sort-perm older (regular files),
  sort-IsSorted older (λ (f : CacheFile). Unit {0}) older-asym older-neg_trans (regular files)
      (All-unit (regular files)),
  (let e : sum_sizes (regular files) ≡ total (sort older (regular files)) =
        sum_sizes-total (regular files) small ∙ sym (total-sort (regular files)) in
      rw
        (
          lt→ltb 0 max_bytes pos,
          sum_sizes-total (regular files) small,
          lt→ltb _ _ over,
          sym (total-sort (regular files)),
        )
        (evict_from-IsEviction remove_file max_bytes (sort older (regular files)) s ok)),
)
