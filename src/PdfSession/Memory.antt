-- ===== src/PdfSession/Memory.antt =====
-- The memory that the textures take.
use lixun.Common.{
  ℕ, zero, suc, ◌+◌, ◌-◌, ◌≤◌, ◌<◌, none, some, List, [], ◌∷◌, ◌++◌, ◌≡◌, ◌⊎◌, ap, arith, inl, inr,
  Bool-cases, Option-cases, ltb, length, length-append,
}
use lixun.PdfSession.{
  Entry, Key, CachedTexture, Lru, cache_budget_bytes, pop_until_fits, put_counted, insert_entry,
}

-- The bytes of the entries, together.
abbrev pub bytes_of : List Entry → ℕ
bytes_of [] = 0
bytes_of ((k, e) ∷ es) = e.bytes + bytes_of es

-- What the documentation of `LruCache` says of the entries: `put` sets the entry in front and takes out
-- the one that it replaces, or, at capacity, the one that was used last of all; `get` moves the entry in
-- front; `pop_lru` takes out the last.
pub record IsLru {C : Type 0} (lru : Lru C) : Type 0 where
  pub clear_empty : (c : C) → lru.entries (lru.clear c) ≡ []
  pub get_bytes :
      (k : Key) (c : C) → bytes_of (lru.entries (lru.get k c).0) ≡ bytes_of (lru.entries c)
  pub put_replaces :
      (k : Key) (e old : CachedTexture) (c : C)
      → (lru.put k e c).1 ≡ some old
      → (before after : List Entry) × (lru.entries c ≡ before ++ ((k, old) ∷ after))
        × (lru.entries (lru.put k e c).0 ≡ (k, e) ∷ (before ++ after))
  pub put_adds :
      (k : Key) (e : CachedTexture) (c : C)
      → (lru.put k e c).1 ≡ none
      → (kept dropped : List Entry) × (lru.entries c ≡ kept ++ dropped)
        × (lru.entries (lru.put k e c).0 ≡ (k, e) ∷ kept)
  pub pop_none : (c : C) → lru.pop_lru c ≡ none → lru.entries c ≡ []
  pub pop_last :
      (c c' : C) (e : CachedTexture)
      → lru.pop_lru c ≡ some (e, c')
      → (k : Key) × (lru.entries c ≡ lru.entries c' ++ ((k, e) ∷ []))

pub bytes_of-append : (xs ys : List Entry) → bytes_of (xs ++ ys) ≡ bytes_of xs + bytes_of ys
bytes_of-append [] ys = omega arith
bytes_of-append ((k, e) ∷ xs) ys = omega (arith, bytes_of-append xs ys)

module _ {C : Type 0} (lru : Lru C) (laws : IsLru lru) where
  open laws use {clear_empty, get_bytes, put_replaces, put_adds, pop_none, pop_last}

  abbrev cached_bytes : C → ℕ
  cached_bytes c = bytes_of (lru.entries c)

  -- The count covers the cache, and keeps to the budget or the cache is empty.
  abbrev pub Fits : C → ℕ → Type 0
  Fits c bytes = (cached_bytes c ≤ bytes) × ((bytes ≤ cache_budget_bytes) ⊎ (cached_bytes c ≡ 0))

  pop_until_fits-Fits :
      (rounds : ℕ) (c : C) (bytes : ℕ)
      → length (lru.entries c) < rounds
      → cached_bytes c ≤ bytes
      → let (c', bytes') = pop_until_fits lru rounds c bytes in Fits c' bytes'
  unfolding pop_until_fits
  pop_until_fits-Fits zero c bytes l h = absurd (omega arith)
  pop_until_fits-Fits (suc rounds) c bytes l h = elim (Bool-cases (ltb cache_budget_bytes bytes)) [
    | inr small ↦ rw small (h, inl (ground arith))
    | inl large ↦ elim (Option-cases (lru.pop_lru c)) [
      | inl e ↦ rw (large, e, pop_until_fits) (h, inr (ap bytes_of (pop_none c e)))
      | inr ((t, c'), e) ↦
          let (k, split) = pop_last c c' t e in
          rw (large, e, pop_until_fits)
            (pop_until_fits-Fits rounds c' (bytes - t.bytes)
              (let n : length (lru.entries c) ≡ length (lru.entries c' ++ ((k, t) ∷ [])) =
                  ap length split in
                omega (arith, n, length-append (lru.entries c') ((k, t) ∷ [])))
              (let b : cached_bytes c ≡ bytes_of (lru.entries c' ++ ((k, t) ∷ [])) =
                  ap bytes_of split in
                omega (arith, b, bytes_of-append (lru.entries c') ((k, t) ∷ []))))
    ]
  ]

  put_counted-covers :
      (k : Key) (e : CachedTexture) (c : C) (bytes : ℕ)
      → cached_bytes c ≤ bytes
      → let (c', bytes') = put_counted lru k e c bytes in cached_bytes c' ≤ bytes'
  unfolding put_counted
  put_counted-covers k e c bytes h = elim (Option-cases (lru.put k e c).1) [
    | inl n ↦
        let (kept, dropped, before, now) = put_adds k e c n in
        rw (n, put_counted)
          (let b : cached_bytes c ≡ bytes_of (kept ++ dropped) = ap bytes_of before in
            let a : cached_bytes (lru.put k e c).0 ≡ e.bytes + bytes_of kept = ap bytes_of now in
            omega (arith, a, b, bytes_of-append kept dropped))
    | inr (old, o) ↦
        let (front, back, before, now) = put_replaces k e old c o in
        rw (o, put_counted)
          (let b : cached_bytes c ≡ bytes_of (front ++ ((k, old) ∷ back)) = ap bytes_of before in
            let a : cached_bytes (lru.put k e c).0 ≡ e.bytes + bytes_of (front ++ back) =
              ap bytes_of now in
            omega
              (arith, a, b, bytes_of-append front ((k, old) ∷ back), bytes_of-append front back))
  ]

  pub insert_entry-Fits :
      (k : Key) (e : CachedTexture) (c : C) (bytes : ℕ)
      → cached_bytes c ≤ bytes
      → let (c', bytes') = insert_entry lru k e c bytes in Fits c' bytes'
  unfolding insert_entry
  insert_entry-Fits k e c bytes h =
      let (c', bytes') = put_counted lru k e c bytes in
      pop_until_fits-Fits (suc (length (lru.entries c'))) c' bytes' (omega arith)
        (put_counted-covers k e c bytes h)

  -- The memory of the textures is within the budget.
  pub Fits-bound : (c : C) (bytes : ℕ) → Fits c bytes → cached_bytes c ≤ cache_budget_bytes
  Fits-bound c bytes (h, inl small) = omega arith
  Fits-bound c bytes (h, inr none_left) = omega arith
