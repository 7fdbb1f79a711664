-- ===== src/PdfSession/Tests.antt =====
-- A session on small inputs, with a list for the cache: 512 entries, the most recently used first.
use lixun.Common.{
  ◌⊎◌, ◌<◌, ℕ, ◌+◌, ◌/◌, ◌≤◌, true, Option, none, some, List, [], ◌∷◌, ◌++◌, ◌≡◌, refl, sym, ◌∙◌,
  ap, arith, inl, inr, Bool-cases, Option-cases, if◌then◌else◌, take, drop, take-append-drop,
}
use lixun.Common.Text.{codes}
use lixun.Fixtures.{decimals}
use lixun.PdfSession.{
  CachedTexture, Key, Entry, key_eq, Lru, PageSize, RenderJob, Session, max_bucket_for_page,
  effective_bucket_for_page, max_render_bucket, cache_budget_bytes,
}
use lixun.PdfSession.Memory.{bytes_of, bytes_of-append, IsLru}
use lixun.PdfSession.Calls.{Op, insert, visible, lookup_best, perform_all, perform_all-bound}
use lixun.PdfSession.Buckets.{IsLargest, max_bucket_for_page-IsLargest}

find_entry : Key → List Entry → Option CachedTexture
find_entry k [] = none
find_entry k ((j, e) ∷ es) = let rest = find_entry k es in if key_eq j k then some e else rest

drop_entry : Key → List Entry → List Entry
drop_entry k [] = []
drop_entry k ((j, e) ∷ es) = let rest = drop_entry k es in if key_eq j k then es else (j, e) ∷ rest

pop_last : List Entry → Option (CachedTexture × List Entry)
pop_last [] = none
pop_last ((k, e) ∷ es) = elim (pop_last es) [
  | none ↦ some (e, [])
  | some (t, rest) ↦ some (t, (k, e) ∷ rest)
]

put_entry : Key → CachedTexture → List Entry → List Entry × Option CachedTexture
put_entry k e c = elim (find_entry k c) [
  | none ↦ ((k, e) ∷ take 511 c, none)
  | some old ↦ ((k, e) ∷ drop_entry k c, some old)
]

get_entry : Key → List Entry → List Entry × Option CachedTexture
get_entry k c = elim (find_entry k c) [
  | none ↦ (c, none)
  | some e ↦ ((k, e) ∷ drop_entry k c, some e)
]

abbrev list_lru : Lru (List Entry)
list_lru = record {
  clear = λ c. [];
  entries = λ c. c;
  get = get_entry;
  peek = find_entry;
  put = put_entry;
  pop_lru = pop_last;
}

eq_of_key_eq : (j k : Key) → key_eq j k ≡ true → j ≡ k
unfolding key_eq
eq_of_key_eq (a, b) (c, d) h = ground arith

find_entry-split :
    (k : Key) (old : CachedTexture) (c : List Entry)
    → find_entry k c ≡ some old
    → (before after : List Entry) × (c ≡ before ++ ((k, old) ∷ after))
      × (drop_entry k c ≡ before ++ after)
unfolding find_entry drop_entry
find_entry-split k old [] h = cc
find_entry-split k old ((j, e) ∷ es) h = elim (Bool-cases (key_eq j k)) [
  | inl s ↦ ([], es, rw (eq_of_key_eq j k s) (ground arith), rw s refl)
  | inr s ↦
      let (before, after, whole, dropped) = find_entry-split k old es (rw s at h) in
      (
        (j, e) ∷ before,
        after,
        ap (λ (r : List Entry). (j, e) ∷ r) whole,
        rw s (ap (λ (r : List Entry). (j, e) ∷ r) dropped),
      )
]

get_entry-bytes : (k : Key) (c : List Entry) → bytes_of (get_entry k c).0 ≡ bytes_of c
unfolding get_entry
get_entry-bytes k c = elim (Option-cases (find_entry k c)) [
  | inl n ↦ rw (n, get_entry) refl
  | inr (old, f) ↦
      let (before, after, whole, dropped) = find_entry-split k old c f in
      let d : bytes_of (drop_entry k c) ≡ bytes_of (before ++ after) = ap bytes_of dropped in
      let w : bytes_of c ≡ bytes_of (before ++ ((k, old) ∷ after)) = ap bytes_of whole in
      rw (f, get_entry)
        (omega
          (arith, d, w, bytes_of-append before after, bytes_of-append before ((k, old) ∷ after)))
]

put_entry-replaces :
    (k : Key) (e old : CachedTexture) (c : List Entry)
    → (put_entry k e c).1 ≡ some old
    → (before after : List Entry) × (c ≡ before ++ ((k, old) ∷ after))
      × ((put_entry k e c).0 ≡ (k, e) ∷ (before ++ after))
unfolding put_entry
put_entry-replaces k e old c h = elim (Option-cases (find_entry k c)) [
  | inl n ↦ cc (rw (n, put_entry) at h)
  | inr (t, f) ↦
      let same : some t ≡ some old = rw (f, put_entry) at h in
      let (before, after, whole, dropped) = find_entry-split k old c (f ∙ same) in
      (before, after, whole, rw (f, put_entry) (ap (λ (r : List Entry). (k, e) ∷ r) dropped))
]

put_entry-adds :
    (k : Key) (e : CachedTexture) (c : List Entry)
    → (put_entry k e c).1 ≡ none
    → (kept dropped : List Entry) × (c ≡ kept ++ dropped) × ((put_entry k e c).0 ≡ (k, e) ∷ kept)
unfolding put_entry
put_entry-adds k e c h = elim (Option-cases (find_entry k c)) [
  | inl n ↦ (take 511 c, drop 511 c, sym (take-append-drop 511 c), rw (n, put_entry) refl)
  | inr (t, f) ↦ cc (rw (f, put_entry) at h)
]

pop_last-none : (c : List Entry) → pop_last c ≡ none → c ≡ []
unfolding pop_last
pop_last-none [] h = refl
pop_last-none ((k, e) ∷ es) h = elim (Option-cases (pop_last es)) [
  | inl n ↦ cc (rw n at h)
  | inr (p, f) ↦ cc (rw f at h)
]

pop_last-split :
    (c c' : List Entry) (e : CachedTexture)
    → pop_last c ≡ some (e, c')
    → (k : Key) × (c ≡ c' ++ ((k, e) ∷ []))
unfolding pop_last
pop_last-split [] c' e h = cc
pop_last-split ((k, t) ∷ es) c' e h = elim (Option-cases (pop_last es)) [
  | inl n ↦
      let same : some (t, []) ≡ some (e, c') = rw n at h in
      let no_more : c' ≡ [] = cc same in
      let last_one : t ≡ e = cc same in (k, rw (no_more, pop_last-none es n, last_one) refl)
  | inr ((u, rest), f) ↦
      let same : some (u, (k, t) ∷ rest) ≡ some (e, c') = rw f at h in
      let (j, split) = pop_last-split es rest u f in
      let others : c' ≡ (k, t) ∷ rest = cc same in
      let last_one : u ≡ e = cc same in
      (j, rw (others, ← last_one) (ap (λ (r : List Entry). (k, t) ∷ r) split))
]

list_lru-IsLru : IsLru list_lru
list_lru-IsLru = record {
  clear_empty = λ c. refl;
  get_bytes = get_entry-bytes;
  put_replaces = put_entry-replaces;
  put_adds = put_entry-adds;
  pop_none = pop_last-none;
  pop_last = pop_last-split;
}

texture : ℕ → CachedTexture
texture n = record { texture = n; width = 100; height = 100; bytes = 16000000 }

-- A session on a document of two pages, of 6 by 8 points and of unknown size.
abbrev session : Session ℕ (List Entry)
session = record {
  path = codes "/a.pdf";
  page_sizes = record { width_pt = 60000; height_pt = 80000 } ∷ [];
  epoch = 1;
  cache = [];
  cache_bytes = 0;
  pending = [];
  submitted = [];
}

abbrev ceiling : ℕ → ℕ
ceiling x = (x + 9999) / 10000

abbrev job : RenderJob
job = record { epoch = 1; page_index = 0; zoom_bucket = 40 }

abbrev calls : List (Op ℕ)
calls =
    visible job
    ∷ insert 0 1 (texture 0)
    ∷ insert 0 2 (texture 1)
    ∷ insert 0 3 (texture 2)
    ∷ insert 0 4 (texture 3)
    ∷ insert 0 5 (texture 4)
    ∷ lookup_best 0 4
    ∷ []

perform_all-bound_example :
    bytes_of (perform_all decimals ceiling list_lru calls session).cache ≤ cache_budget_bytes
perform_all-bound_example =
    perform_all-bound decimals ceiling list_lru list_lru-IsLru calls session refl refl

abbrev poster : PageSize ℕ
poster = record { width_pt = 20000000; height_pt = 30000000 }

max_bucket_for_page-IsLargest_example :
    let cap = max_bucket_for_page decimals ceiling poster in
    let bucket = effective_bucket_for_page decimals ceiling 20 poster in
    IsLargest decimals ceiling poster max_render_bucket cap
    × (((bucket ≡ 20) × (20 ≤ cap)) ⊎ ((bucket ≡ cap) × (cap < 20)))
max_bucket_for_page-IsLargest_example = max_bucket_for_page-IsLargest decimals ceiling poster 20
