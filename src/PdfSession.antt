-- ===== src/PdfSession.antt =====
-- crates/lixun-preview-pdf/src/document_session.rs: the texture cache of an open PDF, the set of the
-- renders in flight, and the jobs handed to the render host. `LruCache` is of the lru crate: an interface
-- with what its documentation says of the order of the entries.
pub mod Memory
pub mod Calls
pub mod Buckets
pub mod Pending
mod Tests
use lixun.Common.{
  ℕ, zero, suc, ◌+◌, ◌-◌, ◌*◌, ◌/◌, ◌%◌, ◌^◌, min, Bool, true, false, not, ◌&&◌, ◌||◌, Option, none,
  some, List, [], ◌∷◌, ◌++◌, ◌≡◌, ◌≤◌, ◌⊎◌, if◌then◌else◌, ltb, leb, ◌==◌, get_elem?, length,
}
use lixun.Common.Text.{Text}
use lixun.Common.Float.{Float}

abbrev pub cache_budget_bytes : ℕ
cache_budget_bytes = 64 * 1024 * 1024

abbrev pub max_render_bucket : ℕ
max_render_bucket = 16

abbrev pub max_single_entry_bytes : ℕ
max_single_entry_bytes = 16 * 1024 * 1024

abbrev pub usize_max : ℕ
usize_max = 2 ^ 64 - 1

unfoldable pub effective_bucket : ℕ → ℕ
effective_bucket req = min req max_render_bucket

pub record CachedTexture : Type 0 where
  pub texture : ℕ  -- an id of the texture's memory
  pub width : ℕ
  pub height : ℕ
  pub bytes : ℕ

-- A page and a bucket.
abbrev pub Key : Type 0
Key = ℕ × ℕ

unfoldable pub key_eq : Key → Key → Bool
key_eq (p, b) (q, c) = p == q && b == c

unfoldable pub is_in : Key → List Key → Bool
unfolding key_eq
is_in k [] = false
is_in k (j ∷ ks) = key_eq j k || is_in k ks

unfoldable pub remove_key : Key → List Key → List Key
unfolding key_eq
remove_key k [] = []
remove_key k (j ∷ ks) = let rest = remove_key k ks in if key_eq j k then rest else j ∷ rest

abbrev pub Entry : Type 0
Entry = Key × CachedTexture

-- `entries` is what `iter` yields: the most recently used entry first.
pub record Lru (C : Type 0) : Type 0 where
  pub clear : C → C
  pub entries : C → List Entry
  pub get : Key → C → C × Option CachedTexture
  pub peek : Key → C → Option CachedTexture
  pub put : Key → CachedTexture → C → C × Option CachedTexture
  pub pop_lru : C → Option (CachedTexture × C)

pub record PageSize (F : Type 0) : Type 0 where
  pub width_pt : F
  pub height_pt : F

-- `ceil` is `.ceil() as usize`.
module _ {F : Type 0} (fl : Float F) (ceil : F → ℕ) where
  -- The pixels of a length in points: `pt * BASE_DPI / POINTS_PER_INCH * zoom`.
  unfoldable pub pixels : F → ℕ → ℕ
  pixels pt bucket = ceil (
      fl.mul (fl.div (fl.mul pt (fl.decimal 960 1)) (fl.decimal 720 1))
        (fl.div (fl.of_nat bucket) (fl.decimal 40 1)))

  -- The size of an ARGB32 texture with Cairo's stride, in saturating arithmetic.
  unfoldable pub texture_bytes : PageSize F → ℕ → ℕ
  unfolding pixels
  texture_bytes size bucket =
      let padded = min (min (pixels size.width_pt bucket * 4) usize_max + 3) usize_max in
      min (padded / 4 * 4 * pixels size.height_pt bucket) usize_max

  -- The loop from `bucket` down to 1.
  unfoldable pub scan_buckets : PageSize F → ℕ → ℕ
  unfolding texture_bytes
  scan_buckets size zero = 1
  scan_buckets size (suc b) =
      let smaller = scan_buckets size b in
      if leb (texture_bytes size (suc b)) max_single_entry_bytes then suc b else smaller

  unfoldable pub max_bucket_for_page : PageSize F → ℕ
  unfolding scan_buckets
  max_bucket_for_page size = scan_buckets size max_render_bucket

  unfoldable pub effective_bucket_for_page : ℕ → PageSize F → ℕ
  unfolding max_bucket_for_page
  effective_bucket_for_page req size = min req (max_bucket_for_page size)

  -- `canonical_bucket_for_page`.
  unfoldable pub canonical_bucket : List (PageSize F) → ℕ → ℕ → ℕ
  unfolding effective_bucket_for_page effective_bucket
  canonical_bucket sizes page req = elim (get_elem? sizes page) [
    | some size ↦ effective_bucket_for_page req size
    | none ↦ effective_bucket req
  ]

pub record RenderJob : Type 0 where
  pub epoch : ℕ
  pub page_index : ℕ
  pub zoom_bucket : ℕ

-- `submitted` holds the jobs that the host was given, the last one first.
pub record Session (F C : Type 0) : Type 0 where
  pub path : Text
  pub page_sizes : List (PageSize F)
  pub epoch : ℕ
  pub cache : C
  pub cache_bytes : ℕ
  pub pending : List Key
  pub submitted : List RenderJob

module _ {C : Type 0} (lru : Lru C) where
  -- `while *bytes > CACHE_BUDGET_BYTES`; `rounds` bounds the pops.
  unfoldable pub pop_until_fits : ℕ → C → ℕ → C × ℕ
  pop_until_fits zero cache bytes = (cache, bytes)
  pop_until_fits (suc rounds) cache bytes =
      if ltb cache_budget_bytes bytes
      then elim (lru.pop_lru cache) [
        | none ↦ (cache, bytes)
        | some (evicted, cache') ↦ pop_until_fits rounds cache' (bytes - evicted.bytes)
      ]
      else (cache, bytes)

  -- `put`, and the bytes of what it replaced.
  unfoldable pub put_counted : Key → CachedTexture → C → ℕ → C × ℕ
  put_counted key entry cache bytes =
      let (cache', old) = lru.put key entry cache in
      elim old [
        | none ↦ (cache', bytes + entry.bytes)
        | some o ↦ (cache', bytes - o.bytes + entry.bytes)
      ]

  unfoldable pub insert_entry : Key → CachedTexture → C → ℕ → C × ℕ
  unfolding put_counted pop_until_fits
  insert_entry key entry cache bytes =
      let (cache', bytes') = put_counted key entry cache bytes in
      pop_until_fits (suc (length (lru.entries cache'))) cache' bytes'

-- The nearest of the page's entries to a bucket; of two at one distance the first.
unfoldable pub nearest : ℕ → ℕ → Option (ℕ × CachedTexture) → List Entry → Option CachedTexture
nearest page target none [] = none
nearest page target (some (dist, e)) [] = some e
nearest page target best (((p, b), e) ∷ es) =
    let dist = (b - target) + (target - b) in
    let keep = nearest page target best es in
    let take_it = nearest page target (some (dist, e)) es in
    if p == page
    then elim best [ none ↦ take_it | some (bd, _) ↦ if leb bd dist then keep else take_it ]
    else keep

module _ {F C : Type 0} (fl : Float F) (ceil : F → ℕ) (lru : Lru C) where
  -- After the new document has been opened; `none` is a document that does not open.
  unfoldable pub replace_path :
      Session F C → Text → Option (List (PageSize F)) → Option (Session F C)
  replace_path s new_path none = none
  replace_path s new_path (some sizes) = some (record s {
    path = new_path;
    page_sizes = sizes;
    epoch = (s.epoch + 1) % 2 ^ 64;
    cache = lru.clear s.cache;
    cache_bytes = 0;
    pending = [];
  })

  unfoldable pub get_cached : Session F C → ℕ → ℕ → Session F C × Option CachedTexture
  unfolding canonical_bucket
  get_cached s page bucket =
      let (cache', found) =
        lru.get (page, canonical_bucket fl ceil s.page_sizes page bucket) s.cache in
      (record s { cache = cache' }, found)

  unfoldable pub get_best_cached : Session F C → ℕ → ℕ → Session F C × Option CachedTexture
  unfolding nearest get_cached canonical_bucket
  get_best_cached s page target =
      let (s', found) = get_cached s page target in
      elim found [
        | some exact ↦ (s', some exact)
        | none ↦ (
          s',
          nearest page (canonical_bucket fl ceil s.page_sizes page target) none
              (lru.entries s'.cache),
        )
      ]

  unfoldable pub insert_cached : Session F C → ℕ → ℕ → CachedTexture → Session F C
  unfolding canonical_bucket insert_entry remove_key
  insert_cached s page bucket entry =
      let key : Key = (page, canonical_bucket fl ceil s.page_sizes page bucket) in
      let freed : Session F C = record s { pending = remove_key key s.pending } in
      if ltb max_single_entry_bytes entry.bytes
      then freed
      else (let (cache', bytes') = insert_entry lru key entry s.cache s.cache_bytes in
          record freed { cache = cache'; cache_bytes = bytes' })

  -- The end of both submissions: the dedup slot, then the host.
  unfoldable pub claim : Session F C → RenderJob → Session F C
  unfolding is_in
  claim s job =
      let key : Key = (job.page_index, job.zoom_bucket) in
      if is_in key s.pending
      then s
      else record s { pending = key ∷ s.pending; submitted = job ∷ s.submitted }

  unfoldable pub canonical_job : Session F C → RenderJob → RenderJob
  unfolding canonical_bucket
  canonical_job s job = record job {
    zoom_bucket = canonical_bucket fl ceil s.page_sizes job.page_index job.zoom_bucket;
  }

  abbrev pub is_cached : Session F C → RenderJob → Bool
  is_cached s job = elim (lru.peek (job.page_index, job.zoom_bucket) s.cache) [
    | none ↦ false
    | some _ ↦ true
  ]

  unfoldable pub submit_visible : Session F C → RenderJob → Session F C
  unfolding canonical_job claim
  submit_visible s job =
      if is_cached s (canonical_job s job) then s else claim s (canonical_job s job)

  unfoldable pub is_over_budget : Session F C → RenderJob → Bool
  unfolding texture_bytes
  is_over_budget s job = elim (get_elem? s.page_sizes job.page_index) [
    | none ↦ false
    | some size ↦
        let bytes = texture_bytes fl ceil size job.zoom_bucket in
        ltb max_single_entry_bytes bytes
        || ltb (cache_budget_bytes * 7 / 8) (min (s.cache_bytes + bytes) usize_max)
  ]

  unfoldable pub submit_prefetch : Session F C → RenderJob → Session F C
  unfolding canonical_job claim is_over_budget
  submit_prefetch s job =
      if is_cached s (canonical_job s job)
      then s
      else if is_over_budget s (canonical_job s job)
      then s
      else claim s (canonical_job s job)

  unfoldable pub clear_pending : Session F C → ℕ → ℕ → Session F C
  unfolding canonical_bucket remove_key
  clear_pending s page bucket = record s {
    pending = remove_key (page, canonical_bucket fl ceil s.page_sizes page bucket) s.pending;
  }
