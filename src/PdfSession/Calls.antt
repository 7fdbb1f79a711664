-- ===== src/PdfSession/Calls.antt =====
-- The memory of a session, whatever calls are made of it.
use lixun.Common.{
  ℕ, ◌≤◌, Option, none, some, List, [], ◌∷◌, ◌≡◌, arith, inl, inr, Bool-cases, Option-cases, ltb,
}
use lixun.Common.Text.{Text}
use lixun.Common.Float.{Float}
use lixun.PdfSession.{
  CachedTexture, Lru, cache_budget_bytes, max_single_entry_bytes, Session, PageSize, replace_path,
  get_cached, get_best_cached, insert_cached, claim, submit_visible, submit_prefetch, clear_pending,
  RenderJob, is_in, is_cached, canonical_job, is_over_budget, canonical_bucket,
}
use lixun.PdfSession.Memory.{bytes_of, IsLru, Fits, Fits-bound, insert_entry-Fits}

-- The calls that change a session.
pub data Op (F : Type 0) : Type 0 where
  replace : Text → Option (List (PageSize F)) → Op F
  lookup lookup_best : ℕ → ℕ → Op F
  insert : ℕ → ℕ → CachedTexture → Op F
  visible prefetch : RenderJob → Op F
  clear : ℕ → ℕ → Op F

module _ {F C : Type 0} (fl : Float F) (ceil : F → ℕ) (lru : Lru C) where
  unfoldable pub perform : Op F → Session F C → Session F C
  unfolding replace_path get_cached get_best_cached insert_cached submit_visible submit_prefetch
      clear_pending claim
  perform (replace path sizes) s = elim (replace_path fl ceil lru s path sizes) [
    | none ↦ s
    | some s' ↦ s'
  ]
  perform (lookup page bucket) s = (get_cached fl ceil lru s page bucket).0
  perform (lookup_best page bucket) s = (get_best_cached fl ceil lru s page bucket).0
  perform (insert page bucket entry) s = insert_cached fl ceil lru s page bucket entry
  perform (visible job) s = submit_visible fl ceil lru s job
  perform (prefetch job) s = submit_prefetch fl ceil lru s job
  perform (clear page bucket) s = clear_pending fl ceil lru s page bucket

  unfoldable pub perform_all : List (Op F) → Session F C → Session F C
  unfolding perform
  perform_all [] s = s
  perform_all (op ∷ ops) s = perform_all ops (perform op s)

  module _ (laws : IsLru lru) where
    open laws use {clear_empty, get_bytes}

    abbrev SessionFits : Session F C → Type 0
    SessionFits s = Fits lru laws s.cache s.cache_bytes

    claim-Fits :
        (s : Session F C) (job : RenderJob) → SessionFits s → SessionFits (claim fl ceil lru s job)
    unfolding claim
    claim-Fits s job h = elim (Bool-cases (is_in (job.page_index, job.zoom_bucket) s.pending)) [
      | inl e ↦ rw (e, claim) h
      | inr e ↦ rw (e, claim) h
    ]

    visible-Fits :
        (s : Session F C) (job : RenderJob)
        → SessionFits s
        → SessionFits (submit_visible fl ceil lru s job)
    unfolding submit_visible
    visible-Fits s job h =
        elim (Bool-cases (is_cached fl ceil lru s (canonical_job fl ceil lru s job))) [
          | inl e ↦ rw (e, submit_visible) h
          | inr e ↦ rw (e, submit_visible) (claim-Fits s (canonical_job fl ceil lru s job) h)
        ]

    prefetch-Fits :
        (s : Session F C) (job : RenderJob)
        → SessionFits s
        → SessionFits (submit_prefetch fl ceil lru s job)
    unfolding submit_prefetch
    prefetch-Fits s job h =
        elim (Bool-cases (is_cached fl ceil lru s (canonical_job fl ceil lru s job))) [
          | inl e ↦ rw (e, submit_prefetch) h
          | inr e ↦
              elim (Bool-cases (is_over_budget fl ceil lru s (canonical_job fl ceil lru s job))) [
                | inl o ↦ rw (e, o, submit_prefetch) h
                | inr o ↦
                    rw (e, o, submit_prefetch) (claim-Fits s (canonical_job fl ceil lru s job) h)
              ]
        ]

    get_cached-Fits :
        (s : Session F C) (page bucket : ℕ)
        → SessionFits s
        → SessionFits (get_cached fl ceil lru s page bucket).0
    unfolding get_cached
    get_cached-Fits s page bucket h =
        let e = get_bytes (page, canonical_bucket fl ceil s.page_sizes page bucket) s.cache in
        rw e h

    get_best_cached-Fits :
        (s : Session F C) (page bucket : ℕ)
        → SessionFits s
        → SessionFits (get_best_cached fl ceil lru s page bucket).0
    unfolding get_best_cached
    get_best_cached-Fits s page bucket h =
        elim (Option-cases (get_cached fl ceil lru s page bucket).1) [
          | inl e ↦ rw (e, get_best_cached) (get_cached-Fits s page bucket h)
          | inr (t, e) ↦ rw (e, get_best_cached) (get_cached-Fits s page bucket h)
        ]

    insert_cached-Fits :
        (s : Session F C) (page bucket : ℕ) (entry : CachedTexture)
        → SessionFits s
        → SessionFits (insert_cached fl ceil lru s page bucket entry)
    unfolding insert_cached
    insert_cached-Fits s page bucket entry h =
        elim (Bool-cases (ltb max_single_entry_bytes entry.bytes)) [
          | inl e ↦ rw (e, insert_cached) h
          | inr e ↦
              rw (e, insert_cached)
                (insert_entry-Fits lru laws
                  (page, canonical_bucket fl ceil s.page_sizes page bucket) entry s.cache
                  s.cache_bytes h.0)
        ]

    perform-Fits : (op : Op F) (s : Session F C) → SessionFits s → SessionFits (perform op s)
    unfolding perform replace_path clear_pending
    perform-Fits (replace path none) s h = h
    perform-Fits (replace path (some sizes)) s h =
        rw (clear_empty s.cache) (omega arith, inl (omega arith))
    perform-Fits (lookup page bucket) s h = get_cached-Fits s page bucket h
    perform-Fits (lookup_best page bucket) s h = get_best_cached-Fits s page bucket h
    perform-Fits (insert page bucket entry) s h = insert_cached-Fits s page bucket entry h
    perform-Fits (visible job) s h = visible-Fits s job h
    perform-Fits (prefetch job) s h = prefetch-Fits s job h
    perform-Fits (clear page bucket) s h = h

    perform_all-Fits :
        (ops : List (Op F)) (s : Session F C) → SessionFits s → SessionFits (perform_all ops s)
    unfolding perform_all
    perform_all-Fits [] s h = h
    perform_all-Fits (op ∷ ops) s h = perform_all-Fits ops (perform op s) (perform-Fits op s h)

    -- Whatever calls are made of a session whose cache starts empty, the textures in the cache never
    -- take more than the budget.
    pub perform_all-bound :
        (ops : List (Op F)) (s : Session F C)
        → lru.entries s.cache ≡ []
        → s.cache_bytes ≡ 0
        → bytes_of (lru.entries (perform_all ops s).cache) ≤ cache_budget_bytes
    perform_all-bound ops s e z =
        Fits-bound lru laws _ _ (perform_all-Fits ops s (rw e (omega arith), inl (omega arith)))
