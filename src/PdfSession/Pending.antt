-- ===== src/PdfSession/Pending.antt =====
-- Renders that are in flight or whose texture is cached, submitted again.
use lixun.Common.{
  ℕ, true, false, List, ◌∷◌, ◌≡◌, ◌⊎◌, refl, sym, ◌∙◌, ap, arith, inl, inr, Bool-cases,
}
use lixun.Common.Float.{Float}
use lixun.PdfSession.{
  Key, key_eq, is_in, Lru, Session, RenderJob, claim, canonical_job, is_cached, submit_visible,
}

is_in-cons : (k : Key) (ks : List Key) → is_in k (k ∷ ks) ≡ true
unfolding is_in key_eq
is_in-cons (p, b) ks = ground arith

module _ {F C : Type 0} (fl : Float F) (ceil : F → ℕ) (lru : Lru C) where
  -- A session that will not take this render: its texture is cached or it is in flight.
  abbrev pub IsTaken : Session F C → RenderJob → Type 0
  IsTaken s job =
      let j = canonical_job fl ceil lru s job in
      (is_cached fl ceil lru s j ≡ true) ⊎ (is_in (j.page_index, j.zoom_bucket) s.pending ≡ true)

  -- The session once the host has the job and its slot is taken.
  abbrev pub with_job : Session F C → RenderJob → Session F C
  with_job s j = record s {
    pending = (j.page_index, j.zoom_bucket) ∷ s.pending;
    submitted = j ∷ s.submitted;
  }

  -- A session that has neither the texture nor the render.
  abbrev pub IsFree : Session F C → RenderJob → Type 0
  IsFree s job =
      let j = canonical_job fl ceil lru s job in
      (is_cached fl ceil lru s j ≡ false) × (is_in (j.page_index, j.zoom_bucket) s.pending ≡ false)

  claim_cases :
      (s : Session F C) (j : RenderJob)
      → ((is_in (j.page_index, j.zoom_bucket) s.pending ≡ true) × (claim fl ceil lru s j ≡ s))
        ⊎ ((is_in (j.page_index, j.zoom_bucket) s.pending ≡ false)
            × (claim fl ceil lru s j ≡ with_job s j))
  unfolding claim
  claim_cases s j = elim (Bool-cases (is_in (j.page_index, j.zoom_bucket) s.pending)) [
    | inl e ↦ inl (e, rw (e, claim) refl)
    | inr e ↦ inr (e, rw (e, claim) refl)
  ]

  -- `submit_visible` gives the host the job for the canonical bucket and takes its slot, unless the
  -- texture is cached or the slot is taken; then it changes nothing.
  submit_visible_lem :
      (s : Session F C) (job : RenderJob)
      → let s' = submit_visible fl ceil lru s job in
        (IsTaken s job × (s' ≡ s))
        ⊎ (IsFree s job × (s' ≡ with_job s (canonical_job fl ceil lru s job)))
  unfolding submit_visible
  submit_visible_lem s job =
      elim (Bool-cases (is_cached fl ceil lru s (canonical_job fl ceil lru s job))) [
        | inl c ↦ inl (inl c, rw (c, submit_visible) refl)
        | inr c ↦ elim (claim_cases s (canonical_job fl ceil lru s job)) [
          | inl (p, e) ↦ inl (inr p, rw (c, e, submit_visible) refl)
          | inr (p, e) ↦ inr ((c, p), rw (c, e, submit_visible) refl)
        ]
      ]

  submit_visible-taken :
      (s : Session F C) (job : RenderJob) → IsTaken s job → submit_visible fl ceil lru s job ≡ s
  submit_visible-taken s job t = elim (submit_visible_lem s job) [
    | inl (_, e) ↦ e
    | inr ((c, p), _) ↦ elim t [ inl x ↦ cc (c, x) | inr x ↦ cc (p, x) ]
  ]

  -- A page that is drawn again submits nothing new: `submit_visible` twice is `submit_visible` once.
  submit_visible-submit_visible :
      (s : Session F C) (job : RenderJob)
      → submit_visible fl ceil lru (submit_visible fl ceil lru s job) job
        ≡ submit_visible fl ceil lru s job
  unfolding canonical_job
  submit_visible-submit_visible s job = elim (submit_visible_lem s job) [
    | inl (_, e) ↦ ap (λ (x : Session F C). submit_visible fl ceil lru x job) e
    | inr (_, e) ↦
        let j : RenderJob = canonical_job fl ceil lru s job in
        ap (λ (x : Session F C). submit_visible fl ceil lru x job) e
        ∙ submit_visible-taken (with_job s j) job
            (inr (is_in-cons (j.page_index, j.zoom_bucket) s.pending))
        ∙ sym e
  ]
