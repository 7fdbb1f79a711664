-- ===== src/IndexService/Barriers.antt =====
-- What a reply tells its receiver, and that each sender gets one.
use lixun.Common.{
  ℕ, ◌-◌, false, ◌&&◌, List, [], ◌∷◌, ◌++◌, ◌≡◌, ◌⊎◌, refl, sym, arith, inl, inr, Bool-cases, ◌∙◌,
  leb,
}
use lixun.Common.Dict.{HasDistinctKeys}
use lixun.Common.Sort.{All}
use lixun.Index.{IndexConfig}
use lixun.Index.Spec.{IsTantivy, IsReliable}
use lixun.IndexService.{
  Mutation, upsert_one, delete_one, upsert_many, delete_many, delete_subtree,
  delete_source_instance, upsert_body, barrier, applied, shutdown, commit_now, Writer,
  is_empty_batch,
}
use lixun.IndexService.Apply.{apply_mutation}
use lixun.IndexService.Commit.{flush_post_commit, commit_and_flush, on_tick, commit_min_interval}
use lixun.IndexService.Events.{Event, received, tick, on_barrier, step, run}
use lixun.IndexService.Outcomes.{committed, do_commit-Outcome}
use lixun.IndexService.Waiting.{apply_mutation-IsWaiting}
use lixun.IndexService.Settled.{IsRewritable, IsIndexable, IsSettled, IsSettled-apply_mutation}

abbrev pub IsIndexableEvent : {W : Type 0} → IndexConfig W → Event → Type 0
IsIndexableEvent cfg (received m) = IsIndexable cfg m
IsIndexableEvent cfg tick = Unit

module _ {W : Type 0} (cfg : IndexConfig W) (laws : IsTantivy cfg.tantivy)
    (reliable : IsReliable cfg.tantivy) where
  -- Nothing was sent, or all that is staged is visible.
  abbrev pub IsAcked : Writer W → Writer W → Type 0
  IsAcked w w' =
      (w'.replies ≡ w.replies) ⊎ (laws.live w'.index.writer ≡ laws.staged w'.index.writer)

  flush-same :
      (w : Writer W)
      → let w' = flush_post_commit cfg w in
        (w'.index ≡ w.index) × (w'.dirty ≡ w.dirty) × (w'.replies ≡ w.replies)
  unfolding flush_post_commit
  flush-same w = elim (Bool-cases (is_empty_batch w.pending_batch)) [
    | inl e ↦ rw (e, flush_post_commit) (refl, refl, refl)
    | inr e ↦ rw (e, flush_post_commit) (refl, refl, refl)
  ]

  commit_and_flush-IsAcked :
      (now : ℕ) (w : Writer W)
      → IsSettled cfg laws reliable w
      → IsSettled cfg laws reliable (commit_and_flush cfg now w)
        × IsAcked w (commit_and_flush cfg now w)
  unfolding commit_and_flush
  commit_and_flush-IsAcked now w h = elim (do_commit-Outcome cfg laws now w) [
    | inl (ix, e, l, s) ↦
        let (i, d, r) = flush-same (committed now ix w) in
        let visible : laws.live ix.writer ≡ laws.staged ix.writer = l ∙ sym s in
        rw (e, commit_and_flush, i) (inr visible, inr visible)
    | inr (ix, e, l, s) ↦
        rw (e, commit_and_flush) (elim h [ inl x ↦ inl x | inr x ↦ inr (l ∙ x ∙ sym s) ], inl refl)
  ]

  on_tick-IsAcked :
      (now : ℕ) (w : Writer W)
      → IsSettled cfg laws reliable w
      → IsSettled cfg laws reliable (on_tick cfg now w) × IsAcked w (on_tick cfg now w)
  unfolding on_tick
  on_tick-IsAcked now w h =
      elim (Bool-cases (w.dirty && leb commit_min_interval (now - w.last_commit))) [
        | inl e ↦ rw (e, on_tick) (commit_and_flush-IsAcked now w h)
        | inr e ↦ rw (e, on_tick) (h, inl refl)
      ]

  on_barrier-IsAcked :
      (r : ℕ) (w : Writer W)
      → IsSettled cfg laws reliable w
      → IsSettled cfg laws reliable (on_barrier r w) × IsAcked w (on_barrier r w)
  unfolding on_barrier
  on_barrier-IsAcked r w h = elim (Bool-cases w.dirty) [
    | inl e ↦ rw (e, on_barrier) (inl refl, inl refl)
    | inr e ↦ elim h [ inl x ↦ absurd (ground arith) | inr x ↦ rw (e, on_barrier) (inr x, inr x) ]
  ]

  module _ (rewritable : IsRewritable cfg.json) (distinct : HasDistinctKeys cfg.plugins) where
    mutation-IsAcked :
        (m : Mutation) (w : Writer W)
        → IsIndexable cfg m
        → IsSettled cfg laws reliable w
        → IsSettled cfg laws reliable (apply_mutation cfg false m w)
          × IsAcked w (apply_mutation cfg false m w)
    mutation-IsAcked m w i h = (
      IsSettled-apply_mutation cfg laws reliable rewritable distinct false m w i h,
      inl (apply_mutation-IsWaiting cfg false m w).replies,
    )

    step-IsAcked :
        (now : ℕ) (e : Event) (w : Writer W)
        → IsIndexableEvent cfg e
        → IsSettled cfg laws reliable w
        → IsSettled cfg laws reliable (step cfg now e w) × IsAcked w (step cfg now e w)
    unfolding step
    step-IsAcked now tick w i h = on_tick-IsAcked now w h
    step-IsAcked now (received (barrier r)) w i h = on_barrier-IsAcked r w h
    step-IsAcked now (received (applied r)) w i h = (h, inl refl)
    step-IsAcked now (received (commit_now r)) w i h =
        commit_and_flush-IsAcked now
          (record w { pending_barriers = w.pending_barriers ++ (r ∷ []) }) h
    step-IsAcked now (received (upsert_one d)) w i h = mutation-IsAcked (upsert_one d) w i h
    step-IsAcked now (received (upsert_many ds)) w i h = mutation-IsAcked (upsert_many ds) w i h
    step-IsAcked now (received (delete_one k)) w i h = mutation-IsAcked (delete_one k) w i h
    step-IsAcked now (received (delete_many ks)) w i h = mutation-IsAcked (delete_many ks) w i h
    step-IsAcked now (received (delete_subtree p)) w i h = mutation-IsAcked (delete_subtree p) w i h
    step-IsAcked now (received (delete_source_instance k)) w i h =
        mutation-IsAcked (delete_source_instance k) w i h
    step-IsAcked now (received (upsert_body k b x)) w i h =
        mutation-IsAcked (upsert_body k b x) w i h
    step-IsAcked now (received shutdown) w i h = mutation-IsAcked shutdown w i h

    run-IsSettled :
        (es : List (ℕ × Event)) (w : Writer W)
        → All (λ (e : ℕ × Event). IsIndexableEvent cfg e.1) es
        → IsSettled cfg laws reliable w
        → IsSettled cfg laws reliable (run cfg es w)
    unfolding run
    run-IsSettled [] w a h = h
    run-IsSettled ((now, e) ∷ es) w a h =
        run-IsSettled es (step cfg now e w) a.1 (step-IsAcked now e w a.0 h).0

    -- Where reads of the index and additions to it do not fail, actions that were read from JSON can be
    -- written again, the schema's names are distinct, and the documents of the messages can be
    -- converted: an event of a run sends no reply to a barrier or a commit request, or it leaves the live
    -- documents those that are staged.
    pub run-IsAcked :
        (es : List (ℕ × Event)) (now : ℕ) (e : Event) (w : Writer W)
        → All (λ (x : ℕ × Event). IsIndexableEvent cfg x.1) es
        → IsIndexableEvent cfg e
        → IsSettled cfg laws reliable w
        → let w' = run cfg es w in
          let w'' = step cfg now e w' in
          (w''.replies ≡ w'.replies) ⊎ (laws.live w''.index.writer ≡ laws.staged w''.index.writer)
    run-IsAcked es now e w a i h = (step-IsAcked now e (run cfg es w) i (run-IsSettled es w a h)).1
