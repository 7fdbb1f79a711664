-- ===== src/IndexService/Outcomes.antt =====
-- What a commit comes to: the staged documents are live, or nothing but the state of the index is new.
use lixun.Common.{
  ℕ, ◌+◌, ◌%◌, ◌^◌, true, false, [], ◌≡◌, ◌⊎◌, refl, ap, if◌then◌else◌, inl, inr, Bool-cases, ◌∙◌,
}
use lixun.Index.{IndexConfig, LixunIndex, commit, reload}
use lixun.Index.Spec.{IsTantivy}
use lixun.IndexService.{Writer}
use lixun.IndexService.Commit.{do_commit, reply_all}

-- The writer after a commit that succeeded, with the index `ix`.
abbrev pub committed : {W : Type 0} → ℕ → LixunIndex W → Writer W → Writer W
committed now ix w =
    let generation : ℕ = (w.generation + 1) % 2 ^ 64 in
    record w {
      index = ix;
      generation = generation;
      dirty = false;
      last_commit = now;
      subtree_tombstones = [];
      pending_barriers = [];
      replies = reply_all generation w.pending_barriers w.replies;
    }

module _ {W : Type 0} (cfg : IndexConfig W) (laws : IsTantivy cfg.tantivy) where
  -- A commit makes the staged documents live, or it leaves all but the state of the index.
  abbrev pub Outcome : ℕ → Writer W → Type 0
  Outcome now w =
      ((ix : LixunIndex W) × (do_commit cfg now w ≡ (true, committed now ix w))
        × (laws.live ix.writer ≡ laws.staged w.index.writer)
        × (laws.staged ix.writer ≡ laws.staged w.index.writer))
      ⊎ ((ix : LixunIndex W) × (do_commit cfg now w ≡ (false, record w { index = ix }))
          × (laws.live ix.writer ≡ laws.live w.index.writer)
          × (laws.staged ix.writer ≡ laws.staged w.index.writer))

  pub do_commit-Outcome : (now : ℕ) (w : Writer W) → Outcome now w
  unfolding do_commit commit reload
  do_commit-Outcome now w =
      let s = w.index.writer in
      let s' = (cfg.tantivy.commit s).1 in
      let s'' = (cfg.tantivy.reload s').1 in
      elim (Bool-cases (cfg.tantivy.commit s).0) [
        | inr e ↦ inr (
          record w.index { writer = s' },
          rw (e, do_commit) refl,
          laws.live_commit s,
          laws.staged_commit s,
        )
        | inl e ↦ elim (Bool-cases (cfg.tantivy.reload s').0) [
          | inr f ↦ inr (
            record w.index { writer = s'' },
            rw (e, f, do_commit, reload) refl,
            laws.live_reload s'
                ∙ ap (λ b. if b then laws.committed s' else laws.live s') f
                ∙ laws.live_commit s,
            laws.staged_reload s' ∙ laws.staged_commit s,
          )
          | inl f ↦ inl (
            record { writer = s''; reload_epoch = (w.index.reload_epoch + 1) % 2 ^ 64 },
            rw (e, f, do_commit, reload) refl,
            laws.live_reload s'
                ∙ ap (λ b. if b then laws.committed s' else laws.live s') f
                ∙ laws.committed_commit s e,
            laws.staged_reload s' ∙ laws.staged_commit s,
          )
        ]
      ]
