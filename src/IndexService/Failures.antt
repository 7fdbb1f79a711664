-- ===== src/IndexService/Failures.antt =====
-- What a failure leaves behind.
use lixun.Common.{
  ℕ, Bool, true, false, none, ◌∷◌, ◌≡◌, refl, ap, arith, if◌then◌else◌, inl, inr, ◌∙◌,
}
use lixun.Document.{Document}
use lixun.Index.{IndexConfig, LixunIndex, id_term, upsert}
use lixun.Index.Convert.{to_tantivy}
use lixun.Index.Spec.{remove_term, IsTantivy}
use lixun.IndexService.{Writer, id_tombstoned, is_empty_batch}
use lixun.IndexService.Apply.{apply_upsert}
use lixun.IndexService.Commit.{do_commit, flush_post_commit, commit_and_flush, reply_all}
use lixun.IndexService.Events.{commit_last, finish}
use lixun.IndexService.Outcomes.{do_commit-Outcome}

module _ {W : Type 0} (cfg : IndexConfig W) (laws : IsTantivy cfg.tantivy) where
  -- A commit or a reload that fails changes nothing but the state of the index: the documents that are
  -- visible and those that are staged, the batch, the tombstones, the generation and the senders that
  -- wait are as they were, the writer is as dirty as it was, and nothing is broadcast.
  commit_and_flush-failed :
      (now : ℕ) (w : Writer W)
      → (do_commit cfg now w).0 ≡ false
      → (ix : LixunIndex W) × (commit_and_flush cfg now w ≡ record w { index = ix })
        × (laws.live ix.writer ≡ laws.live w.index.writer)
        × (laws.staged ix.writer ≡ laws.staged w.index.writer)
  unfolding commit_and_flush
  commit_and_flush-failed now w h = elim (do_commit-Outcome cfg laws now w) [
    | inl (ix, e, l, s) ↦ absurd (ground arith)
    | inr (ix, e, l, s) ↦ (ix, rw (e, commit_and_flush) refl, l, s)
  ]

  -- The commit on shutdown is another matter: where it fails, the batch is broadcast all the same, under
  -- the generation of the last commit that succeeded, though nothing of it is visible.
  pub finish-failed :
      (now : ℕ) (w : Writer W)
      → w.dirty ≡ true
      → (do_commit cfg now w).0 ≡ false
      → is_empty_batch w.pending_batch ≡ false
      → let w' = finish cfg now w in
        (w'.broadcasts ≡ record w.pending_batch { generation = w.generation } ∷ w.broadcasts)
        × (laws.live w'.index.writer ≡ laws.live w.index.writer)
        × (w'.replies ≡ reply_all w.generation w.pending_barriers w.replies)
  unfolding finish commit_last flush_post_commit
  finish-failed now w d h n = elim (do_commit-Outcome cfg laws now w) [
    | inl (ix, e, l, s) ↦ absurd (ground arith)
    | inr (ix, e, l, s) ↦
        let q : commit_last cfg now w ≡ flush_post_commit cfg (record w { index = ix }) =
          ap (λ b. if b then flush_post_commit cfg (do_commit cfg now w).1 else w) d
          ∙ ap (λ (r : Bool × Writer W). flush_post_commit cfg r.1) e in
        rw (q, n, finish, flush_post_commit) (refl, l, refl)
  ]

  -- An upsert of a document that cannot be converted fails after the old document was deleted: that
  -- deletion is staged, while the writer is not marked dirty by it and the batch does not report it.
  pub apply_upsert-failed :
      (d : Document) (w : Writer W)
      → id_tombstoned d.id w.subtree_tombstones ≡ false
      → to_tantivy cfg.plugins cfg.json d ≡ none
      → (ix : LixunIndex W) × (apply_upsert cfg false d w ≡ record w { index = ix })
        × (laws.staged ix.writer ≡ remove_term (id_term d.id) (laws.staged w.index.writer))
  unfolding apply_upsert upsert
  apply_upsert-failed d w n e = (
    (upsert cfg d w.index).1,
    rw (n, apply_upsert, e, upsert) refl,
    rw (e, upsert) (laws.staged_delete (id_term d.id) w.index.writer),
  )
