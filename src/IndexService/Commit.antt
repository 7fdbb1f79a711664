-- ===== src/IndexService/Commit.antt =====
-- `do_commit` and `flush_post_commit`.
use lixun.Common.{ℕ, ◌+◌, ◌-◌, ◌%◌, ◌^◌, Bool, true, false, ◌&&◌, List, [], ◌∷◌, if◌then◌else◌, leb}
use lixun.Index.{IndexConfig, commit, reload}
use lixun.IndexService.{Writer, default_batch, is_empty_batch}

-- In milliseconds.
abbrev pub commit_min_interval : ℕ
commit_min_interval = 3000

-- `pending_barriers.drain(..)`: each is sent the generation.
unfoldable pub reply_all : ℕ → List ℕ → List (ℕ × ℕ) → List (ℕ × ℕ)
reply_all generation [] sent = sent
reply_all generation (b ∷ bs) sent = reply_all generation bs ((b, generation) ∷ sent)

module _ {W : Type 0} (cfg : IndexConfig W) where
  -- Commit, then reload. Where either fails, nothing but the index changes.
  unfoldable pub do_commit : ℕ → Writer W → Bool × Writer W
  unfolding reply_all
  do_commit now w =
      let (committed, ix) = commit cfg w.index in
      if committed
      then (let (reloaded, ix') = reload cfg ix in
          if reloaded
          then (let generation = (w.generation + 1) % 2 ^ 64 in
              (
                true,
                record w {
                  index = ix';
                  generation = generation;
                  dirty = false;
                  last_commit = now;
                  subtree_tombstones = [];
                  pending_barriers = [];
                  replies = reply_all generation w.pending_barriers w.replies;
                },
              ))
          else (false, record w { index = ix' }))
      else (false, record w { index = ix })

  unfoldable pub flush_post_commit : Writer W → Writer W
  flush_post_commit w = if is_empty_batch w.pending_batch then w else record w {
    pending_batch = default_batch;
    broadcasts = record w.pending_batch { generation = w.generation } ∷ w.broadcasts;
  }

  -- What `commit_now` and the timer do with the two.
  unfoldable pub commit_and_flush : ℕ → Writer W → Writer W
  unfolding do_commit flush_post_commit
  commit_and_flush now w = let (ok, w') = do_commit now w in if ok then flush_post_commit w' else w'

  -- Three seconds since the last commit, and something to commit.
  unfoldable pub on_tick : ℕ → Writer W → Writer W
  unfolding commit_and_flush
  on_tick now w =
      if w.dirty && leb commit_min_interval (now - w.last_commit) then commit_and_flush now w else w
