-- ===== src/IndexService/Events.antt =====
-- The loop of the writer task, event by event, and the drain after it. The loop ends on `Shutdown` or
-- when the channel is closed.
use lixun.Common.{ℕ, true, false, List, [], ◌∷◌, ◌++◌, if◌then◌else◌}
use lixun.Index.{IndexConfig, LixunIndex}
use lixun.IndexService.{Mutation, barrier, applied, commit_now, Writer, default_batch}
use lixun.IndexService.Apply.{apply_mutation}
use lixun.IndexService.Commit.{reply_all, do_commit, flush_post_commit, commit_and_flush, on_tick}

pub data Event : Type 0 where
  received : Mutation → Event
  tick : Event

-- The locals as the task starts.
unfoldable pub start : {W : Type 0} → LixunIndex W → ℕ → Writer W
start ix now = record {
  index = ix;
  dirty = false;
  last_commit = now;
  generation = 0;
  pending_barriers = [];
  pending_batch = default_batch;
  subtree_tombstones = [];
  replies = [];
  acks = [];
  broadcasts = [];
}

unfoldable pub on_barrier : {W : Type 0} → ℕ → Writer W → Writer W
on_barrier reply w =
    if w.dirty
    then record w { pending_barriers = w.pending_barriers ++ (reply ∷ []) }
    else record w { replies = (reply, w.generation) ∷ w.replies }

module _ {W : Type 0} (cfg : IndexConfig W) where
  unfoldable pub step : ℕ → Event → Writer W → Writer W
  unfolding on_tick commit_and_flush on_barrier apply_mutation
  step now tick w = on_tick cfg now w
  step now (received (barrier r)) w = on_barrier r w
  step now (received (applied r)) w = record w { acks = r ∷ w.acks }
  step now (received (commit_now r)) w =
      commit_and_flush cfg now (record w { pending_barriers = w.pending_barriers ++ (r ∷ []) })
  step now (received m) w = apply_mutation cfg false m w

  -- The events with the times they are taken at.
  unfoldable pub run : List (ℕ × Event) → Writer W → Writer W
  unfolding step
  run [] w = w
  run ((now, e) ∷ es) w = run es (step now e w)

  unfoldable pub drain_one : Mutation → Writer W → Writer W
  unfolding apply_mutation
  drain_one (barrier r) w = record w { pending_barriers = w.pending_barriers ++ (r ∷ []) }
  drain_one (applied r) w = record w { acks = r ∷ w.acks }
  drain_one (commit_now r) w = record w { pending_barriers = w.pending_barriers ++ (r ∷ []) }
  drain_one m w = apply_mutation cfg true m w

  unfoldable pub drain_all : List Mutation → Writer W → Writer W
  unfolding drain_one
  drain_all [] w = w
  drain_all (m ∷ ms) w = drain_all ms (drain_one m w)

  -- The last commit, whose failure is passed over.
  unfoldable pub commit_last : ℕ → Writer W → Writer W
  unfolding do_commit flush_post_commit
  commit_last now w = if w.dirty then flush_post_commit cfg (do_commit cfg now w).1 else w

  -- And the barriers that are left.
  unfoldable pub finish : ℕ → Writer W → Writer W
  unfolding commit_last reply_all
  finish now w =
      let done = commit_last now w in
      record done {
        pending_barriers = [];
        replies = reply_all done.generation done.pending_barriers done.replies;
      }

  -- The whole of `writer_loop`: the events until it breaks off, and the messages that are then queued.
  unfoldable pub writer_loop : LixunIndex W → ℕ → List (ℕ × Event) → ℕ → List Mutation → Writer W
  unfolding run drain_all finish start
  writer_loop ix now events end_time queued =
      finish end_time (drain_all queued (run events (start ix now)))
