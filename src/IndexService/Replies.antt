-- ===== src/IndexService/Replies.antt =====
-- Every sender of a barrier or of a commit request gets its reply.
use lixun.Common.{
  ℕ, ◌+◌, ◌-◌, Bool, true, false, ◌&&◌, List, [], ◌∷◌, ◌++◌, ◌≡◌, refl, arith, if◌then◌else◌, inl,
  inr, Bool-cases, ◌∙◌, ◌==◌, leb,
}
use lixun.Index.{IndexConfig, LixunIndex, commit, reload}
use lixun.IndexService.{
  Mutation, upsert_one, delete_one, upsert_many, delete_many, delete_subtree,
  delete_source_instance, upsert_body, barrier, applied, shutdown, commit_now, Writer,
  is_empty_batch,
}
use lixun.IndexService.Apply.{apply_mutation}
use lixun.IndexService.Commit.{
  do_commit, flush_post_commit, commit_and_flush, on_tick, commit_min_interval, reply_all,
}
use lixun.IndexService.Events.{
  Event, received, tick, start, on_barrier, step, run, drain_one, drain_all, commit_last, finish,
  writer_loop,
}
use lixun.IndexService.Waiting.{apply_mutation-IsWaiting}

abbrev pub count : ℕ → List ℕ → ℕ
count r [] = 0
count r (x ∷ xs) = (if x == r then 1 else 0) + count r xs

abbrev pub receivers : List (ℕ × ℕ) → List ℕ
receivers [] = []
receivers ((r, g) ∷ rs) = r ∷ receivers rs

-- The senders that ask for a generation.
abbrev pub asks : Mutation → List ℕ
asks (barrier r) = r ∷ []
asks (commit_now r) = r ∷ []
asks _ = []

abbrev pub askers : List Mutation → List ℕ
askers [] = []
askers (m ∷ ms) = asks m ++ askers ms

abbrev pub received_of : List (ℕ × Event) → List Mutation
received_of [] = []
received_of ((now, received m) ∷ es) = m ∷ received_of es
received_of ((now, tick) ∷ es) = received_of es

count-append : (r : ℕ) (xs ys : List ℕ) → count r (xs ++ ys) ≡ count r xs + count r ys
count-append r [] ys = omega arith
count-append r (x ∷ xs) ys = let ih = count-append r xs ys in ground arith

count-reply_all :
    (r g : ℕ) (bs : List ℕ) (sent : List (ℕ × ℕ))
    → count r (receivers (reply_all g bs sent)) ≡ count r bs + count r (receivers sent)
unfolding reply_all
count-reply_all r g [] sent = omega arith
count-reply_all r g (b ∷ bs) sent = let ih = count-reply_all r g bs ((b, g) ∷ sent) in ground arith

-- How often a sender was answered or waits.
abbrev known : {W : Type 0} → ℕ → Writer W → ℕ
known r w = count r (receivers w.replies) + count r w.pending_barriers

module _ {W : Type 0} (cfg : IndexConfig W) (r : ℕ) where
  do_commit-known : (now : ℕ) (w : Writer W) → known r (do_commit cfg now w).1 ≡ known r w
  unfolding do_commit
  do_commit-known now w = elim (Bool-cases (commit cfg w.index).0) [
    | inr e ↦ rw (e, do_commit) refl
    | inl e ↦ elim (Bool-cases (reload cfg (commit cfg w.index).1).0) [
      | inr f ↦ rw (e, f, do_commit) refl
      | inl f ↦
          let c = λ (g : ℕ). count-reply_all r g w.pending_barriers w.replies in
          rw (e, f, do_commit, c) (ground arith)
    ]
  ]

  flush-known : (w : Writer W) → known r (flush_post_commit cfg w) ≡ known r w
  unfolding flush_post_commit
  flush-known w = elim (Bool-cases (is_empty_batch w.pending_batch)) [
    | inl e ↦ rw (e, flush_post_commit) refl
    | inr e ↦ rw (e, flush_post_commit) refl
  ]

  commit_and_flush-known :
      (now : ℕ) (w : Writer W) → known r (commit_and_flush cfg now w) ≡ known r w
  unfolding commit_and_flush
  commit_and_flush-known now w = elim (Bool-cases (do_commit cfg now w).0) [
    | inl e ↦ rw (e, commit_and_flush) (flush-known (do_commit cfg now w).1 ∙ do_commit-known now w)
    | inr e ↦ rw (e, commit_and_flush) (do_commit-known now w)
  ]

  on_tick-known : (now : ℕ) (w : Writer W) → known r (on_tick cfg now w) ≡ known r w
  unfolding on_tick
  on_tick-known now w =
      elim (Bool-cases (w.dirty && leb commit_min_interval (now - w.last_commit))) [
        | inl e ↦ rw (e, on_tick) (commit_and_flush-known now w)
        | inr e ↦ rw (e, on_tick) refl
      ]

  on_barrier-known :
      (b : ℕ) (w : Writer W) → known r (on_barrier b w) ≡ known r w + count r (b ∷ [])
  unfolding on_barrier
  on_barrier-known b w = elim (Bool-cases w.dirty) [
    | inl e ↦ rw (e, on_barrier, count-append r w.pending_barriers (b ∷ [])) (ground arith)
    | inr e ↦ rw (e, on_barrier) (ground arith)
  ]

  enqueue-known :
      (b : ℕ) (w : Writer W)
      → known r (record w { pending_barriers = w.pending_barriers ++ (b ∷ []) })
        ≡ known r w + count r (b ∷ [])
  enqueue-known b w = rw (count-append r w.pending_barriers (b ∷ [])) (ground arith)

  mutation-known :
      (draining : Bool) (m : Mutation) (w : Writer W)
      → known r (apply_mutation cfg draining m w) ≡ known r w + 0
  mutation-known draining m w =
      let h = apply_mutation-IsWaiting cfg draining m w in rw (h.replies, h.pending) (ground arith)

  step-known :
      (now : ℕ) (m : Mutation) (w : Writer W)
      → known r (step cfg now (received m) w) ≡ known r w + count r (asks m)
  unfolding step
  step-known now (barrier b) w = on_barrier-known b w
  step-known now (commit_now b) w =
      commit_and_flush-known now (record w { pending_barriers = w.pending_barriers ++ (b ∷ []) })
      ∙ enqueue-known b w
  step-known now (applied b) w = ground arith
  step-known now (upsert_one d) w = mutation-known false (upsert_one d) w
  step-known now (upsert_many ds) w = mutation-known false (upsert_many ds) w
  step-known now (delete_one k) w = mutation-known false (delete_one k) w
  step-known now (delete_many ks) w = mutation-known false (delete_many ks) w
  step-known now (delete_subtree p) w = mutation-known false (delete_subtree p) w
  step-known now (delete_source_instance k) w = mutation-known false (delete_source_instance k) w
  step-known now (upsert_body k b x) w = mutation-known false (upsert_body k b x) w
  step-known now shutdown w = mutation-known false shutdown w

  drain_one-known :
      (m : Mutation) (w : Writer W) → known r (drain_one cfg m w) ≡ known r w + count r (asks m)
  unfolding drain_one
  drain_one-known (barrier b) w = enqueue-known b w
  drain_one-known (commit_now b) w = enqueue-known b w
  drain_one-known (applied b) w = ground arith
  drain_one-known (upsert_one d) w = mutation-known true (upsert_one d) w
  drain_one-known (upsert_many ds) w = mutation-known true (upsert_many ds) w
  drain_one-known (delete_one k) w = mutation-known true (delete_one k) w
  drain_one-known (delete_many ks) w = mutation-known true (delete_many ks) w
  drain_one-known (delete_subtree p) w = mutation-known true (delete_subtree p) w
  drain_one-known (delete_source_instance k) w = mutation-known true (delete_source_instance k) w
  drain_one-known (upsert_body k b x) w = mutation-known true (upsert_body k b x) w
  drain_one-known shutdown w = mutation-known true shutdown w

  run-known :
      (es : List (ℕ × Event)) (w : Writer W)
      → known r (run cfg es w) ≡ known r w + count r (askers (received_of es))
  unfolding run step
  run-known [] w = omega arith
  run-known ((now, tick) ∷ es) w = run-known es (on_tick cfg now w) ∙ rw (on_tick-known now w) refl
  run-known ((now, received m) ∷ es) w =
      let a = count-append r (asks m) (askers (received_of es)) in
      let s = step-known now m w in
      let ih = run-known es (step cfg now (received m) w) in omega (arith, a, s, ih)

  drain_all-known :
      (ms : List Mutation) (w : Writer W)
      → known r (drain_all cfg ms w) ≡ known r w + count r (askers ms)
  unfolding drain_all
  drain_all-known [] w = omega arith
  drain_all-known (m ∷ ms) w =
      let a = count-append r (asks m) (askers ms) in
      let s = drain_one-known m w in
      let ih = drain_all-known ms (drain_one cfg m w) in omega (arith, a, s, ih)

  commit_last-known : (now : ℕ) (w : Writer W) → known r (commit_last cfg now w) ≡ known r w
  unfolding commit_last
  commit_last-known now w = go w.dirty
    where
      go :
          (b : Bool)
          → known r (if b then flush_post_commit cfg (do_commit cfg now w).1 else w) ≡ known r w
      go true = flush-known (do_commit cfg now w).1 ∙ do_commit-known now w
      go false = refl

  finish-known :
      (now : ℕ) (w : Writer W) → count r (receivers (finish cfg now w).replies) ≡ known r w
  unfolding finish
  finish-known now w =
      let done = commit_last cfg now w in
      let c = count-reply_all r done.generation done.pending_barriers done.replies in
      let k = commit_last-known now w in omega (arith, c, k)

-- Over the whole life of the writer task, every sender of a barrier or of a commit request, before or
-- behind the shutdown, is sent as many replies as it sent such messages, whatever commits fail.
pub writer_loop-replies :
    {W : Type 0} (cfg : IndexConfig W) (r : ℕ) (ix : LixunIndex W) (now end_time : ℕ)
    (events : List (ℕ × Event)) (queued : List Mutation)
    → count r (receivers (writer_loop cfg ix now events end_time queued).replies)
      ≡ count r (askers (received_of events)) + count r (askers queued)
unfolding writer_loop start
writer_loop-replies cfg r ix now end_time events queued =
    let w = start ix now in
    let a = run-known cfg r events w in
    let b = drain_all-known cfg r queued (run cfg events w) in
    let c = finish-known cfg r end_time (drain_all cfg queued (run cfg events w)) in
    omega (arith, a, b, c)
