-- ===== src/IndexService/Runs.antt =====
-- Runs of the writer, as runs of the documents.
use lixun.Common.{
  ℕ, ◌-◌, true, false, ◌&&◌, List, [], ◌∷◌, ◌++◌, ◌≡◌, ◌⊎◌, refl, sym, subst, arith, inl, inr,
  Bool-cases, leb,
}
use lixun.Index.{IndexConfig, LixunIndex}
use lixun.Index.Spec.{IsTantivy, IsReliable}
use lixun.IndexService.{
  upsert_one, delete_one, upsert_many, delete_many, delete_subtree, delete_source_instance,
  upsert_body, barrier, applied, shutdown, commit_now, Writer, MutationBatch, is_empty_batch,
}
use lixun.IndexService.Commit.{flush_post_commit, commit_and_flush, on_tick, commit_min_interval}
use lixun.IndexService.Events.{Event, received, tick, on_barrier, step, run}
use lixun.IndexService.Refines.{View, publish, spec, Moves, IsCovered, view}
use lixun.IndexService.Simulation.{apply_mutation-view}
use lixun.IndexService.Covered.{IsCovered-spec, IsCovered-publish}
use lixun.IndexService.Outcomes.{committed, do_commit-Outcome}

module _ {W : Type 0} (cfg : IndexConfig W) where
  -- A run of the documents: each event moves the view.
  pub data Run : List (ℕ × Event) → View → View → Type 0 where
    done : {v : View} → Run [] v v
    next :
        {now : ℕ} {e : Event} {es : List (ℕ × Event)} {v v' v'' : View}
        → Moves cfg e v v'
        → Run es v' v''
        → Run ((now, e) ∷ es) v v''

  IsCovered-publishes :
      (v v' : View) → IsCovered cfg v → (v' ≡ v) ⊎ (v' ≡ publish v) → IsCovered cfg v'
  IsCovered-publishes v v' c (inl e) = subst (IsCovered cfg) (sym e) c
  IsCovered-publishes v v' c (inr e) = subst (IsCovered cfg) (sym e) (IsCovered-publish cfg v c)

  pub IsCovered-Moves :
      (e : Event) (v v' : View) → IsCovered cfg v → Moves cfg e v v' → IsCovered cfg v'
  IsCovered-Moves tick v v' c m = IsCovered-publishes v v' c m
  IsCovered-Moves (received (commit_now r)) v v' c m = IsCovered-publishes v v' c m
  IsCovered-Moves (received (upsert_one d)) v v' c m =
      subst (IsCovered cfg) (sym m) (IsCovered-spec cfg (upsert_one d) v c)
  IsCovered-Moves (received (upsert_many ds)) v v' c m =
      subst (IsCovered cfg) (sym m) (IsCovered-spec cfg (upsert_many ds) v c)
  IsCovered-Moves (received (delete_one k)) v v' c m =
      subst (IsCovered cfg) (sym m) (IsCovered-spec cfg (delete_one k) v c)
  IsCovered-Moves (received (delete_many ks)) v v' c m =
      subst (IsCovered cfg) (sym m) (IsCovered-spec cfg (delete_many ks) v c)
  IsCovered-Moves (received (delete_subtree p)) v v' c m =
      subst (IsCovered cfg) (sym m) (IsCovered-spec cfg (delete_subtree p) v c)
  IsCovered-Moves (received (delete_source_instance k)) v v' c m =
      subst (IsCovered cfg) (sym m) (IsCovered-spec cfg (delete_source_instance k) v c)
  IsCovered-Moves (received (upsert_body k b e)) v v' c m =
      subst (IsCovered cfg) (sym m) (IsCovered-spec cfg (upsert_body k b e) v c)
  IsCovered-Moves (received (barrier r)) v v' c m =
      subst (IsCovered cfg) (sym m) (IsCovered-spec cfg (barrier r) v c)
  IsCovered-Moves (received (applied r)) v v' c m =
      subst (IsCovered cfg) (sym m) (IsCovered-spec cfg (applied r) v c)
  IsCovered-Moves (received shutdown) v v' c m =
      subst (IsCovered cfg) (sym m) (IsCovered-spec cfg shutdown v c)

no_upserts : (b : MutationBatch) → is_empty_batch b ≡ true → b.upserts ≡ []
unfolding is_empty_batch
no_upserts b h = ground arith

module _ {W : Type 0} (cfg : IndexConfig W) (laws : IsTantivy cfg.tantivy) where
  flush-view :
      (now : ℕ) (ix : LixunIndex W) (w : Writer W)
      → laws.live ix.writer ≡ laws.staged w.index.writer
      → laws.staged ix.writer ≡ laws.staged w.index.writer
      → view cfg laws (flush_post_commit cfg (committed now ix w)) ≡ publish (view cfg laws w)
  unfolding flush_post_commit publish
  flush-view now ix w l s = elim (Bool-cases (is_empty_batch w.pending_batch)) [
    | inl e ↦ rw (e, flush_post_commit, l, s, no_upserts w.pending_batch e) refl
    | inr e ↦ rw (e, flush_post_commit, l, s) refl
  ]

  commit_and_flush-view :
      (now : ℕ) (w : Writer W)
      → let v = view cfg laws w in
        let v' = view cfg laws (commit_and_flush cfg now w) in (v' ≡ v) ⊎ (v' ≡ publish v)
  unfolding commit_and_flush
  commit_and_flush-view now w = elim (do_commit-Outcome cfg laws now w) [
    | inl (ix, e, l, s) ↦ inr (rw (e, commit_and_flush) (flush-view now ix w l s))
    | inr (ix, e, l, s) ↦ inl (rw (e, commit_and_flush, l, s) refl)
  ]

  on_tick-view :
      (now : ℕ) (w : Writer W)
      → let v = view cfg laws w in
        let v' = view cfg laws (on_tick cfg now w) in (v' ≡ v) ⊎ (v' ≡ publish v)
  unfolding on_tick
  on_tick-view now w =
      elim (Bool-cases (w.dirty && leb commit_min_interval (now - w.last_commit))) [
        | inl e ↦ rw (e, on_tick) (commit_and_flush-view now w)
        | inr e ↦ inl (rw (e, on_tick) refl)
      ]

  on_barrier-view : (r : ℕ) (w : Writer W) → view cfg laws (on_barrier r w) ≡ view cfg laws w
  unfolding on_barrier
  on_barrier-view r w = elim (Bool-cases w.dirty) [
    | inl e ↦ rw (e, on_barrier) refl
    | inr e ↦ rw (e, on_barrier) refl
  ]

  module _ (reliable : IsReliable cfg.tantivy) where
    pub step-Moves :
        (now : ℕ) (e : Event) (w : Writer W)
        → IsCovered cfg (view cfg laws w)
        → Moves cfg e (view cfg laws w) (view cfg laws (step cfg now e w))
    unfolding step spec
    step-Moves now tick w c = on_tick-view now w
    step-Moves now (received (commit_now r)) w c =
        commit_and_flush-view now (record w { pending_barriers = w.pending_barriers ++ (r ∷ []) })
    step-Moves now (received (upsert_one d)) w c =
        apply_mutation-view cfg laws reliable false (upsert_one d) w c
    step-Moves now (received (upsert_many ds)) w c =
        apply_mutation-view cfg laws reliable false (upsert_many ds) w c
    step-Moves now (received (delete_one k)) w c =
        apply_mutation-view cfg laws reliable false (delete_one k) w c
    step-Moves now (received (delete_many ks)) w c =
        apply_mutation-view cfg laws reliable false (delete_many ks) w c
    step-Moves now (received (delete_subtree p)) w c =
        apply_mutation-view cfg laws reliable false (delete_subtree p) w c
    step-Moves now (received (delete_source_instance k)) w c =
        apply_mutation-view cfg laws reliable false (delete_source_instance k) w c
    step-Moves now (received (upsert_body k b x)) w c =
        apply_mutation-view cfg laws reliable false (upsert_body k b x) w c
    step-Moves now (received (barrier r)) w c = on_barrier-view r w
    step-Moves now (received (applied r)) w c = refl
    step-Moves now (received shutdown) w c = refl

    -- Where reads of the index and additions to it do not fail, the writer refines the documents: whatever
    -- messages and ticks it takes, with whatever commits and reloads failing, what a search sees and what
    -- is staged are those of a run in which a mutation changes the documents themselves and a commit
    -- publishes all of them or none.
    pub run-Run :
        (es : List (ℕ × Event)) (w : Writer W)
        → IsCovered cfg (view cfg laws w)
        → Run cfg es (view cfg laws w) (view cfg laws (run cfg es w))
    unfolding run
    run-Run [] w c = done
    run-Run ((now, e) ∷ es) w c =
        let m = step-Moves now e w c in
        next m (run-Run es (step cfg now e w) (IsCovered-Moves cfg e _ _ c m))
