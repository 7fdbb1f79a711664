-- ===== src/IndexService/Deletion.antt =====
-- A deleted subtree, from the message to the commit.
use lixun.Common.{
  ℕ, Bool, true, false, Option, none, some, List, [], ◌∷◌, ◌≡◌, ◌⊎◌, refl, sym, ap, subst, arith,
  any, any-append, ◌+◌, ◌%◌, ◌^◌, inl, inr, Bool-cases, ◌∙◌,
}
use lixun.Common.Text.{Text, text_eq, text_eq_refl}
use lixun.Common.Int.{ℤ}
use lixun.Common.Sort.{All, All-map}
use lixun.Document.{Document}
use lixun.Index.{IndexConfig}
use lixun.Index.Convert.{TantivyDocument}
use lixun.Index.Spec.{Docs, IsTantivy, IsReliable, find_doc}
use lixun.IndexService.{
  Mutation, upsert_one, delete_one, upsert_many, delete_many, delete_subtree,
  delete_source_instance, upsert_body, barrier, applied, shutdown, commit_now, id_in_subtree,
  id_tombstoned, Writer,
}
use lixun.IndexService.Apply.{add_tombstone}
use lixun.IndexService.Commit.{do_commit}
use lixun.IndexService.Events.{received, tick, step, run, Event}
use lixun.IndexService.Refines.{
  View, publish, put_in, spec_upsert, spec_upserts, spec_subtree, spec_found, spec_body, spec,
  IsCovered, view, Moves,
}
use lixun.IndexService.Covered.{IsCovered-spec}
use lixun.IndexService.Outcomes.{committed, do_commit-Outcome}
use lixun.IndexService.Runs.{step-Moves}
use lixun.IndexService.Orphans.{IsFree, IsFree-spec, in_subtree-tombstoned}

-- The events that commit what is staged.
abbrev pub IsCommitting : Event → Type 0
IsCommitting tick = Unit
IsCommitting (received (commit_now r)) = Unit
IsCommitting _ = ⊥

-- No event of the run commits with success, so the generation stays.
abbrev pub IsUncommitted : {W : Type 0} → IndexConfig W → List (ℕ × Event) → Writer W → Type 0
IsUncommitted cfg [] w = Unit
IsUncommitted cfg ((now, e) ∷ es) w =
    ((step cfg now e w).generation ≡ w.generation) × IsUncommitted cfg es (step cfg now e w)

-- No document under the prefix is in the list.
abbrev pub IsGone : Text → Docs → Type 0
IsGone p ds = All (λ (d : TantivyDocument). id_in_subtree d.id p ≡ false) ds

abbrev HasTombstone : Text → View → Type 0
HasTombstone p v = any (λ t. text_eq t p) v.tombstones ≡ true

any-add_tombstone :
    (p q : Text) (ts : List Text)
    → any (λ t. text_eq t p) ts ≡ true
    → any (λ t. text_eq t p) (add_tombstone q ts) ≡ true
unfolding add_tombstone
any-add_tombstone p q ts h = elim (Bool-cases (any (λ t. text_eq t q) ts)) [
  | inl e ↦ rw (e, add_tombstone) h
  | inr e ↦ rw (e, add_tombstone, any-append (λ t. text_eq t p) ts (q ∷ [])) (rw h refl)
]

add_tombstone_self :
    (p : Text) (ts : List Text) → any (λ t. text_eq t p) (add_tombstone p ts) ≡ true
unfolding add_tombstone any
add_tombstone_self p ts = elim (Bool-cases (any (λ t. text_eq t p) ts)) [
  | inl e ↦ rw (e, add_tombstone) e
  | inr e ↦
      rw (e, add_tombstone, any-append (λ t. text_eq t p) ts (p ∷ []), text_eq_refl p)
        (ground arith)
]

module _ {W : Type 0} (cfg : IndexConfig W) where
  spec_upsert-tombstones :
      (d : Document) (v : View) → (spec_upsert cfg d v).tombstones ≡ v.tombstones
  unfolding spec_upsert put_in
  spec_upsert-tombstones d v = ground arith

  spec_upserts-tombstones :
      (ds : List Document) (v : View) → (spec_upserts cfg ds v).tombstones ≡ v.tombstones
  unfolding spec_upserts
  spec_upserts-tombstones [] v = refl
  spec_upserts-tombstones (d ∷ ds) v =
      spec_upserts-tombstones ds (spec_upsert cfg d v) ∙ spec_upsert-tombstones d v

  spec_found-tombstones :
      (k body : Text) (expected : Option ℤ) (o : Option TantivyDocument) (v : View)
      → (spec_found cfg k body expected o v).tombstones ≡ v.tombstones
  unfolding spec_found put_in
  spec_found-tombstones k body expected none v = refl
  spec_found-tombstones k body expected (some t) v = ground arith

  spec_body-tombstones :
      (k body : Text) (expected : Option ℤ) (v : View)
      → (spec_body cfg k body expected v).tombstones ≡ v.tombstones
  unfolding spec_body
  spec_body-tombstones k body expected v = elim (Bool-cases (id_tombstoned k v.tombstones)) [
    | inl e ↦ rw (e, spec_body) refl
    | inr e ↦ rw (e, spec_body) (spec_found-tombstones k body expected (find_doc k v.visible) v)
  ]

  -- A tombstone stays until the batch is committed.
  spec-HasTombstone :
      (p : Text) (m : Mutation) (v : View) → HasTombstone p v → HasTombstone p (spec cfg m v)
  unfolding spec spec_subtree
  spec-HasTombstone p (upsert_one d) v h = rw (spec_upsert-tombstones d v) h
  spec-HasTombstone p (upsert_many ds) v h = rw (spec_upserts-tombstones ds v) h
  spec-HasTombstone p (delete_one k) v h = h
  spec-HasTombstone p (delete_many ks) v h = h
  spec-HasTombstone p (delete_subtree q) v h = any-add_tombstone p q v.tombstones h
  spec-HasTombstone p (delete_source_instance k) v h = h
  spec-HasTombstone p (upsert_body k body e) v h = rw (spec_body-tombstones k body e v) h
  spec-HasTombstone p (barrier r) v h = h
  spec-HasTombstone p (applied r) v h = h
  spec-HasTombstone p shutdown v h = h
  spec-HasTombstone p (commit_now r) v h = h

  unpublished : (v v' : View) → (v' ≡ v) ⊎ (v' ≡ publish v) → v'.generation ≡ v.generation → v' ≡ v
  unfolding publish
  unpublished v v' (inl e) g = e
  unpublished v v' (inr e) g =
      let same : (v.generation + 1) % 2 ^ 64 ≡ v.generation =
        sym (ap (λ (x : View). x.generation) e) ∙ g in
      absurd (omega (arith, same))

  -- What an event that does not commit does to the view.
  abbrev moved : Event → View → View
  moved tick v = v
  moved (received m) v = spec cfg m v

  Moves-moved :
      (e : Event) (v v' : View) → v'.generation ≡ v.generation → Moves cfg e v v' → v' ≡ moved e v
  unfolding spec
  Moves-moved tick v v' g h = unpublished v v' h g
  Moves-moved (received (upsert_one d)) v v' g h = h
  Moves-moved (received (upsert_many ds)) v v' g h = h
  Moves-moved (received (delete_one k)) v v' g h = h
  Moves-moved (received (delete_many ks)) v v' g h = h
  Moves-moved (received (delete_subtree p)) v v' g h = h
  Moves-moved (received (delete_source_instance k)) v v' g h = h
  Moves-moved (received (upsert_body k b e)) v v' g h = h
  Moves-moved (received (barrier r)) v v' g h = h
  Moves-moved (received (applied r)) v v' g h = h
  Moves-moved (received shutdown) v v' g h = h
  Moves-moved (received (commit_now r)) v v' g h = unpublished v v' h g

module _ {W : Type 0} (cfg : IndexConfig W) (laws : IsTantivy cfg.tantivy)
    (reliable : IsReliable cfg.tantivy) where
  -- What holds from the deletion on, until the next commit that succeeds.
  record IsDeleted (p : Text) (v : View) : Type 0 where
    still_covered : IsCovered cfg v
    still_free : IsFree v
    has_stone : HasTombstone p v

  moved-IsDeleted : (p : Text) (e : Event) (v : View) → IsDeleted p v → IsDeleted p (moved cfg e v)
  moved-IsDeleted p tick v h = h
  moved-IsDeleted p (received m) v h = record {
    still_covered = IsCovered-spec cfg m v h.still_covered;
    still_free = IsFree-spec cfg m v h.still_free;
    has_stone = spec-HasTombstone cfg p m v h.has_stone;
  }

  run-IsDeleted :
      (p : Text) (es : List (ℕ × Event)) (w : Writer W)
      → IsUncommitted cfg es w
      → IsDeleted p (view cfg laws w)
      → IsDeleted p (view cfg laws (run cfg es w))
  unfolding run
  run-IsDeleted p [] w u h = h
  run-IsDeleted p ((now, e) ∷ es) w u h =
      let m = Moves-moved cfg e _ _ u.0 (step-Moves cfg laws reliable now e w h.still_covered) in
      run-IsDeleted p es (step cfg now e w) u.1
        (subst (IsDeleted p) (sym m) (moved-IsDeleted p e (view cfg laws w) h))

  IsDeleted-IsGone : (p : Text) (v : View) → IsDeleted p v → IsGone p v.working
  IsDeleted-IsGone p v h =
      All-map v.working
        (λ (d : TantivyDocument) (g : id_tombstoned d.id v.tombstones ≡ false).
          in_subtree-tombstoned d.id p v.tombstones h.has_stone g)
        h.still_free

  step-IsGone :
      (p : Text) (now : ℕ) (e : Event) (w : Writer W)
      → IsCommitting e
      → IsDeleted p (view cfg laws w)
      → let w' = step cfg now e w in
        (w'.generation ≡ w.generation) ⊎ IsGone p (laws.live w'.index.writer)
  step-IsGone p now e w k h = go e k (step-Moves cfg laws reliable now e w h.still_covered)
    where
      v : View
      v = view cfg laws w

      gone :
          (v' : View)
          → (v' ≡ v) ⊎ (v' ≡ publish v)
          → (v'.generation ≡ v.generation) ⊎ IsGone p v'.visible
      gone v' (inl x) = inl (ap (λ (y : View). y.generation) x)
      gone v' (inr x) = inr (
          subst (λ (y : View). IsGone p y.visible) (sym x)
            (unfold publish in IsDeleted-IsGone p v h))

      go :
          (e : Event)
          → IsCommitting e
          → Moves cfg e v (view cfg laws (step cfg now e w))
          → ((step cfg now e w).generation ≡ w.generation)
            ⊎ IsGone p (laws.live (step cfg now e w).index.writer)
      go tick k m = gone (view cfg laws (step cfg now tick w)) m
      go (received (commit_now r)) k m =
          gone (view cfg laws (step cfg now (received (commit_now r)) w)) m
      go (received (upsert_one d)) k m = elim k [ ]
      go (received (delete_one i)) k m = elim k [ ]
      go (received (upsert_many ds)) k m = elim k [ ]
      go (received (delete_many is)) k m = elim k [ ]
      go (received (delete_subtree q)) k m = elim k [ ]
      go (received (delete_source_instance i)) k m = elim k [ ]
      go (received (upsert_body i b x)) k m = elim k [ ]
      go (received (barrier r)) k m = elim k [ ]
      go (received (applied r)) k m = elim k [ ]
      go (received shutdown) k m = elim k [ ]

  -- Where reads of the index and additions to it do not fail: after `DeleteSubtree`, whatever messages,
  -- ticks and failed commits follow, the next commit that succeeds leaves no document visible whose id
  -- is the prefix or starts with it and a slash. Upserts of such ids, and OCR texts for them, that were
  -- queued behind the deletion do not bring any back. A commit is that of a tick or of `CommitNow`, or
  -- the call of `do_commit` by itself, which the shutdown makes.
  pub run-delete_subtree :
      (p : Text) (now later : ℕ) (es : List (ℕ × Event)) (e : Event) (w : Writer W)
      → IsCovered cfg (view cfg laws w)
      → IsFree (view cfg laws w)
      → IsUncommitted cfg es (step cfg now (received (delete_subtree p)) w)
      → IsCommitting e
      → let w' = run cfg ((now, received (delete_subtree p)) ∷ es) w in
        let w'' = step cfg later e w' in
        let (ok, committed) = do_commit cfg later w' in
        ((w''.generation ≡ w'.generation) ⊎ IsGone p (laws.live w''.index.writer))
        × ((ok ≡ false) ⊎ IsGone p (laws.live committed.index.writer))
  unfolding run spec spec_subtree
  run-delete_subtree p now later es e w c f u k =
      let v = view cfg laws w in
      let w1 = step cfg now (received (delete_subtree p)) w in
      let q : view cfg laws w1 ≡ spec cfg (delete_subtree p) v =
        step-Moves cfg laws reliable now (received (delete_subtree p)) w c in
      let h : IsDeleted p (spec cfg (delete_subtree p) v) = record {
        still_covered = IsCovered-spec cfg (delete_subtree p) v c;
        still_free = IsFree-spec cfg (delete_subtree p) v f;
        has_stone = add_tombstone_self p w.subtree_tombstones;
      } in
      let w2 = run cfg es w1 in
      let done = run-IsDeleted p es w1 u (subst (IsDeleted p) (sym q) h) in
      (
        step-IsGone p later e w2 k done,
        elim (do_commit-Outcome cfg laws later w2) [
          | inr (ix, r, l, s) ↦ inl (ap (λ (x : Bool × Writer W). x.0) r)
          | inl (ix, r, l, s) ↦ inr (rw (r, l) (IsDeleted-IsGone p (view cfg laws w2) done))
        ],
      )
