-- ===== src/IndexService/Waiting.antt =====
-- The mutations of documents send nothing but leave the senders waiting.
use lixun.Common.{Bool, Option, none, some, List, [], ◌∷◌, ◌≡◌, refl, inl, inr, Bool-cases, ◌∙◌}
use lixun.Common.Text.{Text}
use lixun.Common.Int.{ℤ}
use lixun.Document.{Document}
use lixun.Index.{IndexConfig, LixunIndex, upsert}
use lixun.IndexService.{
  Mutation, upsert_one, delete_one, upsert_many, delete_many, delete_subtree,
  delete_source_instance, upsert_body, barrier, applied, shutdown, commit_now, Writer,
  id_tombstoned,
}
use lixun.IndexService.Apply.{
  apply_upsert, apply_upserts, apply_delete, apply_deletes, apply_delete_subtree,
  apply_delete_source_instance, apply_upsert_body, note_body, handle_upsert_body, apply_mutation,
  collect_subtree_ids, forget_subtree,
}

-- The same senders wait, and the same replies were sent.
pub record IsWaiting {W : Type 0} (w w' : Writer W) : Type 0 where
  pub replies : w'.replies ≡ w.replies
  pub pending : w'.pending_barriers ≡ w.pending_barriers
  pub generation : w'.generation ≡ w.generation

module _ {W : Type 0} where
  IsWaiting-refl : (w : Writer W) → IsWaiting w w
  IsWaiting-refl w = record { replies = refl; pending = refl; generation = refl }

  IsWaiting-trans : (a b c : Writer W) → IsWaiting a b → IsWaiting b c → IsWaiting a c
  IsWaiting-trans a b c f g = record {
    replies = g.replies ∙ f.replies;
    pending = g.pending ∙ f.pending;
    generation = g.generation ∙ f.generation;
  }

module _ {W : Type 0} (cfg : IndexConfig W) where
  apply_upsert-IsWaiting :
      (draining : Bool) (d : Document) (w : Writer W) → IsWaiting w (apply_upsert cfg draining d w)
  unfolding apply_upsert
  apply_upsert-IsWaiting draining d w =
      elim (Bool-cases (id_tombstoned d.id w.subtree_tombstones)) [
        | inl e ↦
            rw (e, apply_upsert) (record { replies = refl; pending = refl; generation = refl })
        | inr e ↦ elim (Bool-cases (upsert cfg d w.index).0) [
          | inl f ↦
              rw (e, f, apply_upsert) (record { replies = refl; pending = refl; generation = refl })
          | inr f ↦
              rw (e, f, apply_upsert) (record { replies = refl; pending = refl; generation = refl })
        ]
      ]

  apply_upserts-IsWaiting :
      (draining : Bool) (ds : List Document) (w : Writer W)
      → IsWaiting w (apply_upserts cfg draining ds w)
  unfolding apply_upserts
  apply_upserts-IsWaiting draining [] w = IsWaiting-refl w
  apply_upserts-IsWaiting draining (d ∷ ds) w =
      IsWaiting-trans w (apply_upsert cfg draining d w) _ (apply_upsert-IsWaiting draining d w)
        (apply_upserts-IsWaiting draining ds (apply_upsert cfg draining d w))

  apply_deletes-IsWaiting : (ks : List Text) (w : Writer W) → IsWaiting w (apply_deletes cfg ks w)
  unfolding apply_deletes apply_delete
  apply_deletes-IsWaiting [] w = IsWaiting-refl w
  apply_deletes-IsWaiting (k ∷ ks) w =
      let ih = apply_deletes-IsWaiting ks (apply_delete cfg k w) in
      record { replies = ih.replies; pending = ih.pending; generation = ih.generation }

  note_body-IsWaiting :
      (ix : LixunIndex W) (w : Writer W) (o : Option (Option Document))
      → IsWaiting w (note_body cfg ix w o)
  unfolding note_body
  note_body-IsWaiting ix w none = record { replies = refl; pending = refl; generation = refl }
  note_body-IsWaiting ix w (some none) = record {
    replies = refl;
    pending = refl;
    generation = refl;
  }
  note_body-IsWaiting ix w (some (some d)) = record {
    replies = refl;
    pending = refl;
    generation = refl;
  }

  handle_upsert_body-IsWaiting :
      (k body : Text) (expected : Option ℤ) (w : Writer W)
      → IsWaiting w (handle_upsert_body cfg k body expected w)
  unfolding handle_upsert_body
  handle_upsert_body-IsWaiting k body expected w =
      elim (Bool-cases (id_tombstoned k w.subtree_tombstones)) [
        | inl e ↦ rw (e, handle_upsert_body) (IsWaiting-refl w)
        | inr e ↦
            rw (e, handle_upsert_body)
              (let (updated, ix) = apply_upsert_body cfg w.pending_batch k body expected w.index in
                note_body-IsWaiting ix w updated)
      ]

  pub apply_mutation-IsWaiting :
      (draining : Bool) (m : Mutation) (w : Writer W)
      → IsWaiting w (apply_mutation cfg draining m w)
  unfolding apply_mutation apply_delete apply_delete_subtree apply_delete_source_instance
  apply_mutation-IsWaiting draining (upsert_one d) w = apply_upsert-IsWaiting draining d w
  apply_mutation-IsWaiting draining (upsert_many ds) w = apply_upserts-IsWaiting draining ds w
  apply_mutation-IsWaiting draining (delete_one k) w = record {
    replies = refl;
    pending = refl;
    generation = refl;
  }
  apply_mutation-IsWaiting draining (delete_many ks) w = apply_deletes-IsWaiting ks w
  apply_mutation-IsWaiting draining (delete_subtree p) w =
      let ih =
        apply_deletes-IsWaiting (collect_subtree_ids cfg w.index w.pending_batch p)
          (record w { pending_batch = forget_subtree p w.pending_batch }) in
      record { replies = ih.replies; pending = ih.pending; generation = ih.generation }
  apply_mutation-IsWaiting draining (delete_source_instance k) w = record {
    replies = refl;
    pending = refl;
    generation = refl;
  }
  apply_mutation-IsWaiting draining (upsert_body k body expected) w =
      handle_upsert_body-IsWaiting k body expected w
  apply_mutation-IsWaiting draining (barrier r) w = IsWaiting-refl w
  apply_mutation-IsWaiting draining (applied r) w = IsWaiting-refl w
  apply_mutation-IsWaiting draining shutdown w = IsWaiting-refl w
  apply_mutation-IsWaiting draining (commit_now r) w = IsWaiting-refl w
