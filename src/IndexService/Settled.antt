-- ===== src/IndexService/Settled.antt =====
-- A writer that is not dirty has nothing staged that is not visible.
use lixun.Common.{
  Bool, true, Option, none, some, List, [], ◌∷◌, ◌≡◌, ◌⊎◌, refl, arith, Option-cases, inl, inr,
  Bool-cases,
}
use mathlib.Core.Option
use lixun.Common.Text.{Text, is_empty}
use lixun.Common.Dict.{get, HasDistinctKeys}
use lixun.Common.Int.{ℤ}
use lixun.Common.Sort.{All}
use lixun.Document.{Document, Action, open_file, PluginValue}
use lixun.Index.{IndexConfig, get_doc_by_id}
use lixun.Index.Convert.{
  ActionJson, action_texts, action_text, action_of, secondary_action_of, PluginSchema,
  TantivyDocument, to_tantivy, doc_from_tantivy, add_extras, read_extras, value_as,
}
use lixun.Index.Laws.{IsLookedUp, IsLookedUp-All}
use lixun.Index.Spec.{IsTantivy, IsReliable}
use lixun.IndexService.{
  Mutation, upsert_one, delete_one, upsert_many, delete_many, delete_subtree,
  delete_source_instance, upsert_body, barrier, applied, shutdown, commit_now, id_tombstoned,
  Writer,
}
use lixun.IndexService.Apply.{
  is_stale, apply_upsert, apply_upserts, apply_delete, apply_deletes, apply_delete_subtree,
  apply_delete_source_instance, write_body, apply_upsert_body, note_body, handle_upsert_body,
  apply_mutation, collect_subtree_ids, forget_subtree,
}
use lixun.IndexService.Staged.{is_some, upsert-is_some}

add_extras-read_extras :
    (s r : PluginSchema) (xs : List (Text × PluginValue))
    → All (IsLookedUp s) r
    → is_some (add_extras s (read_extras r xs)) ≡ true
unfolding add_extras read_extras value_as
add_extras-read_extras s [] xs a = refl
add_extras-read_extras s ((name, spec) ∷ r) xs a =
    let ih = add_extras-read_extras s r xs a.1 in
    let e : get name s ≡ some spec = a.0 in ground arith

-- An action that was read from JSON can be written, and so can the one for a text that cannot be read.
abbrev pub IsRewritable : ActionJson → Type 0
IsRewritable json =
    (is_some (json.to_string (open_file [])) ≡ true)
    × ((s : Text) (a : Action) → json.from_str s ≡ some a → is_some (json.to_string a) ≡ true)

action_of-is_some :
    (json : ActionJson) (s : Text)
    → IsRewritable json
    → is_some (json.to_string (action_of json s)) ≡ true
unfolding action_of
action_of-is_some json s h = elim (Option-cases (json.from_str s)) [
  | inl e ↦ rw (e, action_of) h.0
  | inr (a, e) ↦ rw (e, action_of) (h.1 s a e)
]

secondary-is_some :
    (json : ActionJson) (s : Text)
    → IsRewritable json
    → is_some (action_text json (secondary_action_of json s)) ≡ true
unfolding secondary_action_of action_text
secondary-is_some json s h = elim (Bool-cases (is_empty s)) [
  | inl b ↦ rw (b, secondary_action_of, action_text) refl
  | inr b ↦ elim (Option-cases (json.from_str s)) [
    | inl e ↦ rw (b, e, secondary_action_of, action_text) refl
    | inr (a, e) ↦ rw (b, e, secondary_action_of, action_text) (h.1 s a e)
  ]
]

-- What was read from the index can be written to it.
to_tantivy-doc_from_tantivy :
    (s : PluginSchema) (json : ActionJson) (t : TantivyDocument) (body : Text)
    → IsRewritable json
    → HasDistinctKeys s
    → is_some (to_tantivy s json (record (doc_from_tantivy s json t) { body = some body })) ≡ true
unfolding to_tantivy action_texts doc_from_tantivy
to_tantivy-doc_from_tantivy s json t body w h =
    let a = add_extras-read_extras s s t.extras (IsLookedUp-All s h) in
    let first = action_of-is_some json t.action w in
    let second = secondary-is_some json t.secondary_action w in ground arith

module _ {W : Type 0} (cfg : IndexConfig W) where
  abbrev pub CanIndex : Document → Type 0
  CanIndex d = is_some (to_tantivy cfg.plugins cfg.json d) ≡ true

  -- The documents of a message can be converted.
  abbrev pub IsIndexable : Mutation → Type 0
  IsIndexable (upsert_one d) = CanIndex d
  IsIndexable (upsert_many ds) = All CanIndex ds
  IsIndexable _ = Unit

module _ {W : Type 0} (cfg : IndexConfig W) (laws : IsTantivy cfg.tantivy)
    (reliable : IsReliable cfg.tantivy) where
  abbrev pub IsSettled : Writer W → Type 0
  IsSettled w = (w.dirty ≡ true) ⊎ (laws.live w.index.writer ≡ laws.staged w.index.writer)

  IsSettled-apply_upsert :
      (draining : Bool) (d : Document) (w : Writer W)
      → CanIndex cfg d
      → IsSettled w
      → IsSettled (apply_upsert cfg draining d w)
  unfolding apply_upsert
  IsSettled-apply_upsert draining d w i h =
      elim (Bool-cases (id_tombstoned d.id w.subtree_tombstones)) [
        | inl e ↦ elim h [
          | inl x ↦ inl (rw (e, apply_upsert) (ground arith))
          | inr x ↦ inr (rw (e, apply_upsert) x)
        ]
        | inr e ↦ inl (rw (e, upsert-is_some cfg laws reliable d w.index, i, apply_upsert) refl)
      ]

  IsSettled-apply_upserts :
      (draining : Bool) (ds : List Document) (w : Writer W)
      → All (CanIndex cfg) ds
      → IsSettled w
      → IsSettled (apply_upserts cfg draining ds w)
  unfolding apply_upserts
  IsSettled-apply_upserts draining [] w i h = h
  IsSettled-apply_upserts draining (d ∷ ds) w i h =
      IsSettled-apply_upserts draining ds (apply_upsert cfg draining d w) i.1
        (IsSettled-apply_upsert draining d w i.0 h)

  IsSettled-apply_deletes :
      (ks : List Text) (w : Writer W) → IsSettled w → IsSettled (apply_deletes cfg ks w)
  unfolding apply_deletes apply_delete
  IsSettled-apply_deletes [] w h = h
  IsSettled-apply_deletes (k ∷ ks) w h =
      IsSettled-apply_deletes ks (apply_delete cfg k w) (inl refl)

  module _ (rewritable : IsRewritable cfg.json) (distinct : HasDistinctKeys cfg.plugins) where
    IsSettled-write_body :
        (k body : Text) (expected : Option ℤ) (w : Writer W) (o : Option TantivyDocument)
        → IsSettled w
        → let r =
            write_body cfg w.pending_batch k body expected w.index
              (Option.map (doc_from_tantivy cfg.plugins cfg.json) o) in
          IsSettled (note_body cfg r.1 w r.0)
    unfolding write_body note_body
    IsSettled-write_body k body expected w none h = h
    IsSettled-write_body k body expected w (some t) h =
        let d = doc_from_tantivy cfg.plugins cfg.json t in
        let d' : Document = record d { body = some body } in
        elim (Bool-cases (is_stale expected d k w.pending_batch.upserts)) [
          | inl e ↦ rw (e, write_body) h
          | inr e ↦
              let i = to_tantivy-doc_from_tantivy cfg.plugins cfg.json t body rewritable distinct in
              inl (rw (e, upsert-is_some cfg laws reliable d' w.index, i, write_body) refl)
        ]

    IsSettled-handle_upsert_body :
        (k body : Text) (expected : Option ℤ) (w : Writer W)
        → IsSettled w
        → IsSettled (handle_upsert_body cfg k body expected w)
    unfolding handle_upsert_body apply_upsert_body get_doc_by_id note_body
    IsSettled-handle_upsert_body k body expected w h =
        elim (Bool-cases (id_tombstoned k w.subtree_tombstones)) [
          | inl e ↦ rw (e, handle_upsert_body) h
          | inr e ↦ elim (Option-cases (cfg.tantivy.search_id k w.index.writer)) [
            | inl f ↦ rw (e, f, handle_upsert_body, apply_upsert_body, get_doc_by_id) h
            | inr (none, f) ↦
                rw (e, f, handle_upsert_body, apply_upsert_body, get_doc_by_id)
                  (IsSettled-write_body k body expected w none h)
            | inr (some t, f) ↦
                rw (e, f, handle_upsert_body, apply_upsert_body, get_doc_by_id)
                  (IsSettled-write_body k body expected w (some t) h)
          ]
        ]

    -- Every mutation whose documents can be converted keeps the writer settled.
    pub IsSettled-apply_mutation :
        (draining : Bool) (m : Mutation) (w : Writer W)
        → IsIndexable cfg m
        → IsSettled w
        → IsSettled (apply_mutation cfg draining m w)
    unfolding apply_mutation apply_delete apply_delete_subtree apply_delete_source_instance
    IsSettled-apply_mutation draining (upsert_one d) w i h = IsSettled-apply_upsert draining d w i h
    IsSettled-apply_mutation draining (upsert_many ds) w i h =
        IsSettled-apply_upserts draining ds w i h
    IsSettled-apply_mutation draining (delete_one k) w i h = inl refl
    IsSettled-apply_mutation draining (delete_many ks) w i h = IsSettled-apply_deletes ks w h
    IsSettled-apply_mutation draining (delete_subtree p) w i h =
        IsSettled-apply_deletes (collect_subtree_ids cfg w.index w.pending_batch p)
          (record w { pending_batch = forget_subtree p w.pending_batch }) h
    IsSettled-apply_mutation draining (delete_source_instance k) w i h = inl refl
    IsSettled-apply_mutation draining (upsert_body k body expected) w i h =
        IsSettled-handle_upsert_body k body expected w h
    IsSettled-apply_mutation draining (barrier r) w i h = h
    IsSettled-apply_mutation draining (applied r) w i h = h
    IsSettled-apply_mutation draining shutdown w i h = h
    IsSettled-apply_mutation draining (commit_now r) w i h = h
