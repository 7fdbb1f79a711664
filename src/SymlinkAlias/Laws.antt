-- ===== src/SymlinkAlias/Laws.antt =====
-- The alias map after any notes and deletions.
use lixun.Common.{
  Option, none, some, List, [], ◌∷◌, ◌≡◌, refl, arith, if◌then◌else◌, Bool-cases, inl, inr, ap,
}
use lixun.Common.Text.{Text, text_eq, text_eq_iff}
use lixun.Common.Dict.{Dict, get, get-put, HasDistinctKeys, put-HasDistinctKeys}
use lixun.SymlinkAlias.{SymlinkAliases, empty, note, resolve, without_value, forget}

-- What the watcher tells the map.
pub data Event : Type 0 where
  noted : Text → Text → Event
  forgotten : Text → Event

-- The events, the latest first.
unfoldable pub replay : List Event → SymlinkAliases
replay [] = empty
replay (noted observed canonical_id ∷ es) = note (replay es) observed canonical_id
replay (forgotten canonical_id ∷ es) = forget (replay es) canonical_id

abbrev pub unless : Text → Option Text → Option Text
unless c none = none
unless c (some v) = if text_eq v c then none else some v

-- Specification: the latest note of the path counts, unless its document was forgotten since.
unfoldable pub latest_note : Text → List Event → Option Text
latest_note observed [] = none
latest_note observed (noted o c ∷ es) =
    let rest = latest_note observed es in if text_eq o observed then some c else rest
latest_note observed (forgotten c ∷ es) = unless c (latest_note observed es)

get-without_value-none :
    (c k : Text) (m : Dict Text) → get k m ≡ none → get k (without_value c m) ≡ none
unfolding without_value get
get-without_value-none c k [] h = refl
get-without_value-none c k ((j, w) ∷ m) h = ground (arith, get-without_value-none c k m)

get-without_value :
    (c k : Text) (m : Dict Text)
    → HasDistinctKeys m
    → get k (without_value c m) ≡ unless c (get k m)
unfolding without_value get
get-without_value c k [] h = refl
get-without_value c k ((j, w) ∷ m) h =
    ground (arith, get-without_value c k m h.1, text_eq_iff j k, get-without_value-none c k m, h.0)

without_value-HasDistinctKeys :
    (c : Text) (m : Dict Text) → HasDistinctKeys m → HasDistinctKeys (without_value c m)
unfolding without_value
without_value-HasDistinctKeys c [] h = tt
without_value-HasDistinctKeys c ((j, w) ∷ m) h = elim (Bool-cases (text_eq w c)) [
  | inl e ↦ rw e (without_value-HasDistinctKeys c m h.1)
  | inr e ↦ rw e (get-without_value-none c j m h.0, without_value-HasDistinctKeys c m h.1)
]

replay-HasDistinctKeys : (es : List Event) → HasDistinctKeys (replay es).map
unfolding replay note forget
replay-HasDistinctKeys [] = tt
replay-HasDistinctKeys (noted o c ∷ es) = put-HasDistinctKeys o c _ (replay-HasDistinctKeys es)
replay-HasDistinctKeys (forgotten c ∷ es) =
    without_value-HasDistinctKeys c _ (replay-HasDistinctKeys es)

-- After any notes and deletions a path resolves to what it was last noted as, and to nothing if it was
-- never noted or if that document was forgotten later.
pub resolve-replay :
    (observed : Text) (es : List Event) → resolve (replay es) observed ≡ latest_note observed es
unfolding resolve replay latest_note note forget get
resolve-replay observed [] = refl
resolve-replay observed (noted o c ∷ es) =
    ground (arith, get-put o observed c (replay es).map, resolve-replay observed es)
resolve-replay observed (forgotten c ∷ es) =
    rw (get-without_value c observed (replay es).map (replay-HasDistinctKeys es))
      (ap (unless c) (resolve-replay observed es))
