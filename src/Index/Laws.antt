-- ===== src/Index/Laws.antt =====
-- A document that is stored and read back.
use lixun.Common.{
  true, false, Option, none, some, List, [], ◌∷◌, ◌≡◌, refl, arith, if◌then◌else◌, Bool-cases,
  Option-cases, inl, inr, ap, sym, subst, ◌∙◌,
}
use lixun.Common.Text.{Text, text_eq, text_eq_refl, eq_of_text_eq, is_empty}
use lixun.Common.Dict.{get, HasDistinctKeys}
use mathlib.Core.Option.{some-injective, none-ne-some}
use lixun.Common.Sort.{All, All-map}
use lixun.Document.{
  Document, Category, as_str, Action, PluginValue, PluginFieldSpec, ExtraFieldValue,
}
use lixun.Document
use lixun.Index.Convert.{
  PluginSchema, TantivyDocument, fits, add_extras, to_tantivy, stored_optional_text,
  unwrap_or_empty, category_of, action_of, action_text, action_texts, ActionJson,
  secondary_action_of, value_as, read_extras, doc_from_tantivy,
}

category_of-as_str : (c : Category) → category_of (as_str c) ≡ c
unfolding category_of as_str text_eq
category_of-as_str Document.app = refl
category_of-as_str Document.file = refl
category_of-as_str Document.mail = refl
category_of-as_str Document.attachment = refl
category_of-as_str Document.calculator = refl
category_of-as_str Document.shell = refl

-- An empty text reads back as none.
abbrev pub non_empty : Option Text → Option Text
non_empty none = none
non_empty (some []) = none
non_empty (some (c ∷ s)) = some (c ∷ s)

stored-unwrap : (o : Option Text) → stored_optional_text (unwrap_or_empty o) ≡ non_empty o
unfolding stored_optional_text unwrap_or_empty is_empty
stored-unwrap none = refl
stored-unwrap (some []) = refl
stored-unwrap (some (c ∷ s)) = refl

-- The first value that a document gives for a field.
abbrev pub first_value : Text → List ExtraFieldValue → Option PluginValue
first_value k [] = none
first_value k (e ∷ es) = if text_eq e.field k then some e.value else first_value k es

-- What is left of the extra fields: those of the schema that are stored and that the document has, once
-- each, in the order of the schema.
abbrev pub kept : PluginSchema → List ExtraFieldValue → List ExtraFieldValue
kept [] es = []
kept ((name, spec) ∷ s) es =
    if spec.stored
    then elim (first_value name es) [
      | none ↦ kept s es
      | some v ↦ record { field = name; value = v } ∷ kept s es
    ]
    else kept s es

-- What a further extra field that was added tells.
record Added (s : PluginSchema) (e : ExtraFieldValue) (es : List ExtraFieldValue)
    (xs : List (Text × PluginValue)) : Type 0 where
  spec : PluginFieldSpec
  registered : get e.field s ≡ some spec
  fitting : fits spec.ty e.value ≡ true
  others : List (Text × PluginValue)
  added : add_extras s es ≡ some others
  first : xs ≡ (e.field, e.value) ∷ others

add_extras-Added :
    (s : PluginSchema) (e : ExtraFieldValue) (es : List ExtraFieldValue)
    (xs : List (Text × PluginValue))
    → add_extras s (e ∷ es) ≡ some xs
    → Added s e es xs
unfolding add_extras
add_extras-Added s e es xs h = elim (Option-cases (get e.field s)) [
  | inl f ↦ absurd (ground arith)
  | inr (spec, f) ↦ elim (Option-cases (add_extras s es)) [
    | inl g ↦ absurd (ground arith)
    | inr (others, g) ↦ record {
      spec = spec;
      registered = f;
      fitting = ground arith;
      others = others;
      added = g;
      first = ground arith;
    }
  ]
]

first_value-add_extras :
    (s : PluginSchema) (es : List ExtraFieldValue) (xs : List (Text × PluginValue)) (k : Text)
    → add_extras s es ≡ some xs
    → get k xs ≡ first_value k es
unfolding add_extras get
first_value-add_extras s [] xs k h = ground arith
first_value-add_extras s (e ∷ es) xs k h =
    let a = add_extras-Added s e es xs h in
    let ih = first_value-add_extras s es a.others k a.added in rw (a.first, get, ih) refl

-- A value that was added fits its field.
first_value-fits :
    (s : PluginSchema) (es : List ExtraFieldValue) (xs : List (Text × PluginValue)) (k : Text)
    (spec : PluginFieldSpec) (v : PluginValue)
    → add_extras s es ≡ some xs
    → get k s ≡ some spec
    → first_value k es ≡ some v
    → fits spec.ty v ≡ true
first_value-fits s [] xs k spec v h e f = absurd (ground arith)
first_value-fits s (e ∷ es) xs k spec v h g f =
    let a = add_extras-Added s e es xs h in
    elim (Bool-cases (text_eq e.field k)) [
      | inl q ↦
          let same : a.spec ≡ spec =
            some-injective a.spec spec
              (sym a.registered ∙ ap (λ (j : Text). get j s) (eq_of_text_eq e.field k q) ∙ g) in
          let val : e.value ≡ v = ground arith in
          subst (λ (x : PluginFieldSpec). fits x.ty v ≡ true) same (rw (← val) a.fitting)
      | inr q ↦ first_value-fits s es a.others k spec v a.added g (ground arith)
    ]

-- The registered fields, looked up by their names.
abbrev pub IsLookedUp : PluginSchema → Text × PluginFieldSpec → Type 0
IsLookedUp s p = get p.0 s ≡ some p.1

read_extras-kept :
    (s : PluginSchema) (es : List ExtraFieldValue) (xs : List (Text × PluginValue))
    (r : PluginSchema)
    → add_extras s es ≡ some xs
    → All (IsLookedUp s) r
    → read_extras r xs ≡ kept r es
unfolding read_extras value_as
read_extras-kept s es xs [] h a = refl
read_extras-kept s es xs ((name, spec) ∷ r) h a =
    let ih = read_extras-kept s es xs r h a.1 in
    elim (Option-cases (first_value name es)) [
      | inl f ↦ rw (first_value-add_extras s es xs name h, f, ih) refl
      | inr (v, f) ↦
          rw
            (first_value-add_extras s es xs name h, f, first_value-fits s es xs name spec v h a.0 f)
            (ap
              (λ (t : List ExtraFieldValue).
                if spec.stored then record { field = name; value = v } ∷ t else t)
              ih)
    ]

-- Every entry of a schema with distinct names is the one that its name gives.
pub IsLookedUp-All : (s : PluginSchema) → HasDistinctKeys s → All (IsLookedUp s) s
unfolding get
IsLookedUp-All [] h = tt
IsLookedUp-All ((k, v) ∷ s) h =
    (rw (text_eq_refl k) refl, All-map s (λ p q. later p q) (IsLookedUp-All s h.1))
  where
    later : (p : Text × PluginFieldSpec) → IsLookedUp s p → IsLookedUp ((k, v) ∷ s) p
    later p q = elim (Bool-cases (text_eq k p.0)) [
      | inl e ↦
          absurd
            (none-ne-some p.1 (sym h.0 ∙ ap (λ (j : Text). get j s) (eq_of_text_eq k p.0 e) ∙ q))
      | inr e ↦ rw e q
    ]

-- `serde_json` reads an action back from what it writes for it, which is not the empty text.
abbrev pub ReadsBack : ActionJson → Action → Type 0
ReadsBack json a =
    (s : Text) × (json.to_string a ≡ some s) × (json.from_str s ≡ some a) × (is_empty s ≡ false)

abbrev pub ReadsBackOption : ActionJson → Option Action → Type 0
ReadsBackOption json none = Unit
ReadsBackOption json (some a) = ReadsBack json a

ReadsBack-written :
    (json : ActionJson) (a : Action) (s : Text)
    → ReadsBack json a
    → json.to_string a ≡ some s
    → (json.from_str s ≡ some a) × (is_empty s ≡ false)
ReadsBack-written json a s (s0, w, r, n) e =
    let same = some-injective s0 s (sym w ∙ e) in rw (← same) (r, n)

action_of-to_string :
    (json : ActionJson) (a : Action) (s : Text)
    → ReadsBack json a
    → json.to_string a ≡ some s
    → action_of json s ≡ a
unfolding action_of
action_of-to_string json a s r e = rw ((ReadsBack-written json a s r e).0, action_of) refl

secondary_action_of-action_text :
    (json : ActionJson) (o : Option Action) (s : Text)
    → ReadsBackOption json o
    → action_text json o ≡ some s
    → secondary_action_of json s ≡ o
unfolding secondary_action_of action_text is_empty
secondary_action_of-action_text json none s r e = rw (← some-injective [] s e) refl
secondary_action_of-action_text json (some a) s r e =
    let (back, full) = ReadsBack-written json a s r e in rw (full, back) refl

-- The two texts that were written.
action_texts-parts :
    (json : ActionJson) (d : Document) (a b : Text)
    → action_texts json d ≡ some (a, b)
    → (json.to_string d.action ≡ some a) × (action_text json d.secondary_action ≡ some b)
unfolding action_texts
action_texts-parts json d a b h = elim (Option-cases (json.to_string d.action)) [
  | inl e ↦ absurd (ground arith)
  | inr (x, e) ↦ elim (Option-cases (action_text json d.secondary_action)) [
    | inl f ↦ absurd (ground arith)
    | inr (y, f) ↦ (ground arith, ground arith)
  ]
]

-- A document that is stored and read back keeps all its fields but three: the MIME type is lost, an
-- empty optional text becomes none, and of the extra fields the first value of each field that is
-- stored is kept. It needs of `serde_json` that it reads back the document's actions, and of the schema
-- that its names are distinct.
pub doc_from_tantivy-to_tantivy :
    (s : PluginSchema) (json : ActionJson) (d : Document) (t : TantivyDocument)
    → ReadsBack json d.action
    → ReadsBackOption json d.secondary_action
    → HasDistinctKeys s
    → to_tantivy s json d ≡ some t
    → doc_from_tantivy s json t ≡ record d {
      icon_name = non_empty d.icon_name;
      kind_label = non_empty d.kind_label;
      body = non_empty d.body;
      sender = non_empty d.sender;
      recipients = non_empty d.recipients;
      extra = kept s d.extra;
      mime = none;
    }
unfolding to_tantivy doc_from_tantivy
doc_from_tantivy-to_tantivy s json d t r r' distinct h = elim (Option-cases (action_texts json d)) [
  | inl e ↦ absurd (ground arith)
  | inr ((a, b), f) ↦ elim (Option-cases (add_extras s d.extra)) [
    | inl e ↦ absurd (ground arith)
    | inr (xs, e) ↦
        let same = some-injective _ t (rw (f, e, to_tantivy) at h) in
        let (first, second) = action_texts-parts json d a b f in
        rw
          (
            ← same,
            category_of-as_str d.category,
            stored-unwrap d.icon_name,
            stored-unwrap d.kind_label,
            stored-unwrap d.body,
            stored-unwrap d.sender,
            stored-unwrap d.recipients,
            action_of-to_string json d.action a r first,
            secondary_action_of-action_text json d.secondary_action b r' second,
            read_extras-kept s d.extra xs s e (IsLookedUp-All s distinct),
          )
          refl
  ]
]
