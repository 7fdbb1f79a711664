-- ===== src/Index/Convert.antt =====
-- The document as Tantivy stores it, and back: the second half of `LixunIndex::upsert`, and
-- `doc_from_tantivy`.
use lixun.Common.{Bool, true, false, Option, none, some, List, [], ◌∷◌, if◌then◌else◌, ℕ}
use lixun.Common.Text.{Text, text_eq, is_empty, codes}
use lixun.Common.Dict.{Dict, get}
use lixun.Common.Int.{ℤ}
use lixun.Document.{
  Document, Category, app, file, mail, attachment, calculator, shell, as_str, Action, open_file,
  PluginValue, PluginFieldSpec, PluginFieldType, text_field, keyword_field, i64_field, u64_field,
  bool_field, ExtraFieldValue,
}
use lixun.Document

-- `extras` of the compiled plugin schema, by the field's name.
abbrev pub PluginSchema : Type 0
PluginSchema = Dict PluginFieldSpec

-- The values that the code adds to one document, by field.
pub record TantivyDocument : Type 0 where
  pub id : Text
  pub category : Text
  pub title : Text
  pub subtitle : Text
  pub icon_name : Text
  pub kind_label : Text
  pub body : Text
  pub path : Text
  pub mtime : ℤ
  pub size : ℕ
  pub action : Text
  pub secondary_action : Text
  pub extract_fail : Bool
  pub sender : Text
  pub recipients : Text
  pub source_instance : Text
  pub mime : Text
  pub extras : List (Text × PluginValue)

unfoldable pub unwrap_or_empty : Option Text → Text
unwrap_or_empty none = []
unwrap_or_empty (some s) = s

-- Whether a value may be added to a field of a type.
unfoldable pub fits : PluginFieldType → PluginValue → Bool
fits (text_field _) (Document.text _) = true
fits keyword_field (Document.text _) = true
fits i64_field (Document.i64 _) = true
fits u64_field (Document.u64 _) = true
fits bool_field (Document.bool _) = true
fits _ _ = false

-- The loop over `doc.extra`: a field that no plugin registered, or a value of another type, fails.
unfoldable pub add_extras : PluginSchema → List ExtraFieldValue → Option (List (Text × PluginValue))
unfolding fits
add_extras s [] = some []
add_extras s (e ∷ es) =
    let rest = add_extras s es in
    elim (get e.field s) [
      | none ↦ none
      | some spec ↦
          if fits spec.ty e.value
          then elim rest [ none ↦ none | some xs ↦ some ((e.field, e.value) ∷ xs) ]
          else none
    ]

-- `serde_json::to_string` of an action, which fails for a path that is not UTF-8, and `from_str`.
pub record ActionJson : Type 0 where
  pub to_string : Action → Option Text
  pub from_str : Text → Option Action

-- `secondary_action_json`: the empty text where there is no action.
unfoldable pub action_text : ActionJson → Option Action → Option Text
action_text json none = some []
action_text json (some a) = json.to_string a

-- The texts of the two actions, the first before the second.
unfoldable pub action_texts : ActionJson → Document → Option (Text × Text)
unfolding action_text
action_texts json d = elim (json.to_string d.action) [
  | none ↦ none
  | some action ↦ elim (action_text json d.secondary_action) [
    | none ↦ none
    | some secondary ↦ some (action, secondary)
  ]
]

unfoldable pub to_tantivy : PluginSchema → ActionJson → Document → Option TantivyDocument
unfolding unwrap_or_empty add_extras action_texts
to_tantivy s json d = elim (action_texts json d) [
  | none ↦ none
  | some (action, secondary) ↦ elim (add_extras s d.extra) [
    | none ↦ none
    | some xs ↦ some (record {
      id = d.id;
      category = as_str d.category;
      title = d.title;
      subtitle = d.subtitle;
      icon_name = unwrap_or_empty d.icon_name;
      kind_label = unwrap_or_empty d.kind_label;
      body = unwrap_or_empty d.body;
      path = d.path;
      mtime = d.mtime;
      size = d.size;
      action = action;
      secondary_action = secondary;
      extract_fail = d.extract_fail;
      sender = unwrap_or_empty d.sender;
      recipients = unwrap_or_empty d.recipients;
      source_instance = d.source_instance;
      mime = unwrap_or_empty d.mime;
      extras = xs;
    })
  ]
]

unfoldable pub stored_optional_text : Text → Option Text
stored_optional_text s = if is_empty s then none else some s

unfoldable pub category_of : Text → Category
category_of s =
    if text_eq s (codes "app")
    then app
    else if text_eq s (codes "file")
    then file
    else if text_eq s (codes "mail")
    then mail
    else if text_eq s (codes "attachment")
    then attachment
    else if text_eq s (codes "calculator")
    then calculator
    else if text_eq s (codes "shell")
    then shell
    else file

unfoldable pub action_of : ActionJson → Text → Action
action_of json s = elim (json.from_str s) [ none ↦ open_file [] | some a ↦ a ]

unfoldable pub secondary_action_of : ActionJson → Text → Option Action
secondary_action_of json s = if is_empty s then none else json.from_str s

-- `as_str`, `as_i64`, `as_u64` or `as_bool`, by the type of the field.
unfoldable pub value_as : PluginFieldType → Option PluginValue → Option PluginValue
unfolding fits
value_as ty none = none
value_as ty (some v) = if fits ty v then some v else none

-- The loop over the registered fields: the first value of each that is stored.
unfoldable pub read_extras : PluginSchema → List (Text × PluginValue) → List ExtraFieldValue
unfolding value_as
read_extras [] xs = []
read_extras ((name, spec) ∷ s) xs =
    let rest = read_extras s xs in
    if spec.stored
    then elim (value_as spec.ty (get name xs)) [
      | none ↦ rest
      | some v ↦ record { field = name; value = v } ∷ rest
    ]
    else rest

unfoldable pub doc_from_tantivy : PluginSchema → ActionJson → TantivyDocument → Document
unfolding stored_optional_text category_of action_of secondary_action_of read_extras
doc_from_tantivy s json t = record {
  id = t.id;
  category = category_of t.category;
  title = t.title;
  subtitle = t.subtitle;
  icon_name = stored_optional_text t.icon_name;
  kind_label = stored_optional_text t.kind_label;
  body = stored_optional_text t.body;
  path = t.path;
  mtime = t.mtime;
  size = t.size;
  action = action_of json t.action;
  extract_fail = t.extract_fail;
  sender = stored_optional_text t.sender;
  recipients = stored_optional_text t.recipients;
  source_instance = t.source_instance;
  extra = read_extras s t.extras;
  secondary_action = secondary_action_of json t.secondary_action;
  mime = none;
}
