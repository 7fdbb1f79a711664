-- ===== src/Document.antt =====
-- crates/lixun-core/src/lib.rs: the document that the sources hand to the index, and the types it is
-- made of. A path is its text.
mod Tests
use lixun.Common.{ℕ, Bool, true, false, Option, none, some, List, [], ◌∷◌}
use lixun.Common.Text.{Text, codes}
use lixun.Common.Int.{ℤ}

pub data Category : Type 0 where
  app file mail attachment calculator shell : Category

unfoldable pub as_str : Category → Text
as_str app = codes "app"
as_str file = codes "file"
as_str mail = codes "mail"
as_str attachment = codes "attachment"
as_str calculator = codes "calculator"
as_str shell = codes "shell"

pub record LaunchAction : Type 0 where
  pub exec : List Text
  pub terminal : Bool
  pub desktop_id : Option Text
  pub desktop_file : Option Text
  pub working_dir : Option Text

pub record EmbeddedAction : Type 0 where
  pub container : Text
  pub byte_offset : ℕ
  pub length : ℕ
  pub mime : Text
  pub encoding : Text
  pub suggested_filename : Text

pub data Action : Type 0 where
  launch : LaunchAction → Action
  open_file show_in_file_manager replace_query open_uri copy_text : Text → Action
  open_embedded : EmbeddedAction → Action
  exec : List Text → Option Text → Bool → Action
  exec_capture : List Text → Option Text → Action

pub data PluginValue : Type 0 where
  text : Text → PluginValue
  i64 : ℤ → PluginValue
  u64 : ℕ → PluginValue
  bool : Bool → PluginValue

pub data TextTokenizer : Type 0 where
  default raw spotlight : TextTokenizer

pub data PluginFieldType : Type 0 where
  text_field : TextTokenizer → PluginFieldType
  keyword_field i64_field u64_field bool_field : PluginFieldType

pub record PluginFieldSpec : Type 0 where
  pub schema_name : Text
  pub query_alias : Option Text
  pub ty : PluginFieldType
  pub stored : Bool
  pub default_search : Bool

pub record ExtraFieldValue : Type 0 where
  pub field : Text
  pub value : PluginValue

pub record Document : Type 0 where
  pub id : Text
  pub category : Category
  pub title : Text
  pub subtitle : Text
  pub icon_name : Option Text
  pub kind_label : Option Text
  pub body : Option Text
  pub path : Text
  pub mtime : ℤ
  pub size : ℕ
  pub action : Action
  pub extract_fail : Bool
  pub sender : Option Text
  pub recipients : Option Text
  pub source_instance : Text
  pub extra : List ExtraFieldValue
  pub secondary_action : Option Action
  pub mime : Option Text
