-- ===== src/SymlinkAlias.antt =====
-- crates/lixun-daemon/src/symlink_alias.rs: which canonical document an observed path stands for. A lock
-- that a panic poisoned is entered all the same, so the lock leaves no trace here.
pub mod Laws
mod Tests
use lixun.Common.{Bool, true, false, Option, none, some, List, [], ◌∷◌, if◌then◌else◌}
use lixun.Common.Text.{Text, text_eq, codes}
use lixun.Common.Dict.{Dict, get, put}
use lixun.StateFile
use lixun.StateFile.{Disk, Call, Json}

pub record SymlinkAliases : Type 0 where
  pub map : Dict Text

abbrev pub empty : SymlinkAliases
empty = record { map = [] }

unfoldable pub note : SymlinkAliases → Text → Text → SymlinkAliases
note s observed canonical_id = record { map = put observed canonical_id s.map }

unfoldable pub resolve : SymlinkAliases → Text → Option Text
resolve s observed = get observed s.map

-- `retain(|_, v| v != canonical_id)`.
unfoldable pub without_value : Text → Dict Text → Dict Text
without_value v [] = []
without_value v ((k, w) ∷ m) =
    let rest = without_value v m in if text_eq w v then rest else (k, w) ∷ rest

unfoldable pub forget : SymlinkAliases → Text → SymlinkAliases
forget s canonical_id = record { map = without_value canonical_id s.map }

module _ (json : Json SymlinkAliases) where
  unfoldable pub load : Text → Disk → SymlinkAliases
  load dir d = StateFile.load json empty (codes "symlink_aliases.json") dir d

  unfoldable pub save : SymlinkAliases → Text → List Call
  save s dir = StateFile.save json (codes "symlink_aliases.json") s dir
