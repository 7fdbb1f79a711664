-- ===== src/Blocklist.antt =====
-- crates/lixun-daemon/src/blocklist.rs: the doc ids that the user hid from the results. The
-- `BTreeSet<String>` is its elements in ascending order, each once.
pub mod Laws
mod Tests
use lixun.Common.{Bool, true, false, List, [], ◌∷◌, ◌||◌, if◌then◌else◌}
use lixun.Common.Text.{Text, text_eq, text_lt, codes}
use lixun.StateFile
use lixun.StateFile.{Disk, Call, Json}

pub record Blocklist : Type 0 where
  pub docs : List Text

-- `BTreeSet::insert`.
unfoldable pub insert : Text → List Text → List Text
insert k [] = k ∷ []
insert k (j ∷ js) =
    if text_eq j k then j ∷ js else if text_lt k j then k ∷ j ∷ js else j ∷ insert k js

-- `BTreeSet::remove`.
unfoldable pub remove : Text → List Text → List Text
remove k [] = []
remove k (j ∷ js) = if text_eq j k then js else j ∷ remove k js

unfoldable pub member : Text → List Text → Bool
member k [] = false
member k (j ∷ js) = text_eq j k || member k js

unfoldable pub contains : Blocklist → Text → Bool
contains b k = member k b.docs

-- `insert` returns whether the id was new, `remove` whether it was there.
unfoldable pub set_hidden : Blocklist → Text → Bool → Blocklist × Bool
set_hidden b k true = (record { docs = insert k b.docs }, if member k b.docs then false else true)
set_hidden b k false = (record { docs = remove k b.docs }, member k b.docs)

unfoldable pub is_empty : Blocklist → Bool
is_empty b = elim b.docs [ [] ↦ true | _ ∷ _ ↦ false ]

unfoldable pub list : Blocklist → List Text
list b = b.docs

abbrev pub empty : Blocklist
empty = record { docs = [] }

module _ (json : Json Blocklist) where
  unfoldable pub load : Text → Disk → Blocklist
  load dir d = StateFile.load json empty (codes "blocklist.json") dir d

  unfoldable pub save : Blocklist → Text → List Call
  save b dir = StateFile.save json (codes "blocklist.json") b dir
