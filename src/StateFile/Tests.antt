-- ===== src/StateFile/Tests.antt =====
-- Saving and loading a store on small inputs.
use lixun.Common.{ℕ, some, [], ◌≡◌, ◌⊎◌, refl}
use lixun.Common.Text.{Text, codes, text_eq}
use lixun.Fixtures.{one_store}
use lixun.StateFile.{
  Disk, FileState, missing, content, Json, load, save, exec_all, exec, update, join,
}
use lixun.StateFile.Crash.{Stops, torn, next, load-Stops}

-- The store is a number; 7 is printed as `7`, and nothing else is parsed.
abbrev codec : Json ℕ
codec = one_store 7 (codes "7")

abbrev bare : Disk
bare p = missing

abbrev file : Text
file = codes "n.json"

-- The disk after the file was created but its text not written.
abbrev half_way : Disk
half_way = update bare (join (codes "s") (codes "n.json.tmp")) (content [])

parses : codec.from_json (codec.to_json 7) ≡ some 7
unfolding text_eq
parses = refl

Stops-half_way : Stops (save codec file 7 (codes "s")) bare half_way
unfolding save exec lixun.StateFile.save_calls
Stops-half_way = next (torn (content []))

load-Stops_example :
    (load codec 0 file (codes "s") half_way ≡ load codec 0 file (codes "s") bare)
    ⊎ (load codec 0 file (codes "s") half_way ≡ 7)
load-Stops_example = load-Stops codec 0 7 (codes "s") file bare parses Stops-half_way
