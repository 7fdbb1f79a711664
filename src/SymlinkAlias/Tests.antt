-- ===== src/SymlinkAlias/Tests.antt =====
-- Aliases on small inputs.
use lixun.Common.{Option, none, some, List, [], ◌∷◌, ◌≡◌, refl}
use lixun.Common.Text.{Text, codes}
use lixun.SymlinkAlias.{SymlinkAliases, resolve, note, forget}
use lixun.SymlinkAlias.Laws.{Event, noted, forgotten, replay, latest_note, resolve-replay}

-- The latest first.
abbrev seen : List Event
seen =
    noted (codes "link") (codes "fs:new")
    ∷ forgotten (codes "fs:old")
    ∷ noted (codes "link") (codes "fs:old")
    ∷ []

new_target : resolve (replay seen) (codes "link") ≡ some (codes "fs:new")
unfolding resolve replay note forget lixun.Common.Dict.get lixun.Common.Dict.put
    lixun.SymlinkAlias.without_value lixun.Common.Text.text_eq
new_target = refl

resolve-replay_example : resolve (replay seen) (codes "link") ≡ latest_note (codes "link") seen
resolve-replay_example = resolve-replay (codes "link") seen
