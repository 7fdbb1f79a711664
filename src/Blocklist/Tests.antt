-- ===== src/Blocklist/Tests.antt =====
-- The blocklist on small inputs.
use lixun.Common.{Bool, true, false, not, List, [], ◌∷◌, ◌≡◌, ◌⊎◌, refl, if◌then◌else◌}
use lixun.Common.Text.{Text, text_eq, codes}
use lixun.Blocklist.{Blocklist, set_hidden, contains, list, insert, remove}
use lixun.Blocklist.Laws.{set_hidden_lem, IsAscending}

abbrev two : Blocklist
two = record { docs = codes "a" ∷ codes "c" ∷ [] }

two-IsAscending : IsAscending (list two)
unfolding list lixun.Common.Text.text_lt
two-IsAscending = ((refl, tt), (tt, tt))

hidden_between : (set_hidden two (codes "b") true).0.docs ≡ codes "a" ∷ codes "b" ∷ codes "c" ∷ []
unfolding set_hidden insert text_eq lixun.Common.Text.text_lt
hidden_between = refl

shown_again : (set_hidden two (codes "a") false).0.docs ≡ codes "c" ∷ []
unfolding set_hidden remove text_eq
shown_again = refl

set_hidden_example :
    let (b', changed) = set_hidden two (codes "b") true in
    IsAscending (list b')
    × ((i : Text) → contains b' i ≡ (if text_eq (codes "b") i then true else contains two i))
    × (((changed ≡ true) × (contains two (codes "b") ≡ not true))
        ⊎ ((changed ≡ false) × (contains two (codes "b") ≡ true)))
set_hidden_example = set_hidden_lem two (codes "b") true two-IsAscending
