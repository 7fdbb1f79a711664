-- ===== src/QueryLog/Tests.antt =====
-- The query log on small inputs.
use lixun.Common.{ℕ, List, [], ◌∷◌, ◌≡◌, refl, take}
use lixun.Common.Text.{Text, codes, trim}
use lixun.QueryLog.{record_query, recent, record_trimmed, truncate, without}
use lixun.QueryLog.Laws.{record_all, latest, record_all-latest, IsDistinct}

-- The latest first.
abbrev typed : List Text
typed = codes " b " ∷ codes "a" ∷ codes "  " ∷ codes "b" ∷ []

latest_of_typed :
    recent (record_all (record { entries = []; max = 2 }) typed) 5 ≡ codes "b" ∷ codes "a" ∷ []
unfolding recent record_all record_query record_trimmed truncate without trim
    lixun.Common.Text.text_eq
latest_of_typed = refl

record_all-latest_example :
    let log = record_all (record { entries = []; max = 2 }) typed in
    (recent log 1 ≡ take 1 (take 2 (latest typed))) × IsDistinct log.entries
record_all-latest_example = record_all-latest 2 1 typed
