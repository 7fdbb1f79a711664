-- ===== src/Frecency/Tests.antt =====
-- Clicks on small inputs.
use mathlib.Core.List.{Perm}
use lixun.Common.{map, ℕ, List, [], ◌∷◌, ◌≡◌, take}
use lixun.Common.Text.{Text, codes}
use lixun.Common.Int.{ℤ, pos}
use lixun.Common.Sort.{IsSorted}
use lixun.Fixtures.{decimals, decimals-IsIeee}
use lixun.Frecency.{FrecencyStore, top_docs, empty}
use lixun.Frecency.Laws.{record_all, history, visits_of, latest_ten, record_all-history}
use lixun.Frecency.Ranking.{top_docs_lem, above_zero, ranks_higher}

-- The latest first.
abbrev clicks : List (Text × ℤ)
clicks = (codes "b", pos 500000) ∷ (codes "a", pos 10) ∷ (codes "b", pos 5) ∷ []

abbrev store : FrecencyStore
store = record_all empty clicks

record_all-history_example : visits_of store (codes "b") ≡ latest_ten (history (codes "b") clicks)
record_all-history_example = record_all-history (codes "b") clicks

top_docs_example :
    (ranked : List (ℕ × Text)) × (top_docs decimals store (pos 600000) 1
      ≡ map (λ (p : ℕ × Text). p.1) (take 1 ranked))
    × Perm ranked (above_zero decimals decimals-IsIeee store (pos 600000) store.records)
    × IsSorted (ranks_higher decimals decimals-IsIeee) ranked
top_docs_example = top_docs_lem decimals decimals-IsIeee store (pos 600000) 1
