-- ===== src/QueryLatch/Tests.antt =====
-- Latches on small inputs.
use lixun.Common.{
  ℕ, arith, min, Bool, true, false, Option, none, some, List, [], ◌∷◌, ◌≡◌, ◌⊎◌, refl,
  if◌then◌else◌, leb,
}
use lixun.Common.Text.{Text, codes, text_eq, is_empty}
use lixun.Common.Dict.{HasDistinctKeys}
use lixun.Common.Int.{pos}
use lixun.Common.Sort.{All}
use lixun.Normalize.{normalize_for_latch_key}
use lixun.QueryLatch.{QueryLatchStore, LatchEntry, empty, entry_in, remove_doc, strong, record_key}
use lixun.QueryLatch.Laws.{record_all, times, Choices, strong-record_all}
use lixun.QueryLatch.Removal.{remove_doc-unlatches, IsUsed}

abbrev same : Text → Text
same s = s

-- The latest first.
abbrev chosen : Choices
chosen =
    (codes "a", codes "d", pos 20)
    ∷ (codes "a", codes "e", pos 10)
    ∷ (codes "a", codes "d", pos 5)
    ∷ []

abbrev store : QueryLatchStore
store = record_all empty chosen

not_blank : is_empty (codes "a") ≡ false
unfolding is_empty
not_blank = refl

key_not_blank : is_empty (normalize_for_latch_key same same (codes "a")) ≡ false
unfolding is_empty normalize_for_latch_key lixun.Normalize.without_quotes
    lixun.Normalize.trim_end_stripped lixun.Normalize.normalize_for_match
    lixun.Normalize.collapse_whitespace lixun.Common.Text.trim lixun.Normalize.without_marks
    lixun.Normalize.is_combining_mark lixun.Normalize.is_stripped
key_not_blank = refl

strong-record_all_example :
    strong same same store (codes "a") (codes "d") 2
    ≡ leb 2 (min (times (normalize_for_latch_key same same (codes "a")) (codes "d") chosen) 50)
strong-record_all_example =
    strong-record_all same same (codes "a") (codes "d") 2 chosen key_not_blank (omega arith)

distinct : HasDistinctKeys store.by_query
unfolding record_all record_key lixun.Common.Dict.put text_eq lixun.Common.Dict.get
distinct = (refl, tt)

remove_doc-unlatches_example :
    let (s', removed) = remove_doc store (codes "d") in
    ((key d : Text)
      → entry_in key d s'.by_query
        ≡ (if text_eq (codes "d") d then none else entry_in key d store.by_query))
    × All IsUsed s'.by_query
    × (((removed ≡ false) × ((key : Text) → entry_in key (codes "d") store.by_query ≡ none))
        ⊎ ((removed ≡ true)
            × ((key : Text) × (e : LatchEntry) × (entry_in key (codes "d") store.by_query
                  ≡ some e))))
remove_doc-unlatches_example = remove_doc-unlatches store (codes "d") distinct
