-- ===== src/TopHit/Tests.antt =====
-- Two hits, one of which was chosen for the query.
use lixun.Common.{
  ℕ, Bool, true, false, Option, none, some, List, [], ◌∷◌, ◌≡◌, ◌&&◌, ◌||◌, refl, if◌then◌else◌,
}
use lixun.Common.Text.{Text, codes}
use lixun.Common.Int.{pos}
use lixun.Fixtures.{decimals, decimals-IsIeee, ascii}
use lixun.Frecency
use lixun.QueryLatch
use lixun.QueryLatch.{QueryLatchStore, strong, record_choice}
use lixun.Fusion.Hits.{Hit}
use lixun.TopHit.{select_top_hit, margin_of}
use lixun.TopHit.Laws.{KnowsOne, matches_title, leads, select_top_hit_lem}

abbrev same : Text → Text
same s = s

-- A hit whose other fields are its title.
abbrev firefox : Hit ℕ Text
firefox = record { id = codes "app:firefox"; score = 90000; rest = codes "Firefox" }

abbrev notes : Hit ℕ Text
notes = record { id = codes "fs:/notes"; score = 30000; rest = codes "notes on ff" }

abbrev latch : QueryLatchStore
latch = record_choice same same lixun.QueryLatch.empty (codes "ff") (codes "app:firefox") (pos 10)

abbrev infinity : ℕ
infinity = 1000000000

abbrev decision : Text → Text → ℕ → Option Text
decision q choice threshold =
    (select_top_hit decimals infinity 0 same same same ascii q (firefox ∷ notes ∷ [])
      lixun.Frecency.empty
      (record_choice same same lixun.QueryLatch.empty choice firefox.id (pos 10)) (pos 20) 5000
      20000 threshold).id

decimals-KnowsOne : KnowsOne decimals
decimals-KnowsOne = record { zero_lt_one = refl; one_lt_two = refl }

select_top_hit_example :
    (select_top_hit decimals infinity 0 same same same ascii
      (codes "ff")
      (firefox ∷ notes ∷ [])
      lixun.Frecency.empty
      latch
      (pos 20)
      5000
      20000
      1).id
    ≡ (if ((matches_title same same ascii (codes "ff") (codes "Firefox")
              || strong same same latch (codes "ff") (codes "app:firefox") 1)
            || leads decimals lixun.Frecency.empty (pos 20) (firefox ∷ notes ∷ []))
          && decimals.le 20000 (margin_of decimals infinity (firefox ∷ notes ∷ []))
        then some (codes "app:firefox")
        else none)
select_top_hit_example =
    select_top_hit_lem decimals decimals-IsIeee decimals-KnowsOne infinity 0 same same same ascii
      (codes "ff") firefox (notes ∷ []) lixun.Frecency.empty latch (pos 20) 5000 20000 1 refl refl

latched : decision (codes "xy") (codes "xy") 1 ≡ some (codes "app:firefox")
unfolding select_top_hit lixun.Normalize.normalize_for_match lixun.Normalize.collapse_whitespace
    lixun.Common.Text.trim lixun.Normalize.without_marks lixun.Normalize.is_combining_mark
    lixun.Scoring.acronym_initials strong lixun.QueryLatch.entry_of lixun.Common.Dict.get
    record_choice lixun.Normalize.normalize_for_latch_key lixun.Normalize.without_quotes
    lixun.Normalize.trim_end_stripped lixun.Normalize.is_stripped lixun.Common.Dict.put
    lixun.Common.Text.text_eq lixun.Frecency.raw
latched = refl

not_chosen_enough : decision (codes "xy") (codes "xy") 2 ≡ none
unfolding select_top_hit lixun.Normalize.normalize_for_match lixun.Normalize.collapse_whitespace
    lixun.Common.Text.trim lixun.Normalize.without_marks lixun.Normalize.is_combining_mark
    lixun.Scoring.acronym_initials strong lixun.QueryLatch.entry_of lixun.Common.Dict.get
    record_choice lixun.Normalize.normalize_for_latch_key lixun.Normalize.without_quotes
    lixun.Normalize.trim_end_stripped lixun.Normalize.is_stripped lixun.Common.Dict.put
    lixun.Common.Text.text_eq lixun.Frecency.raw
not_chosen_enough = refl

prefix : decision (codes "Fire") (codes "xy") 2 ≡ some (codes "app:firefox")
unfolding select_top_hit lixun.Normalize.normalize_for_match lixun.Normalize.collapse_whitespace
    lixun.Common.Text.trim lixun.Normalize.without_marks lixun.Normalize.is_combining_mark
    lixun.Scoring.acronym_initials strong lixun.QueryLatch.entry_of lixun.Common.Dict.get
    record_choice lixun.Normalize.normalize_for_latch_key lixun.Normalize.without_quotes
    lixun.Normalize.trim_end_stripped lixun.Normalize.is_stripped lixun.Common.Dict.put
    lixun.Common.Text.text_eq lixun.Frecency.raw
prefix = refl
