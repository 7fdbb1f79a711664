-- ===== src/Fusion/Tests.antt =====
-- Fusion on small inputs.
use mathlib.Core.List.{Perm}
use lixun.Common.{ℕ, ◌≤◌, max, arith, none, some, false, List, [], ◌∷◌, ◌++◌, ◌≡◌, ◌⊎◌, length}
use lixun.Common.Text.{Text, codes}
use lixun.Common.Dict.{Dict, get, HasDistinctKeys}
use lixun.Common.Sort.{IsSorted}
use lixun.Fixtures.{decimals, decimals-IsIeee}
use lixun.Fusion.{
  rrf_fuse_3way_weighted, filter_by, is_lexical, is_ann_only, precision_first, share,
}
use lixun.Fusion.Scores.{credit, ranks_from, rrf_fuse_3way_weighted_lem}
use lixun.Fusion.Order.{SharesNonneg, ranks_higher, rrf_fuse_3way_weighted-IsSorted}
use lixun.Fusion.Partition.{precision_first_lem}
use lixun.Fusion.Hits.{ScoreBreakdown, Scored, Backend, both}
use lixun.Fusion.Page.{fused_search_streaming}
use lixun.Fusion.Page.Stream.{initial_chunk, final_chunk, fused_search_streaming_lem}

abbrev lexical : List (Text × ℕ)
lexical = (codes "a", 5) ∷ (codes "b", 4) ∷ []

abbrev near : List (Text × ℕ)
near = (codes "c", 3) ∷ (codes "a", 2) ∷ []

rrf_fuse_3way_weighted_example :
    (scores : Dict ℕ) × Perm
      (rrf_fuse_3way_weighted decimals lexical near near 600000 (10000, 8000, 18000))
      scores
    × HasDistinctKeys scores
    × ((id : Text)
        → get id scores
          ≡ credit decimals 18000 600000
              (credit decimals 8000 600000
                (credit decimals 10000 600000 none (ranks_from 1 id lexical))
                (ranks_from 1 id near))
              (ranks_from 1 id near))
rrf_fuse_3way_weighted_example =
    rrf_fuse_3way_weighted_lem decimals lexical near near 600000 10000 8000 18000

nonneg : (w k : ℕ) → SharesNonneg decimals decimals-IsIeee w k
unfolding share
nonneg w k rank = ground arith

rrf_fuse_3way_weighted-IsSorted_example :
    IsSorted
      (ranks_higher decimals decimals-IsIeee)
      (rrf_fuse_3way_weighted decimals lexical near near 600000 (10000, 8000, 18000))
rrf_fuse_3way_weighted-IsSorted_example =
    rrf_fuse_3way_weighted-IsSorted decimals decimals-IsIeee lexical near near 600000 10000 8000
      18000 (nonneg 10000 600000) (nonneg 8000 600000) (nonneg 18000 600000)

abbrev fused : List (Text × ℕ)
fused = (codes "photo", 30) ∷ (codes "doc", 16) ∷ (codes "other", 15) ∷ (codes "mail", 14) ∷ []

abbrev standing : List Text
standing = codes "doc" ∷ codes "mail" ∷ []

precision_first_example :
    let out = precision_first fused (codes "doc" ∷ []) standing in
    (filter_by (is_lexical standing) out ≡ filter_by (is_lexical standing) fused)
    × (filter_by (is_ann_only standing) out ≡ filter_by (is_ann_only standing) fused)
    × (out ≡ filter_by (is_lexical standing) out ++ filter_by (is_ann_only standing) out)
precision_first_example = precision_first_lem fused (codes "doc") [] standing

abbrev plain : ScoreBreakdown ℕ
plain = record {
  tantivy = 10000;
  category_mult = 10000;
  exact_title_mult = 10000;
  prefix_mult = 10000;
  acronym_mult = 10000;
  recency_mult = 10000;
  coord_mult = 10000;
  frecency_mult = 10000;
  latch_mult = 10000;
  stage2_clamped = 10000;
  final_score = 20000;
  lexical_fallback = false;
}

abbrev hit : Text → Scored ℕ ℕ
hit id = (record { id = id; score = 20000; rest = 0 }, plain)

-- Two lexical hits; the nearest neighbour is a third document.
abbrev backend : Backend ℕ ℕ
backend = record {
  search_with_breakdown = some (hit (codes "a") ∷ hit (codes "b") ∷ []);
  search_text = λ k. some (record { doc_id = codes "c"; distance = 100 } ∷ []);
  search_image = λ k. none;
  classify_query = some both;
  cancel_wins = false;
  hydrate_docs = λ ids. some (hit (codes "c") ∷ []);
}

fused_search_streaming_example :
    let chunks = fused_search_streaming decimals backend (codes "cats") 600000 4 2 in
    ((backend.search_with_breakdown ≡ none) × (chunks ≡ []))
    ⊎ ((pairs : List (Scored ℕ ℕ)) × (backend.search_with_breakdown ≡ some pairs)
        × ((chunks ≡ initial_chunk decimals pairs ∷ [])
            ⊎ ((page : List (Scored ℕ ℕ)) × (backend.cancel_wins ≡ false)
                × (chunks ≡ initial_chunk decimals pairs ∷ final_chunk decimals page ∷ [])
                × (length page ≤ max 2 1))))
fused_search_streaming_example =
    fused_search_streaming_lem decimals backend (codes "cats") 600000 4 2
