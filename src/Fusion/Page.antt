-- ===== src/Fusion/Page.antt =====
-- crates/lixun-fusion/src/handle.rs: the two chunks of a hybrid search. The lexical index, the two
-- nearest-neighbour searches and the query classifier are a `Backend`; the fields of a hit that the code
-- only copies are of a type `R`. The message channel is the list of the chunks that are sent.
pub mod Stream
use lixun.Common.{
  ℕ, zero, suc, ◌+◌, ◌-◌, ◌*◌, ◌^◌, min, max, Bool, true, false, not, ◌&&◌, ◌||◌, Option, none,
  some, List, [], ◌∷◌, ◌++◌, map, if◌then◌else◌, ◌==◌, length, take, get_elem?,
}
use lixun.Common.Text.{Text, is_whitespace, is_empty, trim}
use lixun.Common.Dict.{Dict, get, put}
use lixun.Common.Float.{Float}
use lixun.Common.Sort.{sort}
use lixun.Fusion.Hits.{
  AnnHit, ScoreBreakdown, Hit, Scored, Modality, text, image, both, Phase, initial, final,
  FusionChunk, Backend,
}
use lixun.Fusion.{contains, filter_by, precision_first, rrf_fuse_3way_weighted}

unfoldable pub any_of : (ℕ → Bool) → Text → Bool
any_of p [] = false
any_of p (c ∷ cs) = p c || any_of p cs

unfoldable pub is_separator : ℕ → Bool
is_separator c = c == b'-' || c == b'_' || c == b'.' || c == b'/'

unfoldable pub looks_navigational : Text → Bool
unfolding any_of is_separator
looks_navigational query =
    let t = trim query in not (is_empty t) && not (any_of is_whitespace t) && any_of is_separator t

-- `unwrap_or_else(|_| Vec::new())`, and the same of a map.
unfoldable pub or_nil {ℓ} : {A : Type ℓ} → Option (List A) → List A
or_nil none = []
or_nil (some xs) = xs

unfoldable pub last {ℓ} : {A : Type ℓ} → List A → Option A
last [] = none
last (x ∷ []) = some x
last (x ∷ y ∷ ys) = last (y ∷ ys)

unfoldable pub chosen_modality : Text → Option Modality → Modality
chosen_modality query res =
    if looks_navigational query then text else elim res [ none ↦ text | some m ↦ m ]

unfoldable pub target_limit : ℕ → ℕ
target_limit limit = max limit 1

-- How many neighbours are asked for: `saturating_mul`.
unfoldable pub ann_k : ℕ → ℕ → ℕ
ann_k overfetch limit = max (min (limit * overfetch) (2 ^ 64 - 1)) limit

module _ {F : Type 0} where
  unfoldable pub distances : List (AnnHit F) → Dict F → Dict F
  distances [] m = m
  distances (h ∷ hs) m = distances hs (put h.doc_id h.distance m)

  unfoldable pub ann_ranked : List (AnnHit F) → List (Text × F)
  ann_ranked hits = map (λ (h : AnnHit F). (h.doc_id, h.distance)) hits

module _ {F R : Type 0} where
  abbrev pub id_of : Scored F R → Text
  id_of p = p.0.id

  -- A map from ids to hits; a later hit replaces an earlier one with its id.
  unfoldable pub by_id : List (Scored F R) → Dict (Scored F R) → Dict (Scored F R)
  by_id [] m = m
  by_id ((h, bd) ∷ ps) m = by_id ps (put h.id (h, bd) m)

  unfoldable pub is_strong : Scored F R → Bool
  is_strong (h, bd) = not bd.lexical_fallback

  unfoldable pub bm25_ranked : List (Scored F R) → List (Text × F)
  unfolding filter_by is_strong
  bm25_ranked pairs =
      map (λ (p : Scored F R). (p.0.id, p.1.final_score)) (filter_by is_strong pairs)

  unfoldable pub missing_ids : Dict (Scored F R) → List (Text × F) → List Text
  missing_ids bm25_by_id [] = []
  missing_ids bm25_by_id ((id, x) ∷ docs) =
      let rest = missing_ids bm25_by_id docs in
      elim (get id bm25_by_id) [ none ↦ id ∷ rest | some _ ↦ rest ]

  unfoldable pub is_filler : List (Scored F R) → Scored F R → Bool
  unfolding contains
  is_filler out (h, bd) = bd.lexical_fallback && not (contains (map id_of out) h.id)

module _ {F : Type 0} (fl : Float F) where
  abbrev one : F
  one = fl.decimal 1 0

  -- (bm25, text, image).
  unfoldable pub modality_weights : Modality → F × F × F
  modality_weights image = (one, fl.decimal 8 1, fl.decimal 18 1)
  modality_weights both = (one, one, fl.decimal 13 1)
  modality_weights text = (one, one, one)

  unfoldable pub score_for_rank : List F → ℕ → F → F
  unfolding last
  score_for_rank ladder pos rrf_score = elim (get_elem? ladder pos) [
    | some s ↦ s
    | none ↦ elim (last ladder) [
      | some x ↦ fl.mul x (fl.powi (fl.decimal 95 2) (pos + 1 - length ladder))
      | none ↦ rrf_score
    ]
  ]

  -- The breakdown of a hit that the lexical search did not find.
  unfoldable pub reset_breakdown : Option F → ScoreBreakdown F → ScoreBreakdown F
  reset_breakdown distance bd = record bd {
    tantivy = elim distance [ none ↦ bd.tantivy | some d ↦ d ];
    category_mult = one;
    exact_title_mult = one;
    prefix_mult = one;
    acronym_mult = one;
    recency_mult = one;
    coord_mult = one;
    frecency_mult = one;
    latch_mult = one;
    stage2_clamped = one;
  }

module _ {F R : Type 0} (fl : Float F) where
  unfoldable pub is_precise : Scored F R → Bool
  unfolding is_strong
  is_precise (h, bd) =
      is_strong (h, bd) && (fl.lt (one fl) bd.prefix_mult || fl.lt (one fl) bd.exact_title_mult)

  -- The documents in the order of fusion, each with its fused score.
  unfoldable pub fuse_pairs :
      List (Scored F R) → List (AnnHit F) → List (AnnHit F) → F → F × F × F → List (Text × F)
  unfolding bm25_ranked ann_ranked is_precise
  fuse_pairs pairs text_hits image_hits rrf_k weights =
      precision_first
        (rrf_fuse_3way_weighted fl (bm25_ranked pairs) (ann_ranked text_hits)
          (ann_ranked image_hits) rrf_k weights)
        (map id_of (filter_by is_precise pairs)) (map (λ (p : Text × F). p.0) (bm25_ranked pairs))

  -- The scores of the strong lexical hits, the highest first.
  unfoldable pub score_ladder : List (Scored F R) → List F
  unfolding filter_by is_strong
  score_ladder pairs =
      sort (λ a b. fl.lt b a)
        (map (λ (p : Scored F R). p.1.final_score) (filter_by is_strong pairs))

  unfoldable pub assign : F → Scored F R → Scored F R
  assign x (h, bd) = (record h { score = x }, record bd { final_score = x })

  -- The hit for a document, its breakdown put right; `none` where it cannot be hydrated.
  unfoldable pub hit_for :
      Dict (Scored F R) → Dict (Scored F R) → Dict F → Text → Option (Scored F R)
  unfolding reset_breakdown
  hit_for bm25_by_id hydrated_by_id ann_distance doc_id = elim (get doc_id bm25_by_id) [
    | some p ↦ some p
    | none ↦ elim (get doc_id hydrated_by_id) [
      | some p ↦ some (p.0, reset_breakdown fl (get doc_id ann_distance) p.1)
      | none ↦ none
    ]
  ]

  -- The loop over the fused documents, at position `pos`.
  unfoldable pub place :
      (Text → Option (Scored F R)) → List F → ℕ → List (Text × F) → List (Scored F R)
  unfolding score_for_rank assign
  place hit ladder pos [] = []
  place hit ladder pos ((doc_id, rrf_score) ∷ docs) =
      let rest = place hit ladder (suc pos) docs in
      elim (hit doc_id) [
        | none ↦ rest
        | some p ↦ assign (score_for_rank fl ladder pos rrf_score) p ∷ rest
      ]

  -- The filler's scores, which decay below `floor`, from the `i`th.
  unfoldable pub decay : F → ℕ → List (Scored F R) → List (Scored F R)
  unfolding assign
  decay floor i [] = []
  decay floor i (p ∷ ps) =
      assign (fl.mul floor (fl.powi (fl.decimal 95 2) (i + 1))) p ∷ decay floor (suc i) ps

  -- With an empty page the floor is 1.0. A full page takes no filler.
  unfoldable pub pad : ℕ → List (Scored F R) → List (Scored F R) → List (Scored F R)
  unfolding last filter_by is_filler decay
  pad target_limit pairs out =
      let floor : F = elim (last out) [ none ↦ one fl | some p ↦ p.0.score ] in
      out ++ decay floor 0 (take (target_limit - length out) (filter_by (is_filler out) pairs))

  -- One call hydrates all the documents that the lexical search did not find.
  unfoldable pub hydrate_missing : Backend F R → List Text → Option (List (Scored F R))
  hydrate_missing backend [] = some []
  hydrate_missing backend (id ∷ ids) = backend.hydrate_docs (id ∷ ids)

  unfoldable pub page_of :
      ℕ
      → List (Scored F R)
      → List (AnnHit F)
      → List (Scored F R)
      → List (Text × F)
      → List (Scored F R)
  unfolding by_id distances hit_for place pad score_ladder
  page_of limit pairs ann_hits hydrated docs =
      let hit = hit_for (by_id pairs []) (by_id hydrated []) (distances ann_hits []) in
      pad limit pairs (place hit (score_ladder pairs) 0 docs)

  -- The page of the Final chunk; `none` where hydration fails.
  unfoldable pub final_page :
      Backend F R
      → Text
      → F
      → ℕ
      → List (Scored F R)
      → List (AnnHit F)
      → List (AnnHit F)
      → Option (List (Scored F R))
  unfolding fuse_pairs missing_ids modality_weights chosen_modality hydrate_missing page_of
  final_page backend query rrf_k limit pairs text_hits image_hits =
      let weights = modality_weights fl (chosen_modality query backend.classify_query) in
      let docs = take limit (fuse_pairs pairs text_hits image_hits rrf_k weights) in
      elim (hydrate_missing backend (missing_ids (by_id pairs []) docs)) [
        | none ↦ none
        | some hydrated ↦ some (page_of limit pairs (text_hits ++ image_hits) hydrated docs)
      ]

  unfoldable pub fused_search_streaming : Backend F R → Text → F → ℕ → ℕ → List (FusionChunk F R)
  unfolding final_page target_limit ann_k or_nil
  fused_search_streaming backend query rrf_k overfetch limit =
      let limit' = target_limit limit in
      let k = ann_k overfetch limit' in
      elim backend.search_with_breakdown [
        | none ↦ []
        | some pairs ↦
            let first : FusionChunk F R = record { phase = initial; hits = pairs } in
            if backend.cancel_wins
            then first ∷ []
            else elim (final_page backend query rrf_k limit' pairs (or_nil (backend.search_text k))
                (or_nil (backend.search_image k))) [
                  | none ↦ first ∷ []
                  | some page ↦ first ∷ record { phase = final; hits = page } ∷ []
                ]
      ]
