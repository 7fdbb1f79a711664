-- ===== src/Fusion/Page/Stream.antt =====
-- The chunks that a hybrid search sends, and the size of the page.
use lixun.Common.{
  ℕ, suc, ◌-◌, ◌≤◌, max, false, Option, none, some, List, [], ◌∷◌, ◌++◌, ◌≡◌, ◌⊎◌, inl, inr, refl,
  arith, Bool-cases, Option-cases, length, length-append, take, length-take,
}
use lixun.Common.Text.{Text}
use lixun.Common.Float.{Float}
use lixun.Fusion.{filter_by}
use lixun.Fusion.Hits.{Backend, Scored, AnnHit, FusionChunk, initial, final}
use lixun.Fusion.Page.{
  or_nil, by_id, distances, fuse_pairs, hit_for, score_ladder, modality_weights, chosen_modality,
  is_filler, place, decay, pad, target_limit, final_page, page_of, ann_k, fused_search_streaming,
}

module _ {F R : Type 0} (fl : Float F) where
  length-place :
      (hit : Text → Option (Scored F R)) (ladder : List F) (pos : ℕ) (docs : List (Text × F))
      → length (place fl hit ladder pos docs) ≤ length docs
  unfolding place
  length-place hit ladder pos [] = omega arith
  length-place hit ladder pos ((id, x) ∷ docs) = elim (Option-cases (hit id)) [
    | inl e ↦ rw (e, length) (omega (arith, length-place hit ladder (suc pos) docs))
    | inr (p, e) ↦ rw (e, length) (omega (arith, length-place hit ladder (suc pos) docs))
  ]

  length-decay :
      (floor : F) (i : ℕ) (ps : List (Scored F R)) → length (decay fl floor i ps) ≡ length ps
  unfolding decay
  length-decay floor i [] = refl
  length-decay floor i (p ∷ ps) = omega (arith, length-decay floor (suc i) ps)

  length-pad :
      (limit : ℕ) (pairs out : List (Scored F R))
      → length out ≤ limit
      → length (pad fl limit pairs out) ≤ limit
  unfolding pad
  length-pad limit pairs out h =
      let filler = take (limit - length out) (filter_by (is_filler out) pairs) in
      omega (
        arith,
        length-append out (decay fl _ 0 filler),
        length-decay _ 0 filler,
        length-take (limit - length out) (filter_by (is_filler out) pairs),
      )

  length-page_of :
      (limit : ℕ) (pairs : List (Scored F R)) (ann_hits : List (AnnHit F))
      (hydrated : List (Scored F R)) (docs : List (Text × F))
      → length docs ≤ limit
      → length (page_of fl limit pairs ann_hits hydrated docs) ≤ limit
  unfolding page_of
  length-page_of limit pairs ann_hits hydrated docs h =
      let hit = hit_for fl (by_id pairs []) (by_id hydrated []) (distances ann_hits []) in
      length-pad limit pairs _ (omega (arith, length-place hit (score_ladder fl pairs) 0 docs))

  -- A final page is made of a lexical page and what was hydrated, and holds `limit` hits at most.
  length-final_page :
      (backend : Backend F R) (query : Text) (rrf_k : F) (limit : ℕ) (pairs : List (Scored F R))
      (text_hits image_hits : List (AnnHit F))
      → (final_page fl backend query rrf_k limit pairs text_hits image_hits ≡ none)
        ⊎ ((page : List (Scored F R)) × (final_page fl backend query rrf_k limit pairs text_hits
                image_hits
              ≡ some page)
            × (length page ≤ limit))
  unfolding final_page
  length-final_page backend query rrf_k limit pairs text_hits image_hits = go _
    where
      weights : F × F × F
      weights = modality_weights fl (chosen_modality query backend.classify_query)

      docs : List (Text × F)
      docs = take limit (fuse_pairs fl pairs text_hits image_hits rrf_k weights)

      page : List (Scored F R) → List (Scored F R)
      page hydrated = page_of fl limit pairs (text_hits ++ image_hits) hydrated docs

      short : length docs ≤ limit
      short =
          omega (arith, length-take limit (fuse_pairs fl pairs text_hits image_hits rrf_k weights))

      go :
          (o : Option (List (Scored F R)))
          → let r : Option (List (Scored F R)) = elim o [
            | none ↦ none
            | some hydrated ↦ some (page hydrated)
          ] in
            (r ≡ none) ⊎ ((p : List (Scored F R)) × (r ≡ some p) × (length p ≤ limit))
      go none = inl refl
      go (some hydrated) = inr (
        page hydrated,
        refl,
        length-page_of limit pairs (text_hits ++ image_hits) hydrated docs short,
      )

  abbrev pub initial_chunk : List (Scored F R) → FusionChunk F R
  initial_chunk pairs = record { phase = initial; hits = pairs }

  abbrev pub final_chunk : List (Scored F R) → FusionChunk F R
  final_chunk page = record { phase = final; hits = page }

  -- A hybrid search sends nothing where the lexical search fails; otherwise it sends the lexical hits
  -- first, and after them at most one final page, of `limit` hits at most (or one, where `limit` is 0).
  -- It sends no final page where `select!` takes the branch of the cancellation.
  pub fused_search_streaming_lem :
      (backend : Backend F R) (query : Text) (rrf_k : F) (overfetch limit : ℕ)
      → let chunks = fused_search_streaming fl backend query rrf_k overfetch limit in
        ((backend.search_with_breakdown ≡ none) × (chunks ≡ []))
        ⊎ ((pairs : List (Scored F R)) × (backend.search_with_breakdown ≡ some pairs)
            × ((chunks ≡ initial_chunk pairs ∷ [])
                ⊎ ((page : List (Scored F R)) × (backend.cancel_wins ≡ false)
                    × (chunks ≡ initial_chunk pairs ∷ final_chunk page ∷ [])
                    × (length page ≤ max limit 1))))
  unfolding fused_search_streaming target_limit
  fused_search_streaming_lem backend query rrf_k overfetch limit =
      elim (Option-cases backend.search_with_breakdown) [
        | inl e ↦ inl (e, rw (e, fused_search_streaming) refl)
        | inr (pairs, e) ↦ inr (
          pairs,
          e,
          elim (Bool-cases backend.cancel_wins) [
            | inl c ↦ inl (rw (e, c, fused_search_streaming) refl)
            | inr c ↦
                elim (length-final_page backend query rrf_k (max limit 1) pairs
                  (or_nil (backend.search_text (ann_k overfetch (max limit 1))))
                  (or_nil (backend.search_image (ann_k overfetch (max limit 1))))) [
                    | inl n ↦ inl (rw (e, c, n, fused_search_streaming) refl)
                    | inr (page, f, l) ↦ inr (page, c, rw (e, c, f, fused_search_streaming) refl, l)
                  ]
          ],
        )
      ]
