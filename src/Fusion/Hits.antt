-- ===== src/Fusion/Hits.antt =====
-- What a hybrid search handles: the hits of crates/lixun-core and crates/lixun-mutation, the chunks of
-- crates/lixun-fusion/src/handle.rs, and the answers of the searches.
use lixun.Common.{ℕ, Bool, Option, List}
use lixun.Common.Text.{Text}

pub record AnnHit (F : Type 0) : Type 0 where
  pub doc_id : Text
  pub distance : F

-- `lixun_core::ScoreBreakdown`.
pub record ScoreBreakdown (F : Type 0) : Type 0 where
  pub tantivy : F
  pub category_mult : F
  pub exact_title_mult : F
  pub prefix_mult : F
  pub acronym_mult : F
  pub recency_mult : F
  pub coord_mult : F
  pub frecency_mult : F
  pub latch_mult : F
  pub stage2_clamped : F
  pub final_score : F
  pub lexical_fallback : Bool

pub record Hit (F R : Type 0) : Type 0 where
  pub id : Text
  pub score : F
  pub rest : R

abbrev pub Scored : Type 0 → Type 0 → Type 0
Scored F R = Hit F R × ScoreBreakdown F

pub data Modality : Type 0 where
  text image both : Modality

pub data Phase : Type 0 where
  initial final : Phase

pub record FusionChunk (F R : Type 0) : Type 0 where
  pub phase : Phase
  pub hits : List (Scored F R)

-- What the calls of one search answer; `none` is an error.
pub record Backend (F R : Type 0) : Type 0 where
  pub search_with_breakdown : Option (List (Scored F R))
  pub search_text : ℕ → Option (List (AnnHit F))
  pub search_image : ℕ → Option (List (AnnHit F))
  pub classify_query : Option Modality
  -- Whether `select!` takes the branch of the cancellation and not that of the answers. It may take
  -- either when both are ready, and the code does not ask for the cancellation again.
  pub cancel_wins : Bool
  pub hydrate_docs : List Text → Option (List (Scored F R))
