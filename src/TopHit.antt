-- ===== src/TopHit.antt =====
-- crates/lixun-daemon/src/top_hit.rs: whether the first hit of a search is shown as the top hit. It
-- reads the stores of Frecency and QueryLatch and the multipliers of Scoring. The floats, with the
-- infinities, and the field of a hit that holds its title are parameters.
pub mod Laws
mod Tests
use lixun.Common.{
  ℕ, Bool, true, false, Option, none, some, List, [], ◌∷◌, if◌then◌else◌, ◌&&◌, ◌||◌,
}
use lixun.Common.Text.{Text}
use lixun.Common.Int.{ℤ}
use lixun.Common.Float.{Float}
use lixun.Frecency.{FrecencyStore, raw}
use lixun.QueryLatch.{QueryLatchStore, strong}
use lixun.Normalize.{normalize_for_match}
use lixun.Scoring.{CharTable, prefix_mult, acronym_mult}
use lixun.Fusion.Hits.{Hit}

pub record TopHitDecision (F : Type 0) : Type 0 where
  pub id : Option Text
  pub confidence : F
  pub margin : F
  pub prefix_match : Bool
  pub acronym_match : Bool
  pub has_strong_latch : Bool
  pub dominance : F

module _ {F : Type 0} (fl : Float F) where
  abbrev pub epsilon : F
  epsilon = fl.decimal 1 6

  abbrev pub frecency_dominance_min_raw : F
  frecency_dominance_min_raw = fl.decimal 30 1

  abbrev pub frecency_dominance_ratio : F
  frecency_dominance_ratio = fl.decimal 20 1

  -- `f32::max`, which gives the other value for a NaN.
  unfoldable pub max_f32 : F → F → F
  max_f32 x y = if fl.le x x then if fl.lt x y then y else x else y

  -- `if b { 1.0 } else { 0.0 }`.
  unfoldable pub one_if : Bool → F
  one_if b = if b then fl.decimal 10 1 else fl.decimal 0 1

  module _ {R : Type 0} where
    unfoldable pub frecency_dominance : Hit F R → List (Hit F R) → FrecencyStore → ℤ → F
    unfolding max_f32 one_if
    frecency_dominance candidate (_ ∷ runner ∷ hits) frecency now = one_if (
        fl.le frecency_dominance_min_raw (raw fl frecency candidate.id now)
        && fl.le (fl.mul frecency_dominance_ratio (max_f32 (raw fl frecency runner.id now) epsilon))
            (raw fl frecency candidate.id now))
    frecency_dominance candidate hits frecency now =
        one_if (fl.le frecency_dominance_min_raw (raw fl frecency candidate.id now))

    -- `margin`, of hits that are not empty.
    unfoldable pub margin_of : F → List (Hit F R) → F
    unfolding max_f32
    margin_of infinity (h ∷ runner ∷ hits) = fl.div h.score (max_f32 runner.score epsilon)
    margin_of infinity hits = infinity

  -- `f32::INFINITY`, `f32::NEG_INFINITY` and the title of a hit.
  module _ {R : Type 0} (infinity neg_infinity : F) (title : R → Text)
      (nfkd to_lowercase : Text → Text) (chars : CharTable) where
    unfoldable pub select_top_hit :
        Text → List (Hit F R) → FrecencyStore → QueryLatchStore → ℤ → F → F → ℕ → TopHitDecision F
    unfolding max_f32 one_if frecency_dominance margin_of prefix_mult acronym_mult
    select_top_hit q_raw [] frecency latch now min_confidence min_margin strong_latch_threshold =
        record {
          id = none;
          confidence = fl.decimal 0 1;
          margin = neg_infinity;
          prefix_match = false;
          acronym_match = false;
          has_strong_latch = false;
          dominance = fl.decimal 0 1;
        }
    select_top_hit q_raw (candidate ∷ rest) frecency latch now min_confidence min_margin
          strong_latch_threshold =
        let q_norm = normalize_for_match nfkd to_lowercase q_raw in
        let title_norm = normalize_for_match nfkd to_lowercase (title candidate.rest) in
        let is_prefix =
          fl.lt (fl.decimal 10 1) (prefix_mult fl title_norm q_norm (fl.decimal 20 1)) in
        let is_acronym = fl.lt (fl.decimal 10 1) (
          acronym_mult fl nfkd to_lowercase chars (title candidate.rest) q_norm
            (fl.decimal 20 1)) in
        let is_strong = strong nfkd to_lowercase latch q_raw candidate.id strong_latch_threshold in
        let dominates = frecency_dominance candidate (candidate ∷ rest) frecency now in
        let c = max_f32 (max_f32 (one_if (is_prefix || is_acronym)) (one_if is_strong)) dominates in
        let m = margin_of infinity (candidate ∷ rest) in
        record {
          id = if fl.le min_confidence c && fl.le min_margin m then some candidate.id else none;
          confidence = c;
          margin = m;
          prefix_match = is_prefix;
          acronym_match = is_acronym;
          has_strong_latch = is_strong;
          dominance = dominates;
        }
