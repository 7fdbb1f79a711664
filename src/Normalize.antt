-- ===== src/Normalize.antt =====
-- crates/lixun-index/src/normalize.rs: how queries and titles are normalised before they are compared.
-- The decomposition (`nfkd`, of the unicode-normalization crate) and the table of `to_lowercase` are
-- parameters.
pub mod Laws
mod Tests
use lixun.Common.{
  ℕ, Bool, true, false, List, [], ◌∷◌, ◌||◌, ◌&&◌, if◌then◌else◌, ltb, leb, ◌==◌, reverse,
}
use lixun.Common.Text.{Text, trim, is_whitespace}

unfoldable pub is_combining_mark : ℕ → Bool
is_combining_mark c = leb 0x300 c && leb c 0x36f

-- `chars().filter(|&c| !is_combining_mark(c))`.
unfoldable pub without_marks : Text → Text
without_marks [] = []
without_marks (c ∷ cs) =
    let rest = without_marks cs in if is_combining_mark c then rest else c ∷ rest

-- The loop of `collapse_whitespace`, with `prev_was_whitespace`; the list is what is pushed from here.
unfoldable pub collapse_from : Bool → Text → Text
collapse_from prev [] = []
collapse_from prev (c ∷ cs) =
    let after_space = collapse_from true cs in
    let after_other = collapse_from false cs in
    if is_whitespace c then if prev then after_space else b' ' ∷ after_space else c ∷ after_other

unfoldable pub collapse_whitespace : Text → Text
unfolding collapse_from
collapse_whitespace s = collapse_from false s

-- The characters `-`, `+` and `"` that are stripped from the ends of a latch key.
unfoldable pub is_stripped : ℕ → Bool
is_stripped c = c == b'-' || c == b'+' || c == 34

unfoldable pub trim_start_stripped : Text → Text
trim_start_stripped [] = []
trim_start_stripped (c ∷ cs) = if is_stripped c then trim_start_stripped cs else c ∷ cs

unfoldable pub trim_end_stripped : Text → Text
unfolding trim_start_stripped
trim_end_stripped s = reverse (trim_start_stripped (reverse s))

-- `replace('"', "")`.
unfoldable pub without_quotes : Text → Text
without_quotes [] = []
without_quotes (c ∷ cs) = let rest = without_quotes cs in if c == 34 then rest else c ∷ rest

module _ (nfkd to_lowercase : Text → Text) where
  unfoldable pub normalize_for_match : Text → Text
  normalize_for_match q = collapse_whitespace (trim (to_lowercase (without_marks (nfkd q))))

  unfoldable pub normalize_for_latch_key : Text → Text
  normalize_for_latch_key q =
      without_quotes (trim_end_stripped (trim_start_stripped (normalize_for_match q)))
