-- ===== src/Normalize/Tests.antt =====
-- Normalisation on small inputs; these texts are their own decomposition and lower case.
use lixun.Common.{◌≡◌, refl}
use lixun.Common.Text.{Text, codes, trim, is_whitespace}
use lixun.Normalize.{
  normalize_for_match, normalize_for_latch_key, collapse_whitespace, without_marks,
}

abbrev same : Text → Text
same s = s

abbrev raw_query : Text
raw_query = codes " -a \" b+ "

key_of_query : normalize_for_latch_key same same raw_query ≡ codes "a  b"
unfolding normalize_for_latch_key normalize_for_match collapse_whitespace without_marks trim
    is_whitespace lixun.Normalize.without_quotes lixun.Normalize.trim_end_stripped
    lixun.Normalize.is_combining_mark lixun.Normalize.is_stripped
key_of_query = refl
