-- ===== src/Scoring/Tests.antt =====
-- The initials of some titles of crates/lixun-index/src/scoring.rs, in ASCII.
use lixun.Common.{[], ◌∷◌, ◌≡◌, refl}
use lixun.Common.Text.{codes}
use lixun.Scoring.{acronym_initials, exact_title_mult}
use lixun.Fixtures.{decimals, ascii}

json_parser : acronym_initials ascii (codes "JSONParser") ≡ codes "jp"
unfolding acronym_initials lixun.Common.Text.is_whitespace
json_parser = refl

xml_http_request : acronym_initials ascii (codes "XMLHttpRequest") ≡ codes "xhr"
unfolding acronym_initials lixun.Common.Text.is_whitespace
xml_http_request = refl

parse_url : acronym_initials ascii (codes "parseURL") ≡ codes "pu"
unfolding acronym_initials lixun.Common.Text.is_whitespace
parse_url = refl

snake_case : acronym_initials ascii (codes "snake_case") ≡ codes "sc"
unfolding acronym_initials lixun.Common.Text.is_whitespace
snake_case = refl

only_capitals : acronym_initials ascii (codes "ABC") ≡ codes "a"
unfolding acronym_initials lixun.Common.Text.is_whitespace
only_capitals = refl

same_title : exact_title_mult decimals (codes "fire") (codes "fire") 14000 ≡ 14000
unfolding exact_title_mult lixun.Common.Text.is_empty lixun.Common.Text.text_eq
same_title = refl
