-- ===== src/Document/Tests.antt =====
-- The names of the categories.
use lixun.Common.{◌≡◌, refl}
use lixun.Common.Text.{codes}
use lixun.Document.{as_str, attachment}

as_str_attachment : as_str attachment ≡ codes "attachment"
unfolding as_str
as_str_attachment = refl
