-- ===== src/Mbox/Tests.antt =====
-- Mailboxes on small inputs.
use mathlib.Core.List.{Mem}
use lixun.Common.{ℕ, ◌+◌, map, ◌≤◌, some, true, false, [], ◌∷◌, ◌++◌, ◌≡◌, ◌≢◌, refl}
use lixun.Common.Text.{Text, codes, starts_with}
use lixun.Common.Sort.{All}
use lixun.Mbox.{
  from_line, starts, split_mbox_messages, strip_mbox_envelope, byte_len, sanitize_filename,
  find_headers_end, normalize_newlines,
}
use lixun.Mbox.Split.{joined, IsFromLine, IsBreak, split_mbox_messages_lem}
use lixun.Mbox.Names.{IsSafe, HasNoDotFirst, sanitize_filename_lem}

abbrev lf : Text
lf = 10 ∷ []

abbrev crlf : Text
crlf = 13 ∷ 10 ∷ []

abbrev two_mails : Text
two_mails = codes "From a" ++ lf ++ codes "x" ++ lf ++ codes "From b" ++ lf

positions : starts two_mails ≡ 0 ∷ 9 ∷ []
unfolding starts starts_with
positions = refl

begins : starts_with two_mails from_line ≡ true
unfolding starts_with
begins = refl

split_mbox_messages_example :
    let messages = split_mbox_messages two_mails in
    let offsets = map (λ (m : ℕ × Text). m.0) messages in
    (joined messages ≡ two_mails)
    × All (IsFromLine two_mails) offsets
    × ((i : ℕ) → IsBreak two_mails i → Mem (i + 1) offsets)
split_mbox_messages_example = split_mbox_messages_lem two_mails begins

-- The first CRLF ends the envelope, also where a bare newline stands before it.
mixed :
    strip_mbox_envelope (codes "From a" ++ lf ++ codes "S: t" ++ crlf ++ codes "b")
    ≡ some (13, codes "b")
unfolding strip_mbox_envelope starts_with
mixed = refl

sanitize_filename_example :
    let out = sanitize_filename (codes "../../etc/passwd") in
    IsSafe out × HasNoDotFirst out × (out ≢ []) × (byte_len out ≤ 200)
sanitize_filename_example = sanitize_filename_lem (codes "../../etc/passwd")

headers_end : find_headers_end (codes "A: b" ++ crlf ++ crlf ++ codes "x") ≡ some 8
unfolding find_headers_end starts_with
headers_end = refl

newlines :
    normalize_newlines false (codes "a" ++ crlf ++ codes "b" ++ (13 ∷ []))
    ≡ codes "a" ++ lf ++ codes "b" ++ lf
unfolding normalize_newlines
newlines = refl
