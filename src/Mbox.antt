-- ===== src/Mbox.antt =====
-- crates/lixun-source-thunderbird/src/mbox.rs: the scanner of mailboxes, and the names and encodings of
-- attachments. Bytes are numbers. MIME parsing (mailparse), base64 and quoted-printable decoding are of
-- other crates and left out, with the walk over the parts that they make.
pub mod Split
pub mod Names
mod Tests
use lixun.Common.{
  ℕ, zero, suc, ◌+◌, ◌-◌, Bool, true, false, not, ◌&&◌, ◌||◌, Option, none, some, List, [], ◌∷◌,
  ◌++◌, if◌then◌else◌, ltb, leb, ◌==◌, length, take, drop,
}
use lixun.Common.Text.{Text, codes, text_eq, starts_with, trim, is_empty}

pub data PartEncoding : Type 0 where
  base64 quoted_printable seven_bit eight_bit binary : PartEncoding

unfoldable pub as_mime_str : PartEncoding → Text
as_mime_str base64 = codes "base64"
as_mime_str quoted_printable = codes "quoted-printable"
as_mime_str seven_bit = codes "7bit"
as_mime_str eight_bit = codes "8bit"
as_mime_str binary = codes "binary"

unfoldable pub to_ascii_lowercase : Text → Text
to_ascii_lowercase [] = []
to_ascii_lowercase (c ∷ cs) = (if leb 65 c && leb c 90 then c + 32 else c) ∷ to_ascii_lowercase cs

unfoldable pub from_header : Text → PartEncoding
unfolding to_ascii_lowercase
from_header s =
    let t = to_ascii_lowercase (trim s) in
    if text_eq t (codes "base64")
    then base64
    else if text_eq t (codes "quoted-printable")
    then quoted_printable
    else if text_eq t (codes "7bit")
    then seven_bit
    else if text_eq t (codes "8bit")
    then eight_bit
    else if text_eq t (codes "binary")
    then binary
    else seven_bit

-- The loop at byte `i`.
unfoldable pub find_headers_end_from : ℕ → Text → Option ℕ
find_headers_end_from i [] = none
find_headers_end_from i (b ∷ bs) =
    let rest = find_headers_end_from (suc i) bs in
    if starts_with (b ∷ bs) (13 ∷ 10 ∷ 13 ∷ 10 ∷ [])
    then some (i + 4)
    else if starts_with (b ∷ bs) (10 ∷ 10 ∷ [])
    then some (i + 2)
    else rest

unfoldable pub find_headers_end : Text → Option ℕ
unfolding find_headers_end_from
find_headers_end bytes = find_headers_end_from 0 bytes

abbrev pub from_line : Text
from_line = codes "From "

-- A newline with `From ` after it.
unfoldable pub is_boundary : ℕ → Text → Bool
is_boundary b bs = b == 10 && starts_with bs from_line

-- The loop at byte `i`, with `skip` bytes to pass over first: after a boundary `i` goes on by 6.
unfoldable pub scan_from : ℕ → ℕ → Text → List ℕ
unfolding is_boundary
scan_from skip i [] = []
scan_from (suc skip) i (b ∷ bs) = scan_from skip (suc i) bs
scan_from zero i (b ∷ bs) =
    let hit = scan_from 5 (suc i) bs in
    let miss = scan_from 0 (suc i) bs in if is_boundary b bs then (i + 1) ∷ hit else miss

unfoldable pub starts : Text → List ℕ
unfolding scan_from
starts bytes =
    let found = scan_from 0 0 bytes in if starts_with bytes from_line then 0 ∷ found else found

-- `&bytes[start..end]` for each start, to the next start or to the end of the bytes.
unfoldable pub slices : Text → List ℕ → List (ℕ × Text)
slices bytes [] = []
slices bytes (s ∷ []) = (s, drop s bytes) ∷ []
slices bytes (s ∷ t ∷ ss) = (s, take (t - s) (drop s bytes)) ∷ slices bytes (t ∷ ss)

unfoldable pub whole_or_slices : Text → List ℕ → List (ℕ × Text)
unfolding slices
whole_or_slices bytes [] = (0, bytes) ∷ []
whole_or_slices bytes (s ∷ ss) = slices bytes (s ∷ ss)

unfoldable pub split_mbox_messages : Text → List (ℕ × Text)
unfolding whole_or_slices starts
split_mbox_messages [] = []
split_mbox_messages (b ∷ bs) = whole_or_slices (b ∷ bs) (starts (b ∷ bs))

-- The position of the first place where `p` begins.
unfoldable pub position_from : Text → ℕ → Text → Option ℕ
position_from p i [] = none
position_from p i (b ∷ bs) =
    let rest = position_from p (suc i) bs in if starts_with (b ∷ bs) p then some i else rest

unfoldable pub strip_mbox_envelope : Text → Option (ℕ × Text)
unfolding position_from
strip_mbox_envelope msg =
    if starts_with msg from_line
    then elim (position_from (13 ∷ 10 ∷ []) 0 msg) [
      | some pos ↦ some (pos + 2, drop (pos + 2) msg)
      | none ↦ elim (position_from (10 ∷ []) 0 msg) [
        | some pos ↦ some (pos + 1, drop (pos + 1) msg)
        | none ↦ none
      ]
    ]
    else some (0, msg)

-- The newlines of a quoted-printable part; `after_return` says that the byte before was a carriage return.
unfoldable pub normalize_newlines : Bool → Text → Text
normalize_newlines after_return [] = []
normalize_newlines after_return (b ∷ bs) =
    let after_cr = normalize_newlines true bs in
    let after_other = normalize_newlines false bs in
    if b == 13
    then 10 ∷ after_cr
    else if b == 10 && after_return
    then after_other
    else b ∷ after_other

unfoldable pub is_forbidden : ℕ → Bool
is_forbidden c = c == b'/' || c == 92 || c == 0

unfoldable pub without_forbidden : Text → Text
unfolding is_forbidden
without_forbidden [] = []
without_forbidden (c ∷ cs) =
    let rest = without_forbidden cs in if is_forbidden c then rest else c ∷ rest

unfoldable pub trim_dots : Text → Text
trim_dots [] = []
trim_dots (c ∷ cs) = if c == b'.' then trim_dots cs else c ∷ cs

-- `char::len_utf8`.
unfoldable pub len_utf8 : ℕ → ℕ
len_utf8 c = if ltb c 0x80 then 1 else if ltb c 0x800 then 2 else if ltb c 0x10000 then 3 else 4

unfoldable pub byte_len : Text → ℕ
unfolding len_utf8
byte_len [] = 0
byte_len (c ∷ cs) = len_utf8 c + byte_len cs

-- `truncate` at the last character boundary that is not past `limit` bytes.
unfoldable pub truncate_at : ℕ → Text → Text
unfolding len_utf8
truncate_at limit [] = []
truncate_at limit (c ∷ cs) =
    let rest = truncate_at (limit - len_utf8 c) cs in
    if leb (len_utf8 c) limit then c ∷ rest else []

unfoldable pub or_attachment : Text → Text
or_attachment [] = codes "attachment"
or_attachment (c ∷ cs) = c ∷ cs

unfoldable pub sanitize_filename : Text → Text
unfolding without_forbidden trim_dots byte_len truncate_at or_attachment
sanitize_filename s =
    let out = or_attachment (trim_dots (without_forbidden s)) in
    if ltb 200 (byte_len out) then truncate_at 200 out else out
