-- ===== src/Mbox/Names.antt =====
-- The names of attachments, and the encodings.
use lixun.Common.{
  ℕ, ◌-◌, ◌≤◌, false, [], ◌∷◌, ◌≡◌, ◌≢◌, refl, arith, inl, inr, Bool-cases, ltb, leb, leb→le, ◌==◌,
}
use lixun.Common.Sort.{All}
use lixun.Common.Text.{Text, text_eq, trim}
use lixun.Mbox.{
  PartEncoding, base64, quoted_printable, seven_bit, eight_bit, binary, as_mime_str, from_header,
  is_forbidden, without_forbidden, trim_dots, len_utf8, byte_len, truncate_at, or_attachment,
  sanitize_filename,
}

-- No separator of paths and no NUL.
abbrev pub IsSafe : Text → Type 0
IsSafe s = All (λ c. is_forbidden c ≡ false) s

abbrev pub HasNoDotFirst : Text → Type 0
HasNoDotFirst [] = Unit
HasNoDotFirst (c ∷ cs) = (c == b'.') ≡ false

without_forbidden-IsSafe : (s : Text) → IsSafe (without_forbidden s)
unfolding without_forbidden
without_forbidden-IsSafe [] = tt
without_forbidden-IsSafe (c ∷ cs) = elim (Bool-cases (is_forbidden c)) [
  | inl e ↦ rw e (without_forbidden-IsSafe cs)
  | inr e ↦ rw e (e, without_forbidden-IsSafe cs)
]

trim_dots-IsSafe : (s : Text) → IsSafe s → IsSafe (trim_dots s) × HasNoDotFirst (trim_dots s)
unfolding trim_dots
trim_dots-IsSafe [] h = (tt, tt)
trim_dots-IsSafe (c ∷ cs) h = elim (Bool-cases (c == b'.')) [
  | inl e ↦ rw e (trim_dots-IsSafe cs h.1)
  | inr e ↦ rw (e, trim_dots) (h, e)
]

or_attachment-IsSafe :
    (s : Text)
    → IsSafe s
    → HasNoDotFirst s
    → IsSafe (or_attachment s) × HasNoDotFirst (or_attachment s) × (or_attachment s ≢ [])
unfolding or_attachment is_forbidden
or_attachment-IsSafe [] h d = (attachment, refl, λ e. cc e)
  where
    attachment : IsSafe (or_attachment [])
    attachment = (refl, (refl, (refl, (refl, (refl, (refl, (refl, (refl, (refl, (refl, tt))))))))))
or_attachment-IsSafe (c ∷ cs) h d = (h, d, λ e. cc e)

truncate_at-IsSafe : (limit : ℕ) (s : Text) → IsSafe s → IsSafe (truncate_at limit s)
unfolding truncate_at
truncate_at-IsSafe limit [] h = tt
truncate_at-IsSafe limit (c ∷ cs) h = elim (Bool-cases (leb (len_utf8 c) limit)) [
  | inl e ↦ rw (e, truncate_at) (h.0, truncate_at-IsSafe (limit - len_utf8 c) cs h.1)
  | inr e ↦ rw (e, truncate_at) tt
]

byte_len-truncate_at : (limit : ℕ) (s : Text) → byte_len (truncate_at limit s) ≤ limit
unfolding truncate_at byte_len
byte_len-truncate_at limit [] = omega arith
byte_len-truncate_at limit (c ∷ cs) = elim (Bool-cases (leb (len_utf8 c) limit)) [
  | inl e ↦
      rw (e, truncate_at, byte_len)
        (omega (arith, leb→le _ _ e, byte_len-truncate_at (limit - len_utf8 c) cs))
  | inr e ↦ rw (e, truncate_at, byte_len) (omega arith)
]

len_utf8_le : (c : ℕ) → len_utf8 c ≤ 200
unfolding len_utf8
len_utf8_le c = ground arith

truncate_at-first :
    (s : Text)
    → HasNoDotFirst s
    → s ≢ []
    → HasNoDotFirst (truncate_at 200 s) × (truncate_at 200 s ≢ [])
unfolding truncate_at
truncate_at-first [] d n = absurd (n refl)
truncate_at-first (c ∷ cs) d n = elim (Bool-cases (leb (len_utf8 c) 200)) [
  | inl e ↦ rw (e, truncate_at) (d, λ x. cc x)
  | inr e ↦ absurd (ground (arith, len_utf8_le c))
]

-- The name of an attachment is never empty, holds no separator of paths and no NUL, does not begin with
-- a dot, and takes 200 bytes at most.
pub sanitize_filename_lem :
    (s : Text)
    → let out = sanitize_filename s in
      IsSafe out × HasNoDotFirst out × (out ≢ []) × (byte_len out ≤ 200)
unfolding sanitize_filename
sanitize_filename_lem s =
    let (safe, no_dot) = trim_dots-IsSafe (without_forbidden s) (without_forbidden-IsSafe s) in
    let name : Text = or_attachment (trim_dots (without_forbidden s)) in
    let (name_safe, name_first, name_some) =
      or_attachment-IsSafe (trim_dots (without_forbidden s)) safe no_dot in
    elim (Bool-cases (ltb 200 (byte_len name))) [
      | inl e ↦
          let (first, some_left) = truncate_at-first name name_first name_some in
          rw (e, sanitize_filename)
            (truncate_at-IsSafe 200 name name_safe, first, some_left, byte_len-truncate_at 200 name)
      | inr e ↦ rw (e, sanitize_filename) (name_safe, name_first, name_some, ground arith)
    ]

-- The encodings are read back as they are printed.
from_header-as_mime_str : (e : PartEncoding) → from_header (as_mime_str e) ≡ e
unfolding from_header as_mime_str text_eq trim
from_header-as_mime_str base64 = refl
from_header-as_mime_str quoted_printable = refl
from_header-as_mime_str seven_bit = refl
from_header-as_mime_str eight_bit = refl
from_header-as_mime_str binary = refl
