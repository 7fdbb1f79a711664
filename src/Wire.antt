-- ===== src/Wire.antt =====
-- The framing of the preview channel (crates/lixun-ipc/src/preview.rs), and of the semantic worker's
-- (crates/lixun-semantic-proto/src/lib.rs) and the GUI's (crates/lixun-ipc/src/gui.rs), which have the
-- same bytes with other constants: a length of four bytes, a version of two, and JSON. A byte is a
-- number below 256; serde_json is a parameter (`Serde`).
pub mod Laws
pub mod Sync
mod Tests
use lixun.Common.{
  ℕ, ◌+◌, ◌-◌, ◌*◌, ◌/◌, ◌%◌, ◌^◌, Bool, true, false, ◌&&◌, ◌||◌, Option, none, some, List, [], ◌∷◌,
  ◌++◌, if◌then◌else◌, ltb, leb, length, take, drop, ◌⊎◌, inl, inr,
}

abbrev pub Bytes : Type 0
Bytes = List ℕ

pub record Protocol : Type 0 where
  pub min_version : ℕ
  pub version : ℕ
  pub max_frame_len : Option ℕ

abbrev pub max_frame_len_bytes : ℕ
max_frame_len_bytes = 67108864

abbrev pub preview : Protocol
preview = record { min_version = 1; version = 1; max_frame_len = some max_frame_len_bytes }

abbrev pub semantic : Protocol
semantic = record { min_version = 2; version = 2; max_frame_len = none }

-- The launcher's own channel, in the default build.
abbrev pub gui : Protocol
gui = record { min_version = 5; version = 5; max_frame_len = some max_frame_len_bytes }

-- What one side reads, `I`, and what it writes, `O`.
pub record Serde (I O : Type 0) : Type 0 where
  pub to_vec : O → Option Bytes
  pub from_slice : Bytes → Option I

pub data FrameError : Type 0 where
  too_short too_long bad_version bad_payload unexpected_eof not_serialized too_large : FrameError

pub data DecodeState : Type 0 where
  header : DecodeState
  version_of : ℕ → DecodeState
  payload : ℕ → DecodeState

-- `Ok(None)` with the state and the bytes that are left, an error, or an item with both.
pub data Decoded (I : Type 0) : Type 0 where
  waits : DecodeState → Bytes → Decoded I
  fails : FrameError → Decoded I
  item : I → DecodeState → Bytes → Decoded I

unfoldable pub put_u32 : ℕ → Bytes
put_u32 n = n / 2 ^ 24 % 256 ∷ n / 2 ^ 16 % 256 ∷ n / 2 ^ 8 % 256 ∷ n % 256 ∷ []

unfoldable pub put_u16 : ℕ → Bytes
put_u16 n = n / 2 ^ 8 % 256 ∷ n % 256 ∷ []

unfoldable pub u32_of : ℕ → ℕ → ℕ → ℕ → ℕ
u32_of a b c d = a * 2 ^ 24 + b * 2 ^ 16 + c * 2 ^ 8 + d

unfoldable pub u16_of : ℕ → ℕ → ℕ
u16_of a b = a * 2 ^ 8 + b

-- `u32::from_be_bytes` and `u16::from_be_bytes`.
unfoldable pub be_from : ℕ → Bytes → ℕ
be_from n [] = n
be_from n (b ∷ bs) = be_from (n * 256 + b) bs

unfoldable pub be_value : Bytes → ℕ
unfolding be_from
be_value bs = be_from 0 bs

unfoldable pub exceeds : ℕ → Option ℕ → Bool
exceeds len none = false
exceeds len (some m) = ltb m len

unfoldable pub is_supported : Protocol → ℕ → Bool
is_supported p v = leb p.min_version v && leb v p.version

module _ {I O : Type 0} (p : Protocol) (serde : Serde I O) where
  unfoldable pub encode : O → FrameError ⊎ Bytes
  unfolding put_u32 put_u16
  encode x = elim (serde.to_vec x) [
    | none ↦ inl not_serialized
    | some json ↦
        let total_len = 2 + length json in
        if ltb (2 ^ 32 - 1) total_len
        then inl too_large
        else inr (put_u32 total_len ++ (put_u16 p.version ++ json))
  ]

  unfoldable pub parse : Bytes → Bytes → Decoded I
  parse bytes rest = elim (serde.from_slice bytes) [
    | none ↦ fails bad_payload
    | some x ↦ item x header rest
  ]

  -- The loop goes through the states in this order, and returns from the last.
  unfoldable pub decode_payload : ℕ → Bytes → Decoded I
  unfolding parse
  decode_payload len src =
      if ltb (length src) len then waits (payload len) src else parse (take len src) (drop len src)

  unfoldable pub decode_version : ℕ → Bytes → Decoded I
  unfolding decode_payload u16_of is_supported
  decode_version len (a ∷ b ∷ src) =
      if is_supported p (u16_of a b) then decode_payload (len - 2) src else fails bad_version
  decode_version len src = waits (version_of len) src

  unfoldable pub decode_len : ℕ → Bytes → Decoded I
  unfolding decode_version exceeds
  decode_len len src =
      if ltb len 2
      then fails too_short
      else if exceeds len p.max_frame_len
      then fails too_long
      else decode_version len src

  unfoldable pub decode_header : Bytes → Decoded I
  unfolding decode_len u32_of
  decode_header (a ∷ b ∷ c ∷ d ∷ src) = decode_len (u32_of a b c d) src
  decode_header src = waits header src

  unfoldable pub decode : DecodeState → Bytes → Decoded I
  unfolding decode_header decode_version decode_payload
  decode header src = decode_header src
  decode (version_of len) src = decode_version len src
  decode (payload len) src = decode_payload len src

  -- `Read::read_exact`: the bytes, and those behind them.
  unfoldable pub read_exact : ℕ → Bytes → FrameError ⊎ (Bytes × Bytes)
  read_exact n src = if ltb (length src) n then inl unexpected_eof else inr (take n src, drop n src)

  unfoldable pub read_payload : ℕ → Bytes → FrameError ⊎ (I × Bytes)
  unfolding read_exact
  read_payload len src = elim (read_exact len src) [
    | inl e ↦ inl e
    | inr (bytes, rest) ↦ elim (serde.from_slice bytes) [
      | none ↦ inl bad_payload
      | some x ↦ inr (x, rest)
    ]
  ]

  unfoldable pub read_version : ℕ → Bytes → FrameError ⊎ (I × Bytes)
  unfolding read_exact read_payload be_value is_supported
  read_version len src = elim (read_exact 2 src) [
    | inl e ↦ inl e
    | inr (v, rest) ↦
        if is_supported p (be_value v) then read_payload (len - 2) rest else inl bad_version
  ]

  unfoldable pub read_len : ℕ → Bytes → FrameError ⊎ (I × Bytes)
  unfolding read_version exceeds
  read_len len src =
      if ltb len 2
      then inl too_short
      else if exceeds len p.max_frame_len
      then inl too_long
      else read_version len src

  unfoldable pub read_frame_sync : Bytes → FrameError ⊎ (I × Bytes)
  unfolding read_exact read_len be_value
  read_frame_sync src = elim (read_exact 4 src) [
    | inl e ↦ inl e
    | inr (len, rest) ↦ read_len (be_value len) rest
  ]
