-- ===== src/Wire/Tests.antt =====
-- Frames of numbers below 256, and bytes that a peer may send.
use lixun.Common.{ℕ, Option, none, some, [], ◌∷◌, ◌++◌, ◌≡◌, inl, inr, refl, arith}
use lixun.Wire.{
  Bytes, Serde, FrameError, too_short, too_long, bad_version, unexpected_eof, DecodeState, header,
  version_of, payload, Decoded, waits, fails, item, preview, semantic, gui, encode, decode,
  read_frame_sync,
}
use lixun.Wire.Laws.{more, decode-append, decode-encode}
use lixun.Wire.Sync.{at_eof, WaitsWithin, read_frame_sync-decode, decode_header-WaitsWithin}

-- An item is one byte.
abbrev from_byte : Bytes → Option ℕ
from_byte (b ∷ []) = some b
from_byte bs = none

abbrev byte : Serde ℕ ℕ
byte = record { to_vec = (λ x. some (x ∷ [])); from_slice = from_byte }

abbrev frame_of_seven : Bytes
frame_of_seven = 0 ∷ 0 ∷ 0 ∷ 3 ∷ 0 ∷ 1 ∷ 7 ∷ []

encoded : encode preview byte 7 ≡ inr frame_of_seven
unfolding encode lixun.Wire.put_u32 lixun.Wire.put_u16
encoded = refl

decoded : decode preview byte header (frame_of_seven ++ (9 ∷ [])) ≡ item 7 header (9 ∷ [])
unfolding decode
decoded = refl

half : decode preview byte header (0 ∷ 0 ∷ 0 ∷ 3 ∷ 0 ∷ []) ≡ waits (version_of 3) (0 ∷ [])
unfolding decode
half = refl

too_short_for_a_version : decode preview byte header (0 ∷ 0 ∷ 0 ∷ 1 ∷ []) ≡ fails too_short
unfolding decode
too_short_for_a_version = refl

too_long_for_the_preview : decode preview byte header (255 ∷ 255 ∷ 255 ∷ 255 ∷ []) ≡ fails too_long
unfolding decode
too_long_for_the_preview = refl

-- The semantic codec has no greatest length.
waits_for_four_gibibytes :
    decode semantic byte header (255 ∷ 255 ∷ 255 ∷ 255 ∷ 0 ∷ 2 ∷ []) ≡ waits (payload 4294967293) []
unfolding decode
waits_for_four_gibibytes = refl

launcher_frame : read_frame_sync gui byte (0 ∷ 0 ∷ 0 ∷ 3 ∷ 0 ∷ 5 ∷ 7 ∷ []) ≡ inr (7, [])
unfolding read_frame_sync
launcher_frame = refl

other_version : decode semantic byte header frame_of_seven ≡ fails bad_version
unfolding decode
other_version = refl

cut_frame : read_frame_sync preview byte (0 ∷ 0 ∷ 0 ∷ 3 ∷ 0 ∷ []) ≡ inl unexpected_eof
unfolding read_frame_sync
cut_frame = refl

decode-append_example :
    decode preview byte (version_of 3) ((0 ∷ []) ++ (1 ∷ 7 ∷ 9 ∷ []))
    ≡ more preview byte (1 ∷ 7 ∷ 9 ∷ []) (decode preview byte (version_of 3) (0 ∷ []))
decode-append_example = decode-append preview byte (version_of 3) (0 ∷ []) (1 ∷ 7 ∷ 9 ∷ [])

decode-encode_example :
    decode preview byte header (frame_of_seven ++ (9 ∷ [])) ≡ item 7 header (9 ∷ [])
unfolding lixun.Wire.exceeds lixun.Wire.is_supported
decode-encode_example =
    decode-encode preview byte 7 (7 ∷ []) frame_of_seven (9 ∷ []) refl refl refl refl (omega arith)
      encoded

read_frame_sync-decode_example :
    read_frame_sync preview byte frame_of_seven
    ≡ at_eof preview byte (decode preview byte header frame_of_seven)
read_frame_sync-decode_example = read_frame_sync-decode preview byte frame_of_seven

decode_header-WaitsWithin_example :
    WaitsWithin preview byte 67108864 (decode preview byte header (0 ∷ 0 ∷ 0 ∷ 3 ∷ 0 ∷ []))
decode_header-WaitsWithin_example =
    decode_header-WaitsWithin preview byte 67108864 (0 ∷ 0 ∷ 0 ∷ 3 ∷ 0 ∷ []) refl
