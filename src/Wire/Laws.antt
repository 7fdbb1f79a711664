-- ===== src/Wire/Laws.antt =====
-- The codec of crates/lixun-ipc/src/preview.rs: bytes that arrive in pieces, and frames that were encoded.
use lixun.Common.{
  ℕ, zero, suc, ◌+◌, ◌-◌, ◌/◌, ◌%◌, ◌^◌, ◌≤◌, ◌<◌, true, false, some, [], ◌∷◌, ◌++◌, ◌≡◌, refl, ap,
  arith, inl, inr, ltb, length, take, drop, Bool-cases, Option-cases, length-append, drop-append,
}
use lixun.Wire.{
  Bytes, Protocol, Serde, DecodeState, header, version_of, payload, Decoded, waits, fails, item,
  put_u32, put_u16, u32_of, u16_of, exceeds, is_supported, encode, parse, decode_payload,
  decode_version, decode_len, decode_header, decode,
}

take-append : (n : ℕ) (xs ys : Bytes) → n ≤ length xs → take n (xs ++ ys) ≡ take n xs
take-append zero xs ys h = refl
take-append (suc n) [] ys h = absurd (omega arith)
take-append (suc n) (x ∷ xs) ys h = ap (λ r. x ∷ r) (take-append n xs ys (omega arith))

module _ {I O : Type 0} (p : Protocol) (serde : Serde I O) where
  -- Further bytes behind what was decoded: decoding goes on where it stopped.
  abbrev pub more : Bytes → Decoded I → Decoded I
  more ys (waits s rest) = decode p serde s (rest ++ ys)
  more ys (fails e) = fails e
  more ys (item x s rest) = item x s (rest ++ ys)

  parse-append : (bs xs ys : Bytes) → parse p serde bs (xs ++ ys) ≡ more ys (parse p serde bs xs)
  unfolding parse
  parse-append bs xs ys = elim (Option-cases (serde.from_slice bs)) [
    | inl g ↦ rw (g, parse) refl
    | inr (x, g) ↦ rw (g, parse) refl
  ]

  decode_payload-append :
      (len : ℕ) (xs ys : Bytes)
      → decode_payload p serde len (xs ++ ys) ≡ more ys (decode_payload p serde len xs)
  unfolding decode_payload parse decode
  decode_payload-append len xs ys = elim (Bool-cases (ltb (length xs) len)) [
    | inl e ↦ rw (e, decode_payload) refl
    | inr e ↦
        let h : len ≤ length xs = ground arith in
        let f : ltb (length (xs ++ ys)) len ≡ false = let l = length-append xs ys in ground arith in
        rw (e, f, take-append len xs ys h, drop-append len xs ys h, decode_payload)
          (parse-append (take len xs) (drop len xs) ys)
  ]

  decode_version-append :
      (len : ℕ) (xs ys : Bytes)
      → decode_version p serde len (xs ++ ys) ≡ more ys (decode_version p serde len xs)
  unfolding decode_version decode
  decode_version-append len [] ys = refl
  decode_version-append len (a ∷ []) ys = refl
  decode_version-append len (a ∷ b ∷ xs) ys = elim (Bool-cases (is_supported p (u16_of a b))) [
    | inl e ↦ rw (e, decode_version) (decode_payload-append (len - 2) xs ys)
    | inr e ↦ rw (e, decode_version) refl
  ]

  decode_len-append :
      (len : ℕ) (xs ys : Bytes)
      → decode_len p serde len (xs ++ ys) ≡ more ys (decode_len p serde len xs)
  unfolding decode_len
  decode_len-append len xs ys = elim (Bool-cases (ltb len 2)) [
    | inl e ↦ rw (e, decode_len) refl
    | inr e ↦ elim (Bool-cases (exceeds len p.max_frame_len)) [
      | inl f ↦ rw (e, f, decode_len) refl
      | inr f ↦ rw (e, f, decode_len) (decode_version-append len xs ys)
    ]
  ]

  decode_header-append :
      (xs ys : Bytes) → decode_header p serde (xs ++ ys) ≡ more ys (decode_header p serde xs)
  unfolding decode_header decode
  decode_header-append [] ys = refl
  decode_header-append (a ∷ []) ys = refl
  decode_header-append (a ∷ b ∷ []) ys = refl
  decode_header-append (a ∷ b ∷ c ∷ []) ys = refl
  decode_header-append (a ∷ b ∷ c ∷ d ∷ xs) ys = decode_len-append (u32_of a b c d) xs ys

  -- Decoding does not depend on where the stream is cut: with more bytes behind it, a decoder that
  -- waits gives what decoding all the bytes at once gives, an item stays the item, and an error the
  -- error.
  pub decode-append :
      (s : DecodeState) (xs ys : Bytes)
      → decode p serde s (xs ++ ys) ≡ more ys (decode p serde s xs)
  unfolding decode
  decode-append header xs ys = decode_header-append xs ys
  decode-append (version_of len) xs ys = decode_version-append len xs ys
  decode-append (payload len) xs ys = decode_payload-append len xs ys

put_u32-u32_of :
    (n : ℕ)
    → n < 2 ^ 32
    → u32_of (n / 2 ^ 24 % 256) (n / 2 ^ 16 % 256) (n / 2 ^ 8 % 256) (n % 256) ≡ n
unfolding u32_of
put_u32-u32_of n h = omega arith

put_u16-u16_of : (n : ℕ) → n < 2 ^ 16 → u16_of (n / 2 ^ 8 % 256) (n % 256) ≡ n
unfolding u16_of
put_u16-u16_of n h = omega arith

take_length-append : (xs ys : Bytes) → take (length xs) (xs ++ ys) ≡ xs
take_length-append [] ys = refl
take_length-append (x ∷ xs) ys = ap (λ r. x ∷ r) (take_length-append xs ys)

drop_length-append : (xs ys : Bytes) → drop (length xs) (xs ++ ys) ≡ ys
drop_length-append [] ys = refl
drop_length-append (x ∷ xs) ys = drop_length-append xs ys

module _ {I : Type 0} (p : Protocol) (serde : Serde I I) where
  decode_payload-json :
      (x : I) (json rest : Bytes)
      → serde.from_slice json ≡ some x
      → decode_payload p serde (length json) (json ++ rest) ≡ item x header rest
  unfolding decode_payload parse
  decode_payload-json x json rest r =
      let f : ltb (length (json ++ rest)) (length json) ≡ false =
        let l = length-append json rest in ground arith in
      rw (f, take_length-append json rest, drop_length-append json rest, decode_payload)
        (rw (r, parse) refl)

  decode_len-json :
      (x : I) (json rest : Bytes)
      → serde.from_slice json ≡ some x
      → exceeds (2 + length json) p.max_frame_len ≡ false
      → is_supported p p.version ≡ true
      → p.version < 2 ^ 16
      → decode_len p serde (2 + length json) (put_u16 p.version ++ (json ++ rest))
        ≡ item x header rest
  unfolding decode_len decode_version put_u16
  decode_len-json x json rest r n v b =
      let l : ltb (2 + length json) 2 ≡ false = ground arith in
      let m : 2 + length json - 2 ≡ length json = omega arith in
      rw (l, n, put_u16-u16_of p.version b, v, m, decode_len, decode_version)
        (decode_payload-json x json rest r)

  -- A frame that was encoded is decoded as the item it is of, whatever follows it in the stream and is
  -- left there for the next frame, which the decoder is ready for, where the frame is not longer than what the reader accepts, the version is one that it
  -- accepts, and serde_json reads back what it wrote.
  pub decode-encode :
      (x : I) (json frame rest : Bytes)
      → serde.to_vec x ≡ some json
      → serde.from_slice json ≡ some x
      → exceeds (2 + length json) p.max_frame_len ≡ false
      → is_supported p p.version ≡ true
      → p.version < 2 ^ 16
      → encode p serde x ≡ inr frame
      → decode p serde header (frame ++ rest) ≡ item x header rest
  unfolding encode decode decode_header put_u32
  decode-encode x json frame rest w r n v b h =
      elim (Bool-cases (ltb (2 ^ 32 - 1) (2 + length json))) [
        | inl e ↦ absurd (ground arith)
        | inr e ↦
            let same : frame ≡ put_u32 (2 + length json) ++ (put_u16 p.version ++ json) =
              ground arith in
            rw (same, put_u32-u32_of (2 + length json) (ground arith), decode_header)
              (decode_len-json x json rest r n v b)
      ]
