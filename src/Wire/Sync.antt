-- ===== src/Wire/Sync.antt =====
-- The codec beside `read_frame_sync` of crates/lixun-ipc/src/preview.rs, and how much it waits for.
use lixun.Common.{
  ℕ, suc, ◌+◌, ◌-◌, ◌≤◌, false, some, [], ◌∷◌, ◌≡◌, ◌⊎◌, refl, arith, inl, inr, ltb, length, take,
  drop, Bool-cases, Option-cases,
}
use lixun.Wire.{
  Bytes, Protocol, Serde, FrameError, unexpected_eof, DecodeState, header, version_of, payload,
  Decoded, waits, fails, item, u32_of, u16_of, exceeds, is_supported, parse, decode_payload,
  decode_version, decode_len, decode_header, decode, read_exact, read_payload, be_from, be_value,
  read_version, read_len, read_frame_sync,
}

module _ {I O : Type 0} (p : Protocol) (serde : Serde I O) where
  -- What a reader makes of a stream that ends: a frame that is not complete is an error.
  abbrev pub at_eof : Decoded I → FrameError ⊎ (I × Bytes)
  at_eof (waits s rest) = inl unexpected_eof
  at_eof (fails e) = inl e
  at_eof (item x s rest) = inr (x, rest)

  read_payload-decode_payload :
      (len : ℕ) (src : Bytes)
      → read_payload p serde len src ≡ at_eof (decode_payload p serde len src)
  unfolding read_payload read_exact decode_payload parse
  read_payload-decode_payload len src = ground arith

  read_version-decode_version :
      (len : ℕ) (src : Bytes)
      → read_version p serde len src ≡ at_eof (decode_version p serde len src)
  unfolding read_version read_exact decode_version be_value be_from u16_of
  read_version-decode_version len [] = refl
  read_version-decode_version len (a ∷ []) = refl
  read_version-decode_version len (a ∷ b ∷ src) =
      let e : ltb (suc (suc (length src))) 2 ≡ false = ground arith in
      let v : be_value (a ∷ b ∷ []) ≡ u16_of a b = omega arith in
      rw (e, v, read_version)
        (elim (Bool-cases (is_supported p (u16_of a b))) [
          | inl f ↦ rw (f, decode_version) (read_payload-decode_payload (len - 2) src)
          | inr f ↦ rw (f, decode_version) refl
        ])

  read_len-decode_len :
      (len : ℕ) (src : Bytes) → read_len p serde len src ≡ at_eof (decode_len p serde len src)
  unfolding read_len decode_len
  read_len-decode_len len src = elim (Bool-cases (ltb len 2)) [
    | inl e ↦ rw (e, read_len, decode_len) refl
    | inr e ↦ elim (Bool-cases (exceeds len p.max_frame_len)) [
      | inl f ↦ rw (e, f, read_len, decode_len) refl
      | inr f ↦ rw (e, f, read_len, decode_len) (read_version-decode_version len src)
    ]
  ]

  -- The blocking reader takes from a stream what the codec decodes from it: the same item with the same
  -- bytes left, the same error, and the end of the stream for a frame that is not complete.
  pub read_frame_sync-decode :
      (src : Bytes) → read_frame_sync p serde src ≡ at_eof (decode p serde header src)
  unfolding read_frame_sync read_exact decode decode_header be_value be_from u32_of
  read_frame_sync-decode [] = refl
  read_frame_sync-decode (a ∷ []) = refl
  read_frame_sync-decode (a ∷ b ∷ []) = refl
  read_frame_sync-decode (a ∷ b ∷ c ∷ []) = refl
  read_frame_sync-decode (a ∷ b ∷ c ∷ d ∷ src) =
      let e : ltb (suc (suc (suc (suc (length src))))) 4 ≡ false = ground arith in
      let v : be_value (a ∷ b ∷ c ∷ d ∷ []) ≡ u32_of a b c d = omega arith in
      rw (e, v, read_frame_sync) (read_len-decode_len (u32_of a b c d) src)

  -- How much a state waits for.
  abbrev pub IsWithin : ℕ → DecodeState → Type 0
  IsWithin m header = Unit
  IsWithin m (version_of len) = len ≤ m
  IsWithin m (payload len) = len + 2 ≤ m

  abbrev pub WaitsWithin : ℕ → Decoded I → Type 0
  WaitsWithin m (waits s rest) = IsWithin m s
  WaitsWithin m (fails e) = Unit
  WaitsWithin m (item x s rest) = Unit

  parse-WaitsWithin : (m : ℕ) (bs rest : Bytes) → WaitsWithin m (parse p serde bs rest)
  unfolding parse
  parse-WaitsWithin m bs rest = elim (Option-cases (serde.from_slice bs)) [
    | inl e ↦ rw (e, parse) tt
    | inr (x, e) ↦ rw (e, parse) tt
  ]

  decode_payload-WaitsWithin :
      (m len : ℕ) (src : Bytes) → len + 2 ≤ m → WaitsWithin m (decode_payload p serde len src)
  unfolding decode_payload
  decode_payload-WaitsWithin m len src h = elim (Bool-cases (ltb (length src) len)) [
    | inl e ↦ rw (e, decode_payload) h
    | inr e ↦ rw (e, decode_payload) (parse-WaitsWithin m (take len src) (drop len src))
  ]

  decode_version-WaitsWithin :
      (m len : ℕ) (src : Bytes) → 2 ≤ len → len ≤ m → WaitsWithin m (decode_version p serde len src)
  unfolding decode_version
  decode_version-WaitsWithin m len [] l h = h
  decode_version-WaitsWithin m len (a ∷ []) l h = h
  decode_version-WaitsWithin m len (a ∷ b ∷ src) l h =
      elim (Bool-cases (is_supported p (u16_of a b))) [
        | inl e ↦ rw (e, decode_version) (decode_payload-WaitsWithin m (len - 2) src (omega arith))
        | inr e ↦ rw (e, decode_version) tt
      ]

  decode_len-WaitsWithin :
      (m len : ℕ) (src : Bytes)
      → p.max_frame_len ≡ some m
      → WaitsWithin m (decode_len p serde len src)
  unfolding decode_len exceeds
  decode_len-WaitsWithin m len src q = elim (Bool-cases (ltb len 2)) [
    | inl e ↦ rw (e, decode_len) tt
    | inr e ↦ elim (Bool-cases (ltb m len)) [
      | inl f ↦ rw (e, q, f, decode_len, exceeds) tt
      | inr f ↦
          rw (e, q, f, decode_len, exceeds)
            (decode_version-WaitsWithin m len src (ground arith) (ground arith))
    ]
  ]

  -- Where the protocol has a greatest length, the codec never waits for a frame that is longer, whatever
  -- a peer sends.
  pub decode_header-WaitsWithin :
      (m : ℕ) (src : Bytes) → p.max_frame_len ≡ some m → WaitsWithin m (decode p serde header src)
  unfolding decode decode_header
  decode_header-WaitsWithin m [] q = tt
  decode_header-WaitsWithin m (a ∷ []) q = tt
  decode_header-WaitsWithin m (a ∷ b ∷ []) q = tt
  decode_header-WaitsWithin m (a ∷ b ∷ c ∷ []) q = tt
  decode_header-WaitsWithin m (a ∷ b ∷ c ∷ d ∷ src) q =
      decode_len-WaitsWithin m (u32_of a b c d) src q
