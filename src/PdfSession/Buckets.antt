-- ===== src/PdfSession/Buckets.antt =====
-- The bucket that a page is rendered at.
use lixun.Common.{
  ℕ, zero, suc, ◌≤◌, ◌<◌, ◌≡◌, ◌⊎◌, refl, arith, inl, inr, Bool-cases, leb, leb→le, ◌==◌, ==_iff,
}
use lixun.Common.Float.{Float}
use lixun.PdfSession.{
  PageSize, texture_bytes, scan_buckets, max_bucket_for_page, effective_bucket_for_page,
  max_render_bucket, max_single_entry_bytes,
}

module _ {F : Type 0} (fl : Float F) (ceil : F → ℕ) where
  -- `b` is the largest of the buckets from 1 to `top` whose texture is small enough, or 1.
  abbrev pub IsLargest : PageSize F → ℕ → ℕ → Type 0
  IsLargest size top b =
      (1 ≤ b)
      × ((b ≡ 1) ⊎ ((b ≤ top) × (texture_bytes fl ceil size b ≤ max_single_entry_bytes)))
      × ((c : ℕ) → (c ≤ b) ⊎ ((top < c) ⊎ (max_single_entry_bytes < texture_bytes fl ceil size c)))

  scan_buckets-IsLargest :
      (size : PageSize F) (top : ℕ) → IsLargest size top (scan_buckets fl ceil size top)
  unfolding scan_buckets
  scan_buckets-IsLargest size zero = (omega arith, inl refl, λ c. above c)
    where
      above :
          (c : ℕ) → (c ≤ 1) ⊎ ((0 < c) ⊎ (max_single_entry_bytes < texture_bytes fl ceil size c))
      above zero = inl (omega arith)
      above (suc c) = inr (inl (omega arith))
  scan_buckets-IsLargest size (suc top) =
      elim (Bool-cases (leb (texture_bytes fl ceil size (suc top)) max_single_entry_bytes)) [
        | inl e ↦ rw e (
          omega arith,
          inr (omega arith, leb→le _ _ e),
          λ c. elim (Bool-cases (leb c (suc top))) [
            | inl l ↦ inl (leb→le _ _ l)
            | inr g ↦ inr (inl (ground arith))
          ],
        )
        | inr e ↦
            let (one_up, small, others) = scan_buckets-IsLargest size top in
            rw (e, scan_buckets)
              (
                one_up,
                elim small [ inl l ↦ inl l | inr (l, fits) ↦ inr (omega arith, fits) ],
                λ c. elim (others c) [
                  | inl l ↦ inl l
                  | inr (inr g) ↦ inr (inr g)
                  | inr (inl g) ↦ elim (Bool-cases (c == suc top)) [
                    | inl same ↦ inr (inr (rw ((==_iff c (suc top)).0 same) (ground arith)))
                    | inr other ↦ inr (inl (ground arith))
                  ]
                ],
              )
      ]

  -- The cap on the bucket of a page is the largest bucket, of those up to 16, whose texture is no larger
  -- than one entry of the cache may be; where there is none, it is 1. A page is rendered at the bucket
  -- that is asked for, or at the cap where more is asked for.
  pub max_bucket_for_page-IsLargest :
      (size : PageSize F) (req : ℕ)
      → let cap = max_bucket_for_page fl ceil size in
        let bucket = effective_bucket_for_page fl ceil req size in
        IsLargest size max_render_bucket cap
        × (((bucket ≡ req) × (req ≤ cap)) ⊎ ((bucket ≡ cap) × (cap < req)))
  unfolding max_bucket_for_page effective_bucket_for_page
  max_bucket_for_page-IsLargest size req =
      let cap = max_bucket_for_page fl ceil size in
      (
        scan_buckets-IsLargest size max_render_bucket,
        elim (Bool-cases (leb req cap)) [
          | inl e ↦ inl (omega (arith, leb→le _ _ e), leb→le _ _ e)
          | inr e ↦ inr (ground arith, ground arith)
        ],
      )
