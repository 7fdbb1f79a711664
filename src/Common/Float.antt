-- ===== src/Common/Float.antt =====
-- The floating-point numbers of the source, which are no numbers of the model: the operations that
-- the code makes, and the facts of IEEE 754 that proofs rest on. A value that is `≤` itself is no NaN.
use Prim.Native.Nat.{ℕ, ◌≤◌}
use mathlib.Core.Path.{◌≡◌}
use mathlib.Core.Bool.{Bool, true, false}
use lixun.Common.Tests.{if◌then◌else◌}

pub record Float {ℓ} (F : Type ℓ) : Type ℓ where
  -- the literal `digits / 10 ^ places`
  pub decimal : ℕ → ℕ → F
  -- what `Iterator::sum` starts from
  pub sum_start : F
  -- `n as f32`
  pub of_nat : ℕ → F
  pub add : F → F → F
  pub mul : F → F → F
  pub div : F → F → F
  pub ln : F → F
  pub powi : F → ℕ → F
  pub lt : F → F → Bool
  pub le : F → F → Bool

module _ {ℓ} {F : Type ℓ} (fl : Float F) where
  abbrev pub IsNonneg : F → Type 0
  IsNonneg x = fl.le (fl.decimal 0 0) x ≡ true

  -- `f32::clamp`.
  unfoldable pub clamp : F → F → F → F
  clamp x lo hi = if fl.lt x lo then lo else if fl.lt hi x then hi else x

  -- What IEEE 754 says of comparisons, and of sums and quotients of numbers that are not negative.
  pub record IsIeee : Type ℓ where
    pub lt_asym : (x y : F) → fl.lt x y ≡ true → fl.lt y x ≡ false
    pub lt_neg_trans :
        (x y z : F)
        → IsNonneg x
        → IsNonneg y
        → IsNonneg z
        → fl.lt x y ≡ false
        → fl.lt y z ≡ false
        → fl.lt x z ≡ false
    pub lt_neg_le :
        (x y : F) → fl.le x x ≡ true → fl.le y y ≡ true → fl.lt x y ≡ false → fl.le y x ≡ true
    pub decimal_le :
        (places m n : ℕ) → m ≤ n → fl.le (fl.decimal m places) (fl.decimal n places) ≡ true
    pub decimal_nonneg : (m places : ℕ) → IsNonneg (fl.decimal m places)
    pub sum_start_nonneg : IsNonneg fl.sum_start
    pub add_nonneg : (x y : F) → IsNonneg x → IsNonneg y → IsNonneg (fl.add x y)
