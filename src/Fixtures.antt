-- ===== src/Fixtures.antt =====
-- Concrete parameters for the tests: decimal numbers with four places in place of floats, and a JSON
-- codec that knows one store.
use native.Mathlib.Nat.{mul-le-mul_right}
use lixun.Common.{
  ℕ, zero, suc, ◌+◌, ◌-◌, ◌*◌, ◌/◌, ◌^◌, ◌≤◌, Bool, true, [], ◌∷◌, ◌&&◌, ◌||◌, none, some, ◌≡◌,
  refl, arith, ltb, leb, if◌then◌else◌,
}
use lixun.Common.Text.{Text, text_eq}
use lixun.Common.Float.{Float, IsIeee}
use lixun.StateFile.{Json}
use lixun.Scoring.{CharTable}

abbrev power : ℕ → ℕ → ℕ
power x zero = 10000
power x (suc n) = power x n * x / 10000

-- A number stands for that many ten-thousandths.
abbrev pub decimals : Float ℕ
decimals = record {
  decimal = λ digits places. digits * 10 ^ (4 - places);
  sum_start = 0;
  of_nat = λ n. n * 10000;
  add = λ x y. x + y;
  mul = λ x y. x * y / 10000;
  div = λ x y. x * 10000 / y;
  ln = λ x. x;
  powi = power;
  lt = ltb;
  le = leb;
}

le→leb : {a b : ℕ} → a ≤ b → leb a b ≡ true
le→leb h = ground arith

pub decimals-IsIeee : IsIeee decimals
decimals-IsIeee = record {
  lt_asym = λ x y h. ground arith;
  lt_neg_trans = λ x y z px py pz h k. ground arith;
  lt_neg_le = λ x y hx hy h. ground arith;
  decimal_le = λ places m n h. le→leb (mul-le-mul_right (10 ^ (4 - places)) h);
  decimal_nonneg = λ m places. ground arith;
  sum_start_nonneg = refl;
  add_nonneg = λ x y hx hy. ground arith;
}

-- A codec that prints a store as `text` and parses that text alone.
abbrev pub one_store : {S : Type 0} → S → Text → Json S
one_store x text = record {
  to_json = λ _. text;
  from_json = λ s. if text_eq s text then some x else none;
}

abbrev upper : ℕ → Bool
upper c = leb b'A' c && leb c b'Z'

abbrev lower : ℕ → Bool
lower c = leb b'a' c && leb c b'z'

abbrev pub ascii : CharTable
ascii = record {
  is_alphabetic = λ c. upper c || lower c;
  is_lowercase = lower;
  is_uppercase = upper;
  to_lowercase = λ c. if upper c then (c + 32) ∷ [] else c ∷ [];
}
