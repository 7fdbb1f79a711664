-- ===== src/Normalize/Laws.antt =====
-- What a normalised text looks like.
use mathlib.Core.List.{reverse-cons, reverse-append}
use lixun.Common.{
  ℕ, Bool, true, false, [], ◌∷◌, ◌++◌, ◌≡◌, refl, arith, inl, inr, Bool-cases, ◌==◌, reverse,
  if◌then◌else◌, ◌∙◌, ap,
}
use lixun.Common.Text.{Text, is_whitespace}
use lixun.Common.Sort.{All}
use lixun.Normalize.{
  collapse_from, collapse_whitespace, is_stripped, trim_start_stripped, trim_end_stripped,
  without_quotes, normalize_for_match, normalize_for_latch_key,
}

-- Whitespace is a single space, and `prev` says whether whitespace stood before the text.
unfoldable pub Collapsed : Bool → Text → Type 0
Collapsed prev [] = Unit
Collapsed prev (c ∷ cs) =
    (is_whitespace c ≡ true → (c ≡ b' ') × (prev ≡ false)) × Collapsed (is_whitespace c) cs

at_space :
    (prev : Bool) (cs : Text)
    → Collapsed true (collapse_from true cs)
    → Collapsed prev (if prev then collapse_from true cs else b' ' ∷ collapse_from true cs)
unfolding Collapsed is_whitespace
at_space true cs h = h
at_space false cs h = ((λ e. (refl, refl)), h)

collapse_from-Collapsed : (prev : Bool) (s : Text) → Collapsed prev (collapse_from prev s)
unfolding collapse_from Collapsed
collapse_from-Collapsed prev [] = tt
collapse_from-Collapsed prev (c ∷ cs) = elim (Bool-cases (is_whitespace c)) [
  | inl w ↦ rw w (at_space prev cs (collapse_from-Collapsed true cs))
  | inr w ↦ rw w ((λ e. cc (e, w)), rw w (collapse_from-Collapsed false cs))
]

-- Empty, or begins with a character that is not stripped from a latch key.
abbrev BeginsClean : Text → Type 0
BeginsClean [] = Unit
BeginsClean (c ∷ cs) = is_stripped c ≡ false

trim_start_stripped-BeginsClean : (s : Text) → BeginsClean (trim_start_stripped s)
unfolding trim_start_stripped
trim_start_stripped-BeginsClean [] = tt
trim_start_stripped-BeginsClean (c ∷ cs) = elim (Bool-cases (is_stripped c)) [
  | inl e ↦ rw e (trim_start_stripped-BeginsClean cs)
  | inr e ↦ rw (e, trim_start_stripped) e
]

trim_start_stripped-append :
    (xs : Text) (c : ℕ)
    → is_stripped c ≡ false
    → trim_start_stripped (xs ++ (c ∷ [])) ≡ trim_start_stripped xs ++ (c ∷ [])
unfolding trim_start_stripped
trim_start_stripped-append [] c h = rw h refl
trim_start_stripped-append (x ∷ xs) c h = elim (Bool-cases (is_stripped x)) [
  | inl e ↦ rw e (trim_start_stripped-append xs c h)
  | inr e ↦ rw e refl
]

trim_end_stripped-cons :
    (c : ℕ) (cs : Text)
    → is_stripped c ≡ false
    → trim_end_stripped (c ∷ cs) ≡ c ∷ trim_end_stripped cs
unfolding trim_end_stripped
trim_end_stripped-cons c cs h =
    ap (λ (t : Text). reverse (trim_start_stripped t)) (reverse-cons c cs)
    ∙ ap (λ (t : Text). reverse t) (trim_start_stripped-append (reverse cs) c h)
    ∙ reverse-append (trim_start_stripped (reverse cs)) (c ∷ [])

trim_end_stripped-BeginsClean : (s : Text) → BeginsClean s → BeginsClean (trim_end_stripped s)
unfolding trim_end_stripped
trim_end_stripped-BeginsClean [] h = unfold trim_start_stripped in tt
trim_end_stripped-BeginsClean (c ∷ cs) h = rw (trim_end_stripped-cons c cs h) h

without_quotes-BeginsClean : (s : Text) → BeginsClean s → BeginsClean (without_quotes s)
unfolding without_quotes is_stripped
without_quotes-BeginsClean [] h = tt
without_quotes-BeginsClean (c ∷ cs) h = elim (Bool-cases (c == 34)) [
  | inl e ↦ absurd (ground arith)
  | inr e ↦ rw (e, without_quotes) h
]

abbrev HasNoQuote : Text → Type 0
HasNoQuote s = All (λ c. (c == 34) ≡ false) s

without_quotes-HasNoQuote : (s : Text) → HasNoQuote (without_quotes s)
unfolding without_quotes
without_quotes-HasNoQuote [] = tt
without_quotes-HasNoQuote (c ∷ cs) = elim (Bool-cases (c == 34)) [
  | inl e ↦ rw e (without_quotes-HasNoQuote cs)
  | inr e ↦ rw e (e, without_quotes-HasNoQuote cs)
]

module _ (nfkd to_lowercase : Text → Text) where
  -- In a normalised query all whitespace is single spaces.
  normalize_for_match-Collapsed :
      (q : Text) → Collapsed false (normalize_for_match nfkd to_lowercase q)
  unfolding normalize_for_match collapse_whitespace
  normalize_for_match-Collapsed q = collapse_from-Collapsed false _

  -- A latch key holds no `"` and does not begin with `-` or `+`.
  normalize_for_latch_key-clean :
      (q : Text)
      → let key = normalize_for_latch_key nfkd to_lowercase q in HasNoQuote key × BeginsClean key
  unfolding normalize_for_latch_key
  normalize_for_latch_key-clean q =
      let s : Text = normalize_for_match nfkd to_lowercase q in
      (
        without_quotes-HasNoQuote (trim_end_stripped (trim_start_stripped s)),
        without_quotes-BeginsClean (trim_end_stripped (trim_start_stripped s)) (
            trim_end_stripped-BeginsClean (trim_start_stripped s)
              (trim_start_stripped-BeginsClean s)),
      )
