-- ===== src/Scoring.antt =====
-- crates/lixun-index/src/scoring.rs: the multipliers that compare a title with a query, and the initials
-- of a title. The classes and the lower case of a character are tables of Unicode and a parameter.
mod Tests
use lixun.Common.{
  ℕ, Bool, true, false, Option, none, some, List, [], ◌∷◌, ◌++◌, if◌then◌else◌, ◌&&◌, ◌||◌, ◌==◌,
}
use lixun.Common.Text.{Text, text_eq, starts_with, is_empty, is_whitespace}
use lixun.Common.Float.{Float}
use lixun.Normalize.{normalize_for_match}

pub record CharTable : Type 0 where
  pub is_alphabetic : ℕ → Bool
  pub is_lowercase : ℕ → Bool
  pub is_uppercase : ℕ → Bool
  pub to_lowercase : ℕ → Text

unfoldable pub is_separator : ℕ → Bool
is_separator c = is_whitespace c || c == b'_' || c == b'-' || c == b'.' || c == b'/'

module _ (chars : CharTable) where
  -- Whether the next character is alphabetic and in lower case.
  unfoldable pub next_is_lower : Text → Bool
  next_is_lower [] = false
  next_is_lower (c ∷ cs) = chars.is_alphabetic c && chars.is_lowercase c

  -- The character before it, the character, and what follows.
  unfoldable pub starts_subword : Option ℕ → ℕ → Text → Bool
  unfolding next_is_lower
  starts_subword none ch cs = true
  starts_subword (some prev) ch cs =
      (chars.is_alphabetic prev && chars.is_lowercase prev && chars.is_uppercase ch)
      || (chars.is_alphabetic prev && chars.is_uppercase ch && next_is_lower cs)

  -- The loop of `push_word_initials`; the list is what is pushed from here.
  unfoldable pub push_from : Option ℕ → Text → Text
  unfolding starts_subword
  push_from prev [] = []
  push_from prev (ch ∷ cs) =
      let rest = push_from (some ch) cs in
      if chars.is_alphabetic ch
      then if starts_subword prev ch cs then chars.to_lowercase ch ++ rest else rest
      else rest

  unfoldable pub push_word_initials : Text → Text
  unfolding push_from
  push_word_initials word = push_from none word

  -- `if let Some(start) = word_start`, with the word in place of its start.
  unfoldable pub push_word : Option Text → Text
  unfolding push_word_initials
  push_word none = []
  push_word (some word) = push_word_initials word

  unfoldable pub or_empty : Option Text → Text
  or_empty none = []
  or_empty (some word) = word

  unfoldable pub initials_from : Option Text → Text → Text
  unfolding push_word is_separator or_empty
  initials_from word_start [] = push_word word_start
  initials_from word_start (ch ∷ cs) = elim (is_separator ch) [
    | true ↦ push_word word_start ++ initials_from none cs
    | false ↦ initials_from (some (or_empty word_start ++ (ch ∷ []))) cs
  ]

  unfoldable pub acronym_initials : Text → Text
  unfolding initials_from
  acronym_initials title = initials_from none title

module _ {F : Type 0} (fl : Float F) where
  unfoldable pub prefix_mult : Text → Text → F → F
  unfolding is_empty starts_with
  prefix_mult title_norm q_norm weight =
      if is_empty q_norm
      then fl.decimal 10 1
      else if starts_with title_norm q_norm
      then weight
      else fl.decimal 10 1

  unfoldable pub exact_title_mult : Text → Text → F → F
  exact_title_mult title_norm q_norm weight =
      if is_empty q_norm
      then fl.decimal 10 1
      else if text_eq title_norm q_norm
      then weight
      else fl.decimal 10 1

  module _ (nfkd to_lowercase : Text → Text) (chars : CharTable) where
    unfoldable pub acronym_mult : Text → Text → F → F
    acronym_mult title q_norm weight =
        let initials = normalize_for_match nfkd to_lowercase (acronym_initials chars title) in
        if is_empty q_norm
        then fl.decimal 10 1
        else if starts_with initials q_norm
        then weight
        else fl.decimal 10 1
