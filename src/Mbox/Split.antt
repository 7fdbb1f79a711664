-- ===== src/Mbox/Split.antt =====
-- A mailbox is split without loss.
use mathlib.Core.List.{append-nil, Mem, mem-cons_self, mem-cons_of_mem}
use lixun.Common.{
  ℕ, zero, suc, ◌+◌, ◌-◌, ◌≤◌, true, List, [], ◌∷◌, ◌++◌, ◌≡◌, refl, sym, ◌∙◌, ap, arith, inl, inr,
  Bool-cases, take, drop, drop-drop, take-append-drop, map, ltb, ◌<◌, ◌⊎◌,
}
use lixun.Common.Sort.{All}
use lixun.Common.Text.{Text, starts_with}
use lixun.Mbox.{
  from_line, is_boundary, scan_from, starts, slices, whole_or_slices, split_mbox_messages,
}

-- The messages, one after the other.
abbrev pub joined : List (ℕ × Text) → Text
joined [] = []
joined ((off, msg) ∷ ms) = msg ++ joined ms

-- No start comes before the one ahead of it; the first is `lo` or later.
abbrev IsClimbing : ℕ → List ℕ → Type 0
IsClimbing lo [] = Unit
IsClimbing lo (s ∷ ss) = (lo ≤ s) × IsClimbing s ss

IsClimbing-weaken : (lo hi : ℕ) (ss : List ℕ) → lo ≤ hi → IsClimbing hi ss → IsClimbing lo ss
IsClimbing-weaken lo hi [] l h = tt
IsClimbing-weaken lo hi (s ∷ ss) l h = (omega (arith, h.0), h.1)

scan_from-IsClimbing : (skip i : ℕ) (bs : Text) → IsClimbing i (scan_from skip i bs)
unfolding scan_from
scan_from-IsClimbing skip i [] = tt
scan_from-IsClimbing (suc skip) i (b ∷ bs) =
    IsClimbing-weaken i (suc i) (scan_from skip (suc i) bs) (omega arith)
      (scan_from-IsClimbing skip (suc i) bs)
scan_from-IsClimbing zero i (b ∷ bs) = elim (Bool-cases (is_boundary b bs)) [
  | inl e ↦
      let next : suc i ≡ i + 1 = omega arith in
      rw (e, scan_from) (omega arith, rw (← next) (scan_from-IsClimbing 5 (suc i) bs))
  | inr e ↦
      rw (e, scan_from)
        (IsClimbing-weaken i (suc i) (scan_from 0 (suc i) bs) (omega arith)
          (scan_from-IsClimbing 0 (suc i) bs))
]

joined-slices :
    (bytes : Text) (s : ℕ) (ss : List ℕ)
    → IsClimbing s ss
    → joined (slices bytes (s ∷ ss)) ≡ drop s bytes
unfolding slices
joined-slices bytes s [] h = append-nil (drop s bytes)
joined-slices bytes s (t ∷ ss) h =
    let later : s + (t - s) ≡ t = omega (arith, h.0) in
    ap (λ (r : Text). take (t - s) (drop s bytes) ++ r) (joined-slices bytes t ss h.1)
    ∙ rw (← ap (λ (n : ℕ). drop n bytes) later)
        (rw (← drop-drop (t - s) s bytes) (take-append-drop (t - s) (drop s bytes)))

-- A newline, and `From ` behind it.
abbrev pub IsBreak : Text → ℕ → Type 0
IsBreak bytes i = starts_with (drop i bytes) (10 ∷ from_line) ≡ true

-- A line that begins with `From ` stands at the place: the first line, or one behind a newline.
abbrev pub IsFromLine : Text → ℕ → Type 0
IsFromLine bytes s =
    ((s ≡ 0) × (starts_with bytes from_line ≡ true)) ⊎ ((i : ℕ) × (s ≡ suc i) × IsBreak bytes i)

drop_suc : (bytes : Text) (i b : ℕ) (bs : Text) → drop i bytes ≡ b ∷ bs → drop (i + 1) bytes ≡ bs
drop_suc bytes i b bs h = sym (drop-drop 1 i bytes) ∙ ap (drop 1) h

is_boundary-starts_with :
    (c : ℕ) (cs : Text) → is_boundary c cs ≡ starts_with (c ∷ cs) (10 ∷ from_line)
unfolding is_boundary starts_with
is_boundary-starts_with c cs = refl

scan_from-IsFromLine :
    (bytes : Text) (skip i : ℕ) (bs : Text)
    → drop i bytes ≡ bs
    → All (IsFromLine bytes) (scan_from skip i bs)
unfolding scan_from
scan_from-IsFromLine bytes skip i [] h = tt
scan_from-IsFromLine bytes (suc skip) i (b ∷ bs) h =
    let next : i + 1 ≡ suc i = omega arith in
    scan_from-IsFromLine bytes skip (suc i) bs (rw (← next) (drop_suc bytes i b bs h))
scan_from-IsFromLine bytes zero i (b ∷ bs) h =
    let next : i + 1 ≡ suc i = omega arith in
    let rest : drop (suc i) bytes ≡ bs = rw (← next) (drop_suc bytes i b bs h) in
    elim (Bool-cases (is_boundary b bs)) [
      | inl e ↦
          let here : IsBreak bytes i = rw h (sym (is_boundary-starts_with b bs) ∙ e) in
          rw (e, scan_from) (inr (i, next, here), scan_from-IsFromLine bytes 5 (suc i) bs rest)
      | inr e ↦ rw (e, scan_from) (scan_from-IsFromLine bytes 0 (suc i) bs rest)
    ]

-- No newline stands in `From `.
no_break_inside : (bs : Text) (j : ℕ) → starts_with bs from_line ≡ true → j < 5 → IsBreak bs j → ⊥
unfolding starts_with
no_break_inside bs j f l h = go bs j f l h
  where
    go : (bs : Text) (j : ℕ) → starts_with bs from_line ≡ true → j < 5 → IsBreak bs j → ⊥
    go (a ∷ bs) zero f l h = absurd (ground arith)
    go (a ∷ b ∷ bs) (suc zero) f l h = absurd (ground arith)
    go (a ∷ b ∷ c ∷ bs) (suc (suc zero)) f l h = absurd (ground arith)
    go (a ∷ b ∷ c ∷ d ∷ bs) (suc (suc (suc zero))) f l h = absurd (ground arith)
    go (a ∷ b ∷ c ∷ d ∷ e ∷ bs) (suc (suc (suc (suc zero)))) f l h = absurd (ground arith)
    go _ _ f l h = absurd (ground arith)

-- The scan misses no break behind the bytes that it passes over.
scan_from-complete :
    (skip i : ℕ) (bs : Text) (j : ℕ)
    → skip ≤ j
    → IsBreak bs j
    → Mem (i + j + 1) (scan_from skip i bs)
unfolding scan_from
scan_from-complete skip i [] j l h = absurd (no_break_at_end j h)
  where
    no_break_at_end : (j : ℕ) → starts_with (drop j []) (10 ∷ from_line) ≡ true → ⊥
    no_break_at_end zero h = unfold starts_with in cc
    no_break_at_end (suc j) h = unfold starts_with in cc
scan_from-complete (suc skip) i (b ∷ bs) zero l h = absurd (omega arith)
scan_from-complete (suc skip) i (b ∷ bs) (suc j) l h =
    let same : i + suc j + 1 ≡ suc i + j + 1 = omega arith in
    rw same (scan_from-complete skip (suc i) bs j (omega arith) h)
scan_from-complete zero i (b ∷ bs) zero l h =
    let e : is_boundary b bs ≡ true = is_boundary-starts_with b bs ∙ h in
    let same : i + 0 + 1 ≡ i + 1 = omega arith in rw (e, same, scan_from) mem-cons_self
scan_from-complete zero i (b ∷ bs) (suc j) l h =
    let same : i + suc j + 1 ≡ suc i + j + 1 = omega arith in
    elim (Bool-cases (is_boundary b bs)) [
      | inr e ↦ rw (e, same, scan_from) (scan_from-complete zero (suc i) bs j (omega arith) h)
      | inl e ↦
          let line : starts_with bs from_line ≡ true = behind b bs e in
          elim (Bool-cases (ltb j 5)) [
            | inl k ↦ absurd (no_break_inside bs j line (ground arith) h)
            | inr k ↦
                rw (e, same, scan_from)
                  (mem-cons_of_mem (i + 1) (scan_from-complete 5 (suc i) bs j (ground arith) h))
          ]
    ]
  where
    behind : (c : ℕ) (cs : Text) → is_boundary c cs ≡ true → starts_with cs from_line ≡ true
    behind c cs e = unfold is_boundary in ground arith

offsets-slices : (bytes : Text) (ss : List ℕ) → map (λ (m : ℕ × Text). m.0) (slices bytes ss) ≡ ss
unfolding slices
offsets-slices bytes [] = refl
offsets-slices bytes (s ∷ []) = refl
offsets-slices bytes (s ∷ t ∷ ss) = ap (λ r. s ∷ r) (offsets-slices bytes (t ∷ ss))

-- A mailbox that begins with a `From ` line is split without loss, and exactly at the lines that begin
-- with `From `: the messages, put together, are the mailbox, each of them is given with the position of
-- such a line, and each such line is the position of one.
pub split_mbox_messages_lem :
    (bytes : Text)
    → starts_with bytes from_line ≡ true
    → let messages = split_mbox_messages bytes in
      let offsets = map (λ (m : ℕ × Text). m.0) messages in
      (joined messages ≡ bytes)
      × All (IsFromLine bytes) offsets
      × ((i : ℕ) → IsBreak bytes i → Mem (i + 1) offsets)
unfolding split_mbox_messages starts
split_mbox_messages_lem [] h = unfold starts_with in absurd (ground arith)
split_mbox_messages_lem (b ∷ bs) h =
    let found : List ℕ = scan_from 0 0 (b ∷ bs) in
    rw (h, whole_or_slices, offsets-slices (b ∷ bs) (0 ∷ found))
      (
        joined-slices (b ∷ bs) 0 found (scan_from-IsClimbing 0 0 (b ∷ bs)),
        (inl (refl, h), scan_from-IsFromLine (b ∷ bs) 0 0 (b ∷ bs) refl),
        λ i e.
            let same : 0 + i + 1 ≡ i + 1 = omega arith in
            mem-cons_of_mem 0 (rw same at (scan_from-complete 0 0 (b ∷ bs) i (omega arith) e)),
      )
