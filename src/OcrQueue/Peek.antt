-- ===== src/OcrQueue/Peek.antt =====
-- Which row `peek_next` takes.
use mathlib.Core.List.{Mem, mem-cons_self, mem-cons_of_mem}
use lixun.Common.{
  ℕ, Bool, true, false, none, some, [], ◌∷◌, ◌≡◌, ◌⊎◌, refl, arith, Bool-cases, inl, inr, sym, ◌≤◌,
  ◌<◌, ltb, subst,
}
use lixun.Common.Int.{ℤ, pos, ltb_ℤ, ◌-ℤ◌, ◌≤ℤ◌}
use lixun.Common.Sort.{All}
use lixun.OcrQueue.{
  Stored, Table, row_from_sql, pending, is_recent, order_key, lex_before, comes_before, first_by,
  first_of_all, peek_next,
}

lex_before-asym :
    (m : ℕ) (p : Bool) (a : ℤ) (n : ℕ) (q : Bool) (b : ℤ)
    → lex_before m p a n q b ≡ true
    → lex_before n q b m p a ≡ false
unfolding lex_before
lex_before-asym m p a n q b h = ground arith

lex_before-neg_trans :
    (m : ℕ) (p : Bool) (a : ℤ) (n : ℕ) (q : Bool) (b : ℤ) (o : ℕ) (s : Bool) (c : ℤ)
    → lex_before m p a n q b ≡ false
    → lex_before n q b o s c ≡ false
    → lex_before m p a o s c ≡ false
unfolding lex_before
lex_before-neg_trans m p a n q b o s c h k = ground arith

comes_before-asym :
    (now : ℤ) (r s : Stored) → comes_before now r s ≡ true → comes_before now s r ≡ false
unfolding comes_before
comes_before-asym now r s h =
    lex_before-asym r.attempts (is_recent now r) (order_key now r) s.attempts (is_recent now s)
      (order_key now s) h

comes_before-neg_trans :
    (now : ℤ) (r s u : Stored)
    → comes_before now r s ≡ false
    → comes_before now s u ≡ false
    → comes_before now r u ≡ false
unfolding comes_before
comes_before-neg_trans now r s u h k =
    lex_before-neg_trans r.attempts (is_recent now r) (order_key now r) s.attempts (is_recent now s)
      (order_key now s) u.attempts (is_recent now u) (order_key now u) h k

comes_before_irrefl : (now : ℤ) (r : Stored) → comes_before now r r ≡ false
comes_before_irrefl now r = elim (Bool-cases (comes_before now r r)) [
  | inl e ↦ comes_before-asym now r r e
  | inr e ↦ e
]

-- None of the rows comes before `best`.
abbrev pub IsFirst : ℤ → Stored → Table → Type 0
IsFirst now best t = All (λ s. comes_before now s best ≡ false) t

-- The loop keeps `best` a row of the table that none of the rows read so far comes before.
first_by-le :
    (now : ℤ) (best : Stored) (t : Table) (s : Stored)
    → comes_before now s best ≡ false
    → comes_before now s (first_by now best t) ≡ false
unfolding first_by
first_by-le now best [] s h = h
first_by-le now best (r ∷ t) s h = elim (Bool-cases (comes_before now r best)) [
  | inl e ↦ rw e (
      first_by-le now r t s
        (comes_before-neg_trans now s best r h (comes_before-asym now r best e)))
  | inr e ↦ rw e (first_by-le now best t s h)
]

first_by-IsFirst :
    (now : ℤ) (best : Stored) (t : Table) → IsFirst now (first_by now best t) (best ∷ t)
unfolding first_by
first_by-IsFirst now best [] = (comes_before_irrefl now best, tt)
first_by-IsFirst now best (r ∷ t) = elim (Bool-cases (comes_before now r best)) [
  | inl e ↦
      let step : first_by now best (r ∷ t) ≡ first_by now r t = rw e in
      subst (λ x. IsFirst now x (best ∷ r ∷ t)) (sym step)
        (first_by-le now r t best (comes_before-asym now r best e), first_by-IsFirst now r t)
  | inr e ↦
      let step : first_by now best (r ∷ t) ≡ first_by now best t = rw e in
      let ih = first_by-IsFirst now best t in
      subst (λ x. IsFirst now x (best ∷ r ∷ t)) (sym step)
        (ih.0, (first_by-le now best t r e, ih.1))
]

first_by-All :
    (now : ℤ) (best : Stored) (t : Table) (P : Stored → Type 0)
    → All P (best ∷ t)
    → P (first_by now best t)
unfolding first_by
first_by-All now best [] P h = h.0
first_by-All now best (r ∷ t) P h = elim (Bool-cases (comes_before now r best)) [
  | inl e ↦ rw e (first_by-All now r t P h.1)
  | inr e ↦ rw e (first_by-All now best t P (h.0, h.1.1))
]

All-Mem :
    (t rows : Table) → ((s : Stored) → Mem s rows → Mem s t) → All (λ (s : Stored). Mem s t) rows
All-Mem t [] h = tt
All-Mem t (r ∷ rows) h = (h r mem-cons_self, All-Mem t rows (λ s x. h s (mem-cons_of_mem r x)))

-- The row that is taken is one with attempts left.
pub peek_next-pending :
    (t : Table) (max_attempts : ℕ) (now : ℤ)
    → (pending max_attempts t ≡ [])
      ⊎ ((r : Stored) × (peek_next t max_attempts now ≡ some (row_from_sql r))
          × Mem r (pending max_attempts t))
unfolding peek_next first_of_all
peek_next-pending t max_attempts now = first (pending max_attempts t) refl
  where
    first :
        (ps : Table)
        → pending max_attempts t ≡ ps
        → (pending max_attempts t ≡ [])
          ⊎ ((r : Stored) × (peek_next t max_attempts now ≡ some (row_from_sql r))
              × Mem r (pending max_attempts t))
    first [] e = inl e
    first (p ∷ ps) e = inr (
      first_by now p ps,
      rw (e, peek_next, first_of_all),
      rw e (first_by-All now p ps (λ s. Mem s (p ∷ ps)) (All-Mem (p ∷ ps) (p ∷ ps) (λ s x. x))),
    )

-- Enqueued in the last day before `now`.
abbrev pub IsRecent : ℤ → Stored → Type 0
IsRecent now r = ltb_ℤ (now -ℤ r.enqueued_at) (pos 86400) ≡ true

-- `r` is taken before `s`, or is as good: it has fewer attempts; or as many, and it is recent and `s` is
-- not, or both are and it was enqueued no later, or neither is and its file was changed no earlier.
abbrev pub GoesFirst : ℤ → Stored → Stored → Type 0
GoesFirst now r s =
    (r.attempts < s.attempts)
    ⊎ ((r.attempts ≡ s.attempts)
        × ((IsRecent now r × ¬ IsRecent now s)
            ⊎ ((IsRecent now r × IsRecent now s × (r.enqueued_at ≤ℤ s.enqueued_at))
                ⊎ (¬ IsRecent now r × ¬ IsRecent now s × (s.mtime ≤ℤ r.mtime)))))

comes_before-GoesFirst : (now : ℤ) (r s : Stored) → comes_before now s r ≡ false → GoesFirst now r s
unfolding comes_before lex_before is_recent order_key ◌-ℤ◌
comes_before-GoesFirst now r s h = elim (Bool-cases (ltb r.attempts s.attempts)) [
  | inl l ↦ inl (ground arith)
  | inr l ↦
      let same : r.attempts ≡ s.attempts = ground arith in
      inr (
        same,
        elim (Bool-cases (is_recent now r)) [
          | inl e ↦ elim (Bool-cases (is_recent now s)) [
            | inl f ↦ inr (inl (e, f, ground arith))
            | inr f ↦ inl (e, λ z. absurd (ground arith))
          ]
          | inr e ↦ elim (Bool-cases (is_recent now s)) [
            | inl f ↦ absurd (ground arith)
            | inr f ↦
                inr (inr ((λ z. absurd (ground arith)), (λ z. absurd (ground arith)), ground arith))
          ]
        ],
      )
]

pending-none : (m : ℕ) (t : Table) → pending m t ≡ [] → All (λ (s : Stored). m ≤ s.attempts) t
unfolding pending
pending-none m [] h = tt
pending-none m (r ∷ t) h = elim (Bool-cases (ltb r.attempts m)) [
  | inl e ↦ absurd (ground arith)
  | inr e ↦ (ground arith, pending-none m t (ground arith))
]

-- A row of the table with attempts left.
abbrev IsTakeable : ℕ → Table → Stored → Type 0
IsTakeable m t s = Mem s t × (s.attempts < m)

pending-IsTakeable :
    (m : ℕ) (t rows : Table)
    → ((s : Stored) → Mem s rows → Mem s t)
    → All (IsTakeable m t) (pending m rows)
unfolding pending
pending-IsTakeable m t [] h = tt
pending-IsTakeable m t (r ∷ rows) h =
    let rest = pending-IsTakeable m t rows (λ s x. h s (mem-cons_of_mem r x)) in
    elim (Bool-cases (ltb r.attempts m)) [
      | inl e ↦ rw e ((h r mem-cons_self, ground arith), rest)
      | inr e ↦ rw e rest
    ]

pending-GoesFirst :
    (m : ℕ) (now : ℤ) (r : Stored) (t : Table)
    → IsFirst now r (pending m t)
    → All (λ (s : Stored). (m ≤ s.attempts) ⊎ GoesFirst now r s) t
unfolding pending
pending-GoesFirst m now r [] h = tt
pending-GoesFirst m now r (s ∷ t) h = elim (Bool-cases (ltb s.attempts m)) [
  | inl e ↦
      let (a, b) : IsFirst now r (s ∷ pending m t) = rw e at h in
      (inr (comes_before-GoesFirst now r s a), pending-GoesFirst m now r t b)
  | inr e ↦ (inl (ground arith), pending-GoesFirst m now r t (rw e at h))
]

-- `peek_next` returns nothing only where every row has used up its attempts. Otherwise it returns a row
-- of the table with attempts left, which goes first among the rows with attempts left: the fewest
-- attempts; among these the rows of the last day, the oldest first; then the most recently changed file.
pub peek_next_lem :
    (t : Table) (max_attempts : ℕ) (now : ℤ)
    → ((peek_next t max_attempts now ≡ none) × All (λ (s : Stored). max_attempts ≤ s.attempts) t)
      ⊎ ((r : Stored) × (peek_next t max_attempts now ≡ some (row_from_sql r))
          × Mem r t
          × (r.attempts < max_attempts)
          × All (λ (s : Stored). (max_attempts ≤ s.attempts) ⊎ GoesFirst now r s) t)
unfolding peek_next first_of_all
peek_next_lem t max_attempts now = first (pending max_attempts t) refl
  where
    first :
        (ps : Table)
        → pending max_attempts t ≡ ps
        → ((peek_next t max_attempts now ≡ none)
            × All (λ (s : Stored). max_attempts ≤ s.attempts) t)
          ⊎ ((r : Stored) × (peek_next t max_attempts now ≡ some (row_from_sql r))
              × Mem r t
              × (r.attempts < max_attempts)
              × All (λ (s : Stored). (max_attempts ≤ s.attempts) ⊎ GoesFirst now r s) t)
    first [] e = inl (rw (e, peek_next, first_of_all), pending-none max_attempts t e)
    first (p ∷ ps) e =
        let (m, a) =
          first_by-All now p ps (IsTakeable max_attempts t)
            (rw e at (pending-IsTakeable max_attempts t t (λ s x. x))) in
        inr (
          first_by now p ps,
          rw (e, peek_next, first_of_all),
          m,
          a,
          pending-GoesFirst max_attempts now (first_by now p ps) t
              (rw e (first_by-IsFirst now p ps)),
        )
