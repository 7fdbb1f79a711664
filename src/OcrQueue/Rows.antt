-- ===== src/OcrQueue/Rows.antt =====
-- What each statement does to the rows.
use lixun.Common.{
  ℕ, ◌+◌, ◌^◌, ◌<◌, Bool, true, false, Option, none, some, [], ◌∷◌, ◌++◌, ◌≡◌, ◌≢◌, ◌∙◌, refl,
  arith, if◌then◌else◌, ltb, Bool-cases, Option-cases, inl, inr, length, ap, not, ◌&&◌, retain,
}
use lixun.Common.Text.{Text, text_eq, text_eq_iff, eq_of_text_eq}
use lixun.Common.Int.{ℤ, wrap_i64, ltb_ℤ}
use lixun.OcrQueue.{
  OcrQueueRow, Stored, Table, to_sql, row_from_sql, find, enqueue, remove, mark_failure, is_zombie,
  reap_zombies, pending, len, count_pending, count_failed, stats,
}

-- A row is read back as it was enqueued, where its size and its attempts fit the columns.
row_from_sql-to_sql :
    (r : OcrQueueRow) → r.size < 2 ^ 63 → r.attempts < 2 ^ 32 → row_from_sql (to_sql r) ≡ r
unfolding row_from_sql to_sql wrap_i64
row_from_sql-to_sql r h k = ground arith

-- The primary key: no two rows have one id.
abbrev pub HasDistinctIds : Table → Type 0
HasDistinctIds [] = Unit
HasDistinctIds (r ∷ t) = (find r.doc_id t ≡ none) × HasDistinctIds t

find-append :
    (k : Text) (t : Table) (r : Stored)
    → find k (t ++ (r ∷ []))
      ≡ elim (find k t) [ none ↦ if text_eq r.doc_id k then some r else none | some s ↦ some s ]
unfolding find
find-append k [] r = refl
find-append k (s ∷ t) r = elim (Bool-cases (text_eq s.doc_id k)) [
  | inl e ↦ rw e
  | inr e ↦ rw e (find-append k t r)
]

-- What is found of an id after a row was enqueued, where `o` was found before.
abbrev pub or_enqueued : OcrQueueRow → Text → Option Stored → Option Stored
or_enqueued row k none = if text_eq row.doc_id k then some (to_sql row) else none
or_enqueued row k (some s) = some s

or_enqueued_known :
    (row : OcrQueueRow) (k : Text) (o : Option Stored)
    → (text_eq row.doc_id k ≡ true → o ≢ none)
    → o ≡ or_enqueued row k o
or_enqueued_known row k none h = elim (Bool-cases (text_eq row.doc_id k)) [
  | inl e ↦ absurd (h e refl)
  | inr e ↦ rw e
]
or_enqueued_known row k (some s) h = refl

-- `enqueue` leaves a row alone whose id is queued already, with its attempts and its error, and adds the
-- new row otherwise; the other rows stay.
find-enqueue :
    (t : Table) (row : OcrQueueRow) (k : Text)
    → find k (enqueue t row) ≡ or_enqueued row k (find k t)
unfolding enqueue
find-enqueue t row k = elim (Option-cases (find row.doc_id t)) [
  | inl e ↦ rw (e, enqueue) (find-append k t (to_sql row) ∙ same (find k t))
  | inr (s, e) ↦
      rw (e, enqueue)
        (or_enqueued_known row k (find k t) (λ h z. cc (e, eq_of_text_eq row.doc_id k h, z)))
]
  where
    same :
        (o : Option Stored)
        → elim o [
          | none ↦ if text_eq (to_sql row).doc_id k then some (to_sql row) else none
          | some s ↦ some s
        ]
          ≡ or_enqueued row k o
    same none = unfold to_sql in refl
    same (some s) = refl

-- What is found of the id `j` after `mark_failure` of `k`.
abbrev pub if_failed : Text → Text → Text → Option Stored → Option Stored
if_failed k j err none = none
if_failed k j err (some r) =
    if text_eq k j
    then some (record r { attempts = r.attempts + 1; last_error = some err })
    else some r

-- `mark_failure` adds one to the attempts of its row, stores the error in it, and changes nothing else.
find-mark_failure :
    (t : Table) (k j err : Text) → find j (mark_failure t k err) ≡ if_failed k j err (find j t)
unfolding find mark_failure
find-mark_failure [] k j err = refl
find-mark_failure (r ∷ t) k j err = elim (Bool-cases (text_eq r.doc_id k)) [
  | inl e ↦
      rw (e, ← eq_of_text_eq r.doc_id k e)
        (elim (Bool-cases (text_eq r.doc_id j)) [
          | inl f ↦ rw f (rw f)
          | inr f ↦ rw f (rw (eq_of_text_eq r.doc_id k e) (find-mark_failure t k j err))
        ])
  | inr e ↦ rw e (elim (Bool-cases (text_eq r.doc_id j)) [
    | inl f ↦ rw f (rw (← eq_of_text_eq r.doc_id j f) (other e))
    | inr f ↦ rw f (find-mark_failure t k j err)
  ])
]
  where
    other :
        text_eq r.doc_id k ≡ false
        → some r ≡ (
            if text_eq k r.doc_id
            then some (record r { attempts = r.attempts + 1; last_error = some err })
            else some r)
    other e = ground (arith, text_eq_iff r.doc_id k, text_eq_iff k r.doc_id)

find-remove :
    (t : Table) (k j : Text) → find j (remove t k) ≡ (if text_eq k j then none else find j t)
unfolding find remove
find-remove [] k j = ground arith
find-remove (r ∷ t) k j =
    ground
      (arith, text_eq_iff r.doc_id k, text_eq_iff k j, text_eq_iff r.doc_id j, find-remove t k j)

-- The table is split into the rows that the worker may still take and those it has given up.
stats_lem :
    (t : Table) (max_attempts : ℕ)
    → let s = stats t max_attempts in
      (s.total ≡ s.pending + s.failed)
      × (s.total ≡ len t)
      × (s.pending ≡ length (pending max_attempts t))
unfolding stats len pending count_pending count_failed
stats_lem t max_attempts = (split t, refl, counted t)
  where
    split : (t : Table) → length t ≡ count_pending max_attempts t + count_failed max_attempts t
    split [] = refl
    split (r ∷ t) = ground (arith, split t)

    counted : (t : Table) → count_pending max_attempts t ≡ length (pending max_attempts t)
    counted [] = refl
    counted (r ∷ t) = ground (arith, counted t)

zombie-spent :
    (max_attempts : ℕ) (older_than : ℤ) (r : Stored)
    → is_zombie max_attempts older_than r ≡ true
    → ltb r.attempts max_attempts ≡ false
unfolding is_zombie
zombie-spent max_attempts older_than r h = ground arith

-- A row has used up its attempts and was enqueued before the limit.
abbrev pub is_spent : ℕ → ℤ → Stored → Bool
is_spent max_attempts older_than r =
    not (ltb r.attempts max_attempts) && ltb_ℤ r.enqueued_at older_than

is_zombie-is_spent :
    (max_attempts : ℕ) (older_than : ℤ) (r : Stored)
    → is_zombie max_attempts older_than r ≡ is_spent max_attempts older_than r
unfolding is_zombie
is_zombie-is_spent max_attempts older_than r = ground arith

-- `reap_zombies` deletes exactly the rows that have used up their attempts and were enqueued before the
-- limit, and keeps the others in their order; so it deletes no row that the worker may still take. The
-- count is that of the deleted rows.
pub reap_zombies_lem :
    (t : Table) (max_attempts : ℕ) (older_than : ℤ)
    → let (t', n) = reap_zombies t max_attempts older_than in
      (t' ≡ retain (λ (r : Stored). not (is_spent max_attempts older_than r)) t)
      × (pending max_attempts t' ≡ pending max_attempts t)
      × (len t' + n ≡ len t)
unfolding reap_zombies pending len retain
reap_zombies_lem [] max_attempts older_than = (refl, refl, refl)
reap_zombies_lem (r ∷ t) max_attempts older_than =
    let ih = reap_zombies_lem t max_attempts older_than in
    let same = is_zombie-is_spent max_attempts older_than r in
    elim (Bool-cases (is_zombie max_attempts older_than r)) [
      | inl e ↦ rw e (
        ground (arith, ih.0, same),
        ground (arith, ih.1, zombie-spent max_attempts older_than r e),
        omega (arith, ih.2),
      )
      | inr e ↦ rw e (ground (arith, ih.0, same), ground (arith, ih.1), omega (arith, ih.2))
    ]

find-none-mark_failure :
    (t : Table) (k j err : Text) → find j t ≡ none → find j (mark_failure t k err) ≡ none
find-none-mark_failure t k j err h = find-mark_failure t k j err ∙ ap (if_failed k j err) h

mark_failure-HasDistinctIds :
    (t : Table) (k err : Text) → HasDistinctIds t → HasDistinctIds (mark_failure t k err)
unfolding mark_failure
mark_failure-HasDistinctIds [] k err h = tt
mark_failure-HasDistinctIds (r ∷ t) k err h = elim (Bool-cases (text_eq r.doc_id k)) [
  | inl e ↦
      rw e (find-none-mark_failure t k r.doc_id err h.0, mark_failure-HasDistinctIds t k err h.1)
  | inr e ↦
      rw e (find-none-mark_failure t k r.doc_id err h.0, mark_failure-HasDistinctIds t k err h.1)
]

find-none-remove : (t : Table) (k j : Text) → find j t ≡ none → find j (remove t k) ≡ none
find-none-remove t k j h = ground (arith, find-remove t k j)

remove-HasDistinctIds : (t : Table) (k : Text) → HasDistinctIds t → HasDistinctIds (remove t k)
unfolding remove
remove-HasDistinctIds [] k h = tt
remove-HasDistinctIds (r ∷ t) k h = elim (Bool-cases (text_eq r.doc_id k)) [
  | inl e ↦ rw e (remove-HasDistinctIds t k h.1)
  | inr e ↦ rw e (find-none-remove t k r.doc_id h.0, remove-HasDistinctIds t k h.1)
]

append-HasDistinctIds :
    (t : Table) (r : Stored)
    → find r.doc_id t ≡ none
    → HasDistinctIds t
    → HasDistinctIds (t ++ (r ∷ []))
unfolding find
append-HasDistinctIds [] r n h = (refl, tt)
append-HasDistinctIds (s ∷ t) r n h = (
  find-append s.doc_id t r
      ∙ ground (arith, h.0, text_eq_iff r.doc_id s.doc_id, text_eq_iff s.doc_id r.doc_id),
  append-HasDistinctIds t r (ground arith) h.1,
)

enqueue-HasDistinctIds :
    (t : Table) (row : OcrQueueRow) → HasDistinctIds t → HasDistinctIds (enqueue t row)
unfolding enqueue to_sql
enqueue-HasDistinctIds t row h = elim (Option-cases (find row.doc_id t)) [
  | inl e ↦ rw (e, enqueue) (append-HasDistinctIds t (to_sql row) e h)
  | inr (s, e) ↦ rw (e, enqueue) h
]

find-none-reap :
    (t : Table) (m : ℕ) (o : ℤ) (j : Text) → find j t ≡ none → find j (reap_zombies t m o).0 ≡ none
unfolding find reap_zombies
find-none-reap [] m o j h = refl
find-none-reap (r ∷ t) m o j h = ground (arith, find-none-reap t m o j)

reap_zombies-HasDistinctIds :
    (t : Table) (m : ℕ) (o : ℤ) → HasDistinctIds t → HasDistinctIds (reap_zombies t m o).0
unfolding reap_zombies
reap_zombies-HasDistinctIds [] m o h = tt
reap_zombies-HasDistinctIds (r ∷ t) m o h = elim (Bool-cases (is_zombie m o r)) [
  | inl e ↦ rw e (reap_zombies-HasDistinctIds t m o h.1)
  | inr e ↦ rw e (find-none-reap t m o r.doc_id h.0, reap_zombies-HasDistinctIds t m o h.1)
]

-- The statements that write.
pub data Statement : Type 0 where
  enqueued : OcrQueueRow → Statement
  removed : Text → Statement
  failed : Text → Text → Statement
  reaped : ℕ → ℤ → Statement

unfoldable pub execute : Table → Statement → Table
execute t (enqueued row) = enqueue t row
execute t (removed k) = remove t k
execute t (failed k err) = mark_failure t k err
execute t (reaped m o) = (reap_zombies t m o).0

-- No statement gives two rows one id, so the PRIMARY KEY never refuses one.
execute-HasDistinctIds :
    (t : Table) (s : Statement) → HasDistinctIds t → HasDistinctIds (execute t s)
unfolding execute
execute-HasDistinctIds t (enqueued row) h = enqueue-HasDistinctIds t row h
execute-HasDistinctIds t (removed k) h = remove-HasDistinctIds t k h
execute-HasDistinctIds t (failed k err) h = mark_failure-HasDistinctIds t k err h
execute-HasDistinctIds t (reaped m o) h = reap_zombies-HasDistinctIds t m o h
