-- ===== src/QueryLog/Laws.antt =====
-- The query log against its specification: the latest distinct queries, as many as `max`.
use lixun.Common.{
  ℕ, zero, suc, ◌-◌, ◌≤◌, ◌<◌, false, not, List, [], ◌∷◌, ◌≡◌, inl, inr, refl, sym, ◌∙◌, ap, arith,
  if◌then◌else◌, take, length, take-take, take_all, Bool-cases, ltb, ltb→lt, retain,
}
use lixun.Common.Text.{Text, text_eq, eq_of_text_eq, is_empty, trim}
use lixun.QueryLog.{
  QueryLog, without, pop_back, truncate_from, truncate, record_trimmed, record_query, recent,
}

-- No element stands twice, told by the comparison that the code makes.
abbrev pub Absent : Text → List Text → Type 0
Absent q [] = Unit
Absent q (e ∷ es) = (text_eq e q ≡ false) × Absent q es

abbrev pub IsDistinct : List Text → Type 0
IsDistinct [] = Unit
IsDistinct (e ∷ es) = Absent e es × IsDistinct es

-- Specification: the queries from the latest to the first, each at its latest place, no empty ones. A
-- query goes in front, and its earlier place, found by `retain` of all others, goes.
unfoldable pub latest : List Text → List Text
latest [] = []
latest (q ∷ qs) =
    if is_empty (trim q)
    then latest qs
    else trim q ∷ retain (λ (e : Text). not (text_eq e (trim q))) (latest qs)

without-retain :
    (q : Text) (es : List Text) → without q es ≡ retain (λ (e : Text). not (text_eq e q)) es
unfolding without retain
without-retain q [] = refl
without-retain q (e ∷ es) = ground (arith, without-retain q es)

-- The log after the queries `qs`, of which the first is the latest.
unfoldable pub record_all : QueryLog → List Text → QueryLog
record_all log [] = log
record_all log (q ∷ qs) = record_query (record_all log qs) q

length-pop_back : (es : List Text) → length (pop_back es) ≡ length es - 1
unfolding pop_back
length-pop_back [] = refl
length-pop_back (e ∷ []) = refl
length-pop_back (e ∷ f ∷ es) = omega (arith, length-pop_back (f ∷ es))

take-pop_back : (n : ℕ) (es : List Text) → n < length es → take n (pop_back es) ≡ take n es
unfolding pop_back
take-pop_back n [] h = absurd (omega arith)
take-pop_back zero (e ∷ []) h = refl
take-pop_back (suc n) (e ∷ []) h = absurd (omega arith)
take-pop_back zero (e ∷ f ∷ es) h = refl
take-pop_back (suc n) (e ∷ f ∷ es) h = ap (λ r. e ∷ r) (take-pop_back n (f ∷ es) (omega arith))

truncate_from-take :
    (rounds n : ℕ) (es : List Text) → length es ≤ rounds → truncate_from rounds n es ≡ take n es
unfolding truncate_from
truncate_from-take zero n es h = sym (take_all n es (omega arith))
truncate_from-take (suc rounds) n es h = elim (Bool-cases (ltb n (length es))) [
  | inl more ↦
      rw (more, truncate_from)
        (truncate_from-take rounds n (pop_back es)
            (omega (arith, length-pop_back es, ltb→lt _ _ more))
          ∙ take-pop_back n es (ltb→lt _ _ more))
  | inr done ↦ rw (done, truncate_from) (sym (take_all n es (ground arith)))
]

-- The loop at the end of `record_query` keeps the first `max` entries.
truncate-take : (n : ℕ) (es : List Text) → truncate n es ≡ take n es
unfolding truncate
truncate-take n es = truncate_from-take (length es) n es (omega arith)

without-Absent : (q : Text) (es : List Text) → Absent q es → without q es ≡ es
unfolding without
without-Absent q [] a = refl
without-Absent q (e ∷ es) a = rw a.0 (ap (λ r. e ∷ r) (without-Absent q es a.1))

Absent-without_self : (q : Text) (es : List Text) → Absent q (without q es)
unfolding without
Absent-without_self q [] = tt
Absent-without_self q (e ∷ es) = elim (Bool-cases (text_eq e q)) [
  | inl s ↦ rw s (Absent-without_self q es)
  | inr s ↦ rw s (s, Absent-without_self q es)
]

Absent-without : (p q : Text) (es : List Text) → Absent p es → Absent p (without q es)
unfolding without
Absent-without p q [] a = tt
Absent-without p q (e ∷ es) a = elim (Bool-cases (text_eq e q)) [
  | inl s ↦ rw s (Absent-without p q es a.1)
  | inr s ↦ rw s (a.0, Absent-without p q es a.1)
]

IsDistinct-without : (q : Text) (es : List Text) → IsDistinct es → IsDistinct (without q es)
unfolding without
IsDistinct-without q [] d = tt
IsDistinct-without q (e ∷ es) d = elim (Bool-cases (text_eq e q)) [
  | inl s ↦ rw s (IsDistinct-without q es d.1)
  | inr s ↦ rw s (Absent-without e q es d.0, IsDistinct-without q es d.1)
]

Absent-take : (q : Text) (n : ℕ) (es : List Text) → Absent q es → Absent q (take n es)
Absent-take q zero es a = tt
Absent-take q (suc n) [] a = tt
Absent-take q (suc n) (e ∷ es) a = (a.0, Absent-take q n es a.1)

IsDistinct-take : (n : ℕ) (es : List Text) → IsDistinct es → IsDistinct (take n es)
IsDistinct-take zero es d = tt
IsDistinct-take (suc n) [] d = tt
IsDistinct-take (suc n) (e ∷ es) d = (Absent-take e n es d.0, IsDistinct-take n es d.1)

-- Cutting to `suc n` entries before the query is taken out makes no difference to the first `n`.
take-without-take :
    (n : ℕ) (q : Text) (es : List Text)
    → IsDistinct es
    → take n (without q (take (suc n) es)) ≡ take n (without q es)
unfolding without
take-without-take n q [] d = refl
take-without-take zero q (e ∷ es) d = refl
take-without-take (suc n) q (e ∷ es) d = elim (Bool-cases (text_eq e q)) [
  | inl s ↦
      let a : Absent q es = rw (← eq_of_text_eq e q s) d.0 in
      rw (s, without-Absent q (take (suc n) es) (Absent-take q (suc n) es a), without-Absent q es a)
        (take-take (suc n) es)
  | inr s ↦ rw s (ap (λ r. e ∷ r) (take-without-take n q es d.1))
]

latest-IsDistinct : (qs : List Text) → IsDistinct (latest qs)
unfolding latest
latest-IsDistinct [] = tt
latest-IsDistinct (q ∷ qs) = elim (Bool-cases (is_empty (trim q))) [
  | inl s ↦ rw s (latest-IsDistinct qs)
  | inr s ↦
      rw (s, ← without-retain (trim q) (latest qs))
        (
          Absent-without_self (trim q) (latest qs),
          IsDistinct-without (trim q) (latest qs) (latest-IsDistinct qs),
        )
]

-- What one query does to a log that shows the latest distinct queries.
record_query-entries :
    (log : QueryLog) (q : Text) (es : List Text)
    → IsDistinct es
    → log.entries ≡ take log.max es
    → (record_query log q).entries
      ≡ take log.max (if is_empty (trim q) then es else trim q ∷ without (trim q) es)
unfolding record_query record_trimmed
record_query-entries log q es d h = elim (Bool-cases (is_empty (trim q))) [
  | inl s ↦ rw s h
  | inr s ↦ rw s (truncate-take log.max _ ∙ cut log.max h)
]
  where
    cut :
        (n : ℕ)
        → log.entries ≡ take n es
        → take n (trim q ∷ without (trim q) log.entries) ≡ take n (trim q ∷ without (trim q) es)
    cut zero e = refl
    cut (suc n) e = rw e (ap (λ r. trim q ∷ r) (take-without-take n (trim q) es d))

max-record_all : (log : QueryLog) (qs : List Text) → (record_all log qs).max ≡ log.max
unfolding record_all record_query record_trimmed
max-record_all log [] = refl
max-record_all log (q ∷ qs) = ground (arith, max-record_all log qs)

entries-record_all :
    (max : ℕ) (qs : List Text)
    → (record_all (record { entries = []; max = max }) qs).entries ≡ take max (latest qs)
unfolding record_all latest
entries-record_all zero [] = refl
entries-record_all (suc max) [] = refl
entries-record_all max (q ∷ qs) =
    let log : QueryLog = record_all (record { entries = []; max = max }) qs in
    let m : log.max ≡ max = max-record_all (record { entries = []; max = max }) qs in
    rw (← without-retain (trim q) (latest qs)) (
      rw m at (
        record_query-entries log q (latest qs) (latest-IsDistinct qs)
          (rw m (entries-record_all max qs))))

-- After any queries the log that began empty holds the latest distinct ones that are not blank,
-- trimmed, the latest first, and no more than `max` of them; `recent n` are the first `n` of these. No
-- query stands twice in it.
pub record_all-latest :
    (max n : ℕ) (qs : List Text)
    → let log = record_all (record { entries = []; max = max }) qs in
      (recent log n ≡ take n (take max (latest qs))) × IsDistinct log.entries
unfolding recent
record_all-latest max n qs = (
  ap (take n) (entries-record_all max qs),
  rw (entries-record_all max qs) (IsDistinct-take max (latest qs) (latest-IsDistinct qs)),
)
