-- ===== src/Frecency/Laws.antt =====
-- The visits that the store keeps of each document.
use lixun.Common.{
  ◌⊎◌, Option-cases, ℕ, zero, suc, ◌-◌, ◌≤◌, true, false, none, List, [], ◌∷◌, ◌++◌, ◌≡◌, ◌≢◌, refl,
  sym, ◌∙◌, ap, arith, if◌then◌else◌, drop, length, length-append, length-drop, drop-append,
  drop-drop, Bool-cases, inl, inr, ltb, ltb→lt,
}
use lixun.Common.Text.{Text, text_eq, eq_of_text_eq}
use lixun.Common.Dict.{get, get-put, get-delete}
use lixun.Common.Int.{ℤ}
use lixun.Frecency.{
  click, Visits, FrecencyStore, empty, get_or_default, pop_front, trim_from, push_visit,
  record_click, remove_doc,
}

abbrev pub visits_of : FrecencyStore → Text → Visits
visits_of s doc_id = get_or_default (get doc_id s.records)

visits_of-record_click :
    (s : FrecencyStore) (other doc_id : Text) (now : ℤ)
    → visits_of (record_click s other now) doc_id
      ≡ (if text_eq other doc_id then push_visit (visits_of s other) now else visits_of s doc_id)
unfolding record_click get_or_default
visits_of-record_click s other doc_id now =
    ground (arith, get-put other doc_id (push_visit (visits_of s other) now) s.records)

-- The clicks in the order in which they came, the last at the head.
unfoldable pub record_all : FrecencyStore → List (Text × ℤ) → FrecencyStore
record_all s [] = s
record_all s ((doc_id, now) ∷ clicks) = record_click (record_all s clicks) doc_id now

-- Specification: all the clicks on a document, the first one first.
unfoldable pub history : Text → List (Text × ℤ) → Visits
history doc_id [] = []
history doc_id ((other, now) ∷ clicks) =
    let before = history doc_id clicks in
    if text_eq other doc_id then before ++ (record { ts = now; kind = click } ∷ []) else before

abbrev pub latest_ten : Visits → Visits
latest_ten vs = drop (length vs - 10) vs

trim_from-latest_ten :
    (rounds : ℕ) (vs : Visits) → length vs ≤ rounds → trim_from rounds vs ≡ latest_ten vs
unfolding trim_from pop_front
trim_from-latest_ten zero [] h = refl
trim_from-latest_ten zero (v ∷ vs) h = absurd (omega arith)
trim_from-latest_ten (suc rounds) [] h = refl
trim_from-latest_ten (suc rounds) (v ∷ vs) h = elim (Bool-cases (ltb 10 (length (v ∷ vs)))) [
  | inl more ↦
      let e : length (v ∷ vs) - 10 ≡ suc (length vs - 10) = omega (arith, ltb→lt _ _ more) in
      rw (more, trim_from, e) (trim_from-latest_ten rounds vs (omega arith))
  | inr done ↦ let e : length (v ∷ vs) - 10 ≡ 0 = ground arith in rw (done, trim_from, e)
]

push_visit-latest_ten :
    (vs : Visits) (now : ℤ)
    → push_visit (latest_ten vs) now ≡ latest_ten (vs ++ (record { ts = now; kind = click } ∷ []))
unfolding push_visit
push_visit-latest_ten vs now =
    let w : Visits = record { ts = now; kind = click } ∷ [] in
    let n : ℕ = length vs - 10 in
    let e : drop n vs ++ w ≡ drop n (vs ++ w) = sym (drop-append n vs w (omega arith)) in
    trim_from-latest_ten (length (drop n vs ++ w)) (drop n vs ++ w) (omega arith)
    ∙ rw e (
        drop-drop (length (drop n (vs ++ w)) - 10) n (vs ++ w)
        ∙ ap (λ (k : ℕ). drop k (vs ++ w))
            (omega (arith, length-drop n (vs ++ w), length-append vs w)))

-- Of every document the store keeps the latest ten clicks, in the order in which they came.
pub record_all-history :
    (doc_id : Text) (clicks : List (Text × ℤ))
    → visits_of (record_all empty clicks) doc_id ≡ latest_ten (history doc_id clicks)
unfolding record_all history get get_or_default
record_all-history doc_id [] = refl
record_all-history doc_id ((other, now) ∷ clicks) =
    visits_of-record_click (record_all empty clicks) other doc_id now
    ∙ elim (Bool-cases (text_eq other doc_id)) [
      | inl e ↦
          rw (e, eq_of_text_eq other doc_id e, record_all-history doc_id clicks)
            (push_visit-latest_ten (history doc_id clicks) now)
      | inr e ↦ rw e (record_all-history doc_id clicks)
    ]

-- `remove_doc` forgets the clicks on one document and on no other, and says whether it had any record.
remove_doc-forgets :
    (s : FrecencyStore) (doc_id : Text)
    → let (s', removed) = remove_doc s doc_id in
      ((other : Text)
        → get other s'.records ≡ (if text_eq doc_id other then none else get other s.records))
      × (((removed ≡ false) × (get doc_id s.records ≡ none))
          ⊎ ((removed ≡ true) × (get doc_id s.records ≢ none)))
unfolding remove_doc
remove_doc-forgets s doc_id = (
  λ other. get-delete doc_id other s.records,
  elim (Option-cases (get doc_id s.records)) [
    | inl e ↦ inl (rw (e, remove_doc) refl, e)
    | inr (vs, e) ↦ inr (rw (e, remove_doc) refl, λ n. cc (e, n))
  ],
)
