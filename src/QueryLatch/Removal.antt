-- ===== src/QueryLatch/Removal.antt =====
-- "Reset ranking": `remove_doc` of the latch store.
use lixun.Common.{
  ◌⊎◌, true, false, none, some, [], ◌∷◌, ◌≡◌, refl, arith, if◌then◌else◌, Bool-cases, Option-cases,
  inl, inr, ◌∙◌,
}
use lixun.Common.Text.{Text, text_eq, eq_of_text_eq, text_eq_refl}
use lixun.Common.Dict.{Dict, get, delete, get-delete, HasDistinctKeys}
use lixun.Common.Sort.{All}
use lixun.QueryLatch.{
  LatchEntry, QueryLatchStore, entry_in, keep_or_drop, retain_without, any_with, remove_doc,
}

-- No query of the store is without a document.
abbrev pub IsUsed : Text × Dict LatchEntry → Type 0
IsUsed (key, []) = ⊥
IsUsed (key, e ∷ es) = Unit

entry_in-cons :
    (q k d : Text) (p : Dict LatchEntry) (m : Dict (Dict LatchEntry))
    → entry_in k d ((q, p) ∷ m) ≡ (if text_eq q k then get d p else entry_in k d m)
unfolding entry_in get
entry_in-cons q k d p m = ground arith

entry_in-absent : (k d : Text) (m : Dict (Dict LatchEntry)) → get k m ≡ none → entry_in k d m ≡ none
unfolding entry_in
entry_in-absent k d m h = rw (h, entry_in)

entry_in-keep_or_drop :
    (q k d : Text) (p : Dict LatchEntry) (m : Dict (Dict LatchEntry))
    → (text_eq q k ≡ true → entry_in k d m ≡ none)
    → entry_in k d (keep_or_drop q p m) ≡ (if text_eq q k then get d p else entry_in k d m)
unfolding keep_or_drop get
entry_in-keep_or_drop q k d [] m h = ground (arith)
entry_in-keep_or_drop q k d (e ∷ es) m h = entry_in-cons q k d (e ∷ es) m

entry_in-retain_without :
    (doc_id k d : Text) (m : Dict (Dict LatchEntry))
    → HasDistinctKeys m
    → entry_in k d (retain_without doc_id m) ≡ (if text_eq doc_id d then none else entry_in k d m)
unfolding retain_without
entry_in-retain_without doc_id k d [] h = unfold entry_in get in ground arith
entry_in-retain_without doc_id k d ((q, p) ∷ m) h =
    let ih = entry_in-retain_without doc_id k d m h.1 in
    let absent : text_eq q k ≡ true → entry_in k d m ≡ none =
      λ e. entry_in-absent k d m (rw (eq_of_text_eq q k e) at h.0) in
    ground (
      arith,
      ih,
      absent,
      entry_in-cons q k d p m,
      get-delete doc_id d p,
      entry_in-keep_or_drop q k d (delete doc_id p) (retain_without doc_id m),
    )

IsUsed-retain_without :
    (doc_id : Text) (m : Dict (Dict LatchEntry)) → All IsUsed (retain_without doc_id m)
unfolding retain_without
IsUsed-retain_without doc_id [] = tt
IsUsed-retain_without doc_id ((q, p) ∷ m) = used (delete doc_id p) (IsUsed-retain_without doc_id m)
  where
    used :
        (p' : Dict LatchEntry)
        → All IsUsed (retain_without doc_id m)
        → All IsUsed (keep_or_drop q p' (retain_without doc_id m))
    used [] h = h
    used (e ∷ es) h = (tt, h)

any_with-false :
    (doc_id k : Text) (m : Dict (Dict LatchEntry))
    → any_with doc_id m ≡ false
    → entry_in k doc_id m ≡ none
unfolding any_with
any_with-false doc_id k [] h = unfold entry_in get in refl
any_with-false doc_id k ((q, p) ∷ m) h =
    ground (arith, entry_in-cons q k doc_id p m, any_with-false doc_id k m)

any_with-true :
    (doc_id : Text) (m : Dict (Dict LatchEntry))
    → HasDistinctKeys m
    → any_with doc_id m ≡ true
    → (k : Text) × (e : LatchEntry) × (entry_in k doc_id m ≡ some e)
unfolding any_with
any_with-true doc_id [] d h = cc
any_with-true doc_id ((q, p) ∷ m) d h = elim (Option-cases (get doc_id p)) [
  | inr (e, g) ↦ (q, e, entry_in-cons q q doc_id p m ∙ rw (text_eq_refl) g)
  | inl g ↦
      let (k, e, f) = any_with-true doc_id m d.1 (rw g at h) in
      (k, e, entry_in-cons q k doc_id p m ∙ rw (different k e f) f)
]
  where
    different : (k : Text) (e : LatchEntry) → entry_in k doc_id m ≡ some e → text_eq q k ≡ false
    different k e f = elim (Bool-cases (text_eq q k)) [
      | inr s ↦ s
      | inl s ↦ cc (entry_in-absent k doc_id m (rw (eq_of_text_eq q k s) at d.0), f)
    ]

-- `remove_doc` takes the document from every query and changes no other entry, leaves no query
-- without a document, and returns whether the document had an entry under some query. In the store no
-- query stands twice.
pub remove_doc-unlatches :
    (s : QueryLatchStore) (doc_id : Text)
    → HasDistinctKeys s.by_query
    → let (s', removed) = remove_doc s doc_id in
      ((key d : Text)
        → entry_in key d s'.by_query
          ≡ (if text_eq doc_id d then none else entry_in key d s.by_query))
      × All IsUsed s'.by_query
      × (((removed ≡ false) × ((key : Text) → entry_in key doc_id s.by_query ≡ none))
          ⊎ ((removed ≡ true)
              × ((key : Text) × (e : LatchEntry) × (entry_in key doc_id s.by_query ≡ some e))))
unfolding remove_doc
remove_doc-unlatches s doc_id h = (
  λ key d. entry_in-retain_without doc_id key d s.by_query h,
  IsUsed-retain_without doc_id s.by_query,
  elim (Bool-cases (any_with doc_id s.by_query)) [
    | inl e ↦ inr (e, any_with-true doc_id s.by_query h e)
    | inr e ↦ inl (e, λ key. any_with-false doc_id key s.by_query e)
  ],
)
