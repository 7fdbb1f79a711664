-- ===== src/Blocklist/Laws.antt =====
-- The blocklist as a set of doc ids: membership, the flag that a change returns, the order.
use lixun.Common.{
  not, Bool, true, false, List, [], ◌∷◌, ◌≡◌, ◌⊎◌, ◌≢◌, refl, arith, if◌then◌else◌, inl, inr,
  Bool-cases, ap₂, ◌∙◌, sym,
}
use lixun.Common.Text.{
  Text, text_eq, text_lt, text_eq_iff, text_lt_irrefl, text_lt_trans, text_lt-total,
}
use lixun.Blocklist.{Blocklist, insert, remove, member, contains, set_hidden, list}

-- Every element of the list comes after `k`.
abbrev pub AllAfter : Text → List Text → Type 0
AllAfter k [] = Unit
AllAfter k (j ∷ js) = (text_lt k j ≡ true) × AllAfter k js

-- A list in ascending order, no element twice.
abbrev pub IsAscending : List Text → Type 0
IsAscending [] = Unit
IsAscending (j ∷ js) = AllAfter j js × IsAscending js

AllAfter-trans : (i j : Text) (ks : List Text) → text_lt i j ≡ true → AllAfter j ks → AllAfter i ks
AllAfter-trans i j [] h a = tt
AllAfter-trans i j (k ∷ ks) h a = (text_lt_trans i j k h a.0, AllAfter-trans i j ks h a.1)

member-head : (k : Text) (js : List Text) → member k (k ∷ js) ≡ true
unfolding member
member-head k js = ground (arith, text_eq_iff k k)

nonempty : (k : Text) (js : List Text) → member k (k ∷ js) ≢ member k []
unfolding member
nonempty k js h = cc (h, member-head k js)

-- What comes before every element is none of them.
not-member : (k : Text) (js : List Text) → AllAfter k js → member k js ≡ false
unfolding member
not-member k [] a = refl
not-member k (j ∷ js) a = ground (arith, text_eq_iff j k, text_lt_irrefl k, not-member k js a.1)

AllAfter-insert :
    (i k : Text) (js : List Text) → text_lt i k ≡ true → AllAfter i js → AllAfter i (insert k js)
unfolding insert
AllAfter-insert i k [] h a = (h, tt)
AllAfter-insert i k (j ∷ js) h a = elim (Bool-cases (text_eq j k)) [
  | inl e ↦ rw e a
  | inr e ↦ rw e (elim (Bool-cases (text_lt k j)) [
    | inl l ↦ rw l (h, a)
    | inr l ↦ rw l (a.0, AllAfter-insert i k js h a.1)
  ])
]

AllAfter-remove : (i k : Text) (js : List Text) → AllAfter i js → AllAfter i (remove k js)
unfolding remove
AllAfter-remove i k [] a = tt
AllAfter-remove i k (j ∷ js) a = elim (Bool-cases (text_eq j k)) [
  | inl e ↦ rw e a.1
  | inr e ↦ rw e (a.0, AllAfter-remove i k js a.1)
]

after_of : (j k : Text) → text_eq j k ≡ false → text_lt k j ≡ false → text_lt j k ≡ true
after_of j k e l = elim (Bool-cases (text_lt j k)) [
  | inl h ↦ h
  | inr h ↦ ground (arith, text_lt-total j k h l, text_eq_iff j k)
]

insert-IsAscending : (k : Text) (js : List Text) → IsAscending js → IsAscending (insert k js)
unfolding insert
insert-IsAscending k [] a = (tt, tt)
insert-IsAscending k (j ∷ js) a = elim (Bool-cases (text_eq j k)) [
  | inl e ↦ rw e a
  | inr e ↦ rw e (elim (Bool-cases (text_lt k j)) [
    | inl l ↦ rw l ((l, AllAfter-trans k j js l a.0), a)
    | inr l ↦ rw l (AllAfter-insert j k js (after_of j k e l) a.0, insert-IsAscending k js a.1)
  ])
]

remove-IsAscending : (k : Text) (js : List Text) → IsAscending js → IsAscending (remove k js)
unfolding remove
remove-IsAscending k [] a = tt
remove-IsAscending k (j ∷ js) a = elim (Bool-cases (text_eq j k)) [
  | inl e ↦ rw e a.1
  | inr e ↦ rw e (AllAfter-remove j k js a.0, remove-IsAscending k js a.1)
]

member-insert :
    (k i : Text) (js : List Text)
    → member i (insert k js) ≡ (if text_eq k i then true else member i js)
unfolding member insert
member-insert k i [] = ground arith
member-insert k i (j ∷ js) =
    ground (arith, text_eq_iff j k, text_eq_iff k i, text_eq_iff j i, member-insert k i js)

member-remove :
    (k i : Text) (js : List Text)
    → IsAscending js
    → member i (remove k js) ≡ (if text_eq k i then false else member i js)
unfolding member remove
member-remove k i [] a = ground arith
member-remove k i (j ∷ js) a = ground (
  arith,
  text_eq_iff j k,
  text_eq_iff k i,
  text_eq_iff j i,
  member-remove k i js a.1,
  not-member j js a.0,
)

-- After `set_hidden k hidden` exactly the ids that were hidden are, but `k` as asked, the flag says
-- whether that changed anything, and the ids stand in ascending order without repetition.
pub set_hidden_lem :
    (b : Blocklist) (k : Text) (hidden : Bool)
    → IsAscending (list b)
    → let (b', changed) = set_hidden b k hidden in
      IsAscending (list b')
      × ((i : Text) → contains b' i ≡ (if text_eq k i then hidden else contains b i))
      × (((changed ≡ true) × (contains b k ≡ not hidden))
          ⊎ ((changed ≡ false) × (contains b k ≡ hidden)))
unfolding set_hidden contains list
set_hidden_lem b k true a = (
  insert-IsAscending k b.docs a,
  λ i. member-insert k i b.docs,
  elim (Bool-cases (member k b.docs)) [
    | inl e ↦ inr (rw (e, set_hidden) refl, e)
    | inr e ↦ inl (rw (e, set_hidden) refl, e)
  ],
)
set_hidden_lem b k false a = (
  remove-IsAscending k b.docs a,
  λ i. member-remove k i b.docs a,
  elim (Bool-cases (member k b.docs)) [ inl e ↦ inl (e, e) | inr e ↦ inr (e, e) ],
)

after_of_member :
    (i k : Text) (js : List Text) → AllAfter i js → member k js ≡ true → text_lt i k ≡ true
unfolding member
after_of_member i k [] a m = cc
after_of_member i k (j ∷ js) a m = ground (arith, text_eq_iff j k, after_of_member i k js a.1)

-- Two ascending lists with the same members begin alike.
heads-eq :
    (i : Text) (is : List Text) (j : Text) (js : List Text)
    → AllAfter i is
    → AllAfter j js
    → member i (j ∷ js) ≡ true
    → member j (i ∷ is) ≡ true
    → i ≡ j
unfolding member
heads-eq i is j js a b m n = ground (
  arith,
  text_eq_iff i j,
  text_eq_iff j i,
  after_of_member i j is a,
  after_of_member j i js b,
  text_lt_trans i j i,
  text_lt_irrefl i,
)

tails-member :
    (i k : Text) (is js : List Text)
    → AllAfter i is
    → AllAfter i js
    → member k (i ∷ is) ≡ member k (i ∷ js)
    → member k is ≡ member k js
unfolding member
tails-member i k is js a b h = ground (arith, text_eq_iff i k, not-member i is a, not-member i js b)

ascending-ext :
    (is js : List Text)
    → IsAscending is
    → IsAscending js
    → ((k : Text) → member k is ≡ member k js)
    → is ≡ js
ascending-ext [] [] p q h = refl
ascending-ext [] (j ∷ js) p q h = absurd (nonempty j js (sym (h j)))
ascending-ext (i ∷ is) [] p q h = absurd (nonempty i is (h i))
ascending-ext (i ∷ is) (j ∷ js) p q h =
    let e : i ≡ j =
      heads-eq i is j js p.0 q.0 (sym (h i) ∙ member-head i is) (h j ∙ member-head j js) in
    let b : AllAfter i js = rw e q.0 in
    ap₂ ◌∷◌ e (ascending-ext is js p.1 q.1 (λ k. tails-member i k is js p.0 b (rw (← e) at (h k))))

-- `list` shows the set and nothing else: two blocklists that hide the same ids list them alike.
list-ext :
    (b c : Blocklist)
    → IsAscending (list b)
    → IsAscending (list c)
    → ((i : Text) → contains b i ≡ contains c i)
    → list b ≡ list c
unfolding list contains
list-ext b c p q h = ascending-ext b.docs c.docs p q h
