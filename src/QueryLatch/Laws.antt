-- ===== src/QueryLatch/Laws.antt =====
-- The counters of the latch store, and the bounds of its multiplier.
use lixun.Common.{
  ℕ, suc, ◌<◌, min, Bool, true, false, Option, none, some, List, [], ◌∷◌, ◌≡◌, refl, arith,
  if◌then◌else◌, ◌&&◌, Bool-cases, Option-cases, inl, inr, leb,
}
use lixun.Common.Text.{Text, text_eq, eq_of_text_eq, text_eq_refl, text_eq_iff, is_empty}
use lixun.Common.Dict.{Dict, get, put, get-put}
use lixun.Common.Int.{ℤ, pos}
use lixun.Common.Float.{Float, clamp, IsIeee}
use lixun.Normalize.{normalize_for_latch_key}
use lixun.QueryLatch.{
  LatchEntry, QueryLatchStore, empty, entry_in, or_default, bump, record_key, entry_of, strong,
  boost, mult,
}

-- The choices, the latest first: a query's key and a document.
abbrev pub Choices : Type 0
Choices = List (Text × Text × ℤ)

unfoldable pub record_all : QueryLatchStore → Choices → QueryLatchStore
record_all s [] = s
record_all s ((key, doc_id, now) ∷ cs) = record_key (record_all s cs) key doc_id now

-- Specification: how often the document was chosen under the key.
unfoldable pub times : Text → Text → Choices → ℕ
times key doc_id [] = 0
times key doc_id ((k, d, now) ∷ cs) =
    let rest = times key doc_id cs in if text_eq k key && text_eq d doc_id then suc rest else rest

abbrev pub count_of : Option LatchEntry → ℕ
count_of none = 0
count_of (some e) = e.count

abbrev fresh : LatchEntry
fresh = record { count = 0; last_ts = pos 0 }

get-or_default :
    (d : Text) (o : Option (Dict LatchEntry))
    → get d (or_default [] o) ≡ elim o [ none ↦ none | some per_query ↦ get d per_query ]
unfolding or_default get
get-or_default d none = refl
get-or_default d (some per_query) = refl

entry_in-put :
    (key k d : Text) (p : Dict LatchEntry) (m : Dict (Dict LatchEntry))
    → entry_in k d (put key p m) ≡ (if text_eq key k then get d p else entry_in k d m)
unfolding entry_in
entry_in-put key k d p m = ground (arith, get-put key k p m)

entry_in-eq :
    (k d : Text) (m : Dict (Dict LatchEntry)) → get d (or_default [] (get k m)) ≡ entry_in k d m
unfolding entry_in
entry_in-eq k d m = get-or_default d (get k m)

by_query-record_key :
    (s : QueryLatchStore) (key doc_id : Text) (now : ℤ)
    → is_empty key ≡ false
    → (record_key s key doc_id now).by_query
      ≡ put key
          (put doc_id
            (bump (or_default fresh (get doc_id (or_default [] (get key s.by_query)))) now)
            (or_default [] (get key s.by_query)))
          s.by_query
unfolding record_key
by_query-record_key s key doc_id now h = rw h

entry_in-record_key_self :
    (s : QueryLatchStore) (key doc_id d : Text) (now : ℤ)
    → is_empty key ≡ false
    → entry_in key d (record_key s key doc_id now).by_query ≡ (
        if text_eq doc_id d
        then some (bump (or_default fresh (entry_in key d s.by_query)) now)
        else entry_in key d s.by_query)
entry_in-record_key_self s key doc_id d now h =
    rw (by_query-record_key s key doc_id now h, entry_in-put, text_eq_refl, get-put)
      (elim (Bool-cases (text_eq doc_id d)) [
        | inl e ↦ rw (e, eq_of_text_eq doc_id d e, entry_in-eq)
        | inr e ↦ rw (e, entry_in-eq)
      ])

entry_in-record_key :
    (s : QueryLatchStore) (key doc_id k d : Text) (now : ℤ)
    → is_empty key ≡ false
    → entry_in k d (record_key s key doc_id now).by_query ≡ (
        if text_eq key k && text_eq doc_id d
        then some (bump (or_default fresh (entry_in k d s.by_query)) now)
        else entry_in k d s.by_query)
entry_in-record_key s key doc_id k d now h = elim (Bool-cases (text_eq key k)) [
  | inl e ↦ rw (e, ← eq_of_text_eq key k e) (entry_in-record_key_self s key doc_id d now h)
  | inr e ↦ rw e (other e)
]
  where
    other :
        text_eq key k ≡ false
        → entry_in k d (record_key s key doc_id now).by_query ≡ entry_in k d s.by_query
    other e = rw (by_query-record_key s key doc_id now h, entry_in-put, e)

record_key-blank :
    (s : QueryLatchStore) (key doc_id : Text) (now : ℤ)
    → is_empty key ≡ true
    → record_key s key doc_id now ≡ s
unfolding record_key
record_key-blank s key doc_id now h = rw h

counted :
    (hit : Bool) (n : ℕ) (o : Option LatchEntry) (now : ℤ)
    → count_of o ≡ min n 50
    → count_of (if hit then some (bump (or_default fresh o) now) else o)
      ≡ min (if hit then suc n else n) 50
unfolding bump or_default
counted true n none now h = ground arith
counted true n (some e) now h = ground arith
counted false n o now h = h

-- After any choices under keys that are not empty a document has been counted as often as it was
-- chosen under the key, or 50 times if that was more often.
record_all-times :
    (key doc_id : Text) (cs : Choices)
    → is_empty key ≡ false
    → count_of (entry_in key doc_id (record_all empty cs).by_query) ≡ min (times key doc_id cs) 50
unfolding record_all times entry_in get
record_all-times key doc_id [] h = refl
record_all-times key doc_id ((k, d, now) ∷ cs) h = elim (Bool-cases (is_empty k)) [
  | inl e ↦
      rw (record_key-blank (record_all empty cs) k d now e)
        (ground (arith, text_eq_iff k key, record_all-times key doc_id cs h))
  | inr e ↦ rw (entry_in-record_key (record_all empty cs) k d key doc_id now e) (
      counted _ _ (entry_in key doc_id (record_all empty cs).by_query) now
        (record_all-times key doc_id cs h))
]

module _ (nfkd to_lowercase : Text → Text) where
  -- `strong` says whether a document has an entry under the key of the query with a count that reaches
  -- the threshold: after any choices, whether it was chosen so often under that key, up to 50 times.
  -- For a threshold of 0 there must be an entry too.
  pub strong-record_all :
      (query_raw doc_id : Text) (threshold : ℕ) (cs : Choices)
      → is_empty (normalize_for_latch_key nfkd to_lowercase query_raw) ≡ false
      → 0 < threshold
      → strong nfkd to_lowercase (record_all empty cs) query_raw doc_id threshold
        ≡ leb threshold
            (min (times (normalize_for_latch_key nfkd to_lowercase query_raw) doc_id cs) 50)
  unfolding strong entry_of
  strong-record_all query_raw doc_id threshold cs h pos_threshold =
      let key : Text = normalize_for_latch_key nfkd to_lowercase query_raw in
      rw (← record_all-times key doc_id cs h)
        (reached (entry_in key doc_id (record_all empty cs).by_query))
    where
      reached :
          (o : Option LatchEntry)
          → elim o [ none ↦ false | some entry ↦ leb threshold entry.count ]
            ≡ leb threshold (count_of o)
      reached none = ground arith
      reached (some e) = refl

  module _ {ℓ} {F : Type ℓ} (fl : Float F) (laws : IsIeee fl) where
    open laws use {lt_neg_le}

    clamp_bounds :
        (x lo hi : F)
        → fl.le lo lo ≡ true
        → fl.le hi hi ≡ true
        → fl.le x x ≡ true
        → fl.le lo hi ≡ true
        → (fl.le lo (clamp fl x lo hi) ≡ true) × (fl.le (clamp fl x lo hi) hi ≡ true)
    unfolding clamp
    clamp_bounds x lo hi a b c d = ground (arith, lt_neg_le x lo c a, lt_neg_le hi x b c)

    -- The multiplier lies between 1 and the cap, for every store, where the cap is no less than 1 and
    -- the boost is a number.
    mult_bounds :
        (s : QueryLatchStore) (query_raw doc_id : Text) (now : ℤ) (weight cap : F)
        → fl.le (fl.decimal 10 1) cap ≡ true
        → fl.le cap cap ≡ true
        → ((e : LatchEntry)
            → fl.le
                (boost nfkd to_lowercase fl e now weight)
                (boost nfkd to_lowercase fl e now weight)
              ≡ true)
        → let m = mult nfkd to_lowercase fl s query_raw doc_id now weight cap in
          (fl.le (fl.decimal 10 1) m ≡ true) × (fl.le m cap ≡ true)
    unfolding mult
    mult_bounds s query_raw doc_id now weight cap h k number =
        elim (Option-cases (entry_of nfkd to_lowercase s query_raw doc_id)) [
          | inl e ↦ rw (e, mult) (laws.decimal_le 1 10 10 (omega arith), h)
          | inr (entry, e) ↦
              rw (e, mult)
                (clamp_bounds _ _ cap (laws.decimal_le 1 10 10 (omega arith)) k (number entry) h)
        ]
