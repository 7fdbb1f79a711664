-- ===== src/IndexService/Cache.antt =====
-- The cache of search results in `SearchHandle`. What the index answers is a parameter, a function of
-- the documents that the reader sees, the time (which the recency of a hit is measured by), and the text
-- and the limit of the query; `none` is an error.
use lixun.Common.{
  ℕ, ◌+◌, ◌%◌, ◌^◌, ◌<◌, Bool, true, false, ◌&&◌, Option, none, some, List, [], ◌∷◌, ◌≡◌, ◌⊎◌, refl,
  ap, arith, if◌then◌else◌, inl, inr, Bool-cases, ◌∙◌, ◌==◌, leb, length,
}
use lixun.Common.Text.{Text, text_eq, eq_of_text_eq}
use lixun.Common.Int.{ℤ, ◌≤ℤ◌}
use lixun.Common.Sort.{All, All-map}
use lixun.Index.{IndexConfig, LixunIndex, reload}
use lixun.Index.Spec.{Docs, IsTantivy}

pub record Key : Type 0 where
  pub text : Text
  pub limit : ℕ  -- u32
  pub epoch : ℕ  -- u64

unfoldable pub key_eq : Key → Key → Bool
key_eq a b = text_eq a.text b.text && (a.limit == b.limit && a.epoch == b.epoch)

abbrev pub result_cache_max : ℕ
result_cache_max = 64

abbrev pub ResultCache : Type 0 → Type 0
ResultCache R = List (Key × R)

module _ {R : Type 0} where
  unfoldable pub get_cached : Key → ResultCache R → Option R
  unfolding key_eq
  get_cached k [] = none
  get_cached k ((j, r) ∷ c) = if key_eq j k then some r else get_cached k c

  -- `HashMap::insert`.
  unfoldable pub insert_cached : Key → R → ResultCache R → ResultCache R
  unfolding key_eq
  insert_cached k r [] = (k, r) ∷ []
  insert_cached k r ((j, s) ∷ c) =
      let rest = insert_cached k r c in if key_eq j k then (k, r) ∷ c else (j, s) ∷ rest

  -- A full cache is cleared first.
  unfoldable pub put_cached : Key → R → ResultCache R → ResultCache R
  unfolding insert_cached
  put_cached k r c = insert_cached k r (if leb result_cache_max (length c) then [] else c)

  -- `answer` is what the call of `LixunIndex::search_with_breakdown` gives, where it is made.
  unfoldable pub search_with_breakdown :
      Option R → Text → ℕ → ℕ → ResultCache R → Option R × ResultCache R
  unfolding get_cached put_cached
  search_with_breakdown answer text limit epoch c =
      let key : Key = record { text = text; limit = limit; epoch = epoch } in
      elim (get_cached key c) [
        | some r ↦ (some r, c)
        | none ↦ elim answer [ none ↦ (none, c) | some r ↦ (some r, put_cached key r c) ]
      ]

eq_of_key_eq : (a b : Key) → key_eq a b ≡ true → a ≡ b
unfolding key_eq
eq_of_key_eq a b h = ground (arith, eq_of_text_eq a.text b.text)

-- A key of the epoch is not found among entries of earlier epochs.
get_cached-older :
    {R : Type 0} (k : Key) (c : ResultCache R)
    → All (λ (e : Key × R). e.0.epoch < k.epoch) c
    → get_cached k c ≡ none
unfolding get_cached
get_cached-older k [] a = refl
get_cached-older k ((j, r) ∷ c) a = elim (Bool-cases (key_eq j k)) [
  | inl e ↦
      let same : j.epoch ≡ k.epoch = ap (λ (x : Key). x.epoch) (eq_of_key_eq j k e) in
      absurd (omega (arith, same, a.0))
  | inr e ↦ rw e (get_cached-older k c a.1)
]

module _ {W R : Type 0} (cfg : IndexConfig W) (laws : IsTantivy cfg.tantivy)
    (answer : Docs → ℤ → Text → ℕ → Option R) where
  -- What the index answered at some time up to `now`, while it showed the documents it shows.
  abbrev pub WasAnswered : LixunIndex W → ℤ → Text → ℕ → R → Type 0
  WasAnswered ix now text limit r =
      (past : ℤ) × (past ≤ℤ now) × (answer (laws.live ix.writer) past text limit ≡ some r)

  -- An entry is of an earlier epoch, or it is what the index answered since the reload.
  abbrev pub Fresh : LixunIndex W → ℤ → Key × R → Type 0
  Fresh ix now e =
      (e.0.epoch < ix.reload_epoch)
      ⊎ ((e.0.epoch ≡ ix.reload_epoch) × WasAnswered ix now e.0.text e.0.limit e.1)

  abbrev pub IsFresh : LixunIndex W → ℤ → ResultCache R → Type 0
  IsFresh ix now c = All (Fresh ix now) c

  -- A reload, whether it succeeds or not, keeps the cache so, and after one that succeeds no query finds
  -- anything in it. The epoch must not wrap.
  pub reload-IsFresh :
      (ix : LixunIndex W) (now : ℤ) (c : ResultCache R)
      → ix.reload_epoch + 1 < 2 ^ 64
      → IsFresh ix now c
      → let ix' = (reload cfg ix).1 in
        IsFresh ix' now c
        × (((cfg.tantivy.reload ix.writer).0 ≡ false)
            ⊎ ((text : Text) (limit : ℕ)
                → get_cached (record { text = text; limit = limit; epoch = ix'.reload_epoch }) c
                  ≡ none))
  unfolding reload
  reload-IsFresh ix now c n f = elim (Bool-cases (cfg.tantivy.reload ix.writer).0) [
    | inl e ↦
        let next = (ix.reload_epoch + 1) % 2 ^ 64 in
        let older : All (λ (x : Key × R). x.0.epoch < next) c =
          All-map c
            (λ (x : Key × R) (h : Fresh ix now x). elim h [
              | inl old ↦ omega arith
              | inr (q, a) ↦ omega arith
            ])
            f in
        rw (e, reload)
          (
            All-map c (λ (x : Key × R) (h : x.0.epoch < next). inl h) older,
            inr (λ text limit.
                get_cached-older (record { text = text; limit = limit; epoch = next }) c older),
          )
    | inr e ↦
        let same =
          laws.live_reload ix.writer
          ∙ ap (λ b. if b then laws.committed ix.writer else laws.live ix.writer) e in
        rw (e, reload)
          (
            All-map c
                (λ (x : Key × R) (h : Fresh ix now x). elim h [
                  | inl old ↦ inl old
                  | inr (q, (past, t, a)) ↦ inr (q, (past, t, rw same a))
                ])
                f,
            inl refl,
          )
  ]
