-- ===== src/OcrQueue/Retry.antt =====
-- `with_busy_retry`: how often it calls, how long it sleeps, what it returns.
use native.Mathlib.Decide.{dec_lt}
use lixun.Common.{
  ℕ, suc, ◌+◌, ◌≤◌, ◌<◌, Option, List, [], ◌∷◌, ◌≡◌, ◌≢◌, ◌⊎◌, refl, sym, arith, inl, inr, length,
}
use lixun.OcrQueue.{
  Attempt, ok, busy, failed, Retried, schedule, sleep_of, retry_from, with_busy_retry,
}

abbrev total_sleep : List (Option ℕ) → ℕ
total_sleep [] = 0
total_sleep (d ∷ ds) = sleep_of d + total_sleep ds

module _ {ℓ} {A : Type ℓ} (f : ℕ → Attempt A) where
  abbrev AllBusy : ℕ → Type ℓ
  AllBusy n = (j : ℕ) → j < n → f j ≡ busy

  -- All calls were busy, after which all the sleeps have been slept.
  pub record GaveUp (calls sleep : ℕ) (r : Retried A) : Type ℓ where
    pub result_busy : r.result ≡ busy
    pub calls_all : r.calls ≡ calls
    pub waited_all : r.waited ≡ sleep
    pub busy_all : (j : ℕ) → j < calls → f j ≡ busy

  -- Call number `last` (from 0) was the first that was not busy, and its outcome is returned.
  pub record Answered (calls sleep : ℕ) (r : Retried A) : Type ℓ where
    pub last : ℕ
    pub last_in : last < calls
    pub calls_eq : r.calls ≡ suc last
    pub result_eq : r.result ≡ f last
    pub not_busy : f last ≢ busy
    pub busy_before : (j : ℕ) → j < last → f j ≡ busy
    pub waited_le : r.waited ≤ sleep

  extend : (i : ℕ) → AllBusy i → f i ≡ busy → AllBusy (suc i)
  extend i b e j h = elim (dec_lt j i) [
    | yes p ↦ b j p
    | no p ↦ let same : j ≡ i = omega arith in rw same e
  ]

  abbrev Ended : ℕ → ℕ → Retried A → Type ℓ
  Ended calls sleep r = Answered calls sleep r ⊎ GaveUp calls sleep r

  answered :
      (i n waited sleep : ℕ) (o : Attempt A)
      → f i ≡ o
      → o ≢ busy
      → AllBusy i
      → i < n
      → waited ≤ sleep
      → Ended n sleep (record { result = o; calls = suc i; waited = waited })
  answered i n waited sleep o e ne b h w = inl (record {
    last = i;
    last_in = h;
    calls_eq = refl;
    result_eq = sym e;
    not_busy = rw e ne;
    busy_before = b;
    waited_le = w;
  })

  retry_from-Ended :
      (ds : List (Option ℕ)) (i waited n sleep : ℕ)
      → i + length ds ≡ n
      → waited + total_sleep ds ≡ sleep
      → AllBusy i
      → Ended n sleep (retry_from ds f i waited)
  unfolding retry_from
  retry_from-Ended [] i waited n sleep p q b = inr (record {
    result_busy = refl;
    calls_all = omega arith;
    waited_all = omega arith;
    busy_all = λ j h. b j (omega arith);
  })
  retry_from-Ended (d ∷ ds) i waited n sleep p q b = go (f i) refl (λ e.
      retry_from-Ended ds (suc i) (waited + sleep_of d) n sleep (omega arith) (omega arith)
        (extend i b e))
    where
      go :
          (o : Attempt A)
          → f i ≡ o
          → (f i ≡ busy → Ended n sleep (retry_from ds f (suc i) (waited + sleep_of d)))
          → Ended n sleep (retry_from (d ∷ ds) f i waited)
      go (ok v) e rest =
          rw (e, retry_from)
            (answered i n waited sleep (ok v) e (λ h. cc) b (omega arith) (omega arith))
      go failed e rest =
          rw (e, retry_from)
            (answered i n waited sleep failed e (λ h. cc) b (omega arith) (omega arith))
      go busy e rest = rw (e, retry_from) (rest e)

  -- `with_busy_retry` makes at most ten calls and returns the outcome of the first that is not busy;
  -- where all ten are busy it returns that, having slept 1525 milliseconds, and never sleeps longer.
  pub with_busy_retry_lem :
      Answered 10 1525 (with_busy_retry f) ⊎ GaveUp 10 1525 (with_busy_retry f)
  unfolding with_busy_retry
  with_busy_retry_lem =
      retry_from-Ended schedule 0 0 10 1525 refl refl (λ j h. absurd (omega arith))
