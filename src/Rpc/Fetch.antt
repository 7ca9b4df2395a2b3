-- ===== src/Rpc/Fetch.antt =====
-- The retries of `RpcStorage::fetch` in crates/pevm/src/storage/rpc.rs.
use pevm.Base.{
  ℕ, zero, suc, ◌+◌, ◌*◌, ◌<◌, ◌≤◌, ◌≡◌, refl, ap, ◌∙◌, sym, subst, arith, ◌⊎◌, inl, inr,
}
use pevm.Storage.{Fetched, ok, failed}
use pevm.Rpc.{Traffic, fetch_loop, fetch, retry_limit, initial_delay_millis}

abbrev pub IsFailed {ℓ} : {A : Type ℓ} → Fetched A → Type 0
IsFailed (ok a) = ⊥
IsFailed (failed e) = Unit

-- The milliseconds slept behind `k` errors, from a first delay.
abbrev pub delays : ℕ → ℕ → ℕ
delays delay zero = 0
delays delay (suc k) = delay + delays (2 * delay) k

-- What a call does: `errors` requests fail, and the next one is its answer.
pub record Tried {ℓ} {A : Type ℓ} (lives delay : ℕ) (request : ℕ → Fetched A) (t : Traffic)
    (out : Fetched A × Traffic) : Type ℓ where
  pub errors : ℕ
  pub limit : errors ≤ lives
  pub before : (i : ℕ) → i < errors → IsFailed (request (t.requests + i))
  pub answer : out.0 ≡ request (t.requests + errors)
  pub last : (errors ≡ lives) ⊎ (IsFailed out.0 → ⊥)
  pub requests : out.1.requests ≡ t.requests + errors + 1
  pub slept : out.1.slept ≡ t.slept + delays delay errors

abbrev asked : Traffic → Traffic
asked t = record t { requests = suc t.requests }

abbrev slept_for : ℕ → Traffic → Traffic
slept_for delay t = record t { slept = t.slept + delay }

answered_at {ℓ} :
    {A : Type ℓ} (lives delay : ℕ) (request : ℕ → Fetched A) (t : Traffic) (a : A)
    → request t.requests ≡ ok a
    → Tried lives delay request t (ok a, asked t)
answered_at lives delay request t a e = record {
  errors = 0;
  limit = omega arith;
  before = λ i lt. absurd (omega arith);
  answer = sym (ap request (omega arith) ∙ e);
  last = inr (λ f. f);
  requests = omega arith;
  slept = omega arith;
}

module _ {ℓ} {A : Type ℓ} (request : ℕ → Fetched A) (n : ℕ) where
  IsFailed-before :
      IsFailed (request n)
      → (k : ℕ) → ((i : ℕ) → i < k → IsFailed (request (suc n + i)))
      → (i : ℕ) → i < suc k
      → IsFailed (request (n + i))
  IsFailed-before f k before zero lt = subst (λ x. IsFailed (request x)) (omega arith) f
  IsFailed-before f k before (suc i) lt =
      subst (λ x. IsFailed (request x)) (omega arith) (before i (omega arith))

failed_once {ℓ} :
    {A : Type ℓ} (lives delay : ℕ) (request : ℕ → Fetched A) (t : Traffic)
    (out : Fetched A × Traffic)
    → IsFailed (request t.requests)
    → Tried lives (2 * delay) request (slept_for delay (asked t)) out
    → Tried (suc lives) delay request t out
failed_once lives delay request t out f h = record {
  errors = suc h.errors;
  limit = omega (arith, h.limit);
  before = IsFailed-before request t.requests f h.errors h.before;
  answer = h.answer ∙ ap request (omega arith);
  last = elim h.last [ inl x ↦ inl (ap suc x) | inr x ↦ inr x ];
  requests = omega (arith, h.requests);
  slept = omega (arith, h.slept);
}

fetch_loop-Tried {ℓ} :
    {A : Type ℓ} (lives delay : ℕ) (request : ℕ → Fetched A) (t : Traffic)
    → Tried lives delay request t (fetch_loop lives delay request t)
unfolding fetch_loop
fetch_loop-Tried zero delay request t = record {
  errors = 0;
  limit = omega arith;
  before = λ i lt. absurd (omega arith);
  answer = ap request (omega arith);
  last = inl refl;
  requests = omega arith;
  slept = omega arith;
}
fetch_loop-Tried {A} (suc lives) delay request t =
    by_answer (request t.requests) refl
      (fetch_loop-Tried lives (2 * delay) request (slept_for delay (asked t)))
  where
    by_answer :
        (r : Fetched A)
        → request t.requests ≡ r
        → Tried lives
            (2 * delay)
            request
            (slept_for delay (asked t))
            (fetch_loop lives (2 * delay) request (slept_for delay (asked t)))
        → Tried (suc lives) delay request t (elim r [
          | ok a ↦ (ok a, asked t)
          | failed e ↦ fetch_loop lives (2 * delay) request (slept_for delay (asked t))
        ])
    by_answer (ok a) e rest = answered_at (suc lives) delay request t a e
    by_answer (failed x) e rest =
        failed_once lives delay request t _ (subst IsFailed (sym e) tt) rest

delays_mono : (delay k n : ℕ) → k ≤ n → delays delay k ≤ delays delay n
delays_mono delay zero n le = omega arith
delays_mono delay (suc k) zero le = absurd (omega arith)
delays_mono delay (suc k) (suc n) le = omega (arith, delays_mono (2 * delay) k n (omega arith))

-- A fetch answers what its first request without an error answers, or what the ninth does; before
-- it no request succeeds. It makes one to nine requests and sleeps 125 milliseconds behind the first
-- error and twice as long behind each further one, 31875 at most.
pub fetch-Tried {ℓ} :
    {A : Type ℓ} (request : ℕ → Fetched A) (t : Traffic)
    → Tried retry_limit initial_delay_millis request t (fetch request t)
      × (t.requests < (fetch request t).1.requests)
      × ((fetch request t).1.requests ≤ t.requests + 9)
      × ((fetch request t).1.slept ≤ t.slept + 31875)
unfolding fetch
fetch-Tried request t =
    let h = fetch_loop-Tried retry_limit initial_delay_millis request t in
    (
      h,
      omega (arith, h.requests),
      omega (arith, h.requests, h.limit),
      omega (arith, h.slept, delays_mono initial_delay_millis h.errors retry_limit h.limit),
    )

-- The answer of a fetch is the answer to one of its requests.
pub fetch-answer {ℓ} :
    {A : Type ℓ} (request : ℕ → Fetched A) (t : Traffic)
    → (n : ℕ) × ((fetch request t).0 ≡ request n)
fetch-answer request t = let h = (fetch-Tried request t).0 in (t.requests + h.errors, h.answer)
