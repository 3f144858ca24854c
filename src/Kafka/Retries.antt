-- ===== src/Kafka/Retries.antt =====
-- How often a handler runs, and what becomes of its message (internal/kafka/kafka.go, `process` and
-- `Run`).
use nexus_dispatch.Prelude.{
  ℕ, zero, suc, ◌≤◌, ◌≡◌, refl, sym, ap, subst, ◌∙◌, Bool, false, Option, none, some, List, [], ◌∷◌,
  ◌++◌, arith, if◌then◌else◌,
}
use nexus_dispatch.Kafka.{
  Message, Sent, auto_commit, commit, dead_letter, Consumer, handled, exhausted, attempts, sends,
  process,
}

module _ {ℓ} {S : Type ℓ} {E : Type 0} (c : Consumer S E) (msg : Message) where
  -- The state behind n calls of the handler.
  abbrev pub after : ℕ → S → S
  after zero s = s
  after (suc n) s = after n (c.handler msg s).0

  -- The handler fails n times in a row.
  abbrev pub Fails : ℕ → S → Type 0
  Fails zero s = Unit
  Fails (suc n) s = ((e : E) × ((c.handler msg s).1 ≡ some e)) × Fails n (c.handler msg s).0

  -- The error of the last of n + 1 calls.
  abbrev pub last_error : ℕ → S → Option E
  last_error zero s = (c.handler msg s).1
  last_error (suc n) s = last_error n (c.handler msg s).0

  attempts_once :
      (ends : ℕ → Bool) (left n : ℕ) (s : S)
      → (c.handler msg s).1 ≡ none
      → attempts c ends msg left n s ≡ ((c.handler msg s).0, handled)
  unfolding attempts
  attempts_once ends zero n s e = rw (attempts, e) refl
  attempts_once ends (suc left) n s e = rw (attempts, e) refl

  attempts_again :
      (ends : ℕ → Bool) (left n : ℕ) (s : S) (x : E)
      → (c.handler msg s).1 ≡ some x
      → ends (suc n) ≡ false
      → attempts c ends msg (suc left) n s ≡ attempts c ends msg left (suc n) (c.handler msg s).0
  unfolding attempts
  attempts_again ends left n s x e f = rw (attempts, e, f) refl

  the_end : {k : ℕ} → suc k ≤ 0 → ⊥
  the_end le = omega (arith, le)

  attempts-handled :
      (ends : ℕ → Bool) (k left n : ℕ) (s : S)
      → ((i : ℕ) → ends i ≡ false)
      → Fails k s
      → (c.handler msg (after k s)).1 ≡ none
      → k ≤ left
      → attempts c ends msg left n s ≡ (after (suc k) s, handled)
  attempts-handled ends zero left n s f h e le = attempts_once ends left n s e
  attempts-handled ends (suc k) zero n s f h e le = elim (the_end le) [ ]
  attempts-handled ends (suc k) (suc left) n s f ((x, p), h) e le =
      attempts_again ends left n s x p (f (suc n))
      ∙ attempts-handled ends k left (suc n) (c.handler msg s).0 f h e (omega (arith, le))

  attempts-exhausted :
      (ends : ℕ → Bool) (left n : ℕ) (s : S) (x : E)
      → ((i : ℕ) → ends i ≡ false)
      → Fails left s
      → last_error left s ≡ some x
      → attempts c ends msg left n s ≡ (after (suc left) s, exhausted x)
  unfolding attempts
  attempts-exhausted ends zero n s x f h e = rw (attempts, e) refl
  attempts-exhausted ends (suc left) n s x f ((y, p), h) e =
      attempts_again ends left n s y p (f (suc n))
      ∙ attempts-exhausted ends left (suc n) (c.handler msg s).0 x f h e

  -- A handler that fails k times and then succeeds, k at most the number of retries, in a context
  -- that does not end: it runs k + 1 times, the message is handled and committed, and none is dead-
  -- lettered.
  pub process-handled :
      (ends : ℕ → Bool) (k : ℕ) (s : S)
      → ((i : ℕ) → ends i ≡ false)
      → Fails k s
      → (c.handler msg (after k s)).1 ≡ none
      → k ≤ c.max_retries
      → process c ends msg s ≡ (after (suc k) s, handled, commit msg.offset ∷ [])
  unfolding process sends
  process-handled ends k s f h e le = rw (attempts-handled ends k c.max_retries 0 s f h e le) refl

  -- A handler that fails at the first attempt and at every retry, in a context that does not end: it
  -- runs once more than the number of retries, its last error is what is left, and the message goes
  -- to the dead letters if there is a producer for them.
  pub process-exhausted :
      (ends : ℕ → Bool) (s : S) (x : E)
      → ((i : ℕ) → ends i ≡ false)
      → Fails c.max_retries s
      → last_error c.max_retries s ≡ some x
      → process c ends msg s ≡ (
        after (suc c.max_retries) s,
        exhausted x,
        if c.has_dlq then dead_letter msg.key msg.value ∷ [] else [],
      )
  unfolding process sends
  process-exhausted ends s x f h e = rw (attempts-exhausted ends c.max_retries 0 s x f h e) refl

  -- A handler that fails on a state without changing it, in a context that does not end: the state
  -- stays, and the message goes to the dead letters if there is a producer for them.
  module _ (s : S) (x : E) (stuck : c.handler msg s ≡ (s, some x)) where
    stays : (n : ℕ) → after n s ≡ s
    stays zero = refl
    stays (suc n) = ap (λ r. after n r.0) stuck ∙ stays n

    fails : (n : ℕ) → Fails n s
    fails zero = tt
    fails (suc n) =
        ((x, ap (λ r. r.1) stuck), subst (Fails n) (sym (ap (λ r. r.0) stuck)) (fails n))

    fails_last : (n : ℕ) → last_error n s ≡ some x
    fails_last zero = ap (λ r. r.1) stuck
    fails_last (suc n) = ap (λ r. last_error n r.0) stuck ∙ fails_last n

    pub process-stuck :
        (ends : ℕ → Bool)
        → ((i : ℕ) → ends i ≡ false)
        → process c ends msg s
          ≡ (s, exhausted x, if c.has_dlq then dead_letter msg.key msg.value ∷ [] else [])
    process-stuck ends f =
        process-exhausted ends s x f (fails c.max_retries) (fails_last c.max_retries)
        ∙ ap
            (λ (t : S).
              (t, exhausted x, if c.has_dlq then dead_letter msg.key msg.value ∷ [] else []))
            (stays (suc c.max_retries))

-- The offsets of the commits, in order.
abbrev pub committed : List Sent → List ℕ
committed [] = []
committed (auto_commit n ∷ out) = n ∷ committed out
committed (commit n ∷ out) = n ∷ committed out
committed (dead_letter k v ∷ out) = committed out

committed-append : (xs ys : List Sent) → committed (xs ++ ys) ≡ committed xs ++ committed ys
committed-append [] ys = refl
committed-append (auto_commit n ∷ xs) ys = ap (λ l. n ∷ l) (committed-append xs ys)
committed-append (commit n ∷ xs) ys = ap (λ l. n ∷ l) (committed-append xs ys)
committed-append (dead_letter k v ∷ xs) ys = committed-append xs ys

-- Each offset twice.
abbrev pub twice {ℓ} : {A : Type ℓ} → List (Message × A) → List ℕ
twice [] = []
twice ((msg, a) ∷ msgs) = msg.offset ∷ msg.offset ∷ twice msgs
