-- ===== src/Kafka.antt =====
-- internal/kafka/kafka.go: the consumer. The broker is a parameter: what was read comes as a list, and
-- what is committed and dead-lettered goes out as a list, with the commits that `ReadMessage` makes of itself in a group. The handler is any function of the state
-- behind it. A commit or a dead letter in the list was asked for: the broker may refuse it, or the context have
-- ended, and the code only logs that.
pub mod Retries
pub mod Producer
use nexus_dispatch.Prelude.{
  ℕ, zero, suc, ◌+◌, ◌^◌, ◌*◌, ◌-◌, Bool, true, false, Option, none, some, List, [], ◌∷◌, ◌++◌,
  String, if◌then◌else◌,
}
use nexus_dispatch.Prelude.Int.{ℤ, pos, pos_part, ltb_ℤ}

pub record Message : Type 0 where
  pub key : String
  pub value : String
  pub offset : ℕ

-- What the consumer sends to the broker.
pub data Sent : Type 0 where
  -- by `ReadMessage`, and by `CommitMessages`
  auto_commit : ℕ → Sent
  commit : ℕ → Sent
  dead_letter : String → String → Sent

-- `Consumer`, as far as `process` reads it: the handler answers none where it succeeds.
pub record Consumer {ℓ} (S : Type ℓ) (E : Type 0) : Type ℓ where
  pub handler : Message → S → S × Option E
  pub has_dlq : Bool
  pub max_retries : ℕ

-- The number of retries that `NewConsumer` keeps.
unfoldable pub retries_of : ℤ → ℕ
retries_of n = if ltb_ℤ (pos 0) n then pos_part n else 3

-- How `process` ends: nil, the context's error, or the handler's last one.
pub data Verdict (E : Type 0) : Type 0 where
  handled : Verdict E
  cancelled : Verdict E
  exhausted : E → Verdict E

-- The pause before an attempt but the first, in milliseconds.
unfoldable pub backoff : ℕ → ℕ
backoff attempt = 100 * 2 ^ (attempt - 1)

module _ {ℓ} {S : Type ℓ} {E : Type 0} (c : Consumer S E) where
  -- The loop of `process`: `left` retries are left behind this attempt, and `ends` says of an attempt
  -- whether the context ends in the pause before it.
  unfoldable pub attempts : (ℕ → Bool) → Message → ℕ → ℕ → S → S × Verdict E
  attempts ends msg zero n s =
      let (s', e) = c.handler msg s in elim e [ none ↦ (s', handled) | some x ↦ (s', exhausted x) ]
  attempts ends msg (suc left) n s =
      let (s', e) = c.handler msg s in
      let rest = attempts ends msg left (suc n) s' in
      elim e [ none ↦ (s', handled) | some x ↦ if ends (suc n) then (s', cancelled) else rest ]

  -- What `process` sends, by how it ends.
  unfoldable pub sends : Message → Verdict E → List Sent
  sends msg handled = commit msg.offset ∷ []
  sends msg cancelled = []
  sends msg (exhausted e) = if c.has_dlq then dead_letter msg.key msg.value ∷ [] else []

  -- `process`
  unfoldable pub process : (ℕ → Bool) → Message → S → S × Verdict E × List Sent
  process ends msg s = let (s', v) = attempts ends msg c.max_retries 0 s in (s', v, sends msg v)

  -- What `Run` sends behind `process`: a message that failed is committed too.
  unfoldable pub settle : Message → Verdict E → List Sent
  settle msg handled = []
  settle msg _ = commit msg.offset ∷ []

  -- `Run` over the messages that were read, each with what becomes of the context meanwhile.
  unfoldable pub run : List (Message × (ℕ → Bool)) → S → S × List Sent
  run [] s = (s, [])
  run ((msg, ends) ∷ msgs) s =
      let (s', v, out) = process ends msg s in
      let (s'', later) = run msgs s' in
      (s'', auto_commit msg.offset ∷ (out ++ settle msg v ++ later))
