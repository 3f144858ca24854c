-- ===== src/Outcome.antt =====
-- What a call returns in the Go code: a value, an error, or a panic. An `Error` says which error it
-- is; its message is left out.
use nexus_dispatch.Prelude.{Option, none, some}

pub data Error : Type 0 where
  unreachable script_failed bad_cell bad_coordinate malformed_lease no_random : Error
  conflict not_available : Error

pub data Outcome {ℓ} (A : Type ℓ) : Type ℓ where
  ok : A → Outcome A
  err : Error → Outcome A
  panic : Outcome A

infixl 5 ◌>>=◌
abbrev pub ◌>>=◌ {ℓ κ} : {A : Type ℓ} {B : Type κ} → Outcome A → (A → Outcome B) → Outcome B
ok a >>= f = f a
err e >>= f = err e
panic >>= f = panic

abbrev pub ok_or {ℓ} : {A : Type ℓ} → Error → Option A → Outcome A
ok_or e none = err e
ok_or e (some a) = ok a

-- What becomes of one command: it is answered, it never arrives, or it runs and its answer is lost.
pub data Link : Type 0 where
  up down cut : Link

-- A command that changes the database, over a link. `none` is an error that the server answers.
unfoldable pub call {ℓ κ} :
    {D : Type ℓ} {A : Type κ} → Link → (D → D × Option A) → D → D × Outcome A
call up f d = let (d', a) = f d in (d', ok_or script_failed a)
call down f d = (d, err unreachable)
call cut f d = ((f d).0, err unreachable)

-- A command that only reads.
unfoldable pub ask {ℓ} : {A : Type ℓ} → Link → A → Outcome A
ask up a = ok a
ask down a = err unreachable
ask cut a = err unreachable

-- After a command the database is as it was, or as the command leaves it.
pub call-cases {ℓ κ μ} :
    {D : Type ℓ} {A : Type κ} (P : D → Type μ) (l : Link) (f : D → D × Option A) (d : D)
    → P d
    → P (f d).0
    → P (call l f d).0
unfolding call
call-cases P up f d same done = done
call-cases P down f d same done = same
call-cases P cut f d same done = done
