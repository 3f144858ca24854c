-- ===== src/Prelude/Text.antt =====
-- Texts: the native strings, with an equality test that proofs keep shut.
use Prim.Native.Nat.{◌+◌}
use Prim.Native.String
use mathlib.Core.Path.{◌≡◌}
use mathlib.Core.Logic.{◌≢◌, ite, dite}
use mathlib.Core.Bool.{Bool, true, false, Bool-discrete}
use native.Mathlib.Omega.{arith}
use text.Mathlib.Text as T
use text.Mathlib.TextEquality.{eq_iff}
use text.Mathlib.TextLemmas
pub use Prim.Native.String.{String, count}
pub use text.Mathlib.TextLemmas.{append_cancel_left, append_cancel_right}

infixr 65 ◌<>◌
abbrev pub ◌<>◌ : String → String → String
s <> t = String.◌++◌ s t

-- A split on `string_dec s t` yields the equation or its negation; only tests unfold it.
unfoldable pub string_dec : Discrete String
string_dec s t =
    dite (Bool-discrete (T.◌==◌ s t) true) (λ same. yes ((eq_iff s t).0 same))
      (λ differ. no (λ p. differ ((eq_iff s t).1 p)))

infix 50 ◌==◌
abbrev pub ◌==◌ : String → String → Bool
s == t = ite (string_dec s t) true false

pub ==-refl : (s : String) → (s == s) ≡ true
==-refl s = ground arith

pub ==-ne : (s t : String) → s ≢ t → (s == t) ≡ false
==-ne s t h = ground arith

pub length-append_text : (s t : String) → count (s <> t) ≡ count s + count t
length-append_text s t = TextLemmas.length-append s t
