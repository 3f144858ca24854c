-- ===== src/Prelude/Strings.antt =====
-- The functions of Go's package strings that the code calls, on texts.
use Prim.Native.Nat.{ℕ}
use Prim.Native.Char.{Char, code}
use Prim.Native.String.append
use mathlib.Core.Bool.{true}
use Prim.Native.String.{String, [], ◌∷◌}
use mathlib.Core.Path.{◌≡◌, refl}
use mathlib.Core.Option.{Option, none, some}
use mathlib.Core.List.{[], ◌∷◌}
use native.Mathlib.Omega.{arith}
use nexus_dispatch.Prelude.Tests.{eqb, if◌then◌else◌}
use nexus_dispatch.Prelude.Text.{◌<>◌}

-- `strings.CutPrefix`: the text behind a prefix, if it has that prefix.
unfoldable pub cut_prefix : String → String → Option String
cut_prefix [] s = some s
cut_prefix (x ∷ p) [] = none
cut_prefix (x ∷ p) (y ∷ s) =
    let rest = cut_prefix p s in if eqb (code x) (code y) then rest else none

eqb_refl : (n : ℕ) → eqb n n ≡ true
eqb_refl n = ground arith

pub cut_prefix-append : (p s : String) → cut_prefix p (p <> s) ≡ some s
unfolding cut_prefix
cut_prefix-append [] s = rw (append.nil s) refl
cut_prefix-append (x ∷ p) s = rw (append.cons x p s, eqb_refl (code x), cut_prefix-append p s) refl

-- The text before the first character of a code, and all of it where there is none.
unfoldable pub before_first : ℕ → String → String
before_first c [] = ""
before_first c (x ∷ s) = let rest = before_first c s in if eqb (code x) c then "" else x ∷ rest

put_front : Char → Option String → Option String
put_front x none = none
put_front x (some s) = some (x ∷ s)

-- The text before the last character of a code, if there is one.
unfoldable pub before_last : ℕ → String → Option String
unfolding put_front
before_last c [] = none
before_last c (x ∷ s) = elim (before_last c s) [
  | none ↦ if eqb (code x) c then some "" else none
  | some p ↦ some (x ∷ p)
]
