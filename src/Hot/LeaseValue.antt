-- ===== src/Hot/LeaseValue.antt =====
-- internal/redis/keys.go: the text `ride_id:token:version` of a lease, and the parts of the Go
-- library that it is written and read with: %d, strings.Split on a colon, and ParseUint.
pub mod RoundTrip
use Prim.Native.Char.{Char, code}
use Prim.Native.String as String
use mathlib.Core.Logic.{dite}
use mathlib.Core.WellFounded.{Acc, WellFounded}
use nexus_dispatch.Prelude.{
  ℕ, zero, suc, ◌+◌, ◌-◌, ◌*◌, ◌/◌, ◌%◌, ◌^◌, ◌<◌, Bool, ◌||◌, Option, none, some, List, [], ◌∷◌,
  String, ◌<>◌, arith, ltb, eqb, dec_lt, if◌then◌else◌,
}
use nexus_dispatch.Outcome.{Outcome, ok, err, malformed_lease}

-- `LeaseValue`
pub record LeaseValue : Type 0 where
  pub ride_id : String
  pub token : String
  pub version : ℕ  -- uint64

abbrev cons : Char → String → String
cons c s = String.◌∷◌ c s

abbrev pub max_uint64 : ℕ
max_uint64 = 2 ^ 64 - 1

unfoldable pub digit : ℕ → Char
digit zero = "0"
digit (suc zero) = "1"
digit (suc (suc zero)) = "2"
digit (suc (suc (suc zero))) = "3"
digit (suc (suc (suc (suc zero)))) = "4"
digit (suc (suc (suc (suc (suc zero))))) = "5"
digit (suc (suc (suc (suc (suc (suc zero)))))) = "6"
digit (suc (suc (suc (suc (suc (suc (suc zero))))))) = "7"
digit (suc (suc (suc (suc (suc (suc (suc (suc zero)))))))) = "8"
digit _ = "9"

acc_below : (k n : ℕ) → n < k → Acc ◌<◌ n
acc_below zero n h = absurd (omega arith)
acc_below (suc k) n h = Acc.intro n λ m lt. acc_below k m (omega arith)

lt_wf : WellFounded ◌<◌
unfolding acc_below
lt_wf = record { apply = λ n. acc_below (suc n) n (omega arith) }

tenth_lt : {n : ℕ} → 9 < n → n / 10 < n
tenth_lt h = omega arith

decimal_acc : (n : ℕ) → Acc ◌<◌ n → String
decimal_acc n (Acc.intro _ smaller) =
    dite (dec_lt 9 n)
      (λ h. decimal_acc (n / 10) (smaller (n / 10) (tenth_lt h)) <> cons (digit (n % 10)) String.[])
      (λ _. cons (digit n) String.[])

-- %d of a uint64
unfoldable pub decimal : ℕ → String
unfolding decimal_acc lt_wf dec_lt digit tenth_lt
decimal n = decimal_acc n (lt_wf.apply n)

-- `LeaseValue.String`
unfoldable pub lease_string : LeaseValue → String
lease_string l = l.ride_id <> ":" <> l.token <> ":" <> decimal l.version

abbrev prepend : Char → List String → List String
prepend c [] = cons c String.[] ∷ []
prepend c (x ∷ xs) = cons c x ∷ xs

-- `strings.Split(s, ":")`
unfoldable pub split_colon : String → List String
split_colon String.[] = String.[] ∷ []
split_colon (String.◌∷◌ c s) =
    let rest = split_colon s in if eqb (code c) b':' then String.[] ∷ rest else prepend c rest

-- The loop of ParseUint; a number past 64 bits is an error.
unfoldable pub scan_uint : String → ℕ → Option ℕ
scan_uint String.[] n = some n
scan_uint (String.◌∷◌ c s) n =
    let d = code c - b'0' in
    let rest = scan_uint s (n * 10 + d) in
    if ltb (code c) b'0' || ltb b'9' (code c)
    then none
    else if ltb max_uint64 (n * 10 + d)
    then none
    else rest

-- `strconv.ParseUint(s, 10, 64)`
unfoldable pub parse_uint : String → Option ℕ
unfolding scan_uint
parse_uint String.[] = none
parse_uint (String.◌∷◌ c s) = scan_uint (cons c s) 0

lease_of_parts : List String → Outcome LeaseValue
unfolding parse_uint
lease_of_parts (r ∷ t ∷ v ∷ []) = elim (parse_uint v) [
  | none ↦ err malformed_lease
  | some n ↦ ok (record { ride_id = r; token = t; version = n })
]
lease_of_parts _ = err malformed_lease

-- `ParseLeaseValue`
unfoldable pub parse_lease_value : String → Outcome LeaseValue
unfolding lease_of_parts
parse_lease_value s = lease_of_parts (split_colon s)
