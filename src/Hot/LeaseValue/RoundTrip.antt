-- ===== src/Hot/LeaseValue/RoundTrip.antt =====
-- A lease's text is parsed back to the lease.
use Prim.Native.Char.{Char, code}
use Prim.Native.String.append
use text.Mathlib.TextLemmas.{append-ne-nil_of_right_ne-nil, cons-ne-nil}
use native.Mathlib.Bridge.{le_prop}
use mathlib.Core.WellFounded.{Acc}
use mathlib.Core.Logic.{dif_pos, dif_neg}
use nexus_dispatch.Prelude.{
  ℕ, zero, suc, ◌+◌, ◌-◌, ◌*◌, ◌/◌, ◌%◌, ◌≤◌, ◌<◌, ◌≡◌, ◌≢◌, refl, ap, ◌∙◌, some, [], ◌∷◌, String,
  ◌<>◌, arith, dec_lt,
}
use nexus_dispatch.Outcome.{ok}
use nexus_dispatch.Hot.Keys.{has_colon, IsPlain}
use nexus_dispatch.Hot.LeaseValue.{
  LeaseValue, max_uint64, digit, cons, decimal_acc, decimal, tenth_lt, lt_wf, lease_string,
  split_colon, scan_uint, parse_uint, lease_of_parts, parse_lease_value,
}

code-digit : (n : ℕ) → n < 10 → code (digit n) ≡ b'0' + n
unfolding digit
code-digit zero h = refl
code-digit (suc zero) h = refl
code-digit (suc (suc zero)) h = refl
code-digit (suc (suc (suc zero))) h = refl
code-digit (suc (suc (suc (suc zero)))) h = refl
code-digit (suc (suc (suc (suc (suc zero))))) h = refl
code-digit (suc (suc (suc (suc (suc (suc zero)))))) h = refl
code-digit (suc (suc (suc (suc (suc (suc (suc zero))))))) h = refl
code-digit (suc (suc (suc (suc (suc (suc (suc (suc zero)))))))) h = refl
code-digit (suc (suc (suc (suc (suc (suc (suc (suc (suc zero))))))))) h = refl
code-digit (suc (suc (suc (suc (suc (suc (suc (suc (suc (suc (n))))))))))) h = absurd (omega arith)

abbrev colon : Char
colon = ":"

colon_append : (t : String) → ":" <> t ≡ cons colon t
colon_append t = append.cons colon String.[] t ∙ ap (cons colon) (append.nil t)

split-text : (s t : String) → IsPlain s → split_colon (s <> ":" <> t) ≡ s ∷ split_colon t
unfolding split_colon has_colon
split-text String.[] t h = rw (append.nil, colon_append)
split-text (String.◌∷◌ c s) t h = rw append.cons (ground (arith, split-text s t))

split-plain : (s : String) → IsPlain s → split_colon s ≡ s ∷ []
unfolding split_colon has_colon
split-plain String.[] h = refl
split-plain (String.◌∷◌ c s) h = ground (arith, split-plain s)

has_colon-append : (s t : String) → IsPlain s → IsPlain t → IsPlain (s <> t)
unfolding has_colon
has_colon-append String.[] t h k = rw append.nil k
has_colon-append (String.◌∷◌ c s) t h k = rw append.cons (ground (arith, has_colon-append s t))

scan-append :
    (s t : String) (n m : ℕ) → scan_uint s n ≡ some m → scan_uint (s <> t) n ≡ scan_uint t m
unfolding scan_uint
scan-append String.[] t n m h = rw append.nil (ground arith)
scan-append (String.◌∷◌ c s) t n m h =
    rw append.cons (ground (arith, scan-append s t (n * 10 + (code c - b'0')) m))

scan-digit :
    (n d : ℕ)
    → d < 10
    → n * 10 + d ≤ max_uint64
    → scan_uint (cons (digit d) String.[]) n ≡ some (n * 10 + d)
unfolding scan_uint
scan-digit n d h k = ground (arith, code-digit d)

digit-IsPlain : (n : ℕ) → n < 10 → IsPlain (cons (digit n) String.[])
unfolding has_colon
digit-IsPlain n h = ground (arith, code-digit n)

decimal_acc-IsPlain : (n : ℕ) (w : Acc ◌<◌ n) → IsPlain (decimal_acc n w)
unfolding decimal_acc
decimal_acc-IsPlain n (Acc.intro _ smaller) = elim (dec_lt 9 n) [
  | yes p ↦ rw (dif_pos _ le_prop p) (
      has_colon-append _ _ (decimal_acc-IsPlain (n / 10) (smaller (n / 10) (tenth_lt p)))
        (digit-IsPlain (n % 10) (omega arith)))
  | no p ↦ rw (dif_neg _ p) (digit-IsPlain n (omega arith))
]

scan-decimal_acc : (n : ℕ) (w : Acc ◌<◌ n) → n ≤ max_uint64 → scan_uint (decimal_acc n w) 0 ≡ some n
unfolding decimal_acc
scan-decimal_acc n (Acc.intro _ smaller) h = elim (dec_lt 9 n) [
  | yes p ↦
      rw
        (
          dif_pos _ le_prop p,
          scan-append _ _ 0 (n / 10)
              (scan-decimal_acc (n / 10) (smaller (n / 10) (tenth_lt p)) (omega arith)),
          scan-digit (n / 10) (n % 10) (omega arith) (omega arith),
        )
        (ap some (omega arith))
  | no p ↦ rw (dif_neg _ p, scan-digit 0 n (omega arith) (omega arith)) (ap some (omega arith))
]

parse-scan : (s : String) (n : ℕ) → scan_uint s 0 ≡ some n → s ≢ String.[] → parse_uint s ≡ some n
unfolding parse_uint
parse-scan String.[] n h e = absurd (e refl)
parse-scan (String.◌∷◌ c s) n h e = h

decimal_acc-nonempty : (n : ℕ) (w : Acc ◌<◌ n) → decimal_acc n w ≢ String.[]
unfolding decimal_acc
decimal_acc-nonempty n (Acc.intro _ smaller) = elim (dec_lt 9 n) [
  | yes p ↦ rw (dif_pos _ le_prop p) (append-ne-nil_of_right_ne-nil _ (cons-ne-nil _ _))
  | no p ↦ rw (dif_neg _ p) (cons-ne-nil _ _)
]

decimal-IsPlain : (n : ℕ) → IsPlain (decimal n)
unfolding decimal
decimal-IsPlain n = decimal_acc-IsPlain n (lt_wf.apply n)

pub parse_uint-decimal : (n : ℕ) → n ≤ max_uint64 → parse_uint (decimal n) ≡ some n
unfolding decimal
parse_uint-decimal n h =
    parse-scan _ n (scan-decimal_acc n (lt_wf.apply n) h) (decimal_acc-nonempty n (lt_wf.apply n))

-- The text of a lease whose ride id and token hold no colon, and whose version is a uint64, is
-- parsed back to the lease.
pub parse_lease_value-lease_string :
    (l : LeaseValue)
    → IsPlain l.ride_id
    → IsPlain l.token
    → l.version ≤ max_uint64
    → parse_lease_value (lease_string l) ≡ ok l
unfolding parse_lease_value lease_string lease_of_parts
parse_lease_value-lease_string l hr ht hv = rw (
  split-text l.ride_id (l.token <> ":" <> decimal l.version) hr,
  split-text l.token (decimal l.version) ht,
  split-plain (decimal l.version) (decimal-IsPlain l.version),
  lease_of_parts,
  parse_uint-decimal l.version hv,
)
