-- ===== src/Hot/Schema.antt =====
-- Which type of value each key of internal/redis/keys.go holds.
pub mod Typed
pub mod Written
pub mod Kept
pub mod Answers
use nexus_dispatch.Prelude.{
  ℕ, ◌≡◌, refl, sym, ap, ◌∙◌, ◌⊎◌, inl, inr, eqb, String, arith, if◌then◌else◌,
}
use nexus_dispatch.Redis.{text, int, Value, absent, str, hash, set, geo}
use nexus_dispatch.Hot.Keys.{
  IsPlain, driver_key, driver_loc_key, driver_lease_key, driver_seq_key, cell_key, geo_key,
  ride_key, rate_limit_key, driver_lease_key-ne-driver_key, driver_loc_key-ne-driver_lease_key,
  first_code, first_code-driver_key, first_code-driver_loc_key, first_code-driver_lease_key,
  first_code-driver_seq_key, first_code-cell_key, first_code-geo_key, first_code-ride_key,
  first_code-rate_limit_key,
}

pub data Key : Type 0 where
  profile position lease guard cell : String → Key
  points : Key
  ride : String → Key
  bucket : String → String → Key

abbrev pub name : Key → String
name (profile id) = driver_key id
name (position id) = driver_loc_key id
name (lease id) = driver_lease_key id
name (guard id) = driver_seq_key id
name (cell c) = cell_key c
name points = geo_key
name (ride id) = ride_key id
name (bucket scope id) = rate_limit_key scope id

-- The key of a driver's profile is told from others only for plain ids.
abbrev pub IsKey : Key → Type 0
IsKey (profile id) = IsPlain id
IsKey _ = Unit

pub data Kind : Type 0 where
  table number string members places : Kind

abbrev pub kind : Key → Kind
kind (profile id) = table
kind (position id) = table
kind (lease id) = string
kind (guard id) = number
kind (cell c) = members
kind points = places
kind (ride id) = table
kind (bucket scope id) = table

abbrev pub HasKind : Kind → Value → Type 0
HasKind k absent = Unit
HasKind table (hash m) = Unit
HasKind number (str (int n)) = Unit
HasKind string (str (text s)) = Unit
HasKind members (set s) = Unit
HasKind places (geo g) = Unit
HasKind _ _ = ⊥

-- The first letter of a key, and whether it is a lease, say its kind.
abbrev letter : Key → ℕ
letter (profile id) = b'd'
letter (position id) = b'd'
letter (lease id) = b'd'
letter (guard id) = b's'
letter (cell c) = b'h'
letter points = b'g'
letter (ride id) = b'r'
letter (bucket scope id) = b'r'

letter_lem : (k : Key) → first_code (name k) ≡ letter k
letter_lem (profile id) = first_code-driver_key id
letter_lem (position id) = first_code-driver_loc_key id
letter_lem (lease id) = first_code-driver_lease_key id
letter_lem (guard id) = first_code-driver_seq_key id
letter_lem (cell c) = first_code-cell_key c
letter_lem points = first_code-geo_key
letter_lem (ride id) = first_code-ride_key id
letter_lem (bucket scope id) = first_code-rate_limit_key scope id

pub same_letter : (j k : Key) → name j ≡ name k → letter j ≡ letter k
same_letter j k e = sym (letter_lem j) ∙ ap first_code e ∙ letter_lem k

lease-kind : (id : String) (k : Key) → IsKey k → name (lease id) ≡ name k → kind k ≡ string
lease-kind id (profile j) p e = absurd (driver_lease_key-ne-driver_key id j p e)
lease-kind id (position j) p e = absurd (driver_loc_key-ne-driver_lease_key j id (sym e))
lease-kind id (lease j) p e = refl
lease-kind id (guard j) p e = absurd (ground (arith, same_letter (lease id) (guard j) e))
lease-kind id (cell c) p e = absurd (ground (arith, same_letter (lease id) (cell c) e))
lease-kind id points p e = absurd (ground (arith, same_letter (lease id) points e))
lease-kind id (ride j) p e = absurd (ground (arith, same_letter (lease id) (ride j) e))
lease-kind id (bucket s j) p e = absurd (ground (arith, same_letter (lease id) (bucket s j) e))

abbrev plain_kind : ℕ → Kind
plain_kind l =
    if eqb l b's'
    then number
    else if eqb l b'h'
    then members
    else if eqb l b'g'
    then places
    else table

lease_or_plain : (k : Key) → ((id : String) × (k ≡ lease id)) ⊎ (kind k ≡ plain_kind (letter k))
lease_or_plain (lease id) = inl (id, refl)
lease_or_plain (profile id) = inr refl
lease_or_plain (position id) = inr refl
lease_or_plain (guard id) = inr refl
lease_or_plain (cell c) = inr refl
lease_or_plain points = inr refl
lease_or_plain (ride id) = inr refl
lease_or_plain (bucket s id) = inr refl

-- Keys with the same name hold values of the same kind.
pub name-kind : (j k : Key) → IsKey j → IsKey k → name j ≡ name k → kind j ≡ kind k
name-kind j k p q e = elim (lease_or_plain j) [
  | inl (id, f) ↦ ap kind f ∙ sym (lease-kind id k q (sym (ap name f) ∙ e))
  | inr f ↦ elim (lease_or_plain k) [
    | inl (id, g) ↦ lease-kind id j p (sym (ap name g) ∙ sym e) ∙ sym (ap kind g)
    | inr g ↦ f ∙ ap plain_kind (same_letter j k e) ∙ sym g
  ]
]
