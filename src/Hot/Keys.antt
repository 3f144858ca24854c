-- ===== src/Hot/Keys.antt =====
-- internal/redis/keys.go: the names of the keys. That keys of different kinds or of different ids
-- are different is proved below, for ids with no colon where an id ends the key.
use Prim.Native.Char.{code}
use Prim.Native.String.append
use nexus_dispatch.Prelude.{
  ℕ, zero, suc, ◌+◌, ◌<◌, ◌≡◌, refl, sym, ap, ◌∙◌, ◌≢◌, Bool, true, false, ◌||◌, String, ◌<>◌,
  arith, eqb, append_cancel_left, append_cancel_right,
}

unfoldable pub driver_key : String → String
driver_key id = "driver:" <> id

unfoldable pub driver_loc_key : String → String
driver_loc_key id = "driver:" <> id <> ":loc"

unfoldable pub driver_lease_key : String → String
driver_lease_key id = "driver:" <> id <> ":lease"

unfoldable pub driver_seq_key : String → String
driver_seq_key id = "seq:" <> id

unfoldable pub cell_key : String → String
cell_key cell = "h3:" <> cell <> ":drivers"

unfoldable pub geo_key : String
geo_key = "geo:drivers"

unfoldable pub ride_key : String → String
ride_key id = "ride:" <> id

unfoldable pub rate_limit_key : String → String → String
rate_limit_key scope id = "ratelimit:" <> scope <> ":" <> id

-- The code of the n-th character, 0 past the end.
char_code : ℕ → String → ℕ
char_code n String.[] = 0
char_code zero (String.◌∷◌ c s) = code c
char_code (suc n) (String.◌∷◌ c s) = char_code n s

-- How many characters, over the numbers of a recursion that proofs can follow.
size : String → ℕ
size String.[] = 0
size (String.◌∷◌ c s) = suc (size s)

char_code-append : (n : ℕ) (s t : String) → n < size s → char_code n (s <> t) ≡ char_code n s
unfolding char_code size
char_code-append n String.[] t h = absurd (omega arith)
char_code-append zero (String.◌∷◌ c s) t h = rw append.cons
char_code-append (suc n) (String.◌∷◌ c s) t h =
    rw append.cons (char_code-append n s t (omega arith))

last_code : ℕ → String → ℕ
last_code d String.[] = d
last_code d (String.◌∷◌ c s) = last_code (code c) s

last_code-append : (s t : String) (d e : ℕ) → 0 < size t → last_code d (s <> t) ≡ last_code e t
unfolding last_code size
last_code-append String.[] String.[] d e h = absurd (omega arith)
last_code-append String.[] (String.◌∷◌ c t) d e h = rw append.nil
last_code-append (String.◌∷◌ c s) t d e h = rw append.cons (last_code-append s t _ e h)

unfoldable pub has_colon : String → Bool
has_colon String.[] = false
has_colon (String.◌∷◌ c s) = eqb (code c) b':' || has_colon s

has_colon-append : (s t : String) → has_colon t ≡ true → has_colon (s <> t) ≡ true
unfolding has_colon
has_colon-append String.[] t h = rw append.nil h
has_colon-append (String.◌∷◌ c s) t h = rw append.cons (ground (arith, has_colon-append s t h))

-- An id that no key suffix can be part of.
abbrev pub IsPlain : String → Type 0
IsPlain s = has_colon s ≡ false

size-append : (s t : String) → size (s <> t) ≡ size s + size t
unfolding size
size-append String.[] t = rw append.nil (omega arith)
size-append (String.◌∷◌ c s) t = rw append.cons (omega (arith, size-append s t))

append_ne_self : (s t : String) → 0 < size t → s ≢ s <> t
append_ne_self s t h e = omega (arith, size-append s t, ap size e)

suffix_ne :
    (a b s t : String) → 0 < size s → 0 < size t → last_code 0 s ≢ last_code 0 t → a <> s ≢ b <> t
suffix_ne a b s t hs ht d e =
    d (sym (last_code-append a s 0 0 hs) ∙ ap (last_code 0) e ∙ last_code-append b t 0 0 ht)

pub driver_key-inj : (a b : String) → driver_key a ≡ driver_key b → a ≡ b
unfolding driver_key
driver_key-inj a b e = append_cancel_left "driver:" a b e

pub driver_lease_key-inj : (a b : String) → driver_lease_key a ≡ driver_lease_key b → a ≡ b
unfolding driver_lease_key
driver_lease_key-inj a b e = append_cancel_right a b ":lease" (append_cancel_left "driver:" _ _ e)

pub driver_loc_key-inj : (a b : String) → driver_loc_key a ≡ driver_loc_key b → a ≡ b
unfolding driver_loc_key
driver_loc_key-inj a b e = append_cancel_right a b ":loc" (append_cancel_left "driver:" _ _ e)

pub driver_seq_key-inj : (a b : String) → driver_seq_key a ≡ driver_seq_key b → a ≡ b
unfolding driver_seq_key
driver_seq_key-inj a b e = append_cancel_left "seq:" a b e

pub cell_key-inj : (a b : String) → cell_key a ≡ cell_key b → a ≡ b
unfolding cell_key
cell_key-inj a b e = append_cancel_right a b ":drivers" (append_cancel_left "h3:" _ _ e)

pub driver_lease_key-ne-driver_key_self : (a : String) → driver_lease_key a ≢ driver_key a
unfolding driver_key driver_lease_key size
driver_lease_key-ne-driver_key_self a e =
    append_ne_self a ":lease" (omega arith) (sym (append_cancel_left "driver:" _ _ e))

pub driver_loc_key-ne-driver_lease_key : (a b : String) → driver_loc_key a ≢ driver_lease_key b
unfolding driver_loc_key driver_lease_key size last_code
driver_loc_key-ne-driver_lease_key a b e =
    suffix_ne a b ":loc" ":lease" (omega arith) (omega arith) (omega arith)
      (append_cancel_left "driver:" _ _ e)

-- A plain id's own key is no other driver's lease or position.
pub driver_lease_key-ne-driver_key : (a b : String) → IsPlain b → driver_lease_key a ≢ driver_key b
unfolding driver_key driver_lease_key has_colon
driver_lease_key-ne-driver_key a b p e =
    cc (p, ap has_colon (append_cancel_left "driver:" _ _ e), has_colon-append a ":lease" refl)

pub driver_loc_key-ne-driver_key : (a b : String) → IsPlain b → driver_loc_key a ≢ driver_key b
unfolding driver_key driver_loc_key has_colon
driver_loc_key-ne-driver_key a b p e =
    cc (p, ap has_colon (append_cancel_left "driver:" _ _ e), has_colon-append a ":loc" refl)

first_ne : (m n : ℕ) (s t : String) → char_code 0 s ≡ m → char_code 0 t ≡ n → m ≢ n → s ≢ t
first_ne m n s t hs ht d e = d (sym hs ∙ ap (char_code 0) e ∙ ht)

first_driver : (s : String) → char_code 0 ("driver:" <> s) ≡ b'd'
unfolding char_code size
first_driver s = char_code-append 0 "driver:" s (omega arith)

first_seq : (s : String) → char_code 0 ("seq:" <> s) ≡ b's'
unfolding char_code size
first_seq s = char_code-append 0 "seq:" s (omega arith)

first_cell : (s : String) → char_code 0 ("h3:" <> s) ≡ b'h'
unfolding char_code size
first_cell s = char_code-append 0 "h3:" s (omega arith)

first_ride : (s : String) → char_code 0 ("ride:" <> s) ≡ b'r'
unfolding char_code size
first_ride s = char_code-append 0 "ride:" s (omega arith)

pub driver_seq_key-ne-driver_loc_key : (a b : String) → driver_seq_key a ≢ driver_loc_key b
unfolding driver_seq_key driver_loc_key
driver_seq_key-ne-driver_loc_key a b =
    first_ne b's' b'd' _ _ (first_seq a) (first_driver _) (omega arith)

pub driver_seq_key-ne-cell_key : (a b : String) → driver_seq_key a ≢ cell_key b
unfolding driver_seq_key cell_key
driver_seq_key-ne-cell_key a b = first_ne b's' b'h' _ _ (first_seq a) (first_cell _) (omega arith)

pub driver_loc_key-ne-cell_key : (a b : String) → driver_loc_key a ≢ cell_key b
unfolding driver_loc_key cell_key
driver_loc_key-ne-cell_key a b =
    first_ne b'd' b'h' _ _ (first_driver _) (first_cell _) (omega arith)

pub driver_seq_key-ne-geo_key : (a : String) → driver_seq_key a ≢ geo_key
unfolding driver_seq_key geo_key char_code
driver_seq_key-ne-geo_key a = first_ne b's' b'g' _ _ (first_seq a) refl (omega arith)

pub driver_loc_key-ne-geo_key : (a : String) → driver_loc_key a ≢ geo_key
unfolding driver_loc_key geo_key char_code
driver_loc_key-ne-geo_key a = first_ne b'd' b'g' _ _ (first_driver (a <> ":loc")) refl (omega arith)

pub cell_key-ne-geo_key : (a : String) → cell_key a ≢ geo_key
unfolding cell_key geo_key char_code
cell_key-ne-geo_key a = first_ne b'h' b'g' _ _ (first_cell (a <> ":drivers")) refl (omega arith)

pub driver_key-ne-ride_key : (a b : String) → driver_key a ≢ ride_key b
unfolding driver_key ride_key
driver_key-ne-ride_key a b = first_ne b'd' b'r' _ _ (first_driver a) (first_ride b) (omega arith)

pub driver_lease_key-ne-ride_key : (a b : String) → driver_lease_key a ≢ ride_key b
unfolding driver_lease_key ride_key
driver_lease_key-ne-ride_key a b =
    first_ne b'd' b'r' _ _ (first_driver _) (first_ride b) (omega arith)

pub driver_seq_key-ne-driver_key : (a b : String) → driver_seq_key a ≢ driver_key b
unfolding driver_seq_key driver_key
driver_seq_key-ne-driver_key a b =
    first_ne b's' b'd' _ _ (first_seq a) (first_driver _) (omega arith)

pub driver_lease_key-ne-cell_key : (a b : String) → driver_lease_key a ≢ cell_key b
unfolding driver_lease_key cell_key
driver_lease_key-ne-cell_key a b =
    first_ne b'd' b'h' _ _ (first_driver _) (first_cell _) (omega arith)

first_ip : (s : String) → char_code 0 ("ip" <> s) ≡ b'i'
unfolding char_code size
first_ip s = char_code-append 0 "ip" s (omega arith)

first_user : (s : String) → char_code 0 ("user" <> s) ≡ b'u'
unfolding char_code size
first_user s = char_code-append 0 "user" s (omega arith)

pub rate_limit_key-inj : (s a b : String) → rate_limit_key s a ≡ rate_limit_key s b → a ≡ b
unfolding rate_limit_key
rate_limit_key-inj s a b e =
    append_cancel_left ":" a b
      (append_cancel_left s (":" <> a) (":" <> b) (append_cancel_left "ratelimit:" _ _ e))

-- No user shares a bucket with an address.
pub rate_limit_key-ip_ne_user : (a b : String) → rate_limit_key "ip" a ≢ rate_limit_key "user" b
unfolding rate_limit_key
rate_limit_key-ip_ne_user a b e =
    first_ne b'i' b'u' ("ip" <> ":" <> a) ("user" <> ":" <> b) (first_ip _) (first_user _)
      (omega arith) (append_cancel_left "ratelimit:" _ _ e)

first_rate : (s : String) → char_code 0 ("ratelimit:" <> s) ≡ b'r'
unfolding char_code size
first_rate s = char_code-append 0 "ratelimit:" s (omega arith)

-- The code of the first letter of a key.
pub first_code : String → ℕ
first_code s = char_code 0 s

pub first_code-driver_key : (a : String) → first_code (driver_key a) ≡ b'd'
unfolding driver_key first_code
first_code-driver_key a = first_driver a

pub first_code-driver_loc_key : (a : String) → first_code (driver_loc_key a) ≡ b'd'
unfolding driver_loc_key first_code
first_code-driver_loc_key a = first_driver _

pub first_code-driver_lease_key : (a : String) → first_code (driver_lease_key a) ≡ b'd'
unfolding driver_lease_key first_code
first_code-driver_lease_key a = first_driver _

pub first_code-driver_seq_key : (a : String) → first_code (driver_seq_key a) ≡ b's'
unfolding driver_seq_key first_code
first_code-driver_seq_key a = first_seq a

pub first_code-cell_key : (a : String) → first_code (cell_key a) ≡ b'h'
unfolding cell_key first_code
first_code-cell_key a = first_cell _

pub first_code-geo_key : first_code geo_key ≡ b'g'
unfolding geo_key first_code char_code
first_code-geo_key = refl

pub first_code-ride_key : (a : String) → first_code (ride_key a) ≡ b'r'
unfolding ride_key first_code
first_code-ride_key a = first_ride a

pub first_code-rate_limit_key : (s a : String) → first_code (rate_limit_key s a) ≡ b'r'
unfolding rate_limit_key first_code
first_code-rate_limit_key s a = first_rate _

-- An id that differs from this one.
abbrev pub other_than : String → String
other_than id = id <> "x"

pub other_than_ne : (id : String) → other_than id ≢ id
unfolding size
other_than_ne id e = append_ne_self id "x" (omega arith) (sym e)
