-- ===== src/Auth.antt =====
-- internal/auth/auth.go: tokens and roles. The JWT library is a parameter, with what it documents; a
-- time is in milliseconds and a date in a token in whole seconds. Lifetimes are not negative here.
pub mod Laws
use nexus_dispatch.Prelude.{
  ℕ, ◌+◌, ◌*◌, ◌/◌, ◌≤◌, ◌<◌, ◌≡◌, Bool, true, false, ◌||◌, Option, none, some, List, [], ◌∷◌,
  String, ◌==◌, eqb, if◌then◌else◌,
}

-- `Role`
abbrev pub Role : Type 0
Role = String

abbrev pub role_user : Role
role_user = "USER"

abbrev pub role_driver : Role
role_driver = "DRIVER"

abbrev pub role_admin : Role
role_admin = "ADMIN"

-- `Claims`, with the registered claims that the code sets.
pub record Claims : Type 0 where
  pub user_id : String
  pub role : Role
  pub issuer : String
  pub subject : String
  pub issued_at : Option ℕ
  pub expires_at : Option ℕ

-- The signing method in the header of a token.
pub record Method : Type 0 where
  pub hmac : Bool
  pub alg : String

abbrev pub hs256 : Method
hs256 = record { hmac = true; alg = "HS256" }

abbrev pub contains : String → List String → Bool
contains t [] = false
contains t (x ∷ xs) = (x == t) || contains t xs

-- The parts of package jwt that the code calls: `SignedString` by HS256, and `ParseWithClaims` with a
-- key function, an issuer, the methods that are accepted, and the time. It answers the claims and
-- the token's `Valid`.
pub record Jwt : Type 0 where
  pub sign : String → Claims → Option String
  pub parse : (Method → Option String) → String → List String → ℕ → String → Option (Claims × Bool)

-- What package jwt documents: a token that was signed by a key is read by that key, until it is over
-- and not afterwards, where its method and its issuer are the ones asked for.
pub record IsJwt (J : Jwt) : Type 0 where
  pub parse-sign :
      (f : Method → Option String) (key iss : String) (methods : List String) (now : ℕ) (c : Claims)
      (e : ℕ) (tok : String)
      → J.sign key c ≡ some tok
      → f hs256 ≡ some key
      → c.issuer ≡ iss
      → contains "HS256" methods ≡ true
      → c.expires_at ≡ some e
      → now < e * 1000
      → J.parse f iss methods now tok ≡ some (c, true)
  pub parse-over :
      (f : Method → Option String) (key iss : String) (methods : List String) (now : ℕ) (c : Claims)
      (e : ℕ) (tok : String)
      → J.sign key c ≡ some tok
      → c.expires_at ≡ some e
      → e * 1000 ≤ now
      → J.parse f iss methods now tok ≡ none

-- `Issuer`
abbrev pub the_issuer : String
the_issuer = "nexus-dispatch"

-- `TokenManager`
pub record TokenManager : Type 0 where
  pub secret : String
  pub issuer : String
  pub expiry : ℕ

-- `NewTokenManager`
unfoldable pub new_token_manager : String → ℕ → TokenManager
new_token_manager secret expiry = record {
  secret = secret;
  issuer = the_issuer;
  expiry = if eqb expiry 0 then 24 * 60 * 60 * 1000 else expiry;
}

-- The claims that `Issue` signs; `jwt.NewNumericDate` cuts a time to whole seconds.
unfoldable pub claims_of : TokenManager → String → Role → ℕ → Claims
claims_of m user role now = record {
  user_id = user;
  role = role;
  issuer = m.issuer;
  subject = user;
  issued_at = some (now / 1000);
  expires_at = some ((now + m.expiry) / 1000);
}

-- The key function of `Verify`.
unfoldable pub key_of : TokenManager → Method → Option String
key_of m t = if t.hmac then some m.secret else none

-- The claims of a token that was parsed, unless it is not valid.
unfoldable pub accepted : Option (Claims × Bool) → Option Claims
accepted none = none
accepted (some (c, valid)) = if valid then some c else none

module _ (J : Jwt) where
  -- `Issue`
  unfoldable pub issue : TokenManager → String → Role → ℕ → Option String
  issue m user role now = J.sign m.secret (claims_of m user role now)

  -- `Verify`; `none` is `ErrInvalid`
  unfoldable pub verify : TokenManager → ℕ → String → Option Claims
  verify m now token = accepted (J.parse (key_of m) m.issuer ("HS256" ∷ []) now token)

-- What a context carries of a request's claims.
pub record Context : Type 0 where
  pub user_id : Option String
  pub role : Option Role

abbrev pub background : Context
background = record { user_id = none; role = none }

-- `ContextWithClaims`
unfoldable pub context_with_claims : Context → Claims → Context
context_with_claims ctx c = record ctx { user_id = some c.user_id; role = some c.role }

abbrev text_or_empty : Option String → String
text_or_empty none = ""
text_or_empty (some s) = s

-- `UserIDFromContext`
unfoldable pub user_id_from_context : Context → String
user_id_from_context ctx = text_or_empty ctx.user_id

-- `RoleFromContext`
unfoldable pub role_from_context : Context → Role
role_from_context ctx = text_or_empty ctx.role

-- The loop of `RequireRole`, true where it returns nil.
unfoldable pub one_of : Role → List Role → Bool
one_of r [] = false
one_of r (allowed ∷ roles) = let rest = one_of r roles in if r == allowed then true else rest

-- `RequireRole`
unfoldable pub require_role : Context → List Role → Bool
require_role ctx roles = one_of (role_from_context ctx) roles
