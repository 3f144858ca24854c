-- ===== src/Auth/Laws.antt =====
-- Tokens that are issued and verified, and roles (internal/auth/auth.go).
use nexus_dispatch.Prelude.{
  ℕ, ◌+◌, ◌*◌, ◌/◌, ◌≡◌, refl, true, none, some, List, [], ◌∷◌, inl, inr, ◌⊎◌, ◌↔◌, String,
  string_dec, arith, dec_lt, ltb, if◌then◌else◌,
}
use nexus_dispatch.Auth.{
  Role, Claims, Jwt, IsJwt, TokenManager, claims_of, key_of, accepted, issue, verify, Context,
  context_with_claims, role_from_context, one_of, require_role,
}

module _ (J : Jwt) (L : IsJwt J) where
  -- Over a JWT library that reads what it signs, a token that was issued is verified to the claims
  -- of its user and role before the second in which it expires, and to an error from then on.
  pub verify-issue :
      (m : TokenManager) (user : String) (role : Role) (issued now : ℕ) (tok : String)
      → issue J m user role issued ≡ some tok
      → verify J m now tok ≡ (
          if ltb now ((issued + m.expiry) / 1000 * 1000)
          then some (claims_of m user role issued)
          else none)
  unfolding issue verify claims_of key_of accepted string_dec
  verify-issue m user role issued now tok h =
      elim (dec_lt now ((issued + m.expiry) / 1000 * 1000)) [
        | yes lt ↦ ground (
          arith,
          L.parse-sign (key_of m) m.secret m.issuer ("HS256" ∷ []) now
              (claims_of m user role issued) ((issued + m.expiry) / 1000) tok h refl refl refl refl
              lt,
        )
        | no ge ↦ ground (
          arith,
          L.parse-over (key_of m) m.secret m.issuer ("HS256" ∷ []) now
              (claims_of m user role issued) ((issued + m.expiry) / 1000) tok h refl (omega arith),
        )
      ]

-- The role is one of the list.
abbrev pub OneOf : Role → List Role → Type 0
OneOf r [] = ⊥
OneOf r (x ∷ xs) = (r ≡ x) ⊎ OneOf r xs

one_of-OneOf : (r : Role) (roles : List Role) → one_of r roles ≡ true → OneOf r roles
unfolding one_of
one_of-OneOf r [] e = ground arith
one_of-OneOf r (x ∷ xs) e = elim (string_dec r x) [
  | yes p ↦ inl p
  | no n ↦ inr (one_of-OneOf r xs (ground arith))
]

OneOf-one_of : (r : Role) (roles : List Role) → OneOf r roles → one_of r roles ≡ true
unfolding one_of
OneOf-one_of r [] h = elim h [ ]
OneOf-one_of r (x ∷ xs) (inl p) = ground arith
OneOf-one_of r (x ∷ xs) (inr h) = ground (arith, OneOf-one_of r xs h)

-- A context with claims passes exactly where their role is one of those allowed.
pub require_role_iff :
    (ctx : Context) (c : Claims) (roles : List Role)
    → (require_role (context_with_claims ctx c) roles ≡ true) ↔ OneOf c.role roles
unfolding require_role context_with_claims role_from_context
require_role_iff ctx c roles = (one_of-OneOf c.role roles, OneOf-one_of c.role roles)
