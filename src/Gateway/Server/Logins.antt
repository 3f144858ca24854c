-- ===== src/Gateway/Server/Logins.antt =====
-- From a login to the handlers behind the token check (internal/gateway/server.go, internal/auth/auth.go).
use nexus_dispatch.Prelude.{
  ℕ, ◌+◌, ◌*◌, ◌/◌, ◌<◌, ◌≡◌, ◌≢◌, ap, ◌∙◌, Bool, true, false, some, List, String, ◌<>◌, ==-ne,
  arith, cut_prefix-append, if_true, if_false, ltb,
}
use nexus_dispatch.Redis.{Redis}
use nexus_dispatch.Outcome.{Outcome}
use nexus_dispatch.Hot.Store.{rate_allow}
use nexus_dispatch.Auth.{
  Role, Jwt, IsJwt, TokenManager, issue, claims_of, Claims, background, context_with_claims,
}
use nexus_dispatch.Auth.Laws.{OneOf, require_role_iff, verify-issue}
use nexus_dispatch.Gateway.Http.{
  Request, LoginBody, Decoder, max_body, token, Response, write_json, extract_token,
}
use nexus_dispatch.Gateway.Api.{
  Services, Moment, Limits, World, bad_json, granted_role, handle_login,
}
use nexus_dispatch.Gateway.Server.{
  Handler, Mux, denied, beside, run_handler, admit, with_claims, require_auth,
}

ltb-lt : {a b : ℕ} → a < b → ltb a b ≡ true
ltb-lt lt = ground arith

module _ (R : Redis) (J : Jwt) {S Doc : Type 0} (V : Services S Doc) (D : Decoder) (mux : Mux)
    (not_routed : ℕ → Response Doc) (cfg : Limits) (tokens : TokenManager) where
  -- What a successful login says of its token.
  login-issues :
      (now : ℕ) (r : Request) (w : World S) (body : LoginBody) (tok role : String) (secs : ℕ)
      → D.login max_body r.body ≡ some body
      → (handle_login J V D cfg tokens now r w).1 ≡ write_json 200 (token tok role secs)
      → (issue J tokens ("user-" <> body.email) role now ≡ some tok)
        × (role ≡ granted_role body.role)
  unfolding handle_login bad_json
  login-issues now r w body tok role secs d e = ground arith

  token_read :
      (r : Request) (tok : String) → r.authorization ≡ "Bearer " <> tok → extract_token r ≡ tok
  unfolding extract_token
  token_read r tok e = ground (arith, cut_prefix-append "Bearer " tok)

  -- The question that is put to a user's bucket.
  abbrev pub ask_bucket : Moment → String → R.Db → R.Db × Outcome Bool
  ask_bucket t user =
      rate_allow R t.user_link "user" user cfg.user_rate_capacity cfg.user_rate_refill 1 t.now

  admit-runs :
      (roles : List Role) (h : Handler) (t : Moment) (id : String) (r : Request) (c : Claims)
      (db : R.Db) (w : World S)
      → OneOf c.role roles
      → denied (ask_bucket t c.user_id db).1 ≡ false
      → admit R J V D mux not_routed cfg tokens roles h t id r c db w
        ≡ beside (ask_bucket t c.user_id db).0 (
            run_handler R J V D mux not_routed cfg tokens h t id
              (context_with_claims background c)
              r
              w)
  unfolding admit
  admit-runs roles h t id r c db w o d =
      if_true _ _ ((require_role_iff background c roles).1 o) ∙ if_false _ _ d

  -- Over a JWT library that reads what it signs, the token of a login opens every guarded handler
  -- whose roles include the role that the login answered, until the second in which it expires and
  -- while the bucket of the user does not deny the request, and the handler sees the user of the
  -- login.
  pub login-require_auth :
      (L : IsJwt J) (issued : ℕ) (r : Request) (w : World S) (body : LoginBody) (tok role : String)
      (secs : ℕ) (roles : List Role) (h : Handler) (t : Moment) (id : String) (later : Request)
      (db : R.Db) (w' : World S)
      → D.login max_body r.body ≡ some body
      → (handle_login J V D cfg tokens issued r w).1 ≡ write_json 200 (token tok role secs)
      → later.authorization ≡ "Bearer " <> tok
      → tok ≢ ""
      → t.now < (issued + tokens.expiry) / 1000 * 1000
      → OneOf role roles
      → denied (ask_bucket t ("user-" <> body.email) db).1 ≡ false
      → require_auth R J V D mux not_routed cfg tokens roles h t id later db w'
        ≡ beside (ask_bucket t ("user-" <> body.email) db).0 (
            run_handler R J V D mux not_routed cfg tokens h t id
              (context_with_claims background
                (claims_of tokens ("user-" <> body.email) role issued))
              later
              w')
  unfolding require_auth with_claims claims_of
  login-require_auth L issued r w body tok role secs roles h t id later db w' d e a n lt o b =
      let reads = token_read later tok a in
      let (signed, same) = login-issues issued r w body tok role secs d e in
      let verified = verify-issue J L tokens ("user-" <> body.email) role issued t.now tok signed in
      rw (reads) (
        if_false _ _ (==-ne tok "" n)
        ∙ ap (λ o. with_claims R J V D mux not_routed cfg tokens o roles h t id later db w')
            (verified ∙ if_true _ _ (ltb-lt lt))
        ∙ admit-runs roles h t id later (claims_of tokens ("user-" <> body.email) role issued) db w'
            o b)
