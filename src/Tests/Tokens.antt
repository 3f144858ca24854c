-- ===== src/Tests/Tokens.antt =====
-- A signer of tokens for users of a day, which reads what it signs, and the theorems on tokens with it.
use mathlib.Core.Option.{some-injective}
use nexus_dispatch.Prelude.{
  ℕ, ◌+◌, ◌*◌, ◌/◌, ◌≤◌, ◌<◌, ◌≡◌, refl, ap, sym, ◌∙◌, Bool, true, false, ◌&&◌, Option, none, some,
  List, inl, inr, Bool-cases, String, string_dec, ◌==◌, ◌<>◌, ==-refl, arith, ltb, eqb,
  if◌then◌else◌, cut_prefix, cut_prefix-append,
}
use nexus_dispatch.Auth.{
  Claims, Method, hs256, contains, Jwt, IsJwt, the_issuer, TokenManager, claims_of, issue, verify,
}
use nexus_dispatch.Auth.Laws.{verify-issue}

abbrev pub sample : String → Claims
sample user = record {
  user_id = user;
  role = "USER";
  issuer = the_issuer;
  subject = user;
  issued_at = some 0;
  expires_at = some 86400;
}

abbrev is_number : ℕ → Option ℕ → Bool
is_number n none = false
is_number n (some m) = eqb m n

unfoldable pub fits : Claims → Bool
fits c =
    c.role == "USER"
    && c.issuer == the_issuer
    && c.subject == c.user_id
    && is_number 0 c.issued_at
    && is_number 86400 c.expires_at

number-eq : (n : ℕ) (o : Option ℕ) → is_number n o ≡ true → o ≡ some n
number-eq n none e = ground arith
number-eq n (some m) e = ground arith

built :
    (c : Claims) (a b d : String) (i e : Option ℕ)
    → c.role ≡ a
    → c.issuer ≡ b
    → c.subject ≡ d
    → c.issued_at ≡ i
    → c.expires_at ≡ e
    → c ≡ record {
      user_id = c.user_id;
      role = a;
      issuer = b;
      subject = d;
      issued_at = i;
      expires_at = e;
    }
built c a b d i e p q r s t = rw (sym p, sym q, sym r, sym s, sym t) refl

fits-sample : (c : Claims) → fits c ≡ true → c ≡ sample c.user_id
unfolding fits
fits-sample c e =
    built c _ _ _ _ _ (ground arith) (ground arith) (ground arith)
      (number-eq 0 c.issued_at (ground arith)) (number-eq 86400 c.expires_at (ground arith))

abbrev read : Option String → Bool → Option (Claims × Bool)
read none b = none
read (some u) b = if b then some (sample u, true) else none

abbrev with_key : Option String → String → Bool → Option (Claims × Bool)
with_key none tok b = none
with_key (some key) tok b = read (cut_prefix key tok) b

abbrev pub signer : Jwt
signer = record {
  sign = λ key c. if fits c then some (key <> c.user_id) else none;
  parse = λ f iss methods now tok.
      with_key (f hs256) tok (iss == the_issuer && contains "HS256" methods && ltb now 86400000);
}

signed :
    (key : String) (c : Claims) (tok : String)
    → signer.sign key c ≡ some tok
    → (c ≡ sample c.user_id) × (tok ≡ key <> c.user_id)
signed key c tok h = elim (Bool-cases (fits c)) [
  | inl e ↦ (fits-sample c e, ground arith)
  | inr e ↦ ground arith
]

day_left : (e now : ℕ) → 86400 ≡ e → now < e * 1000 → ltb now 86400000 ≡ true
day_left e now p lt = ground arith

day_over : (e now : ℕ) → 86400 ≡ e → e * 1000 ≤ now → ltb now 86400000 ≡ false
day_over e now p le = ground arith

-- In time, what was signed is read.
reads :
    (f : Method → Option String) (key iss user : String) (methods : List String) (now : ℕ)
    → f hs256 ≡ some key
    → the_issuer ≡ iss
    → contains "HS256" methods ≡ true
    → ltb now 86400000 ≡ true
    → signer.parse f iss methods now (key <> user) ≡ some (sample user, true)
reads f key iss user methods now k i m lt =
    rw (k, cut_prefix-append key user, m, lt, sym i, ==-refl the_issuer) refl

unread : (o : Option String) (tok : String) → with_key o tok false ≡ none
unread none tok = refl
unread (some key) tok = last (cut_prefix key tok)
  where
    last : (o : Option String) → read o false ≡ none
    last none = refl
    last (some u) = refl

-- Out of time, nothing is.
unread_late :
    (f : Method → Option String) (iss : String) (methods : List String) (now : ℕ) (tok : String)
    → ltb now 86400000 ≡ false
    → signer.parse f iss methods now tok ≡ none
unread_late f iss methods now tok lt =
    ap (with_key (f hs256) tok) (ground (arith, lt)) ∙ unread (f hs256) tok

pub signer-IsJwt : IsJwt signer
signer-IsJwt = record {
  parse-sign = λ f key iss methods now c e tok s k i m x lt.
      let (p, q) = signed key c tok s in
      rw (q) (
        reads f key iss c.user_id methods now k (sym (ap (λ (d : Claims). d.issuer) p) ∙ i) m
          (day_left e now (some-injective _ _ (sym (ap (λ (d : Claims). d.expires_at) p) ∙ x)) lt)
        ∙ ap (λ (d : Claims). some (d, true)) (sym p));
  parse-over = λ f key iss methods now c e tok s x le. unread_late f iss methods now tok (
      day_over e now
        (some-injective _ _ (sym (ap (λ (d : Claims). d.expires_at) (signed key c tok s).0) ∙ x))
        le);
}

abbrev manager : TokenManager
manager = record { secret = "key"; issuer = the_issuer; expiry = 86400000 }

verify-issue_example : verify signer manager 5000 "keyuser-ann" ≡ (
    if ltb 5000 ((0 + 86400000) / 1000 * 1000)
    then some (claims_of manager "user-ann" "USER" 0)
    else none)
unfolding issue fits string_dec claims_of
verify-issue_example =
    verify-issue signer signer-IsJwt manager "user-ann" "USER" 0 5000 "keyuser-ann" refl
