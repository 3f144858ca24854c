-- ===== src/Commands/Counts.antt =====
-- How often the steps of a command open and close a part, and what the end of `server.Run`
-- (internal/server/server.go) adds to that.
use nexus_dispatch.Prelude.{
  ℕ, ◌+◌, ◌≡◌, refl, ap, inl, inr, Bool, true, false, List, [], ◌∷◌, ◌++◌, arith, Bool-cases,
  if◌then◌else◌,
}
use nexus_dispatch.Config.{Config}
use nexus_dispatch.Connect.{
  Part, pool, redis_client, producer, dlq, Touch, opens, closes, Clients, close,
}
use nexus_dispatch.Bootstrap.Starts.{run-stopped}
use nexus_dispatch.Bootstrap.{Result, stopped, run, wants_http, open_http, serve_and_stop, prepare}
use nexus_dispatch.Commands.{
  Step, touches, does, consumes, End, ran, Site, touching, steps_of, deps_of, serve,
}

abbrev pub same_part : Part → Part → Bool
same_part redis_client redis_client = true
same_part pool pool = true
same_part producer producer = true
same_part dlq dlq = true
same_part _ _ = false

abbrev pub one_if : Bool → ℕ
one_if true = 1
one_if false = 0

-- How often a part is opened, and how often it is closed.
abbrev pub opened : Part → List Step → ℕ
opened p [] = 0
opened p (touches (opens q) ∷ s) = one_if (same_part p q) + opened p s
opened p (x ∷ s) = opened p s

abbrev pub closed : Part → List Step → ℕ
closed p [] = 0
closed p (touches (closes q) ∷ s) = one_if (same_part p q) + closed p s
closed p (x ∷ s) = closed p s

pub opened-append : (p : Part) (s t : List Step) → opened p (s ++ t) ≡ opened p s + opened p t
opened-append p [] t = omega arith
opened-append p (touches (opens q) ∷ s) t = omega (arith, opened-append p s t)
opened-append p (touches (closes q) ∷ s) t = opened-append p s t
opened-append p (does a ∷ s) t = opened-append p s t
opened-append p (consumes a b ∷ s) t = opened-append p s t

pub closed-append : (p : Part) (s t : List Step) → closed p (s ++ t) ≡ closed p s + closed p t
closed-append p [] t = omega arith
closed-append p (touches (opens q) ∷ s) t = closed-append p s t
closed-append p (touches (closes q) ∷ s) t = omega (arith, closed-append p s t)
closed-append p (does a ∷ s) t = closed-append p s t
closed-append p (consumes a b ∷ s) t = closed-append p s t

close-opens_nothing : (c : Clients) (p : Part) → opened p (touching (close c)) ≡ 0
unfolding close
close-opens_nothing c p = ground arith

-- The last step of `server.Run`, before which it opens and closes nothing.
closing :
    (c : Clients) (p : Part)
    → (opened p (touching (close c) ++ []) ≡ 0)
      × (closed p (touching (close c) ++ []) ≡ closed p (touching (close c)))
closing c p = (
  omega (arith, opened-append p (touching (close c)) [], close-opens_nothing c p),
  omega (arith, closed-append p (touching (close c)) []),
)

-- A run that ends by the signal closes the clients that it was given, and opens nothing.
pub serve-closes :
    (site : Site) (cfg : Config) (c : Clients) (p : Part)
    → (serve site cfg c).1 ≡ ran stopped
    → (opened p (serve site cfg c).0 ≡ 0)
      × (closed p (serve site cfg c).0 ≡ closed p (touching (close c)))
unfolding serve run open_http serve_and_stop steps_of prepare
serve-closes site cfg c p e =
    let (g, a, h) = (run-stopped site.can_listen (deps_of cfg)).0 (ended e) in
    elim (Bool-cases (wants_http (deps_of cfg))) [
      | inr w ↦ rw (g, a, w) (closing c p)
      | inl w ↦ elim h [ inl n ↦ absurd (cc (w, n)) | inr l ↦ rw (g, a, w, l) (closing c p) ]
    ]
  where
    result_of : End → Result
    result_of (ran r) = r
    result_of _ = stopped

    ended : (serve site cfg c).1 ≡ ran stopped → (run site.can_listen (deps_of cfg)).1 ≡ stopped
    ended k = ap result_of k

abbrev pub held : Bool → Part → Part → ℕ
held b q p = if b then one_if (same_part p q) else 0

pub close-counts :
    (c : Clients) (p : Part)
    → closed p (touching (close c))
      ≡ held c.has_producer producer p
        + held c.has_dlq dlq p
        + held c.has_postgres pool p
        + held c.has_redis redis_client p
unfolding close
close-counts c p = ground arith

pub touching-append : (ts us : List Touch) → touching (ts ++ us) ≡ touching ts ++ touching us
touching-append [] us = refl
touching-append (t ∷ ts) us = ap (λ (x : List Step). touches t ∷ x) (touching-append ts us)
