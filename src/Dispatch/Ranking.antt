-- ===== src/Dispatch/Ranking.antt =====
-- What the ranking of internal/dispatch/engine.go depends on, and what a whole dispatch does.
use nexus_dispatch.Prelude.{ℕ, ◌+◌, ◌≡◌, arith, ltb}
use nexus_dispatch.Prelude.Int.{ℤ, ltb_ℤ, int_laws}
use nexus_dispatch.Hot.Store.Search.{DriverPos}
use nexus_dispatch.Dispatch.{Config, score_one}

ltb-ext : (a b c d : ℕ) → a + d ≡ c + b → ltb a b ≡ ltb c d
ltb-ext a b c d e = ground (arith, e)

-- The age of the request never decides which of two candidates is tried first.
pub score_one_age :
    (cfg : Config) (x y : ℤ) (a b : DriverPos)
    → ltb_ℤ (score_one cfg x a).score (score_one cfg x b).score
      ≡ ltb_ℤ (score_one cfg y a).score (score_one cfg y b).score
unfolding score_one
score_one_age cfg x y a b = ltb-ext _ _ _ _ (omega (int_laws))
