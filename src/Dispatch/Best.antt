-- ===== src/Dispatch/Best.antt =====
-- The candidate that the loop of internal/dispatch/engine.go reserves has the best score.
use nexus_dispatch.Prelude.{
  ℕ, suc, ◌≡◌, refl, sym, ap, ◌∙◌, subst, Bool, true, false, Option, none, some, List, [], ◌∷◌, All,
  String, ◌⊎◌, inl, inr, arith, if◌then◌else◌,
}
use nexus_dispatch.Prelude.Int.{◌≤ℤ◌}
use nexus_dispatch.Redis.{Redis, IsRedis}
use nexus_dispatch.Hot.Slot.{Slot, is_reservable}
use nexus_dispatch.Reservation.{Manager, Reservation}
use nexus_dispatch.Dispatch.{Candidate, Surroundings, Attempts, won, lost, crashed, try_candidates}
use nexus_dispatch.Dispatch.Choice.{Ready, choose, Chose, try_candidates-choose}

-- The scores do not fall along the list.
abbrev pub Sorted : List Candidate → Type 0
Sorted [] = Unit
Sorted (c ∷ cs) = All (λ x. c.score ≤ℤ x.score) cs × Sorted cs

abbrev pub IsLeased : Slot → Type 0
IsLeased s = (l : String) × (s.lease ≡ some l)

-- A candidate that is leased, or no better than c.
abbrev pub NoBetter : (String → Slot) → Candidate → Candidate → Type 0
NoBetter slots c x = IsLeased (slots x.driver_id) ⊎ (c.score ≤ℤ x.score)

all-NoBetter :
    (slots : String → Slot) (c : Candidate) (xs : List Candidate)
    → All (λ x. c.score ≤ℤ x.score) xs
    → All (NoBetter slots c) xs
all-NoBetter slots c [] h = tt
all-NoBetter slots c (x ∷ xs) (p, h) = (inr p, all-NoBetter slots c xs h)

head-NoBetter :
    (slots : String → Slot) (d c : Candidate) (cs : List Candidate)
    → All (λ x. d.score ≤ℤ x.score) cs
    → d ≡ c
    → All (NoBetter slots c) (d ∷ cs)
head-NoBetter slots d c cs h e =
    subst (λ x. All (NoBetter slots x) (d ∷ cs)) e (inr (omega arith), all-NoBetter slots d cs h)

same : {c d : Candidate} → some c ≡ some d → c ≡ d
same e = cc

won_same : {c d : Candidate} {r q : Reservation} → won c r ≡ won d q → c ≡ d
won_same e = cc

none-ne-some : {c : Candidate} → none ≡ some c → ⊥
none-ne-some e = cc

choose-NoBetter :
    (slots : String → Slot) (cs : List Candidate) (c : Candidate)
    → Sorted cs
    → choose slots cs ≡ some c
    → All (NoBetter slots c) cs
unfolding choose
choose-NoBetter slots [] c s e = tt
choose-NoBetter slots (d ∷ cs) c (least, s) e =
    by_lease (slots d.driver_id).lease refl e (choose-NoBetter slots cs c s)
  where
    pick : Option String → Option Candidate
    pick l = elim l [
      | some x ↦ choose slots cs
      | none ↦ if is_reservable (slots d.driver_id).state then some d else none
    ]

    taken : (b : Bool) → (if b then some d else none) ≡ some c → All (NoBetter slots c) (d ∷ cs)
    taken true e = head-NoBetter slots d c cs least (same e)
    taken false e = elim (none-ne-some e) [ ]

    by_lease :
        (l : Option String)
        → (slots d.driver_id).lease ≡ l
        → pick l ≡ some c
        → (choose slots cs ≡ some c → All (NoBetter slots c) cs)
        → All (NoBetter slots c) (d ∷ cs)
    by_lease (some l) f e rest = (inl (l, f), rest e)
    by_lease none f e rest = taken (is_reservable (slots d.driver_id).state) e

won-choice :
    (R : Redis) (ride : String) (ttl : ℕ) (db : R.Db) (o : Option Candidate)
    (done : (Manager × R.Db) × Attempts) (c : Candidate) (r : Reservation)
    → done.1 ≡ won c r
    → Chose R ride ttl db o done
    → o ≡ some c
won-choice R ride ttl db (some x) ((m, db'), won y q) c r e (f, g, k, held) =
    ap some (sym f ∙ won_same e)
won-choice R ride ttl db (some x) ((m, db'), lost y) c r e h = elim h [ ]
won-choice R ride ttl db (some x) ((m, db'), crashed) c r e h = elim h [ ]
won-choice R ride ttl db none ((m, db'), won y q) c r e h = elim h [ ]
won-choice R ride ttl db none ((m, db'), lost y) c r e h = cc
won-choice R ride ttl db none ((m, db'), crashed) c r e h = elim h [ ]

-- If the candidates are in the order of their scores and each of them is a driver that Redis answers
-- for, then each of them has a lease or a score that is no better than that of the candidate that
-- the loop reserves.
pub try_candidates-NoBetter :
    (R : Redis) (L : IsRedis R) (world : Surroundings) (ride : String) (slots : String → Slot)
    (cs : List Candidate) (m : Manager) (t : ℕ) (db : R.Db) (c : Candidate) (r : Reservation)
    → m.ttl ≡ suc t
    → All (Ready R world slots ride db) cs
    → Sorted cs
    → (try_candidates R world ride cs none m db).1 ≡ won c r
    → All (NoBetter slots c) cs
try_candidates-NoBetter R L world ride slots cs m t db c r e h s w = choose-NoBetter slots cs c s (
    won-choice R ride m.ttl db (choose slots cs) (try_candidates R world ride cs none m db) c r w
      (try_candidates-choose R L world ride slots cs none m t db e h))
