-- ===== src/Hot/Index/Removed.antt =====
-- What RemoveDriver (internal/redis/store.go), and time, leave of the index of drivers by cell.
use nexus_dispatch.Prelude.{
  ℕ, ◌+◌, ◌≡◌, ◌≢◌, refl, sym, ap, ◌∙◌, inl, inr, Bool, true, false, none, String, string_dec,
  ==-refl, ==-ne, arith, Bool-cases, if◌then◌else◌,
}
use nexus_dispatch.Redis.{Value, absent, field, is_over, Redis, IsRedis}
use nexus_dispatch.Hot.Keys.{
  IsPlain, driver_key, driver_loc_key, driver_lease_key, driver_seq_key, cell_key, geo_key,
  other_than, other_than_ne, driver_loc_key-ne-cell_key, driver_loc_key-ne-geo_key,
}
use nexus_dispatch.Hot.Index.{cell_at, Indexed}
use nexus_dispatch.Hot.Index.Frame.{
  Same, Same-refl, del-Same, zrem-Same, srem-Same, profile-IsAside, position-IsAside, lease-IsAside,
  guard-IsAside,
}

module _ (R : Redis) (L : IsRedis R) (id c : String) (b : Bool) (db : R.Db) (p : IsPlain id) where
  abbrev gone : R.Db
  gone =
      R.del (driver_seq_key id)
        (R.del (driver_lease_key id) (R.del (driver_loc_key id) (R.del (driver_key id) db)))

  abbrev unlisted : R.Db
  unlisted = R.zrem geo_key id (if b then gone else R.srem (cell_key c) id gone)

  gone-absent : R.read gone (driver_loc_key id) ≡ absent
  gone-absent = simp (
    L.read-del,
    ==-ne _ _ (guard-IsAside id id).no_position,
    ==-ne _ _ (lease-IsAside id id).no_position,
    ==-refl,
  )

  unlisted-absent : R.read unlisted (driver_loc_key id) ≡ absent
  unlisted-absent =
      rw (L.read-zrem geo_key id (driver_loc_key id) _, ==-ne _ _ (driver_loc_key-ne-geo_key id))
        (elim (Bool-cases b) [
          | inl e ↦ rw e gone-absent
          | inr e ↦
              rw
                (
                  e,
                  L.read-srem (cell_key c) id (driver_loc_key id) gone,
                  ==-ne _ _ (driver_loc_key-ne-cell_key id c),
                )
                gone-absent
        ])

  unlisted-Same : (j : String) → j ≢ id → Same R j db unlisted
  unlisted-Same j ne =
      zrem-Same R L j db id _ (if-Same b _ _ there (srem-Same R L j db c id _ ne there))
    where
      if-Same :
          (x : Bool) (d d' : R.Db)
          → Same R j db d
          → Same R j db d'
          → Same R j db (if x then d else d')
      if-Same true d d' h h' = h
      if-Same false d d' h h' = h'

      there : Same R j db gone
      there = del-Same R L j db _ _ (guard-IsAside j id) (
          del-Same R L j db _ _ (lease-IsAside j id) (
            del-Same R L j db _ _ (position-IsAside j id ne)
              (del-Same R L j db _ db (profile-IsAside j id p) (Same-refl R L j db))))

  pub unlisted-Indexed : Indexed R db → Indexed R unlisted
  unlisted-Indexed h = record {
    found = λ j x e. elim (string_dec j id) [
      | yes q ↦
          let none_there : cell_at R unlisted j ≡ none =
            ap (cell_at R unlisted) q ∙ ap (λ (v : Value). field v "cell") unlisted-absent in
          absurd (cc (none_there, e))
      | no ne ↦
          let s = unlisted-Same j ne in
          s.same_in x ∙ h.found j x (ap (λ (v : Value). field v "cell") (sym s.same_at) ∙ e)
    ];
    lasting = λ x. (unlisted-Same (other_than id) (other_than_ne id)).lasts x (h.lasting x);
  }

-- A position that is gone is in no cell, and no set of a cell goes.
pub wait-Indexed :
    (R : Redis) (L : IsRedis R) (t : ℕ) (db : R.Db) → Indexed R db → Indexed R (R.wait t db)
wait-Indexed R L t db h = record {
  found = λ j c e.
      rw (L.read-wait t (cell_key c) db, h.lasting c)
        (h.found j c
          (elim (Bool-cases (is_over (R.deadline db (driver_loc_key j)) (R.now db + t))) [
            | inl o ↦ absurd (ground (arith, o, L.read-wait t (driver_loc_key j) db, e))
            | inr o ↦ ground (arith, o, L.read-wait t (driver_loc_key j) db, e)
          ]));
  lasting = λ c. rw (L.deadline-wait t (cell_key c) db, h.lasting c) refl;
}
