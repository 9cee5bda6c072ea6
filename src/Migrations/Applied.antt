-- ===== src/Migrations/Applied.antt =====
-- internal/db/migrate.go: migrations are sorted, run once each, and not again.
use redline.Base.{
  ℕ, suc, ◌≤◌, ◌≡◌, refl, sym, subst, ap, ◌&&◌, inl, inr, Bool, true, false, List, [], ◌∷◌, arith,
  if◌then◌else◌, Bool-cases, ℤ, eq_of_parts, Call, served, refused, lost,
}
use redline.Migrations.{
  Migration, same_version, Schema, has_version, commits, apply_migration, Migrated, migrate_each,
  migrate,
}

-- How often a version was run.
abbrev pub runs : ℤ → List Migration → ℕ
runs v [] = 0
runs v (m ∷ ms) = let rest = runs v ms in if same_version v m.version then suc rest else rest

-- The rows and what was run agree.
record IsRecorded (db : Schema) : Type 0 where
  once : (v : ℤ) → runs v db.executed ≡ (if has_version v db.recorded then 1 else 0)

same_version-eq : (a b : ℤ) → same_version a b ≡ true → a ≡ b
same_version-eq a b h = eq_of_parts a b (ground (arith, h))

pushed-IsRecorded :
    (db : Schema) (m : Migration)
    → has_version m.version db.recorded ≡ false
    → IsRecorded db
    → IsRecorded (record { recorded = m.version ∷ db.recorded; executed = m ∷ db.executed })
pushed-IsRecorded db m new h = record {
  once = λ v. elim (Bool-cases (same_version v m.version)) [
    | inl e ↦
        let absent : has_version v db.recorded ≡ false =
          subst (λ x. has_version x db.recorded ≡ false) (sym (same_version-eq v m.version e))
            new in
        ground (arith, e, absent, h.once v)
    | inr e ↦ ground (arith, e, h.once v)
  ];
}

migrate_each-IsRecorded :
    (calls : Migration → Call) (already : List ℤ) (db : Schema) (ms : List Migration)
    → IsRecorded db
    → IsRecorded (migrate_each calls already db ms).db
unfolding migrate_each
migrate_each-IsRecorded calls already db [] h = h
migrate_each-IsRecorded calls already db (m ∷ ms) h =
    elim (Bool-cases (has_version m.version already)) [
      | inl e ↦ rw (e, migrate_each) (migrate_each-IsRecorded calls already db ms h)
      | inr e ↦
          rw (e, migrate_each)
            (elim (Bool-cases (has_version m.version db.recorded)) [
              | inl there ↦ rw (there, commits) h
              | inr new ↦
                  rw (new, commits)
                    (ended (calls m) (pushed-IsRecorded db m new h)
                      (migrate_each-IsRecorded calls already _ ms (pushed-IsRecorded db m new h)))
            ])
    ]
  where
    ended :
        (c : Call)
        → IsRecorded (apply_migration served db m)
        → IsRecorded (migrate_each calls already (apply_migration served db m) ms).db
        → IsRecorded
            (elim c as (λ x. Migrated) [
              | served ↦ record (migrate_each calls already (apply_migration served db m) ms) {
                attempted =
                    m.version
                    ∷ (migrate_each calls already (apply_migration served db m) ms).attempted;
                applied =
                    m.version
                    ∷ (migrate_each calls already (apply_migration served db m) ms).applied;
              }
              | refused ↦ record { db = db; attempted = m.version ∷ []; applied = []; ok = false }
              | lost ↦ record {
                db = apply_migration lost db m;
                attempted = m.version ∷ [];
                applied = [];
                ok = false;
              }
            ]).db
    ended served one rest = rest
    ended refused one rest = h
    ended lost one rest = one

-- A call of `Migrate` by some replica.
pub record Replica : Type 0 where
  pub connects : Bool
  pub calls : Migration → Call
  pub migrations : List Migration

abbrev pub migrate_as : Replica → Schema → Migrated
migrate_as r db = migrate r.connects r.calls db r.migrations

abbrev pub migrate_all : Schema → List Replica → Schema
migrate_all db [] = db
migrate_all db (r ∷ rs) = migrate_all (migrate_as r db).db rs

migrate-IsRecorded :
    (r : Replica) (db : Schema)
    → IsRecorded db
    → IsRecorded (migrate r.connects r.calls db r.migrations).db
unfolding migrate
migrate-IsRecorded r db h = elim (Bool-cases r.connects) [
  | inl e ↦ rw e (migrate_each-IsRecorded r.calls db.recorded db r.migrations h)
  | inr e ↦ rw e h
]

migrate_all-IsRecorded :
    (rs : List Replica) (db : Schema) → IsRecorded db → IsRecorded (migrate_all db rs)
migrate_all-IsRecorded [] db h = h
migrate_all-IsRecorded (r ∷ rs) db h = migrate_all-IsRecorded rs _ (migrate-IsRecorded r db h)

same_version-agrees :
    (v w : ℤ) (vs : List ℤ) → same_version v w ≡ true → has_version v vs ≡ has_version w vs
same_version-agrees v w vs e = ap (λ z. has_version z vs) (same_version-eq v w e)

-- The transaction of a version that was recorded before the loop does not begin.
attempted_new :
    (calls : Migration → Call) (already : List ℤ) (db : Schema) (ms : List Migration) (v : ℤ)
    → (has_version v already && has_version v (migrate_each calls already db ms).attempted) ≡ false
unfolding migrate_each
attempted_new calls already db [] v = ground arith
attempted_new calls already db (m ∷ ms) v = elim (Bool-cases (has_version m.version already)) [
  | inl e ↦ rw (e, migrate_each) (attempted_new calls already db ms v)
  | inr e ↦
      let one : (has_version v already && same_version v m.version) ≡ false =
        ground (arith, e, same_version-agrees v m.version already) in
      rw (e, migrate_each)
        (ended (commits (calls m) db m) one
          (attempted_new calls already (apply_migration served db m) ms v))
]
  where
    ended :
        (c : Call)
        → (has_version v already && same_version v m.version) ≡ false
        → (has_version v already
            && has_version v
                (migrate_each calls already (apply_migration served db m) ms).attempted)
          ≡ false
        → (has_version v already
            && has_version v
                (elim c as (λ x. Migrated) [
                  | served ↦ record (migrate_each calls already (apply_migration served db m) ms) {
                    attempted =
                        m.version
                        ∷ (migrate_each calls already (apply_migration served db m) ms).attempted;
                    applied =
                        m.version
                        ∷ (migrate_each calls already (apply_migration served db m) ms).applied;
                  }
                  | refused ↦ record {
                    db = db;
                    attempted = m.version ∷ [];
                    applied = [];
                    ok = false;
                  }
                  | lost ↦ record {
                    db = apply_migration lost db m;
                    attempted = m.version ∷ [];
                    applied = [];
                    ok = false;
                  }
                ]).attempted)
          ≡ false
    ended served one rest = ground (arith, one, rest)
    ended refused one rest = ground (arith, one)
    ended lost one rest = ground (arith, one)

migrate-attempted_new :
    (r : Replica) (db : Schema) (v : ℤ)
    → (has_version v db.recorded && has_version v (migrate_as r db).attempted) ≡ false
unfolding migrate
migrate-attempted_new r db v = elim (Bool-cases r.connects) [
  | inl e ↦ rw e (attempted_new r.calls db.recorded db r.migrations v)
  | inr e ↦ rw e (ground arith)
]

-- Over any number of calls of `Migrate` from an empty schema, with any migrations and however their
-- requests end, each version is run at most once, and the next call begins no transaction for a
-- version that is recorded by then.
pub migrate_all-once :
    (rs : List Replica) (r : Replica) (v : ℤ)
    → let db = migrate_all (record { recorded = []; executed = [] }) rs in
      (runs v db.executed ≤ 1)
      × ((has_version v db.recorded && has_version v (migrate_as r db).attempted) ≡ false)
migrate_all-once rs r v = (
  ground (
    arith,
    (migrate_all-IsRecorded rs (record { recorded = []; executed = [] })
          (record { once = λ w. refl })).once
        v,
  ),
  migrate-attempted_new r (migrate_all (record { recorded = []; executed = [] }) rs) v,
)
