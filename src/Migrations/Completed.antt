-- ===== src/Migrations/Completed.antt =====
-- internal/db/migrate.go: a call of `Migrate` that is served applies all, and the next one nothing.
use redline.Base.{
  String, ◌≡◌, refl, sym, ap, subst, ◌∙◌, inl, inr, Bool, true, false, not, ◌||◌, Option, List, [],
  ◌∷◌, map, arith, Bool-cases, keep_if, all_of, All, ℤ, ltb_ℤ, Call, served,
}
use redline.Migrations.{
  Migration, DirEntry, load_migrations, Schema, has_version, commits, apply_migration, Migrated,
  migrate_each, migrate,
}
use redline.Migrations.Sorted.{IsAscending, load_migrations-IsAscending}

-- The migrations whose versions are not recorded.
abbrev pub pending : List ℤ → List Migration → List Migration
pending recorded ms = keep_if (λ m. not (has_version m.version recorded)) ms

abbrev pub versions_of : List Migration → List ℤ
versions_of ms = map (λ m. m.version) ms

abbrev all_recorded : Schema → List Migration → Bool
all_recorded db ms = all_of (λ m. has_version m.version db.recorded) ms

-- Each migration was recorded when the versions were read, or is not recorded.
abbrev fresh : List ℤ → Schema → List Migration → Bool
fresh already db ms =
    all_of (λ m. has_version m.version already || not (has_version m.version db.recorded)) ms

abbrev pub everything : Migration → Call
everything m = served

fresh_pushed :
    (already : List ℤ) (db : Schema) (m : Migration) (ms : List Migration)
    → All (λ n. ltb_ℤ m.version n.version ≡ true) ms
    → fresh already db ms ≡ true
    → fresh already (apply_migration served db m) ms ≡ true
fresh_pushed already db m [] above h = refl
fresh_pushed already db m (n ∷ ms) (lt, above) h =
    ground (arith, lt, h, fresh_pushed already db m ms above)

record IsComplete (already : List ℤ) (db : Schema) (ms : List Migration) (r : Migrated)
    : Type 0 where
  succeeds : r.ok ≡ true
  in_order : r.applied ≡ versions_of (pending already ms)
  grows : (v : ℤ) → has_version v db.recorded ≡ true → has_version v r.db.recorded ≡ true
  records :
      all_of (λ m. has_version m.version already || has_version m.version r.db.recorded) ms ≡ true

migrate_each-IsComplete :
    (already : List ℤ) (db : Schema) (ms : List Migration)
    → IsAscending ms
    → fresh already db ms ≡ true
    → IsComplete already db ms (migrate_each everything already db ms)
unfolding migrate_each commits
migrate_each-IsComplete already db [] asc h = record {
  succeeds = refl;
  in_order = refl;
  grows = λ v e. e;
  records = refl;
}
migrate_each-IsComplete already db (m ∷ ms) (above, asc) h =
    elim (Bool-cases (has_version m.version already)) [
      | inl e ↦
          let rest = migrate_each-IsComplete already db ms asc (ground (arith, h)) in
          rw e (record {
            succeeds = rest.succeeds;
            in_order = rest.in_order ∙ ap versions_of (sym (pending_old e));
            grows = rest.grows;
            records = ground (arith, e, rest.records);
          })
      | inr e ↦
          let rest =
            migrate_each-IsComplete already (apply_migration served db m) ms asc
              (fresh_pushed already db m ms above (ground (arith, h))) in
          let new : has_version m.version db.recorded ≡ false = ground (arith, h, e) in
          rw e (
            rw new (record {
              succeeds = rest.succeeds;
              in_order =
                  ap (λ vs. m.version ∷ vs) rest.in_order ∙ ap versions_of (sym (pending_new e));
              grows = λ v there. rest.grows v (ground (arith, there));
              records = ground (arith, rest.records, rest.grows m.version (self m.version));
            }))
    ]
  where
    pending_old :
        has_version m.version already ≡ true → pending already (m ∷ ms) ≡ pending already ms
    pending_old e = rw e refl

    pending_new :
        has_version m.version already ≡ false → pending already (m ∷ ms) ≡ m ∷ pending already ms
    pending_new e = rw e refl

    self : (v : ℤ) → has_version v (v ∷ db.recorded) ≡ true
    self v = ground arith

skipped :
    (calls : Migration → Call) (already : List ℤ) (db : Schema) (ms : List Migration)
    → all_of (λ m. has_version m.version already) ms ≡ true
    → migrate_each calls already db ms ≡ record { db = db; attempted = []; applied = []; ok = true }
unfolding migrate_each
skipped calls already db [] h = refl
skipped calls already db (m ∷ ms) h =
    let there : has_version m.version already ≡ true = ground (arith, h) in
    rw there (skipped calls already db ms (ground (arith, h)))

fresh_start : (db : Schema) (ms : List Migration) → fresh db.recorded db ms ≡ true
fresh_start db [] = refl
fresh_start db (m ∷ ms) = ground (arith, fresh_start db ms)

all_there :
    (old new : List ℤ) (ms : List Migration)
    → ((v : ℤ) → has_version v old ≡ true → has_version v new ≡ true)
    → all_of (λ m. has_version m.version old || has_version m.version new) ms ≡ true
    → all_of (λ m. has_version m.version new) ms ≡ true
all_there old new [] grows h = refl
all_there old new (m ∷ ms) grows h = ground (arith, h, grows m.version, all_there old new ms grows)

-- Each version is above those before it.
abbrev pub Ascending : List ℤ → Type 0
Ascending [] = Unit
Ascending (v ∷ vs) = All (λ w. ltb_ℤ v w ≡ true) vs × Ascending vs

above-pending :
    (v : ℤ) (recorded : List ℤ) (ms : List Migration)
    → All (λ n. ltb_ℤ v n.version ≡ true) ms
    → All (λ w. ltb_ℤ v w ≡ true) (versions_of (pending recorded ms))
above-pending v recorded [] h = tt
above-pending v recorded (m ∷ ms) (lt, h) = elim (Bool-cases (has_version m.version recorded)) [
  | inl e ↦ rw e (above-pending v recorded ms h)
  | inr e ↦ rw e (lt, above-pending v recorded ms h)
]

pending-Ascending :
    (recorded : List ℤ) (ms : List Migration)
    → IsAscending ms
    → Ascending (versions_of (pending recorded ms))
pending-Ascending recorded [] h = tt
pending-Ascending recorded (m ∷ ms) (first, h) =
    elim (Bool-cases (has_version m.version recorded)) [
      | inl e ↦ rw e (pending-Ascending recorded ms h)
      | inr e ↦ rw e (above-pending m.version recorded ms first, pending-Ascending recorded ms h)
    ]

-- Of migrations that `LoadMigrations` returned, a call of `Migrate` whose requests are all served
-- succeeds and returns the versions that were not recorded, in ascending order; and the next call
-- with them that gets its lock, whatever its transactions would do, begins none, changes nothing
-- and returns no version.
pub migrate-twice :
    (atoi : String → Option ℤ) (entries : List DirEntry) (ms : List Migration) (db : Schema)
    (calls : Migration → Call)
    → load_migrations atoi entries ≡ inl ms
    → let r = migrate true everything db ms in
      (r.ok ≡ true)
      × (r.applied ≡ versions_of (pending db.recorded ms))
      × Ascending r.applied
      × (migrate true calls r.db ms ≡ record { db = r.db; attempted = []; applied = []; ok = true })
unfolding migrate
migrate-twice atoi entries ms db calls h =
    let order = load_migrations-IsAscending atoi entries ms h in
    let done = migrate_each-IsComplete db.recorded db ms order (fresh_start db ms) in
    (
      done.succeeds,
      done.in_order,
      subst Ascending (sym done.in_order) (pending-Ascending db.recorded ms order),
      skipped calls _ _ ms (all_there db.recorded _ ms done.grows done.records),
    )
