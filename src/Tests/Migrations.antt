-- ===== src/Tests/Migrations.antt =====
-- Witnesses for internal/db/migrate.go.
use redline.Base.{
  ◌≤◌, String, ◌&&◌, ◌≡◌, refl, inl, true, false, Option, none, some, List, [], ◌∷◌, str_eq,
  if◌then◌else◌, ℤ, pos, Call, refused, lost, cut_prefix, has_suffix,
}
use redline.Migrations.{Migration, DirEntry, Schema, has_version, migrate, load_migrations}
use redline.Migrations.Applied.{Replica, runs, migrate_all, migrate_as}
use redline.Migrations.Applied
use redline.Migrations.Completed.{Ascending, everything, pending, versions_of}
use redline.Migrations.Completed

abbrev digits : String → Option ℤ
digits s = if str_eq s "001" then some (pos 1) else if str_eq s "002" then some (pos 2) else none

abbrev files : List DirEntry
files =
    record { file_name = "002_keys.sql"; is_dir = false; contents = some "B" }
    ∷ record { file_name = "README.md"; is_dir = false; contents = none }
    ∷ record { file_name = "001_users.sql"; is_dir = false; contents = some "A" }
    ∷ []

abbrev users_keys : List Migration
users_keys =
    record { version = pos 1; name = "users"; sql = "A" }
    ∷ record { version = pos 2; name = "keys"; sql = "B" }
    ∷ []

loaded : load_migrations digits files ≡ inl users_keys
unfolding load_migrations has_suffix cut_prefix
loaded = refl

abbrev first_done : Schema
first_done = record {
  recorded = pos 1 ∷ [];
  executed = record { version = pos 1; name = "users"; sql = "A" } ∷ [];
}

abbrev refusing : Migration → Call
refusing m = refused

migrate-twice_example :
    let r = migrate true everything first_done users_keys in
    (r.ok ≡ true)
    × (r.applied ≡ versions_of (pending (pos 1 ∷ []) users_keys))
    × Ascending r.applied
    × (migrate true refusing r.db users_keys
        ≡ record { db = r.db; attempted = []; applied = []; ok = true })
migrate-twice_example = Completed.migrate-twice digits files users_keys first_done refusing loaded

-- The reply of the first commit is lost, and another replica goes on.
abbrev losing : Migration → Call
losing m = lost

abbrev replicas : List Replica
replicas =
    record { connects = true; calls = losing; migrations = users_keys }
    ∷ record { connects = true; calls = everything; migrations = users_keys }
    ∷ []

abbrev third_replica : Replica
third_replica = record { connects = true; calls = everything; migrations = users_keys }

migrate_all-once_example :
    let db = migrate_all (record { recorded = []; executed = [] }) replicas in
    (runs (pos 1) db.executed ≤ 1)
    × ((has_version (pos 1) db.recorded
          && has_version (pos 1) (migrate_as third_replica db).attempted)
        ≡ false)
migrate_all-once_example = Applied.migrate_all-once replicas third_replica (pos 1)
