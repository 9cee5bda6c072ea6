-- ===== src/Migrations.antt =====
-- internal/db/migrate.go: the migrations of the schema. The advisory lock makes a call of `Migrate` one
-- step of the database after another. `strconv.Atoi` is an argument.
pub mod Applied
pub mod Sorted
pub mod Completed
use Prim.Native.String
use redline.Base.{
  ℕ, zero, suc, ◌+◌, ◌-◌, ◌*◌, ◌/◌, ◌%◌, ◌^◌, ◌≤◌, ◌<◌, min, max, String, ◌≡◌, refl, sym, ap, subst,
  ◌∙◌, ◌≢◌, ◌↔◌, ◌⊎◌, inl, inr, Bool, true, false, not, ◌&&◌, ◌||◌, Option, none, some, List, [],
  ◌∷◌, ◌++◌, map, arith, str_eq, eq_iff, ltb, leb, ◌==◌, if◌then◌else◌, Bool-cases, Option-cases,
  length, length-append, keep_if, length-keep_if-le, all_of, any_of, All, contains, ℤ, pos, negsuc,
  pos_part, neg_part, ◌+ℤ◌, ◌*ℤ◌, ◌≤ℤ◌, ltb_ℤ, leb_ℤ, wrap64, IsInt64, wrap64_exact, wrap64-IsInt64,
  +ℤ_parts, eq_of_parts, lookup, insert, delete, lookup-insert, lookup-delete, Call, served,
  refused, lost, is_empty, cut_prefix, has_prefix, cut_prefix-append, In, str_contains, has_suffix,
  sub_ℕ,
}

pub record Migration : Type 0 where
  pub version : ℤ
  pub name : String
  pub sql : String

-- An entry of the directory; `none` is a file that does not read.
pub record DirEntry : Type 0 where
  pub file_name : String
  pub is_dir : Bool
  pub contents : Option String

pub data LoadError : Type 0 where
  malformed_filename malformed_version read_failed : String → LoadError
  duplicate_version : ℤ → LoadError

-- The text before and after the first "_".
unfoldable pub split_name : String → Option (String × String)
split_name String.[] = none
split_name (String.◌∷◌ c s) =
    let rest = split_name s in
    elim (cut_prefix (String.◌∷◌ c s) "_") [
      | some after ↦ some ("", after)
      | none ↦ elim rest [ none ↦ none | some (before, after) ↦ some (String.◌∷◌ c before, after) ]
    ]

unfoldable pub trim_sql : String → String
trim_sql String.[] = ""
trim_sql (String.◌∷◌ c s) =
    let rest = trim_sql s in if str_eq (String.◌∷◌ c s) ".sql" then "" else String.◌∷◌ c rest

unfoldable pub parse_migration_filename : (String → Option ℤ) → String → (ℤ × String) ⊎ LoadError
unfolding split_name trim_sql
parse_migration_filename atoi filename = elim (split_name (trim_sql filename)) [
  | none ↦ inr (malformed_filename filename)
  | some (digits, name) ↦ elim (atoi digits) [
    | none ↦ inr (malformed_version filename)
    | some version ↦ inl (version, name)
  ]
]

unfoldable pub load_entry : (String → Option ℤ) → DirEntry → Migration ⊎ LoadError
unfolding parse_migration_filename
load_entry atoi e = elim (parse_migration_filename atoi e.file_name) [
  | inr bad ↦ inr bad
  | inl (version, name) ↦ elim e.contents [
    | none ↦ inr (read_failed e.file_name)
    | some sql ↦ inl (record { version = version; name = name; sql = sql })
  ]
]

unfoldable pub load_each : (String → Option ℤ) → List DirEntry → List Migration ⊎ LoadError
unfolding load_entry
load_each atoi [] = inl []
load_each atoi (e ∷ es) =
    let rest = load_each atoi es in
    if e.is_dir || not (has_suffix e.file_name ".sql") then rest else elim (load_entry atoi e) [
      | inr bad ↦ inr bad
      | inl m ↦ elim rest [ inr bad ↦ inr bad | inl ms ↦ inl (m ∷ ms) ]
    ]

-- `sort.Slice` by the versions; where two are equal the call fails, so that their order is not seen.
unfoldable pub insert_migration : Migration → List Migration → List Migration
insert_migration m [] = m ∷ []
insert_migration m (n ∷ ns) =
    let rest = insert_migration m ns in if leb_ℤ m.version n.version then m ∷ n ∷ ns else n ∷ rest

unfoldable pub sort_migrations : List Migration → List Migration
unfolding insert_migration
sort_migrations [] = []
sort_migrations (m ∷ ms) = insert_migration m (sort_migrations ms)

abbrev pub same_version : ℤ → ℤ → Bool
same_version a b = leb_ℤ a b && leb_ℤ b a

-- The first version that its neighbour has too.
unfoldable pub duplicate : List Migration → Option ℤ
duplicate [] = none
duplicate (m ∷ []) = none
duplicate (m ∷ n ∷ ns) =
    let rest = duplicate (n ∷ ns) in
    if same_version n.version m.version then some n.version else rest

-- `none` is a directory that does not read.
unfoldable pub load_migrations : (String → Option ℤ) → List DirEntry → List Migration ⊎ LoadError
unfolding load_each sort_migrations duplicate
load_migrations atoi entries = elim (load_each atoi entries) [
  | inr bad ↦ inr bad
  | inl ms ↦ elim (duplicate (sort_migrations ms)) [
    | some v ↦ inr (duplicate_version v)
    | none ↦ inl (sort_migrations ms)
  ]
]

-- The versions in `schema_migrations`, and what the committed transactions ran, the last first.
pub record Schema : Type 0 where
  pub recorded : List ℤ
  pub executed : List Migration

abbrev pub has_version : ℤ → List ℤ → Bool
has_version v vs = any_of (same_version v) vs

-- How a transaction ends: its row's version is the primary key, so that it fails where there is a row.
unfoldable pub commits : Call → Schema → Migration → Call
commits c db m = if has_version m.version db.recorded then refused else c

-- The migration's SQL, its row, and the commit, or nothing of it.
abbrev pub apply_migration : Call → Schema → Migration → Schema
apply_migration refused db m = db
apply_migration _ db m = record { recorded = m.version ∷ db.recorded; executed = m ∷ db.executed }

-- `attempted` has the versions whose transactions began, the first first.
pub record Migrated : Type 0 where
  pub db : Schema
  pub attempted : List ℤ
  pub applied : List ℤ
  pub ok : Bool

-- The loop of `Migrate`, over the versions that were read before it.
unfoldable pub migrate_each : (Migration → Call) → List ℤ → Schema → List Migration → Migrated
unfolding commits
migrate_each calls already db [] = record { db = db; attempted = []; applied = []; ok = true }
migrate_each calls already db (m ∷ ms) =
    let skip = migrate_each calls already db ms in
    let rest = migrate_each calls already (apply_migration served db m) ms in
    if has_version m.version already then skip else elim (commits (calls m) db m) [
      | served ↦ record rest {
        attempted = m.version ∷ rest.attempted;
        applied = m.version ∷ rest.applied;
      }
      | refused ↦ record { db = db; attempted = m.version ∷ []; applied = []; ok = false }
      | lost ↦ record {
        db = apply_migration lost db m;
        attempted = m.version ∷ [];
        applied = [];
        ok = false;
      }
    ]

-- The first argument is whether the connection, the lock, the table and the read of the versions
-- succeed.
unfoldable pub migrate : Bool → (Migration → Call) → Schema → List Migration → Migrated
unfolding migrate_each
migrate false calls db ms = record { db = db; attempted = []; applied = []; ok = false }
migrate true calls db ms = migrate_each calls db.recorded db ms
