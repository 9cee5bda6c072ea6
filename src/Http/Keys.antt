-- ===== src/Http/Keys.antt =====
-- internal/db/api_keys.go, DisplayPrefix of internal/auth/apikey.go and the handlers of
-- internal/api/apikeys.go: the table of API keys. A row's id is a number that the table counts up, for a
-- UUID that is new; timestamps are left out but for whether a key is revoked.
use redline.Base.{
  ℕ, zero, suc, String, ◌⊎◌, inl, inr, Bool, true, false, not, ◌&&◌, Option, none, some, List, [],
  ◌∷◌, str_eq, ◌==◌, if◌then◌else◌, keep_if, any_of, Call, served, refused,
}
use redline.Auth.Sessions.{StoreError, not_found, conflict, store_failed}

pub record ApiKey : Type 0 where
  pub id : ℕ
  pub user_id : String
  pub key_hash : String
  pub display_prefix : String
  pub scopes : List String
  pub revoked : Bool

pub record KeyTable : Type 0 where
  pub keys : List ApiKey
  pub next_key : ℕ

-- The first characters of a text; a character takes one byte, as in the keys that are generated.
unfoldable pub take_text : ℕ → String → String
take_text zero s = ""
take_text (suc n) String.[] = ""
take_text (suc n) (String.◌∷◌ c s) = String.◌∷◌ c (take_text n s)

-- The prefix "rl_" and eight characters more.
unfoldable pub display_prefix_of : String → String
unfolding take_text
display_prefix_of plaintext = take_text 11 plaintext

unfoldable pub key_with_prefix : String → List ApiKey → Option ApiKey
key_with_prefix p [] = none
key_with_prefix p (k ∷ ks) =
    let rest = key_with_prefix p ks in if str_eq k.display_prefix p then some k else rest

unfoldable pub get_by_prefix : Call → KeyTable → String → ApiKey ⊎ StoreError
unfolding key_with_prefix
get_by_prefix served db p = elim (key_with_prefix p db.keys) [
  | none ↦ inr not_found
  | some k ↦ inl k
]
get_by_prefix _ db p = inr store_failed

-- The insert, which fails on a prefix that is there.
unfoldable pub create_key_error : Call → KeyTable → String → Option StoreError
unfolding key_with_prefix
create_key_error served db p = elim (key_with_prefix p db.keys) [
  | none ↦ none
  | some _ ↦ some conflict
]
create_key_error _ db p = some store_failed

unfoldable pub insert_key : KeyTable → String → String → String → List String → KeyTable
unfolding key_with_prefix
insert_key db user h p scopes = elim (key_with_prefix p db.keys) [
  | some _ ↦ db
  | none ↦ record {
    keys =
        record {
          id = db.next_key;
          user_id = user;
          key_hash = h;
          display_prefix = p;
          scopes = scopes;
          revoked = false;
        }
        ∷ db.keys;
    next_key = suc db.next_key;
  }
]

unfoldable pub create_key : Call → KeyTable → String → String → String → List String → KeyTable
unfolding insert_key
create_key refused db user h p scopes = db
create_key _ db user h p scopes = insert_key db user h p scopes

-- `Revoke`: the key with an id, if it is active.
unfoldable pub revoke_key_rows : ℕ → List ApiKey → List ApiKey
revoke_key_rows id [] = []
revoke_key_rows id (k ∷ ks) =
    let rest = revoke_key_rows id ks in
    if k.id == id then record k { revoked = true } ∷ rest else k ∷ rest

unfoldable pub revoke_key : Call → KeyTable → ℕ → KeyTable
unfolding revoke_key_rows
revoke_key refused db id = db
revoke_key _ db id = record db { keys = revoke_key_rows id db.keys }

unfoldable pub revoke_key_error : Call → KeyTable → ℕ → Option StoreError
revoke_key_error served db id =
    if any_of (λ k. k.id == id && not k.revoked) db.keys then none else some not_found
revoke_key_error _ db id = some store_failed

-- `RevokeAllByUser`.
unfoldable pub revoke_user_rows : String → List ApiKey → List ApiKey
revoke_user_rows user [] = []
revoke_user_rows user (k ∷ ks) =
    let rest = revoke_user_rows user ks in
    if str_eq k.user_id user then record k { revoked = true } ∷ rest else k ∷ rest

unfoldable pub revoke_all_by_user : Call → KeyTable → String → KeyTable
unfolding revoke_user_rows
revoke_all_by_user refused db user = db
revoke_all_by_user _ db user = record db { keys = revoke_user_rows user db.keys }

unfoldable pub list_by_user : KeyTable → String → List ApiKey
list_by_user db user = keep_if (λ k. str_eq k.user_id user) db.keys

-- `WriteStorageError` of internal/apierror/apierror.go.
unfoldable pub storage_status : StoreError → ℕ
storage_status not_found = 404
storage_status conflict = 409
storage_status store_failed = 500

-- A key's text, its hash and its prefix, as `GenerateAPIKey` makes them.
pub record GeneratedKey : Type 0 where
  pub plaintext : String
  pub hash : String

-- The handlers, for the user of the session, if there is one. `none` for the scopes is a body that
-- does not decode, for the key a random generator or a hash that fails.
unfoldable pub create_api_key :
    Call → KeyTable → Option String → Option (List String) → Option GeneratedKey → KeyTable × ℕ
unfolding create_key create_key_error display_prefix_of storage_status
create_api_key c db none scopes key = (db, 401)
create_api_key c db (some user) none key = (db, 400)
create_api_key c db (some user) (some scopes) none = (db, 500)
create_api_key c db (some user) (some scopes) (some g) = (
  create_key c db user g.hash (display_prefix_of g.plaintext) scopes,
  elim (create_key_error c db (display_prefix_of g.plaintext)) [
    | none ↦ 201
    | some e ↦ storage_status e
  ],
)

unfoldable pub list_api_keys : Call → KeyTable → Option String → List ApiKey × ℕ
unfolding list_by_user storage_status
list_api_keys c db none = ([], 401)
list_api_keys served db (some user) = (list_by_user db user, 200)
list_api_keys _ db (some user) = ([], storage_status store_failed)

-- The handler asks for a session, by the guard before it, but not whose key it is. `none` is a path
-- with no id.
unfoldable pub revoke_api_key : Call → KeyTable → Option ℕ → KeyTable × ℕ
unfolding revoke_key revoke_key_error storage_status
revoke_api_key c db none = (db, 400)
revoke_api_key c db (some id) =
    (revoke_key c db id, elim (revoke_key_error c db id) [ none ↦ 204 | some e ↦ storage_status e ])
