-- ===== src/Auth/Sessions.antt =====
-- internal/auth/session.go, with internal/db/refresh_tokens.go: refresh tokens and their rotation.
-- The digest of a token and the signature of a claim are arguments, as are the random texts of
-- new tokens. A row's id is a number that the table counts up, for a UUID that is new. Times
-- are nanoseconds.
pub mod Rotation
use redline.Base.{
  ℕ, zero, suc, ◌+◌, ◌-◌, ◌*◌, ◌/◌, ◌%◌, ◌^◌, ◌≤◌, ◌<◌, min, max, String, ◌≡◌, refl, sym, ap, subst,
  ◌∙◌, ◌≢◌, ◌↔◌, ◌⊎◌, inl, inr, Bool, true, false, not, ◌&&◌, ◌||◌, Option, none, some, List, [],
  ◌∷◌, ◌++◌, map, arith, str_eq, eq_iff, ltb, leb, ◌==◌, if◌then◌else◌, Bool-cases, Option-cases,
  length, length-append, keep_if, length-keep_if-le, all_of, any_of, All, contains, ℤ, pos, negsuc,
  pos_part, neg_part, ◌+ℤ◌, ◌*ℤ◌, ◌≤ℤ◌, ltb_ℤ, leb_ℤ, wrap64, IsInt64, wrap64_exact, wrap64-IsInt64,
  +ℤ_parts, eq_of_parts, lookup, insert, delete, lookup-insert, lookup-delete, Call, served,
  refused, lost, is_empty, cut_prefix, has_prefix, cut_prefix-append, In, str_contains, has_suffix,
  sub_ℕ,
}

pub record RefreshToken : Type 0 where
  pub id : ℕ
  pub user_id : String
  pub token_hash : String
  pub expires_at : ℕ
  pub revoked : Bool

-- The table, and the id of the next row.
pub record TokenTable : Type 0 where
  pub rows : List RefreshToken
  pub next_id : ℕ

pub data StoreError : Type 0 where
  not_found conflict store_failed : StoreError

-- Looked up among the rows; the hash is unique.
unfoldable pub row_with_hash : String → List RefreshToken → Option RefreshToken
row_with_hash h [] = none
row_with_hash h (t ∷ ts) =
    let rest = row_with_hash h ts in if str_eq t.token_hash h then some t else rest

unfoldable pub get_by_hash : Call → TokenTable → String → RefreshToken ⊎ StoreError
get_by_hash served db h = elim (row_with_hash h db.rows) [ none ↦ inr not_found | some t ↦ inl t ]
get_by_hash _ db h = inr store_failed

-- `UPDATE … SET revoked_at = now() WHERE id = $1 AND revoked_at IS NULL`.
unfoldable pub revoke_rows : ℕ → List RefreshToken → List RefreshToken
revoke_rows id [] = []
revoke_rows id (t ∷ ts) =
    let rest = revoke_rows id ts in
    if t.id == id then record t { revoked = true } ∷ rest else t ∷ rest

unfoldable pub is_active : ℕ → List RefreshToken → Bool
is_active id ts = any_of (λ t. t.id == id && not t.revoked) ts

-- Whether the update reports a row; `ErrNotFound` is the case of none.
unfoldable pub revoke_error : Call → TokenTable → ℕ → Option StoreError
unfolding is_active
revoke_error served db id = if is_active id db.rows then none else some not_found
revoke_error _ db id = some store_failed

unfoldable pub revoke_token : Call → TokenTable → ℕ → TokenTable
unfolding revoke_rows
revoke_token refused db id = db
revoke_token _ db id = record db { rows = revoke_rows id db.rows }

-- The insert of a row, which fails on a hash that is there.
unfoldable pub create_error : Call → TokenTable → String → Option StoreError
unfolding row_with_hash
create_error served db h = elim (row_with_hash h db.rows) [ none ↦ none | some _ ↦ some conflict ]
create_error _ db h = some store_failed

unfoldable pub new_row : TokenTable → String → String → ℕ → TokenTable
unfolding row_with_hash
new_row db user h expires = elim (row_with_hash h db.rows) [
  | some _ ↦ db
  | none ↦ record {
    rows =
        record {
          id = db.next_id;
          user_id = user;
          token_hash = h;
          expires_at = expires;
          revoked = false;
        }
        ∷ db.rows;
    next_id = suc db.next_id;
  }
]

unfoldable pub create_token : Call → TokenTable → String → String → ℕ → TokenTable
unfolding new_row
create_token refused db user h expires = db
create_token _ db user h expires = new_row db user h expires

pub record SessionConfig : Type 0 where
  pub access_token_ttl : ℕ
  pub refresh_token_ttl : ℕ

pub record Session : Type 0 where
  pub access_token : String
  pub access_token_expires_at : ℕ
  pub refresh_token : String
  pub refresh_token_expires_at : ℕ

pub data SessionError : Type 0 where
  sign_failed generate_failed : SessionError
  stored : StoreError → SessionError

pub record Issued : Type 0 where
  pub db : TokenTable
  pub outcome : Session ⊎ SessionError

-- `digest` is the hash of a refresh token, and `sign` the signed claim of a user that expires at a
-- time, if the signature succeeds.
module _ (digest : String → String) (sign : String → ℕ → ℕ → Option String)
    (cfg : SessionConfig) where
  -- The text is the random token, if there is randomness.
  unfoldable pub issue_refresh : Call → TokenTable → String → Option String → ℕ → String → Issued
  unfolding create_error create_token
  issue_refresh on_create db user none now access = record {
    db = db;
    outcome = inr generate_failed;
  }
  issue_refresh on_create db user (some plaintext) now access = record {
    db = create_token on_create db user (digest plaintext) (now + cfg.refresh_token_ttl);
    outcome = elim (create_error on_create db (digest plaintext)) [
      | some e ↦ inr (stored e)
      | none ↦ inl (record {
        access_token = access;
        access_token_expires_at = now + cfg.access_token_ttl;
        refresh_token = plaintext;
        refresh_token_expires_at = now + cfg.refresh_token_ttl;
      })
    ];
  }

  unfoldable pub issue_session : Call → TokenTable → String → Option String → ℕ → Issued
  unfolding issue_refresh
  issue_session on_create db user random now = elim (sign user now (now + cfg.access_token_ttl)) [
    | none ↦ record { db = db; outcome = inr sign_failed }
    | some access ↦ issue_refresh on_create db user random now access
  ]

  -- The first half of a rotation: the row that the call goes on with.
  unfoldable pub look_up : Call → TokenTable → String → ℕ → RefreshToken ⊎ StoreError
  unfolding get_by_hash
  look_up on_get db plaintext now = elim (get_by_hash on_get db (digest plaintext)) [
    | inr e ↦ inr e
    | inl t ↦
        if t.revoked then inr not_found else if ltb t.expires_at now then inr not_found else inl t
  ]

  -- The second half: the old token is revoked, and a session issued.
  unfoldable pub redeem : Call → Call → TokenTable → RefreshToken → Option String → ℕ → Issued
  unfolding revoke_error revoke_token issue_session
  redeem on_revoke on_create db t random now = elim (revoke_error on_revoke db t.id) [
    | some e ↦ record { db = revoke_token on_revoke db t.id; outcome = inr (stored e) }
    | none ↦ issue_session on_create (revoke_token on_revoke db t.id) t.user_id random now
  ]

  unfoldable pub rotate_refresh_token :
      Call → Call → Call → TokenTable → String → Option String → ℕ → Issued
  unfolding look_up redeem
  rotate_refresh_token on_get on_revoke on_create db plaintext random now =
      elim (look_up on_get db plaintext now) [
        | inr e ↦ record { db = db; outcome = inr (stored e) }
        | inl t ↦ redeem on_revoke on_create db t random now
      ]

  -- `none` is the nil error.
  unfoldable pub revoke_refresh_token :
      Call → Call → TokenTable → String → TokenTable × Option StoreError
  unfolding get_by_hash revoke_error revoke_token
  revoke_refresh_token on_get on_revoke db plaintext =
      elim (get_by_hash on_get db (digest plaintext)) [
        | inr e ↦ (db, some e)
        | inl t ↦ (revoke_token on_revoke db t.id, revoke_error on_revoke db t.id)
      ]
