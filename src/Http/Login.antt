-- ===== src/Http/Login.antt =====
-- internal/api/auth.go, with internal/db/users.go: logging in, refreshing a session and logging out.
-- Trimming of white space and the check of a password are arguments. An answer is its status and what
-- it does to the two cookies.
use redline.Base.{
  ℕ, String, ◌⊎◌, inl, inr, Bool, true, ◌||◌, Option, none, some, List, [], ◌∷◌, str_eq,
  if◌then◌else◌, any_of, Call, served, refused, is_empty,
}
use redline.Auth.Sessions.{
  StoreError, not_found, store_failed, SessionConfig, Session, SessionError, TokenTable,
  issue_session, rotate_refresh_token, revoke_refresh_token,
}
use redline.Http.Keys.{storage_status}

-- The last two fields are whether `tos_accepted_at` and `suspended_at` have a time.
pub record User : Type 0 where
  pub id : String
  pub email : String
  pub password_hash : String
  pub tos_accepted : Bool
  pub suspended : Bool

unfoldable pub user_with_email : String → List User → Option User
user_with_email e [] = none
user_with_email e (u ∷ us) =
    let rest = user_with_email e us in if str_eq u.email e then some u else rest

unfoldable pub get_by_email : Call → List User → String → User ⊎ StoreError
unfolding user_with_email
get_by_email served us e = elim (user_with_email e us) [ none ↦ inr not_found | some u ↦ inl u ]
get_by_email _ us e = inr store_failed

-- `UserRepository.Suspend`, its rows and its error.
unfoldable pub suspend_rows : String → List User → List User
suspend_rows id [] = []
suspend_rows id (u ∷ us) =
    let rest = suspend_rows id us in
    if str_eq u.id id then record u { suspended = true } ∷ rest else u ∷ rest

unfoldable pub suspend_user : Call → List User → String → List User
unfolding suspend_rows
suspend_user refused us id = us
suspend_user _ us id = suspend_rows id us

unfoldable pub suspend_error : Call → List User → String → Option StoreError
suspend_error served us id = if any_of (λ u. str_eq u.id id) us then none else some not_found
suspend_error _ us id = some store_failed

-- `setSessionCookies` and `clearSessionCookies`, or neither.
pub data Cookies : Type 0 where
  untouched cleared : Cookies
  set_to : Session → Cookies

pub record Reply : Type 0 where
  pub status : ℕ
  pub cookies : Cookies

pub record Done : Type 0 where
  pub db : TokenTable
  pub reply : Reply

pub record LoginRequest : Type 0 where
  pub email : String
  pub password : String

abbrev pub plain : ℕ → Reply
plain status = record { status = status; cookies = untouched }

-- A user that is not there is answered like a wrong password.
unfoldable pub no_user_reply : StoreError → Reply
unfolding storage_status
no_user_reply not_found = plain 401
no_user_reply e = plain (storage_status e)

unfoldable pub session_reply : Session ⊎ SessionError → Reply
session_reply (inl s) = record { status = 204; cookies = set_to s }
session_reply (inr _) = plain 500

unfoldable pub refresh_reply : Session ⊎ SessionError → Reply
refresh_reply (inl s) = record { status = 204; cookies = set_to s }
refresh_reply (inr _) = record { status = 401; cookies = cleared }

module _ (trim : String → String) (verify_password : String → String → Bool)
    (digest : String → String) (sign : String → ℕ → ℕ → Option String) (cfg : SessionConfig) where
  unfoldable pub admit : Call → TokenTable → Option String → ℕ → String → User → Done
  unfolding session_reply
  admit on_create db random now password u =
      if verify_password u.password_hash password
      then record {
        db = (issue_session digest sign cfg on_create db u.id random now).db;
        reply = session_reply (issue_session digest sign cfg on_create db u.id random now).outcome;
      }
      else record { db = db; reply = plain 401 }

  -- `none` is a body that does not decode.
  unfoldable pub login :
      Call → Call → List User → TokenTable → Option LoginRequest → Option String → ℕ → Done
  unfolding get_by_email no_user_reply admit
  login on_get on_create us db none random now = record { db = db; reply = plain 400 }
  login on_get on_create us db (some q) random now =
      if is_empty (trim q.email) || is_empty q.password
      then record { db = db; reply = plain 400 }
      else elim (get_by_email on_get us (trim q.email)) [
        | inr e ↦ record { db = db; reply = no_user_reply e }
        | inl u ↦ admit on_create db random now q.password u
      ]

  -- The cookie's value; a cookie that is missing is "".
  unfoldable pub refresh : Call → Call → Call → TokenTable → String → Option String → ℕ → Done
  unfolding refresh_reply
  refresh on_get on_revoke on_create db cookie random now =
      if is_empty cookie then record { db = db; reply = plain 401 } else record {
        db =
            (rotate_refresh_token digest sign cfg on_get on_revoke on_create db cookie random
              now).db;
        reply =
            refresh_reply
              (rotate_refresh_token digest sign cfg on_get on_revoke on_create db cookie random
                now).outcome;
      }

  unfoldable pub logout : Call → Call → TokenTable → String → Done
  logout on_get on_revoke db cookie = record {
    db =
        if is_empty cookie
        then db
        else (revoke_refresh_token digest sign cfg on_get on_revoke db cookie).0;
    reply = record { status = 204; cookies = cleared };
  }
