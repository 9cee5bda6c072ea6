-- ===== src/Http/Guards.antt =====
-- internal/httpmw and policy/middleware.go: the guards in front of the handlers, and the chains that
-- internal/app/app.go makes of them. The check of a password hash and of a token's signature are
-- arguments. An error is its status and its code; the Retry-After header is not modelled.
pub mod Reached
use redline.Base.{
  ℕ, zero, suc, ◌+◌, ◌-◌, ◌*◌, ◌/◌, ◌%◌, ◌^◌, ◌≤◌, ◌<◌, min, max, String, ◌≡◌, refl, sym, ap, subst,
  ◌∙◌, ◌≢◌, ◌↔◌, ◌⊎◌, inl, inr, Bool, true, false, not, ◌&&◌, ◌||◌, Option, none, some, List, [],
  ◌∷◌, ◌++◌, map, arith, str_eq, eq_iff, ltb, leb, ◌==◌, if◌then◌else◌, Bool-cases, Option-cases,
  length, length-append, keep_if, length-keep_if-le, all_of, any_of, All, contains, ℤ, pos, negsuc,
  pos_part, neg_part, ◌+ℤ◌, ◌*ℤ◌, ◌≤ℤ◌, ltb_ℤ, leb_ℤ, wrap64, IsInt64, wrap64_exact, wrap64-IsInt64,
  +ℤ_parts, eq_of_parts, lookup, insert, delete, lookup-insert, lookup-delete, Call, served,
  refused, lost, is_empty, cut_prefix, has_prefix, cut_prefix-append, In, str_contains, has_suffix,
  sub_ℕ,
}
use redline.Auth.Sessions.{StoreError}
use redline.Http.Keys.{ApiKey, KeyTable, get_by_prefix, display_prefix_of}
use redline.Ratelimit.{Decision, allowed, denied}

pub record Principal : Type 0 where
  pub api_key_id : Option ℕ
  pub principal_user : String
  pub principal_scopes : List String

-- What the guards read of a request. A header, a cookie and a parameter that is missing is "".
pub record Request : Type 0 where
  pub authorization : String
  pub access_cookie : String
  pub access_query : String

-- The answer of a guard, or the handler's, which it reaches for a principal.
pub data Answer : Type 0 where
  rejected : ℕ → String → Answer
  reached : Principal → Answer

unfoldable pub bearer_token : Request → Option String
bearer_token r = elim (cut_prefix r.authorization "Bearer ") [
  | none ↦ none
  | some token ↦ if is_empty token then none else some token
]

-- `sessionToken`: the header, the cookie, the query.
unfoldable pub session_token : Request → Option String
unfolding bearer_token
session_token r = elim (bearer_token r) [
  | some token ↦ some token
  | none ↦
      if not (is_empty r.access_cookie)
      then some r.access_cookie
      else if not (is_empty r.access_query)
      then some r.access_query
      else none
]

abbrev pub unauthorized : Answer
unauthorized = rejected 401 "unauthorized"

-- `none` of the check is a stored hash that does not decode.
unfoldable pub check_key :
    (String → String → Option Bool) → String → ApiKey → (Principal → Answer) → Answer
check_key verify candidate k next =
    if k.revoked then unauthorized else elim (verify candidate k.key_hash) [
      | none ↦ unauthorized
      | some valid ↦
          if valid
          then next (record {
            api_key_id = some k.id;
            principal_user = k.user_id;
            principal_scopes = k.scopes;
          })
          else unauthorized
    ]

unfoldable pub api_key_auth :
    (String → String → Option Bool) → Call → KeyTable → Request → (Principal → Answer) → Answer
unfolding check_key bearer_token
api_key_auth verify c db r next = elim (bearer_token r) [
  | none ↦ unauthorized
  | some candidate ↦ elim (get_by_prefix c db (display_prefix_of candidate)) [
    | inr e ↦ unauthorized
    | inl k ↦ check_key verify candidate k next
  ]
]

-- What the token library makes of an access token.
pub data Claims : Type 0 where
  valid_claims : String → Claims
  expired_claims invalid_claims : Claims

unfoldable pub check_claims : Claims → (Principal → Answer) → Answer
check_claims expired_claims next = rejected 401 "token_expired"
check_claims invalid_claims next = rejected 401 "invalid_token"
check_claims (valid_claims subject) next =
    next (record { api_key_id = none; principal_user = subject; principal_scopes = [] })

unfoldable pub jwt_auth : (String → Claims) → Request → (Principal → Answer) → Answer
unfolding check_claims session_token
jwt_auth parse r next = elim (session_token r) [
  | none ↦ unauthorized
  | some token ↦ check_claims (parse token) next
]

unfoldable pub has_scope : List String → String → Bool
has_scope [] want = false
has_scope (s ∷ scopes) want = str_eq s want || has_scope scopes want

unfoldable pub require_scope : String → Principal → (Principal → Answer) → Answer
unfolding has_scope
require_scope scope p next =
    if has_scope p.principal_scopes scope then next p else rejected 403 "forbidden"

-- `none` is an error of the limiter, on which the guard lets the request through.
unfoldable pub rate_limit : Option Decision → Principal → (Principal → Answer) → Answer
rate_limit none p next = next p
rate_limit (some allowed) p next = next p
rate_limit (some (denied wait)) p next = rejected 429 "rate_limited"

-- `RequireScope` and the guards below follow authentication on every route that has them, so that there
-- is a principal; without one the first rejects, and the others let the request through.
-- `AbuseGuardMiddleware`: whether the account is reduced, and if so what its smaller budget says.
-- `none` is an error.
unfoldable pub abuse_guard : Option Bool → Option Bool → Principal → (Principal → Answer) → Answer
abuse_guard (some true) (some false) p next = rejected 429 "rate_limited"
abuse_guard is_reduced within_budget p next = next p

-- Whether the abuse guard records a violation: the cadence signal, or else the entropy signal of a
-- prompt that is not empty. A signal that fails is not flagged.
unfoldable pub flags_violation : Bool → Bool → Bool → Bool
flags_violation cadence has_prompt entropy = if not cadence && has_prompt then entropy else cadence

-- What the guards of one request are answered.
pub record Outside : Type 0 where
  pub verify : String → String → Option Bool
  pub on_lookup : Call
  pub parse : String → Claims
  pub is_reduced : Principal → Option Bool
  pub within_budget : Principal → Option Bool
  pub decide : Principal → Option Decision

-- The abuse guard and the limiter, which follow authentication on the chat routes.
unfoldable pub guarded : Outside → Principal → Answer
unfolding abuse_guard rate_limit
guarded o p =
    abuse_guard (o.is_reduced p) (o.within_budget p) p (λ q. rate_limit (o.decide q) q reached)

-- The chains of the routes. A handler is reached by its principal.
unfoldable pub chat_route : Outside → KeyTable → Request → Answer
unfolding api_key_auth guarded
chat_route o db r = api_key_auth o.verify o.on_lookup db r (guarded o)

unfoldable pub models_route : Outside → KeyTable → Request → Answer
unfolding api_key_auth
models_route o db r = api_key_auth o.verify o.on_lookup db r reached

unfoldable pub dashboard_chat_route : Outside → Request → Answer
unfolding jwt_auth guarded
dashboard_chat_route o r = jwt_auth o.parse r (guarded o)

unfoldable pub browser_route : Outside → Request → Answer
unfolding jwt_auth
browser_route o r = jwt_auth o.parse r reached

unfoldable pub suspend_route : Outside → KeyTable → Request → Answer
unfolding api_key_auth require_scope
suspend_route o db r = api_key_auth o.verify o.on_lookup db r (λ p. require_scope "admin" p reached)
