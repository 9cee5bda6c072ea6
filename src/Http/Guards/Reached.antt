-- ===== src/Http/Guards/Reached.antt =====
-- internal/httpmw/apikey.go and internal/app/app.go: what the guards have established when a handler
-- is reached.
use redline.Base.{
  String, ◌≡◌, refl, ap, subst, ◌≢◌, ◌⊎◌, inl, inr, Bool, true, false, Option, none, some, List, [],
  ◌∷◌, arith, str_eq, Bool-cases, Option-cases, Call, served, refused, lost,
}
use redline.Http.Keys.{
  ApiKey, KeyTable, key_with_prefix, get_by_prefix, display_prefix_of, revoke_user_rows,
  revoke_all_by_user,
}
use redline.Http.Guards.{
  Principal, Request, Answer, rejected, reached, bearer_token, check_key, api_key_auth,
  require_scope, has_scope, abuse_guard, rate_limit, guarded, Outside, chat_route, suspend_route,
}
use redline.Ratelimit.{Decision, allowed, denied}
use redline.Auth.Sessions.{StoreError}

unfoldable pub principal_of : ApiKey → Principal
principal_of k = record {
  api_key_id = some k.id;
  principal_user = k.user_id;
  principal_scopes = k.scopes;
}

-- The request has a bearer token, the row of the token's prefix is not revoked and its hash accepts
-- the token, and the principal is the row's.
pub record Authenticated (o : Outside) (db : KeyTable) (r : Request) (p : Principal) : Type 0 where
  pub token : String
  pub key : ApiKey
  pub bears : bearer_token r ≡ some token
  pub found : get_by_prefix o.on_lookup db (display_prefix_of token) ≡ inl key
  pub live : key.revoked ≡ false
  pub verified : o.verify token key.key_hash ≡ some true
  pub is_owner : principal_of key ≡ p

reached-inj : {p q : Principal} → reached p ≡ reached q → p ≡ q
reached-inj {p = p} e = ap (λ a. elim a [ reached x ↦ x | rejected _ _ ↦ p ]) e

-- A principal that the check of a key hands on.
record Passed (verify : String → String → Option Bool) (token : String) (k : ApiKey)
    (next : Principal → Answer) (p : Principal) : Type 0 where
  live : k.revoked ≡ false
  verified : verify token k.key_hash ≡ some true
  goes_on : next (principal_of k) ≡ reached p

check_key-Passed :
    (verify : String → String → Option Bool) (token : String) (k : ApiKey)
    (next : Principal → Answer) (p : Principal)
    → check_key verify token k next ≡ reached p
    → Passed verify token k next p
unfolding check_key principal_of
check_key-Passed verify token k next p h = record {
  live = ground (arith, h);
  verified = ground (arith, h);
  goes_on = ground (arith, h);
}

api_key_auth-Authenticated :
    (o : Outside) (db : KeyTable) (r : Request) (next : Principal → Answer) (p : Principal)
    → api_key_auth o.verify o.on_lookup db r next ≡ reached p
    → (q : Principal) × Authenticated o db r q × (next q ≡ reached p)
unfolding api_key_auth
api_key_auth-Authenticated o db r next p h = elim (Option-cases (bearer_token r)) [
  | inl e ↦ let no : ⊥ = ground (arith, e, h) in elim no [ ]
  | inr (token, e) ↦
      looked token e (get_by_prefix o.on_lookup db (display_prefix_of token)) refl
        (ground (arith, e, h))
]
  where
    looked :
        (token : String)
        → bearer_token r ≡ some token
        → (found : ApiKey ⊎ StoreError)
        → get_by_prefix o.on_lookup db (display_prefix_of token) ≡ found
        → (elim found as (λ x. Answer) [
          | inr e ↦ rejected 401 "unauthorized"
          | inl k ↦ check_key o.verify token k next
        ])
          ≡ reached p
        → (q : Principal) × Authenticated o db r q × (next q ≡ reached p)
    looked token e (inr no_row) f h = let no : ⊥ = ground (arith, h) in elim no [ ]
    looked token e (inl k) f h =
        let passed = check_key-Passed o.verify token k next p h in
        (
          principal_of k,
          record {
            token = token;
            key = k;
            bears = e;
            found = f;
            live = passed.live;
            verified = passed.verified;
            is_owner = refl;
          },
          passed.goes_on,
        )

abuse_guard-reached :
    (r b : Option Bool) (q : Principal) (next : Principal → Answer) (p : Principal)
    → abuse_guard r b q next ≡ reached p
    → next q ≡ reached p
unfolding abuse_guard
abuse_guard-reached none b q next p h = h
abuse_guard-reached (some false) b q next p h = h
abuse_guard-reached (some true) none q next p h = h
abuse_guard-reached (some true) (some true) q next p h = h
abuse_guard-reached (some true) (some false) q next p h =
    let no : ⊥ = ground (arith, h) in elim no [ ]

rate_limit-reached :
    (d : Option Decision) (q : Principal) (next : Principal → Answer) (p : Principal)
    → rate_limit d q next ≡ reached p
    → next q ≡ reached p
unfolding rate_limit
rate_limit-reached none q next p h = h
rate_limit-reached (some allowed) q next p h = h
rate_limit-reached (some (denied wait)) q next p h = let no : ⊥ = ground (arith, h) in elim no [ ]

require_scope-reached :
    (scope : String) (q : Principal) (next : Principal → Answer) (p : Principal)
    → require_scope scope q next ≡ reached p
    → (has_scope q.principal_scopes scope ≡ true) × (next q ≡ reached p)
unfolding require_scope
require_scope-reached scope q next p h = (ground (arith, h), ground (arith, h))

guarded-reached : (o : Outside) (q p : Principal) → guarded o q ≡ reached p → q ≡ p
unfolding guarded
guarded-reached o q p h = reached-inj (
    rate_limit-reached (o.decide q) q reached p (
      abuse_guard-reached (o.is_reduced q) (o.within_budget q) q
        (λ x. rate_limit (o.decide x) x reached) p h))

chat_route-Authenticated :
    (o : Outside) (db : KeyTable) (r : Request) (p : Principal)
    → chat_route o db r ≡ reached p
    → Authenticated o db r p
unfolding chat_route
chat_route-Authenticated o db r p h =
    let (q, a, passed) = api_key_auth-Authenticated o db r (guarded o) p h in
    subst (Authenticated o db r) (guarded-reached o q p passed) a

-- A request that reaches the suspension of an account has an API key's text: the row with its prefix
-- is not revoked, the stored hash accepts the text, the principal is the row's, and the row's
-- scopes have "admin".
pub suspend_route-Authenticated :
    (o : Outside) (db : KeyTable) (r : Request) (p : Principal)
    → suspend_route o db r ≡ reached p
    → Authenticated o db r p × (has_scope p.principal_scopes "admin" ≡ true)
unfolding suspend_route
suspend_route-Authenticated o db r p h =
    let (q, a, passed) =
      api_key_auth-Authenticated o db r (λ x. require_scope "admin" x reached) p h in
    let (scoped, e) = require_scope-reached "admin" q reached p passed in
    subst (λ x. Authenticated o db r x × (has_scope x.principal_scopes "admin" ≡ true))
      (reached-inj e) (a, scoped)

-- The row that a lookup finds after a user's keys are revoked is revoked if it is the user's.
key_with_prefix-revoke_user_rows :
    (user prefix : String) (ks : List ApiKey) (k : ApiKey)
    → key_with_prefix prefix (revoke_user_rows user ks) ≡ some k
    → str_eq k.user_id user ≡ true
    → k.revoked ≡ true
unfolding key_with_prefix revoke_user_rows
key_with_prefix-revoke_user_rows user prefix [] k h own = ground (arith, h)
key_with_prefix-revoke_user_rows user prefix (x ∷ ks) k h own =
    ground (arith, h, own, key_with_prefix-revoke_user_rows user prefix ks k)

get_by_prefix-key_with_prefix :
    (c : Call) (db : KeyTable) (prefix : String) (k : ApiKey)
    → get_by_prefix c db prefix ≡ inl k
    → key_with_prefix prefix db.keys ≡ some k
unfolding get_by_prefix
get_by_prefix-key_with_prefix refused db prefix k h = let no : ⊥ = ground (arith, h) in elim no [ ]
get_by_prefix-key_with_prefix lost db prefix k h = let no : ⊥ = ground (arith, h) in elim no [ ]
get_by_prefix-key_with_prefix served db prefix k h = ground (arith, h)

revoke_all_by_user-rows :
    (c : Call) (db : KeyTable) (user : String)
    → c ≢ refused
    → (revoke_all_by_user c db user).keys ≡ revoke_user_rows user db.keys
unfolding revoke_all_by_user
revoke_all_by_user-rows refused db user carried = let no : ⊥ = carried refl in elim no [ ]
revoke_all_by_user-rows served db user carried = refl
revoke_all_by_user-rows lost db user carried = refl

revoked-Authenticated :
    (o : Outside) (c : Call) (db : KeyTable) (r : Request) (user : String) (p : Principal)
    → c ≢ refused
    → Authenticated o (revoke_all_by_user c db user) r p
    → str_eq p.principal_user user ≡ false
unfolding principal_of
revoked-Authenticated o c db r user p carried a = elim (Bool-cases (str_eq a.key.user_id user)) [
  | inr other ↦ subst (λ x. str_eq x.principal_user user ≡ false) a.is_owner other
  | inl own ↦
      let row =
        get_by_prefix-key_with_prefix o.on_lookup _ (display_prefix_of a.token) a.key a.found in
      let row' =
        subst (λ ks. key_with_prefix (display_prefix_of a.token) ks ≡ some a.key)
          (revoke_all_by_user-rows c db user carried) row in
      let dead =
        key_with_prefix-revoke_user_rows user (display_prefix_of a.token) db.keys a.key row' own in
      let no : ⊥ = ground (arith, dead, a.live) in elim no [ ]
]

-- A request that an API key authenticates against the rows that the revocation of all of a user's
-- keys leaves, whether or not the reply of that update is lost, does not reach the chat or the
-- suspension of an account as that user. Requests with a session are not meant.
pub revoked-unreached :
    (o : Outside) (c : Call) (db : KeyTable) (r : Request) (user : String) (p : Principal)
    → c ≢ refused
    → (chat_route o (revoke_all_by_user c db user) r ≡ reached p)
      ⊎ (suspend_route o (revoke_all_by_user c db user) r ≡ reached p)
    → str_eq p.principal_user user ≡ false
revoked-unreached o c db r user p carried (inl h) =
    revoked-Authenticated o c db r user p carried (chat_route-Authenticated o _ r p h)
revoked-unreached o c db r user p carried (inr h) =
    revoked-Authenticated o c db r user p carried (suspend_route-Authenticated o _ r p h).0
