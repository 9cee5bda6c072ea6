-- ===== src/Tests/Auth.antt =====
-- Witnesses for internal/auth/session.go and the guards of internal/httpmw.
use redline.Base.{
  ℕ, ◌≤◌, String, ◌≡◌, refl, ◌≢◌, inl, true, false, Option, none, some, List, [], ◌∷◌, arith,
  str_eq, served, refused, cut_prefix,
}
use redline.Auth.Sessions.{SessionConfig}
use redline.Auth.Sessions.Rotation.{Step, looks, redeems, logs_in, count, run}
use redline.Auth.Sessions.Rotation
use redline.Http.Keys.{KeyTable, ApiKey, get_by_prefix, display_prefix_of, revoke_all_by_user}
use redline.Http.Guards.{
  Principal, Request, invalid_claims, reached, Outside, chat_route, suspend_route, has_scope,
}
use redline.Http.Guards.Reached
use redline.Ratelimit.{allowed}

abbrev week : SessionConfig
week = record { access_token_ttl = 900; refresh_token_ttl = 604800 }

abbrev plain_sign : String → ℕ → ℕ → Option String
plain_sign user now expires = some user

-- Two callers look the same token up before either redeems it.
abbrev raced : List Step
raced =
    logs_in served "u" (some "t") 0
    ∷ looks 1 served "t" 10
    ∷ looks 2 served "t" 11
    ∷ redeems 1 served served (some "x") 12
    ∷ redeems 2 served served (some "y") 13
    ∷ []

rotated_once_example :
    count 0
      (run
        (λ s. s)
        plain_sign
        week
        (record { db = record { rows = []; next_id = 0 }; held = []; redeemed = [] })
        raced).redeemed
    ≤ 1
rotated_once_example = Rotation.rotated_once (λ s. s) plain_sign week raced 0

abbrev outside : Outside
outside = record {
  verify = λ candidate hash. some (str_eq candidate hash);
  on_lookup = served;
  parse = λ token. invalid_claims;
  is_reduced = λ p. some false;
  within_budget = λ p. none;
  decide = λ p. some allowed;
}

abbrev key_of : ℕ → String → String → String → List String → ApiKey
key_of id user plaintext prefix scopes = record {
  id = id;
  user_id = user;
  key_hash = plaintext;
  display_prefix = prefix;
  scopes = scopes;
  revoked = false;
}

abbrev two_keys : KeyTable
two_keys = record {
  keys =
      key_of 0 "alice" "rl_abcdefgh.one" "rl_abcdefgh" []
      ∷ key_of 1 "bob" "rl_ijklmnop.two" "rl_ijklmnop" ("admin" ∷ [])
      ∷ [];
  next_key = 2;
}

abbrev by_bob : Request
by_bob = record { authorization = "Bearer rl_ijklmnop.two"; access_cookie = ""; access_query = "" }

abbrev bob : Principal
bob = record { api_key_id = some 1; principal_user = "bob"; principal_scopes = "admin" ∷ [] }

bob_admitted : suspend_route outside two_keys by_bob ≡ reached bob
unfolding suspend_route cut_prefix get_by_prefix display_prefix_of
bob_admitted = refl

bob_chats : chat_route outside (revoke_all_by_user served two_keys "alice") by_bob ≡ reached bob
unfolding chat_route cut_prefix get_by_prefix revoke_all_by_user display_prefix_of
bob_chats = refl

served_refused : served ≢ refused
served_refused e = ground (arith, e)

suspend_route-Authenticated_example :
    Reached.Authenticated outside two_keys by_bob bob × (has_scope ("admin" ∷ []) "admin" ≡ true)
suspend_route-Authenticated_example =
    Reached.suspend_route-Authenticated outside two_keys by_bob bob bob_admitted

revoked-unreached_example : str_eq "bob" "alice" ≡ false
revoked-unreached_example =
    Reached.revoked-unreached outside served two_keys by_bob "alice" bob served_refused
      (inl bob_chats)
