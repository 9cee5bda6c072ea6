-- ===== src/Auth/Sessions/Rotation.antt =====
-- internal/auth/session.go: rotations that run at once. A rotation is two requests of the database,
-- the lookup and the update, and other calls may come between them.
use redline.Base.{
  ℕ, suc, ◌+◌, ◌≤◌, String, ◌≡◌, refl, ◌⊎◌, inl, inr, true, false, not, ◌&&◌, Option, none, some,
  List, [], ◌∷◌, arith, ◌==◌, if◌then◌else◌, Bool-cases, Option-cases, Call, served, refused, lost,
}
use redline.Auth.Sessions.{
  RefreshToken, TokenTable, StoreError, Session, SessionError, SessionConfig, row_with_hash,
  is_active, revoke_rows, revoke_error, revoke_token, new_row, create_token, issue_refresh,
  issue_session, look_up, redeem, get_by_hash, revoke_refresh_token,
}

-- `redeemed` has the ids of the rows whose rotation returned a session. `held` has what each caller's
-- lookup returned.
pub record World : Type 0 where
  pub db : TokenTable
  pub held : List (ℕ × RefreshToken)
  pub redeemed : List ℕ

pub data Step : Type 0 where
  looks : ℕ → Call → String → ℕ → Step
  redeems : ℕ → Call → Call → Option String → ℕ → Step
  logs_in : Call → String → Option String → ℕ → Step
  logs_out : Call → Call → String → Step

abbrev pub held_by : ℕ → List (ℕ × RefreshToken) → Option RefreshToken
held_by caller [] = none
held_by caller ((k, t) ∷ rest) = if k == caller then some t else held_by caller rest

abbrev pub count : ℕ → List ℕ → ℕ
count id [] = 0
count id (x ∷ xs) = let rest = count id xs in if x == id then suc rest else rest

module _ (digest : String → String) (sign : String → ℕ → ℕ → Option String)
    (cfg : SessionConfig) where
  unfoldable pub redeem_step : World → RefreshToken → Call → Call → Option String → ℕ → World
  redeem_step w t on_revoke on_create random now = record w {
    db = (redeem digest sign cfg on_revoke on_create w.db t random now).db;
    redeemed = elim (redeem digest sign cfg on_revoke on_create w.db t random now).outcome [
      | inl _ ↦ t.id ∷ w.redeemed
      | inr _ ↦ w.redeemed
    ];
  }

  unfoldable pub step : World → Step → World
  unfolding redeem_step
  step w (looks caller c plaintext now) = elim (look_up digest sign cfg c w.db plaintext now) [
    | inl t ↦ record w { held = (caller, t) ∷ w.held }
    | inr _ ↦ w
  ]
  step w (redeems caller on_revoke on_create random now) = elim (held_by caller w.held) [
    | none ↦ w
    | some t ↦ redeem_step w t on_revoke on_create random now
  ]
  step w (logs_in c user random now) = record w {
    db = (issue_session digest sign cfg c w.db user random now).db;
  }
  step w (logs_out on_get on_revoke plaintext) = record w {
    db = (revoke_refresh_token digest sign cfg on_get on_revoke w.db plaintext).0;
  }

  unfoldable pub run : World → List Step → World
  run w [] = w
  run w (s ∷ ss) = run (step w s) ss

active-revoke :
    (k id : ℕ) (ts : List RefreshToken)
    → is_active id (revoke_rows k ts) ≡ (is_active id ts && not (id == k))
unfolding is_active revoke_rows
active-revoke k id [] = refl
active-revoke k id (t ∷ ts) = ground (arith, active-revoke k id ts)

-- What holds of the table and the redeemed ids, for each id.
record RedeemedOnce (db : TokenTable) (redeemed : List ℕ) : Type 0 where
  once : (id : ℕ) → count id redeemed ≤ 1
  active_unused : (id : ℕ) → is_active id db.rows ≡ true → count id redeemed ≡ 0
  next_unused : (id : ℕ) → db.next_id ≤ id → count id redeemed ≡ 0
  next_absent : (id : ℕ) → db.next_id ≤ id → is_active id db.rows ≡ false

revoke-RedeemedOnce :
    (c : Call) (db : TokenTable) (k : ℕ) (redeemed : List ℕ)
    → RedeemedOnce db redeemed
    → RedeemedOnce (revoke_token c db k) redeemed
unfolding revoke_token
revoke-RedeemedOnce refused db k redeemed h = h
revoke-RedeemedOnce served db k redeemed h = record {
  once = h.once;
  active_unused = λ id a. h.active_unused id (ground (arith, a, active-revoke k id db.rows));
  next_unused = h.next_unused;
  next_absent = λ id le. ground (arith, h.next_absent id le, active-revoke k id db.rows);
}
revoke-RedeemedOnce lost db k redeemed h = record {
  once = h.once;
  active_unused = λ id a. h.active_unused id (ground (arith, a, active-revoke k id db.rows));
  next_unused = h.next_unused;
  next_absent = λ id le. ground (arith, h.next_absent id le, active-revoke k id db.rows);
}

new_row-RedeemedOnce :
    (db : TokenTable) (user h : String) (expires : ℕ) (redeemed : List ℕ)
    → RedeemedOnce db redeemed
    → RedeemedOnce (new_row db user h expires) redeemed
unfolding new_row is_active
new_row-RedeemedOnce db user h expires redeemed r = elim (Option-cases (row_with_hash h db.rows)) [
  | inr (t, e) ↦ rw (e, new_row) r
  | inl e ↦
      rw (e, new_row)
        (record {
          once = r.once;
          active_unused = λ id a. ground (arith, a, r.active_unused id, r.next_unused id);
          next_unused = λ id le. r.next_unused id (omega (arith, le));
          next_absent = λ id le. ground (arith, le, r.next_absent id);
        })
]

create-RedeemedOnce :
    (c : Call) (db : TokenTable) (user h : String) (expires : ℕ) (redeemed : List ℕ)
    → RedeemedOnce db redeemed
    → RedeemedOnce (create_token c db user h expires) redeemed
unfolding create_token
create-RedeemedOnce refused db user h expires redeemed r = r
create-RedeemedOnce served db user h expires redeemed r =
    new_row-RedeemedOnce db user h expires redeemed r
create-RedeemedOnce lost db user h expires redeemed r =
    new_row-RedeemedOnce db user h expires redeemed r

module _ (digest : String → String) (sign : String → ℕ → ℕ → Option String)
    (cfg : SessionConfig) where
  issue-RedeemedOnce :
      (c : Call) (db : TokenTable) (user : String) (random : Option String) (now : ℕ)
      (redeemed : List ℕ)
      → RedeemedOnce db redeemed
      → RedeemedOnce (issue_session digest sign cfg c db user random now).db redeemed
  unfolding issue_session issue_refresh
  issue-RedeemedOnce c db user random now redeemed r =
      elim (Option-cases (sign user now (now + cfg.access_token_ttl))) [
        | inl e ↦ rw (e, issue_session) r
        | inr (access, e) ↦ rw (e, issue_session) (refreshed random access)
      ]
    where
      refreshed :
          (random : Option String) (access : String)
          → RedeemedOnce (issue_refresh digest sign cfg c db user random now access).db redeemed
      refreshed none access = r
      refreshed (some plaintext) access = create-RedeemedOnce c db user _ _ redeemed r

  -- The update of a row that is active makes it redeemed; it is active no more.
  redeemed-RedeemedOnce :
      (db : TokenTable) (k : ℕ) (redeemed : List ℕ)
      → is_active k db.rows ≡ true
      → RedeemedOnce db redeemed
      → RedeemedOnce (revoke_token served db k) (k ∷ redeemed)
  unfolding revoke_token
  redeemed-RedeemedOnce db k redeemed a r = record {
    once = λ id. ground (arith, a, r.once id, r.active_unused k a);
    active_unused = λ id b. ground (arith, b, active-revoke k id db.rows, r.active_unused id);
    next_unused = λ id le. ground (arith, a, le, r.next_unused id le, r.next_absent id le);
    next_absent = λ id le. ground (arith, active-revoke k id db.rows, r.next_absent id le);
  }

  redeem-RedeemedOnce :
      (w : World) (t : RefreshToken) (c c' : Call) (random : Option String) (now : ℕ)
      → RedeemedOnce w.db w.redeemed
      → RedeemedOnce
          (redeem_step digest sign cfg w t c c' random now).db
          (redeem_step digest sign cfg w t c c' random now).redeemed
  unfolding redeem_step redeem revoke_error
  redeem-RedeemedOnce w t refused c' random now r =
      revoke-RedeemedOnce refused w.db t.id w.redeemed r
  redeem-RedeemedOnce w t lost c' random now r = revoke-RedeemedOnce lost w.db t.id w.redeemed r
  redeem-RedeemedOnce w t served c' random now r = elim (Bool-cases (is_active t.id w.db.rows)) [
    | inl e ↦
        rw (e, redeem_step)
          (rw (e, redeem)
            (either_way _ _
              (issue-RedeemedOnce c' _ t.user_id random now _
                (redeemed-RedeemedOnce w.db t.id w.redeemed e r))
              (issue-RedeemedOnce c' _ t.user_id random now _
                (revoke-RedeemedOnce served w.db t.id w.redeemed r))))
    | inr e ↦
        rw (e, redeem_step) (rw (e, redeem) (revoke-RedeemedOnce served w.db t.id w.redeemed r))
  ]
    where
      either_way :
          (db : TokenTable) (o : Session ⊎ SessionError)
          → RedeemedOnce db (t.id ∷ w.redeemed)
          → RedeemedOnce db w.redeemed
          → RedeemedOnce db
              (elim o as (λ x. List ℕ) [ inl _ ↦ t.id ∷ w.redeemed | inr _ ↦ w.redeemed ])
      either_way db (inl s) used unused = used
      either_way db (inr s) used unused = unused

  step-RedeemedOnce :
      (w : World) (s : Step)
      → RedeemedOnce w.db w.redeemed
      → RedeemedOnce (step digest sign cfg w s).db (step digest sign cfg w s).redeemed
  unfolding step revoke_refresh_token
  step-RedeemedOnce w (looks caller c plaintext now) r =
      looked (look_up digest sign cfg c w.db plaintext now)
    where
      looked :
          (o : RefreshToken ⊎ StoreError)
          → RedeemedOnce
              (elim o as (λ x. World) [
                | inl t ↦ record w { held = (caller, t) ∷ w.held }
                | inr _ ↦ w
              ]).db
              (elim o as (λ x. World) [
                | inl t ↦ record w { held = (caller, t) ∷ w.held }
                | inr _ ↦ w
              ]).redeemed
      looked (inl t) = r
      looked (inr e) = r
  step-RedeemedOnce w (redeems caller c c' random now) r = holder (held_by caller w.held)
    where
      holder :
          (o : Option RefreshToken)
          → RedeemedOnce
              (elim o as (λ x. World) [
                | none ↦ w
                | some t ↦ redeem_step digest sign cfg w t c c' random now
              ]).db
              (elim o as (λ x. World) [
                | none ↦ w
                | some t ↦ redeem_step digest sign cfg w t c c' random now
              ]).redeemed
      holder none = r
      holder (some t) = redeem-RedeemedOnce w t c c' random now r
  step-RedeemedOnce w (logs_in c user random now) r =
      issue-RedeemedOnce c w.db user random now w.redeemed r
  step-RedeemedOnce w (logs_out c c' plaintext) r = out (get_by_hash c w.db (digest plaintext))
    where
      out :
          (o : RefreshToken ⊎ StoreError)
          → RedeemedOnce
              (elim o as (λ x. TokenTable × Option StoreError) [
                | inr e ↦ (w.db, some e)
                | inl t ↦ (revoke_token c' w.db t.id, revoke_error c' w.db t.id)
              ]).0
              w.redeemed
      out (inl t) = revoke-RedeemedOnce c' w.db t.id w.redeemed r
      out (inr e) = r

  run-RedeemedOnce :
      (ss : List Step) (w : World)
      → RedeemedOnce w.db w.redeemed
      → RedeemedOnce (run digest sign cfg w ss).db (run digest sign cfg w ss).redeemed
  unfolding run
  run-RedeemedOnce [] w r = r
  run-RedeemedOnce (s ∷ ss) w r =
      run-RedeemedOnce ss (step digest sign cfg w s) (step-RedeemedOnce w s r)

  -- However lookups, revocations, logins and logouts of any callers are interleaved from an empty
  -- table on, and however their requests end, the rotation of one refresh token returns a
  -- session at most once.
  pub rotated_once :
      (ss : List Step) (id : ℕ)
      → count id
          (run digest sign cfg
            (record { db = record { rows = []; next_id = 0 }; held = []; redeemed = [] })
            ss).redeemed
        ≤ 1
  unfolding is_active
  rotated_once ss id =
      (run-RedeemedOnce ss _ (record {
        once = λ i. omega arith;
        active_unused = λ i a. refl;
        next_unused = λ i le. refl;
        next_absent = λ i le. refl;
      })).once
        id
