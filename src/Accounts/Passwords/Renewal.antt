-- ===== src/Accounts/Passwords/Renewal.antt =====
-- auth.go: what a new password leaves of the sessions and the password tokens of its user.
use mathlib.Core.Path.{subst}
use agent_board.Prelude.{
  ℕ, ◌≡◌, refl, sym, ◌∙◌, Bool, true, false, ◌&&◌, Option, some, ◌==◌, ==→eq, is_null, arith,
}
use agent_board.Prelude.Rows.{In-first, first, any}
use agent_board.Prelude.Updates.{any-update}
use agent_board.Store.Tx.{ok, pure, ◌>>◌}
use agent_board.Store.Rules.{
  Ensures, Ensures-pure, Ensures-bind, Ensures-then, Ensures-gets, Ensures-modify, Ensures-found,
  Ensures-guard, transact-Ensures,
}
use agent_board.Accounts.Types.{
  TokenPurpose, User, AuthSession, PasswordToken, AccountDb, AccountEnv,
}
use agent_board.Accounts.Users.{
  is_user, update_user, revoke_sessions, is_outstanding, revoke_outstanding_password_tokens,
}
use agent_board.Accounts.Passwords.{
  set_user_password, complete_password_token, may_setup, setup_password,
}

module _ (id : ℕ) where
  -- Sessions and password tokens of the user that still work.
  abbrev runs : AuthSession → Bool
  runs s = s.user_id == id && is_null s.revoked_at

  abbrev works : PasswordToken → Bool
  works t = t.user_id == id && is_outstanding t

  -- None is left.
  pub record IsShut (db : AccountDb) : Type 0 where
    pub no_session : any runs db.sessions ≡ false
    pub no_token : any works db.password_tokens ≡ false

  -- Both statements, after a fact `R` of the user that the call returns.
  no_session_left :
      (now : ℕ) (R : Type 0)
      → Ensures
          (λ _. R)
          (revoke_sessions (λ s. s.user_id == id) now)
          (λ _ db. R × (any runs db.sessions ≡ false))
  unfolding revoke_sessions
  no_session_left now R = Ensures-bind {Q = λ _ _. R} _ _ (Ensures-gets _ (λ db r. r)) λ n.
      Ensures-then {Q = λ db. R × (any runs db.sessions ≡ false)} _ _
        (Ensures-modify _ (λ db r. (
          r,
          any-update runs (λ s. record s { revoked_at = some now }) db.sessions
              (λ s t. ground arith),
        )))
        (Ensures-pure n (λ db h. h))

  revoke_outstanding_password_tokens-IsShut :
      (env : AccountEnv) (R : Type 0)
      → Ensures
          (λ db. R × (any runs db.sessions ≡ false))
          (revoke_outstanding_password_tokens env id)
          (λ _ db. R × IsShut db)
  unfolding revoke_outstanding_password_tokens
  revoke_outstanding_password_tokens-IsShut env R = Ensures-modify _ (λ db h. (
    h.0,
    record {
      no_session = h.1;
      no_token =
          any-update works (λ t. record t { revoked_at = some env.now }) db.password_tokens
            (λ t w. ground arith);
    },
  ))

-- The row of the user, with the password.
pub record HasPassword (id hash : ℕ) (user : User) : Type 0 where
  pub same_id : user.id ≡ id
  pub is_set : user.password_hash ≡ some hash

update_user-HasPassword :
    (id hash : ℕ) (test : User → Bool) (change : User → User)
    → ((u : User) → test u ≡ true → HasPassword id hash (change u))
    → Ensures (λ _. Unit {0}) (update_user test change) (λ v _. HasPassword id hash v)
unfolding update_user
update_user-HasPassword id hash test change set =
    Ensures-bind {Q = λ row db. first test db.users ≡ row} _ _ (Ensures-gets _ (λ db h. refl))
      λ row.
        Ensures-bind {Q = λ u _. HasPassword id hash (change u)} _ _
          (Ensures-found row (λ u e db h. set u (In-first test db.users (h ∙ e)).1))
          λ u.
            Ensures-then {Q = λ _. HasPassword id hash (change u)} _ _
              (Ensures-guard _ _ (λ _ db h. h))
              (Ensures-then {Q = λ _. HasPassword id hash (change u)} _ _
                (Ensures-guard _ _ (λ _ db h. h))
                (Ensures-then {Q = λ _. HasPassword id hash (change u)} _ _
                  (Ensures-modify _ (λ db h. h)) (Ensures-pure _ (λ db h. h))))

setup-HasPassword :
    (purpose : TokenPurpose) (id hash : ℕ) (u : User)
    → (is_user id u && may_setup purpose u) ≡ true
    → HasPassword id hash (setup_password purpose hash u)
setup-HasPassword TokenPurpose.setup id hash u t = record {
  same_id = ==→eq u.id id (ground (arith, t));
  is_set = refl;
}
setup-HasPassword TokenPurpose.reset id hash u t = record {
  same_id = ==→eq u.id id (ground (arith, t));
  is_set = refl;
}

-- The end of both calls.
revoke_sessions-IsShut :
    (env : AccountEnv) (id now : ℕ) (user : User) (R : User → Type 0)
    → Ensures
        (λ _. R user)
        (revoke_sessions (λ s. s.user_id == id) now
          >> (revoke_outstanding_password_tokens env id >> pure user))
        (λ v db. R v × IsShut id db)
revoke_sessions-IsShut env id now user R =
    Ensures-then {Q = λ db. R user × (any (runs id) db.sessions ≡ false)} _ _
      (no_session_left id now (R user))
      (Ensures-then {Q = λ db. R user × IsShut id db} _ _
        (revoke_outstanding_password_tokens-IsShut id env (R user)) (Ensures-pure user (λ db h. h)))

-- A password that is set, by the user or by an administrator, is the password of the user that the
-- call returns, who is left with no session that is not revoked and no password token that is
-- neither consumed nor revoked.
pub set_user_password-IsShut :
    (env : AccountEnv) (id : ℕ) (expected : Option ℕ) (hash : ℕ) (force : Bool) (db : AccountDb)
    (user : User) (db' : AccountDb)
    → set_user_password env id expected hash force db ≡ (ok user, db')
    → HasPassword id hash user × IsShut id db'
unfolding set_user_password
set_user_password-IsShut env id expected hash force db user db' e =
    transact-Ensures {P = λ _. Unit {0}} {Q = λ v d. HasPassword id hash v × IsShut id d} _
      (Ensures-bind {Q = λ _ _. Unit {0}} _ _ (Ensures-gets _ (λ d p. p)) λ exists.
        Ensures-bind {Q = λ _ _. Unit {0}} _ _ (Ensures-gets _ (λ d p. p)) λ matches.
          Ensures-then {Q = λ _. Unit {0}} _ _ (Ensures-guard _ _ (λ _ d p. p)) (
            Ensures-bind {Q = λ v _. HasPassword id hash v} _ _
              (update_user-HasPassword id hash _ _
                (λ u t. record { same_id = ==→eq u.id id (ground (arith, t)); is_set = refl }))
              λ v. revoke_sessions-IsShut env id env.now v (HasPassword id hash)))
      db tt user db' e

-- A password token that is completed, for a setup or a reset, sets the password of the user that
-- the call returns, and leaves this user with no session that is not revoked and no password token
-- that is neither consumed nor revoked.
pub complete_password_token-IsShut :
    (env : AccountEnv) (hash : ℕ) (purpose : TokenPurpose) (password_hash : ℕ) (db : AccountDb)
    (user : User) (db' : AccountDb)
    → complete_password_token env hash purpose password_hash db ≡ (ok user, db')
    → (user.password_hash ≡ some password_hash) × IsShut user.id db'
unfolding complete_password_token
complete_password_token-IsShut env hash purpose password_hash db user db' e =
    let (id, h, shut) =
      transact-Ensures {P = λ _. Unit {0}}
        {Q = λ v d. (id : ℕ) × HasPassword id password_hash v × IsShut id d} _
        (Ensures-bind {Q = λ _ _. Unit {0}} _ _ (Ensures-gets _ (λ d p. p)) λ row.
          Ensures-bind {Q = λ _ _. Unit {0}} _ _ (Ensures-found row (λ _ _ d p. p)) λ token.
            Ensures-then {Q = λ _. Unit {0}} _ _ (Ensures-modify _ (λ d p. p)) (
              Ensures-bind {Q = λ v _. HasPassword token.user_id password_hash v} _ _
                (update_user-HasPassword token.user_id password_hash _ _
                  (setup-HasPassword purpose token.user_id password_hash))
                λ v. record {
                  at = λ d p w d' q.
                      let (set, shut) =
                        (revoke_sessions-IsShut env token.user_id env.now v
                            (HasPassword token.user_id password_hash)).at
                          d p w d' q in
                      (token.user_id, set, shut);
                }))
        db tt user db' e in
    (h.is_set, subst (λ k. IsShut k db') (sym h.same_id) shut)
