-- ===== src/Accounts/Versions/Refusal.antt =====
-- auth_management.go and app/auth.go: the access tokens from before a change of the password.
use agent_board.Prelude.{
  ℕ, suc, ◌≤◌, ◌≡◌, refl, sym, ap, ◌∙◌, Bool, true, ◌&&◌, Bool-cases, Option, none, some, List, [],
  ◌∷◌, inl, inr, arith,
}
use agent_board.Prelude.Rows.{In-first, first, count, update}
use agent_board.Prelude.Updates.{first-update}
use agent_board.Store.Tx.{ok}
use agent_board.Store.Rules.{
  Ensures, Ensures-bind, Ensures-then, Ensures-gets, Ensures-found, Ensures-guard, Ensures-modify,
  transact-Ensures,
}
use agent_board.Store.Keeps.{Keeps-pure, Keeps-then}
use agent_board.Accounts.Types.{User, AccountDb, AccountEnv}
use agent_board.Accounts.Users.{is_user, update_user, revoke_outstanding_password_tokens}
use agent_board.Accounts.Passwords.{with_password, has_version, set_user_password}
use agent_board.Accounts.Sessions.{AccessClaims, valid_claims, authenticate_access_token}
use agent_board.Accounts.Calls.{AccountCall, run_account_calls}
use agent_board.Accounts.Frame.History.{run_account_calls-Keeps}
use agent_board.Accounts.Versions.{AtLeast, AtLeast-Frame, revoke_sessions-AtLeast, modify-AtLeast}

-- A test that accepts no row has no narrower test that does.
uncounted :
    {A : Type 0} (p q : A → Bool) (xs : List A) {y : A}
    → count p xs ≡ 0
    → first (λ z. p z && q z) xs ≡ some y
    → ⊥
unfolding first count
uncounted p q [] n f = ground (arith, f)
uncounted p q (z ∷ zs) {y} n f = elim (Bool-cases (p z)) [
  | inl t ↦ ground (arith, t, n)
  | inr t ↦ uncounted p q zs {y = y} (ground (arith, t, n)) (ground (arith, t, f))
]

-- The only row that a test accepts is the one that a narrower test finds.
first-narrow :
    {A : Type 0} (p q : A → Bool) (xs : List A) {x y : A}
    → count p xs ≡ 1
    → first p xs ≡ some x
    → first (λ z. p z && q z) xs ≡ some y
    → y ≡ x
unfolding first count
first-narrow p q [] n e f = absurd (ground (arith, e))
first-narrow p q (z ∷ zs) {x} {y} n e f = elim (Bool-cases (p z)) [
  | inl t ↦ elim (Bool-cases (q z)) [
    | inl u ↦ ground (arith, t, u, e, f)
    | inr u ↦ absurd (uncounted p q zs {y = y} (ground (arith, t, n)) (ground (arith, t, u, f)))
  ]
  | inr t ↦
      first-narrow p q zs {x = x} {y = y} (ground (arith, t, n)) (ground (arith, t, e))
        (ground (arith, t, f))
]

module _ (id : ℕ) where
  -- The user's row before the change, the only one with its id.
  pub record Only (old : User) (db : AccountDb) : Type 0 where
    pub is_old : first (is_user id) db.users ≡ some old
    pub is_only : count (is_user id) db.users ≡ 1

  renewed-AtLeast :
      (old : User) (expected : Option ℕ) (hash : ℕ) (force : Bool) (db : AccountDb) (user : User)
      → Only old db
      → first (λ u. is_user id u && has_version expected u) db.users ≡ some user
      → AtLeast id (suc old.auth_version) (record db {
        users =
            update
              (λ u. is_user id u && has_version expected u)
              (with_password hash force)
              db.users;
      })
  renewed-AtLeast old expected hash force db user o e =
      let test : User → Bool = λ u. is_user id u && has_version expected u in
      let same : user ≡ old =
        first-narrow (is_user id) (has_version expected) db.users o.is_only o.is_old e in
      let t : test old ≡ true = ap test (sym same) ∙ (In-first test db.users e).1 in
      record {
        row = with_password hash force old;
        is_row =
            first-update (is_user id) test (with_password hash force) db.users (λ x u. refl)
              o.is_old
            ∙ rw (t) refl;
        no_older = omega arith;
      }

  password-AtLeast :
      (old : User) (expected : Option ℕ) (hash : ℕ) (force : Bool)
      → Ensures
          (Only old)
          (update_user (λ u. is_user id u && has_version expected u) (with_password hash force))
          (λ _. AtLeast id (suc old.auth_version))
  unfolding update_user
  password-AtLeast old expected hash force =
      let test : User → Bool = λ u. is_user id u && has_version expected u in
      Ensures-bind {Q = λ row db. Only old db × (first test db.users ≡ row)} _ _
        (Ensures-gets _ (λ db h. (h, refl)))
        λ row.
          Ensures-bind {Q = λ user db. Only old db × (first test db.users ≡ some user)} _ _
            (Ensures-found row (λ user e db h. (h.0, h.1 ∙ e)))
            λ user.
              Ensures-then {Q = λ db. Only old db × (first test db.users ≡ some user)} _ _
                (Ensures-guard _ _ (λ _ db h. h))
                (Ensures-then {Q = λ db. Only old db × (first test db.users ≡ some user)} _ _
                  (Ensures-guard _ _ (λ _ db h. h))
                  (Ensures-then {Q = AtLeast id (suc old.auth_version)} _ _
                    (Ensures-modify _
                      (λ db h. renewed-AtLeast old expected hash force db user h.0 h.1))
                    (Keeps-pure _)))

  set_user_password-AtLeast :
      (env : AccountEnv) (old : User) (expected : Option ℕ) (hash : ℕ) (force : Bool)
      (db : AccountDb)
      → Only old db
      → (user : User) (db' : AccountDb)
      → set_user_password env id expected hash force db ≡ (ok user, db')
      → AtLeast id (suc old.auth_version) db'
  unfolding set_user_password revoke_outstanding_password_tokens
  set_user_password-AtLeast env old expected hash force = transact-Ensures {P = Only old} _ (
      Ensures-bind {Q = λ _. Only old} _ _ (Ensures-gets _ (λ db h. h)) λ exists.
        Ensures-bind {Q = λ _. Only old} _ _ (Ensures-gets _ (λ db h. h)) λ matches.
          Ensures-then {Q = Only old} _ _ (Ensures-guard _ _ (λ _ db h. h)) (
            Ensures-bind {Q = λ _. AtLeast id (suc old.auth_version)} _ _
              (password-AtLeast old expected hash force)
              λ user.
                Keeps-then _ _ (revoke_sessions-AtLeast id _ _ _)
                  (Keeps-then _ _ (modify-AtLeast id _ _ (λ db. refl)) (Keeps-pure user))))

  refused :
      (n now : ℕ) (c : AccessClaims) (db : AccountDb)
      → c.subject ≡ id
      → AtLeast id n db
      → suc c.auth_version ≤ n
      → authenticate_access_token now (some c) db ≡ none
  unfolding authenticate_access_token
  refused n now c db s h l =
      let row : first (is_user c.subject) db.users ≡ some h.row =
        ap (λ k. first (is_user k) db.users) s ∙ h.is_row in
      elim (Bool-cases (valid_claims now c)) [
        | inr f ↦ rw (f) refl
        | inl t ↦ rw (t, row) (ground (arith, h.no_older, l))
      ]

-- Once the password of a user is set, whether by the user or by an administrator, an access token
-- that was issued before, so with a version up to the one the user had, is refused at every time
-- and after every history of calls.
pub set_user_password-refuses :
    (env : AccountEnv) (id : ℕ) (old : User) (expected : Option ℕ) (hash : ℕ) (force : Bool)
    (db : AccountDb)
    → Only id old db
    → (user : User) (db' : AccountDb)
    → set_user_password env id expected hash force db ≡ (ok user, db')
    → (calls : List AccountCall) (now : ℕ) (claims : AccessClaims) → claims.subject ≡ id
    → claims.auth_version ≤ old.auth_version
    → authenticate_access_token now (some claims) (run_account_calls db' calls) ≡ none
set_user_password-refuses env id old expected hash force db o user db' e calls now claims s l =
    refused id (suc old.auth_version) now claims (run_account_calls db' calls) s
      (run_account_calls-Keeps (AtLeast-Frame id (suc old.auth_version)) db' calls
        (set_user_password-AtLeast id env old expected hash force db o user db' e))
      (omega (arith, l))
