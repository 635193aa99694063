-- ===== src/Accounts/Rotation/Once.antt =====
-- auth.go and app/auth.go: a refresh token after its refresh.
use agent_board.Prelude.{
  ℕ, ◌≡◌, refl, ap, ◌∙◌, true, false, Option, none, some, List, [], ◌∷◌, inl, inr, arith,
}
use agent_board.Prelude.Rows.{In-first, In-any, first, any, count, update}
use agent_board.Prelude.Counts.{none-count, count-update_only}
use agent_board.Store.Tx.{ok}
use agent_board.Store.Rules.{
  Ensures-bind, Ensures-then, Ensures-gets, Ensures-found, Ensures-guard, Ensures-modify,
  Result-cases, transact-Ensures,
}
use agent_board.Store.Keeps.{Keeps-pure}
use agent_board.Accounts.Types.{AuthSession, RefreshToken, AccountDb, AccountEnv}
use agent_board.Accounts.Sessions.{can_rotate, rotated, rotate_auth_session, rotation, refresh}
use agent_board.Accounts.Frame.History.{run_account_calls-Keeps}
use agent_board.Accounts.Calls.{AccountCall, run_account_calls}
use agent_board.Accounts.Rotation.Frame.{OnTokens}
use agent_board.Accounts.Rotation.{has_hash, Single, Single-Frame}
use agent_board.Accounts.Rotation.Spent.{
  is_live, Spent, Pending, Spent-Frame, refresh-unused, insert-Spent,
}

module _ (h : ℕ) where
  pub unused_not_live :
      (sessions : List AuthSession)
      → any (has_hash h) sessions ≡ false
      → any (is_live h) sessions ≡ false
  unfolding any
  unused_not_live [] u = refl
  unused_not_live (s ∷ sessions) u = ground (arith, u, unused_not_live sessions (ground (arith, u)))

  -- A rotation away from the token.
  spent-rotated :
      (id new x now : ℕ) (session : AuthSession) (sessions : List AuthSession)
      (tokens : List RefreshToken)
      → Single sessions tokens
      → first (can_rotate id h now) sessions ≡ some session
      → any (has_hash new) sessions ≡ false
      → Pending h new (update (can_rotate id h now) (rotated new x now) sessions) tokens
  spent-rotated id new x now session sessions tokens s e n =
      let found = In-first (can_rotate id h now) sessions e in
      let here : any (has_hash h) sessions ≡ true =
        In-any (has_hash h) sessions session found.0 (ground (arith, found.1)) in
      record {
        known = s.on_record h here;
        unused = λ f. unused_not_live _ (
            none-count (has_hash h) _ (
              count-update_only (has_hash h) (can_rotate id h now) (rotated new x now) sessions
                {y = session} (s.at_most_one h) e (λ z t. (ground (arith, t), ground (arith, f)))));
      }

  rotated-Spent :
      (id new x now : ℕ) (db : AccountDb)
      → OnTokens Single db
      → (session : AuthSession) (db' : AccountDb)
      → rotate_auth_session id h new x now db ≡ (ok session, db')
      → OnTokens (Spent h) db'
  unfolding rotate_auth_session
  rotated-Spent id new x now = transact-Ensures {P = OnTokens Single} _ (
      Ensures-bind
        {Q = λ row db. OnTokens Single db × (first (can_rotate id h now) db.sessions ≡ row)} _ _
        (Ensures-gets _ (λ db s. (s, refl)))
        λ row.
          Ensures-bind
            {Q = λ session db.
              OnTokens Single db × (first (can_rotate id h now) db.sessions ≡ some session)}
            _ _ (Ensures-found row (λ session e db s. (s.0, s.1 ∙ e)))
            λ session.
              Ensures-bind
                {Q = λ taken db.
                  OnTokens Single db
                  × (first (can_rotate id h now) db.sessions ≡ some session)
                  × (any (has_hash new) db.sessions ≡ taken)}
                _ _ (Ensures-gets _ (λ db s. (s.0, s.1, refl)))
                λ taken.
                  Ensures-then
                    {Q = λ db.
                      OnTokens Single db
                      × (first (can_rotate id h now) db.sessions ≡ some session)
                      × (any (has_hash new) db.sessions ≡ false)}
                    _ _ (Ensures-guard _ _ (λ t db s. (s.0, s.1, ground (arith, t, s.2))))
                    (Ensures-then {Q = OnTokens (Pending h new)} _ _
                      (Ensures-modify _ (λ db s.
                        spent-rotated id new x now session db.sessions db.refresh_tokens s.0 s.1
                          s.2))
                      (Ensures-then {Q = OnTokens (Spent h)} _ _ (insert-Spent h _)
                        (Keeps-pure _))))

  rotation-Spent :
      (env : AccountEnv) (new : ℕ) (session : Option AuthSession) (db : AccountDb)
      → OnTokens Single db
      → (rotation env h new session db).0 ≡ true
      → OnTokens (Spent h) (rotation env h new session db).1
  rotation-Spent env new none db s t = absurd (ground (arith, t))
  rotation-Spent env new (some session) db s t =
      let done = rotate_auth_session session.id h new session.expires_at env.now db in
      elim (Result-cases (done.0)) [
        | inl (e, q) ↦ absurd (ground (arith, t, q))
        | inr (a, q) ↦
            rotated-Spent session.id new session.expires_at env.now db s a done.1
              (ap (λ r. (r, done.1)) q)
      ]

  refresh-Spent :
      (env : AccountEnv) (new : ℕ) (db : AccountDb)
      → OnTokens Single db
      → (refresh env (some h) new db).0 ≡ true
      → OnTokens (Spent h) (refresh env (some h) new db).1
  unfolding refresh
  refresh-Spent env new db s t = rotation-Spent env new _ db s t

pub start-Single : (start : AccountDb) → start.sessions ≡ [] → OnTokens Single start
unfolding count any
start-Single start e = record {
  at_most_one = λ h. ground (arith, ap (count (has_hash h)) e);
  on_record = λ h a. absurd (ground (arith, a, ap (any (has_hash h)) e));
}

-- A refresh token works once: from a database with no sessions, after every history of calls, and
-- a refresh with the token that succeeds, and every further history, a refresh with the same token
-- is refused and changes nothing, at any time and with any new token.
pub refresh-once :
    (start : AccountDb) (before after : List AccountCall) (env later : AccountEnv)
    (hash new new' : ℕ)
    → start.sessions ≡ []
    → (refresh env (some hash) new (run_account_calls start before)).0 ≡ true
    → let db =
        run_account_calls (refresh env (some hash) new (run_account_calls start before)).1 after in
      refresh later (some hash) new' db ≡ (false, db)
refresh-once start before after env later hash new new' empty t =
    refresh-unused hash later new' _
      (run_account_calls-Keeps (Spent-Frame hash) _ after (
        refresh-Spent hash env new (run_account_calls start before)
          (run_account_calls-Keeps Single-Frame start before (start-Single start empty)) t)).unused
