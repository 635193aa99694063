-- ===== src/Accounts/Rotation/Logout.antt =====
-- auth.go and app/auth.go: what a logout leaves of a session.
use mathlib.Core.Path.{subst}
use agent_board.Prelude.{
  ◌==◌, ==→eq, ℕ, ◌≤◌, ◌≡◌, sym, ap, ◌∙◌, Bool, true, false, Bool-cases, ◌&&◌, some, List, [], ◌∷◌,
  ==_refl, inl, inr, is_null, arith,
}
use agent_board.Prelude.Rows.{In, In-any, any, count, update}
use agent_board.Prelude.Updates.{update-none}
use agent_board.Prelude.Counts.{none-count}
use agent_board.Store.Tx.{pure, ◌>>=◌, ◌>>◌, gets, modify, guard, transact}
use agent_board.Accounts.Types.{AuthSession, AccountDb, AccountEnv}
use agent_board.Accounts.Users.{revoke_sessions}
use agent_board.Accounts.Sessions.{had_token, revoke_auth_session_by_refresh_hash, refresh}
use agent_board.Accounts.Frame.History.{run_account_calls-Keeps}
use agent_board.Accounts.Calls.{AccountCall, run_account_calls}
use agent_board.Accounts.Rotation.Frame.{OnTokens}
use agent_board.Accounts.Rotation.{has_hash, Single, Single-Frame}
use agent_board.Accounts.Rotation.Spent.{is_live, Spent, Spent-Frame, refresh-unused, unused-update}
use agent_board.Accounts.Rotation.Once.{unused_not_live, start-Single}

abbrev ended : ℕ → AuthSession → AuthSession
ended now s = record s { revoked_at = some now }

module _ (h now : ℕ) (test : AuthSession → Bool) (s : AuthSession) where
  -- The only session with the token is among those that the update revokes.
  ended_not_live :
      (sessions : List AuthSession)
      → count (has_hash h) sessions ≤ 1
      → In s sessions
      → has_hash h s ≡ true
      → test s ≡ true
      → any (is_live h) (update (λ x. test x && is_null x.revoked_at) (ended now) sessions) ≡ false
  unfolding any count update
  ended_not_live [] n m e t = absurd m
  ended_not_live (x ∷ xs) n (inl q) e t =
      let here : has_hash h x ≡ true = ap (has_hash h) (sym q) ∙ e in
      let revoked : test x ≡ true = ap test (sym q) ∙ t in
      let others : any (has_hash h) xs ≡ false =
        none-count (has_hash h) xs (ground (arith, n, here)) in
      let rest =
        unused-update h (λ x. test x && is_null x.revoked_at) (ended now) xs
          (λ z u v. ground (arith, v)) (unused_not_live h xs others) in
      elim (Bool-cases (is_null x.revoked_at)) [
        | inl r ↦ ground (arith, revoked, r, rest)
        | inr r ↦ ground (arith, r, rest)
      ]
  ended_not_live (x ∷ xs) n (inr m) e t = elim (Bool-cases (has_hash h x)) [
    | inl u ↦
        let none_left = none-count (has_hash h) xs (ground (arith, n, u)) in
        absurd (ground (arith, none_left, In-any (has_hash h) xs s m e))
    | inr u ↦
        let rest = ended_not_live xs (ground (arith, n, u)) m e t in
        elim (Bool-cases (test x && is_null x.revoked_at)) [
          | inl r ↦ ground (arith, u, r, rest)
          | inr r ↦ ground (arith, u, r, rest)
        ]
  ]

module _ (hash now : ℕ) (s : AuthSession) where
  -- The session, which has had the token of the logout.
  record Held (db : AccountDb) : Type 0 where
    single : OnTokens Single db
    is_in : In s db.sessions
    had : had_token db hash s ≡ true

  Held-Spent :
      (mine : AuthSession → Bool) (db : AccountDb)
      → Held db
      → mine s ≡ true
      → Spent s.refresh_token_hash
          (update (λ x. mine x && is_null x.revoked_at) (ended now) db.sessions)
          db.refresh_tokens
  Held-Spent mine db p t =
      let h : ℕ = s.refresh_token_hash in
      let here : any (has_hash h) db.sessions ≡ true =
        In-any (has_hash h) db.sessions s p.is_in (==_refl h) in
      record {
        known = p.single.on_record h here;
        unused =
            ended_not_live h now mine s db.sessions (p.single.at_most_one h) p.is_in (==_refl h) t;
      }

  -- Whether the logout finds a session to revoke or not.
  logout-Spent :
      (db : AccountDb)
      → Held db
      → OnTokens (Spent s.refresh_token_hash) (revoke_auth_session_by_refresh_hash hash now db).1
  unfolding revoke_auth_session_by_refresh_hash revoke_sessions transact ◌>>=◌ ◌>>◌ gets modify
      guard pure
  logout-Spent db p =
      let test : AuthSession → Bool = λ x. had_token db hash x && is_null x.revoked_at in
      let spent = Held-Spent (had_token db hash) db p p.had in
      elim (Bool-cases (count test db.sessions == 0)) [
        | inl n ↦
            let none_open = none-count test db.sessions (==→eq _ 0 n) in
            rw (n, transact, guard)
              (subst (λ xs. Spent s.refresh_token_hash xs db.refresh_tokens)
                (update-none test (ended now) db.sessions none_open) spent)
        | inr n ↦ rw (n, transact, guard) spent
      ]

-- A logout with any token that a session has had ends the session: from a database with no
-- sessions, after every history of calls, a logout with a token of the session, and every further
-- history, a refresh with the token that the session had at the logout is refused and changes
-- nothing, at any time and with any new token.
pub logout-ends :
    (start : AccountDb) (before after : List AccountCall) (hash now : ℕ) (s : AuthSession)
    (later : AccountEnv) (new : ℕ)
    → start.sessions ≡ []
    → In s (run_account_calls start before).sessions
    → had_token (run_account_calls start before) hash s ≡ true
    → let db =
        run_account_calls
          (revoke_auth_session_by_refresh_hash hash now (run_account_calls start before)).1
          after in
      refresh later (some s.refresh_token_hash) new db ≡ (false, db)
logout-ends start before after hash now s later new empty m had =
    let h : ℕ = s.refresh_token_hash in
    let single = run_account_calls-Keeps Single-Frame start before (start-Single start empty) in
    refresh-unused h later new _
      (run_account_calls-Keeps (Spent-Frame h) _ after (
        logout-Spent hash now s (run_account_calls start before)
          (record { single = single; is_in = m; had = had }))).unused
