-- ===== src/Accounts/Rotation/Spent.antt =====
-- auth.go and app/auth.go: the refresh tokens that no session accepts any more.
use agent_board.Prelude.{
  ℕ, ◌≡◌, refl, sym, ap, ◌∙◌, Bool, true, false, Bool-cases, Option-cases, some, List, [], ◌∷◌,
  ◌++◌, ◌&&◌, is_null, ◌==◌, ==→eq, inl, inr, arith,
}
use agent_board.Prelude.Rows.{In-first, In-any, any, update}
use agent_board.Store.Rules.{
  Keeps, Ensures, Ensures-bind, Ensures-then, Ensures-gets, Ensures-found, Ensures-guard,
  Ensures-modify,
}
use agent_board.Store.Keeps.{
  Keeps-pure, Keeps-gets, Keeps-bind, Keeps-then, Keeps-modify, transact-Keeps,
}
use agent_board.Accounts.Types.{AuthSession, RefreshToken, AccountDb, AccountEnv}
use agent_board.Accounts.Users.{revoke_sessions}
use agent_board.Accounts.Sessions.{
  create_auth_session, can_rotate, rotated, rotate_auth_session, insert_refresh_token,
  session_by_refresh_hash, refresh,
}
use agent_board.Accounts.Frame.{AccountFrame}
use agent_board.Accounts.Rotation.Frame.{OnTokens, TokenFrame-AccountFrame}
use agent_board.Accounts.Rotation.{has_hash, is_token, any-append}

-- The session has the token, and it is not revoked.
abbrev pub is_live : ℕ → AuthSession → Bool
is_live h s = has_hash h s && is_null s.revoked_at

module _ (h : ℕ) where
  -- The token is on record, and no session that still runs has it.
  pub record Spent (sessions : List AuthSession) (tokens : List RefreshToken) : Type 0 where
    pub known : any (is_token h) tokens ≡ true
    pub unused : any (is_live h) sessions ≡ false

  -- The same where a session may have it that is about to put its token `r` on record.
  pub record Pending (r : ℕ) (sessions : List AuthSession) (tokens : List RefreshToken)
      : Type 0 where
    pub known : any (is_token h) tokens ≡ true
    pub unused : (h == r) ≡ false → any (is_live h) sessions ≡ false

  pub unused-update :
      (test : AuthSession → Bool) (change : AuthSession → AuthSession) (sessions : List AuthSession)
      → ((s : AuthSession) → test s ≡ true → is_live h s ≡ false → is_live h (change s) ≡ false)
      → any (is_live h) sessions ≡ false
      → any (is_live h) (update test change sessions) ≡ false
  unfolding any update
  unused-update test change [] k u = refl
  unused-update test change (s ∷ sessions) k u =
      let rest = unused-update test change sessions k (ground (arith, u)) in
      elim (Bool-cases (test s)) [
        | inl t ↦ ground (arith, t, rest, u, k s t)
        | inr t ↦ ground (arith, t, rest, u)
      ]

  unused-append :
      (session : AuthSession) (sessions : List AuthSession)
      → any (is_live h) sessions ≡ false
      → (h == session.refresh_token_hash) ≡ false
      → any (is_live h) (sessions ++ session ∷ []) ≡ false
  unused-append session sessions u f = ground (arith, any-append (is_live h) sessions session, u, f)

  revoke-Spent :
      (test : AuthSession → Bool) (now : ℕ) → Keeps (OnTokens Spent) (revoke_sessions test now)
  unfolding revoke_sessions
  revoke-Spent test now = Keeps-bind _ _ (Keeps-gets _) λ n.
      Keeps-then _ _
        (Keeps-modify _ (λ db s. record {
          known = s.known;
          unused =
              unused-update _ (λ x. record x { revoked_at = some now }) db.sessions
                (λ x t u. ground (arith, u)) s.unused;
        }))
        (Keeps-pure _)

  recorded-Spent :
      (t : RefreshToken) (sessions : List AuthSession) (tokens : List RefreshToken)
      → Pending t.token_hash sessions tokens
      → any (is_token t.token_hash) tokens ≡ false
      → Spent sessions (t ∷ tokens)
  unfolding any
  recorded-Spent t sessions tokens p n = elim (Bool-cases (h == t.token_hash)) [
    | inl e ↦
        let q : t.token_hash ≡ h = sym (==→eq h t.token_hash e) in
        absurd (ground (arith, p.known, ap (λ k. any (is_token k) tokens) (sym q) ∙ n))
    | inr f ↦ record { known = ground (arith, p.known); unused = p.unused f }
  ]

  pub insert-Spent :
      (t : RefreshToken)
      → Ensures (OnTokens (Pending t.token_hash)) (insert_refresh_token t) (λ _. OnTokens Spent)
  unfolding insert_refresh_token
  insert-Spent t =
      Ensures-bind
        {Q = λ taken db.
          OnTokens (Pending t.token_hash) db
          × (any (is_token t.token_hash) db.refresh_tokens ≡ taken)}
        _ _ (Ensures-gets _ (λ db p. (p, refl)))
        λ taken.
          Ensures-then
            {Q = λ db.
              OnTokens (Pending t.token_hash) db
              × (any (is_token t.token_hash) db.refresh_tokens ≡ false)}
            _ _ (Ensures-guard _ _ (λ e db p. (p.0, ground (arith, e, p.1))))
            (Ensures-modify _ (λ db p. recorded-Spent t db.sessions db.refresh_tokens p.0 p.1))

  create-Spent :
      (env : AccountEnv) (u r x : ℕ) (db : AccountDb)
      → OnTokens Spent db
      → OnTokens Spent (create_auth_session env u r x db).1
  unfolding create_auth_session
  create-Spent env u r x = transact-Keeps {P = OnTokens Spent} _ (
      Ensures-bind {Q = λ _. OnTokens Spent} _ _ (Ensures-gets _ (λ db s. s)) λ known.
        Ensures-then {Q = OnTokens Spent} _ _ (Ensures-guard _ _ (λ _ db s. s)) (
          Ensures-bind {Q = λ _. OnTokens Spent} _ _ (Ensures-gets _ (λ db s. s)) λ taken.
            Ensures-then {Q = OnTokens Spent} _ _ (Ensures-guard _ _ (λ _ db s. s)) (
              Ensures-then {Q = OnTokens (Pending r)} _ _
                (Ensures-modify _ (λ db s. record {
                  known = s.known;
                  unused = unused-append _ db.sessions s.unused;
                }))
                (Ensures-then {Q = OnTokens Spent} _ _ (insert-Spent _) (Keeps-pure _)))))

  rotate-Spent :
      (id old new x now : ℕ) (db : AccountDb)
      → OnTokens Spent db
      → OnTokens Spent (rotate_auth_session id old new x now db).1
  unfolding rotate_auth_session
  rotate-Spent id old new x now = transact-Keeps {P = OnTokens Spent} _ (
      Ensures-bind {Q = λ _. OnTokens Spent} _ _ (Ensures-gets _ (λ db s. s)) λ row.
        Ensures-bind {Q = λ _. OnTokens Spent} _ _ (Ensures-found row (λ _ _ db s. s)) λ session.
          Ensures-bind {Q = λ _. OnTokens Spent} _ _ (Ensures-gets _ (λ db s. s)) λ taken.
            Ensures-then {Q = OnTokens Spent} _ _ (Ensures-guard _ _ (λ _ db s. s)) (
              Ensures-then {Q = OnTokens (Pending new)} _ _
                (Ensures-modify _ (λ db s. record {
                  known = s.known;
                  unused = λ f.
                      unused-update (can_rotate id old now) (rotated new x now) db.sessions
                        (λ z t u. ground (arith, f)) s.unused;
                }))
                (Ensures-then {Q = OnTokens Spent} _ _ (insert-Spent _) (Keeps-pure _))))

  pub Spent-Frame : AccountFrame (OnTokens Spent)
  Spent-Frame =
      TokenFrame-AccountFrame Spent
        (record { revokes = revoke-Spent; creates_session = create-Spent; rotates = rotate-Spent })

  -- A refresh with a token that no session accepts.
  pub refresh-unused :
      (env : AccountEnv) (new : ℕ) (db : AccountDb)
      → any (is_live h) db.sessions ≡ false
      → refresh env (some h) new db ≡ (false, db)
  unfolding refresh
  refresh-unused env new db u = elim (Option-cases (session_by_refresh_hash h db)) [
    | inl n ↦ rw (n) refl
    | inr (s, e) ↦
        let found = In-first (has_hash h) db.sessions e in
        elim (Bool-cases (is_live h s)) [
          | inl t ↦ absurd (ground (arith, u, In-any (is_live h) db.sessions s found.0 t))
          | inr f ↦
              let r : is_null s.revoked_at ≡ false = ground (arith, found.1, f) in rw (e, r) refl
        ]
  ]
