-- ===== src/Accounts/Rotation.antt =====
-- auth.go: the sessions that have a refresh token, and the tokens that are on record.
pub mod Frame
pub mod Logout
pub mod Once
pub mod Spent
use agent_board.Prelude.{
  ℕ, ◌+◌, ◌≤◌, ◌≡◌, refl, sym, ap, ◌∙◌, Bool, true, false, not, ◌&&◌, ◌||◌, Bool-cases, Option,
  none, some, List, [], ◌∷◌, ◌++◌, ◌==◌, ==→eq, ==_refl, ltb, is_null, inl, inr, if◌then◌else◌,
  arith,
}
use agent_board.Prelude.Rows.{first, any, count, update, count-append}
use agent_board.Prelude.Counts.{
  count-none, none-count, count_mono, count-update_same, count-update_le, count-update_sum,
}
use agent_board.Store.Tx.{TxOn, pure, ◌>>=◌, ◌>>◌, gets, modify, found, guard, transact}
use agent_board.Store.Rules.{
  Keeps, Ensures, Ensures-bind, Ensures-then, Ensures-gets, Ensures-found, Ensures-guard,
  Ensures-modify, Ensures-pure,
}
use agent_board.Store.Keeps.{
  Keeps-pure, Keeps-gets, Keeps-bind, Keeps-then, Keeps-modify, transact-Keeps,
}
use agent_board.Accounts.Types.{AuthSession, RefreshToken, AccountDb, AccountEnv}
use agent_board.Accounts.Users.{is_user, revoke_sessions}
use agent_board.Accounts.Sessions.{
  create_auth_session, can_rotate, rotated, rotate_auth_session, insert_refresh_token,
}
use agent_board.Accounts.Frame.{AccountFrame}
use agent_board.Accounts.Rotation.Frame.{OnTokens, TokenFrame, TokenFrame-AccountFrame}

abbrev pub has_hash : ℕ → AuthSession → Bool
has_hash h s = s.refresh_token_hash == h

abbrev pub is_token : ℕ → RefreshToken → Bool
is_token h t = t.token_hash == h

pub record Single (sessions : List AuthSession) (tokens : List RefreshToken) : Type 0 where
  pub at_most_one : (h : ℕ) → count (has_hash h) sessions ≤ 1
  pub on_record : (h : ℕ) → any (has_hash h) sessions ≡ true → any (is_token h) tokens ≡ true

-- The same before the token `r` of a session is put on record.
record Pending (r : ℕ) (sessions : List AuthSession) (tokens : List RefreshToken) : Type 0 where
  at_most_one : (h : ℕ) → count (has_hash h) sessions ≤ 1
  on_record :
      (h : ℕ) → (h == r) ≡ false → any (has_hash h) sessions ≡ true → any (is_token h) tokens ≡ true

pub any-append :
    {A : Type 0} (p : A → Bool) (xs : List A) (x : A) → any p (xs ++ x ∷ []) ≡ (any p xs || p x)
unfolding any
any-append p [] x = ground arith
any-append p (y ∷ xs) x = ground (arith, any-append p xs x)

any-counted :
    {A : Type 0} (p : A → Bool) (xs ys : List A)
    → count p ys ≤ count p xs
    → any p ys ≡ true
    → any p xs ≡ true
any-counted p xs ys l h = elim (Bool-cases (any p xs)) [
  | inl t ↦ t
  | inr f ↦ absurd (ground (arith, h, none-count p ys (omega (arith, l, count-none p xs f))))
]

revoked-Single :
    (test : AuthSession → Bool) (now : ℕ) (sessions : List AuthSession) (tokens : List RefreshToken)
    → Single sessions tokens
    → Single (update test (λ s. record s { revoked_at = some now }) sessions) tokens
revoked-Single test now sessions tokens s =
    let same : (h : ℕ)
        → count (has_hash h) (update test (λ x. record x { revoked_at = some now }) sessions)
          ≡ count (has_hash h) sessions =
      λ h.
        count-update_same (has_hash h) test (λ x. record x { revoked_at = some now }) sessions
          (λ x t. refl) in
    record {
      at_most_one = λ h. omega (arith, same h, s.at_most_one h);
      on_record =
          λ h a. s.on_record h (any-counted (has_hash h) sessions _ (omega (arith, same h)) a);
    }

revoke-Single :
    (test : AuthSession → Bool) (now : ℕ) → Keeps (OnTokens Single) (revoke_sessions test now)
unfolding revoke_sessions
revoke-Single test now = Keeps-bind _ _ (Keeps-gets _) λ n.
    Keeps-then _ _ (Keeps-modify _ (λ db h. revoked-Single _ now db.sessions db.refresh_tokens h))
      (Keeps-pure _)

recorded-Single :
    (t : RefreshToken) (sessions : List AuthSession) (tokens : List RefreshToken)
    → Pending t.token_hash sessions tokens
    → Single sessions (t ∷ tokens)
unfolding any
recorded-Single t sessions tokens p = record {
  at_most_one = p.at_most_one;
  on_record = λ h a. elim (Bool-cases (h == t.token_hash)) [
    | inl e ↦ let q : h ≡ t.token_hash = ==→eq h t.token_hash e in rw (q, ==_refl t.token_hash) refl
    | inr n ↦ ground (arith, p.on_record h n a)
  ];
}

insert-Single :
    (t : RefreshToken)
    → Ensures (OnTokens (Pending t.token_hash)) (insert_refresh_token t) (λ _. OnTokens Single)
unfolding insert_refresh_token
insert-Single t =
    Ensures-bind {Q = λ _. OnTokens (Pending t.token_hash)} _ _ (Ensures-gets _ (λ db h. h))
      λ taken.
        Ensures-then {Q = OnTokens (Pending t.token_hash)} _ _ (Ensures-guard _ _ (λ _ db h. h))
          (Ensures-modify _ (λ db h. recorded-Single t db.sessions db.refresh_tokens h))

added-Pending :
    (session : AuthSession) (sessions : List AuthSession) (tokens : List RefreshToken)
    → any (has_hash session.refresh_token_hash) sessions ≡ false
    → Single sessions tokens
    → Pending session.refresh_token_hash (sessions ++ session ∷ []) tokens
unfolding count
added-Pending session sessions tokens n s = record {
  at_most_one = λ h. elim (Bool-cases (has_hash h session)) [
    | inl e ↦
        let q : session.refresh_token_hash ≡ h = ==→eq _ h e in
        let z : count (has_hash h) sessions ≡ 0 =
          count-none (has_hash h) sessions (ap (λ k. any (has_hash k) sessions) (sym q) ∙ n) in
        ground (arith, count-append (has_hash h) sessions (session ∷ []), z, e)
    | inr f ↦ ground (arith, count-append (has_hash h) sessions (session ∷ []), f, s.at_most_one h)
  ];
  on_record =
      λ h f a. s.on_record h (ground (arith, any-append (has_hash h) sessions session, a, f));
}

-- A test that accepts the rows of either of two.
pub neither :
    (id r : ℕ) (sessions : List AuthSession)
    → any (λ s. s.id == id || s.refresh_token_hash == r) sessions ≡ false
    → any (has_hash r) sessions ≡ false
unfolding any
neither id r [] h = refl
neither id r (s ∷ sessions) h = ground (arith, h, neither id r sessions (ground (arith, h)))

create-Single :
    (env : AccountEnv) (u r x : ℕ) (db : AccountDb)
    → OnTokens Single db
    → OnTokens Single (create_auth_session env u r x db).1
unfolding create_auth_session any
create-Single env u r x = transact-Keeps {P = OnTokens Single} _ (
    Ensures-bind {Q = λ _. OnTokens Single} _ _ (Ensures-gets _ (λ db h. h)) λ known.
      Ensures-then {Q = OnTokens Single} _ _ (Ensures-guard _ _ (λ _ db h. h)) (
        Ensures-bind
          {Q = λ taken db.
            OnTokens Single db
            × (any (λ s. s.id == env.gen_random_uuid || s.refresh_token_hash == r) db.sessions
                ≡ taken)}
          _ _ (Ensures-gets _ (λ db h. (h, refl)))
          λ taken.
            Ensures-then {Q = λ db. OnTokens Single db × (any (has_hash r) db.sessions ≡ false)} _ _
              (Ensures-guard _ _ (λ t db h.
                (h.0, neither env.gen_random_uuid r db.sessions (ground (arith, t, h.1)))))
              (Ensures-then {Q = OnTokens (Pending r)} _ _
                (Ensures-modify _ (λ db h. added-Pending _ db.sessions db.refresh_tokens h.1 h.0))
                (Ensures-then {Q = OnTokens Single} _ _ (insert-Single _) (Keeps-pure _)))))

rotated-Pending :
    (id old new x now : ℕ) (sessions : List AuthSession) (tokens : List RefreshToken)
    → any (has_hash new) sessions ≡ false
    → Single sessions tokens
    → Pending new (update (can_rotate id old now) (rotated new x now) sessions) tokens
rotated-Pending id old new x now sessions tokens n s =
    let others : (h : ℕ)
        → (h == new) ≡ false
        → count (has_hash h) (update (can_rotate id old now) (rotated new x now) sessions)
          ≤ count (has_hash h) sessions =
      λ h f.
        count-update_le (has_hash h) (can_rotate id old now) (rotated new x now) sessions
          (λ z t. ground (arith, f)) in
    record {
      at_most_one = λ h. elim (Bool-cases (h == new)) [
        | inl e ↦
            let q : h ≡ new = ==→eq h new e in
            rw (q) (
              omega (
                arith,
                count-update_sum (has_hash new) (can_rotate id old now) (rotated new x now)
                    sessions,
                count-none (has_hash new) sessions n,
                count_mono (can_rotate id old now) (has_hash old) sessions
                    (λ z t. ground (arith, t)),
                s.at_most_one old,
              ))
        | inr f ↦ omega (arith, others h f, s.at_most_one h)
      ];
      on_record = λ h f a. s.on_record h (any-counted (has_hash h) sessions _ (others h f) a);
    }

rotate-Single :
    (id old new x now : ℕ) (db : AccountDb)
    → OnTokens Single db
    → OnTokens Single (rotate_auth_session id old new x now db).1
unfolding rotate_auth_session
rotate-Single id old new x now = transact-Keeps {P = OnTokens Single} _ (
    Ensures-bind {Q = λ _. OnTokens Single} _ _ (Ensures-gets _ (λ db h. h)) λ row.
      Ensures-bind {Q = λ _. OnTokens Single} _ _ (Ensures-found row (λ _ _ db h. h)) λ session.
        Ensures-bind {Q = λ taken db. OnTokens Single db × (any (has_hash new) db.sessions ≡ taken)}
          _ _ (Ensures-gets _ (λ db h. (h, refl)))
          λ taken.
            Ensures-then {Q = λ db. OnTokens Single db × (any (has_hash new) db.sessions ≡ false)} _
              _ (Ensures-guard _ _ (λ t db h. (h.0, ground (arith, t, h.1))))
              (Ensures-then {Q = OnTokens (Pending new)} _ _
                (Ensures-modify _
                  (λ db h. rotated-Pending id old new x now db.sessions db.refresh_tokens h.1 h.0))
                (Ensures-then {Q = OnTokens Single} _ _ (insert-Single _) (Keeps-pure _))))

pub Single-Frame : AccountFrame (OnTokens Single)
Single-Frame =
    TokenFrame-AccountFrame Single
      (record { revokes = revoke-Single; creates_session = create-Single; rotates = rotate-Single })
