-- ===== src/Issues/Board/Creation.antt =====
-- board_order.go and core.go: where a new issue stands.
use agent_board.Prelude.{
  ℕ, ◌+◌, ◌≤◌, ◌≡◌, refl, sym, ap, ◌∙◌, Bool, true, false, not, ◌&&◌, Bool-cases, Option, List, [],
  ◌∷◌, ◌++◌, map, ◌==◌, ltb, inl, inr, if◌then◌else◌, arith,
}
use agent_board.Prelude.Rows.{In, In-select, any, select, update}
use agent_board.Prelude.Sort.{insert, sort, sort-In}
use agent_board.Store.Tx.{
  Error, Result, TxOn, invalid_argument, database_error, pure, fail, ◌>>=◌, ◌>>◌, gets, modify,
  guard, transact,
}
use agent_board.Issues.Board.{
  IssueStatus, same_issue_status, valid_issue_status, BoardIssue, Board, in_column, goes_above,
  issue_id, reported,
}
use agent_board.Issues.Board.Columns.{column}

pub data NewIssuePlacement : Type 0 where
  top bottom other_placement : NewIssuePlacement

-- COALESCE(MAX(board_position), -1) + 1
unfoldable pub next_position : (project_id : ℕ) → IssueStatus → Board → ℕ
next_position project_id status [] = 0
next_position project_id status (i ∷ rest) =
    let next = next_position project_id status rest in
    if in_column project_id status i && ltb next (i.board_position + 1)
    then i.board_position + 1
    else next

abbrev pub pushed_down : BoardIssue → BoardIssue
pushed_down i = record i { board_position = i.board_position + 1 }

-- newIssueBoardPosition
unfoldable pub new_issue_board_position :
    (project_id : ℕ) → IssueStatus → NewIssuePlacement → TxOn Board ℕ
unfolding next_position
new_issue_board_position project_id status top = do
  modify (update (in_column project_id status) pushed_down)
  pure 0
new_issue_board_position project_id status bottom = gets (next_position project_id status)
new_issue_board_position project_id status other_placement = fail invalid_argument

-- CreateIssue, as far as the board is concerned: the new id, the time, the setting of the project,
-- and whether the rest of the call goes through.
unfoldable pub create_issue :
    (failure : Option Error)
    → (id now project_id : ℕ) → IssueStatus
    → NewIssuePlacement
    → Board
    → Result (Unit {0}) × Board
unfolding new_issue_board_position reported
create_issue failure id now project_id status placement = transact do
  position ← new_issue_board_position project_id status placement
  taken ← gets (λ (board : Board). any (λ i. i.id == id) board)
  guard (valid_issue_status status && not taken) database_error
  modify (λ board.
      record {
        id = id;
        project_id = project_id;
        status = status;
        board_position = position;
        created_at = now;
      }
      ∷ board)
  reported failure

-- The order of a column under a change of its issues that keeps their order.
insert-map :
    (f : BoardIssue → BoardIssue) (x : BoardIssue) (ys : List BoardIssue)
    → ((y : BoardIssue) → In y ys → goes_above (f x) (f y) ≡ goes_above x y)
    → insert goes_above (f x) (map f ys) ≡ map f (insert goes_above x ys)
unfolding insert
insert-map f x [] h = refl
insert-map f x (y ∷ ys) h = elim (Bool-cases (goes_above x y)) [
  | inl t ↦ rw (h y (inl refl), t) refl
  | inr n ↦ rw (h y (inl refl), n) (ap (λ zs. f y ∷ zs) (insert-map f x ys (λ z m. h z (inr m))))
]

sort-map :
    (f : BoardIssue → BoardIssue) (xs : List BoardIssue)
    → ((x y : BoardIssue) → goes_above (f x) (f y) ≡ goes_above x y)
    → sort goes_above (map f xs) ≡ map f (sort goes_above xs)
unfolding sort
sort-map f [] h = refl
sort-map f (x ∷ xs) h =
    ap (insert goes_above (f x)) (sort-map f xs h)
    ∙ insert-map f x (sort goes_above xs) (λ y m. h x y)

insert-first :
    (x : BoardIssue) (ys : List BoardIssue)
    → ((y : BoardIssue) → In y ys → goes_above x y ≡ true)
    → insert goes_above x ys ≡ x ∷ ys
unfolding insert
insert-first x [] h = refl
insert-first x (y ∷ ys) h = rw (h y (inl refl)) refl

insert-last :
    (x : BoardIssue) (ys : List BoardIssue)
    → ((y : BoardIssue) → In y ys → goes_above x y ≡ false)
    → insert goes_above x ys ≡ ys ++ x ∷ []
unfolding insert
insert-last x [] h = refl
insert-last x (y ∷ ys) h =
    rw (h y (inl refl)) (ap (λ zs. y ∷ zs) (insert-last x ys (λ z m. h z (inr m))))

select-update :
    (test : BoardIssue → Bool) (f : BoardIssue → BoardIssue) (xs : List BoardIssue)
    → ((x : BoardIssue) → test (f x) ≡ test x)
    → select test (update test f xs) ≡ map f (select test xs)
unfolding select update
select-update test f [] h = refl
select-update test f (x ∷ xs) h = elim (Bool-cases (test x)) [
  | inl t ↦ rw (t, h x ∙ t) (ap (λ ys. f x ∷ ys) (select-update test f xs h))
  | inr n ↦ rw (n, n) (select-update test f xs h)
]

select-update_other :
    (p test : BoardIssue → Bool) (f : BoardIssue → BoardIssue) (xs : List BoardIssue)
    → ((x : BoardIssue) → test x ≡ true → (p x ≡ false) × (p (f x) ≡ false))
    → select p (update test f xs) ≡ select p xs
unfolding select update
select-update_other p test f [] h = refl
select-update_other p test f (x ∷ xs) h = elim (Bool-cases (test x)) [
  | inl t ↦ rw (t, (h x t).0, (h x t).1) (select-update_other p test f xs h)
  | inr n ↦ rw (n) (ap (λ ys. if p x then x ∷ ys else ys) (select-update_other p test f xs h))
]

pushed_ids : (xs : List BoardIssue) → map issue_id (map pushed_down xs) ≡ map issue_id xs
pushed_ids [] = refl
pushed_ids (x ∷ xs) = ap (λ ys. x.id ∷ ys) (pushed_ids xs)

ids-append :
    (xs : List BoardIssue) (x : BoardIssue)
    → map issue_id (xs ++ x ∷ []) ≡ map issue_id xs ++ x.id ∷ []
ids-append [] x = refl
ids-append (y ∷ xs) x = ap (λ ys. y.id ∷ ys) (ids-append xs x)

pushed-In :
    (xs : List BoardIssue) (y : BoardIssue) → In y (map pushed_down xs) → 1 ≤ y.board_position
pushed-In [] y m = absurd m
pushed-In (x ∷ xs) y (inl e) = rw (e) (omega arith)
pushed-In (x ∷ xs) y (inr m) = pushed-In xs y m

next_position-above :
    (p : ℕ) (s : IssueStatus) (board : Board) (y : BoardIssue)
    → In y board
    → in_column p s y ≡ true
    → y.board_position + 1 ≤ next_position p s board
unfolding next_position
next_position-above p s [] y m t = absurd m
next_position-above p s (x ∷ board) y (inl e) t =
    rw (e) (ground (arith, ap (in_column p s) (sym e) ∙ t))
next_position-above p s (x ∷ board) y (inr m) t =
    ground (arith, next_position-above p s board y m t)

module _ (p : ℕ) (s : IssueStatus) (new : BoardIssue) (mine : in_column p s new ≡ true)
    (board : Board) where
  -- A new issue above the column, which has moved down.
  pub column-top :
      new.board_position ≡ 0
      → column p s (new ∷ update (in_column p s) pushed_down board) ≡ new.id ∷ column p s board
  unfolding column select sort
  column-top z =
      let rows = sort goes_above (select (in_column p s) board) in
      let below : sort goes_above
            (select (in_column p s) (update (in_column p s) pushed_down board))
          ≡ map pushed_down rows =
        ap (sort goes_above) (select-update (in_column p s) pushed_down board (λ x. refl))
        ∙ sort-map pushed_down (select (in_column p s) board) (λ x y. ground arith) in
      rw
        (
          mine,
          below,
          insert-first new (map pushed_down rows) (λ y m. ground (arith, z, pushed-In rows y m)),
        )
        (ap (λ ids. new.id ∷ ids) (pushed_ids rows))

  pub column-bottom :
      new.board_position ≡ next_position p s board
      → column p s (new ∷ board) ≡ column p s board ++ new.id ∷ []
  unfolding column select sort
  column-bottom z =
      let rows = sort goes_above (select (in_column p s) board) in
      rw
        (
          mine,
          insert-last new rows (λ y m.
              let (i, t) =
                In-select (in_column p s) board y
                  (sort-In goes_above (select (in_column p s) board) y m) in
              ground (arith, z, next_position-above p s board y i t)),
        )
        (ids-append rows new)

  pub column-same :
      (q : ℕ) (t : IssueStatus)
      → (q == p && same_issue_status t s) ≡ false
      → column q t (new ∷ board) ≡ column q t board
  unfolding column select
  column-same q t f =
      let other : in_column q t new ≡ false = ground (arith, mine, f) in rw (other) refl

  pub column-same_pushed :
      (q : ℕ) (t : IssueStatus)
      → (q == p && same_issue_status t s) ≡ false
      → column q t (new ∷ update (in_column p s) pushed_down board) ≡ column q t board
  unfolding column select
  column-same_pushed q t f =
      let other : in_column q t new ≡ false = ground (arith, mine, f) in
      rw (other) (
        ap (λ rows. map issue_id (sort goes_above rows))
          (select-update_other (in_column q t) (in_column p s) pushed_down board
            (λ x u. (ground (arith, u, f), ground (arith, u, f)))))
