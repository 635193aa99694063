-- ===== src/Issues/Board/Columns.antt =====
-- board_order.go: the columns of the board after an issue has moved.
use agent_board.Prelude.{
  ℕ, ◌≤◌, ◌≡◌, refl, sym, ap, ◌∙◌, Bool, true, Bool-cases, some, List, [], ◌∷◌, map, ◌==◌, ==→eq,
  ==_refl, inl, inr, if◌then◌else◌, arith,
}
use agent_board.Prelude.Rows.{In, In-any, In-select, count, select}
use agent_board.Prelude.Updates.{select-In}
use agent_board.Prelude.Sort.{sort, sort-In, In-sort, sort-Sorted, count-sort, count-select}
use agent_board.Issues.Board.{
  IssueStatus, issue_status_rank, backlog, todo, in_progress, blocked, review, done, other_status,
  BoardIssue, Board, same_issue_status, in_column, goes_above, issue_id, ordered_test,
  ordered_issue_ids,
}
use agent_board.Issues.Board.Renumber.{
  is_id, same_id, goes_above-IsOrder, position_in, ids-numbered,
}

-- The ids of a column from its top, as a reader of the board sees them.
unfoldable pub column : (project_id : ℕ) → IssueStatus → Board → List ℕ
unfolding sort select
column q s board = map issue_id (sort goes_above (select (in_column q s) board))

abbrev of_rank : ℕ → IssueStatus
of_rank n =
    if n == 0
    then backlog
    else (if n == 1
        then todo
        else (if n == 2
            then in_progress
            else (if n == 3
                then blocked
                else (if n == 4 then review else (if n == 5 then done else other_status)))))

of_rank-rank : (s : IssueStatus) → of_rank (issue_status_rank s) ≡ s
of_rank-rank backlog = refl
of_rank-rank todo = refl
of_rank-rank in_progress = refl
of_rank-rank blocked = refl
of_rank-rank review = refl
of_rank-rank done = refl
of_rank-rank other_status = refl

pub same→eq : (a b : IssueStatus) → same_issue_status a b ≡ true → a ≡ b
same→eq a b t =
    sym (of_rank-rank a)
    ∙ ap of_rank (==→eq (issue_status_rank a) (issue_status_rank b) t)
    ∙ of_rank-rank b

-- Rows and their ids.
In-ids :
    (rows : List BoardIssue) (k : ℕ)
    → In k (map issue_id rows)
    → (r : BoardIssue) × In r rows × (r.id ≡ k)
In-ids [] k m = absurd m
In-ids (r ∷ rows) k (inl e) = (r, inl refl, sym e)
In-ids (r ∷ rows) k (inr m) = let (x, i, e) = In-ids rows k m in (x, inr i, e)

ids-In : (rows : List BoardIssue) (r : BoardIssue) → In r rows → In r.id (map issue_id rows)
ids-In [] r m = absurd m
ids-In (x ∷ rows) r (inl e) = inl (ap issue_id e)
ids-In (x ∷ rows) r (inr m) = inr (ids-In rows r m)

count-ids :
    (rows : List BoardIssue) (k : ℕ) → count (same_id k) (map issue_id rows) ≡ count (is_id k) rows
unfolding count
count-ids [] k = refl
count-ids (r ∷ rows) k = ground (arith, count-ids rows k)

pub count-map :
    (f : BoardIssue → BoardIssue) (rows : List BoardIssue) (k : ℕ)
    → ((r : BoardIssue) → (f r).id ≡ r.id)
    → count (is_id k) (map f rows) ≡ count (is_id k) rows
unfolding count
count-map f [] k e = refl
count-map f (r ∷ rows) k e = ground (arith, e r, count-map f rows k e)

pub In-map :
    (f : BoardIssue → BoardIssue) (rows : List BoardIssue) (x : BoardIssue)
    → In x (map f rows)
    → (r : BoardIssue) × In r rows × (x ≡ f r)
In-map f [] x m = absurd m
In-map f (r ∷ rows) x (inl e) = (r, inl refl, e)
In-map f (r ∷ rows) x (inr m) = let (y, i, e) = In-map f rows x m in (y, inr i, e)

pub map-In :
    (f : BoardIssue → BoardIssue) (rows : List BoardIssue) (r : BoardIssue)
    → In r rows
    → In (f r) (map f rows)
map-In f [] r m = absurd m
map-In f (x ∷ rows) r (inl e) = inl (ap f e)
map-In f (x ∷ rows) r (inr m) = inr (map-In f rows r m)

pub select-map :
    (f : BoardIssue → BoardIssue) (p q : BoardIssue → Bool) (rows : List BoardIssue)
    → ((r : BoardIssue) → In r rows → p (f r) ≡ q r)
    → ((r : BoardIssue) → In r rows → q r ≡ true → f r ≡ r)
    → select p (map f rows) ≡ select q rows
unfolding select
select-map f p q [] s k = refl
select-map f p q (r ∷ rows) s k =
    let rest = select-map f p q rows (λ x m. s x (inr m)) (λ x m. k x (inr m)) in
    elim (Bool-cases (q r)) [
      | inl t ↦ rw (s r (inl refl), t, k r (inl refl) t) (ap (λ xs. r ∷ xs) rest)
      | inr t ↦ rw (s r (inl refl), t) rest
    ]

module _ (p : ℕ) (s : IssueStatus) (x : ℕ) (board : Board) where
  pub In-ordered :
      (k : ℕ)
      → In k (ordered_issue_ids p s x board)
      → (r : BoardIssue) × In r board × (ordered_test p s x r ≡ true) × (r.id ≡ k)
  unfolding ordered_issue_ids
  In-ordered k m =
      let (r, i, e) = In-ids (sort goes_above (select (ordered_test p s x) board)) k m in
      let (j, t) = In-select (ordered_test p s x) board r (sort-In goes_above _ r i) in (r, j, t, e)

  pub ordered-In :
      (r : BoardIssue)
      → In r board
      → ordered_test p s x r ≡ true
      → In r.id (ordered_issue_ids p s x board)
  unfolding ordered_issue_ids
  ordered-In r m t =
      ids-In (sort goes_above (select (ordered_test p s x) board)) r
        (In-sort goes_above _ r (select-In (ordered_test p s x) board r m t))

  pub count-ordered :
      (k : ℕ) → count (same_id k) (ordered_issue_ids p s x board) ≤ count (is_id k) board
  unfolding ordered_issue_ids
  count-ordered k = omega (
    arith,
    count-ids (sort goes_above (select (ordered_test p s x) board)) k,
    count-sort goes_above (is_id k) (select (ordered_test p s x) board),
    count-select (is_id k) (ordered_test p s x) board,
  )

counted :
    (board : Board) (k : ℕ) (r : BoardIssue)
    → In r board
    → is_id k r ≡ true
    → 1 ≤ count (is_id k) board
unfolding count
counted [] k r m t = absurd m
counted (x ∷ board) k r (inl e) t = ground (arith, e, t)
counted (x ∷ board) k r (inr m) t = ground (arith, counted board k r m t)

-- Two rows with one id are one.
pub one-id :
    (board : Board) (k : ℕ) (r s : BoardIssue)
    → count (is_id k) board ≤ 1
    → In r board
    → In s board
    → is_id k r ≡ true
    → is_id k s ≡ true
    → r ≡ s
unfolding count
one-id [] k r s u m n t v = absurd m
one-id (x ∷ board) k r s u (inl e) (inl f) t v = e ∙ sym f
one-id (x ∷ board) k r s u (inl e) (inr n) t v =
    absurd (ground (arith, e, t, u, v, counted board k s n v))
one-id (x ∷ board) k r s u (inr m) (inl f) t v =
    absurd (ground (arith, f, t, u, v, counted board k r m t))
one-id (x ∷ board) k r s u (inr m) (inr n) t v = one-id board k r s (ground (arith, u)) m n t v

-- A column of a renumbered board.
pub column-numbered :
    (q : ℕ) (s : IssueStatus) (ids : List ℕ) (board : Board)
    → ((k : ℕ) → count (is_id k) board ≤ 1)
    → ((k : ℕ) → count (same_id k) ids ≤ 1)
    → ((r : BoardIssue)
        → In r board
        → in_column q s r ≡ true
        → position_in 0 ids r.id ≡ some r.board_position)
    → ((k : ℕ) → In k ids → (r : BoardIssue) × In r board × (in_column q s r ≡ true) × (r.id ≡ k))
    → column q s board ≡ ids
unfolding column
column-numbered q s ids board u ui pos has =
    let rows = sort goes_above (select (in_column q s) board) in
    ids-numbered ids 0 rows
      (sort-Sorted goes_above goes_above-IsOrder (select (in_column q s) board))
      (λ k. omega (
        arith,
        u k,
        count-sort goes_above (is_id k) (select (in_column q s) board),
        count-select (is_id k) (in_column q s) board,
      ))
      ui
      (λ r m.
        let (i, t) =
          In-select (in_column q s) board r
            (sort-In goes_above (select (in_column q s) board) r m) in
        pos r i t)
      (λ k m.
        let (r, i, t, e) = has k m in
        In-any (is_id k) rows r
          (In-sort goes_above (select (in_column q s) board) r
            (select-In (in_column q s) board r i t))
          (rw (e) (==_refl k)))
