-- ===== src/Issues/Board/Placement.antt =====
-- board_order.go: the order of each column after an issue has moved.
use mathlib.Core.Path.{subst}
use agent_board.Prelude.{
  ℕ, ◌≤◌, ◌≡◌, sym, ap, ◌∙◌, ◌⊎◌, true, false, ◌&&◌, Bool-cases, none, some, List, map, and-left,
  and-right, ◌==◌, ==→eq, ==_refl, inl, inr, arith,
}
use agent_board.Prelude.Rows.{In, In-first, first, any, count}
use agent_board.Prelude.Updates.{any-some}
use agent_board.Prelude.Sort.{sort}
use agent_board.Issues.Board.{
  IssueStatus, BoardIssue, Board, is_issue, same_issue_status, in_column, goes_above, issue_id,
  ordered_test, ordered_issue_ids,
}
use agent_board.Issues.Board.Renumber.{is_id, same_id, position_in, In-position, position-none}
use agent_board.Issues.Board.Moved.{
  moved, moved-id, moved-project_id, moved-status, moved-status_kept, moved-position_in,
  moved-position_source, moved-elsewhere, moved-none,
}
use agent_board.Issues.Board.Columns.{
  column, same→eq, In-ordered, ordered-In, count-ordered, one-id, column-numbered, count-map,
  In-map, map-In, select-map,
}

-- An issue that moves to a column, and the ids of the column as they are to be: those of the others
-- in it, and its own.
pub record Move (p id : ℕ) (destination : IssueStatus) (board : Board) (issue : BoardIssue)
    (ids : List ℕ) : Type 0 where
  pub unique : (k : ℕ) → count (is_id k) board ≤ 1
  pub is_row : first (is_issue p id) board ≡ some issue
  pub mine : (k : ℕ) → In k ids → (k ≡ id) ⊎ In k (ordered_issue_ids p destination id board)
  pub has_id : In id ids
  pub has_others : (k : ℕ) → In k (ordered_issue_ids p destination id board) → In k ids
  pub distinct : (k : ℕ) → count (same_id k) ids ≤ 1

module _ (p id : ℕ) (destination : IssueStatus) (board : Board) (issue : BoardIssue) (ids : List ℕ)
    (M : Move p id destination board issue ids) where
  abbrev source_ids : List ℕ
  source_ids = ordered_issue_ids p issue.status id board

  -- The board after the move.
  abbrev pub after : Board
  after = map (moved p id issue.status destination source_ids ids) board

  abbrev row_after : BoardIssue → BoardIssue
  row_after = moved p id issue.status destination source_ids ids

  row_after-id : (r : BoardIssue) → (row_after r).id ≡ r.id
  row_after-id r = moved-id p id issue.status destination source_ids ids r

  after_unique : (k : ℕ) → count (is_id k) after ≤ 1
  after_unique k = omega (arith, count-map row_after board k row_after-id, M.unique k)

  issue-In : In issue board × (is_issue p id issue ≡ true)
  issue-In = In-first (is_issue p id) board M.is_row

  -- A row with the id of the issue is the issue.
  is_the_issue : (r : BoardIssue) → In r board → (r.id == id) ≡ true → r ≡ issue
  is_the_issue r m t =
      one-id board id r issue (M.unique id) m issue-In.0 t (ground (arith, issue-In.1))

  other_issue : (r : BoardIssue) → (r.id == id) ≡ false → is_issue p id r ≡ false
  other_issue r f = ground (arith, f)

  not_listed :
      (d : IssueStatus) (list : List ℕ) (r : BoardIssue)
      → ((k : ℕ) → In k list → (k ≡ id) ⊎ In k (ordered_issue_ids p d id board))
      → In r board
      → (r.id == id) ≡ false
      → in_column p d r ≡ false
      → position_in 0 list r.id ≡ none
  not_listed d list r listed m f g = elim (Bool-cases (any (same_id r.id) list)) [
    | inr n ↦ position-none 0 list r.id n
    | inl t ↦
        let (k, i, e) = any-some (same_id r.id) list t in
        let same : k ≡ r.id = ==→eq k r.id e in
        elim (listed k i) [
          | inl here ↦ absurd (ground (arith, here, same, f))
          | inr o ↦
              let (x, j, u, v) = In-ordered p d id board k o in
              let one : x ≡ r =
                one-id board r.id x r (M.unique r.id) j m (ground (arith, v, same))
                  (==_refl r.id) in
              absurd (ground (arith, ap (in_column p d) one, u, g))
        ]
  ]

  in_dest : (r : BoardIssue) → is_issue p id r ≡ true → in_column p destination (row_after r) ≡ true
  in_dest r t =
      rw
        (
          moved-project_id p id issue.status destination source_ids ids r,
          moved-status p id issue.status destination source_ids ids r t,
        )
        (ground (arith, t))

  still :
      (r : BoardIssue)
      → ordered_test p destination id r ≡ true
      → in_column p destination (row_after r) ≡ true
  still r t =
      rw
        (
          moved-project_id p id issue.status destination source_ids ids r,
          moved-status_kept p id issue.status destination source_ids ids r (ground (arith, t)),
        )
        (ground (arith, t))

  in_place :
      (x : BoardIssue)
      → In x after
      → in_column p destination x ≡ true
      → position_in 0 ids x.id ≡ some x.board_position
  in_place x m t =
      let (r, i, e) = In-map row_after board x m in
      let here : (r.project_id == p) ≡ true =
        ground (arith, moved-project_id p id issue.status destination source_ids ids r, e, t) in
      let listed : In r.id ids = elim (Bool-cases (r.id == id)) [
        | inl b ↦ subst (λ k. In k ids) (sym (==→eq r.id id b)) M.has_id
        | inr b ↦
            let kept : (row_after r).status ≡ r.status =
              moved-status_kept p id issue.status destination source_ids ids r (other_issue r b) in
            let t' : in_column p destination (row_after r) ≡ true =
              ap (in_column p destination) (sym e) ∙ t in
            let same : same_issue_status r.status destination ≡ true =
              ap (λ z. same_issue_status z destination) (sym kept)
              ∙ and-right ((row_after r).project_id == p)
                  (same_issue_status (row_after r).status destination) t' in
            M.has_others r.id
              (ordered-In p destination id board r i (ground (arith, here, same, b)))
      ] in
      let (k, place) = In-position 0 ids r.id listed in
      let put : (row_after r).board_position ≡ k =
        moved-position_in p id issue.status destination source_ids ids r k here place in
      ap (position_in 0 ids) (ap issue_id e ∙ row_after-id r)
      ∙ place
      ∙ ap some (sym (ap (λ (z : BoardIssue). z.board_position) e ∙ put))

  present :
      (k : ℕ)
      → In k ids
      → (x : BoardIssue) × In x after × (in_column p destination x ≡ true) × (x.id ≡ k)
  present k m = elim (M.mine k m) [
    | inl e ↦ (
      row_after issue,
      map-In row_after board issue issue-In.0,
      in_dest issue issue-In.1,
      row_after-id issue ∙ ==→eq issue.id id (and-right _ _ issue-In.1) ∙ sym e,
    )
    | inr o ↦
        let (r, i, t, e) = In-ordered p destination id board k o in
        (row_after r, map-In row_after board r i, still r t, row_after-id r ∙ e)
  ]

  -- The new column is the list.
  pub column-moved : column p destination after ≡ ids
  column-moved = column-numbered p destination ids after after_unique M.distinct in_place present

  -- Rows of other columns, before and after.
  same_test :
      (q : ℕ) (s : IssueStatus)
      → (q == p && same_issue_status s destination) ≡ false
      → (r : BoardIssue) → In r board
      → in_column q s (row_after r) ≡ ordered_test q s id r
  same_test q s f r m = elim (Bool-cases (r.id == id)) [
    | inl t ↦
        let one : r ≡ issue = is_the_issue r m t in
        let here : is_issue p id r ≡ true = ap (is_issue p id) one ∙ issue-In.1 in
        rw
          (
            moved-project_id p id issue.status destination source_ids ids r,
            moved-status p id issue.status destination source_ids ids r here,
          )
          (ground (arith, t, here, f))
    | inr n ↦
        rw
          (
            moved-project_id p id issue.status destination source_ids ids r,
            moved-status_kept p id issue.status destination source_ids ids r (other_issue r n),
          )
          (ground (arith, n))
  ]

  same_row :
      (q : ℕ) (s : IssueStatus)
      → (q == p && same_issue_status s destination) ≡ false
      → (q == p && same_issue_status s issue.status) ≡ false
      → (r : BoardIssue) → In r board
      → ordered_test q s id r ≡ true
      → row_after r ≡ r
  same_row q s f g r m t = elim (Bool-cases (r.project_id == p)) [
    | inr n ↦ moved-elsewhere p id issue.status destination source_ids ids r n
    | inl h ↦
        moved-none p id issue.status destination source_ids ids r (ground (arith, t))
          (not_listed destination ids r M.mine m (ground (arith, t)) (ground (arith, t, h, f)))
          (not_listed issue.status source_ids r (λ k i. inr i) m (ground (arith, t))
            (ground (arith, t, h, g)))
  ]

  left_in_place :
      same_issue_status issue.status destination ≡ false
      → (x : BoardIssue) → In x after
      → in_column p issue.status x ≡ true
      → position_in 0 source_ids x.id ≡ some x.board_position
  left_in_place f x m t =
      let (r, i, e) = In-map row_after board x m in
      let listed : ordered_test p issue.status id r ≡ true =
        sym (same_test p issue.status (ground (arith, f)) r i)
        ∙ ap (in_column p issue.status) (sym e)
        ∙ t in
      let (k, place) =
        In-position 0 source_ids r.id (ordered-In p issue.status id board r i listed) in
      let put : (row_after r).board_position ≡ k =
        moved-position_source p id issue.status destination source_ids ids r k f
          (ground (arith, listed))
          (not_listed destination ids r M.mine i (ground (arith, listed))
            (ground (arith, listed, f)))
          place in
      ap (position_in 0 source_ids) (ap issue_id e ∙ row_after-id r)
      ∙ place
      ∙ ap some (sym (ap (λ (z : BoardIssue). z.board_position) e ∙ put))

  left_present :
      same_issue_status issue.status destination ≡ false
      → (k : ℕ) → In k source_ids
      → (x : BoardIssue) × In x after × (in_column p issue.status x ≡ true) × (x.id ≡ k)
  left_present f k m =
      let (r, i, t, e) = In-ordered p issue.status id board k m in
      (
        row_after r,
        map-In row_after board r i,
        same_test p issue.status (ground (arith, f)) r i ∙ t,
        row_after-id r ∙ e,
      )

  -- A column that neither loses nor gets the issue.
  column-untouched :
      (q : ℕ) (s : IssueStatus)
      → (q == p && same_issue_status s destination) ≡ false
      → (q == p && same_issue_status s issue.status) ≡ false
      → column q s after ≡ ordered_issue_ids q s id board
  unfolding column ordered_issue_ids
  column-untouched q s f g =
      ap (λ rows. map issue_id (sort goes_above rows))
        (select-map row_after (in_column q s) (ordered_test q s id) board (same_test q s f)
          (same_row q s f g))

  -- The column that the issue leaves.
  column-left :
      same_issue_status issue.status destination ≡ false → column p issue.status after ≡ source_ids
  column-left f =
      column-numbered p issue.status source_ids after after_unique
        (λ k. omega (arith, count-ordered p issue.status id board k, M.unique k)) (left_in_place f)
        (left_present f)

  -- Every other column has its order, without the issue.
  pub column-other :
      (q : ℕ) (s : IssueStatus)
      → (q == p && same_issue_status s destination) ≡ false
      → column q s after ≡ ordered_issue_ids q s id board
  column-other q s f = elim (Bool-cases (q == p && same_issue_status s issue.status)) [
    | inr g ↦ column-untouched q s f g
    | inl t ↦
        let here : q ≡ p = ==→eq q p (and-left (q == p) _ t) in
        let same : s ≡ issue.status =
          same→eq s issue.status (and-right (q == p) (same_issue_status s issue.status) t) in
        rw (here, same) (column-left (ground (arith, f, t)))
  ]
