-- ===== src/Issues/Board/Moved.antt =====
-- board_order.go: what the renumbering of the two columns does to each issue.
use agent_board.Prelude.{
  ℕ, ◌≤◌, ◌≡◌, refl, sym, ap, ◌∙◌, true, false, ◌&&◌, Bool-cases, Option, none, some, List, map,
  ◌==◌, inl, inr, if◌then◌else◌, arith,
}
use agent_board.Prelude.Rows.{count, update}
use agent_board.Issues.Board.{
  IssueStatus, BoardIssue, Board, is_issue, same_issue_status, rewrite_issue_positions,
}
use agent_board.Issues.Board.Renumber.{
  position_in, at_position, numbered, rewrite-numbered, update-map, map-map, map-same, map-ext,
}

-- A row that differs from another at most in its position.
pub record Stays (r s : BoardIssue) : Type 0 where
  pub same_id : s.id ≡ r.id
  pub same_project : s.project_id ≡ r.project_id
  pub same_status : s.status ≡ r.status

at_position-Stays : (o : Option ℕ) (r : BoardIssue) → Stays r (at_position o r)
at_position-Stays none r = record { same_id = refl; same_project = refl; same_status = refl }
at_position-Stays (some n) r = record { same_id = refl; same_project = refl; same_status = refl }

numbered-Stays : (p n : ℕ) (ids : List ℕ) (r : BoardIssue) → Stays r (numbered p n ids r)
numbered-Stays p n ids r = elim (Bool-cases (r.project_id == p)) [
  | inl t ↦ rw (t) (at_position-Stays (position_in n ids r.id) r)
  | inr t ↦ rw (t) (record { same_id = refl; same_project = refl; same_status = refl })
]

numbered-position :
    (p n : ℕ) (ids : List ℕ) (r : BoardIssue) (m : ℕ)
    → (r.project_id == p) ≡ true
    → position_in n ids r.id ≡ some m
    → (numbered p n ids r).board_position ≡ m
numbered-position p n ids r m t e = rw (t, e) refl

numbered-none :
    (p n : ℕ) (ids : List ℕ) (r : BoardIssue)
    → position_in n ids r.id ≡ none
    → numbered p n ids r ≡ r
numbered-none p n ids r e = elim (Bool-cases (r.project_id == p)) [
  | inl t ↦ rw (t, e) refl
  | inr t ↦ rw (t) refl
]

numbered-elsewhere :
    (p n : ℕ) (ids : List ℕ) (r : BoardIssue) → (r.project_id == p) ≡ false → numbered p n ids r ≡ r
numbered-elsewhere p n ids r t = rw (t) refl

module _ (p id : ℕ) (source destination : IssueStatus) (source_ids ids : List ℕ) where
  abbrev shifted : BoardIssue → BoardIssue
  shifted r = if same_issue_status source destination then r else numbered p 0 source_ids r

  abbrev renumbered_row : BoardIssue → BoardIssue
  renumbered_row r = numbered p 0 ids (shifted r)

  -- An issue after its column is renumbered, and it is the one that moves or not.
  abbrev pub moved : BoardIssue → BoardIssue
  moved r =
      if is_issue p id (renumbered_row r)
      then record (renumbered_row r) { status = destination }
      else renumbered_row r

  shifted-Stays : (r : BoardIssue) → Stays r (shifted r)
  shifted-Stays r = elim (Bool-cases (same_issue_status source destination)) [
    | inl t ↦ rw (t) (record { same_id = refl; same_project = refl; same_status = refl })
    | inr t ↦ rw (t) (numbered-Stays p 0 source_ids r)
  ]

  renumbered_row-Stays : (r : BoardIssue) → Stays r (renumbered_row r)
  renumbered_row-Stays r =
      let a = shifted-Stays r in
      let b = numbered-Stays p 0 ids (shifted r) in
      record {
        same_id = b.same_id ∙ a.same_id;
        same_project = b.same_project ∙ a.same_project;
        same_status = b.same_status ∙ a.same_status;
      }

  is_issue-renumbered : (r : BoardIssue) → is_issue p id (renumbered_row r) ≡ is_issue p id r
  is_issue-renumbered r =
      let k = renumbered_row-Stays r in
      ap (λ q. q == p && (renumbered_row r).id == id) k.same_project
      ∙ ap (λ i. r.project_id == p && i == id) k.same_id

  moved-here :
      (r : BoardIssue)
      → is_issue p id r ≡ true
      → moved r ≡ record (renumbered_row r) { status = destination }
  moved-here r t =
      let t' : is_issue p id (renumbered_row r) ≡ true = is_issue-renumbered r ∙ t in rw (t') refl

  moved-there : (r : BoardIssue) → is_issue p id r ≡ false → moved r ≡ renumbered_row r
  moved-there r t =
      let t' : is_issue p id (renumbered_row r) ≡ false = is_issue-renumbered r ∙ t in rw (t') refl

  pub moved-id : (r : BoardIssue) → (moved r).id ≡ r.id
  moved-id r = elim (Bool-cases (is_issue p id r)) [
    | inl t ↦ ap (λ (x : BoardIssue). x.id) (moved-here r t) ∙ (renumbered_row-Stays r).same_id
    | inr t ↦ ap (λ (x : BoardIssue). x.id) (moved-there r t) ∙ (renumbered_row-Stays r).same_id
  ]

  pub moved-project_id : (r : BoardIssue) → (moved r).project_id ≡ r.project_id
  moved-project_id r = elim (Bool-cases (is_issue p id r)) [
    | inl t ↦
        ap (λ (x : BoardIssue). x.project_id) (moved-here r t)
        ∙ (renumbered_row-Stays r).same_project
    | inr t ↦
        ap (λ (x : BoardIssue). x.project_id) (moved-there r t)
        ∙ (renumbered_row-Stays r).same_project
  ]

  pub moved-status : (r : BoardIssue) → is_issue p id r ≡ true → (moved r).status ≡ destination
  moved-status r t = ap (λ (x : BoardIssue). x.status) (moved-here r t)

  pub moved-status_kept : (r : BoardIssue) → is_issue p id r ≡ false → (moved r).status ≡ r.status
  moved-status_kept r t =
      ap (λ (x : BoardIssue). x.status) (moved-there r t) ∙ (renumbered_row-Stays r).same_status

  moved-position : (r : BoardIssue) → (moved r).board_position ≡ (renumbered_row r).board_position
  moved-position r = elim (Bool-cases (is_issue p id r)) [
    | inl t ↦ ap (λ (x : BoardIssue). x.board_position) (moved-here r t)
    | inr t ↦ ap (λ (x : BoardIssue). x.board_position) (moved-there r t)
  ]

  -- An issue of the new column.
  pub moved-position_in :
      (r : BoardIssue) (m : ℕ)
      → (r.project_id == p) ≡ true
      → position_in 0 ids r.id ≡ some m
      → (moved r).board_position ≡ m
  moved-position_in r m t e =
      let k = shifted-Stays r in
      moved-position r
      ∙ numbered-position p 0 ids (shifted r) m (ap (λ q. q == p) k.same_project ∙ t)
          (ap (position_in 0 ids) k.same_id ∙ e)

  -- An issue that stays in the old column.
  pub moved-position_source :
      (r : BoardIssue) (m : ℕ)
      → same_issue_status source destination ≡ false
      → (r.project_id == p) ≡ true
      → position_in 0 ids r.id ≡ none
      → position_in 0 source_ids r.id ≡ some m
      → (moved r).board_position ≡ m
  moved-position_source r m f t n e =
      let k = shifted-Stays r in
      let same : shifted r ≡ numbered p 0 source_ids r = rw (f) refl in
      moved-position r
      ∙ ap (λ (x : BoardIssue). x.board_position)
          (numbered-none p 0 ids (shifted r) (ap (position_in 0 ids) k.same_id ∙ n) ∙ same)
      ∙ numbered-position p 0 source_ids r m t e

  pub moved-elsewhere : (r : BoardIssue) → (r.project_id == p) ≡ false → moved r ≡ r
  moved-elsewhere r f =
      let same : shifted r ≡ r = elim (Bool-cases (same_issue_status source destination)) [
        | inl t ↦ rw (t) refl
        | inr t ↦ rw (t) (numbered-elsewhere p 0 source_ids r f)
      ] in
      moved-there r (ground (arith, f))
      ∙ ap (numbered p 0 ids) same
      ∙ numbered-elsewhere p 0 ids r f

  pub moved-none :
      (r : BoardIssue)
      → (r.id == id) ≡ false
      → position_in 0 ids r.id ≡ none
      → position_in 0 source_ids r.id ≡ none
      → moved r ≡ r
  moved-none r f n m =
      let same : shifted r ≡ r = elim (Bool-cases (same_issue_status source destination)) [
        | inl t ↦ rw (t) refl
        | inr t ↦ rw (t) (numbered-none p 0 source_ids r m)
      ] in
      moved-there r (ground (arith, f)) ∙ ap (numbered p 0 ids) same ∙ numbered-none p 0 ids r n

  -- The statements of PlaceIssue, one after the other.
  pub rewrite-moved :
      (board : Board)
      → ((k : ℕ) → count (λ j. j == k) source_ids ≤ 1)
      → ((k : ℕ) → count (λ j. j == k) ids ≤ 1)
      → update
          (is_issue p id)
          (λ i. record i { status = destination })
          (rewrite_issue_positions p ids 0 (
            if same_issue_status source destination
            then board
            else rewrite_issue_positions p source_ids 0 board))
        ≡ map moved board
  rewrite-moved board us ui =
      let first_part : (if same_issue_status source destination
            then board
            else rewrite_issue_positions p source_ids 0 board)
          ≡ map shifted board =
        elim (Bool-cases (same_issue_status source destination)) [
          | inl t ↦ rw (t) (sym (map-same shifted board (λ r. rw (t) refl)))
          | inr t ↦ rw (t) (
              rewrite-numbered p source_ids 0 board us
              ∙ sym (map-ext shifted (numbered p 0 source_ids) board (λ r. rw (t) refl)))
        ] in
      ap
        (λ b.
          update (is_issue p id) (λ i. record i { status = destination })
            (rewrite_issue_positions p ids 0 b))
        first_part
      ∙ ap (update (is_issue p id) (λ i. record i { status = destination }))
          (rewrite-numbered p ids 0 (map shifted board) ui)
      ∙ update-map (is_issue p id) (λ i. record i { status = destination })
          (map (numbered p 0 ids) (map shifted board))
      ∙ ap (map (λ x. if is_issue p id x then record x { status = destination } else x))
          (map-map shifted (numbered p 0 ids) renumbered_row board (λ r. refl))
      ∙ map-map renumbered_row _ moved board (λ r. refl)
