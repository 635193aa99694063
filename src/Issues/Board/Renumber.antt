-- ===== src/Issues/Board/Renumber.antt =====
-- board_order.go: positions written by rewriteIssuePositionsTx, read by orderedIssueIDsTx.
use agent_board.Prelude.{
  ℕ, ◌+◌, ◌≤◌, ◌≡◌, refl, sym, ap, ◌∙◌, Bool, true, false, Bool-cases, Option, none, some, List, [],
  ◌∷◌, map, ◌==◌, ==→eq, ==_refl, inl, inr, if◌then◌else◌, arith,
}
use agent_board.Prelude.Rows.{In, any-In, any, count, update}
use agent_board.Prelude.Updates.{any-some}
use agent_board.Prelude.Counts.{none-count}
use agent_board.Prelude.Order.{IsOrder}
use agent_board.Prelude.Sort.{Sorted}
use agent_board.Issues.Board.{
  BoardIssue, Board, is_issue, goes_above, issue_id, rewrite_issue_positions,
}

abbrev pub is_id : ℕ → BoardIssue → Bool
is_id k i = i.id == k

abbrev pub same_id : ℕ → ℕ → Bool
same_id k j = j == k

pub goes_above-IsOrder : IsOrder goes_above
goes_above-IsOrder = record {
  irreflexive = λ a. ground arith;
  transitive = λ a b c f g. ground (arith, f, g);
}

-- The position that the ids give to an issue, from an index on.
unfoldable pub position_in : ℕ → List ℕ → ℕ → Option ℕ
position_in n [] k = none
position_in n (i ∷ is) k = let rest = position_in (n + 1) is k in if i == k then some n else rest

pub In-position :
    (n : ℕ) (ids : List ℕ) (k : ℕ) → In k ids → (m : ℕ) × (position_in n ids k ≡ some m)
unfolding position_in
In-position n [] k m = absurd m
In-position n (i ∷ is) k (inl e) = (n, rw (e, ==_refl i) refl)
In-position n (i ∷ is) k (inr m) = elim (Bool-cases (i == k)) [
  | inl t ↦ (n, rw (t) refl)
  | inr t ↦ let (j, e) = In-position (n + 1) is k m in (j, rw (t) e)
]

pub position-none :
    (n : ℕ) (ids : List ℕ) (k : ℕ) → any (same_id k) ids ≡ false → position_in n ids k ≡ none
unfolding position_in any
position-none n [] k h = refl
position-none n (i ∷ is) k h = ground (arith, h, position-none (n + 1) is k (ground (arith, h)))

position-le : (n : ℕ) (ids : List ℕ) (k m : ℕ) → position_in n ids k ≡ some m → n ≤ m
unfolding position_in
position-le n [] k m e = absurd (ground (arith, e))
position-le n (i ∷ is) k m e = elim (Bool-cases (i == k)) [
  | inl t ↦ ground (arith, t, e)
  | inr t ↦ ground (arith, position-le (n + 1) is k m (ground (arith, t, e)))
]

abbrev pub at_position : Option ℕ → BoardIssue → BoardIssue
at_position none i = i
at_position (some n) i = record i { board_position = n }

abbrev pub numbered : ℕ → ℕ → List ℕ → BoardIssue → BoardIssue
numbered p n ids i = if i.project_id == p then at_position (position_in n ids i.id) i else i

pub update-map :
    {A : Type 0} (test : A → Bool) (f : A → A) (xs : List A)
    → update test f xs ≡ map (λ x. if test x then f x else x) xs
unfolding update
update-map test f [] = refl
update-map test f (x ∷ xs) = ap (λ ys. (if test x then f x else x) ∷ ys) (update-map test f xs)

pub map-map :
    {A : Type 0} (f g h : A → A) (xs : List A)
    → ((x : A) → g (f x) ≡ h x)
    → map g (map f xs) ≡ map h xs
map-map f g h [] e = refl
map-map f g h (x ∷ xs) e = rw (e x) (ap (λ ys. h x ∷ ys) (map-map f g h xs e))

pub map-ext : {A : Type 0} (f g : A → A) (xs : List A) → ((x : A) → f x ≡ g x) → map f xs ≡ map g xs
map-ext f g [] e = refl
map-ext f g (x ∷ xs) e = rw (e x) (ap (λ ys. g x ∷ ys) (map-ext f g xs e))

pub map-same : {A : Type 0} (f : A → A) (xs : List A) → ((x : A) → f x ≡ x) → map f xs ≡ xs
map-same f [] e = refl
map-same f (x ∷ xs) e = rw (e x) (ap (λ ys. x ∷ ys) (map-same f xs e))

count-tail :
    (i : ℕ) (is : List ℕ) (k : ℕ) → count (same_id k) (i ∷ is) ≤ 1 → count (same_id k) is ≤ 1
unfolding count
count-tail i is k u = ground (arith, u)

-- The head of a list of different ids is not in its tail.
once : (i : ℕ) (is : List ℕ) → count (same_id i) (i ∷ is) ≤ 1 → any (same_id i) is ≡ false
unfolding count
once i is u = none-count (same_id i) is (ground (arith, u))

not_in :
    (i : ℕ) (is : List ℕ) → count (same_id i) (i ∷ is) ≤ 1 → (k : ℕ) → In k is → (k == i) ≡ false
not_in i is u k m = any-In (same_id i) is k (once i is u) m

count-rows :
    (k : ℕ) (r : BoardIssue) (rows : List BoardIssue)
    → count (is_id k) (r ∷ rows) ≤ 1
    → count (is_id k) rows ≤ 1
unfolding count
count-rows k r rows u = ground (arith, u)

others :
    (r : BoardIssue) (rows : List BoardIssue)
    → count (is_id r.id) (r ∷ rows) ≤ 1
    → (x : BoardIssue) → In x rows
    → (x.id == r.id) ≡ false
unfolding count
others r rows u x m =
    any-In (is_id r.id) rows x (none-count (is_id r.id) rows (ground (arith, u))) m

rest_any :
    (k : ℕ) (r : BoardIssue) (rows : List BoardIssue)
    → any (is_id k) (r ∷ rows) ≡ true
    → (r.id == k) ≡ false
    → any (is_id k) rows ≡ true
unfolding any
rest_any k r rows a f = ground (arith, a, f)

later-position :
    (i : ℕ) (is : List ℕ) (n : ℕ) (x : BoardIssue)
    → position_in n (i ∷ is) x.id ≡ some x.board_position
    → (x.id == i) ≡ false
    → position_in (n + 1) is x.id ≡ some x.board_position
unfolding position_in
later-position i is n x e f = ground (arith, e, f)

-- The first row is the one with the first id: any other is further down.
first-numbered :
    (i : ℕ) (is : List ℕ) (n : ℕ) (r : BoardIssue) (rows : List BoardIssue)
    → Sorted goes_above (r ∷ rows)
    → ((x : BoardIssue) → In x (r ∷ rows) → position_in n (i ∷ is) x.id ≡ some x.board_position)
    → any (is_id i) (r ∷ rows) ≡ true
    → r.id ≡ i
unfolding position_in
first-numbered i is n r rows s pos has = elim (Bool-cases (r.id == i)) [
  | inl t ↦ ==→eq r.id i t
  | inr f ↦
      let (x, m, t) = any-some (is_id i) rows (rest_any i r rows has f) in
      let p : x.board_position ≡ n = ground (arith, pos x (inr m), t) in
      let q : n + 1 ≤ r.board_position =
        position-le (n + 1) is r.id r.board_position
          (later-position i is n r (pos r (inl refl)) f) in
      absurd (ground (arith, s.0 x m, p, q))
]

module _ (p : ℕ) where
  unnumbered : (n : ℕ) (board : Board) → map (numbered p n []) board ≡ board
  unfolding position_in
  unnumbered n board =
      map-same (numbered p n []) board
        (λ r. elim (Bool-cases (r.project_id == p)) [ inl t ↦ rw (t) refl | inr t ↦ rw (t) refl ])

  numbered-step :
      (n i : ℕ) (is : List ℕ) (r : BoardIssue)
      → any (same_id i) is ≡ false
      → numbered p (n + 1) is (if is_issue p i r then record r { board_position = n } else r)
        ≡ numbered p n (i ∷ is) r
  unfolding position_in
  numbered-step n i is r h = elim (Bool-cases (r.project_id == p)) [
    | inr f ↦ rw (f) (rw (f) refl)
    | inl t ↦ elim (Bool-cases (r.id == i)) [
      | inl e ↦
          let q : r.id ≡ i = ==→eq r.id i e in
          let m : position_in (n + 1) is r.id ≡ none = rw (q) (position-none (n + 1) is i h) in
          let b : (i == r.id) ≡ true = ground (arith, q) in rw (t, e, b) (rw (t, m) refl)
      | inr f ↦ let b : (i == r.id) ≡ false = ground (arith, f) in rw (t, f, b) (rw (t) refl)
    ]
  ]

  -- Ids that are all different: each issue gets the position of its id.
  pub rewrite-numbered :
      (ids : List ℕ) (n : ℕ) (board : Board)
      → ((k : ℕ) → count (same_id k) ids ≤ 1)
      → rewrite_issue_positions p ids n board ≡ map (numbered p n ids) board
  unfolding rewrite_issue_positions
  rewrite-numbered [] n board u = sym (unnumbered n board)
  rewrite-numbered (i ∷ is) n board u =
      rewrite-numbered is (n + 1)
        (update (is_issue p i) (λ r. record r { board_position = n }) board)
        (λ k. count-tail i is k (u k))
      ∙ ap (map (numbered p (n + 1) is))
          (update-map (is_issue p i) (λ r. record r { board_position = n }) board)
      ∙ map-map _ (numbered p (n + 1) is) (numbered p n (i ∷ is)) board
          (λ r. numbered-step n i is r (once i is (u i)))

-- The rows that a list of ids numbers, in order, are in the order of the list.
pub ids-numbered :
    (ids : List ℕ) (n : ℕ) (rows : List BoardIssue)
    → Sorted goes_above rows
    → ((k : ℕ) → count (is_id k) rows ≤ 1)
    → ((k : ℕ) → count (same_id k) ids ≤ 1)
    → ((r : BoardIssue) → In r rows → position_in n ids r.id ≡ some r.board_position)
    → ((k : ℕ) → In k ids → any (is_id k) rows ≡ true)
    → map issue_id rows ≡ ids
unfolding position_in any
ids-numbered [] n [] s ur ui pos has = refl
ids-numbered [] n (r ∷ rows) s ur ui pos has = absurd (ground (arith, pos r (inl refl)))
ids-numbered (i ∷ is) n [] s ur ui pos has = absurd (ground (arith, has i (inl refl)))
ids-numbered (i ∷ is) n (r ∷ rows) s ur ui pos has =
    let head : r.id ≡ i = first-numbered i is n r rows s pos (has i (inl refl)) in
    rw (head) (
      ap (λ ys. i ∷ ys)
        (ids-numbered is (n + 1) rows s.1 (λ k. count-rows k r rows (ur k))
          (λ k. count-tail i is k (ui k))
          (λ x m.
            later-position i is n x (pos x (inr m))
              (ground (arith, head, others r rows (ur r.id) x m)))
          (λ k m.
            rest_any k r rows (has k (inr m)) (ground (arith, head, not_in i is (ui i) k m)))))
