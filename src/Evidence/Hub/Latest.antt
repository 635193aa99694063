-- ===== src/Evidence/Hub/Latest.antt =====
-- hub.go: what a slow subscriber finds in its channel.
use agent_board.Prelude.{
  ℕ, suc, ◌+◌, ◌-◌, ◌<◌, ◌≤◌, ◌≡◌, refl, sym, ap, ◌∙◌, Bool, true, false, not, ◌&&◌, Bool-cases,
  Option, none, some, List, [], ◌∷◌, ◌++◌, ◌==◌, ==_refl, is_value, ltb, length, inl, inr, arith,
  and-right, if-cases,
}
use agent_board.Prelude.Rows.{In, In-delete, In-select, In-append, any, select, delete}
use agent_board.Prelude.Lists.{drop, length-append, length-drop, append_assoc, append-nil}
use agent_board.Store.Types.{Event}
use agent_board.Evidence.Hub.{
  HubSubscriber, Hub, new_hub, new_subscriber, same_run_entry, insert_subscriber, subscribe, remove,
  unsubscribe, deliver_drop_oldest, run_subscribers, project_subscribers, publish, receive,
}
use agent_board.Evidence.Hub.Delivery.{
  Op, subscribes, unsubscribes, publishes, receives, step, run_ops, feed, feeds, all_spare,
  Registered, repeated, deliver_all-repeated, matching, receives_none, latest, run_ops-feeds,
}

latest-cons : (x : Event) (xs : List Event) → 32 ≤ length xs → latest (x ∷ xs) ≡ latest xs
unfolding drop
latest-cons x xs b =
    let e : length (x ∷ xs) - 32 ≡ suc (length xs - 32) = omega (arith, b) in
    ap (λ n. drop n (x ∷ xs)) e

deliver_drop_oldest-latest :
    (queue rest : List Event) (event : Event)
    → length queue ≤ 32
    → latest (deliver_drop_oldest queue event ++ rest) ≡ latest (queue ++ event ∷ rest)
unfolding deliver_drop_oldest drop
deliver_drop_oldest-latest [] rest event b = refl
deliver_drop_oldest-latest (x ∷ queue) rest event b =
    elim (Bool-cases (ltb (length (x ∷ queue)) 32)) [
      | inl t ↦ rw (t) (ap latest (append_assoc (x ∷ queue) (event ∷ []) rest))
      | inr t ↦
          let t' : ltb (length queue) 32 ≡ true = ground (arith, b) in
          rw (t, t')
            (ap latest (append_assoc queue (event ∷ []) rest)
              ∙ sym (
                  latest-cons x (queue ++ event ∷ rest)
                    (ground (arith, t, length-append queue (event ∷ rest)))))
    ]

length-deliver_drop_oldest :
    (queue : List Event) (event : Event)
    → length queue ≤ 32
    → length (deliver_drop_oldest queue event) ≤ 32
unfolding deliver_drop_oldest
length-deliver_drop_oldest queue event b = ground (
  arith,
  b,
  length-append queue (event ∷ []),
  length-append (drop 1 queue) (event ∷ []),
  length-drop 1 queue,
)

feeds-latest :
    (sub : HubSubscriber) (queue : List Event) (ops : List Op)
    → length queue ≤ 32
    → receives_none sub ops ≡ true
    → feeds sub queue ops ≡ latest (queue ++ matching sub ops)
unfolding feeds feed matching receives_none drop
feeds-latest sub queue [] b n =
    let z : length queue - 32 ≡ 0 = omega (arith, b) in
    sym (ap latest (append-nil queue) ∙ ap (λ k. drop k queue) z)
feeds-latest sub queue (subscribes run_id project_id ∷ ops) b n = feeds-latest sub queue ops b n
feeds-latest sub queue (unsubscribes other ∷ ops) b n = feeds-latest sub queue ops b n
feeds-latest sub queue (receives c ∷ ops) b n =
    let t : (c == sub.ch) ≡ false = ground (arith, n) in
    rw (t) (feeds-latest sub queue ops b (and-right (not (c == sub.ch)) _ n))
feeds-latest sub queue (publishes event ∷ ops) b n =
    elim (Bool-cases (is_value event.run_id sub.run_id)) [
      | inl t ↦ rw (t) (
          feeds-latest sub (deliver_drop_oldest queue event) ops
            (length-deliver_drop_oldest queue event b) n
          ∙ deliver_drop_oldest-latest queue (matching sub ops) event b)
      | inr t ↦ rw (t) (feeds-latest sub queue ops b n)
    ]

-- Every subscriber has a channel that was made, and a channel that was not made is empty.
pub record Sound (h : Hub) : Type 0 where
  pub runs : (x : HubSubscriber) → In x h.by_run_id → x.ch < h.made
  pub projects : (x : HubSubscriber) → In x h.by_project_id → x.ch < h.made
  pub unmade : (c : ℕ) → h.made ≤ c → h.channels c ≡ []

pub new_hub-Sound : Sound new_hub
new_hub-Sound = record { runs = λ x m. absurd m; projects = λ x m. absurd m; unmade = λ c b. refl }

-- Subscribers whose channels lie below a number are not found at or above it.
select-none :
    (subs : List HubSubscriber) (made c : ℕ)
    → ((x : HubSubscriber) → In x subs → x.ch < made)
    → made ≤ c
    → select (λ x. x.ch == c) subs ≡ []
unfolding select
select-none [] made c h b = refl
select-none (x ∷ subs) made c h b =
    ground (arith, h x (inl refl), b, select-none subs made c (λ y m. h y (inr m)) b)

module _ (h : Hub) (s : Sound h) where
  run_subscribers-made :
      (o : Option ℕ) (x : HubSubscriber) → In x (run_subscribers o h) → x.ch < h.made
  run_subscribers-made none x m = absurd m
  run_subscribers-made (some r) x m =
      if-cases (λ (l : List HubSubscriber). In x l → x.ch < h.made) (r == 0) _ _ (λ _ n. absurd n)
        (λ _ n. s.runs x (In-select _ h.by_run_id x n).0) m

  project_subscribers-made :
      (p : ℕ) (x : HubSubscriber) → In x (project_subscribers p h) → x.ch < h.made
  project_subscribers-made p x =
      if-cases (λ (l : List HubSubscriber). In x l → x.ch < h.made) (p == 0) _ _ (λ _ m. absurd m)
        (λ _ m. s.projects x (In-select _ h.by_project_id x m).0)

  pub snapshot-made :
      (event : Event) (x : HubSubscriber)
      → In x (run_subscribers event.run_id h ++ project_subscribers event.project_id h)
      → x.ch < h.made
  snapshot-made event x m = elim (In-append (run_subscribers event.run_id h) _ x m) [
    | inl i ↦ run_subscribers-made event.run_id x i
    | inr i ↦ project_subscribers-made event.project_id x i
  ]

  inserted-made :
      (sub : HubSubscriber) (subs : List HubSubscriber) (p : HubSubscriber → Bool)
      → sub.ch ≡ h.made
      → ((x : HubSubscriber) → In x subs → x.ch < h.made)
      → (x : HubSubscriber) → In x (sub ∷ delete p subs)
      → x.ch < h.made + 1
  inserted-made sub subs p e b x (inl q) = ground (arith, ap (λ (y : HubSubscriber). y.ch) q, e)
  inserted-made sub subs p e b x (inr m) = ground (arith, b x (In-delete p subs x m).0)

  insert-Sound :
      (run_id project_id : ℕ) → Sound (insert_subscriber (new_subscriber run_id project_id h) h)
  unfolding insert_subscriber
  insert-Sound run_id project_id =
      if-cases Sound (run_id == 0) _ _
        (λ _. record {
          runs = λ x m. ground (arith, s.runs x m);
          projects = inserted-made _ h.by_project_id _ refl s.projects;
          unmade = λ c b. s.unmade c (omega (arith, b));
        })
        (λ _. record {
          runs = inserted-made _ h.by_run_id _ refl s.runs;
          projects = λ x m. ground (arith, s.projects x m);
          unmade = λ c b. s.unmade c (omega (arith, b));
        })

  remove-Sound :
      (sub : HubSubscriber) (stopped : List ℕ) → Sound (remove sub (record h { stopped = stopped }))
  unfolding remove
  remove-Sound sub stopped =
      if-cases Sound (sub.run_id == 0) _ _
        (λ _. record {
          runs = s.runs;
          projects = λ x m. s.projects x (In-delete _ h.by_project_id x m).0;
          unmade = s.unmade;
        })
        (λ _. record {
          runs = λ x m. s.runs x (In-delete _ h.by_run_id x m).0;
          projects = s.projects;
          unmade = s.unmade;
        })

  pub step-Sound : (op : Op) → Sound (step h op)
  unfolding step subscribe unsubscribe publish receive repeated drop
  step-Sound (subscribes run_id project_id) =
      if-cases (λ (w : HubSubscriber × Hub). Sound w.1) (run_id == 0 && project_id == 0) _ _
        (λ _. record {
          runs = λ x m. ground (arith, s.runs x m);
          projects = λ x m. ground (arith, s.projects x m);
          unmade = λ c b. s.unmade c (omega (arith, b));
        })
        (λ _. insert-Sound run_id project_id)
  step-Sound (unsubscribes sub) =
      if-cases Sound (any (λ c. c == sub.ch) h.stopped) _ _ (λ _. s) (λ _. remove-Sound sub _)
  step-Sound (publishes event) = record {
    runs = s.runs;
    projects = s.projects;
    unmade = λ c b.
        deliver_all-repeated c _ event h.channels
        ∙ ap (λ l. repeated l event (h.channels c)) (select-none _ h.made c (snapshot-made event) b)
        ∙ s.unmade c b;
  }
  step-Sound (receives k) = record {
    runs = s.runs;
    projects = s.projects;
    unmade = λ c b. ground (arith, s.unmade c b);
  }

reached-Sound : (h : Hub) (ops : List Op) → Sound h → Sound (run_ops h ops)
unfolding run_ops
reached-Sound h [] s = s
reached-Sound h (op ∷ ops) s = reached-Sound (step h op) ops (step-Sound h s op)

-- A subscription to a run registers its subscriber, with a channel of its own.
insert-Registered :
    (h : Hub) (run_id : ℕ)
    → Sound h
    → (run_id == 0) ≡ false
    → Registered (new_subscriber run_id 0 h) (insert_subscriber (new_subscriber run_id 0 h) h)
unfolding insert_subscriber select
insert-Registered h run_id s n =
    let new = new_subscriber run_id 0 h in
    let e =
      select-none (delete (same_run_entry new) h.by_run_id) h.made h.made
        (λ x m. s.runs x (In-delete _ h.by_run_id x m).0) (omega arith) in
    let e' = select-none h.by_project_id h.made h.made s.projects (omega arith) in
    record {
      has_run = n;
      in_runs = ground (arith, n, e, ==_refl h.made);
      in_projects = ground (arith, n, e');
      was_made = ground (arith, n);
      was_given = ground (arith, n);
    }

inserted-latest :
    (h : Hub) (run_id : ℕ) (ops : List Op)
    → Sound h
    → (run_id == 0) ≡ false
    → h.next_id + 1 + length ops < 18446744073709551616
    → let sub : HubSubscriber = new_subscriber run_id 0 h in
      all_spare sub ops ≡ true
      → receives_none sub ops ≡ true
      → (run_ops (insert_subscriber sub h) ops).channels sub.ch ≡ latest (matching sub ops)
unfolding insert_subscriber
inserted-latest h run_id ops s n b a none_left =
    let sub : HubSubscriber = new_subscriber run_id 0 h in
    let h' : Hub = insert_subscriber sub h in
    let empty : h'.channels sub.ch ≡ [] = ground (arith, n, s.unmade h.made (omega arith)) in
    run_ops-feeds sub h' ops (insert-Registered h run_id s n) a (ground (arith, n, b))
    ∙ ap (λ q. feeds sub q ops) empty
    ∙ feeds-latest sub [] ops (omega arith) none_left

-- A subscriber to a run of a hub with any past, who neither receives nor unsubscribes, finds in its
-- channel the latest 32 of the events of its run that were published since, in their order,
-- whatever other subscribers do, where every call (a Publish with its deliveries) is over before
-- the next one begins, and as long as the uint64 of the ids does not wrap.
pub subscribe-latest :
    (past ops : List Op) (run_id : ℕ)
    → (run_id == 0) ≡ false
    → let h : Hub = run_ops new_hub past in
      let sub : HubSubscriber = (subscribe run_id 0 h).0 in
      all_spare sub ops ≡ true
      → receives_none sub ops ≡ true
      → h.next_id + 1 + length ops < 18446744073709551616
      → (run_ops (subscribe run_id 0 h).1 ops).channels sub.ch ≡ latest (matching sub ops)
unfolding subscribe insert_subscriber
subscribe-latest past ops run_id n a none_left b =
    let h : Hub = run_ops new_hub past in
    if-cases
      (λ (w : HubSubscriber × Hub).
        all_spare w.0 ops ≡ true
        → receives_none w.0 ops ≡ true
        → (run_ops w.1 ops).channels w.0.ch ≡ latest (matching w.0 ops))
      (run_id == 0 && 0 == 0) _ _ (λ e. absurd (ground (arith, n, e)))
      (λ _. inserted-latest h run_id ops (reached-Sound new_hub past new_hub-Sound) n b) a none_left
