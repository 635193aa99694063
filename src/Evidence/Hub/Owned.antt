-- ===== src/Evidence/Hub/Owned.antt =====
-- hub.go: who may send to the channel of a subscriber of a run, and what is in it.
use mathlib.Core.Path.{subst}
use agent_board.Prelude.{
  ℕ, zero, suc, ◌+◌, ◌<◌, ◌≤◌, ◌≡◌, refl, sym, ap, ◌∙◌, true, false, ◌&&◌, Option, none, some, List,
  [], ◌∷◌, ◌++◌, ◌==◌, ==→eq, ltb, if-cases, length, inl, inr, arith,
}
use agent_board.Prelude.Rows.{In, In-append, In-delete, In-select, any}
use agent_board.Prelude.Lists.{drop, length-append, length-drop}
use agent_board.Store.Types.{Event}
use agent_board.Evidence.Hub.{
  HubSubscriber, Hub, new_subscriber, insert_subscriber, subscribe, remove, unsubscribe,
  run_subscribers, project_subscribers, receive,
}
use agent_board.Evidence.Hub.Selects.{
  Stage, Publisher, select_step, moved, proceed_with, proceed, start_publish, World, Step,
  subscribes, unsubscribes, starts, proceeds, receives, proceed_at, go, run_steps,
}

-- No more events than the channel has places, and all of the run.
pub record IsOf (run_id : ℕ) (queue : List Event) : Type 0 where
  pub bound : length queue ≤ 32
  pub events : (e : Event) → In e queue → e.run_id ≡ some run_id

In-drop : (q : List Event) (e : Event) → In e (drop 1 q) → In e q
unfolding drop
In-drop [] e m = m
In-drop (x ∷ q) e m = inr m

dropped-IsOf : (r : ℕ) (q : List Event) → IsOf r q → IsOf r (drop 1 q)
dropped-IsOf r q o = record {
  bound = omega (arith, o.bound, length-drop 1 q);
  events = λ e m. o.events e (In-drop q e m);
}

sent-IsOf :
    (r : ℕ) (q : List Event) (event : Event)
    → event.run_id ≡ some r
    → ltb (length q) 32 ≡ true
    → IsOf r q
    → IsOf r (q ++ event ∷ [])
sent-IsOf r q event h t o = record {
  bound = ground (arith, t, length-append q (event ∷ []));
  events = λ e m. elim (In-append q (event ∷ []) e m) [
    | inl i ↦ o.events e i
    | inr i ↦ elim i [ inl s ↦ ap (λ (x : Event). x.run_id) s ∙ h | inr z ↦ absurd z ]
  ];
}

select_step-IsOf :
    (r : ℕ) (stage : Stage) (q : List Event) (event : Event)
    → event.run_id ≡ some r
    → IsOf r q
    → IsOf r (select_step stage q event).0
select_step-IsOf r Stage.sends q event h o =
    if-cases (λ (x : List Event × Option Stage). IsOf r x.0) (ltb (length q) 32) _ _
      (λ t. sent-IsOf r q event h t o) (λ _. o)
select_step-IsOf r Stage.drops q event h o = dropped-IsOf r q o
select_step-IsOf r Stage.sends_again q event h o =
    if-cases (λ (x : List Event). IsOf r x) (ltb (length q) 32) _ _ (λ t. sent-IsOf r q event h t o)
      (λ _. o)

module _ (c r : ℕ) where
  -- The hub gives the channel to subscribers of the run alone.
  pub record Held (h : Hub) : Type 0 where
    pub runs : (x : HubSubscriber) → In x h.by_run_id → (x.ch == c) ≡ true → x.run_id ≡ r
    pub projects : (x : HubSubscriber) → In x h.by_project_id → (x.ch == c) ≡ false
    pub was_made : c < h.made

  -- So do the publishers.
  abbrev pub Sends : Publisher → Type 0
  Sends p = (x : HubSubscriber) → In x p.pending → (x.ch == c) ≡ true → p.event.run_id ≡ some r

  pub record Owned (w : World) : Type 0 where
    pub held : Held w.hub
    pub all_send : (p : Publisher) → In p w.publishers → Sends p
    pub queue : IsOf r (w.hub.channels c)

  inserted-Held :
      (run_id project_id : ℕ) (h : Hub)
      → Held h
      → Held (insert_subscriber (new_subscriber run_id project_id h) h)
  unfolding insert_subscriber
  inserted-Held run_id project_id h k =
      let other : (h.made == c) ≡ false = ground (arith, k.was_made) in
      if-cases Held (run_id == 0) _ _
        (λ _. record {
          runs = k.runs;
          projects = λ x m. elim m [
            | inl q ↦ ap (λ (y : HubSubscriber). y.ch == c) q ∙ other
            | inr i ↦ k.projects x (In-delete _ h.by_project_id x i).0
          ];
          was_made = omega (arith, k.was_made);
        })
        (λ _. record {
          runs = λ x m t. elim m [
            | inl q ↦ absurd (ground (arith, t, ap (λ (y : HubSubscriber). y.ch == c) q ∙ other))
            | inr i ↦ k.runs x (In-delete _ h.by_run_id x i).0 t
          ];
          projects = k.projects;
          was_made = omega (arith, k.was_made);
        })

  inserted-queue :
      (sub : HubSubscriber) (h : Hub)
      → IsOf r (h.channels c)
      → IsOf r ((insert_subscriber sub h).channels c)
  unfolding insert_subscriber
  inserted-queue sub h o =
      if-cases (λ (k : Hub). IsOf r (k.channels c)) (sub.run_id == 0) _ _ (λ _. o) (λ _. o)

  removed-queue :
      (sub : HubSubscriber) (h : Hub) → IsOf r (h.channels c) → IsOf r ((remove sub h).channels c)
  unfolding remove
  removed-queue sub h o =
      if-cases (λ (k : Hub). IsOf r (k.channels c)) (sub.run_id == 0) _ _ (λ _. o) (λ _. o)

  -- The fields that the rest of the hub does not touch.
  same-Held :
      (h : Hub) (made : ℕ) (channels : ℕ → List Event) (stopped : List ℕ)
      → h.made ≤ made
      → Held h
      → Held (record h { made = made; channels = channels; stopped = stopped })
  same-Held h made channels stopped l k = record {
    runs = k.runs;
    projects = k.projects;
    was_made = omega (arith, l, k.was_made);
  }

  removed-Held : (sub : HubSubscriber) (h : Hub) → Held h → Held (remove sub h)
  unfolding remove
  removed-Held sub h k =
      if-cases Held (sub.run_id == 0) _ _
        (λ _. record {
          runs = k.runs;
          projects = λ x m. k.projects x (In-delete _ h.by_project_id x m).0;
          was_made = k.was_made;
        })
        (λ _. record {
          runs = λ x m. k.runs x (In-delete _ h.by_run_id x m).0;
          projects = k.projects;
          was_made = k.was_made;
        })

  snapshot-Sends : (event : Event) (h : Hub) → Held h → Sends (start_publish event h)
  snapshot-Sends event h k x m t =
      elim (In-append (run_subscribers event.run_id h) (project_subscribers event.project_id h) x
        m) [
          | inl i ↦ of_run event.run_id i
          | inr i ↦ absurd (ground (arith, t, k.projects x (of_project i)))
        ]
    where
      of_run : (o : Option ℕ) → In x (run_subscribers o h) → o ≡ some r
      of_run none i = absurd i
      of_run (some run_id) i =
          if-cases (λ (l : List HubSubscriber). In x l → some run_id ≡ some r) (run_id == 0) _ _
            (λ _ n. absurd n)
            (λ _ n.
              let (j, q) = In-select (λ (y : HubSubscriber). y.run_id == run_id) h.by_run_id x n in
              ap some (sym (==→eq x.run_id run_id q) ∙ k.runs x j t))
            i

      of_project : In x (project_subscribers event.project_id h) → In x h.by_project_id
      of_project =
          if-cases (λ (l : List HubSubscriber). In x l → In x h.by_project_id)
            (event.project_id == 0) _ _ (λ _ n. absurd n)
            (λ _ n. (In-select _ h.by_project_id x n).0)

  -- One select of a publisher.
  proceed-Owned :
      (p : Publisher) (channels : ℕ → List Event)
      → Sends p
      → IsOf r (channels c)
      → Sends (proceed p channels).0 × IsOf r ((proceed p channels).1 c)
  unfolding proceed
  proceed-Owned p channels s o = by p.pending refl
    where
      shorter :
          (sub : HubSubscriber) (subs : List HubSubscriber) (next : Option Stage)
          → sub ∷ subs ≡ p.pending
          → Sends (moved p subs next)
      shorter sub subs none q x m t = s x (subst (In x) q (inr m)) t
      shorter sub subs (some stage) q x m t = s x m t

      by :
          (subs : List HubSubscriber)
          → subs ≡ p.pending
          → Sends (proceed_with subs p channels).0 × IsOf r ((proceed_with subs p channels).1 c)
      by [] q = (s, o)
      by (sub ∷ subs) q = (
        shorter sub subs (select_step p.stage (channels sub.ch) p.event).1 q,
        if-cases (IsOf r) (sub.ch == c) _ _
            (λ t.
              select_step-IsOf r p.stage (channels c) p.event
                (s sub (subst (In sub) q (inl refl)) t) o)
            (λ _. o),
      )

  proceed_at-Owned :
      (i : ℕ) (ps : List Publisher) (channels : ℕ → List Event)
      → ((p : Publisher) → In p ps → Sends p)
      → IsOf r (channels c)
      → ((p : Publisher) → In p (proceed_at i ps channels).0 → Sends p)
        × IsOf r ((proceed_at i ps channels).1 c)
  unfolding proceed_at
  proceed_at-Owned i [] channels s o = (s, o)
  proceed_at-Owned zero (p ∷ ps) channels s o =
      let (s', o') = proceed-Owned p channels (s p (inl refl)) o in
      (λ q m. elim m [ inl e ↦ subst Sends (sym e) s' | inr j ↦ s q (inr j) ], o')
  proceed_at-Owned (suc i) (p ∷ ps) channels s o =
      let (s', o') = proceed_at-Owned i ps channels (λ q m. s q (inr m)) o in
      (λ q m. elim m [ inl e ↦ subst Sends (sym e) (s p (inl refl)) | inr j ↦ s' q j ], o')

  go-Owned : (w : World) (step : Step) → Owned w → Owned (go w step)
  unfolding go subscribe unsubscribe insert_subscriber remove receive
  go-Owned w (subscribes run_id project_id) o =
      if-cases (λ (x : HubSubscriber × Hub). Owned (record w { hub = x.1 }))
        (run_id == 0 && project_id == 0) _ _
        (λ _. record {
          held = same-Held w.hub (w.hub.made + 1) w.hub.channels _ (omega arith) o.held;
          all_send = o.all_send;
          queue = o.queue;
        })
        (λ _. record {
          held = inserted-Held run_id project_id w.hub o.held;
          all_send = o.all_send;
          queue = inserted-queue (new_subscriber run_id project_id w.hub) w.hub o.queue;
        })
  go-Owned w (unsubscribes sub) o =
      if-cases (λ (h : Hub). Owned (record w { hub = h })) (any (λ k. k == sub.ch) w.hub.stopped) _
        _ (λ _. o)
        (λ _. record {
          held = removed-Held sub _ (
              same-Held w.hub w.hub.made w.hub.channels (sub.ch ∷ w.hub.stopped) (omega arith)
                o.held);
          all_send = o.all_send;
          queue = removed-queue sub (record w.hub { stopped = sub.ch ∷ w.hub.stopped }) o.queue;
        })
  go-Owned w (starts event) o = record {
    held = o.held;
    all_send = λ p m. elim (In-append w.publishers _ p m) [
      | inl i ↦ o.all_send p i
      | inr i ↦ elim i [
        | inl e ↦ subst Sends (sym e) (snapshot-Sends event w.hub o.held)
        | inr z ↦ absurd z
      ]
    ];
    queue = o.queue;
  }
  go-Owned w (proceeds i) o =
      let (s, q) = proceed_at-Owned i w.publishers w.hub.channels o.all_send o.queue in
      record {
        held = same-Held w.hub w.hub.made _ w.hub.stopped (omega arith) o.held;
        all_send = s;
        queue = q;
      }
  go-Owned w (receives k) o = record {
    held = same-Held w.hub w.hub.made _ w.hub.stopped (omega arith) o.held;
    all_send = o.all_send;
    queue =
        if-cases (IsOf r) (k == c) _ _ (λ _. dropped-IsOf r (w.hub.channels c) o.queue)
          (λ _. o.queue);
  }

  pub run_steps-Owned : (w : World) (steps : List Step) → Owned w → Owned (run_steps w steps)
  unfolding run_steps
  run_steps-Owned w [] o = o
  run_steps-Owned w (step ∷ steps) o = run_steps-Owned (go w step) steps (go-Owned w step o)
