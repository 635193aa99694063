-- ===== src/Evidence/Hub/Delivery.antt =====
-- hub.go: the queue of a subscriber of a run, among the calls of other subscribers.
use agent_board.Prelude.{
  ℕ, ◌+◌, ◌-◌, ◌<◌, ◌≤◌, ◌≡◌, refl, ap, ◌∙◌, Bool, true, false, not, ◌&&◌, Bool-cases, Option, none,
  some, List, [], ◌∷◌, ◌++◌, ◌==◌, is_value, if◌then◌else◌, length, inl, inr, arith, and-left,
  and-right, if-cases,
}
use agent_board.Prelude.Rows.{any, select, delete}
use agent_board.Prelude.Updates.{select-append, select-select, select-delete}
use agent_board.Prelude.Lists.{drop}
use agent_board.Store.Types.{Event}
use agent_board.Evidence.Hub.{
  HubSubscriber, Hub, new_subscriber, same_run_entry, same_project_entry, insert_subscriber,
  subscribe, remove, unsubscribe, deliver_drop_oldest, deliver, deliver_all, run_subscribers,
  project_subscribers, publish, receive,
}

-- A call of the hub, or a receive of a subscriber; each is over before the next one begins.
pub data Op : Type 0 where
  subscribes : ℕ → ℕ → Op
  unsubscribes : HubSubscriber → Op
  publishes : Event → Op
  receives : ℕ → Op

unfoldable pub step : Hub → Op → Hub
unfolding subscribe unsubscribe publish receive
step h (subscribes run_id project_id) = (subscribe run_id project_id h).1
step h (unsubscribes sub) = unsubscribe sub h
step h (publishes event) = publish event h
step h (receives c) = receive c h

unfoldable pub run_ops : Hub → List Op → Hub
unfolding step
run_ops h [] = h
run_ops h (op ∷ ops) = run_ops (step h op) ops

-- What one call does to a queue that nobody shares.
unfoldable pub feed : HubSubscriber → List Event → Op → List Event
feed sub queue (subscribes run_id project_id) = queue
feed sub queue (unsubscribes other) = queue
feed sub queue (publishes event) =
    if is_value event.run_id sub.run_id then deliver_drop_oldest queue event else queue
feed sub queue (receives c) = if c == sub.ch then drop 1 queue else queue

unfoldable pub feeds : HubSubscriber → List Event → List Op → List Event
unfolding feed
feeds sub queue [] = queue
feeds sub queue (op ∷ ops) = feeds sub (feed sub queue op) ops

unfoldable pub spares : HubSubscriber → Op → Bool
spares sub (subscribes run_id project_id) = true
spares sub (unsubscribes other) = not (same_run_entry other sub)
spares sub (publishes event) = true
spares sub (receives c) = true

unfoldable pub all_spare : HubSubscriber → List Op → Bool
unfolding spares
all_spare sub [] = true
all_spare sub (op ∷ ops) = spares sub op && all_spare sub ops

-- The subscriber is the one of its run's subscribers that its channel belongs to.
pub record Registered (sub : HubSubscriber) (h : Hub) : Type 0 where
  pub has_run : (sub.run_id == 0) ≡ false
  pub in_runs : select (λ x. x.ch == sub.ch) h.by_run_id ≡ sub ∷ []
  pub in_projects : select (λ x. x.ch == sub.ch) h.by_project_id ≡ []
  pub was_made : sub.ch < h.made
  pub was_given : sub.id ≤ h.next_id

-- What a delivery to many leaves in one channel.
unfoldable pub repeated : List HubSubscriber → Event → List Event → List Event
repeated [] event queue = queue
repeated (sub ∷ subs) event queue = repeated subs event (deliver_drop_oldest queue event)

pub deliver_all-repeated :
    (c : ℕ) (subs : List HubSubscriber) (event : Event) (channels : ℕ → List Event)
    → deliver_all subs event channels c ≡ repeated (select (λ x. x.ch == c) subs) event (channels c)
unfolding deliver_all repeated select
deliver_all-repeated c [] event channels = refl
deliver_all-repeated c (sub ∷ subs) event channels = elim (Bool-cases (sub.ch == c)) [
  | inl t ↦ deliver_all-repeated c subs event (deliver sub.ch event channels) ∙ rw (t) refl
  | inr t ↦ deliver_all-repeated c subs event (deliver sub.ch event channels) ∙ rw (t) refl
]

module _ (sub : HubSubscriber) (h : Hub) (r : Registered sub h) where
  on_channel : HubSubscriber → Bool
  on_channel x = x.ch == sub.ch

  select-run_subscribers :
      (o : Option ℕ)
      → select (λ x. x.ch == sub.ch) (run_subscribers o h)
        ≡ (if is_value o sub.run_id then sub ∷ [] else [])
  unfolding select
  select-run_subscribers none = refl
  select-run_subscribers (some run_id) =
      let e =
        select-select (λ (x : HubSubscriber). x.ch == sub.ch) (λ x. x.run_id == run_id) h.by_run_id
        ∙ ap (select (λ x. x.run_id == run_id)) r.in_runs in
      ground (arith, e, r.has_run)

  select-project_subscribers : (p : ℕ) → select (λ x. x.ch == sub.ch) (project_subscribers p h) ≡ []
  unfolding select
  select-project_subscribers p =
      let e =
        select-select (λ (x : HubSubscriber). x.ch == sub.ch) (λ x. x.project_id == p)
          h.by_project_id
        ∙ ap (select (λ x. x.project_id == p)) r.in_projects in
      ground (arith, e)

  in_snapshot :
      (event : Event)
      → select
          (λ x. x.ch == sub.ch)
          (run_subscribers event.run_id h ++ project_subscribers event.project_id h)
        ≡ (if is_value event.run_id sub.run_id then sub ∷ [] else [])
  in_snapshot event =
      let e =
        select-append (λ (x : HubSubscriber). x.ch == sub.ch) (run_subscribers event.run_id h)
          (project_subscribers event.project_id h) in
      ground
        (arith, e, select-run_subscribers event.run_id, select-project_subscribers event.project_id)

  step-feed : (op : Op) → (step h op).channels sub.ch ≡ feed sub (h.channels sub.ch) op
  unfolding step feed subscribe insert_subscriber unsubscribe remove publish receive repeated
  step-feed (subscribes run_id project_id) = ground arith
  step-feed (unsubscribes other) = ground arith
  step-feed (publishes event) =
      let e =
        deliver_all-repeated sub.ch
          (run_subscribers event.run_id h ++ project_subscribers event.project_id h) event
          h.channels in
      elim (Bool-cases (is_value event.run_id sub.run_id)) [
        | inl t ↦ e ∙ rw (in_snapshot event, t) refl
        | inr t ↦ e ∙ rw (in_snapshot event, t) refl
      ]
  step-feed (receives c) = ground arith

  insert-Registered :
      (run_id project_id : ℕ)
      → h.next_id + 1 < 18446744073709551616
      → Registered sub (insert_subscriber (new_subscriber run_id project_id h) h)
  unfolding insert_subscriber select delete
  insert-Registered run_id project_id b =
      let new = new_subscriber run_id project_id h in
      let e =
        select-delete (λ (x : HubSubscriber). x.ch == sub.ch) (same_run_entry new) h.by_run_id
        ∙ ap (delete (same_run_entry new)) r.in_runs in
      let e' =
        select-delete (λ (x : HubSubscriber). x.ch == sub.ch) (same_project_entry new)
          h.by_project_id
        ∙ ap (delete (same_project_entry new)) r.in_projects in
      let other : (h.made == sub.ch) ≡ false = ground (arith, r.was_made) in
      let fresh : (sub.id == new.id) ≡ false = ground (arith, b, r.was_given) in
      record {
        has_run = r.has_run;
        in_runs = ground (arith, e, other, fresh, r.in_runs);
        in_projects = ground (arith, e', other, r.in_projects);
        was_made = ground (arith, r.was_made);
        was_given = ground (arith, b, r.was_given);
      }

  remove-Registered :
      (other : HubSubscriber) (stopped : List ℕ)
      → same_run_entry other sub ≡ false
      → Registered sub (remove other (record h { stopped = stopped }))
  unfolding remove select delete
  remove-Registered other stopped n =
      let e =
        select-delete (λ (x : HubSubscriber). x.ch == sub.ch) (same_run_entry other) h.by_run_id
        ∙ ap (delete (same_run_entry other)) r.in_runs in
      let e' =
        select-delete (λ (x : HubSubscriber). x.ch == sub.ch) (same_project_entry other)
          h.by_project_id
        ∙ ap (delete (same_project_entry other)) r.in_projects in
      record {
        has_run = r.has_run;
        in_runs = ground (arith, e, n, r.in_runs);
        in_projects = ground (arith, e', r.in_projects);
        was_made = ground (arith, r.was_made);
        was_given = ground (arith, r.was_given);
      }

  step-Registered :
      (op : Op)
      → spares sub op ≡ true
      → h.next_id + 1 < 18446744073709551616
      → Registered sub (step h op)
  unfolding step spares subscribe unsubscribe publish receive
  step-Registered (subscribes run_id project_id) n b =
      if-cases (λ (w : HubSubscriber × Hub). Registered sub w.1) (run_id == 0 && project_id == 0) _
        _
        (λ _. record {
          has_run = r.has_run;
          in_runs = r.in_runs;
          in_projects = r.in_projects;
          was_made = ground (arith, r.was_made);
          was_given = r.was_given;
        })
        (λ _. insert-Registered run_id project_id b)
  step-Registered (unsubscribes other) n b =
      if-cases (Registered sub) (any (λ c. c == other.ch) h.stopped) _ _ (λ _. r)
        (λ _. remove-Registered other _ (ground (arith, n)))
  step-Registered (publishes event) n b = record {
    has_run = r.has_run;
    in_runs = r.in_runs;
    in_projects = r.in_projects;
    was_made = r.was_made;
    was_given = r.was_given;
  }
  step-Registered (receives c) n b = record {
    has_run = r.has_run;
    in_runs = r.in_runs;
    in_projects = r.in_projects;
    was_made = r.was_made;
    was_given = r.was_given;
  }

pub step-next_id :
    (h : Hub) (op : Op) → h.next_id + 1 < 18446744073709551616 → (step h op).next_id ≤ h.next_id + 1
unfolding step subscribe insert_subscriber unsubscribe remove publish receive
step-next_id h (subscribes run_id project_id) b = ground (arith, b)
step-next_id h (unsubscribes other) b = ground (arith, b)
step-next_id h (publishes event) b = ground (arith, b)
step-next_id h (receives c) b = ground (arith, b)

-- Where every call, a Publish with its deliveries included, is over before the next one begins, live
-- delivery to a subscriber of a run is a queue of its own, fed with the run's events and emptied by
-- its own receives: whatever others subscribe, unsubscribe, publish and receive, as long as the
-- subscriber does not unsubscribe and the uint64 of the ids does not wrap.
pub run_ops-feeds :
    (sub : HubSubscriber) (h : Hub) (ops : List Op)
    → Registered sub h
    → all_spare sub ops ≡ true
    → h.next_id + length ops < 18446744073709551616
    → (run_ops h ops).channels sub.ch ≡ feeds sub (h.channels sub.ch) ops
unfolding run_ops feeds all_spare
run_ops-feeds sub h [] r n b = refl
run_ops-feeds sub h (op ∷ ops) r n b =
    let b' : h.next_id + 1 < 18446744073709551616 = ground (arith, b) in
    run_ops-feeds sub (step h op) ops (step-Registered sub h r op (and-left (spares sub op) _ n) b')
      (and-right (spares sub op) _ n) (ground (arith, b, step-next_id h op b'))
    ∙ ap (λ q. feeds sub q ops) (step-feed sub h r op)

-- The events of the subscriber's run, in the order in which they are published.
unfoldable pub matching : HubSubscriber → List Op → List Event
matching sub [] = []
matching sub (publishes event ∷ ops) =
    let rest = matching sub ops in if is_value event.run_id sub.run_id then event ∷ rest else rest
matching sub (subscribes run_id project_id ∷ ops) = matching sub ops
matching sub (unsubscribes other ∷ ops) = matching sub ops
matching sub (receives c ∷ ops) = matching sub ops

unfoldable pub receives_none : HubSubscriber → List Op → Bool
receives_none sub [] = true
receives_none sub (receives c ∷ ops) = not (c == sub.ch) && receives_none sub ops
receives_none sub (publishes event ∷ ops) = receives_none sub ops
receives_none sub (subscribes run_id project_id ∷ ops) = receives_none sub ops
receives_none sub (unsubscribes other ∷ ops) = receives_none sub ops

-- The last 32 of a list of events.
abbrev pub latest : List Event → List Event
latest events = drop (length events - 32) events
