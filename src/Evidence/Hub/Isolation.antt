-- ===== src/Evidence/Hub/Isolation.antt =====
-- hub.go: the channel of a subscriber of a run, while publishers, subscribers and receivers go by
-- turns.
use mathlib.Core.Path.{subst}
use agent_board.Prelude.{
  ℕ, zero, suc, ◌+◌, ◌<◌, ◌≤◌, ◌≡◌, refl, sym, ap, ◌∙◌, false, ◌&&◌, Option, none, some, List, [],
  ◌∷◌, ◌==◌, if-cases, inl, inr, arith,
}
use agent_board.Prelude.Rows.{In, In-append, In-delete, any}
use agent_board.Store.Types.{Event}
use agent_board.Evidence.Hub.{
  HubSubscriber, Hub, new_hub, insert_subscriber, subscribe, remove, unsubscribe, receive,
}
use agent_board.Evidence.Hub.Delivery
use agent_board.Evidence.Hub.Latest.{Sound, new_hub-Sound, snapshot-made, step-Sound}
use agent_board.Evidence.Hub.Selects.{
  Stage, Publisher, select_step, moved, proceed_with, proceed, World, Step, subscribes,
  unsubscribes, starts, proceeds, receives, proceed_at, go, run_steps,
}
use agent_board.Evidence.Hub.Owned.{IsOf, Owned, run_steps-Owned}

-- Every channel of a subscriber and of a publisher was made, and one that was not is empty.
record IsSound (w : World) : Type 0 where
  hub_sound : Sound w.hub
  pending_made :
      (p : Publisher) → In p w.publishers → (x : HubSubscriber) → In x p.pending → x.ch < w.hub.made

-- A select in a channel that was made leaves the others.
proceed-unmade :
    (p : Publisher) (channels : ℕ → List Event) (made k : ℕ)
    → ((x : HubSubscriber) → In x p.pending → x.ch < made)
    → made ≤ k
    → (((x : HubSubscriber) → In x (proceed p channels).0.pending → x.ch < made))
      × ((proceed p channels).1 k ≡ channels k)
unfolding proceed
proceed-unmade p channels made k b l = by p.pending refl
  where
    fewer :
        (sub : HubSubscriber) (subs : List HubSubscriber) (next : Option Stage)
        → sub ∷ subs ≡ p.pending
        → (x : HubSubscriber) → In x (moved p subs next).pending
        → x.ch < made
    fewer sub subs none q x m = b x (subst (In x) q (inr m))
    fewer sub subs (some stage) q x m = b x m

    by :
        (subs : List HubSubscriber)
        → subs ≡ p.pending
        → ((x : HubSubscriber) → In x (proceed_with subs p channels).0.pending → x.ch < made)
          × ((proceed_with subs p channels).1 k ≡ channels k)
    by [] q = (b, refl)
    by (sub ∷ subs) q =
        let other : (sub.ch == k) ≡ false =
          ground (arith, l, b sub (subst (In sub) q (inl refl))) in
        (fewer sub subs (select_step p.stage (channels sub.ch) p.event).1 q, rw (other) refl)

proceed_at-unmade :
    (i : ℕ) (ps : List Publisher) (channels : ℕ → List Event) (made k : ℕ)
    → ((p : Publisher) → In p ps → (x : HubSubscriber) → In x p.pending → x.ch < made)
    → made ≤ k
    → ((p : Publisher)
        → In p (proceed_at i ps channels).0
        → (x : HubSubscriber) → In x p.pending
        → x.ch < made)
      × ((proceed_at i ps channels).1 k ≡ channels k)
unfolding proceed_at
proceed_at-unmade i [] channels made k b l = (b, refl)
proceed_at-unmade zero (p ∷ ps) channels made k b l =
    let (b', e) = proceed-unmade p channels made k (b p (inl refl)) l in
    (
      λ q m. elim m [
        | inl s ↦ λ x n. b' x (subst (λ (y : Publisher). In x y.pending) s n)
        | inr j ↦ b q (inr j)
      ],
      e,
    )
proceed_at-unmade (suc i) (p ∷ ps) channels made k b l =
    let (b', e) = proceed_at-unmade i ps channels made k (λ q m. b q (inr m)) l in
    (
      λ q m. elim m [
        | inl s ↦ λ x n. b p (inl refl) x (subst (λ (y : Publisher). In x y.pending) s n)
        | inr j ↦ b' q j
      ],
      e,
    )

subscribed-made :
    (run_id project_id : ℕ) (h : Hub) → (subscribe run_id project_id h).1.made ≡ h.made + 1
unfolding subscribe insert_subscriber
subscribed-made run_id project_id h =
    if-cases (λ (x : HubSubscriber × Hub). x.1.made ≡ h.made + 1) (run_id == 0 && project_id == 0) _
      _ (λ _. refl)
      (λ _. if-cases (λ (k : Hub). k.made ≡ h.made + 1) (run_id == 0) _ _ (λ _. refl) (λ _. refl))

unsubscribed-made : (sub : HubSubscriber) (h : Hub) → (unsubscribe sub h).made ≡ h.made
unfolding unsubscribe remove
unsubscribed-made sub h =
    if-cases (λ (k : Hub). k.made ≡ h.made) (any (λ c. c == sub.ch) h.stopped) _ _ (λ _. refl)
      (λ _. if-cases (λ (k : Hub). k.made ≡ h.made) (sub.run_id == 0) _ _ (λ _. refl) (λ _. refl))

go-IsSound : (w : World) (s : Step) → IsSound w → IsSound (go w s)
unfolding go Delivery.step receive
go-IsSound w (subscribes run_id project_id) o = record {
  hub_sound = step-Sound w.hub o.hub_sound (Delivery.subscribes run_id project_id);
  pending_made =
      λ p m x n. omega (arith, o.pending_made p m x n, subscribed-made run_id project_id w.hub);
}
go-IsSound w (unsubscribes sub) o = record {
  hub_sound = step-Sound w.hub o.hub_sound (Delivery.unsubscribes sub);
  pending_made = λ p m x n. omega (arith, o.pending_made p m x n, unsubscribed-made sub w.hub);
}
go-IsSound w (starts event) o = record {
  hub_sound = o.hub_sound;
  pending_made = λ p m. elim (In-append w.publishers _ p m) [
    | inl i ↦ o.pending_made p i
    | inr i ↦ elim i [
      | inl e ↦ λ x n.
          snapshot-made w.hub o.hub_sound event x (subst (λ (q : Publisher). In x q.pending) e n)
      | inr z ↦ absurd z
    ]
  ];
}
go-IsSound w (proceeds i) o = record {
  hub_sound = record {
    runs = o.hub_sound.runs;
    projects = o.hub_sound.projects;
    unmade = λ k l.
        (proceed_at-unmade i w.publishers w.hub.channels w.hub.made k o.pending_made l).1
        ∙ o.hub_sound.unmade k l;
  };
  pending_made =
      (proceed_at-unmade i w.publishers w.hub.channels w.hub.made w.hub.made o.pending_made
        (omega arith)).0;
}
go-IsSound w (receives k) o = record {
  hub_sound = step-Sound w.hub o.hub_sound (Delivery.receives k);
  pending_made = o.pending_made;
}

run_steps-IsSound : (w : World) (steps : List Step) → IsSound w → IsSound (run_steps w steps)
unfolding run_steps
run_steps-IsSound w [] o = o
run_steps-IsSound w (s ∷ steps) o = run_steps-IsSound (go w s) steps (go-IsSound w s o)

-- A hub without subscribers, and nobody publishes.
abbrev pub new_world : World
new_world = record { hub = new_hub; publishers = [] }

new_world-IsSound : IsSound new_world
new_world-IsSound = record { hub_sound = new_hub-Sound; pending_made = λ p m. absurd m }

subscribed-Owned :
    (w : World) (run_id : ℕ)
    → IsSound w
    → (run_id == 0) ≡ false
    → Owned w.hub.made run_id (go w (subscribes run_id 0))
unfolding go subscribe insert_subscriber
subscribed-Owned w run_id o n =
    let fresh : (x : ℕ) → x < w.hub.made → (x == w.hub.made) ≡ false = λ x l. ground (arith, l) in
    rw (n) (record {
      held = record {
        runs = λ x m t. elim m [
          | inl q ↦ ap (λ (y : HubSubscriber). y.run_id) q
          | inr i ↦ absurd (
              ground
                (arith, t, fresh x.ch (o.hub_sound.runs x (In-delete _ w.hub.by_run_id x i).0)))
        ];
        projects = λ x m. fresh x.ch (o.hub_sound.projects x m);
        was_made = omega arith;
      };
      all_send = λ p m x i t. absurd (ground (arith, t, fresh x.ch (o.pending_made p m x i)));
      queue =
          subst (IsOf run_id) (sym (o.hub_sound.unmade w.hub.made (omega arith)))
            (record { bound = omega arith; events = λ e m. absurd m });
    })

subscribe-ch : (run_id project_id : ℕ) (h : Hub) → (subscribe run_id project_id h).0.ch ≡ h.made
unfolding subscribe
subscribe-ch run_id project_id h =
    if-cases (λ (x : HubSubscriber × Hub). x.0.ch ≡ h.made) (run_id == 0 && project_id == 0) _ _
      (λ _. refl) (λ _. refl)

-- Whatever publishers, subscribers and receivers do, one select or call at a time and in any order,
-- before and after a subscription to a run: the channel of the subscription never holds an event of
-- another run, nor more than 32 events.
pub run_steps-IsOf :
    (past steps : List Step) (run_id : ℕ)
    → (run_id == 0) ≡ false
    → let w = run_steps new_world past in
      IsOf run_id (
        (run_steps (go w (subscribes run_id 0)) steps).hub.channels (subscribe run_id 0 w.hub).0.ch)
run_steps-IsOf past steps run_id n =
    let w = run_steps new_world past in
    let o = subscribed-Owned w run_id (run_steps-IsSound new_world past new_world-IsSound) n in
    subst (λ c. IsOf run_id ((run_steps (go w (subscribes run_id 0)) steps).hub.channels c))
      (sym (subscribe-ch run_id 0 w.hub))
      (run_steps-Owned w.hub.made run_id (go w (subscribes run_id 0)) steps o).queue
