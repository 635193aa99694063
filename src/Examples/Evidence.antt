-- ===== src/Examples/Evidence.antt =====
-- The hub with two subscribers to one run and one to a project.
use agent_board.Prelude.{ℕ, zero, suc, ◌++◌, ◌≡◌, refl, true, none, some, List, [], ◌∷◌, arith}
use agent_board.Prelude.Rows.{select}
use agent_board.Store.Types.{Event, EventType, Payload}
use agent_board.Prelude.Lists.{drop}
use agent_board.Evidence.Hub.{HubSubscriber, Hub, new_hub, insert_subscriber, subscribe}
use agent_board.Evidence.Hub.Selects
use agent_board.Evidence.Hub.Owned.{IsOf}
use agent_board.Evidence.Hub.Isolation.{new_world, run_steps-IsOf}
use agent_board.Evidence.Hub.Delivery.{
  Op, subscribes, unsubscribes, publishes, receives, run_ops, feeds, all_spare, Registered,
  matching, receives_none, latest, run_ops-feeds,
}
use agent_board.Evidence.Hub.Latest.{subscribe-latest}

abbrev event_of : ℕ → ℕ → Event
event_of id run_id = record {
  id = id;
  type = EventType.other_event 1;
  occurred_at = 10;
  project_id = 1;
  issue_id = none;
  run_id = some run_id;
  agent_id = none;
  workspace_id = none;
  parent_event_id = none;
  sequence = some id;
  payload = Payload.question 0;
}

abbrev watcher : HubSubscriber
watcher = record { id = 2; run_id = 7; project_id = 0; ch = 1 }

abbrev neighbour : HubSubscriber
neighbour = record { id = 1; run_id = 7; project_id = 0; ch = 0 }

abbrev watched_hub : Hub
watched_hub = record {
  next_id = 3;
  by_run_id = watcher ∷ neighbour ∷ [];
  by_project_id = record { id = 3; run_id = 0; project_id = 1; ch = 2 } ∷ [];
  made = 3;
  channels = λ _. [];
  stopped = [];
}

abbrev calls : List Op
calls =
    publishes (event_of 50 7)
    ∷ subscribes 7 0
    ∷ unsubscribes neighbour
    ∷ publishes (event_of 51 8)
    ∷ receives 2
    ∷ publishes (event_of 52 7)
    ∷ []

watched_hub-Registered : Registered watcher watched_hub
unfolding select
watched_hub-Registered = record {
  has_run = refl;
  in_runs = refl;
  in_projects = refl;
  was_made = omega arith;
  was_given = omega arith;
}

calls_spare : all_spare watcher calls ≡ true
unfolding all_spare
calls_spare = refl

run_ops-feeds_example : (run_ops watched_hub calls).channels 1 ≡ feeds watcher [] calls
run_ops-feeds_example =
    run_ops-feeds watcher watched_hub calls watched_hub-Registered calls_spare (omega arith)

abbrev past_calls : List Op
past_calls = subscribes 7 0 ∷ publishes (event_of 49 7) ∷ []

past_next_id : (run_ops new_hub past_calls).next_id ≡ 1
unfolding run_ops subscribe insert_subscriber
past_next_id = refl

past_spare : all_spare (subscribe 7 0 (run_ops new_hub past_calls)).0 calls ≡ true
unfolding all_spare run_ops subscribe insert_subscriber
past_spare = refl

past_receives_none : receives_none (subscribe 7 0 (run_ops new_hub past_calls)).0 calls ≡ true
unfolding receives_none run_ops subscribe insert_subscriber
past_receives_none = refl

subscribe-latest_example :
    let h : Hub = run_ops new_hub past_calls in
    let sub : HubSubscriber = (subscribe 7 0 h).0 in
    (run_ops (subscribe 7 0 h).1 calls).channels sub.ch ≡ latest (matching sub calls)
subscribe-latest_example =
    subscribe-latest past_calls calls 7 refl past_spare past_receives_none
      (omega (arith, past_next_id))

-- The watcher's channel holds the two events of its run.
watched_events : matching watcher calls ≡ event_of 50 7 ∷ event_of 52 7 ∷ []
unfolding matching
watched_events = refl

-- Two publishers by turns: one sends to both subscribers of the run 7, the other to none.
abbrev turns : List Selects.Step
turns =
    Selects.starts (event_of 50 7)
    ∷ Selects.starts (event_of 51 8)
    ∷ Selects.subscribes 7 0
    ∷ Selects.proceeds 0
    ∷ Selects.proceeds 1
    ∷ Selects.unsubscribes neighbour
    ∷ Selects.proceeds 0
    ∷ Selects.receives 1
    ∷ []

abbrev past_turns : List Selects.Step
past_turns = Selects.subscribes 7 0 ∷ Selects.starts (event_of 49 7) ∷ Selects.proceeds 0 ∷ []

run_steps-IsOf_example :
    let w = Selects.run_steps new_world past_turns in
    IsOf 7 (
      (Selects.run_steps (Selects.go w (Selects.subscribes 7 0)) turns).hub.channels
        (subscribe 7 0 w.hub).0.ch)
run_steps-IsOf_example = run_steps-IsOf past_turns turns 7 refl

-- Two publishers, A and B, and a full channel: A takes the oldest event out, B takes the place, and
-- the last select of A drops its own event.
unfoldable copies : ℕ → List Event
copies zero = []
copies (suc n) = event_of 1 7 ∷ copies n

abbrev full_world : Selects.World
full_world = record {
  hub = record watched_hub {
    by_run_id = watcher ∷ [];
    by_project_id = [];
    channels = λ _. copies 32;
  };
  publishers = [];
}

abbrev race : List Selects.Step
race =
    Selects.starts (event_of 2 7)
    ∷ Selects.starts (event_of 3 7)
    ∷ Selects.proceeds 0
    ∷ Selects.proceeds 0
    ∷ Selects.proceeds 1
    ∷ Selects.proceeds 0
    ∷ Selects.proceeds 0
    ∷ []

race_lost : (Selects.run_steps full_world race).hub.channels 1 ≡ copies 31 ++ event_of 3 7 ∷ []
unfolding copies Selects.run_steps Selects.go Selects.proceed_at Selects.proceed select drop
race_lost = refl
