-- ===== src/Evidence/Hub.antt =====
-- hub.go: subscribers to the events of a run or of a project, each with a channel of 32 places.
-- A map of maps is a list of its inner entries: an inner map that is empty is taken out of the outer
-- one, so the list says it all. A channel is a number, and the hub's channels are what is in them.
pub mod Delivery
pub mod Latest
pub mod Selects
pub mod Isolation
pub mod Owned
use agent_board.Prelude.{
  ℕ, ◌+◌, ◌%◌, Bool, true, false, ◌&&◌, Option, none, some, List, [], ◌∷◌, ◌++◌, ◌==◌, ltb,
  if◌then◌else◌, length,
}
use agent_board.Prelude.Rows.{any, select, delete}
use agent_board.Prelude.Lists.{drop}
use agent_board.Store.Types.{Event}

-- hubSubscriberBuffer
abbrev pub hub_subscriber_buffer : ℕ
hub_subscriber_buffer = 32

-- hubSubscriber; the run or the project is 0 where it is blank.
pub record HubSubscriber : Type 0 where
  pub id : ℕ
  pub run_id : ℕ
  pub project_id : ℕ
  pub ch : ℕ

-- Hub, with the channels made so far, what is in each, and those whose sync.Once is used up.
pub record Hub : Type 0 where
  pub next_id : ℕ
  pub by_run_id : List HubSubscriber
  pub by_project_id : List HubSubscriber
  pub made : ℕ
  pub channels : ℕ → List Event
  pub stopped : List ℕ

-- NewHub
abbrev pub new_hub : Hub
new_hub = record {
  next_id = 0;
  by_run_id = [];
  by_project_id = [];
  made = 0;
  channels = λ _. [];
  stopped = [];
}

abbrev pub same_run_entry : HubSubscriber → HubSubscriber → Bool
same_run_entry sub x = x.run_id == sub.run_id && x.id == sub.id

abbrev pub same_project_entry : HubSubscriber → HubSubscriber → Bool
same_project_entry sub x = x.project_id == sub.project_id && x.id == sub.id

-- The part of subscribe under the lock: the id is a uint64 that wraps.
abbrev pub new_subscriber : ℕ → ℕ → Hub → HubSubscriber
new_subscriber run_id project_id h = record {
  id = (h.next_id + 1) % 18446744073709551616;
  run_id = run_id;
  project_id = project_id;
  ch = h.made;
}

unfoldable pub insert_subscriber : HubSubscriber → Hub → Hub
insert_subscriber sub h =
    let h' : Hub = record h { next_id = sub.id; made = h.made + 1 } in
    if sub.run_id == 0
    then record h' { by_project_id = sub ∷ delete (same_project_entry sub) h.by_project_id }
    else record h' { by_run_id = sub ∷ delete (same_run_entry sub) h.by_run_id }

-- subscribe. With neither a run nor a project the channel stays idle, and its unsubscribe does
-- nothing.
unfoldable pub subscribe : ℕ → ℕ → Hub → HubSubscriber × Hub
unfolding insert_subscriber
subscribe run_id project_id h =
    let sub : HubSubscriber = new_subscriber run_id project_id h in
    if run_id == 0 && project_id == 0
    then (record sub { id = 0 }, record h { made = h.made + 1; stopped = h.made ∷ h.stopped })
    else (sub, insert_subscriber sub h)

-- remove
unfoldable pub remove : HubSubscriber → Hub → Hub
remove sub h =
    if sub.run_id == 0
    then record h { by_project_id = delete (same_project_entry sub) h.by_project_id }
    else record h { by_run_id = delete (same_run_entry sub) h.by_run_id }

-- The function that subscribe returns.
unfoldable pub unsubscribe : HubSubscriber → Hub → Hub
unfolding remove
unsubscribe sub h =
    if any (λ c. c == sub.ch) h.stopped
    then h
    else remove sub (record h { stopped = sub.ch ∷ h.stopped })

-- deliverDropOldest, on what is in the channel, where nothing else happens to the channel between its
-- selects. `Selects` has them one by one.
unfoldable pub deliver_drop_oldest : List Event → Event → List Event
deliver_drop_oldest queue event =
    if ltb (length queue) hub_subscriber_buffer then queue ++ event ∷ [] else retry (drop 1 queue)
  where
    retry : List Event → List Event
    retry rest = if ltb (length rest) hub_subscriber_buffer then rest ++ event ∷ [] else rest

abbrev pub deliver : ℕ → Event → (ℕ → List Event) → ℕ → List Event
deliver c event channels k = if c == k then deliver_drop_oldest (channels k) event else channels k

unfoldable pub deliver_all : List HubSubscriber → Event → (ℕ → List Event) → ℕ → List Event
deliver_all [] event channels = channels
deliver_all (sub ∷ subs) event channels = deliver_all subs event (deliver sub.ch event channels)

abbrev pub run_subscribers : Option ℕ → Hub → List HubSubscriber
run_subscribers none h = []
run_subscribers (some run_id) h =
    if run_id == 0 then [] else select (λ x. x.run_id == run_id) h.by_run_id

abbrev pub project_subscribers : ℕ → Hub → List HubSubscriber
project_subscribers project_id h =
    if project_id == 0 then [] else select (λ x. x.project_id == project_id) h.by_project_id

-- Publish, where nothing else happens before it returns; its deliveries go by after it has given the
-- lock back, and `Selects` has them among what others do.
unfoldable pub publish : Event → Hub → Hub
unfolding deliver_all
publish event h = record h {
  channels =
      deliver_all (run_subscribers event.run_id h ++ project_subscribers event.project_id h) event
        h.channels;
}

-- A subscriber's receive from its channel, where something is in it.
unfoldable pub receive : ℕ → Hub → Hub
receive c h = record h { channels = λ k. if c == k then drop 1 (h.channels k) else h.channels k }
