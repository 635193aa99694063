-- ===== src/Evidence/Hub/Selects.antt =====
-- hub.go: the selects of deliverDropOldest one by one, so that publishers, subscribers and receivers
-- may go by turns. A select on a channel is one step. The order of a snapshot is that of the hub's
-- lists, where Go takes any: the deliveries to two channels have nothing to do with each other.
use agent_board.Prelude.{
  ℕ, zero, suc, ◌≡◌, sym, ap, ◌∙◌, ==→eq, Bool, true, Option, none, some, List, [], ◌∷◌, ◌++◌, ◌==◌,
  ltb, if◌then◌else◌, length,
}
use agent_board.Prelude.Lists.{drop}
use agent_board.Store.Types.{Event}
use agent_board.Evidence.Hub.{
  HubSubscriber, Hub, hub_subscriber_buffer, run_subscribers, project_subscribers, subscribe,
  unsubscribe, receive,
}

-- The next select of deliverDropOldest.
pub data Stage : Type 0 where
  sends drops sends_again : Stage

-- A Publish that has given the lock back: what is left of its snapshot, and where it is at the first
-- of it.
pub record Publisher : Type 0 where
  pub event : Event
  pub pending : List HubSubscriber
  pub stage : Stage

-- A select: what it leaves in the channel, and the next one, where there is one.
abbrev pub select_step : Stage → List Event → Event → List Event × Option Stage
select_step Stage.sends queue event =
    if ltb (length queue) hub_subscriber_buffer
    then (queue ++ event ∷ [], none)
    else (queue, some Stage.drops)
select_step Stage.drops queue event = (drop 1 queue, some Stage.sends_again)
select_step Stage.sends_again queue event =
    (if ltb (length queue) hub_subscriber_buffer then queue ++ event ∷ [] else queue, none)

abbrev pub moved : Publisher → List HubSubscriber → Option Stage → Publisher
moved p subs none = record p { pending = subs; stage = Stage.sends }
moved p subs (some stage) = record p { stage = stage }

abbrev pub selected : Publisher → HubSubscriber → (ℕ → List Event) → ℕ → List Event
selected p sub channels k =
    if sub.ch == k then (select_step p.stage (channels k) p.event).0 else channels k

abbrev pub proceed_with :
    List HubSubscriber → Publisher → (ℕ → List Event) → Publisher × (ℕ → List Event)
proceed_with [] p channels = (p, channels)
proceed_with (sub ∷ subs) p channels =
    (moved p subs (select_step p.stage (channels sub.ch) p.event).1, selected p sub channels)

-- The next select of a publisher.
unfoldable pub proceed : Publisher → (ℕ → List Event) → Publisher × (ℕ → List Event)
proceed p channels = proceed_with p.pending p channels

-- The part of Publish under the lock.
abbrev pub start_publish : Event → Hub → Publisher
start_publish event h = record {
  event = event;
  pending = run_subscribers event.run_id h ++ project_subscribers event.project_id h;
  stage = Stage.sends;
}

-- The hub, and the calls of Publish that are under way.
pub record World : Type 0 where
  pub hub : Hub
  pub publishers : List Publisher

pub data Step : Type 0 where
  subscribes : (run_id project_id : ℕ) → Step
  unsubscribes : HubSubscriber → Step
  starts : Event → Step
  proceeds : (publisher : ℕ) → Step
  receives : (ch : ℕ) → Step

-- The select of the publisher of a number, where there is one.
unfoldable pub proceed_at :
    ℕ → List Publisher → (ℕ → List Event) → List Publisher × (ℕ → List Event)
unfolding proceed
proceed_at i [] channels = ([], channels)
proceed_at zero (p ∷ ps) channels = let r = proceed p channels in (r.0 ∷ ps, r.1)
proceed_at (suc i) (p ∷ ps) channels = let r = proceed_at i ps channels in (p ∷ r.0, r.1)

unfoldable pub go : World → Step → World
unfolding subscribe unsubscribe receive proceed_at
go w (subscribes run_id project_id) = record w { hub = (subscribe run_id project_id w.hub).1 }
go w (unsubscribes sub) = record w { hub = unsubscribe sub w.hub }
go w (starts event) = record w { publishers = w.publishers ++ start_publish event w.hub ∷ [] }
go w (proceeds i) =
    let r = proceed_at i w.publishers w.hub.channels in
    record { hub = record w.hub { channels = r.1 }; publishers = r.0 }
go w (receives c) = record w { hub = receive c w.hub }

unfoldable pub run_steps : World → List Step → World
unfolding go
run_steps w [] = w
run_steps w (s ∷ ss) = run_steps (go w s) ss

-- A number of selects of one publisher, with nothing between them.
unfoldable pub proceed_times : ℕ → Publisher → (ℕ → List Event) → Publisher × (ℕ → List Event)
unfolding proceed
proceed_times zero p channels = (p, channels)
proceed_times (suc n) p channels = let r = proceed p channels in proceed_times n r.0 r.1

module _ (event : Event) (sub : HubSubscriber) (channels : ℕ → List Event) where
  abbrev at_stage : List HubSubscriber → Stage → Publisher
  at_stage pending stage = record { event = event; pending = pending; stage = stage }

  -- What a test says of the subscriber's channel.
  read :
      (b : Bool) (k : ℕ)
      → ltb (length (channels sub.ch)) 32 ≡ b
      → (sub.ch == k) ≡ true
      → ltb (length (channels k)) 32 ≡ b
  read b k t q = ap (λ c. ltb (length (channels c)) 32) (sym (==→eq sub.ch k q)) ∙ t
