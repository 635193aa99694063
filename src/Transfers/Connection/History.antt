-- ===== src/Transfers/Connection/History.antt =====
-- What happens to a session's entries on the server: messages, and receivers that come and go. After
-- a message that ends the connection there are receivers alone; the histories here include more.
use agent_board.Prelude.{ℕ, List, [], ◌∷◌}
use agent_board.Transfers.Protocol.{Encoding}
use agent_board.Transfers.Send.{Body}
use agent_board.Transfers.Connection.{Slot, handle_body, receive_transfer, cancel_receive}

pub data TransferEvent : Type 0 where
  message : Body → TransferEvent
  receives : (waiter : ℕ) → TransferEvent
  cancels : (waiter : ℕ) → TransferEvent

unfoldable pub step : Encoding → Slot → TransferEvent → Slot
unfolding handle_body receive_transfer cancel_receive
step e s (message b) = (handle_body e b s).1
step e s (receives w) = (receive_transfer w s).1
step e s (cancels w) = cancel_receive w s

unfoldable pub run_events : Encoding → Slot → List TransferEvent → Slot
unfolding step
run_events e s [] = s
run_events e s (v ∷ vs) = run_events e (step e s v) vs
