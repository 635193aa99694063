-- ===== src/Examples/Transfers.antt =====
-- A session 3 that sends the bytes 7 and 8 under the id 5, with a codec that leaves bytes as they
-- are.
use agent_board.Prelude.{◌≡◌, refl, true, false, none, some, List, [], ◌∷◌, ◌++◌, map}
use agent_board.Prelude.Int.{pos}
use agent_board.Prelude.Text.{text_eq}
use agent_board.Transfers.Protocol.{
  Bytes, Encoding, TransferBegin, TransferDirection, validate_transfer_begin, append_transfer_chunk,
  validate_transfer_payload,
}
use agent_board.Transfers.Send.{Body, begin, chunk, end_of, failed, Message, Link, send_transfer}
use agent_board.Transfers.Connection.{
  IncomingTransferState, empty_slot, complete_transfer, handle_body, handle_transfer_message,
  read_loop, receive_transfer, cancel_receive,
}
use agent_board.Transfers.Connection.History.{
  TransferEvent, message, receives, cancels, step, run_events,
}
use agent_board.Transfers.Send.Whole.{
  IsCut, chunk_of, end_message, begin_message, send_transfer-whole,
}
use agent_board.Transfers.Runner.{
  RunnerWorkspace, new_session, reported, offered, removed, handle_transfer_begin,
  handle_transfer_chunk, handle_transfer_end, handle_transfer_applied, start_transfer,
  finish_transfer, sync_workspace_back, publish_remote_workspace, prepare_remote_workspace,
  materialize_local_workspace, mark_ready, mark_failed, mark_remote_ready, await_applied,
  matches_applied, clear_applied, clear_ready,
}
use agent_board.Transfers.Runner.Backed.{
  Input, begins, ends, applies, handle, handle_all, AreBacked, handle_all-AreBacked,
}
use agent_board.Transfers.Bounds.{Within, run_events-Within}

abbrev plain : Encoding
plain = record {
  encode_to_string = λ b. b;
  decode_string = some;
  transfer_checksum = λ b. b;
  decode-encode = λ b. refl;
}

abbrev good_link : Link
good_link = record { fails = λ n. false; is_done = λ n. false }

abbrev two_bytes : Bytes
two_bytes = 7 ∷ 8 ∷ []

send_transfer-whole_example :
    (pieces : List Bytes) × IsCut pieces two_bytes
    × (send_transfer plain good_link 3 5 TransferDirection.from_runner two_bytes ≡ (
      begin_message plain 3 5 TransferDirection.from_runner two_bytes
            ∷ map (chunk_of plain 3 5) pieces
          ++ end_message plain 3 5 ∷ [],
      true,
    ))
send_transfer-whole_example =
    send_transfer-whole plain good_link 3 5 TransferDirection.from_runner two_bytes refl (λ n. refl)
      (λ n. refl)

-- The begin message.
abbrev begun : TransferBegin
begun = record {
  transfer_id = 5;
  direction = TransferDirection.from_runner;
  total_bytes = pos 2;
  checksum = two_bytes;
}

-- The messages of the session, with one of another session among them.
abbrev sent_bodies : List Body
sent_bodies =
    begin begun ∷ chunk (record { transfer_id = 5; chunk_data = two_bytes }) ∷ end_of 5 ∷ []

abbrev mixed : List Message
mixed =
    record { session_id = 3; body = begin begun }
    ∷ record { session_id = 4; body = begin begun }
    ∷ record { session_id = 3; body = chunk (record { transfer_id = 5; chunk_data = two_bytes }) }
    ∷ record { session_id = 3; body = end_of 5 }
    ∷ []

-- A message that says that a transfer failed ends the connection.
failed_ends :
    (read_loop plain (record { session_id = 4; body = failed 9 } ∷ mixed) (λ k. empty_slot)).0
    ≡ false
unfolding read_loop handle_transfer_message handle_body complete_transfer
failed_ends = refl

-- A begin message and a chunk; then the payload is under way.
abbrev under_way : IncomingTransferState
under_way = record { transfer_id = 5; expected = 2; checksum = two_bytes; buffer = two_bytes }

abbrev some_events : List TransferEvent
some_events =
    receives 1
    ∷ message (begin begun)
    ∷ message (chunk (record { transfer_id = 5; chunk_data = two_bytes }))
    ∷ cancels 1
    ∷ []

some_transfer : (run_events plain empty_slot some_events).transfer ≡ some under_way
unfolding run_events step handle_body receive_transfer cancel_receive validate_transfer_begin
    append_transfer_chunk
some_transfer = refl

run_events-Within_example : Within two_bytes 2
run_events-Within_example = run_events-Within plain some_events under_way some_transfer

-- A workspace on the runner's own disk that gives the two bytes back.
abbrev workspace : RunnerWorkspace
workspace = record {
  has_path = true;
  materialize = λ b. some (record { branch = 1; start_revision = 2 });
  prepare = λ b. none;
  publish = λ r. none;
  snapshot = λ c. some two_bytes;
  cleanup = λ r. true;
  remove_all = true;
  publish_id = 20;
  sync_id = 21;
}

abbrev to_and_back : List Input
to_and_back =
    begins (record {
      transfer_id = 5;
      direction = TransferDirection.to_runner;
      total_bytes = pos 0;
      checksum = [];
    })
    ∷ ends workspace 5
    ∷ begins (record {
      transfer_id = 6;
      direction = TransferDirection.from_runner;
      total_bytes = pos 0;
      checksum = [];
    })
    ∷ ends workspace 6
    ∷ applies workspace 5
    ∷ applies workspace 6
    ∷ []

-- The acknowledgement under another id is reported, and the right one removes the workspace.
to_and_back_effects :
    (handle_all plain to_and_back new_session).effects
    ≡ removed 6 ∷ reported ∷ offered 6 two_bytes ∷ []
unfolding handle_all handle handle_transfer_begin handle_transfer_chunk handle_transfer_end
    handle_transfer_applied start_transfer finish_transfer sync_workspace_back
    publish_remote_workspace prepare_remote_workspace materialize_local_workspace mark_ready
    mark_failed mark_remote_ready await_applied matches_applied clear_applied clear_ready
    validate_transfer_begin validate_transfer_payload text_eq
to_and_back_effects = refl

handle_all-AreBacked_example : AreBacked (handle_all plain to_and_back new_session).effects
handle_all-AreBacked_example = handle_all-AreBacked plain to_and_back
