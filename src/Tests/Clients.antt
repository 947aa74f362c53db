-- ===== src/Tests/Clients.antt =====
-- Runs of the client at concrete inputs.
use spore_client_libs.Base.{not, true, false, List, [], ◌∷◌, none, some, ◌≡◌, ◌≢◌, refl}
use spore_client_libs.Base.Text.{Bytes, codes, equal, find?, contains, c_str}
use spore_client_libs.Wire.Message.{Message, empty, request_text}
use spore_client_libs.Client.State.{Client, request, witness, new_client, has_error}
use spore_client_libs.Client.Dispatch.{on_request}
use spore_client_libs.Client.Listen.{listen}
use spore_client_libs.Client.Defined.{listen-defined}
use spore_client_libs.Client.Platform.{linux}
use spore_client_libs.Client.Connect.{Os, connect, disconnect}
use spore_client_libs.Client.Sockets.{
  held, HoldsSocket, created, connected, disconnected, Reachable-HoldsSocket,
}
use spore_client_libs.Client.Send.{
  Writes, send, send_response, send_response_error, send_witness, send_publish, send_raw,
}
use spore_client_libs.Client.Outcome.{send-error, connect-error}
use spore_client_libs.Client.Handlers.{unregister_handler}
use spore_client_libs.Client.Registry.{register, unregister_handler-register}

abbrev listening : Client
listening = record (new_client (codes "node")) {
  socket_fd = some 3;
  connected = true;
  request_handlers = record { address = 100; type = request; id = 0; callback = 7 } ∷ [];
}

-- A block over three lines, cut into reads at odd places.
abbrev some_reads : List Bytes
some_reads = codes "run ~h a=<<\nx" ∷ codes "\ny\n>" ∷ codes "> f\r" ∷ codes "\n" ∷ []

abbrev received_request : Message
received_request = record empty {
  command = codes "run";
  handle = codes "h";
  args = (codes "a", codes "x\ny") ∷ [];
  flags = codes "f" ∷ [];
  raw = codes "run ~h a=<<\nx\ny\n>> f\r\n";
}

listen_block : (listen some_reads listening).1 ≡ some (on_request 7 received_request ∷ [])
unfolding listen find? contains c_str
listen_block = refl

-- Of a value that begins with a newline, in a second block, that newline is lost.
abbrev two_blocks : Message
two_blocks = record empty {
  command = codes "run";
  handle = codes "h";
  args = (codes "a", codes "x\ny") ∷ (codes "b", codes "\nz") ∷ [];
}

listen-two_blocks :
    (listen (request_text two_blocks ∷ []) listening).1
    ≡ some (
        on_request 7 (record two_blocks {
          args = (codes "a", codes "x\ny") ∷ (codes "b", codes "z") ∷ [];
          raw = request_text two_blocks;
        })
        ∷ [])
unfolding listen find? contains request_text c_str
listen-two_blocks = refl

-- The same bytes in one read.
abbrev one_read : List Bytes
one_read = codes "run ~h a=<<\nx\ny\n>> f\r\n" ∷ []

listen-defined_example : (listen one_read listening).1 ≢ none
listen-defined_example = listen-defined one_read listening

-- A daemon that answers `OK`.
abbrev daemon : Os
daemon = record {
  platform = linux;
  program_data = none;
  sun_path_size = 108;
  socket = some 3;
  connects = true;
  writes = true;
  reads = some b'O' ∷ some b'K' ∷ some b'\n' ∷ [];
}

abbrev node : Client
node = new_client (codes "node")

Reachable-HoldsSocket_example :
    HoldsSocket
      (disconnect (connect daemon node).0).0
      (held (held [] (connect daemon node).1) (disconnect (connect daemon node).0).1)
Reachable-HoldsSocket_example =
    Reachable-HoldsSocket (disconnected (connected daemon refl (created (codes "node"))))

-- A second `connect`, which the theorem rules out, loses the first socket.
connect_twice :
    held
      (held [] (connect daemon node).1)
      (connect (record daemon { socket = some 4 }) (connect daemon node).0).1
    ≡ 4 ∷ 3 ∷ []
unfolding connect equal c_str
connect_twice = refl

unregister_handler-register_example :
    unregister_handler
      ((register witness 200 9 listening).0 ∷ [])
      (some 200)
      (register witness 200 9 listening).1
    ≡ some (record listening { next_id = 1 }, 200 ∷ [])
unregister_handler-register_example = unregister_handler-register witness 200 9 listening [] refl

abbrev first_write_only : Writes
first_write_only = record { body = true; newline = false }

send-error_example :
    (has_error (send first_write_only (some two_blocks) listening).0 ≡ true)
    × (has_error (send_response first_write_only none listening).0 ≡ true)
    × (has_error (send_response_error first_write_only none listening).0 ≡ true)
    × (has_error (send_witness first_write_only none listening).0 ≡ true)
    × (has_error (send_publish first_write_only none listening).0 ≡ true)
    × (has_error (send_raw first_write_only (codes "x") listening).0 ≡ true)
send-error_example =
    send-error first_write_only listening (some two_blocks) none none none none (codes "x")

connect-error_example : (connect daemon node).0.connected ≡ not (has_error (connect daemon node).0)
connect-error_example = connect-error daemon node refl
