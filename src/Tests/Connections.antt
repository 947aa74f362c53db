-- ===== src/Tests/Connections.antt =====
-- A daemon's reply, handlers, and a connection that fails, at concrete inputs.
use spore_client_libs.Base.{true, false, [], ◌∷◌, none, some, ◌≡◌, refl, length, arith}
use spore_client_libs.Base.Text.{Bytes, codes, equal, contains, c_str}
use spore_client_libs.Client.State.{Client, request, new_client, clear_error, error}
use spore_client_libs.Client.Handlers.{unregister_handler}
use spore_client_libs.Client.Platform.{linux, windows, default_socket_path, sun_path}
use spore_client_libs.Client.Connect.{Os, started_up, opened, dialled, closed, connect}
use spore_client_libs.Client.Handshake.{answered, connect-reply, reads_of}
use spore_client_libs.Client.Registry.{register}
use spore_client_libs.Client.HandlerOrder.{AllGrow, created, added, removed, Registered-AllGrow}
use spore_client_libs.Client.Frame.{no_line}
use spore_client_libs.Client.Listen.{drain}
use spore_client_libs.Client.Fuel.{drain-ends}

abbrev refusal : Bytes
refusal = codes "unknown node\r"

abbrev refusing : Os
refusing = record {
  platform = linux;
  program_data = none;
  sun_path_size = 108;
  socket = some 5;
  connects = true;
  writes = true;
  reads = reads_of refusal (some b'x' ∷ none ∷ []);
}

abbrev unknown_node : Client
unknown_node = new_client (codes "who")

connect-reply_example :
    (connect refusing unknown_node).0 ≡ answered refusal 5 (clear_error unknown_node)
connect-reply_example =
    connect-reply refusing 5 refusal (some b'x' ∷ none ∷ []) unknown_node refl refl refl refl
      (unfold contains in refl) (unfold contains in refl) (omega arith)

answered-refusal : answered refusal 5 (clear_error unknown_node) ≡ record unknown_node {
  error_code = codes "HandshakeFailed";
  error_what = codes "unknown node";
}
unfolding equal spore_client_libs.Client.Connect.strip_newlines
answered-refusal = refl

abbrev some_lines : Bytes
some_lines = codes "one\ntwo\nthr"

drain-ends_example :
    (contains b'\n' (drain 20 unknown_node some_lines no_line).1 ≡ false)
    × (drain 20 unknown_node some_lines no_line
        ≡ drain (length some_lines) unknown_node some_lines no_line)
drain-ends_example = drain-ends 20 unknown_node some_lines no_line (omega arith)

abbrev one_added : Client
one_added = (register request 100 7 unknown_node).1

abbrev with_two : Client
with_two = (register request 200 9 one_added).1

abbrev one_less : Client
one_less =
    (register request 300 1
      (record with_two { request_handlers = (register request 200 9 one_added).0 ∷ [] })).1

first_removed :
    unregister_handler ((register request 100 7 unknown_node).0 ∷ []) (some 100) with_two
    ≡ some
        (record with_two { request_handlers = (register request 200 9 one_added).0 ∷ [] }, 100 ∷ [])
unfolding unregister_handler register
first_removed = refl

Registered-AllGrow_example : AllGrow one_less
Registered-AllGrow_example = Registered-AllGrow (
    added request 300 1 (
      removed ((register request 100 7 unknown_node).0 ∷ []) (some 100)
        (added request 200 9 (added request 100 7 (created (codes "who")))) first_removed))

-- On Windows, with a path that is longer than the address holds.
abbrev out_of_reach : Os
out_of_reach = record refusing {
  platform = windows;
  program_data = some (codes "D:\\Data");
  sun_path_size = 12;
  connects = false;
}

connect-out_of_reach : connect out_of_reach unknown_node ≡ (
  error
      (codes "ConnectFailed")
      (codes "failed to connect to daemon at D:\\Data\\spore-os\\spore.sock")
      unknown_node,
  started_up ∷ opened 5 ∷ dialled 5 (codes "D:\\Data\\spo") ∷ closed 5 ∷ [],
)
unfolding connect sun_path c_str default_socket_path
connect-out_of_reach = refl

connect-default_socket_path :
    default_socket_path windows none ≡ codes "C:\\ProgramData\\spore-os\\spore.sock"
unfolding default_socket_path
connect-default_socket_path = refl
