-- ===== src/Tests/Memory.antt =====
-- Objects that are made and freed, at concrete inputs.
use spore_client_libs.Base.{true, List, [], ◌∷◌, some, ◌≡◌, refl}
use spore_client_libs.Base.Text.{Bytes, codes}
use spore_client_libs.Parser.Build.{new_parser}
use spore_client_libs.Wire.Raw.{
  spore_request_create_from_raw, spore_response_create_from_raw,
  spore_response_error_create_from_raw, spore_witness_create_from_raw,
  spore_publish_create_from_raw,
}
use spore_client_libs.Client.State.{Client, request, parse_error, new_client, clear_error}
use spore_client_libs.Client.Frame.{no_line}
use spore_client_libs.Client.Dispatch.{Event}
use spore_client_libs.Client.Listen.{listen}
use spore_client_libs.Client.Stream.{received}
use spore_client_libs.Client.Messages.{messages_in, handle_all, listen-messages_in}
use spore_client_libs.Memory.Heap
use spore_client_libs.Memory.Heap.{Heap, ◌>>=◌}
use spore_client_libs.Memory.FromRaw.{
  object, request_create_from_raw_at, response_create_from_raw_at,
  response_error_create_from_raw_at, witness_create_from_raw_at, publish_create_from_raw_at,
}
use spore_client_libs.Memory.FromRaw.Refine.{kept, create_from_raw_at-kept}
use spore_client_libs.Memory.Destroy.{
  Restores, spore_request_destroy, spore_response_destroy, spore_response_error_destroy,
  spore_witness_destroy, spore_publish_destroy, destroy-create_from_raw_at,
}
use spore_client_libs.Memory.Lines.{listen_at}
use spore_client_libs.Memory.Lines.Refine.{listen_at-Keeps}

-- A parser of someone else's is on the heap.
abbrev some_heap : Heap
some_heap = record { next = 8; cells = (5, Heap.parser new_parser) ∷ [] }

abbrev a_request : Bytes
a_request = codes "run ~h a=1 f\n"

create_from_raw_at-kept_example :
    (request_create_from_raw_at (some a_request) some_heap
      ≡ some
          (kept some_heap (object Heap.request (spore_request_create_from_raw (some a_request)))))
    × (response_create_from_raw_at (some a_request) some_heap
        ≡ some (
            kept some_heap
              (object Heap.response (spore_response_create_from_raw (some a_request)))))
    × (response_error_create_from_raw_at (some a_request) some_heap
        ≡ some (
            kept some_heap
              (object Heap.response_error (spore_response_error_create_from_raw (some a_request)))))
    × (witness_create_from_raw_at (some a_request) some_heap
        ≡ some
            (kept some_heap (object Heap.witness (spore_witness_create_from_raw (some a_request)))))
    × (publish_create_from_raw_at (some a_request) some_heap
        ≡ some
            (kept some_heap (object Heap.publish (spore_publish_create_from_raw (some a_request)))))
create_from_raw_at-kept_example = create_from_raw_at-kept a_request some_heap

destroy-create_from_raw_at_example :
    Restores some_heap
      ((request_create_from_raw_at (some a_request) >>= spore_request_destroy) some_heap)
    × Restores some_heap
        ((response_create_from_raw_at (some a_request) >>= spore_response_destroy) some_heap)
    × Restores some_heap (
        (response_error_create_from_raw_at (some a_request) >>= spore_response_error_destroy)
          some_heap)
    × Restores some_heap
        ((witness_create_from_raw_at (some a_request) >>= spore_witness_destroy) some_heap)
    × Restores some_heap
        ((publish_create_from_raw_at (some a_request) >>= spore_publish_destroy) some_heap)
destroy-create_from_raw_at_example = destroy-create_from_raw_at (some a_request) some_heap

abbrev listening : Client
listening = record (new_client (codes "node")) {
  socket_fd = some 3;
  connected = true;
  request_handlers = record { address = 100; type = request; id = 0; callback = 7 } ∷ [];
  parse_error_handlers = record { address = 101; type = parse_error; id = 1; callback = 8 } ∷ [];
}

-- A request with a block, an empty line, and a line that is refused.
abbrev some_reads : List Bytes
some_reads = codes "run ~h a=<<\nx\n>" ∷ codes "> f\r\n\nru" ∷ codes "n\n" ∷ []

listen_at-Keeps_example :
    (es : List Event) × (h' : Heap) × ((listen some_reads listening).1 ≡ some es)
    × (listen_at (clear_error listening) (messages_in (received some_reads) [] no_line) some_heap
        ≡ some (es, h'))
    × (h'.cells ≡ some_heap.cells)
listen_at-Keeps_example = listen_at-Keeps listening some_reads some_heap refl

listen-messages_in_example :
    (listen some_reads listening).1
    ≡ handle_all (clear_error listening) (messages_in (received some_reads) [] no_line)
listen-messages_in_example = listen-messages_in listening some_reads refl

some_reads-messages :
    messages_in (received some_reads) [] no_line
    ≡ (codes "run ~h a=<<\nx\n>> f", codes "run ~h a=<<\nx\n>> f\r\n")
      ∷ ([], codes "\n")
      ∷ (codes "run", codes "run\n")
      ∷ []
unfolding messages_in
some_reads-messages = refl
