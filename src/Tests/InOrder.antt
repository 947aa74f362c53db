-- ===== src/Tests/InOrder.antt =====
-- A message of each kind, one of them with a block, sent in a row and received, at concrete inputs.
use spore_client_libs.Base.{true, List, [], ◌∷◌, some, ◌≡◌, refl}
use spore_client_libs.Base.Text.{Bytes, codes, contains, equal, c_str}
use spore_client_libs.Wire.Message.{
  request_text, response_text, response_error_text, witness_text, publish_text,
}
use spore_client_libs.Client.State.{Client, HandlerType, Handler, new_client}
use spore_client_libs.Client.Send.{
  send, send_response, send_response_error, send_witness, send_publish,
}
use spore_client_libs.Client.Listen.{listen}
use spore_client_libs.Client.Stream.{received}
use spore_client_libs.Client.Delivery.{concat}
use spore_client_libs.Client.Packets.{
  Packet, request, response, response_error, witness, publish, send_packet,
}
use spore_client_libs.Client.InOrder.{send_all, all_calls, listen-send_all}
use spore_client_libs.Tests.Arriving.{
  with_value, over_lines, words, failure, told, news, block-IsArriving, response-IsArriving,
  response_error-IsArriving, witness-IsArriving, publish-IsArriving,
}

abbrev sender : Client
sender = record (new_client (codes "a")) { socket_fd = some 3; connected = true }

abbrev handler : HandlerType → Handler
handler type = record { address = 100; type = type; id = 0; callback = 7 }

abbrev receiver : Client
receiver = record (new_client (codes "b")) {
  socket_fd = some 4;
  connected = true;
  request_handlers = handler HandlerType.request ∷ [];
  response_handlers = handler HandlerType.response ∷ [];
  witness_handlers = handler HandlerType.witness ∷ [];
  publish_handlers = handler HandlerType.publish ∷ [];
}

abbrev all_kinds : List Packet
all_kinds =
    request (with_value over_lines)
    ∷ response words
    ∷ response_error failure
    ∷ witness told
    ∷ publish news
    ∷ []

-- The bytes come in three reads.
abbrev some_reads : List Bytes
some_reads =
    codes "run ~h a=<<\nline 1\nli"
    ∷ codes "ne 2\n>> f\n\n~h:run ok f a=\"two words\"\n\n~h:run error code=E7 what=\"it"
    ∷ codes
        " broke\" a=\"two words\" f node_error\n\nwitness body=\"some text\" a=\"two words\" f\n\npublish node.up a=\"two words\" f\n\n"
    ∷ []

some_reads-sent : received some_reads ≡ concat (send_all all_kinds sender).1
unfolding send_all send_packet send send_response send_response_error send_witness send_publish
    request_text response_text response_error_text witness_text publish_text contains c_str equal
some_reads-sent = refl

listen-send_all_example : (listen some_reads receiver).1 ≡ some (all_calls receiver all_kinds)
listen-send_all_example =
    listen-send_all sender receiver all_kinds some_reads refl refl
      (
        block-IsArriving,
        (
          response-IsArriving,
          (response_error-IsArriving, (witness-IsArriving, (publish-IsArriving, tt))),
        ),
      )
      some_reads-sent
