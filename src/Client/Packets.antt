-- ===== src/Client/Packets.antt =====
-- spore_c/source/client.cpp: the five kinds of messages, as one client sends and another receives them.
use mathlib.Core.List.{map}
use spore_client_libs.Base.{ℕ, ap, ◌∙◌, true, false, List, [], ◌++◌, some, ◌≡◌, refl, arith}
use spore_client_libs.Base.Text.{Bytes, codes, is_empty, contains, contains-append, c_str-id}
use spore_client_libs.Parser.Contents.{has}
use spore_client_libs.Wire.Message.{
  Message, ResponseError, Witness, Publish, get_serialized, request_text, response_text,
  response_error_text, witness_text, publish_text,
}
use spore_client_libs.Wire.RoundTrip.Request.{IsSendable as IsRequest}
use spore_client_libs.Wire.RoundTrip.Response.{IsSendable as IsResponse}
use spore_client_libs.Wire.RoundTrip.ErrorItems.{IsSendable as IsResponseError}
use spore_client_libs.Wire.RoundTrip.Witness.{IsSendable as IsWitness}
use spore_client_libs.Wire.RoundTrip.Publish.{IsSendable as IsPublish}
use spore_client_libs.Client.State.{Client, Handler, clear_error}
use spore_client_libs.Client.Send.{
  Writes, send_message, serialize, send, send_response, send_response_error, send_witness,
  send_publish,
}
use spore_client_libs.Client.Calls.{call_all-map}
use spore_client_libs.Client.Dispatch.{
  Event, on_request, on_response, on_response_error, on_witness, on_publish, call_all, handle_line,
}
use spore_client_libs.Client.Delivery.{
  concat, all_written, handle_line-request_text, is_empty-concat,
}
use spore_client_libs.Client.Arrival.{IsCollected}
use spore_client_libs.Client.Arrival.Response.{
  handle_line-response_text, arrived as arrived_response,
}
use spore_client_libs.Client.Arrival.ResponseError.{
  handle_line-response_error_text, arrived as arrived_error,
}
use spore_client_libs.Client.Arrival.Witness.{handle_line-witness_text, arrived as arrived_witness}
use spore_client_libs.Client.Arrival.Publish.{handle_line-publish_text, arrived as arrived_publish}

pub data Packet : Type 0 where
  request : Message → Packet
  response : Message → Packet
  response_error : ResponseError → Packet
  witness : Witness → Packet
  publish : Publish → Packet

abbrev pub packet_text : Packet → Bytes
packet_text (request r) = request_text r
packet_text (response r) = response_text r
packet_text (response_error e) = response_error_text e
packet_text (witness w) = witness_text w
packet_text (publish p) = publish_text p

abbrev without_message {ℓ} : {A : Type ℓ} → Client × List Bytes × A → Client × List Bytes
without_message (c, texts, m) = (c, texts)

-- The sending functions, with the texts that they write.
unfoldable pub send_packet : Writes → Packet → Client → Client × List Bytes
unfolding send send_response send_response_error send_witness send_publish
send_packet w (request r) c = without_message (send w (some r) c)
send_packet w (response r) c = without_message (send_response w (some r) c)
send_packet w (response_error e) c = without_message (send_response_error w (some e) c)
send_packet w (witness m) c = without_message (send_witness w (some m) c)
send_packet w (publish p) c = without_message (send_publish w (some p) c)

-- A message that the wire can carry and that passes validation when it arrives.
abbrev pub CanArrive : Packet → Type 0
CanArrive (request r) = IsRequest r × (is_empty r.handle ≡ false)
CanArrive (response r) =
    IsResponse r × (is_empty r.command ≡ false) × (has (codes "error") r.flags ≡ false)
CanArrive (response_error e) =
    IsResponseError e
    × (is_empty e.command ≡ false)
    × (is_empty e.code ≡ false)
    × (is_empty e.what ≡ false)
    × (has (codes "ok") e.flags ≡ false)
CanArrive (witness w) = IsWitness w × (is_empty w.body ≡ false)
CanArrive (publish p) = IsPublish p

-- The calls of handlers for a message with that raw text: every handler of its kind is called once,
-- in the order of registration, with the contents of the message. A response is handed on with the
-- flag that tells its kind.
abbrev pub calls_with : Client → Bytes → Packet → List Event
calls_with c raw (request r) =
    map (λ (h : Handler). on_request h.callback (record r { raw = raw; serialized = [] }))
      c.request_handlers
calls_with c raw (response r) =
    map (λ (h : Handler). on_response h.callback (arrived_response raw r)) c.response_handlers
calls_with c raw (response_error e) =
    map (λ (h : Handler). on_response_error h.callback (arrived_error raw e)) c.response_handlers
calls_with c raw (witness w) =
    map (λ (h : Handler). on_witness h.callback (arrived_witness raw w)) c.witness_handlers
calls_with c raw (publish p) =
    map (λ (h : Handler). on_publish h.callback (arrived_publish raw p)) c.publish_handlers

called :
    (event : ℕ → Event) (hs : List Handler)
    → some (call_all event hs) ≡ some (map (λ (h : Handler). event h.callback) hs)
called event hs = ap some (call_all-map event hs)

pub handle_line-packet_text :
    (c : Client) (x : Packet) (line raw : Bytes)
    → CanArrive x
    → packet_text x ≡ line ++ codes "\n"
    → IsCollected line
    → handle_line c line raw ≡ some (calls_with c raw x)
handle_line-packet_text c (request r) line raw (h, named) text l =
    handle_line-request_text c r line raw h named text l.no_return l.filled
    ∙ called (λ fn. on_request fn (record r { raw = raw; serialized = [] })) c.request_handlers
handle_line-packet_text c (response r) line raw (h, named, fine) text l =
    handle_line-response_text c r line raw h named fine text l
    ∙ called (λ fn. on_response fn (arrived_response raw r)) c.response_handlers
handle_line-packet_text c (response_error e) line raw (h, named, coded, told, fine) text l =
    handle_line-response_error_text c e line raw h named coded told fine text l
    ∙ called (λ fn. on_response_error fn (arrived_error raw e)) c.response_handlers
handle_line-packet_text c (witness w) line raw (h, told) text l =
    handle_line-witness_text c w line raw h told text l
    ∙ called (λ fn. on_witness fn (arrived_witness raw w)) c.witness_handlers
handle_line-packet_text c (publish p) line raw h text l =
    handle_line-publish_text c p line raw h text l
    ∙ called (λ fn. on_publish fn (arrived_publish raw p)) c.publish_handlers

-- A text of one or more lines reaches the socket whole, with a newline behind it.
abbrev pub Wrote : Bytes → Client × List Bytes → Type 0
Wrote text (c, texts) = (concat texts ≡ text ++ codes "\n") × (c.connected ≡ true)

send_message-Wrote :
    (text line : Bytes) (m : Message) (c : Client)
    → text ≡ line ++ codes "\n"
    → IsCollected line
    → c.connected ≡ true
    → Wrote text (send_message all_written (serialize text m) c)
unfolding send_message get_serialized contains
send_message-Wrote text line m c e l k =
    let clean : contains 0 (line ++ codes "\n") ≡ false =
      rw contains-append (ground (arith, l.no_zero)) in
    rw
      (
        e,
        send_message,
        get_serialized,
        is_empty-concat line b'\n',
        c_str-id (line ++ codes "\n") clean,
      )
      (refl, k)

abbrev cleared : Client → Client
cleared c = record (clear_error c) { connected = true }

pub send_packet-Wrote :
    (c : Client) (x : Packet) (line : Bytes)
    → c.connected ≡ true
    → packet_text x ≡ line ++ codes "\n"
    → IsCollected line
    → Wrote (packet_text x) (send_packet all_written x c)
unfolding send_packet send send_response send_response_error send_witness send_publish
send_packet-Wrote c (request r) line k e l =
    rw (k, send) (send_message-Wrote (request_text r) line r (cleared c) e l refl)
send_packet-Wrote c (response r) line k e l =
    rw (k, send_response) (send_message-Wrote (response_text r) line r (cleared c) e l refl)
send_packet-Wrote c (response_error m) line k e l =
    rw (k, send_response_error)
      (send_message-Wrote (response_error_text m) line m.message (cleared c) e l refl)
send_packet-Wrote c (witness m) line k e l =
    rw (k, send_witness) (send_message-Wrote (witness_text m) line m.message (cleared c) e l refl)
send_packet-Wrote c (publish m) line k e l =
    rw (k, send_publish) (send_message-Wrote (publish_text m) line m.message (cleared c) e l refl)
