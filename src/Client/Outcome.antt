-- ===== src/Client/Outcome.antt =====
-- spore_c/source/client.cpp: when the calls that send or connect leave an error.
use spore_client_libs.Base.{
  Bool, true, false, ◌&&◌, not, List, [], ◌∷◌, ◌++◌, Option, none, some, ◌≡◌, refl, sym, ap, ◌∙◌,
  arith, inl, inr, Bool-cases, Option-cases,
}
use spore_client_libs.Base.Text.{Bytes, codes, is_empty}
use spore_client_libs.Wire.Message.{
  Message, ResponseError, Witness, Publish, get_serialized, request_text, response_text,
  response_error_text, witness_text, publish_text,
}
use spore_client_libs.Client.State.{Client, has_error, clear_error}
use spore_client_libs.Client.Connect.{Os, Effect, settle, handshake, connect, connect_with, is_none}
use spore_client_libs.Client.Sockets.{handshake-socket}
use spore_client_libs.Client.Send.{
  Writes, write_raw, write_wire, send_message, send, send_response, send_response_error,
  send_witness, send_publish, send_raw, serialize,
}

-- A call that has what it needs: the connection, the message and both writes.
abbrev pub goes_out : Writes → Bool → Client → Bool
goes_out w given c = c.connected && given && w.body && w.newline

is_empty-append : (s t : Bytes) → is_empty t ≡ false → is_empty (s ++ t) ≡ false
is_empty-append [] t h = h
is_empty-append (x ∷ s) t h = refl

send_message-error :
    (w : Writes) (m : Message) (c : Client)
    → has_error c ≡ false
    → is_empty m.serialized ≡ false
    → has_error (send_message w m c).0 ≡ not (w.body && w.newline)
unfolding send_message write_wire write_raw get_serialized
send_message-error w m c h e = ground (arith, h, e)

send-ok :
    (w : Writes) (r : Option Message) (c : Client)
    → has_error (send w r c).0 ≡ not (goes_out w (not (is_none r)) c)
unfolding send request_text
send-ok w none c = ground arith
send-ok w (some m) c =
    let sent =
      send_message-error w (serialize (request_text m) m) (clear_error c) refl
        (is_empty-append _ (codes "\n") refl) in
    ground (arith, sent)

send_response-ok :
    (w : Writes) (r : Option Message) (c : Client)
    → has_error (send_response w r c).0 ≡ not (goes_out w (not (is_none r)) c)
unfolding send_response response_text
send_response-ok w none c = ground arith
send_response-ok w (some m) c =
    let sent =
      send_message-error w (serialize (response_text m) m) (clear_error c) refl
        (is_empty-append _ (codes "\n") refl) in
    ground (arith, sent)

send_response_error-ok :
    (w : Writes) (r : Option ResponseError) (c : Client)
    → has_error (send_response_error w r c).0 ≡ not (goes_out w (not (is_none r)) c)
unfolding send_response_error response_error_text
send_response_error-ok w none c = ground arith
send_response_error-ok w (some e) c =
    let sent =
      send_message-error w (serialize (response_error_text e) e.message) (clear_error c) refl
        (is_empty-append _ (codes " node_error\n") refl) in
    ground (arith, sent)

send_witness-ok :
    (w : Writes) (r : Option Witness) (c : Client)
    → has_error (send_witness w r c).0 ≡ not (goes_out w (not (is_none r)) c)
unfolding send_witness witness_text
send_witness-ok w none c = ground arith
send_witness-ok w (some m) c =
    let sent =
      send_message-error w (serialize (witness_text m) m.message) (clear_error c) refl
        (is_empty-append _ (codes "\n") refl) in
    ground (arith, sent)

send_publish-ok :
    (w : Writes) (r : Option Publish) (c : Client)
    → has_error (send_publish w r c).0 ≡ not (goes_out w (not (is_none r)) c)
unfolding send_publish publish_text
send_publish-ok w none c = ground arith
send_publish-ok w (some m) c =
    let sent =
      send_message-error w (serialize (publish_text m) m.message) (clear_error c) refl
        (is_empty-append _ (codes "\n") refl) in
    ground (arith, sent)

send_raw-ok :
    (w : Writes) (data' : Bytes) (c : Client)
    → has_error (send_raw w data' c).0 ≡ not (goes_out w true c)
unfolding send_raw write_raw
send_raw-ok w data' c = ground arith

-- Each of the functions that send a message, and `sendRaw`, leaves no error exactly if the client is
-- connected, the message is not null, and both writes succeed.
pub send-error :
    (w : Writes) (c : Client) (q r : Option Message) (e : Option ResponseError) (v : Option Witness)
    (p : Option Publish) (data' : Bytes)
    → (has_error (send w q c).0 ≡ not (goes_out w (not (is_none q)) c))
      × (has_error (send_response w r c).0 ≡ not (goes_out w (not (is_none r)) c))
      × (has_error (send_response_error w e c).0 ≡ not (goes_out w (not (is_none e)) c))
      × (has_error (send_witness w v c).0 ≡ not (goes_out w (not (is_none v)) c))
      × (has_error (send_publish w p c).0 ≡ not (goes_out w (not (is_none p)) c))
      × (has_error (send_raw w data' c).0 ≡ not (goes_out w true c))
send-error w c q r e v p data' = (
  send-ok w q c,
  send_response-ok w r c,
  send_response_error-ok w e c,
  send_witness-ok w v c,
  send_publish-ok w p c,
  send_raw-ok w data' c,
)

settle-error :
    (o : Client × List Effect)
    → o.0.connected ≡ false
    → (settle o).0.connected ≡ not (has_error (settle o).0)
settle-error (c, es) h = elim (Bool-cases (has_error c)) [
  | inl e ↦ rw (settle, e) (h ∙ ap not (sym e))
  | inr e ↦ rw (settle, e) (ap not (sym e))
]

-- On a client that is not connected, `connect` leaves it connected exactly if it leaves no error.
pub connect-error :
    (os : Os) (c : Client)
    → c.connected ≡ false
    → (connect os c).0.connected ≡ not (has_error (connect os c).0)
unfolding connect connect_with
connect-error os c h = elim (Option-cases os.socket) [
  | inl e ↦ ground (arith, e, h)
  | inr (fd, e) ↦
      let shaken = handshake-socket os (record (clear_error c) { socket_fd = some fd }) [] in
      let settled =
        settle-error (handshake os (record (clear_error c) { socket_fd = some fd }))
          (shaken.1 ∙ h) in
      elim (Bool-cases os.connects) [
        | inl k ↦ rw (e, connect_with, k) settled
        | inr k ↦ rw (e, connect_with, k) h
      ]
]
