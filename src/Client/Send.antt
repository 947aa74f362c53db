-- ===== src/Client/Send.antt =====
-- spore_c/source/client.cpp: sending. `Writes` says which of the two writes of one call succeed, and
-- the list of texts is what the calls of `write` hand to the socket, in order.
use spore_client_libs.Base.{Bool, not, List, [], ◌∷◌, Option, none, some, if◌then◌else◌}
use spore_client_libs.Base.Text.{Bytes, codes, c_str}
use spore_client_libs.Wire.Message.{
  Message, ResponseError, Witness, Publish, get_serialized, request_text, response_text,
  response_error_text, witness_text, publish_text,
}
use spore_client_libs.Client.State.{Client, error, clear_error}

pub record Writes : Type 0 where
  pub body : Bool
  pub newline : Bool

unfoldable pub write_raw : Writes → Bytes → Client → Client × List Bytes
write_raw w data' c =
    if not w.body
    then (error (codes "SendFailed") (codes "failed to write to socket") c, data' ∷ [])
    else if not w.newline
    then (
      error (codes "SendFailed") (codes "failed to write newline terminator") c,
      data' ∷ codes "\n" ∷ [],
    )
    else (c, data' ∷ codes "\n" ∷ [])

-- `if (wire) writeRaw(wire, std::strlen(wire))`
unfoldable pub write_wire : Writes → Option Bytes → Client → Client × List Bytes
unfolding write_raw c_str
write_wire w none c = (c, [])
write_wire w (some wire) c = write_raw w (c_str wire) c

abbrev pub not_connected : Client → Client × List Bytes
not_connected c = (error (codes "NotConnected") (codes "client is not connected") c, [])

abbrev pub null_argument : Bytes → Client → Client × List Bytes
null_argument what c = (error (codes "NullArgument") what c, [])

-- `serialize()`, which keeps the text in the message
abbrev pub serialize : Bytes → Message → Message
serialize text m = record m { serialized = text }

-- What the five functions share: `m` is the message after `serialize()`.
unfoldable pub send_message : Writes → Message → Client → Client × List Bytes
unfolding write_wire get_serialized
send_message w m c = write_wire w (get_serialized m) c

-- The message that a call is handed goes on with its text in it.
abbrev and_message {ℓ} : {A : Type ℓ} → A → Client × List Bytes → Client × List Bytes × A
and_message m (c, texts) = (c, texts, m)

unfoldable pub send : Writes → Option Message → Client → Client × List Bytes × Option Message
unfolding send_message request_text
send w r c =
    let c' = clear_error c in
    if not c'.connected then and_message r (not_connected c') else elim r [
      | none ↦ and_message none (null_argument (codes "hRequest is null") c')
      | some m ↦
          let m' = serialize (request_text m) m in and_message (some m') (send_message w m' c')
    ]

unfoldable pub send_response :
    Writes → Option Message → Client → Client × List Bytes × Option Message
unfolding send_message response_text
send_response w r c =
    let c' = clear_error c in
    if not c'.connected then and_message r (not_connected c') else elim r [
      | none ↦ and_message none (null_argument (codes "hResponse is null") c')
      | some m ↦
          let m' = serialize (response_text m) m in and_message (some m') (send_message w m' c')
    ]

unfoldable pub send_response_error :
    Writes → Option ResponseError → Client → Client × List Bytes × Option ResponseError
unfolding send_message response_error_text
send_response_error w r c =
    let c' = clear_error c in
    if not c'.connected then and_message r (not_connected c') else elim r [
      | none ↦ and_message none (null_argument (codes "hError is null") c')
      | some m ↦
          let m' = record m { message = serialize (response_error_text m) m.message } in
          and_message (some m') (send_message w m'.message c')
    ]

unfoldable pub send_witness :
    Writes → Option Witness → Client → Client × List Bytes × Option Witness
unfolding send_message witness_text
send_witness w r c =
    let c' = clear_error c in
    if not c'.connected then and_message r (not_connected c') else elim r [
      | none ↦ and_message none (null_argument (codes "hWitness is null") c')
      | some m ↦
          let m' = record m { message = serialize (witness_text m) m.message } in
          and_message (some m') (send_message w m'.message c')
    ]

unfoldable pub send_publish :
    Writes → Option Publish → Client → Client × List Bytes × Option Publish
unfolding send_message publish_text
send_publish w r c =
    let c' = clear_error c in
    if not c'.connected then and_message r (not_connected c') else elim r [
      | none ↦ and_message none (null_argument (codes "hPublish is null") c')
      | some m ↦
          let m' = record m { message = serialize (publish_text m) m.message } in
          and_message (some m') (send_message w m'.message c')
    ]

unfoldable pub send_raw : Writes → Bytes → Client → Client × List Bytes
unfolding write_raw
send_raw w data' c =
    let c' = clear_error c in if not c'.connected then not_connected c' else write_raw w data' c'
