-- ===== src/Client/InOrder.antt =====
-- spore_c/source/client.cpp: many messages that one client sends and another receives.
use spore_client_libs.Base.{
  true, List, [], ◌∷◌, ◌++◌, some, ◌≡◌, refl, sym, ap, ◌∙◌, All, append_assoc, append-nil,
}
use spore_client_libs.Base.Text.{Bytes, codes, contains}
use spore_client_libs.Client.State.{Client, clear_error}
use spore_client_libs.Client.Frame.{no_line}
use spore_client_libs.Client.Dispatch.{Event}
use spore_client_libs.Client.Listen.{listen}
use spore_client_libs.Client.Stream.{
  stream, stream-append, follow, prepend, receive-stream, received, forget,
}
use spore_client_libs.Client.Delivery.{concat, all_written}
use spore_client_libs.Client.Shapes.{Shape, shape_text, IsShape, stream_shape}
use spore_client_libs.Client.Arrival.{IsCollected}
use spore_client_libs.Client.Packets.{
  Packet, packet_text, send_packet, CanArrive, calls_with, handle_line-packet_text,
  send_packet-Wrote,
}

-- A message that arrives: it passes validation on the other side, and its text is a line or a block,
-- with no zero byte and no `\r`.
pub record IsArriving (x : Packet) : Type 0 where
  pub sendable : CanArrive x
  pub shape : Shape
  pub text : packet_text x ≡ shape_text shape ++ codes "\n"
  pub shaped : IsShape shape
  pub whole : IsCollected (shape_text shape)

-- The calls of handlers for a message.
abbrev pub calls_of : Client → Packet → List Event
calls_of c x = calls_with c (packet_text x) x

abbrev pub all_calls : Client → List Packet → List Event
all_calls c [] = []
all_calls c (x ∷ xs) = calls_of c x ++ all_calls c xs

-- One call of a sending function after the other, with the texts that are written.
unfoldable pub send_all : List Packet → Client → Client × List Bytes
unfolding send_packet
send_all [] c = (c, [])
send_all (x ∷ xs) c =
    let (c', texts) = send_packet all_written x c in
    let (c'', more) = send_all xs c' in (c'', texts ++ more)

abbrev wire : List Packet → Bytes
wire [] = []
wire (x ∷ xs) = (packet_text x ++ codes "\n") ++ wire xs

concat-append : (xs ys : List Bytes) → concat (xs ++ ys) ≡ concat xs ++ concat ys
concat-append [] ys = refl
concat-append (x ∷ xs) ys = rw (concat-append xs ys) (sym (append_assoc x (concat xs) (concat ys)))

send_all-wire :
    (xs : List Packet) (c : Client)
    → c.connected ≡ true
    → All IsArriving xs
    → concat (send_all xs c).1 ≡ wire xs
unfolding send_all
send_all-wire [] c k h = refl
send_all-wire (x ∷ xs) c k h =
    let (bytes, still) = send_packet-Wrote c x (shape_text h.0.shape) k h.0.text h.0.whole in
    let c' = (send_packet all_written x c).0 in
    concat-append (send_packet all_written x c).1 (send_all xs c').1
    ∙ ap (λ w. w ++ concat (send_all xs c').1) bytes
    ∙ ap (λ w. (packet_text x ++ codes "\n") ++ w) (send_all-wire xs c' still h.1)

stream_arriving :
    (c : Client) (x : Packet)
    → IsArriving x
    → stream c (packet_text x ++ codes "\n") [] no_line ≡ some (no_line, calls_of c x ++ [], [])
stream_arriving c x h =
    let text = shape_text h.shape in
    let handled = handle_line-packet_text c x text (text ++ codes "\n") h.sendable h.text h.whole in
    let bytes : packet_text x ++ codes "\n" ≡ text ++ codes "\n\n" =
      ap (λ w. w ++ codes "\n") h.text ∙ append_assoc text (codes "\n") (codes "\n") in
    ap (λ w. stream c w [] no_line) bytes
    ∙ stream_shape c h.shape (calls_with c (text ++ codes "\n") x) h.shaped handled
    ∙ ap (λ w. some (no_line, calls_with c w x ++ [], [])) (sym h.text)

stream-wire :
    (c : Client) (xs : List Packet)
    → All IsArriving xs
    → stream c (wire xs) [] no_line ≡ some (no_line, all_calls c xs, [])
unfolding stream
stream-wire c [] h = refl
stream-wire c (x ∷ xs) h =
    stream-append c (packet_text x ++ codes "\n") (wire xs) [] no_line
    ∙ ap (λ s. follow s (λ f rest. stream c (wire xs) rest f)) (stream_arriving c x h.0)
    ∙ ap (prepend (calls_of c x ++ [])) (stream-wire c xs h.1)
    ∙ rw append-nil refl

-- A connected client sends messages of the five kinds one after the other, every write succeeding. A
-- connected client that receives just the bytes written, however they are cut into reads, calls its
-- handlers for each message, in the order they were sent: each handler of its kind once, in the order
-- of registration, with the contents that were sent, and a response with its flag `ok`, or `error`
-- and `node_error`. It calls no other handler. Each message must be one that the wire can carry, with
-- a text of one line or one block over several lines, and have what validation asks of its kind.
pub listen-send_all :
    (sender receiver : Client) (xs : List Packet) (reads : List Bytes)
    → sender.connected ≡ true
    → receiver.connected ≡ true
    → All IsArriving xs
    → received reads ≡ concat (send_all xs sender).1
    → (listen reads receiver).1 ≡ some (all_calls receiver xs)
unfolding listen
listen-send_all sender receiver xs reads k k' h got =
    let c = clear_error receiver in
    let arrived = got ∙ send_all-wire xs sender k h in
    let run =
      receive-stream c reads [] no_line (unfold contains in refl)
      ∙ ap (λ s. forget (stream c s [] no_line)) arrived
      ∙ ap forget (stream-wire c xs h) in
    rw (run, k') refl
