-- ===== src/Client/Messages.antt =====
-- spore_c/source/client.cpp, `listen`: which messages the bytes hold, apart from what is done with them.
use spore_client_libs.Base.{
  Bool, true, false, List, [], ◌∷◌, ◌++◌, Option, none, some, ◌==◌, ◌≡◌, refl, ap, ◌∙◌, inl, inr,
  Bool-cases, Option-cases,
}
use spore_client_libs.Base.Text.{Bytes, codes, contains}
use spore_client_libs.Client.State.{Client, clear_error}
use spore_client_libs.Client.Frame.{Framer, no_line, strip_return, collect}
use spore_client_libs.Client.Dispatch.{Event, handle_line}
use spore_client_libs.Client.Listen.{complete, on_line, events_of, listen}
use spore_client_libs.Client.Stream.{
  Streamed, prepend, after_line, stream, forget, received, receive-stream,
}

-- A line ends: the text that is handled then, with the raw text, if it completes a message.
abbrev line_ends : Bytes → Framer → Framer × Bool
line_ends buf f =
    collect (strip_return buf) (record f { raw_line = f.raw_line ++ (buf ++ codes "\n") })

abbrev add_message : Framer × Bool → (Framer → List (Bytes × Bytes)) → List (Bytes × Bytes)
add_message (f, false) k = k f
add_message (f, true) k = (f.line, f.raw_line) ∷ k (record f { raw_line = [] })

-- The messages in the bytes, each with its raw text.
unfoldable pub messages_in : Bytes → Bytes → Framer → List (Bytes × Bytes)
unfolding collect strip_return
messages_in [] buf f = []
messages_in (b ∷ bs) buf f = elim (b == b'\n') [
  | true ↦ add_message (line_ends buf f) (λ f'. messages_in bs [] f')
  | false ↦ messages_in bs (buf ++ b ∷ []) f
]

abbrev pub and_then : Option (List Event) → Option (List Event) → Option (List Event)
and_then none more = none
and_then (some es) none = none
and_then (some es) (some es') = some (es ++ es')

-- What is done with each message, one after the other.
unfoldable pub handle_all : Client → List (Bytes × Bytes) → Option (List Event)
unfolding handle_line
handle_all c [] = some []
handle_all c ((line, raw) ∷ more) = and_then (handle_line c line raw) (handle_all c more)

abbrev events_in : Streamed → Option (List Event)
events_in s = events_of (forget s)

events_in-prepend :
    (es : List Event) (s : Streamed) → events_in (prepend es s) ≡ and_then (some es) (events_in s)
events_in-prepend es none = refl
events_in-prepend es (some (f, es', buf)) = refl

and_then-nil : (o : Option (List Event)) → and_then (some []) o ≡ o
and_then-nil none = refl
and_then-nil (some es) = refl

events_in-complete :
    (c : Client) (r : Framer × Bool) (k : Framer → Streamed) (ms : Framer → List (Bytes × Bytes))
    → ((f : Framer) → events_in (k f) ≡ handle_all c (ms f))
    → events_in (after_line (complete c r) k) ≡ handle_all c (add_message r ms)
unfolding handle_all
events_in-complete c (f, false) k ms h =
    events_in-prepend [] (k f) ∙ and_then-nil (events_in (k f)) ∙ h f
events_in-complete c (f, true) k ms h = elim (Option-cases (handle_line c f.line f.raw_line)) [
  | inl e ↦ rw (e, handle_all) refl
  | inr (es, e) ↦
      let f' = record f { raw_line = [] } in
      rw (e, handle_all) (events_in-prepend es (k f') ∙ ap (and_then (some es)) (h f'))
]

stream-messages_in :
    (c : Client) (bs buf : Bytes) (f : Framer)
    → events_in (stream c bs buf f) ≡ handle_all c (messages_in bs buf f)
unfolding stream messages_in on_line handle_all
stream-messages_in c [] buf f = refl
stream-messages_in c (b ∷ bs) buf f = elim (Bool-cases (b == b'\n')) [
  | inl e ↦
      rw (stream, messages_in, e)
        (events_in-complete c (line_ends buf f) (λ f'. stream c bs [] f')
          (λ f'. messages_in bs [] f') (λ f'. stream-messages_in c bs [] f'))
  | inr e ↦ rw (stream, messages_in, e) (stream-messages_in c bs (buf ++ b ∷ []) f)
]

-- The calls of handlers that `listen` makes on a connected client are those for the messages that the
-- received bytes hold, one after the other; which these are does not depend on the client.
pub listen-messages_in :
    (c : Client) (reads : List Bytes)
    → c.connected ≡ true
    → (listen reads c).1 ≡ handle_all (clear_error c) (messages_in (received reads) [] no_line)
unfolding listen contains
listen-messages_in c reads k =
    let c' = clear_error c in
    let run =
      ap events_of (receive-stream c' reads [] no_line refl)
      ∙ stream-messages_in c' (received reads) [] no_line in
    rw (← run, k) refl
