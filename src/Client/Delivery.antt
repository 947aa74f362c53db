-- ===== src/Client/Delivery.antt =====
-- spore_c/source/client.cpp: a message that one client sends and another receives.
use spore_client_libs.Base.{
  ℕ, true, false, List, [], ◌∷◌, ◌++◌, Option, some, if◌then◌else◌, ◌≡◌, refl, sym, ap, ◌∙◌, arith,
}
use spore_client_libs.Base.Text.{Bytes, codes, is_empty, contains}
use spore_client_libs.Parser.Message
use spore_client_libs.Parser.Build.{request, Parser, new_parser, ends_with}
use spore_client_libs.Parser.Validate.{has_error, validate}
use spore_client_libs.Parser.Api.{
  spore_parse, spore_validate, spore_parser_has_error, spore_parser_get_type,
  spore_message_get_capability, spore_message_get_handle,
}
use spore_client_libs.Wire.Message.{Message, request_text}
use spore_client_libs.Wire.Items.{is_word_byte}
use spore_client_libs.Wire.Rebuild.{contains-all_word}
use spore_client_libs.Wire.Raw.{parse_raw}
use spore_client_libs.Wire.Sorted.{assign_all-IsSorted}
use spore_client_libs.Wire.SortedSet.{insert_all-IsSortedSet}
use spore_client_libs.Wire.Populate.{
  args_of-some, flags_of-some, add_args-assign_all, add_flags-insert_all, CleanArgs-carried,
  or_empty-data_or_null, no_zero-all_word,
}
use spore_client_libs.Wire.Reparse.{parse_raw-line}
use spore_client_libs.Wire.RoundTrip.Request.{IsSendable, request-Reparsed}
use spore_client_libs.Client.State.{Client}
use spore_client_libs.Client.Send.{Writes}
use spore_client_libs.Client.Frame.{no_line, collect, strip_return, opens_block}
use spore_client_libs.Client.Dispatch.{
  Event, on_request, call_all, message_of, dispatch, handle_parsed, handle_line,
}
use spore_client_libs.Client.Listen.{on_line}
use spore_client_libs.Client.Stream.{stream, stream_line, stream_newline, after_line, prepend}

-- A text that reaches `listen` as one line: it is one, not an empty one, and opens no block.
pub record IsLine (line : Bytes) : Type 0 where
  pub filled : is_empty line ≡ false
  pub no_newline : contains b'\n' line ≡ false
  pub no_return : contains b'\r' line ≡ false
  pub no_zero : contains 0 line ≡ false
  pub no_block : opens_block line ≡ false

-- The message that the parser makes of a request.
abbrev parts : Message → Message.Message
parts r = record { capability = r.command; handle = r.handle; args = r.args; flags = r.flags }

message_of-parts :
    (raw : Bytes) (r : Message)
    → IsSendable r
    → message_of raw (some (parts r)) ≡ record r { raw = raw; serialized = [] }
unfolding message_of spore_message_get_capability spore_message_get_handle
message_of-parts raw r h = simp (
  args_of-some (parts r) (CleanArgs-carried r.args h.args.carried),
  flags_of-some (parts r) h.flags.carried,
  add_args-assign_all,
  add_flags-insert_all,
  assign_all-IsSorted r.args h.args.sorted,
  insert_all-IsSortedSet r.flags h.flags.sorted,
  or_empty-data_or_null r.command (no_zero-all_word r.command h.command.1.0),
  or_empty-data_or_null r.handle (no_zero-all_word r.handle h.handle),
)

validate-parts :
    (p : Parser) (r : Message)
    → IsSendable r
    → is_empty r.handle ≡ false
    → p.type ≡ request
    → (has_error (validate p (some (parts r))) ≡ false)
      × ((validate p (some (parts r))).type ≡ request)
unfolding validate
validate-parts p r h named e =
    let no_equals = contains-all_word b'=' r.command (unfold is_word_byte in refl) h.command.1.0 in
    ground (arith, h.command.0, named, e, no_equals)

-- What `handle_line` does with what is parsed.
abbrev pub handled :
    Client → Bytes → Bytes → Option Parser × Option Message.Message → Option (List Event)
handled c line raw (p, m) =
    if is_empty line then some [] else handle_parsed c line raw (spore_validate p m) m

pub handle_line-handled :
    (c : Client) (line raw : Bytes)
    → handle_line c line raw
      ≡ handled c line raw (spore_parse (some new_parser) (some line) (some Message.empty))
unfolding handle_line
handle_line-handled c line raw = refl

handled-request :
    (c : Client) (r : Message) (line raw : Bytes) (p : Parser)
    → IsSendable r
    → is_empty r.handle ≡ false
    → is_empty line ≡ false
    → p.type ≡ request
    → handled c line raw (some p, some (parts r))
      ≡ some (
          call_all
            (λ fn. on_request fn (record r { raw = raw; serialized = [] }))
            c.request_handlers)
unfolding handle_parsed dispatch spore_validate spore_parser_has_error spore_parser_get_type
handled-request c r line raw p h named filled t =
    let (fine, type) = validate-parts p r h named t in
    rw (handled, filled, fine, type, message_of-parts raw r h) refl

pub handle_line-request_text :
    (c : Client) (r : Message) (line raw : Bytes)
    → IsSendable r
    → is_empty r.handle ≡ false
    → request_text r ≡ line ++ codes "\n"
    → contains b'\r' line ≡ false
    → is_empty line ≡ false
    → handle_line c line raw
      ≡ some (
          call_all
            (λ fn. on_request fn (record r { raw = raw; serialized = [] }))
            c.request_handlers)
handle_line-request_text c r line raw h named text clean filled =
    let (p, e, t) = request-Reparsed r h in
    let parsed = sym (parse_raw-line line clean) ∙ ap parse_raw (sym text) ∙ e in
    handle_line-handled c line raw
    ∙ ap (handled c line raw) parsed
    ∙ handled-request c r line raw p h named filled t

pub ends_with-none : (c : ℕ) (s : Bytes) → contains c s ≡ false → ends_with c s ≡ false
unfolding ends_with contains
ends_with-none c [] h = refl
ends_with-none c (x ∷ []) h = ground arith
ends_with-none c (x ∷ y ∷ s) h = ends_with-none c (y ∷ s) (ground arith)

-- A line that is a message is collected as it is, with no block in progress.
on_line_whole :
    (c : Client) (line : Bytes) (es : List Event)
    → IsLine line
    → handle_line c line (line ++ codes "\n") ≡ some es
    → on_line c line no_line ≡ some (record no_line { line = line }, es)
unfolding on_line collect strip_return
on_line_whole c line es l h =
    let kept = ends_with-none b'\r' line l.no_return in rw (kept, l.no_block, h) refl

-- An empty line calls nothing.
pub blank_line :
    (c : Client) (line : Bytes)
    → stream c (codes "\n") [] (record no_line { line = line }) ≡ some (no_line, [], [])
unfolding stream on_line collect strip_return opens_block handle_line ends_with
blank_line c line = refl

abbrev pub concat : List Bytes → Bytes
concat [] = []
concat (s ∷ ss) = s ++ concat ss

abbrev pub all_written : Writes
all_written = record { body = true; newline = true }

pub is_empty-concat : (s : Bytes) (c : ℕ) → is_empty (s ++ c ∷ []) ≡ false
is_empty-concat [] c = refl
is_empty-concat (x ∷ s) c = refl

pub stream_sent :
    (c : Client) (line : Bytes) (es : List Event)
    → IsLine line
    → handle_line c line (line ++ codes "\n") ≡ some es
    → stream c (line ++ codes "\n\n") [] no_line ≡ some (no_line, es ++ [], [])
stream_sent c line es l h =
    stream_line c line (codes "\n\n") [] no_line l.no_newline
    ∙ stream_newline c (codes "\n") line no_line
    ∙ ap (λ x. after_line x (λ f'. stream c (codes "\n") [] f')) (on_line_whole c line es l h)
    ∙ ap (prepend es) (blank_line c line)
