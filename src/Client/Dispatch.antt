-- ===== src/Client/Dispatch.antt =====
-- spore_c/source/client.cpp, `listen`: what is done with a complete line. A call of a handler is an
-- event. `none` as a result is undefined behaviour: a text made from a null pointer.
use spore_client_libs.Base.{Bool, true, false, List, [], ◌∷◌, Option, none, some, if◌then◌else◌, ℕ}
use spore_client_libs.Base.Text.{Bytes, codes, is_empty, equal, c_str}
use spore_client_libs.Parser.Message
use spore_client_libs.Parser.Build.{
  ParserType, unknown, request, response, witness, publish, Parser, new_parser,
}
use spore_client_libs.Parser.Api.{
  spore_parser_get_type, spore_parser_has_error, spore_parser_get_error_code,
  spore_parser_get_error_what, spore_message_get_capability, spore_message_get_handle,
  spore_message_get_args, spore_message_get_flags, spore_parse, spore_validate,
}
use spore_client_libs.Wire.Message.{
  Message, ResponseError, Witness, Publish, empty, add_arg, set_raw,
}
use spore_client_libs.Wire.Raw.{
  Parsed, or_empty, args_of, flags_of, add_args, add_flags, add_witness_args, topic_of,
}
use spore_client_libs.Client.State.{Handler, Client}

-- The callback that is called, and its arguments.
pub data Event : Type 0 where
  on_request : ℕ → Message → Event
  on_response : ℕ → Message → Event
  on_response_error : ℕ → ResponseError → Event
  on_witness : ℕ → Witness → Event
  on_publish : ℕ → Publish → Event
  on_parse_error : ℕ → Option Bytes → Option Bytes → Bytes → Event

-- `for (auto* h : handlers) h->on…(self, …)`
abbrev pub call_all : (ℕ → Event) → List Handler → List Event
call_all event [] = []
call_all event (h ∷ hs) = event h.callback ∷ call_all event hs

-- The command, handle, arguments and flags of a request or an ok response.
unfoldable pub message_of : Bytes → Parsed → Message
unfolding add_args add_flags spore_message_get_capability spore_message_get_handle
    spore_message_get_args spore_message_get_flags
message_of raw m =
    let named = record empty {
      command = or_empty (spore_message_get_capability m);
      handle = or_empty (spore_message_get_handle m);
      raw = raw;
    } in
    add_flags (add_args false named (args_of m)) (flags_of m)

-- The loop that looks for the flag `error`.
unfoldable pub is_error : List Bytes → Bool
unfolding equal
is_error [] = false
is_error (f ∷ fs) = if equal f (codes "error") then true else is_error fs

-- The loop over the arguments of an error response.
unfoldable pub add_error_args : ResponseError → List (Bytes × Bytes) → ResponseError
unfolding add_arg equal
add_error_args e [] = e
add_error_args e ((key, value) ∷ more) =
    add_error_args
      (if equal key (codes "code")
        then record e { code = value }
        else if equal key (codes "what")
        then record e { what = value }
        else record e { message = add_arg e.message key value })
      more

-- An error response with that command and handle.
unfoldable pub error_with : Bytes → Bytes → Bytes → Parsed → ResponseError
unfolding add_error_args add_flags spore_message_get_args spore_message_get_flags
error_with command handle raw m =
    let named = record empty { command = command; handle = handle; raw = raw } in
    let e = add_error_args (record { message = named; code = []; what = [] }) (args_of m) in
    record e { message = add_flags e.message (flags_of m) }

-- `setCommand` and `setHandle` are handed the pointers as they are.
unfoldable pub error_of : Option Bytes → Option Bytes → Bytes → Parsed → Option ResponseError
unfolding error_with
error_of (some command) (some handle) raw m = some (error_with command handle raw m)
error_of _ _ raw m = none

unfoldable pub witness_from : Bytes → Parsed → Witness
unfolding add_witness_args add_flags spore_message_get_args spore_message_get_flags
witness_from raw m =
    let w = add_witness_args (record { message = set_raw empty raw; body = [] }) (args_of m) in
    record w { message = add_flags w.message (flags_of m) }

unfoldable pub publish_from : Bytes → Parsed → Publish
unfolding add_args add_flags spore_message_get_capability spore_message_get_args
    spore_message_get_flags
publish_from raw m = record {
  message = add_flags (add_args false (set_raw empty raw) (args_of m)) (flags_of m);
  topic = topic_of (spore_message_get_capability m);
}

abbrev call_error : List Handler → Option ResponseError → Option (List Event)
call_error hs none = none
call_error hs (some e) = some (call_all (λ fn. on_response_error fn e) hs)

-- `switch (spore_parser_get_type(parser))`
unfoldable pub dispatch : ParserType → Client → Bytes → Parsed → Option (List Event)
unfolding message_of is_error error_of witness_from publish_from
dispatch request c raw m =
    some (call_all (λ fn. on_request fn (message_of raw m)) c.request_handlers)
dispatch response c raw m =
    if is_error (flags_of m)
    then call_error c.response_handlers
        (error_of (spore_message_get_capability m) (spore_message_get_handle m) raw m)
    else some (call_all (λ fn. on_response fn (message_of raw m)) c.response_handlers)
dispatch witness c raw m =
    some (call_all (λ fn. on_witness fn (witness_from raw m)) c.witness_handlers)
dispatch publish c raw m =
    some (call_all (λ fn. on_publish fn (publish_from raw m)) c.publish_handlers)
dispatch unknown c raw m = some []

-- The parser and the message after `spore_validate`.
unfoldable pub handle_parsed : Client → Bytes → Bytes → Option Parser → Parsed → Option (List Event)
unfolding dispatch spore_parser_has_error spore_parser_get_type spore_parser_get_error_code
    spore_parser_get_error_what
handle_parsed c line raw p m =
    if spore_parser_has_error p
    then some (
        call_all
          (λ fn.
            on_parse_error fn (spore_parser_get_error_code p) (spore_parser_get_error_what p)
              (c_str line))
          c.parse_error_handlers)
    else dispatch (spore_parser_get_type p) c raw m

-- A complete line, with the raw text that it came from.
unfoldable pub handle_line : Client → Bytes → Bytes → Option (List Event)
unfolding handle_parsed spore_parse spore_validate
handle_line c line raw =
    let (p, m) = spore_parse (some new_parser) (some line) (some Message.empty) in
    if is_empty line then some [] else handle_parsed c line raw (spore_validate p m) m
