-- ===== src/Wire/Raw.antt =====
-- spore_c/source/spore_c.cpp: messages made from raw text, `spore_*_create_from_raw`. The parser and
-- the parsed message are made and destroyed inside each call, so they are local here.
use spore_client_libs.Base.{
  ℕ, Bool, true, false, not, ◌&&◌, ◌||◌, List, [], ◌∷◌, Option, none, some, ◌==◌, drop_last,
  if◌then◌else◌,
}
use spore_client_libs.Base.Text.{Bytes, codes, equal, starts_with}
use spore_client_libs.Parser.Message
use spore_client_libs.Parser.Build.{
  ParserType, request, response, witness, publish, Parser, new_parser, ends_with,
}
use spore_client_libs.Parser.Api.{
  spore_parser_get_type, spore_message_get_capability, spore_message_get_handle,
  spore_message_get_args, spore_message_get_flags, spore_parse,
}
use spore_client_libs.Wire.Message.{
  Message, ResponseError, Witness, Publish, empty, set_command, set_handle, set_raw, add_arg,
  add_flag,
}

abbrev pub Parsed : Type 0
Parsed = Option Message.Message

-- The loop of `parseRaw`: a `\r` before a `\n` is dropped.
unfoldable pub strip_cr : Bytes → Bytes
strip_cr [] = []
strip_cr (c ∷ rest) =
    let kept = strip_cr rest in if c == b'\r' && starts_with b'\n' rest then kept else c ∷ kept

-- `if (!input.empty() && input.back() == '\n') input.pop_back();`
unfoldable pub strip_end : Bytes → Bytes
unfolding ends_with
strip_end s = if ends_with b'\n' s then drop_last s else s

unfoldable pub parse_raw : Bytes → Option Parser × Parsed
unfolding strip_cr strip_end spore_parse
parse_raw raw = spore_parse (some new_parser) (some (strip_end (strip_cr raw))) (some Message.empty)

-- `p ? p : ""`
abbrev pub or_empty : Option Bytes → Bytes
or_empty none = []
or_empty (some s) = s

-- The elements that a loop `for (i = 0; i < n; ++i)` over a returned array meets.
abbrev pub elements {ℓ} : {A : Type ℓ} → Option (List A) × Option ℕ → List A
elements (none, num) = []
elements (some xs, num) = xs

abbrev pub args_of : Parsed → List (Bytes × Bytes)
args_of m = elements (spore_message_get_args m (some 0))

abbrev pub flags_of : Parsed → List Bytes
flags_of m = elements (spore_message_get_flags m (some 0))

-- The loop over the arguments; with the flag, `code` and `what` are passed over.
unfoldable pub add_args : Bool → Message → List (Bytes × Bytes) → Message
unfolding add_arg
add_args skip msg [] = msg
add_args skip msg ((key, value) ∷ more) =
    let kept = not skip || (not (equal key (codes "code")) && not (equal key (codes "what"))) in
    add_args skip (if kept then add_arg msg key value else msg) more

unfoldable pub add_flags : Message → List Bytes → Message
unfolding add_flag
add_flags msg [] = msg
add_flags msg (flag ∷ more) = add_flags (add_flag msg flag) more

unfoldable pub populate_message : Message → Parsed → Bool → Message
unfolding add_args add_flags spore_message_get_capability spore_message_get_handle
    spore_message_get_args spore_message_get_flags
populate_message msg m skip_error_fields =
    let named = set_command msg (or_empty (spore_message_get_capability m)) in
    let handled = set_handle named (or_empty (spore_message_get_handle m)) in
    add_flags (add_args skip_error_fields handled (args_of m)) (flags_of m)

abbrev pub is_request : ParserType → Bool
is_request request = true
is_request _ = false

abbrev pub is_response : ParserType → Bool
is_response response = true
is_response _ = false

abbrev pub is_witness : ParserType → Bool
is_witness witness = true
is_witness _ = false

abbrev pub is_publish : ParserType → Bool
is_publish publish = true
is_publish _ = false

-- What each `create_from_raw` makes of the parser and the message that `parseRaw` leaves.
unfoldable pub request_of : Bytes → Option Parser × Parsed → Option Message
unfolding spore_parser_get_type populate_message
request_of raw (p, m) =
    if is_request (spore_parser_get_type p)
    then some (set_raw (populate_message empty m false) raw)
    else none

unfoldable pub spore_request_create_from_raw : Option Bytes → Option Message
unfolding parse_raw request_of
spore_request_create_from_raw none = none
spore_request_create_from_raw (some raw) = request_of raw (parse_raw raw)

unfoldable pub response_of : Bytes → Option Parser × Parsed → Option Message
unfolding spore_parser_get_type populate_message
response_of raw (p, m) =
    if is_response (spore_parser_get_type p)
    then some (set_raw (populate_message empty m false) raw)
    else none

unfoldable pub spore_response_create_from_raw : Option Bytes → Option Message
unfolding parse_raw response_of
spore_response_create_from_raw none = none
spore_response_create_from_raw (some raw) = response_of raw (parse_raw raw)

-- `extract code and what from the args map into dedicated fields`
unfoldable pub take_error_fields : ResponseError → List (Bytes × Bytes) → ResponseError
take_error_fields e [] = e
take_error_fields e ((key, value) ∷ more) =
    take_error_fields
      (if equal key (codes "code")
        then record e { code = value }
        else if equal key (codes "what")
        then record e { what = value }
        else e)
      more

unfoldable pub response_error_of : Bytes → Option Parser × Parsed → Option ResponseError
unfolding spore_parser_get_type populate_message take_error_fields spore_message_get_args
response_error_of raw (p, m) =
    let message = set_raw (populate_message empty m true) raw in
    if is_response (spore_parser_get_type p)
    then some (take_error_fields (record { message = message; code = []; what = [] }) (args_of m))
    else none

unfoldable pub spore_response_error_create_from_raw : Option Bytes → Option ResponseError
unfolding parse_raw response_error_of
spore_response_error_create_from_raw none = none
spore_response_error_create_from_raw (some raw) = response_error_of raw (parse_raw raw)

-- The loop over the arguments of a witness message.
unfoldable pub add_witness_args : Witness → List (Bytes × Bytes) → Witness
unfolding add_arg
add_witness_args w [] = w
add_witness_args w ((key, value) ∷ more) =
    add_witness_args
      (if equal key (codes "body")
        then record w { body = value }
        else record w { message = add_arg w.message key value })
      more

unfoldable pub witness_of : Bytes → Option Parser × Parsed → Option Witness
unfolding spore_parser_get_type add_witness_args add_flags spore_message_get_args
    spore_message_get_flags
witness_of raw (p, m) =
    let w = add_witness_args (record { message = set_raw empty raw; body = [] }) (args_of m) in
    if is_witness (spore_parser_get_type p)
    then some (record w { message = add_flags w.message (flags_of m) })
    else none

unfoldable pub spore_witness_create_from_raw : Option Bytes → Option Witness
unfolding parse_raw witness_of
spore_witness_create_from_raw none = none
spore_witness_create_from_raw (some raw) = witness_of raw (parse_raw raw)

-- `if (const char* cap = spore_message_get_capability(m)) setTopic(cap);`
abbrev pub topic_of : Option Bytes → Bytes
topic_of none = []
topic_of (some cap) = cap

unfoldable pub publish_of : Bytes → Option Parser × Parsed → Option Publish
unfolding spore_parser_get_type add_args add_flags spore_message_get_capability
    spore_message_get_args spore_message_get_flags
publish_of raw (p, m) =
    let message = add_flags (add_args false (set_raw empty raw) (args_of m)) (flags_of m) in
    let topic = topic_of (spore_message_get_capability m) in
    if is_publish (spore_parser_get_type p)
    then some (record { message = message; topic = topic })
    else none

unfoldable pub spore_publish_create_from_raw : Option Bytes → Option Publish
unfolding parse_raw publish_of
spore_publish_create_from_raw none = none
spore_publish_create_from_raw (some raw) = publish_of raw (parse_raw raw)
