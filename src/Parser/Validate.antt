-- ===== src/Parser/Validate.antt =====
-- parser/source/parser.cpp: `parser::parse`, `parser::validate` and the getters of errors.
-- A handle that may be null is an `Option`.
use spore_client_libs.Base.{Bool, not, ◌&&◌, [], Option, none, some, if◌then◌else◌}
use spore_client_libs.Base.Text.{Bytes, codes, is_empty, contains, starts_with}
use spore_client_libs.Parser.Lexer.{tokenize}
use spore_client_libs.Parser.Message.{Message}
use spore_client_libs.Parser.Build.{
  ParserType, unknown, request, response, witness, publish, Props, no_props, Parser, build,
}

abbrev pub error : Parser → Bytes → Bytes → Parser
error p code what = record p { error_code = code; error_what = what }

abbrev pub has_error : Parser → Bool
has_error p = not (is_empty p.error_code)

-- What `parse` does before it looks at the message handle.
abbrev pub restart : Parser → Bytes → Parser
restart p message = record p { raw = message; error_code = []; error_what = []; props = no_props }

unfoldable pub parse : Parser → Bytes → Option Message → Parser × Option Message
unfolding tokenize build
parse p message none = (restart p message, none)
parse p message (some m) =
    let (p', m') = build 0 (tokenize message []) (restart p message) m in (p', some m')

abbrev malformed : Parser → Bytes → Parser
malformed p what = error p (codes "Malformed") what

-- `switch (type)`
unfoldable pub validate_type : ParserType → Props → Message → Parser → Parser
validate_type request props m p =
    if is_empty m.capability
    then malformed p (codes "request missing command")
    else if contains b'=' m.capability
    then malformed p (codes "first token cannot be argument")
    else if is_empty m.handle
    then malformed p (codes "request missing handle")
    else p
validate_type response props m p =
    if is_empty m.capability
    then malformed p (codes "response missing command; [ ~h ] should be [ ~h:c ]")
    else if is_empty m.handle
    then malformed p (codes "response missing handle")
    else if not props.has_flag_ok && not props.has_flag_error
    then malformed p (codes "response missing ok or error flag")
    else if props.has_flag_ok && props.has_flag_error
    then malformed p (codes "response has both ok and error flags")
    else if props.has_flag_error && not props.has_arg_code
    then malformed p (codes "error response missing code")
    else if props.has_flag_error && not props.has_arg_what
    then malformed p (codes "error response missing what")
    else p
validate_type witness props m p =
    if not props.has_arg_body then malformed p (codes "witness missing body") else p
validate_type publish props m p =
    if is_empty m.capability
    then malformed p (codes "publish missing topic")
    else if contains b'=' m.capability
    then malformed p (codes "publish missing topic; cannot be argument; [ k=v ] should be [ t ]")
    else if starts_with b'~' m.capability
    then malformed p (codes "publish missing topic; cannot be handle; [ ~h ] should be [ t ]")
    else p
validate_type unknown props m p = malformed p (codes "unknown message type")

unfoldable pub validate : Parser → Option Message → Parser
unfolding validate_type
validate p none =
    error (record p { error_code = []; error_what = [] }) (codes "Missing")
      (codes "message handle is null")
validate p (some m) = validate_type p.type p.props m (record p { error_code = []; error_what = [] })
