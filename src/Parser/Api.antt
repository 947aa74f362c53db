-- ===== src/Parser/Api.antt =====
-- parser/source/spore_parser.cpp: the C interface of the parser. A pointer that may be null is an
-- `Option`; a C string that is read from one ends at its first zero byte. `create` and `destroy` are
-- allocation only: a new parser is `new_parser` and a new message `empty`.
use spore_client_libs.Base.{
  ℕ, Bool, false, not, List, [], ◌∷◌, Option, none, some, length, if◌then◌else◌,
}
use spore_client_libs.Base.Text.{Bytes, is_empty, c_str}
use spore_client_libs.Parser.Message.{Message, get_args, get_flags}
use spore_client_libs.Parser.Build.{ParserType, unknown, Parser}
use spore_client_libs.Parser.Validate.{has_error, parse, validate}

-- `data()` of a text, or null if it is empty
abbrev pub data_or_null : Bytes → Option Bytes
data_or_null s = if is_empty s then none else some (c_str s)

pub spore_parser_get_raw : Option Parser → Option Bytes
spore_parser_get_raw none = none
spore_parser_get_raw (some p) = data_or_null p.raw

unfoldable pub spore_parser_get_type : Option Parser → ParserType
spore_parser_get_type none = unknown
spore_parser_get_type (some p) = p.type

unfoldable pub spore_parser_has_error : Option Parser → Bool
spore_parser_has_error none = false
spore_parser_has_error (some p) = has_error p

unfoldable pub spore_parser_get_error_code : Option Parser → Option Bytes
spore_parser_get_error_code none = none
spore_parser_get_error_code (some p) = if not (has_error p) then none else data_or_null p.error_code

unfoldable pub spore_parser_get_error_what : Option Parser → Option Bytes
spore_parser_get_error_what none = none
spore_parser_get_error_what (some p) = if not (has_error p) then none else data_or_null p.error_what

unfoldable pub spore_message_get_capability : Option Message → Option Bytes
spore_message_get_capability none = none
spore_message_get_capability (some m) = data_or_null m.capability

unfoldable pub spore_message_get_handle : Option Message → Option Bytes
spore_message_get_handle none = none
spore_message_get_handle (some m) = data_or_null m.handle

-- `args.data()` with `args.size()`, or null if there are none
abbrev pub items_or_null {ℓ} : {A : Type ℓ} → List A → Option (List A)
items_or_null [] = none
items_or_null (x ∷ xs) = some (x ∷ xs)

-- The second argument is what `pNum` points to; it is left alone where a pointer is null.
unfoldable pub spore_message_get_args :
    Option Message → Option ℕ → Option (List (Bytes × Bytes)) × Option ℕ
unfolding get_args
spore_message_get_args (some m) (some num) =
    (items_or_null (get_args m), some (length (get_args m)))
spore_message_get_args _ num = (none, num)

unfoldable pub spore_message_get_flags : Option Message → Option ℕ → Option (List Bytes) × Option ℕ
unfolding get_flags
spore_message_get_flags (some m) (some num) =
    (items_or_null (get_flags m), some (length (get_flags m)))
spore_message_get_flags _ num = (none, num)

unfoldable pub spore_parse :
    Option Parser → Option Bytes → Option Message → Option Parser × Option Message
unfolding parse
spore_parse (some p) (some message) (some m) =
    let (p', m') = parse p message (some m) in (some p', m')
spore_parse p _ m = (p, m)

unfoldable pub spore_validate : Option Parser → Option Message → Option Parser
unfolding validate
spore_validate none m = none
spore_validate (some p) m = some (validate p m)
