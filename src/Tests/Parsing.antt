-- ===== src/Tests/Parsing.antt =====
-- The theorems on the parser at concrete messages.
use spore_client_libs.Base.{true, false, [], ◌∷◌, some, ◌≡◌, ◌↔◌, refl, ◌<◌}
use spore_client_libs.Base.Text.{Bytes, codes, contains, equal, find?, c_str}
use spore_client_libs.Parser.Lexer.{scan, initial, tokenize, brackets, step_in}
use spore_client_libs.Parser.Tokens.{IsValidToken, tokenize-IsValidToken, scan-is_open}
use spore_client_libs.Parser.Message.{Message, empty}
use spore_client_libs.Parser.Build.{Parser, new_parser, no_props, response}
use spore_client_libs.Parser.Validate.{parse, validate, has_error}
use spore_client_libs.Parser.Accepts.{IsWellFormed, validate-parse_iff}
use spore_client_libs.Base.{All}

abbrev error_response : Bytes
error_response = codes "~h:Some.thing error code=7 what=\"it broke\""

tokenize-IsValidToken_example : All IsValidToken (tokenize error_response [])
tokenize-IsValidToken_example = tokenize-IsValidToken error_response [] tt

open_inside : (scan (initial []) (codes "a b=[[x]")).inside ≡ brackets
unfolding scan step_in
open_inside = refl

scan-is_open_example : 0 < (scan (initial []) (codes "a b=[[x]")).depth
scan-is_open_example = scan-is_open (codes "a b=[[x]") [] tt open_inside

response_clean : contains 0 error_response ≡ false
unfolding contains
response_clean = refl

abbrev parsed : Message
parsed = record {
  capability = codes "Some.thing";
  handle = codes "h";
  args = (codes "code", codes "7") ∷ (codes "what", codes "it broke") ∷ [];
  flags = codes "error" ∷ [];
}

abbrev parser_after : Parser
parser_after = record {
  raw = error_response;
  type = response;
  error_code = [];
  error_what = [];
  props = record no_props { has_flag_error = true; has_arg_code = true; has_arg_what = true };
}

parse-error_response : parse new_parser error_response (some empty) ≡ (parser_after, some parsed)
unfolding parse equal find? c_str
parse-error_response = refl

validate-parse_iff_example :
    (has_error (validate parser_after (some parsed)) ≡ false) ↔ IsWellFormed response parsed
validate-parse_iff_example =
    validate-parse_iff new_parser error_response response_clean parse-error_response
