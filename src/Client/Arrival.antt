-- ===== src/Client/Arrival.antt =====
-- spore_c/source/client.cpp, `listen`: a serialized message that arrives is handed on by its type.
use spore_client_libs.Base.{
  true, false, List, [], ◌∷◌, ◌++◌, Option, none, some, ◌≡◌, refl, sym, ap, ◌∙◌, arith,
}
use spore_client_libs.Base.Text.{Bytes, codes, is_empty, contains}
use spore_client_libs.Parser.Message
use spore_client_libs.Parser.Build.{ParserType, Parser, new_parser}
use spore_client_libs.Parser.Validate.{has_error, parse, validate}
use spore_client_libs.Parser.Accepts.{IsWellFormed, validate-parse_iff}
use spore_client_libs.Parser.Api.{
  spore_parse, spore_validate, spore_parser_has_error, spore_parser_get_type,
}
use spore_client_libs.Wire.Raw.{parse_raw}
use spore_client_libs.Wire.Reparse.{Reparsed, parse_raw-line}
use spore_client_libs.Client.State.{Client}
use spore_client_libs.Client.Dispatch.{Event, dispatch, handle_parsed, handle_line}
use spore_client_libs.Client.Defined.{validate-type}
use spore_client_libs.Client.Delivery.{handled, handle_line-handled}
pub mod Response
pub mod ResponseError
pub mod Witness
pub mod Publish

-- A text that is one line or more, as `listen` puts them together.
pub record IsCollected (line : Bytes) : Type 0 where
  pub filled : is_empty line ≡ false
  pub no_return : contains b'\r' line ≡ false
  pub no_zero : contains 0 line ≡ false

parse-spore_parse :
    (line : Bytes) (p : Parser) (m : Message.Message)
    → spore_parse (some new_parser) (some line) (some Message.empty) ≡ (some p, some m)
    → parse new_parser line (some Message.empty) ≡ (p, some m)
unfolding spore_parse parse
parse-spore_parse line p m e = ground (arith, e)

pub handled-valid :
    (c : Client) (line raw : Bytes) (p : Parser) (m : Message.Message)
    → is_empty line ≡ false
    → has_error (validate p (some m)) ≡ false
    → handled c line raw (some p, some m) ≡ dispatch p.type c raw (some m)
unfolding handle_parsed spore_validate spore_parser_has_error spore_parser_get_type
handled-valid c line raw p m filled fine =
    let type = validate-type p.type p m refl in rw (handled, filled, fine, type) refl

-- A text that is parsed to a well-formed message is dispatched.
pub handle_line-Reparsed :
    (c : Client) (line raw text : Bytes) (ty : ParserType) (m : Message.Message)
    → Reparsed text ty m
    → text ≡ line ++ codes "\n"
    → IsCollected line
    → IsWellFormed ty m
    → handle_line c line raw ≡ dispatch ty c raw (some m)
handle_line-Reparsed c line raw text ty m (p, e, t) same l w =
    let parsed = sym (parse_raw-line line l.no_return) ∙ ap parse_raw (sym same) ∙ e in
    let fine =
      (validate-parse_iff new_parser line l.no_zero (parse-spore_parse line p m parsed)).1
        (rw t w) in
    handle_line-handled c line raw
    ∙ ap (handled c line raw) parsed
    ∙ handled-valid c line raw p m l.filled fine
    ∙ ap (λ ty'. dispatch ty' c raw (some m)) t
