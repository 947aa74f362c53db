-- ===== src/Client/Refused.antt =====
-- spore_c/source/client.cpp, `listen`: a line that validation refuses.
use mathlib.Core.List.{map}
use spore_client_libs.Base.{
  true, false, List, Option, some, ◌≡◌, refl, ap, ◌∙◌, arith, inl, inr, Bool-cases, ◌⊎◌,
}
use spore_client_libs.Base.Text.{Bytes, codes, is_empty, contains, c_str, c_str-id}
use spore_client_libs.Parser.Message
use spore_client_libs.Parser.Build.{ParserType, response, Parser, new_parser}
use spore_client_libs.Parser.Validate.{has_error, parse, validate}
use spore_client_libs.Parser.Accepts.{IsWellFormed, validate-parse_iff}
use spore_client_libs.Parser.Api.{
  spore_parse, spore_validate, spore_parser_has_error, spore_parser_get_error_code,
  spore_parser_get_error_what,
}
use spore_client_libs.Client.State.{Client, Handler}
use spore_client_libs.Client.Calls.{call_all-map}
use spore_client_libs.Client.Dispatch.{Event, on_parse_error, dispatch, handle_parsed, handle_line}
use spore_client_libs.Client.Delivery.{handled, handle_line-handled}
use spore_client_libs.Client.Arrival.{handled-valid}

-- Every refusal has the same code, and a description.
validate-Malformed :
    (ty : ParserType) (p : Parser) (m : Message.Message)
    → p.type ≡ ty
    → has_error (validate p (some m)) ≡ true
    → ((validate p (some m)).error_code ≡ codes "Malformed")
      × (is_empty (validate p (some m)).error_what ≡ false)
unfolding validate
validate-Malformed response p m e h = ground (arith, e, h)
validate-Malformed _ p m e h = ground (arith, e, h)

-- What the handlers of parse errors are handed, if there is a description.
abbrev pub error_calls : Client → Bytes → Bytes → List Event
error_calls c what line =
    map (λ (h : Handler). on_parse_error h.callback (some (codes "Malformed")) (some what) line)
      c.parse_error_handlers

handled-refused :
    (c : Client) (line raw : Bytes) (p : Parser) (m : Message.Message)
    → is_empty line ≡ false
    → contains 0 line ≡ false
    → has_error (validate p (some m)) ≡ true
    → handled c line raw (some p, some m)
      ≡ some (error_calls c (c_str (validate p (some m)).error_what) line)
unfolding handle_parsed spore_validate spore_parser_has_error spore_parser_get_error_code
    spore_parser_get_error_what c_str
handled-refused c line raw p m filled clean wrong =
    let (code, what) = validate-Malformed p.type p m refl wrong in
    let told = c_str (validate p (some m)).error_what in
    rw (handled, filled, code, what, c_str-id line clean)
      (ap some (
        call_all-map (λ fn. on_parse_error fn (some (codes "Malformed")) (some told) line)
          c.parse_error_handlers))

parse-handled :
    (c : Client) (line raw : Bytes) {p : Parser} {m : Message.Message}
    → parse new_parser line (some Message.empty) ≡ (p, some m)
    → handle_line c line raw ≡ handled c line raw (some p, some m)
unfolding spore_parse
parse-handled c line raw e =
    handle_line-handled c line raw
    ∙ ap (λ (o : Parser × Option Message.Message). handled c line raw (some o.0, o.1)) e

-- A line that is not empty and has no zero byte is dispatched by its type if what is parsed from it
-- is well formed. Otherwise each handler of parse errors is called once, in the order of
-- registration, with the code `Malformed`, a description and the line, and no other handler is.
pub handle_line-IsWellFormed :
    (c : Client) (line raw : Bytes) {p : Parser} {m : Message.Message}
    → is_empty line ≡ false
    → contains 0 line ≡ false
    → parse new_parser line (some Message.empty) ≡ (p, some m)
    → IsWellFormed p.type m × (handle_line c line raw ≡ dispatch p.type c raw (some m))
      ⊎ (¬ IsWellFormed p.type m)
        × ((what : Bytes) × (handle_line c line raw ≡ some (error_calls c what line)))
handle_line-IsWellFormed c line raw {p} {m} filled clean e =
    let accepts = validate-parse_iff new_parser line clean e in
    let same = parse-handled c line raw e in
    elim (Bool-cases (has_error (validate p (some m)))) [
      | inl wrong ↦ inr (
        λ w. absurd (ground (arith, wrong, accepts.1 w)),
        (
          c_str (validate p (some m)).error_what,
          same ∙ handled-refused c line raw p m filled clean wrong,
        ),
      )
      | inr fine ↦ inl (accepts.0 fine, same ∙ handled-valid c line raw p m filled fine)
    ]
