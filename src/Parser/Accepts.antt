-- ===== src/Parser/Accepts.antt =====
-- parser/source/parser.cpp: which messages `parser::validate` accepts after `parser::parse`.
use spore_client_libs.Base.{true, false, [], some, ◌≡◌, ◌↔◌, ◌⊎◌, refl, arith}
use spore_client_libs.Base.Text.{Bytes, codes, is_empty, contains, starts_with}
use spore_client_libs.Parser.Lexer.{tokenize}
use spore_client_libs.Parser.Message.{Message, empty}
use spore_client_libs.Parser.Build.{
  ParserType, unknown, request, response, witness, publish, Parser,
}
use spore_client_libs.Parser.Validate.{has_error, restart, parse, validate}
use spore_client_libs.Parser.Contents.{has, has_key, Agrees, build-Agrees}
use spore_client_libs.Parser.Clean.{tokenize-IsClean}

-- An ok response has the flag `ok`; an error response has `error`, a code and a description.
-- Neither has both flags.
abbrev pub IsOkOrError : Message → Type 0
IsOkOrError m =
    (has (codes "ok") m.flags ≡ true) × (has (codes "error") m.flags ≡ false)
    ⊎ (has (codes "ok") m.flags ≡ false)
      × (has (codes "error") m.flags ≡ true)
      × (has_key (codes "code") m.args ≡ true)
      × (has_key (codes "what") m.args ≡ true)

-- The messages of the protocol, by what they hold.
abbrev pub IsWellFormed : ParserType → Message → Type 0
IsWellFormed unknown m = ⊥
IsWellFormed request m =
    (is_empty m.capability ≡ false)
    × (contains b'=' m.capability ≡ false)
    × (is_empty m.handle ≡ false)
IsWellFormed response m =
    (is_empty m.capability ≡ false) × (is_empty m.handle ≡ false) × IsOkOrError m
IsWellFormed witness m = has_key (codes "body") m.args ≡ true
IsWellFormed publish m =
    (is_empty m.capability ≡ false)
    × (contains b'=' m.capability ≡ false)
    × (starts_with b'~' m.capability ≡ false)

validate-Agrees_iff :
    (ty : ParserType) (p : Parser) (m : Message)
    → p.type ≡ ty
    → Agrees p.props m
    → (has_error (validate p (some m)) ≡ false) ↔ IsWellFormed ty m
unfolding validate
validate-Agrees_iff response p m e a = (
  ground (arith, e, a.ok, a.error, a.code, a.what),
  ground (arith, e, a.ok, a.error, a.code, a.what),
)
validate-Agrees_iff _ p m e a = (ground (arith, e, a.body), ground (arith, e, a.body))

parse-Agrees :
    (p : Parser) (s : Bytes) {p' : Parser} {m : Message}
    → contains 0 s ≡ false
    → parse p s (some empty) ≡ (p', some m)
    → Agrees p'.props m
unfolding parse has has_key
parse-Agrees p s n e =
    let start : Agrees (restart p s).props empty = record {
      ok = refl;
      error = refl;
      code = refl;
      what = refl;
      body = refl;
    } in
    let a = build-Agrees 0 (tokenize s []) (restart p s) empty (tokenize-IsClean s n) start in
    ground (arith, e, a.ok, a.error, a.code, a.what, a.body)

-- A message with no zero byte, parsed into an empty message, passes validation exactly when what
-- was parsed is well formed for the type that the parser found.
pub validate-parse_iff :
    (p : Parser) (s : Bytes) {p' : Parser} {m : Message}
    → contains 0 s ≡ false
    → parse p s (some empty) ≡ (p', some m)
    → (has_error (validate p' (some m)) ≡ false) ↔ IsWellFormed p'.type m
validate-parse_iff p s n e = validate-Agrees_iff _ _ _ refl (parse-Agrees p s n e)
