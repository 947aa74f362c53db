-- ===== src/Parser/Described.antt =====
-- parser/source/parser.cpp, `parser::build`: what the loop over the tokens leaves, field by field.
use spore_client_libs.Base.{
  List, [], ◌∷◌, Option, none, some, if◌then◌else◌, ◌≡◌, refl, ap, ◌∙◌, arith, inl, inr,
  Option-cases, take, drop,
}
use spore_client_libs.Base.Text.{Bytes, codes, equal, find?, c_str}
use spore_client_libs.Parser.Lexer.{Token, TokenType, arg, handle, tokenize}
use spore_client_libs.Parser.Message.{Message, empty, set_capability}
use spore_client_libs.Parser.Build.{
  ParserType, request, response, witness, publish, Parser, Props, is_publish, build_handle,
  build_first, build_token, build,
}
use spore_client_libs.Parser.Validate.{parse, restart}
use spore_client_libs.Parser.Splits.{up_to, behind, find?-up_to_none, find?-up_to}
use spore_client_libs.Parser.Parts.{
  add_one, args_in, flags_in, extended, contents, Built, Built-nil, build-Built,
}
use spore_client_libs.Parser.Contents.{has, has_key, Agrees}

-- The type that the first token gives.
abbrev pub type_of : TokenType → Bytes → ParserType
type_of arg v = request
type_of handle v = response
type_of TokenType.none v =
    if equal v (codes "witness")
    then witness
    else if equal v (codes "publish")
    then publish
    else request

abbrev named_behind : Option Bytes → Message → Message
named_behind none m = m
named_behind (some c) m = record m { capability = c_str c }

-- What the first token does to a message.
abbrev started : TokenType → Bytes → Message → Message
started arg v m = record m { capability = c_str v }
started handle v m =
    named_behind (behind b':' (drop 1 v)) (record m { handle = c_str (up_to b':' (drop 1 v)) })
started TokenType.none v m =
    if is_publish (type_of TokenType.none v) then m else record m { capability = c_str v }

-- The token behind `publish` is the topic; all other tokens behind the first are parts.
abbrev with_topic : ParserType → List Token → Message → Message
with_topic publish (t ∷ ts) m = record m { capability = c_str t.value }
with_topic _ ts m = m

abbrev pub parts : ParserType → List Token → List Token
parts publish ts = drop 1 ts
parts _ ts = ts

-- What a message becomes.
abbrev pub described : Message → List Token → Message
described m [] = m
described m (t ∷ ts) =
    let type = type_of t.type t.value in
    extended (with_topic type ts (started t.type t.value m)) (parts type ts)

abbrev pub type_after : ParserType → List Token → ParserType
type_after old [] = old
type_after old (t ∷ ts) = type_of t.type t.value

abbrev pub all_parts : List Token → List Token
all_parts [] = []
all_parts (t ∷ ts) = parts (type_of t.type t.value) ts

build_handle-started : (v : Bytes) (m : Message) → build_handle v m ≡ started handle v m
unfolding build_handle
build_handle-started v m = elim (Option-cases (find? b':' (drop 1 v))) [
  | inl e ↦
      let split = find?-up_to_none b':' (drop 1 v) e in rw (build_handle, e, split.0, split.1) refl
  | inr (pos, e) ↦
      let split = find?-up_to b':' (drop 1 v) pos e in
      rw (build_handle, e, split.0, split.1)
        (ap
          (λ n. record m {
            handle = c_str (take pos (drop 1 v));
            capability = c_str (drop n (drop 1 v));
          })
          (add_one pos))
]

build_first-started :
    (ty : TokenType) (v : Bytes) (p : Parser) (m : Message)
    → build_first ty v p m ≡ (record p { type = type_of ty v }, started ty v m)
unfolding build_first
build_first-started arg v p m = refl
build_first-started handle v p m =
    ap (λ k. (record p { type = response }, k)) (build_handle-started v m)
build_first-started TokenType.none v p m = ground arith

behind_first-Built :
    (type : ParserType) (ts : List Token) (p : Parser) (m : Message)
    → Agrees p.props empty
    → Built
        (build 1 ts (record p { type = type }) m)
        (record p { type = type })
        (with_topic type ts m)
        empty
        (parts type ts)
unfolding build build_token
behind_first-Built publish [] p m h = Built-nil (record p { type = publish }) m empty h
behind_first-Built publish (t ∷ ts) p m h =
    build-Built 1 ts (record p { type = publish }) (set_capability m (c_str t.value)) empty refl h
behind_first-Built _ ts p m h = build-Built 0 ts _ m empty refl h

-- What the properties say, of what stands among the parts.
abbrev pub noted_in : List Token → Props
noted_in ts = record {
  has_flag_ok = has (codes "ok") (flags_in ts);
  has_flag_error = has (codes "error") (flags_in ts);
  has_arg_code = has_key (codes "code") (args_in ts);
  has_arg_what = has_key (codes "what") (args_in ts);
  has_arg_body = has_key (codes "body") (args_in ts);
}

Agrees-noted_in :
    (props : Props) (ts : List Token) → Agrees props (contents empty ts) → props ≡ noted_in ts
Agrees-noted_in props ts h = ground (arith, h.ok, h.error, h.code, h.what, h.body)

Built-result :
    {p : Parser} {m : Message}
    → (o : Parser × Message) (ts : List Token) → Built o p m empty ts
    → o ≡ (record p { props = noted_in ts }, extended m ts)
Built-result {p = p} {m = m} o ts h =
    ap (λ q. (q, o.1))
      (h.parser
        ∙ ap (λ (n : Props). record p { props = n }) (Agrees-noted_in o.0.props ts h.agrees))
    ∙ ap (λ k. (record p { props = noted_in ts }, k)) h.message

build-described :
    (p : Parser) (m : Message) (t : Token) (ts : List Token)
    → Agrees p.props empty
    → build 0 (t ∷ ts) p m ≡ (
      record p { type = type_of t.type t.value; props = noted_in (all_parts (t ∷ ts)) },
      described m (t ∷ ts),
    )
unfolding build build_token
build-described p m t ts h =
    let type = type_of t.type t.value in
    let k = started t.type t.value m in
    ap (λ (o : Parser × Message). build 1 ts o.0 o.1) (build_first-started t.type t.value p m)
    ∙ Built-result (build 1 ts (record p { type = type }) k) (parts type ts)
        (behind_first-Built type ts p k h)

build-described_tokens :
    (p : Parser) (s : Bytes) (m : Message) (ts : List Token)
    → build 0 ts (restart p s) m ≡ (
      record (restart p s) { type = type_after p.type ts; props = noted_in (all_parts ts) },
      described m ts,
    )
unfolding build has has_key
build-described_tokens p s m [] = refl
build-described_tokens p s m (t ∷ ts) =
    build-described (restart p s) m t ts
      (record { ok = refl; error = refl; code = refl; what = refl; body = refl })

abbrev with_message : Parser × Message → Parser × Option Message
with_message (p, m) = (p, some m)

-- What parsing a text leaves of a parser and a message, whatever both were used for before, follows
-- from the tokens. The first gives the type, and the capability or the handle; behind `publish`, the
-- next is the topic. Of the others, the arguments are added in order to those of the message, each
-- split at its first `=` and a block without its delimiters, and so are the flags; the last handle
-- counts; and the properties say which of the names that validation looks for are among them. The
-- text is kept and no error is left. Without a token, the type and the message stay as they are.
pub parse-described :
    (p : Parser) (s : Bytes) (m : Message)
    → parse p s (some m) ≡ (
      record (restart p s) {
        type = type_after p.type (tokenize s []);
        props = noted_in (all_parts (tokenize s []));
      },
      some (described m (tokenize s [])),
    )
unfolding parse
parse-described p s m = ap with_message (build-described_tokens p s m (tokenize s []))
