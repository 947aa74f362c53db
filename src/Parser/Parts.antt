-- ===== src/Parser/Parts.antt =====
-- parser/source/parser.cpp, `parser::build`: what the tokens behind the first add, field by field.
use mathlib.Core.List.{map}
use mathlib.Core.Path.{subst}
use spore_client_libs.Base.{
  ℕ, suc, ◌+◌, false, ◌&&◌, List, [], ◌∷◌, ◌++◌, Option, none, some, ◌==◌, ◌≡◌, refl, sym, ap, ◌∙◌,
  arith, inl, inr, Option-cases, append_assoc, append-nil, drop,
}
use spore_client_libs.Base.Text.{Bytes, find?, c_str}
use spore_client_libs.Parser.Lexer.{Token, TokenType, arg, handle}
use spore_client_libs.Parser.Message.{Message, arg_c}
use spore_client_libs.Parser.Build.{
  Parser, is_publish, key_of, value_of, strip_block, build_part, build_token, build,
}
use spore_client_libs.Parser.Splits.{up_to, behind, find?-up_to_none, find?-up_to}
use spore_client_libs.Parser.Contents.{Agrees, note_flag-Agrees, note_arg-Agrees}

-- The value, or what is given for none.
abbrev pub or_else : Option Bytes → Bytes → Bytes
or_else none d = d
or_else (some v) d = v

-- The arguments and the flags among some tokens, and the last handle, `h` if there is none.
abbrev arg_of : TokenType → Bytes → List (Bytes × Bytes)
arg_of arg v = (up_to b'=' v, strip_block (or_else (behind b'=' v) v)) ∷ []
arg_of _ v = []

abbrev flag_of : TokenType → Bytes → List Bytes
flag_of TokenType.none v = v ∷ []
flag_of _ v = []

abbrev pub handle_of : TokenType → Bytes → Bytes → Bytes
handle_of handle v h = c_str (drop 1 v)
handle_of _ v h = h

abbrev pub args_in : List Token → List (Bytes × Bytes)
args_in [] = []
args_in (t ∷ ts) = arg_of t.type t.value ++ args_in ts

abbrev pub flags_in : List Token → List Bytes
flags_in [] = []
flags_in (t ∷ ts) = flag_of t.type t.value ++ flags_in ts

abbrev pub last_handle : List Token → Bytes → Bytes
last_handle [] h = h
last_handle (t ∷ ts) h = last_handle ts (handle_of t.type t.value h)

-- A message with what some tokens add to it.
abbrev pub extended : Message → List Token → Message
extended m ts = record m {
  handle = last_handle ts m.handle;
  args = m.args ++ map arg_c (args_in ts);
  flags = m.flags ++ map c_str (flags_in ts);
}

-- The same with the whole texts, which the properties are noted from.
abbrev pub contents : Message → List Token → Message
contents m ts = record m { args = m.args ++ args_in ts; flags = m.flags ++ flags_in ts }

pub add_one : (n : ℕ) → n + 1 ≡ suc n
add_one n = omega arith

key_of-up_to : (v : Bytes) → key_of v ≡ up_to b'=' v
unfolding key_of
key_of-up_to v = elim (Option-cases (find? b'=' v)) [
  | inl e ↦ rw (key_of, e) (sym (find?-up_to_none b'=' v e).0)
  | inr (pos, e) ↦ rw (key_of, e) (sym (find?-up_to b'=' v pos e).0)
]

value_of-behind : (v : Bytes) → value_of v ≡ or_else (behind b'=' v) v
unfolding value_of
value_of-behind v = elim (Option-cases (find? b'=' v)) [
  | inl e ↦ rw (value_of, e, (find?-up_to_none b'=' v e).1) refl
  | inr (pos, e) ↦ rw (value_of, e, (find?-up_to b'=' v pos e).1) (ap (λ n. drop n v) (add_one pos))
]

-- One token more, in the whole texts.
abbrev noted : TokenType → Bytes → Message → Message
noted arg v r = record r {
  args = r.args ++ (up_to b'=' v, strip_block (or_else (behind b'=' v) v)) ∷ [];
}
noted handle v r = r
noted TokenType.none v r = record r { flags = r.flags ++ v ∷ [] }

abbrev token : TokenType → Bytes → Token
token ty v = record { value = v; type = ty }

contents-noted :
    (ty : TokenType) (v : Bytes) (r : Message) (ts : List Token)
    → contents (noted ty v r) ts ≡ contents r (token ty v ∷ ts)
contents-noted arg v r ts =
    ap (λ a. record r { args = a; flags = r.flags ++ flags_in ts })
      (append_assoc r.args _ (args_in ts))
contents-noted handle v r ts = refl
contents-noted TokenType.none v r ts =
    ap (λ f. record r { args = r.args ++ args_in ts; flags = f })
      (append_assoc r.flags _ (flags_in ts))

-- What one token adds.
record Adds (ty : TokenType) (v : Bytes) (p : Parser) (m r : Message) : Type 0 where
  parser : (build_part ty v p m).0 ≡ record p { props = (build_part ty v p m).0.props }
  message : (ts : List Token) → extended (build_part ty v p m).1 ts ≡ extended m (token ty v ∷ ts)
  agrees : Agrees (build_part ty v p m).0.props (noted ty v r)

build_part-Adds :
    (ty : TokenType) (v : Bytes) (p : Parser) (m r : Message) → Agrees p.props r → Adds ty v p m r
unfolding build_part
build_part-Adds arg v p m r h = record {
  parser = refl;
  message = λ ts.
      rw (sym (key_of-up_to v), sym (value_of-behind v))
        (ap
          (λ a. record m {
            handle = last_handle ts m.handle;
            args = a;
            flags = m.flags ++ map c_str (flags_in ts);
          })
          (append_assoc m.args _ (map arg_c (args_in ts))));
  agrees =
      rw (sym (key_of-up_to v), sym (value_of-behind v)) (note_arg-Agrees (key_of v) _ p.props r h);
}
build_part-Adds handle v p m r h = record { parser = refl; message = λ ts. refl; agrees = h }
build_part-Adds TokenType.none v p m r h = record {
  parser = refl;
  message = λ ts.
      ap
        (λ f. record m {
          handle = last_handle ts m.handle;
          args = m.args ++ map arg_c (args_in ts);
          flags = f;
        })
        (append_assoc m.flags _ (map c_str (flags_in ts)));
  agrees = note_flag-Agrees v p.props r h;
}

-- The tokens that are parts: what the loop leaves behind them.
pub record Built (o : Parser × Message) (p : Parser) (m r : Message) (ts : List Token)
    : Type 0 where
  pub parser : o.0 ≡ record p { props = o.0.props }
  pub message : o.1 ≡ extended m ts
  pub agrees : Agrees o.0.props (contents r ts)

extended-nil : (m : Message) → extended m [] ≡ m
extended-nil m =
    ap (λ a. record m { args = a; flags = m.flags ++ [] }) (append-nil m.args)
    ∙ ap (λ f. record m { flags = f }) (append-nil m.flags)

contents-nil : (r : Message) → contents r [] ≡ r
contents-nil r =
    ap (λ a. record r { args = a; flags = r.flags ++ [] }) (append-nil r.args)
    ∙ ap (λ f. record r { flags = f }) (append-nil r.flags)

pub Built-nil : (p : Parser) (m r : Message) → Agrees p.props r → Built (p, m) p m r []
Built-nil p m r h = record {
  parser = refl;
  message = sym (extended-nil m);
  agrees = subst (Agrees p.props) (sym (contents-nil r)) h;
}

Built-Adds :
    {o : Parser × Message} {p : Parser} {m r : Message} (ty : TokenType) (v : Bytes)
    (ts : List Token)
    → Adds ty v p m r
    → Built o (build_part ty v p m).0 (build_part ty v p m).1 (noted ty v r) ts
    → Built o p m r (token ty v ∷ ts)
Built-Adds {o = o} {r = r} ty v ts one rest = record {
  parser = rest.parser ∙ ap (λ (q : Parser). record q { props = o.0.props }) one.parser;
  message = rest.message ∙ one.message ts;
  agrees = subst (Agrees o.0.props) (contents-noted ty v r ts) rest.agrees;
}

pub build-Built :
    (i : ℕ) (ts : List Token) (p : Parser) (m r : Message)
    → (is_publish p.type && i == 0) ≡ false
    → Agrees p.props r
    → Built (build (suc i) ts p m) p m r ts
unfolding build build_token
build-Built i [] p m r n h = Built-nil p m r h
build-Built i (t ∷ ts) p m r n h =
    let one = build_part-Adds t.type t.value p m r h in
    let (q, k) = build_part t.type t.value p m in
    let rest = build-Built (suc i) ts q k (noted t.type t.value r) (ground arith) one.agrees in
    rw n (Built-Adds t.type t.value ts one rest)
