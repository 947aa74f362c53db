-- ===== src/Client/Defined.antt =====
-- spore_c/source/client.cpp, `listen`: the places where a text is made from a pointer.
use spore_client_libs.Base.{
  ℕ, zero, suc, Bool, true, false, List, [], ◌∷◌, ◌++◌, none, some, ◌≡◌, ◌≢◌, refl, sym, ◌∙◌, inl,
  inr, arith, Bool-cases, Option-cases, length, drop, take,
}
use spore_client_libs.Base.Text.{Bytes, codes, is_empty, find?}
use spore_client_libs.Parser.Message.{Message, empty}
use spore_client_libs.Parser.Build.{ParserType, response, Parser, new_parser, build}
use spore_client_libs.Parser.Validate.{has_error, validate, parse, restart}
use spore_client_libs.Parser.Lexer.{tokenize}
use spore_client_libs.Parser.Api.{
  spore_parser_get_type, spore_message_get_capability, spore_message_get_handle,
  spore_parser_has_error, spore_validate, spore_parse,
}
use spore_client_libs.Client.State.{Client, clear_error}
use spore_client_libs.Client.Frame.{Framer, no_line, collect, strip_return}
use spore_client_libs.Client.Dispatch.{Event, dispatch, error_of, handle_parsed, handle_line}
use spore_client_libs.Client.Listen.{Run, with_events, complete, on_line, drain, receive, listen}

-- A response that passes validation has a capability and a handle.
validate_named :
    (p : Parser) (m : Message)
    → p.type ≡ response
    → has_error (validate p (some m)) ≡ false
    → (is_empty m.capability ≡ false) × (is_empty m.handle ≡ false)
unfolding validate
validate_named p m e h = ground (arith, e)

error_of_named :
    (raw : Bytes) (m : Message)
    → is_empty m.capability ≡ false
    → is_empty m.handle ≡ false
    → error_of
        (spore_message_get_capability (some m))
        (spore_message_get_handle (some m))
        raw
        (some m)
      ≢ none
unfolding error_of spore_message_get_capability spore_message_get_handle
error_of_named raw m h h' e = ground (arith, h, h', e)

pub validate-type :
    (ty : ParserType) (p : Parser) (m : Message) → p.type ≡ ty → (validate p (some m)).type ≡ ty
unfolding validate
validate-type response p m e = ground (arith, e)
validate-type _ p m e = ground (arith, e)

dispatch-defined :
    (ty : ParserType) (c : Client) (raw : Bytes) (m : Message)
    → (ty ≡ response → (is_empty m.capability ≡ false) × (is_empty m.handle ≡ false))
    → dispatch ty c raw (some m) ≢ none
unfolding dispatch
dispatch-defined response c raw m h e =
    let (named, handled) = h refl in
    let known = error_of_named raw m named handled in ground (arith, known)
dispatch-defined _ c raw m h e = absurd (ground arith)

handle_parsed-defined :
    (c : Client) (line raw : Bytes) (p : Parser) (m : Message)
    → handle_parsed c line raw (spore_validate (some p) (some m)) (some m) ≢ none
unfolding handle_parsed spore_validate spore_parser_has_error spore_parser_get_type
handle_parsed-defined c line raw p m e = elim (Bool-cases (has_error (validate p (some m)))) [
  | inl h ↦ absurd (ground (arith, h))
  | inr h ↦
      dispatch-defined (validate p (some m)).type c raw m
        (λ r. validate_named p m (sym (validate-type p.type p m refl) ∙ r) h) (ground (arith, h))
]

pub handle_line-defined : (c : Client) (line raw : Bytes) → handle_line c line raw ≢ none
unfolding handle_line spore_parse parse
handle_line-defined c line raw e = elim (Bool-cases (is_empty line)) [
  | inl h ↦ absurd (ground (arith, h))
  | inr h ↦
      let (p, m) = build 0 (tokenize line []) (restart new_parser line) empty in
      handle_parsed-defined c line raw p m (ground (arith, h))
]

complete-defined : (c : Client) (r : Framer × Bool) → complete c r ≢ none
complete-defined c (f, false) e = absurd (ground arith)
complete-defined c (f, true) e = elim (Option-cases (handle_line c f.line f.raw_line)) [
  | inl h ↦ handle_line-defined c f.line f.raw_line h
  | inr (es, h) ↦ absurd (ground (arith, h))
]

with_events-defined : (es : List Event) (r : Run) → r ≢ none → with_events es r ≢ none
with_events-defined es none h e = h e
with_events-defined es (some r) h e = absurd (ground arith)

on_line-defined : (c : Client) (current : Bytes) (f : Framer) → on_line c current f ≢ none
unfolding on_line
on_line-defined c current f e =
    let f' = record f { raw_line = f.raw_line ++ (current ++ codes "\n") } in
    complete-defined c (collect (strip_return current) f') e

pub drain-defined : (n : ℕ) (c : Client) (buf : Bytes) (f : Framer) → (drain n c buf f).0 ≢ none
unfolding drain
drain-defined zero c buf f e = absurd (ground arith)
drain-defined (suc n) c buf f e = elim (Option-cases (find? b'\n' buf)) [
  | inl h ↦ absurd (ground (arith, h))
  | inr (pos, h) ↦ elim (Option-cases (on_line c (take pos buf) f)) [
    | inl u ↦ on_line-defined c (take pos buf) f u
    | inr ((f', es), u) ↦
        with_events-defined es (drain n c (drop (suc pos) buf) f').0
          (drain-defined n c (drop (suc pos) buf) f') (ground (arith, h, u))
  ]
]

receive-defined :
    (c : Client) (chunks : List Bytes) (buf : Bytes) (f : Framer) → receive c chunks buf f ≢ none
unfolding receive
receive-defined c [] buf f e = absurd (ground arith)
receive-defined c (chunk ∷ chunks) buf f e =
    let d = drain (length (buf ++ chunk)) c (buf ++ chunk) f in
    elim (Option-cases d.0) [
      | inl u ↦ drain-defined (length (buf ++ chunk)) c (buf ++ chunk) f u
      | inr ((f', es), u) ↦
          with_events-defined es (receive c chunks d.1 f') (receive-defined c chunks d.1 f')
            (ground (arith, u))
    ]

-- Whatever bytes arrive, in whatever reads, `listen` comes to its end and is defined: in particular,
-- no response reaches `setCommand` or `setHandle` with a null pointer.
pub listen-defined : (reads : List Bytes) (c : Client) → (listen reads c).1 ≢ none
unfolding listen
listen-defined reads c e = elim (Option-cases (receive (clear_error c) reads [] no_line)) [
  | inl u ↦ receive-defined (clear_error c) reads [] no_line u
  | inr (r, u) ↦ absurd (ground (arith, u))
]
