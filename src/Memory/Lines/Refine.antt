-- ===== src/Memory/Lines/Refine.antt =====
-- spore_c/source/client.cpp, `listen`: what becomes of the parsers and parsed messages that it makes.
use spore_client_libs.Base.{
  suc, ◌+◌, true, false, List, [], ◌∷◌, ◌++◌, Option, none, some, ◌≡◌, refl, sym, ◌∙◌, inl, inr,
  arith, Bool-cases, Option-cases,
}
use spore_client_libs.Base.Text.{Bytes, is_empty}
use spore_client_libs.Parser.Message
use spore_client_libs.Parser.Api.{spore_parse, spore_validate}
use spore_client_libs.Parser.Build.{Parser, new_parser}
use spore_client_libs.Parser.Validate.{parse, validate}
use spore_client_libs.Client.State.{Client, clear_error}
use spore_client_libs.Client.Dispatch.{Event, handle_parsed, handle_line}
use spore_client_libs.Client.Defined.{handle_line-defined}
use spore_client_libs.Client.Frame.{no_line}
use spore_client_libs.Client.Listen.{listen}
use spore_client_libs.Client.Stream.{received}
use spore_client_libs.Client.Messages.{handle_all, messages_in, listen-messages_in}
use spore_client_libs.Memory.Heap.{Heap, pure, ◌>>=◌, ◌>>◌, alloc}
use spore_client_libs.Memory.Handles.{
  spore_parser_create, spore_message_create, spore_parser_destroy, spore_message_destroy, parser_at,
  parsed_at,
}
use spore_client_libs.Memory.Pair.{
  with_two, built, load_parser-with_two, load_parsed-with_two, spore_parse_at-with_two,
  spore_validate_at-with_two, free_parser_first, free_both,
}
use spore_client_libs.Memory.Lines.{Locals, handle_fresh, handle_line_at, handle_all_at, listen_at}

-- The parser and the message of a line when its handlers are called.
abbrev made : Bytes → Parser × Message.Message
made line = let (p, m) = built line new_parser Message.empty in (validate p (some m), m)

handle_line-filled :
    (c : Client) (line raw : Bytes)
    → is_empty line ≡ false
    → handle_line c line raw ≡ handle_parsed c line raw (some (made line).0) (some (made line).1)
unfolding handle_line spore_parse spore_validate parse
handle_line-filled c line raw filled = rw (handle_line, filled) refl

handle_fresh-made :
    (c : Client) (line raw : Bytes) (h : Heap) {es : List Event}
    → is_empty line ≡ false
    → handle_line c line raw ≡ some es
    → handle_fresh c line raw h
      ≡ some ((es, (some h.next, some (suc h.next))), with_two h (made line).0 (made line).1)
unfolding handle_fresh spore_parser_create spore_message_create parser_at parsed_at alloc
handle_fresh-made c line raw h filled e =
    let (p, m) = built line new_parser Message.empty in
    let done = sym (handle_line-filled c line raw filled) ∙ e in
    rw
      (
        handle_fresh,
        ◌>>=◌,
        spore_parse_at-with_two h new_parser Message.empty line,
        spore_validate_at-with_two h p m,
        load_parser-with_two h (validate p (some m)) m,
        load_parsed-with_two h (validate p (some m)) m,
        done,
      )
      refl

-- The locals and the heap, beside the rest of the heap, before the first message and behind it.
abbrev locals_of : Heap → Option (Parser × Message.Message) → Locals
locals_of g none = (none, none)
locals_of g (some v) = (some g.next, some (suc g.next))

abbrev heap_of : Heap → Option (Parser × Message.Message) → Heap
heap_of g none = g
heap_of g (some (p, m)) = with_two g p m

-- A run that keeps what else is on the heap.
abbrev Keeps : Heap → List Event → Option ((List Event × Locals) × Heap) → Type 0
Keeps g es r =
    (g' : Heap) × (o' : Option (Parser × Message.Message)) × (r
      ≡ some ((es, locals_of g' o'), heap_of g' o'))
    × (g'.cells ≡ g.cells)

handle_line_at-empty :
    (c : Client) (line raw : Bytes) (g : Heap) (o : Option (Parser × Message.Message))
    {es : List Event}
    → is_empty line ≡ true
    → handle_line c line raw ≡ some es
    → Keeps g es (handle_line_at c line raw (locals_of g o) (heap_of g o))
unfolding handle_line handle_line_at
handle_line_at-empty c line raw g o e h = (g, o, ground (arith, e, h), refl)

handle_line_at-Keeps :
    (c : Client) (line raw : Bytes) (g : Heap) (o : Option (Parser × Message.Message))
    {es : List Event}
    → handle_line c line raw ≡ some es
    → Keeps g es (handle_line_at c line raw (locals_of g o) (heap_of g o))
unfolding handle_line_at spore_parser_destroy spore_message_destroy
handle_line_at-Keeps c line raw g none h = elim (Bool-cases (is_empty line)) [
  | inl e ↦ handle_line_at-empty c line raw g none e h
  | inr e ↦ (g, some (made line), rw (handle_line_at, e) (handle_fresh-made c line raw g e h), refl)
]
handle_line_at-Keeps c line raw g (some (p, m)) h = elim (Bool-cases (is_empty line)) [
  | inl e ↦ handle_line_at-empty c line raw g (some (p, m)) e h
  | inr e ↦
      let g' = record g { next = suc (suc g.next) } in
      (
        g',
        some (made line),
        rw (handle_line_at, e)
            (free_parser_first g p m (handle_fresh c line raw)
              ∙ handle_fresh-made c line raw g' e h),
        refl,
      )
]

handle_all_at-Keeps :
    (c : Client) (ms : List (Bytes × Bytes)) (g : Heap) (o : Option (Parser × Message.Message))
    → (es : List Event) × (handle_all c ms ≡ some es)
      × Keeps g es (handle_all_at c ms (locals_of g o) (heap_of g o))
unfolding handle_all handle_all_at
handle_all_at-Keeps c [] g o = ([], refl, (g, o, refl, refl))
handle_all_at-Keeps c ((line, raw) ∷ ms) g o = elim (Option-cases (handle_line c line raw)) [
  | inl e ↦ absurd (handle_line-defined c line raw e)
  | inr (es, e) ↦
      let (g', o', first, same) = handle_line_at-Keeps c line raw g o e in
      let (es', all, (g'', o'', more, same')) = handle_all_at-Keeps c ms g' o' in
      (
        es ++ es',
        rw (handle_all, e, all) refl,
        (g'', o'', rw (handle_all_at, ◌>>=◌, first, more) refl, same' ∙ same),
      )
]

-- The two calls of destroy behind the loop.
end_of :
    (g : Heap) (o : Option (Parser × Message.Message)) (es : List Event)
    → (h' : Heap) × ((do
      spore_message_destroy (locals_of g o).1
      spore_parser_destroy (locals_of g o).0
      pure es)
          (heap_of g o)
        ≡ some (es, h'))
      × (h'.cells ≡ g.cells)
unfolding spore_message_destroy spore_parser_destroy
end_of g none es = (g, refl, refl)
end_of g (some (p, m)) es = (record g { next = g.next + 2 }, free_both g p m es, refl)

-- On a connected client, whatever bytes arrive in whatever reads, and whatever else is on the heap:
-- `listen` uses only live objects, makes the calls of handlers that it is said to make, and leaves on
-- the heap just what was there, so that each parser and each parsed message that it makes is freed.
pub listen_at-Keeps :
    (c : Client) (reads : List Bytes) (h : Heap)
    → c.connected ≡ true
    → (es : List Event) × (h' : Heap) × ((listen reads c).1 ≡ some es)
      × (listen_at (clear_error c) (messages_in (received reads) [] no_line) h ≡ some (es, h'))
      × (h'.cells ≡ h.cells)
unfolding listen_at
listen_at-Keeps c reads h k =
    let ms = messages_in (received reads) [] no_line in
    let (es, all, (g, o, run, same)) = handle_all_at-Keeps (clear_error c) ms h none in
    let (h', ended, same') = end_of g o es in
    (es, h', listen-messages_in c reads k ∙ all, rw (listen_at, ◌>>=◌, run) ended, same' ∙ same)
