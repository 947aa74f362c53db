-- ===== src/Memory/Lines.antt =====
-- spore_c/source/client.cpp, `listen`, with the parser and the parsed message that it makes for each
-- message and destroys before the next one and at its end.
use spore_client_libs.Base.{ℕ, List, [], ◌∷◌, ◌++◌, Option, none, some, if◌then◌else◌}
use spore_client_libs.Base.Text.{Bytes, is_empty}
use spore_client_libs.Client.State.{Client}
use spore_client_libs.Client.Dispatch.{Event, handle_parsed}
use spore_client_libs.Memory.Heap.{M, pure, ◌>>=◌, ◌>>◌}
use spore_client_libs.Memory.Handles.{
  spore_parser_create, spore_message_create, spore_parser_destroy, spore_message_destroy, parser_at,
  parsed_at, spore_parse_at, spore_validate_at,
}
pub mod Refine

-- `parser` and `msg`
abbrev pub Locals : Type 0
Locals = Option ℕ × Option ℕ

abbrev pub defined : Option (List Event) → M (List Event)
defined none h = none
defined (some es) h = some (es, h)

-- From `spore_parser_create` on.
unfoldable pub handle_fresh : Client → Bytes → Bytes → M (List Event × Locals)
unfolding spore_parser_create spore_message_create parser_at parsed_at spore_parse_at
    spore_validate_at handle_parsed
handle_fresh c line raw = do
  p ← spore_parser_create
  m ← spore_message_create
  spore_parse_at (some p) (some line) (some m)
  spore_validate_at (some p) (some m)
  v ← parser_at (some p)
  w ← parsed_at (some m)
  es ← defined (handle_parsed c line raw v w)
  pure (es, (some p, some m))

-- A complete line, with the raw text that it came from.
unfoldable pub handle_line_at : Client → Bytes → Bytes → Locals → M (List Event × Locals)
unfolding spore_parser_destroy spore_message_destroy handle_fresh
handle_line_at c line raw (p, m) =
    if is_empty line
    then pure ([], (p, m))
    else do spore_parser_destroy p; spore_message_destroy m; handle_fresh c line raw

unfoldable pub handle_all_at : Client → List (Bytes × Bytes) → Locals → M (List Event × Locals)
unfolding handle_line_at
handle_all_at c [] locals = pure ([], locals)
handle_all_at c ((line, raw) ∷ more) locals = do
  (es, locals') ← handle_line_at c line raw locals
  (es', locals'') ← handle_all_at c more locals'
  pure (es ++ es', locals'')

-- Null pointers first, and the two calls of destroy behind the loop.
unfoldable pub listen_at : Client → List (Bytes × Bytes) → M (List Event)
unfolding handle_all_at spore_parser_destroy spore_message_destroy
listen_at c messages = do
  (es, (p, m)) ← handle_all_at c messages (none, none)
  spore_message_destroy m
  spore_parser_destroy p
  pure es
