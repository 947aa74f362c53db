-- ===== src/Memory/Handles.antt =====
-- parser/source/spore_parser.cpp: the C interface of the parser, with its handles as addresses.
use spore_client_libs.Base.{ℕ, Option, none, some}
use spore_client_libs.Base.Text.{Bytes}
use spore_client_libs.Parser.Message
use spore_client_libs.Parser.Build.{Parser, new_parser}
use spore_client_libs.Parser.Validate.{parse, validate}
use spore_client_libs.Memory.Heap.{
  Object, parser, parsed, M, pure, ◌>>=◌, ◌>>◌, alloc, load_object, store_object, free,
}

unfoldable pub spore_parser_create : M ℕ
unfolding alloc
spore_parser_create = alloc (parser new_parser)

unfoldable pub spore_message_create : M ℕ
unfolding alloc
spore_message_create = alloc (parsed Message.empty)

unfoldable pub spore_parser_destroy : Option ℕ → M (Unit {0})
unfolding free
spore_parser_destroy none = pure tt
spore_parser_destroy (some p) = free p

unfoldable pub spore_message_destroy : Option ℕ → M (Unit {0})
unfolding free
spore_message_destroy none = pure tt
spore_message_destroy (some m) = free m

abbrev as_parser : Object → M Parser
as_parser (parser p) = pure p
as_parser _ = λ h. none

abbrev as_parsed : Object → M Message.Message
as_parsed (parsed m) = pure m
as_parsed _ = λ h. none

-- `hParser->parser`
unfoldable pub load_parser : ℕ → M Parser
unfolding load_object
load_parser p = do o ← load_object p; as_parser o

-- `hMessage->message`
unfoldable pub load_parsed : ℕ → M Message.Message
unfolding load_object
load_parsed m = do o ← load_object m; as_parsed o

-- What a getter reads through a handle that may be null.
unfoldable pub parser_at : Option ℕ → M (Option Parser)
unfolding load_parser
parser_at none = pure none
parser_at (some p) = do v ← load_parser p; pure (some v)

unfoldable pub parsed_at : Option ℕ → M (Option Message.Message)
unfolding load_parsed
parsed_at none = pure none
parsed_at (some m) = do v ← load_parsed m; pure (some v)

abbrev store_both : ℕ → ℕ → Parser × Option Message.Message → M (Unit {0})
store_both p m (v, none) = store_object p (parser v)
store_both p m (v, some w) = do store_object p (parser v); store_object m (parsed w)

unfoldable pub spore_parse_at : Option ℕ → Option Bytes → Option ℕ → M (Unit {0})
unfolding load_parser load_parsed parse store_object
spore_parse_at (some p) (some message) (some m) = do
  v ← load_parser p
  w ← load_parsed m
  store_both p m (parse v message (some w))
spore_parse_at _ _ _ = pure tt

unfoldable pub spore_validate_at : Option ℕ → Option ℕ → M (Unit {0})
unfolding load_parser parsed_at validate store_object
spore_validate_at none m = pure tt
spore_validate_at (some p) m = do
  v ← load_parser p
  w ← parsed_at m
  store_object p (parser (validate v w))
