-- ===== src/Memory/FromRaw.antt =====
-- spore_c/source/spore_c.cpp, the five `spore_*_create_from_raw` with the objects that each makes and
-- destroys on its way: a parser, a parsed message, and what it returns.
use spore_client_libs.Base.{ℕ, List, [], Option, none, some}
use spore_client_libs.Base.Text.{Bytes}
use spore_client_libs.Parser.Build.{Parser}
use spore_client_libs.Wire.Message.{Message, ResponseError, Witness, Publish}
use spore_client_libs.Wire.Raw.{
  Parsed, strip_cr, strip_end, request_of, response_of, response_error_of, witness_of, publish_of,
}
use spore_client_libs.Memory.Heap.{
  Object, request, response, response_error, witness, publish, M, pure, ◌>>=◌, ◌>>◌, alloc, free,
}
use spore_client_libs.Memory.Handles.{
  spore_parser_create, spore_message_create, spore_parser_destroy, spore_message_destroy, parser_at,
  parsed_at, spore_parse_at,
}
pub mod Refine

unfoldable pub parse_raw_at : Option ℕ → Bytes → Option ℕ → M (Unit {0})
unfolding strip_cr strip_end spore_parse_at
parse_raw_at p raw m = spore_parse_at p (some (strip_end (strip_cr raw))) m

-- `result`, which stays null if the type is another one.
unfoldable pub new_result : Option Object → M (Option ℕ)
unfolding alloc
new_result none = pure none
new_result (some o) = do r ← alloc o; pure (some r)

-- What the five functions share: `make` is the body of the `if`, with its test.
unfoldable pub create_from_raw :
    (Option Parser × Parsed → Option Object) → Option Bytes → M (Option ℕ)
unfolding spore_parser_create spore_message_create spore_parser_destroy spore_message_destroy
    parser_at parsed_at parse_raw_at new_result
create_from_raw make none = pure none
create_from_raw make (some raw) = do
  p ← spore_parser_create
  m ← spore_message_create
  parse_raw_at (some p) raw (some m)
  v ← parser_at (some p)
  w ← parsed_at (some m)
  result ← new_result (make (v, w))
  spore_message_destroy (some m)
  spore_parser_destroy (some p)
  pure result

abbrev pub object {ℓ} : {A : Type ℓ} → (A → Object) → Option A → Option Object
object kind none = none
object kind (some a) = some (kind a)

-- The same texts as the data behind the pointer.
abbrev pub raw_or_empty : Option Bytes → Bytes
raw_or_empty none = []
raw_or_empty (some raw) = raw

unfoldable pub request_create_from_raw_at : Option Bytes → M (Option ℕ)
unfolding create_from_raw request_of
request_create_from_raw_at raw =
    create_from_raw (λ v. object request (request_of (raw_or_empty raw) v)) raw

unfoldable pub response_create_from_raw_at : Option Bytes → M (Option ℕ)
unfolding create_from_raw response_of
response_create_from_raw_at raw =
    create_from_raw (λ v. object response (response_of (raw_or_empty raw) v)) raw

unfoldable pub response_error_create_from_raw_at : Option Bytes → M (Option ℕ)
unfolding create_from_raw response_error_of
response_error_create_from_raw_at raw =
    create_from_raw (λ v. object response_error (response_error_of (raw_or_empty raw) v)) raw

unfoldable pub witness_create_from_raw_at : Option Bytes → M (Option ℕ)
unfolding create_from_raw witness_of
witness_create_from_raw_at raw =
    create_from_raw (λ v. object witness (witness_of (raw_or_empty raw) v)) raw

unfoldable pub publish_create_from_raw_at : Option Bytes → M (Option ℕ)
unfolding create_from_raw publish_of
publish_create_from_raw_at raw =
    create_from_raw (λ v. object publish (publish_of (raw_or_empty raw) v)) raw
