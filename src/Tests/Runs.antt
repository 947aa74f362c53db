-- ===== src/Tests/Runs.antt =====
-- Runs of the model at the inputs of parser/test and spore_c/test.
use spore_client_libs.Base.{[], ◌∷◌, some, ◌≡◌, refl}
use spore_client_libs.Base.Text.{Bytes, codes, c_str, equal, find?, contains}
use spore_client_libs.Parser.Lexer.{Token, TokenType, arg, handle, tokenize}
use spore_client_libs.Wire.Message.{Message, request_text}
use spore_client_libs.Wire.Raw.{spore_request_create_from_raw}

abbrev token : TokenType → Bytes → Token
token type value = record { value = value; type = type }

tokenize_brackets :
    tokenize (codes "Some ~h body={a {b c} d} flag") []
    ≡ token TokenType.none (codes "Some")
      ∷ token handle (codes "~h")
      ∷ token arg (codes "body={a {b c} d}")
      ∷ token TokenType.none (codes "flag")
      ∷ []
unfolding tokenize
tokenize_brackets = refl

tokenize_left_open :
    tokenize (codes "Some ~h body={a {b c") []
    ≡ token TokenType.none (codes "Some")
      ∷ token handle (codes "~h")
      ∷ token arg (codes "body={a {b c}}")
      ∷ []
unfolding tokenize
tokenize_left_open = refl

tokenize_triangles :
    tokenize (codes "a b=<<x y>> f") []
    ≡ token TokenType.none (codes "a")
      ∷ token arg (codes "b=<<x y>>")
      ∷ token TokenType.none (codes "f")
      ∷ []
unfolding tokenize
tokenize_triangles = refl

-- spore_c/test/ai_message_accessors_test.cpp
abbrev accessor_raw : Bytes
accessor_raw = codes "Example.run ~h z=last a=first beta alpha\r\n"

abbrev accessor_request : Message
accessor_request = record {
  command = codes "Example.run";
  handle = codes "h";
  args = (codes "a", codes "first") ∷ (codes "z", codes "last") ∷ [];
  flags = codes "alpha" ∷ codes "beta" ∷ [];
  raw = accessor_raw;
  serialized = [];
}

create_from_raw_accessors :
    spore_request_create_from_raw (some accessor_raw) ≡ some accessor_request
unfolding spore_request_create_from_raw c_str equal find?
create_from_raw_accessors = refl

request_text_accessors :
    request_text accessor_request ≡ codes "Example.run ~h a=first z=last alpha beta\n"
unfolding request_text contains
request_text_accessors = refl
