-- ===== src/Wire/Items.antt =====
-- What stands behind the head of a serialized message: arguments and flags, each after a blank. The
-- predicates say which texts the wire format of spore_c/source/message.cpp can carry.
use spore_client_libs.Base.{
  ℕ, Bool, true, false, not, ◌&&◌, ◌||◌, List, [], ◌∷◌, ◌++◌, ◌==◌, ◌≡◌, if◌then◌else◌,
}
use spore_client_libs.Base.Text.{Bytes, codes, is_empty, contains, starts_with, has_pair}
use spore_client_libs.Parser.Lexer.{Token, TokenType}
use spore_client_libs.Parser.Build.{is_block}
use spore_client_libs.Wire.Message.{arg_text}

-- `arg` is what `serializeArg` writes; `quoted` and `plain` are the fields that the serializers
-- write by themselves, in double quotes or as they are.
pub data Item : Type 0 where
  arg : Bytes → Bytes → Item
  quoted : Bytes → Bytes → Item
  plain : Bytes → Bytes → Item
  flag : Bytes → Item
  handle : Bytes → Item

abbrev pub item_text : Item → Bytes
item_text (arg k v) = arg_text k v
item_text (quoted k v) = b' ' ∷ (k ++ (b'=' ∷ b'"' ∷ (v ++ codes "\"")))
item_text (plain k v) = b' ' ∷ (k ++ (b'=' ∷ v))
item_text (flag f) = b' ' ∷ f
item_text (handle h) = b' ' ∷ b'~' ∷ h

abbrev pub items_text : List Item → Bytes
items_text [] = []
items_text (x ∷ xs) = item_text x ++ items_text xs

-- A byte that means the same wherever it stands in a token.
unfoldable pub is_word_byte : ℕ → Bool
is_word_byte c = not (
    c == b' '
    || c == b'"'
    || c == b'\''
    || c == b'['
    || c == b'{'
    || c == b'='
    || c == b'<'
    || c == b'\r'
    || c == 0)

unfoldable pub all_word : Bytes → Bool
unfolding is_word_byte
all_word [] = true
all_word (c ∷ cs) = is_word_byte c && all_word cs

-- Word bytes, the first of them no `~`. May be empty.
abbrev pub IsKey : Bytes → Type 0
IsKey s = (all_word s ≡ true) × (starts_with b'~' s ≡ false)

abbrev pub IsWord : Bytes → Type 0
IsWord s = (is_empty s ≡ false) × IsKey s

-- A value that is written as it is: no quote, no opening bracket, no blank and no `<<`.
unfoldable pub is_raw : Bytes → Bool
is_raw [] = true
is_raw (c ∷ cs) =
    not (
      c == b' '
      || c == b'"'
      || c == b'\''
      || c == b'['
      || c == b'{'
      || (c == b'<' && starts_with b'<' cs))
    && is_raw cs

-- The delimiters that `serializeArg` chooses for the value do not occur in it, and quotes are not
-- put around what reads as a block.
unfoldable pub is_safe : Bytes → Bool
unfolding is_raw is_block
is_safe v =
    if contains b'\n' v
    then not (has_pair b'>' v)
    else if contains b'"' v
    then not (contains b'\'' v) && not (is_block v)
    else if contains b' ' v || contains b'\t' v
    then not (is_block v)
    else is_raw v

-- No zero byte, at which a C string ends, and no `\r`, which the receiver may drop.
pub record IsText (v : Bytes) : Type 0 where
  pub no_zero : contains 0 v ≡ false
  pub no_return : contains b'\r' v ≡ false

abbrev pub IsSafe : Bytes → Type 0
IsSafe v = IsText v × (is_safe v ≡ true)

-- What can stand between double quotes.
abbrev pub IsQuotable : Bytes → Type 0
IsQuotable v = IsText v × (contains b'"' v ≡ false) × (is_block v ≡ false)

abbrev pub IsPlain : Bytes → Type 0
IsPlain v = IsText v × (is_raw v ≡ true)

abbrev pub IsItem : Item → Type 0
IsItem (arg k v) = IsKey k × IsSafe v
IsItem (quoted k v) = IsKey k × IsQuotable v
IsItem (plain k v) = IsKey k × IsPlain v
IsItem (flag f) = IsWord f
IsItem (handle h) = all_word h ≡ true

-- The value as it stands in its token: quotes are gone, and the delimiters of a block are not.
abbrev pub shown : Bytes → Bytes
shown v = if contains b'\n' v then codes "<<\n" ++ (v ++ codes "\n>>") else v

abbrev pub item_token : Item → Token
item_token (arg k v) = record { value = k ++ (b'=' ∷ shown v); type = TokenType.arg }
item_token (quoted k v) = record { value = k ++ (b'=' ∷ v); type = TokenType.arg }
item_token (plain k v) = record { value = k ++ (b'=' ∷ v); type = TokenType.arg }
item_token (flag f) = record { value = f; type = TokenType.none }
item_token (handle h) = record { value = b'~' ∷ h; type = TokenType.handle }

abbrev pub item_tokens : List Item → List Token
item_tokens [] = []
item_tokens (x ∷ xs) = item_token x ∷ item_tokens xs
