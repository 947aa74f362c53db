-- ===== src/Parser/Lexer.antt =====
-- parser/source/parser.cpp, `parser::tokenize`: a machine over the bytes of a message with one byte
-- of lookahead, the one behind the current byte.
use spore_client_libs.Base.{
  ℕ, zero, suc, ◌+◌, ◌-◌, ◌&&◌, ◌||◌, List, [], ◌∷◌, ◌++◌, ◌==◌, if◌then◌else◌,
}
use spore_client_libs.Base.Text.{Bytes, is_empty, starts_with}

pub data TokenType : Type 0 where
  none arg handle : TokenType

pub record Token : Type 0 where
  pub value : Bytes
  pub type : TokenType

pub data Inside : Type 0 where
  none quotes s_quotes brackets triangles : Inside

-- The local variables of `tokenize`, and the vector that it fills.
pub record Lexer : Type 0 where
  pub tokens : List Token
  pub curr : Token
  pub inside : Inside
  pub bracket : ℕ
  pub depth : ℕ

abbrev pub no_token : Token
no_token = record { value = []; type = TokenType.none }

-- `curr.value.push_back(c)`
abbrev pub push_back : ℕ → Token → Token
push_back c t = record t { value = t.value ++ c ∷ [] }

-- `tokens.push_back(std::move(curr))` unless `curr` is empty, and a new `curr`
unfoldable pub flush : Lexer → Lexer
flush s =
    if is_empty s.curr.value
    then s
    else record s { tokens = s.tokens ++ s.curr ∷ []; curr = no_token }

-- `case inside::NONE`
step_none : Lexer → ℕ → Bytes → Lexer
step_none s c rest =
    if c == b' '
    then flush s
    else if c == b'"'
    then record s { inside = quotes }
    else if c == b'\''
    then record s { inside = s_quotes }
    else if c == b'[' || c == b'{'
    then record s { curr = push_back c s.curr; bracket = c; depth = 1; inside = brackets }
    else if c == b'='
    then record s { curr = record { value = s.curr.value ++ c ∷ []; type = arg } }
    else if c == b'~'
    then (if is_empty s.curr.value
        then record s { curr = record { value = s.curr.value ++ c ∷ []; type = handle } }
        else record s { curr = push_back c s.curr })
    else if c == b'<'
    then (if starts_with b'<' rest
        then record s { curr = push_back c s.curr; inside = triangles }
        else record s { curr = push_back c s.curr })
    else record s { curr = push_back c s.curr }

-- `bracket == '[' ? ']' : '}'`
unfoldable pub close_of : ℕ → ℕ
close_of bracket = if bracket == b'[' then b']' else b'}'

-- `case inside::BRACKETS`
step_brackets : Lexer → ℕ → Lexer
step_brackets s c =
    if c == s.bracket
    then record s { curr = push_back c s.curr; depth = s.depth + 1 }
    else if c == close_of s.bracket
    then record s {
      curr = push_back c s.curr;
      depth = s.depth - 1;
      inside = if s.depth - 1 == 0 then Inside.none else s.inside;
    }
    else record s { curr = push_back c s.curr }

-- One round of the loop over the message.
unfoldable pub step_in : Inside → Lexer → ℕ → Bytes → Lexer
unfolding flush step_none close_of step_brackets
step_in Inside.none s c rest = step_none s c rest
step_in s_quotes s c rest =
    if c == b'\'' then record s { inside = Inside.none } else record s { curr = push_back c s.curr }
step_in quotes s c rest =
    if c == b'"' then record s { inside = Inside.none } else record s { curr = push_back c s.curr }
step_in brackets s c rest = step_brackets s c
step_in triangles s c rest =
    if c == b'>' && starts_with b'>' rest
    then record s { curr = push_back c s.curr; inside = Inside.none }
    else record s { curr = push_back c s.curr }

unfoldable pub scan : Lexer → Bytes → Lexer
scan s [] = s
scan s (c ∷ rest) = scan (step_in s.inside s c rest) rest

-- `for (i = 0; i < depth; ++i) curr.value.push_back(close)`
unfoldable pub push_closers : ℕ → ℕ → Bytes → Bytes
push_closers zero close value = value
push_closers (suc n) close value = push_closers n close (value ++ close ∷ [])

-- `close anything left open, best effort`
unfoldable pub close_in : Inside → Lexer → Lexer
unfolding push_closers close_of
close_in brackets s = record s {
  curr = record s.curr { value = push_closers s.depth (close_of s.bracket) s.curr.value };
}
close_in triangles s = record s { curr = push_back b'>' (push_back b'>' s.curr) }
close_in _ s = s

abbrev pub initial : List Token → Lexer
initial tokens = record {
  tokens = tokens;
  curr = no_token;
  inside = Inside.none;
  bracket = 0;
  depth = 0;
}

abbrev pub finish : Lexer → List Token
finish s = (flush (close_in s.inside s)).tokens

-- The tokens are added to those that the vector holds.
unfoldable pub tokenize : Bytes → List Token → List Token
unfolding scan step_in close_in flush
tokenize message tokens = finish (scan (initial tokens) message)
