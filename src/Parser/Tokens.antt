-- ===== src/Parser/Tokens.antt =====
-- parser/source/parser.cpp, `parser::tokenize`: the shape of every token that it yields, on which
-- the unguarded `substr(1)` and `find('=')` of `parser::build` rely.
use spore_client_libs.Base.{
  ℕ, zero, suc, ◌<◌, Bool, true, false, List, [], ◌∷◌, ◌++◌, ◌≡◌, refl, inl, inr, arith, All,
  All-append, Bool-cases,
}
use spore_client_libs.Base.Text.{Bytes, is_empty, contains, starts_with, contains-append}
use spore_client_libs.Parser.Lexer.{
  Token, TokenType, arg, handle, Inside, brackets, triangles, Lexer, flush, step_in, scan, close_in,
  close_of, push_closers, initial, tokenize,
}

-- What the type of a token says of its text.
abbrev pub fits : TokenType → Bytes → Bool
fits TokenType.none v = true
fits arg v = contains b'=' v
fits handle v = starts_with b'~' v

-- No token is empty, an argument holds a `=`, and a handle begins with `~`.
abbrev pub IsValidToken : Token → Type 0
IsValidToken t = (is_empty t.value ≡ false) × (fits t.type t.value ≡ true)

pub record Inv (s : Lexer) : Type 0 where
  pub valid : All IsValidToken s.tokens
  pub curr_fits : fits s.curr.type s.curr.value ≡ true
  pub is_open : s.inside ≡ brackets → 0 < s.depth

fits-append : (ty : TokenType) (v w : Bytes) → fits ty v ≡ true → fits ty (v ++ w) ≡ true
fits-append TokenType.none v w h = refl
fits-append arg v w h = ground (arith, contains-append b'=' v w)
fits-append handle (x ∷ v) w h = h
fits-append handle [] w h = cc

contains-concat : (c : ℕ) (v : Bytes) → contains c (v ++ c ∷ []) ≡ true
unfolding contains
contains-concat c v = ground (arith, contains-append c v (c ∷ []))

starts_with-concat : (c : ℕ) (v : Bytes) → is_empty v ≡ true → starts_with c (v ++ c ∷ []) ≡ true
starts_with-concat c [] h = ground arith
starts_with-concat c (x ∷ v) h = cc

flush-tokens :
    (s : Lexer)
    → All IsValidToken s.tokens
    → fits s.curr.type s.curr.value ≡ true
    → All IsValidToken (flush s).tokens
unfolding flush
flush-tokens s v f = elim (Bool-cases (is_empty s.curr.value)) [
  | inl e ↦ rw e v
  | inr e ↦ rw e (All-append IsValidToken s.tokens (s.curr ∷ []) v ((e, f), tt))
]

flush-Inv : (s : Lexer) → Inv s → Inv (flush s)
unfolding flush
flush-Inv s h =
    let tokens = flush-tokens s h.valid h.curr_fits in
    ground (arith, tokens, h.valid, h.curr_fits, h.is_open)

module _ (s : Lexer) (c : ℕ) (h : Inv s) where
  pushed : fits s.curr.type (s.curr.value ++ c ∷ []) ≡ true
  pushed = fits-append s.curr.type s.curr.value (c ∷ []) h.curr_fits

  step-Inv : (i : Inside) (rest : Bytes) → s.inside ≡ i → Inv (step_in i s c rest)
  unfolding step_in
  step-Inv Inside.none rest e = ground (
    arith,
    pushed,
    h.valid,
    h.curr_fits,
    h.is_open,
    flush-Inv s h,
    contains-concat c s.curr.value,
    starts_with-concat c s.curr.value,
  )
  step-Inv brackets rest e = ground (arith, pushed, h.is_open e)
  step-Inv _ rest e = ground (arith, pushed)

pub scan-Inv : (s : Lexer) (m : Bytes) → Inv s → Inv (scan s m)
unfolding scan
scan-Inv s [] h = h
scan-Inv s (c ∷ m) h = scan-Inv (step_in s.inside s c m) m (step-Inv s c h s.inside m refl)

fits-push_closers :
    (ty : TokenType) (n close : ℕ) (v : Bytes)
    → fits ty v ≡ true
    → fits ty (push_closers n close v) ≡ true
unfolding push_closers
fits-push_closers ty zero close v h = h
fits-push_closers ty (suc n) close v h =
    fits-push_closers ty n close (v ++ close ∷ []) (fits-append ty v (close ∷ []) h)

close_in-fits :
    (i : Inside) (s : Lexer)
    → fits s.curr.type s.curr.value ≡ true
    → fits (close_in i s).curr.type (close_in i s).curr.value ≡ true
unfolding close_in
close_in-fits brackets s h =
    fits-push_closers s.curr.type s.depth (close_of s.bracket) s.curr.value h
close_in-fits triangles s h =
    fits-append s.curr.type _ (b'>' ∷ []) (fits-append s.curr.type s.curr.value (b'>' ∷ []) h)
close_in-fits _ s h = h

close_in-tokens : (i : Inside) (s : Lexer) → (close_in i s).tokens ≡ s.tokens
unfolding close_in
close_in-tokens brackets s = refl
close_in-tokens _ s = refl

-- Every token that `tokenize` adds is non-empty, holds a `=` if it is an argument, and begins
-- with `~` if it is a handle, whatever the bytes of the message.
pub tokenize-IsValidToken :
    (m : Bytes) (ts : List Token) → All IsValidToken ts → All IsValidToken (tokenize m ts)
unfolding tokenize
tokenize-IsValidToken m ts h =
    let s = scan (initial ts) m in
    let inv = scan-Inv (initial ts) m (record { valid = h; curr_fits = refl; is_open = λ e. cc }) in
    flush-tokens (close_in s.inside s) (rw close_in-tokens inv.valid)
      (close_in-fits s.inside s inv.curr_fits)

-- After any bytes that leave the machine inside brackets, at least one bracket is open: the next
-- `depth--` cannot pass below zero.
pub scan-is_open :
    (m : Bytes) (ts : List Token)
    → All IsValidToken ts
    → (scan (initial ts) m).inside ≡ brackets
    → 0 < (scan (initial ts) m).depth
scan-is_open m ts h e =
    (scan-Inv (initial ts) m (record { valid = h; curr_fits = refl; is_open = λ e. cc })).is_open e
