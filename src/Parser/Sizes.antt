-- ===== src/Parser/Sizes.antt =====
-- parser/source/parser.cpp, `parser::tokenize`: how much it writes, and how deep it counts.
use spore_client_libs.Base.{
  ℕ, zero, suc, ◌+◌, ◌≤◌, List, [], ◌∷◌, ◌++◌, ◌≡◌, refl, arith, inl, inr, Bool-cases, length,
}
use spore_client_libs.Base.Text.{Bytes, is_empty}
use spore_client_libs.Parser.Lexer.{
  Token, Inside, brackets, triangles, Lexer, flush, step_in, scan, close_in, initial, tokenize,
  push_closers, close_of,
}

-- The bytes of the tokens.
abbrev pub total : List Token → ℕ
total [] = 0
total (t ∷ ts) = length t.value + total ts

total-concat : (ts : List Token) (t : Token) → total (ts ++ t ∷ []) ≡ total ts + length t.value
total-concat [] t = omega arith
total-concat (u ∷ ts) t = omega (arith, total-concat ts t)

length-concat : (v : Bytes) (c : ℕ) → length (v ++ c ∷ []) ≡ length v + 1
length-concat [] c = omega arith
length-concat (x ∷ v) c = omega (arith, length-concat v c)

-- What is written, with the brackets that are still to be closed.
abbrev size : Lexer → ℕ
size s = total s.tokens + (length s.curr.value + s.depth)

flush-size : (s : Lexer) → (size (flush s) ≤ size s) × ((flush s).depth ≡ s.depth)
unfolding flush
flush-size s = elim (Bool-cases (is_empty s.curr.value)) [
  | inl e ↦ rw (flush, e) (omega arith, refl)
  | inr e ↦ rw (flush, e) (omega (arith, total-concat s.tokens s.curr), refl)
]

step-size :
    (i : Inside) (s : Lexer) (c : ℕ) (rest : Bytes)
    → (size (step_in i s c rest) ≤ size s + 2) × ((step_in i s c rest).depth ≤ s.depth + 1)
unfolding step_in
step-size Inside.none s c rest =
    let flushed = flush-size s in
    (ground (arith, flushed.0, length-concat s.curr.value c), ground (arith, flushed.1))
step-size _ s c rest = (ground (arith, length-concat s.curr.value c), ground arith)

scan-size :
    (s : Lexer) (m : Bytes)
    → (size (scan s m) ≤ size s + (length m + length m)) × ((scan s m).depth ≤ s.depth + length m)
unfolding scan
scan-size s [] = (omega arith, omega arith)
scan-size s (c ∷ m) =
    let (step, depth) = step-size s.inside s c m in
    let (more, deeper) = scan-size (step_in s.inside s c m) m in
    (omega (arith, step, more), omega (arith, depth, deeper))

flush-total : (s : Lexer) → total (flush s).tokens ≤ total s.tokens + length s.curr.value
unfolding flush
flush-total s = elim (Bool-cases (is_empty s.curr.value)) [
  | inl e ↦ rw (flush, e) (omega arith)
  | inr e ↦ rw (flush, e) (omega (arith, total-concat s.tokens s.curr))
]

push_closers-size : (n close : ℕ) (v : Bytes) → length (push_closers n close v) ≡ length v + n
unfolding push_closers
push_closers-size zero close v = omega arith
push_closers-size (suc n) close v =
    omega (arith, push_closers-size n close (v ++ close ∷ []), length-concat v close)

close_in-size :
    (i : Inside) (s : Lexer)
    → total (close_in i s).tokens + length (close_in i s).curr.value ≤ size s + 2
unfolding close_in
close_in-size brackets s =
    omega (arith, push_closers-size s.depth (close_of s.bracket) s.curr.value)
close_in-size triangles s =
    omega (arith, length-concat s.curr.value b'>', length-concat (s.curr.value ++ b'>' ∷ []) b'>')
close_in-size _ s = omega arith

-- The tokens of a message have at most twice the bytes of the message, and two: closing what is left
-- open adds no more. The depth of brackets never passes the number of bytes that were read, so on a
-- message of fewer than 2^64 bytes the counter `depth++` does not wrap.
pub tokenize-total :
    (m : Bytes)
    → (total (tokenize m []) ≤ length m + (length m + 2)) × ((scan (initial []) m).depth ≤ length m)
unfolding tokenize
tokenize-total m =
    let s = scan (initial []) m in
    let (whole, depth) = scan-size (initial []) m in
    let closed = close_in-size s.inside s in
    let flushed = flush-total (close_in s.inside s) in
    (omega (arith, whole, closed, flushed), omega (arith, depth))
