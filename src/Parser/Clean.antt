-- ===== src/Parser/Clean.antt =====
-- parser/source/parser.cpp, `parser::tokenize`: tokens have no bytes but those of the message and
-- the closing delimiters, so a message with no zero byte gives tokens with none.
use spore_client_libs.Base.{
  ℕ, zero, suc, false, [], ◌∷◌, ◌++◌, ◌≡◌, refl, inl, inr, arith, All, All-append, Bool-cases, ◌==◌,
}
use spore_client_libs.Base.Text.{Bytes, is_empty, contains, contains-append}
use spore_client_libs.Parser.Lexer.{
  Inside, brackets, triangles, Lexer, flush, step_in, scan, close_in, push_closers, close_of,
  initial, tokenize,
}
use spore_client_libs.Parser.Contents.{IsClean}

record Inv (s : Lexer) : Type 0 where
  tokens : All IsClean s.tokens
  curr : contains 0 s.curr.value ≡ false

clean-concat :
    (v : Bytes) (c : ℕ) → contains 0 v ≡ false → (c == 0) ≡ false → contains 0 (v ++ c ∷ []) ≡ false
unfolding contains
clean-concat v c h n = ground (arith, contains-append 0 v (c ∷ []))

flush-Inv : (s : Lexer) → Inv s → Inv (flush s)
unfolding flush contains
flush-Inv s h = elim (Bool-cases (is_empty s.curr.value)) [
  | inl e ↦ rw e h
  | inr e ↦ rw e (record {
    tokens = All-append IsClean s.tokens (s.curr ∷ []) h.tokens (h.curr, tt);
    curr = refl;
  })
]

step-Inv :
    (s : Lexer) (c : ℕ) (h : Inv s) (i : Inside) (rest : Bytes)
    → (c == 0) ≡ false
    → Inv (step_in i s c rest)
unfolding step_in
step-Inv s c h Inside.none rest n =
    ground (arith, h.tokens, h.curr, clean-concat s.curr.value c h.curr n, flush-Inv s h)
step-Inv s c h _ rest n = ground (arith, h.tokens, h.curr, clean-concat s.curr.value c h.curr n)

scan-Inv : (s : Lexer) (m : Bytes) → contains 0 m ≡ false → Inv s → Inv (scan s m)
unfolding scan contains
scan-Inv s [] n h = h
scan-Inv s (c ∷ m) n h =
    scan-Inv (step_in s.inside s c m) m (ground arith) (step-Inv s c h s.inside m (ground arith))

close_of-ne-zero : (b : ℕ) → (close_of b == 0) ≡ false
unfolding close_of
close_of-ne-zero b = ground arith

push_closers-clean :
    (n close : ℕ) (v : Bytes)
    → (close == 0) ≡ false
    → contains 0 v ≡ false
    → contains 0 (push_closers n close v) ≡ false
unfolding push_closers
push_closers-clean zero close v c h = h
push_closers-clean (suc n) close v c h =
    push_closers-clean n close (v ++ close ∷ []) c (clean-concat v close h c)

close_in-Inv : (i : Inside) (s : Lexer) → Inv s → Inv (close_in i s)
unfolding close_in
close_in-Inv brackets s h = record {
  tokens = h.tokens;
  curr = push_closers-clean s.depth _ s.curr.value (close_of-ne-zero s.bracket) h.curr;
}
close_in-Inv triangles s h = record {
  tokens = h.tokens;
  curr = clean-concat _ b'>' (clean-concat s.curr.value b'>' h.curr refl) refl;
}
close_in-Inv _ s h = h

pub tokenize-IsClean : (m : Bytes) → contains 0 m ≡ false → All IsClean (tokenize m [])
unfolding tokenize
tokenize-IsClean m n =
    let s = scan (initial []) m in
    let start : Inv (initial []) = record { tokens = tt; curr = unfold contains in refl } in
    (flush-Inv _ (close_in-Inv s.inside s (scan-Inv (initial []) m n start))).tokens
