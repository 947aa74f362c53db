-- ===== src/Parser/Blanks.antt =====
-- parser/source/parser.cpp, `parser::tokenize`: two texts with a blank between them.
use spore_client_libs.Base.{
  ℕ, true, false, [], ◌∷◌, ◌++◌, ◌==◌, ◌≡◌, refl, sym, ap, ◌∙◌, arith, inl, inr, Bool-cases,
  append-nil,
}
use spore_client_libs.Base.Text.{Bytes, is_empty, starts_with, contains}
use spore_client_libs.Parser.Tokens.{fits, scan-Inv}
use spore_client_libs.Parser.Lexer.{
  Token, TokenType, arg, handle, Inside, triangles, Lexer, no_token, flush, step_in, scan, close_in,
  initial, finish, tokenize,
}
use spore_client_libs.Parser.Beside.{beside, Follows, scan-Follows, finish-Follows}

-- The byte behind the current one is looked at, and a blank there is like the end.
starts_with-blank :
    (k : ℕ) (m t : Bytes) → (k == b' ') ≡ false → starts_with k (m ++ b' ' ∷ t) ≡ starts_with k m
starts_with-blank k [] t h = ground (arith, h)
starts_with-blank k (x ∷ m) t h = refl

step_in-blank :
    (i : Inside) (s : Lexer) (c : ℕ) (m t : Bytes) → step_in i s c (m ++ b' ' ∷ t) ≡ step_in i s c m
unfolding step_in
step_in-blank Inside.none s c m t = rw (step_in, starts_with-blank b'<' m t refl) refl
step_in-blank triangles s c m t = rw (step_in, starts_with-blank b'>' m t refl) refl
step_in-blank _ s c m t = refl

scan-blank : (s : Lexer) (m t : Bytes) → scan s (m ++ b' ' ∷ t) ≡ scan (scan s m) (b' ' ∷ t)
unfolding scan
scan-blank s [] t = refl
scan-blank s (c ∷ m) t =
    ap (λ y. scan y (m ++ b' ' ∷ t)) (step_in-blank s.inside s c m t)
    ∙ scan-blank (step_in s.inside s c m) m t

-- A token that is empty has no type yet.
no_token-fits :
    (ty : TokenType) (v : Bytes)
    → fits ty v ≡ true
    → is_empty v ≡ true
    → ◌≡◌ {A = Token} (record { value = v; type = ty }) no_token
unfolding contains
no_token-fits TokenType.none [] h e = refl
no_token-fits arg [] h e = absurd (ground (arith, h))
no_token-fits handle [] h e = absurd (ground (arith, h))
no_token-fits ty (x ∷ v) h e = absurd (ground (arith, e))

flush-beside-initial :
    (s : Lexer)
    → s.inside ≡ Inside.none
    → fits s.curr.type s.curr.value ≡ true
    → flush s ≡ beside (flush s).tokens s.bracket s.depth (initial [])
unfolding flush
flush-beside-initial s e f = elim (Bool-cases (is_empty s.curr.value)) [
  | inl none ↦
      let curr = no_token-fits s.curr.type s.curr.value f none in
      ground (arith, none, e, curr, append-nil s.tokens)
  | inr more ↦ ground (arith, more, e, append-nil (s.tokens ++ s.curr ∷ []))
]

-- Outside of quotes, brackets and blocks a blank ends the token, and the machine begins anew.
blank-Follows :
    (s : Lexer) (t : Bytes)
    → s.inside ≡ Inside.none
    → fits s.curr.type s.curr.value ≡ true
    → Follows (flush s).tokens (step_in s.inside s b' ' t) (initial [])
unfolding step_in
blank-Follows s t e f =
    (s.bracket, s.depth, ap (λ i. step_in i s b' ' t) e ∙ flush-beside-initial s e f, λ k. cc)

-- The tokens of a text are cut at a blank that stands outside of quotes, brackets and blocks: they are
-- those of what is before it and then those of what is behind it.
pub tokenize-blank :
    (m t : Bytes)
    → (scan (initial []) m).inside ≡ Inside.none
    → tokenize (m ++ b' ' ∷ t) [] ≡ tokenize m [] ++ tokenize t []
unfolding tokenize scan close_in
tokenize-blank m t e =
    let s = scan (initial []) m in
    let inv =
      scan-Inv (initial []) m (record { valid = tt; curr_fits = refl; is_open = λ e. cc }) in
    let begun = blank-Follows s t e inv.curr_fits in
    let whole : finish s ≡ (flush s).tokens = ap (λ i. (flush (close_in i s)).tokens) e in
    ap finish (scan-blank (initial []) m t)
    ∙ finish-Follows (flush s).tokens (scan (step_in s.inside s b' ' t) t) (scan (initial []) t)
        (scan-Follows (flush s).tokens (step_in s.inside s b' ' t) (initial []) t begun)
    ∙ ap (λ ts. ts ++ finish (scan (initial []) t)) (sym whole)
