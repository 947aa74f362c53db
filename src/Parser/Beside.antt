-- ===== src/Parser/Beside.antt =====
-- parser/source/parser.cpp, `parser::tokenize`: a machine that has other tokens in front.
use spore_client_libs.Base.{
  ℕ, Bool, true, false, ◌||◌, List, [], ◌∷◌, ◌++◌, ◌==◌, ◌≡◌, refl, sym, ap, ◌∙◌, arith, inl, inr,
  Bool-cases, append_assoc,
}
use mathlib.Core.Path.{subst}
use spore_client_libs.Base.Text.{Bytes}
use spore_client_libs.Parser.Lexer.{
  Token, Inside, quotes, s_quotes, brackets, triangles, Lexer, flush, step_in, scan, close_in,
  finish, push_closers, close_of,
}

-- A machine with other tokens in front, and its bracket and depth set.
abbrev pub beside : List Token → ℕ → ℕ → Lexer → Lexer
beside ts b d s = record s { tokens = ts ++ s.tokens; bracket = b; depth = d }

abbrev opens : ℕ → Bool
opens c = c == b'[' || c == b'{'

pub flush-beside :
    (ts : List Token) (b d : ℕ) (s : Lexer) → flush (beside ts b d s) ≡ beside ts b d (flush s)
unfolding flush
flush-beside ts b d s = ground (arith, append_assoc ts s.tokens (s.curr ∷ []))

module _ (ts : List Token) (b d : ℕ) (s : Lexer) (c : ℕ) (rest : Bytes) where
  step_none-beside :
      opens c ≡ false
      → step_in Inside.none (beside ts b d s) c rest ≡ beside ts b d (step_in Inside.none s c rest)
  unfolding step_in
  step_none-beside h = ground (arith, h, flush-beside ts b d s)

  step_none-opens :
      opens c ≡ true
      → (step_in Inside.none (beside ts b d s) c rest
          ≡ beside ts c 1 (step_in Inside.none s c rest))
        × ((step_in Inside.none s c rest).bracket ≡ c)
        × ((step_in Inside.none s c rest).depth ≡ 1)
  unfolding step_in
  step_none-opens h = (ground (arith, h), ground (arith, h), ground (arith, h))

  step_brackets-beside :
      step_in brackets (beside ts s.bracket s.depth s) c rest
      ≡ beside ts
          (step_in brackets s c rest).bracket
          (step_in brackets s c rest).depth
          (step_in brackets s c rest)
  unfolding step_in
  step_brackets-beside = ground arith

  step_quotes-beside :
      step_in quotes (beside ts b d s) c rest ≡ beside ts b d (step_in quotes s c rest)
  unfolding step_in
  step_quotes-beside = ground arith

  step_s_quotes-beside :
      step_in s_quotes (beside ts b d s) c rest ≡ beside ts b d (step_in s_quotes s c rest)
  unfolding step_in
  step_s_quotes-beside = ground arith

  step_triangles-beside :
      step_in triangles (beside ts b d s) c rest ≡ beside ts b d (step_in triangles s c rest)
  unfolding step_in
  step_triangles-beside = ground arith

-- The machine `x` does as `s` does, with the tokens `ts` in front. The bracket and the depth count only
-- inside brackets.
abbrev pub Follows : List Token → Lexer → Lexer → Type 0
Follows ts x s =
    (b : ℕ) × (d : ℕ) × (x ≡ beside ts b d s)
    × (s.inside ≡ brackets → (b ≡ s.bracket) × (d ≡ s.depth))

step_in-brackets_only :
    (i : Inside) (s : Lexer) (c : ℕ) (rest : Bytes)
    → s.inside ≡ i
    → (i ≡ brackets → ⊥)
    → opens c ≡ false
    → (step_in i s c rest).inside ≡ brackets
    → ⊥
unfolding step_in flush
step_in-brackets_only brackets s c rest e n o h = n refl
step_in-brackets_only _ s c rest e n o h = ground (arith, e, o, h)

stays_out :
    (i : Inside) (s : Lexer) (c : ℕ) (rest : Bytes)
    → s.inside ≡ i
    → (i ≡ brackets → ⊥)
    → (i ≡ Inside.none → ⊥)
    → (step_in i s c rest).inside ≡ brackets
    → ⊥
unfolding step_in
stays_out brackets s c rest e n o h = n refl
stays_out Inside.none s c rest e n o h = o refl
stays_out _ s c rest e n o h = ground (arith, e, h)

pub step-Follows :
    (ts : List Token) (i : Inside) (x s : Lexer) (c : ℕ) (rest : Bytes)
    → s.inside ≡ i
    → Follows ts x s
    → Follows ts (step_in i x c rest) (step_in i s c rest)
step-Follows ts Inside.none x s c rest e (b, d, same, h) = elim (Bool-cases (opens c)) [
  | inl o ↦
      let (step, bracket, depth) = step_none-opens ts b d s c rest o in
      (c, 1, ap (λ y. step_in Inside.none y c rest) same ∙ step, λ k. (sym bracket, sym depth))
  | inr o ↦ (
    b,
    d,
    ap (λ y. step_in Inside.none y c rest) same ∙ step_none-beside ts b d s c rest o,
    λ k. absurd (step_in-brackets_only Inside.none s c rest e (λ q. cc) o k),
  )
]
step-Follows ts brackets x s c rest e (b, d, same, h) =
    let (bracket, depth) = h e in
    (
      (step_in brackets s c rest).bracket,
      (step_in brackets s c rest).depth,
      ap (λ y. step_in brackets y c rest) same
          ∙ ap (λ n. step_in brackets (beside ts n d s) c rest) bracket
          ∙ ap (λ n. step_in brackets (beside ts s.bracket n s) c rest) depth
          ∙ step_brackets-beside ts b d s c rest,
      λ k. (refl, refl),
    )
step-Follows ts quotes x s c rest e (b, d, same, h) = (
  b,
  d,
  ap (λ y. step_in quotes y c rest) same ∙ step_quotes-beside ts b d s c rest,
  λ k. absurd (stays_out quotes s c rest e (λ q. cc) (λ q. cc) k),
)
step-Follows ts s_quotes x s c rest e (b, d, same, h) = (
  b,
  d,
  ap (λ y. step_in s_quotes y c rest) same ∙ step_s_quotes-beside ts b d s c rest,
  λ k. absurd (stays_out s_quotes s c rest e (λ q. cc) (λ q. cc) k),
)
step-Follows ts triangles x s c rest e (b, d, same, h) = (
  b,
  d,
  ap (λ y. step_in triangles y c rest) same ∙ step_triangles-beside ts b d s c rest,
  λ k. absurd (stays_out triangles s c rest e (λ q. cc) (λ q. cc) k),
)

pub scan-Follows :
    (ts : List Token) (x s : Lexer) (m : Bytes) → Follows ts x s → Follows ts (scan x m) (scan s m)
unfolding scan
scan-Follows ts x s [] f = f
scan-Follows ts x s (c ∷ m) f =
    let inside : x.inside ≡ s.inside = ap (λ (y : Lexer). y.inside) f.2 in
    subst (λ i. Follows ts (scan (step_in i x c m) m) (scan (step_in s.inside s c m) m))
      (sym inside)
      (scan-Follows ts (step_in s.inside x c m) (step_in s.inside s c m) m
        (step-Follows ts s.inside x s c m refl f))

close_in-beside :
    (i : Inside) (ts : List Token) (b d : ℕ) (s : Lexer)
    → (i ≡ brackets → (b ≡ s.bracket) × (d ≡ s.depth))
    → close_in i (beside ts b d s) ≡ beside ts b d (close_in i s)
unfolding close_in
close_in-beside brackets ts b d s h =
    let (bracket, depth) = h refl in
    ap (λ (v : Bytes). record (beside ts b d s) { curr = record s.curr { value = v } })
      (ap (λ n. push_closers n (close_of b) s.curr.value) depth
        ∙ ap (λ n. push_closers s.depth (close_of n) s.curr.value) bracket)
close_in-beside _ ts b d s h = refl

pub finish-Follows : (ts : List Token) (x s : Lexer) → Follows ts x s → finish x ≡ ts ++ finish s
finish-Follows ts x s (b, d, same, h) =
    ap finish same
    ∙ ap (λ (y : Lexer). (flush y).tokens) (close_in-beside s.inside ts b d s h)
    ∙ ap (λ (y : Lexer). y.tokens) (flush-beside ts b d (close_in s.inside s))
