-- ===== src/Wire/Scan.antt =====
-- `parser::tokenize` of parser/source/parser.cpp on serialized items: each lemma runs the machine
-- over one piece of the text, with any `rest` behind it.
use spore_client_libs.Base.{
  ℕ, true, false, List, [], ◌∷◌, ◌++◌, ◌==◌, ◌≡◌, refl, ap, ◌∙◌, inl, inr, ◌⊎◌, arith, append-nil,
  append_assoc,
}
use spore_client_libs.Base.Text.{Bytes, codes, is_empty, contains, starts_with, has_pair}
use spore_client_libs.Parser.Lexer.{
  Token, TokenType, arg, Inside, quotes, s_quotes, triangles, Lexer, flush, step_in, scan,
}
use spore_client_libs.Wire.Items.{is_word_byte, all_word, IsKey, is_raw}

-- Outside quotes and brackets, with the token `t` begun.
abbrev pub reading : List Token → Token → Lexer
reading ts t = record { tokens = ts; curr = t; inside = Inside.none; bracket = 0; depth = 0 }

abbrev pub tok : Bytes → TokenType → Token
tok v ty = record { value = v; type = ty }

starts_with-append :
    (c : ℕ) (w rest : Bytes)
    → starts_with c rest ≡ false
    → starts_with c (w ++ rest) ≡ starts_with c w
starts_with-append c [] rest h = h
starts_with-append c (x ∷ w) rest h = refl

-- The byte is added to the token, and nothing else changes.
abbrev Adds : List Token → Bytes → TokenType → ℕ → Bytes → Type 0
Adds ts v ty c rest =
    step_in Inside.none (reading ts (tok v ty)) c rest ≡ reading ts (tok (v ++ c ∷ []) ty)

pub concat-is_empty : (v : Bytes) (c : ℕ) → is_empty (v ++ c ∷ []) ≡ false
concat-is_empty [] c = refl
concat-is_empty (x ∷ v) c = refl

module _ (ts : List Token) (ty : TokenType) where
  step-word_byte :
      (c : ℕ) (v rest : Bytes)
      → is_word_byte c ≡ true
      → is_empty v ≡ false ⊎ (c == b'~') ≡ false
      → Adds ts v ty c rest
  unfolding step_in is_word_byte
  step-word_byte c v rest h ne = ground arith

  scan-Adds :
      (c : ℕ) (w v rest : Bytes)
      → Adds ts v ty c (w ++ rest)
      → scan (reading ts (tok (v ++ c ∷ []) ty)) (w ++ rest)
        ≡ scan (reading ts (tok ((v ++ c ∷ []) ++ w) ty)) rest
      → scan (reading ts (tok v ty)) ((c ∷ w) ++ rest)
        ≡ scan (reading ts (tok (v ++ c ∷ w) ty)) rest
  unfolding scan
  scan-Adds c w v rest a ih =
      ap (λ s. scan s (w ++ rest)) a
      ∙ ih
      ∙ ap (λ x. scan (reading ts (tok x ty)) rest) (append_assoc v (c ∷ []) w)

  pub scan-all_word :
      (w v rest : Bytes)
      → all_word w ≡ true
      → is_empty v ≡ false
      → scan (reading ts (tok v ty)) (w ++ rest) ≡ scan (reading ts (tok (v ++ w) ty)) rest
  unfolding all_word
  scan-all_word [] v rest h ne = rw append-nil
  scan-all_word (c ∷ w) v rest h ne =
      scan-Adds c w v rest (step-word_byte c v (w ++ rest) (ground arith) (inl ne))
        (scan-all_word w (v ++ c ∷ []) rest (ground arith) (concat-is_empty v c))

  -- A key, or a word, from the beginning of a token.
  pub scan-IsKey :
      (w rest : Bytes)
      → IsKey w
      → scan (reading ts (tok [] ty)) (w ++ rest) ≡ scan (reading ts (tok w ty)) rest
  unfolding all_word
  scan-IsKey [] rest h = refl
  scan-IsKey (c ∷ w) rest h =
      scan-Adds c w [] rest (step-word_byte c [] (w ++ rest) (ground (arith, h.0)) (inr h.1))
        (scan-all_word w (c ∷ []) rest (ground (arith, h.0)) refl)

  pub scan_equals :
      (v rest : Bytes)
      → scan (reading ts (tok v ty)) (b'=' ∷ rest)
        ≡ scan (reading ts (tok (v ++ b'=' ∷ []) arg)) rest
  unfolding scan step_in
  scan_equals v rest = refl

  -- A blank ends the token.
  pub scan_blank :
      (v rest : Bytes)
      → is_empty v ≡ false
      → scan (reading ts (tok v ty)) (b' ' ∷ rest)
        ≡ scan (reading (ts ++ tok v ty ∷ []) (tok [] TokenType.none)) rest
  unfolding scan step_in
  scan_blank v rest ne = rw (ne, flush)

  scan_within :
      (q : Inside) (b : ℕ)
      → (q ≡ quotes) × (b ≡ b'"') ⊎ (q ≡ s_quotes) × (b ≡ b'\'')
      → (w v rest : Bytes) → contains b w ≡ false
      → scan (record (reading ts (tok v ty)) { inside = q }) (w ++ b ∷ rest)
        ≡ scan (reading ts (tok (v ++ w) ty)) rest
  unfolding scan step_in contains
  scan_within q b k [] v rest h = ground (arith, append-nil v)
  scan_within q b k (c ∷ w) v rest h =
      ground (arith, scan_within q b k w (v ++ c ∷ []) rest, append_assoc v (c ∷ []) w)

  pub scan_quoted :
      (w v rest : Bytes)
      → contains b'"' w ≡ false
      → scan (reading ts (tok v ty)) (b'"' ∷ (w ++ b'"' ∷ rest))
        ≡ scan (reading ts (tok (v ++ w) ty)) rest
  unfolding scan step_in
  scan_quoted w v rest h = scan_within quotes b'"' (inl (refl, refl)) w v rest h

  pub scan_single_quoted :
      (w v rest : Bytes)
      → contains b'\'' w ≡ false
      → scan (reading ts (tok v ty)) (b'\'' ∷ (w ++ b'\'' ∷ rest))
        ≡ scan (reading ts (tok (v ++ w) ty)) rest
  unfolding scan step_in
  scan_single_quoted w v rest h = scan_within s_quotes b'\'' (inr (refl, refl)) w v rest h

  in_block : Bytes → Lexer
  in_block v = record (reading ts (tok v ty)) { inside = triangles }

  step-in_block :
      (c : ℕ) (w v rest : Bytes)
      → has_pair b'>' (c ∷ w) ≡ false
      → step_in triangles (in_block v) c (w ++ (codes "\n>>" ++ rest)) ≡ in_block (v ++ c ∷ [])
  unfolding step_in in_block has_pair
  step-in_block c w v rest h = ground (arith, starts_with-append b'>' w (codes "\n>>" ++ rest) refl)

  scan-in_block :
      (w v rest : Bytes)
      → has_pair b'>' w ≡ false
      → scan (in_block v) (w ++ (codes "\n>>" ++ rest))
        ≡ scan (reading ts (tok (v ++ (w ++ codes "\n>>")) ty)) rest
  unfolding scan step_in in_block
  scan-in_block [] v rest h = simp append_assoc
  scan-in_block (c ∷ w) v rest h =
      ap (λ s. scan s (w ++ (codes "\n>>" ++ rest))) (step-in_block c w v rest h)
      ∙ scan-in_block w (v ++ c ∷ []) rest (unfold has_pair in ground arith)
      ∙ ap (λ x. scan (reading ts (tok x ty)) rest) (append_assoc v (c ∷ []) (w ++ codes "\n>>"))

  -- A block keeps its delimiters in the token.
  pub scan_block :
      (w v rest : Bytes)
      → has_pair b'>' w ≡ false
      → scan (reading ts (tok v ty)) (codes "<<\n" ++ (w ++ (codes "\n>>" ++ rest)))
        ≡ scan (reading ts (tok (v ++ (codes "<<\n" ++ (w ++ codes "\n>>"))) ty)) rest
  unfolding scan step_in in_block
  scan_block w v rest h =
      scan-in_block w (((v ++ b'<' ∷ []) ++ b'<' ∷ []) ++ b'\n' ∷ []) rest h
      ∙ ap (λ x. scan (reading ts (tok x ty)) rest) (simp append_assoc)

module _ (ts : List Token) where
  step-raw_byte :
      (c : ℕ) (w v rest : Bytes)
      → is_raw (c ∷ w) ≡ true
      → is_empty v ≡ false
      → starts_with b'<' rest ≡ false
      → Adds ts v arg c (w ++ rest)
  unfolding step_in is_raw
  step-raw_byte c w v rest h ne r = ground (arith, starts_with-append b'<' w rest r)

  pub scan-is_raw :
      (w v rest : Bytes)
      → is_raw w ≡ true
      → is_empty v ≡ false
      → starts_with b'<' rest ≡ false
      → scan (reading ts (tok v arg)) (w ++ rest) ≡ scan (reading ts (tok (v ++ w) arg)) rest
  unfolding is_raw
  scan-is_raw [] v rest h ne r = rw append-nil
  scan-is_raw (c ∷ w) v rest h ne r =
      scan-Adds ts arg c w v rest (step-raw_byte c w v rest h ne r)
        (scan-is_raw w (v ++ c ∷ []) rest (ground arith) (concat-is_empty v c) r)
