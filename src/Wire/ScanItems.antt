-- ===== src/Wire/ScanItems.antt =====
-- `parser::tokenize` of parser/source/parser.cpp on a whole line of serialized items.
use spore_client_libs.Base.{
  true, false, ◌||◌, List, [], ◌∷◌, ◌++◌, ◌≡◌, refl, ap, ◌∙◌, inl, inr, if◌then◌else◌, arith, All,
  Bool-cases, append_assoc,
}
use spore_client_libs.Base.Text.{Bytes, codes, is_empty, contains, starts_with}
use spore_client_libs.Parser.Lexer.{Token, TokenType, flush, step_in, scan, finish, close_in}
use spore_client_libs.Wire.Message.{arg_text}
use spore_client_libs.Wire.Items.{
  Item, arg, quoted, plain, flag, handle, IsKey, item_text, items_text, is_safe, IsItem, shown,
  item_token, item_tokens,
}
use spore_client_libs.Wire.Scan.{
  reading, tok, scan-all_word, scan-IsKey, scan_equals, scan_blank, scan_quoted, scan_single_quoted,
  scan_block, scan-is_raw, concat-is_empty,
}

-- What `serializeArg` writes behind the `=`.
unfoldable pub value_text : Bytes → Bytes
value_text v =
    if contains b'\n' v
    then codes "<<\n" ++ (v ++ codes "\n>>")
    else if contains b'"' v
    then b'\'' ∷ (v ++ codes "'")
    else if contains b' ' v || contains b'\t' v
    then b'"' ∷ (v ++ codes "\"")
    else v

pub arg_text-value_text : (k v : Bytes) → arg_text k v ≡ b' ' ∷ (k ++ (b'=' ∷ value_text v))
unfolding arg_text value_text
arg_text-value_text k v = ground arith

module _ (ts : List Token) (u rest v : Bytes) (ne : is_empty u ≡ false)
    (r : starts_with b'<' rest ≡ false) where
  scan-value_text :
      is_safe v ≡ true
      → scan (reading ts (tok u TokenType.arg)) (value_text v ++ rest)
        ≡ scan (reading ts (tok (u ++ shown v) TokenType.arg)) rest
  unfolding is_safe value_text
  scan-value_text h = elim (Bool-cases (contains b'\n' v)) [
    | inl block ↦ rw block (simp append_assoc (scan_block ts TokenType.arg v u rest (ground arith)))
    | inr line ↦ rw line (elim (Bool-cases (contains b'"' v)) [
      | inl q ↦
          rw q (simp append_assoc (scan_single_quoted ts TokenType.arg v u rest (ground arith)))
      | inr q ↦ rw q (elim (Bool-cases (contains b' ' v || contains b'\t' v)) [
        | inl b ↦ rw b (simp append_assoc (scan_quoted ts TokenType.arg v u rest q))
        | inr b ↦ rw b (scan-is_raw ts v u rest (ground arith) ne r)
      ])
    ])
  ]

items_text-starts_with : (xs : List Item) → starts_with b'<' (items_text xs) ≡ false
items_text-starts_with [] = refl
items_text-starts_with (arg k v ∷ xs) = rw (arg_text-value_text k v)
items_text-starts_with (flag f ∷ xs) = refl
items_text-starts_with (_ ∷ xs) = refl

-- In a token of an argument, `text` is read as `value`, with anything but a `<` behind it.
abbrev ReadsAs : Bytes → Bytes → Type 0
ReadsAs text value =
    (ts : List Token) (u rest : Bytes)
    → is_empty u ≡ false
    → starts_with b'<' rest ≡ false
    → scan (reading ts (tok u TokenType.arg)) (text ++ rest)
      ≡ scan (reading ts (tok (u ++ value) TokenType.arg)) rest

module _ (ts : List Token) (u : Bytes) (ty : TokenType) (rest : Bytes)
    (ne : is_empty u ≡ false) where
  abbrev us : List Token
  us = ts ++ tok u ty ∷ []

  -- A key, `=` and a value behind a blank.
  scan_pair :
      (k text value : Bytes)
      → starts_with b'<' rest ≡ false
      → IsKey k
      → ReadsAs text value
      → scan (reading ts (tok u ty)) (b' ' ∷ (k ++ (b'=' ∷ (text ++ rest))))
        ≡ scan (reading us (tok (k ++ (b'=' ∷ value)) TokenType.arg)) rest
  scan_pair k text value r h reads =
      scan_blank ts ty u (k ++ (b'=' ∷ (text ++ rest))) ne
      ∙ scan-IsKey us TokenType.none k (b'=' ∷ (text ++ rest)) h
      ∙ scan_equals us TokenType.none k (text ++ rest)
      ∙ reads us (k ++ b'=' ∷ []) rest (concat-is_empty k b'=') r
      ∙ ap (λ t. scan (reading us (tok t TokenType.arg)) rest) (append_assoc k (b'=' ∷ []) value)

  -- One item ends the token `u`, and leaves its own token begun.
  scan-item_text :
      (x : Item)
      → starts_with b'<' rest ≡ false
      → IsItem x
      → scan (reading ts (tok u ty)) (item_text x ++ rest) ≡ scan (reading us (item_token x)) rest
  scan-item_text (flag f) r h =
      scan_blank ts ty u (f ++ rest) ne ∙ scan-IsKey us TokenType.none f rest h.1
  scan-item_text (handle n) r h =
      scan_blank ts ty u (b'~' ∷ (n ++ rest)) ne
      ∙ (unfold scan step_in in scan-all_word us TokenType.handle n (b'~' ∷ []) rest h refl)
  scan-item_text (arg k v) r h = rw arg_text-value_text (
      simp append_assoc (
        scan_pair k (value_text v) (shown v) r h.0
          (λ ts' u' rest' ne' r'. scan-value_text ts' u' rest' v ne' r' h.1.1)))
  scan-item_text (quoted k v) r h = simp append_assoc (
      simp append_assoc at (
        scan_pair k (b'"' ∷ (v ++ codes "\"")) v r h.0
          (λ ts' u' rest' _ _. simp append_assoc (scan_quoted ts' TokenType.arg v u' rest' h.1.1))))
  scan-item_text (plain k v) r h =
      simp append_assoc
        (scan_pair k v v r h.0 (λ ts' u' rest' ne' r'. scan-is_raw ts' v u' rest' h.1.1 ne' r'))

pair-ne_nil : (k v : Bytes) → is_empty (k ++ (b'=' ∷ v)) ≡ false
pair-ne_nil [] v = refl
pair-ne_nil (c ∷ k) v = refl

item_token-ne_nil : (x : Item) → IsItem x → is_empty (item_token x).value ≡ false
item_token-ne_nil (arg k v) h = pair-ne_nil k (shown v)
item_token-ne_nil (quoted k v) h = pair-ne_nil k v
item_token-ne_nil (plain k v) h = pair-ne_nil k v
item_token-ne_nil (flag f) h = h.0
item_token-ne_nil (handle h) _ = refl

-- The tokens of a head that has been read and the items behind it.
pub finish-items_text :
    (xs : List Item) (ts : List Token) (u : Bytes) (ty : TokenType)
    → is_empty u ≡ false
    → All IsItem xs
    → finish (scan (reading ts (tok u ty)) (items_text xs)) ≡ ts ++ (tok u ty ∷ item_tokens xs)
finish-items_text [] ts u ty ne h = unfold scan flush close_in in rw (ne, flush)
finish-items_text (x ∷ xs) ts u ty ne h =
    ap finish (scan-item_text ts u ty (items_text xs) ne x (items_text-starts_with xs) h.0)
    ∙ finish-items_text xs (ts ++ tok u ty ∷ []) (item_token x).value (item_token x).type
        (item_token-ne_nil x h.0) h.1
    ∙ append_assoc ts (tok u ty ∷ []) (item_token x ∷ item_tokens xs)
