-- ===== src/Wire/Reparse.antt =====
-- spore_c/source/spore_c.cpp, `parseRaw`, on a serialized line: the head is one token, and every item
-- behind it another.
use mathlib.Core.Path.{subst}
use spore_client_libs.Base.{
  true, false, List, [], ◌∷◌, ◌++◌, Option, some, ◌≡◌, refl, sym, ap, ◌∙◌, arith, All, append_assoc,
  drop_last-concat,
}
use spore_client_libs.Base.Text.{Bytes, codes, is_empty, contains, contains-append}
use spore_client_libs.Parser.Lexer.{Token, TokenType, step_in, scan, initial, finish, tokenize}
use spore_client_libs.Parser.Message
use spore_client_libs.Parser.Build.{ParserType, Parser, new_parser, is_publish, build_token, build}
use spore_client_libs.Parser.Validate.{restart}
use spore_client_libs.Parser.Api.{spore_parse}
use spore_client_libs.Wire.Items.{
  Item, arg, quoted, plain, flag, handle, IsItem, IsWord, IsText, all_word, is_word_byte, item_text,
  items_text, item_tokens,
}
use spore_client_libs.Wire.Scan.{reading, tok, scan-IsKey, scan-all_word}
use spore_client_libs.Wire.ScanItems.{value_text, arg_text-value_text, finish-items_text}
use spore_client_libs.Wire.Rebuild.{
  contains-all_word, add_items, build-item_tokens, ends_with-concat,
}
use spore_client_libs.Wire.Raw.{strip_cr, strip_end, parse_raw}

-- The head of a line is read as one token.
pub record IsHead (head : Bytes) (ty : TokenType) : Type 0 where
  pub ne_nil : is_empty head ≡ false
  pub no_return : contains b'\r' head ≡ false
  pub scans :
      (rest : Bytes) → scan (initial []) (head ++ rest) ≡ scan (reading [] (tok head ty)) rest

no_return-all_word : (s : Bytes) → all_word s ≡ true → contains b'\r' s ≡ false
no_return-all_word s h = contains-all_word b'\r' s (unfold is_word_byte in refl) h

pub word-IsHead : (s : Bytes) → IsWord s → IsHead s TokenType.none
word-IsHead s h = record {
  ne_nil = h.0;
  no_return = no_return-all_word s h.1.0;
  scans = λ rest. scan-IsKey [] TokenType.none s rest h.1;
}

all_word-append : (s t : Bytes) → all_word s ≡ true → all_word t ≡ true → all_word (s ++ t) ≡ true
unfolding all_word
all_word-append [] t h k = k
all_word-append (c ∷ s) t h k = ground (arith, all_word-append s t)

colon : (c : Bytes) → all_word c ≡ true → all_word (b':' ∷ c) ≡ true
unfolding all_word
colon c h = h

-- `~handle:command`
pub reply-IsHead :
    (h c : Bytes)
    → all_word h ≡ true
    → all_word c ≡ true
    → IsHead (b'~' ∷ (h ++ (b':' ∷ c))) TokenType.handle
unfolding contains
reply-IsHead h c wh wc = record {
  ne_nil = refl;
  no_return = simp (contains-append, no_return-all_word h wh, no_return-all_word c wc);
  scans = λ rest.
      unfold scan step_in in
      scan-all_word [] TokenType.handle (h ++ (b':' ∷ c)) (b'~' ∷ []) rest
        (all_word-append h (b':' ∷ c) wh (colon c wc)) refl;
}

no_return-value_text : (v : Bytes) → IsText v → contains b'\r' (value_text v) ≡ false
unfolding value_text contains
no_return-value_text v h = ground (
  arith,
  h.no_return,
  contains-append b'\r' v (codes "\n>>"),
  contains-append b'\r' v (codes "'"),
  contains-append b'\r' v (codes "\""),
)

no_return-item_text : (x : Item) → IsItem x → contains b'\r' (item_text x) ≡ false
unfolding contains
no_return-item_text (arg k v) h =
    rw arg_text-value_text
      (simp (contains-append, no_return-all_word k h.0.0, no_return-value_text v h.1.0))
no_return-item_text (quoted k v) h =
    simp (contains-append, no_return-all_word k h.0.0, h.1.0.no_return)
no_return-item_text (plain k v) h =
    simp (contains-append, no_return-all_word k h.0.0, h.1.0.no_return)
no_return-item_text (flag f) h = no_return-all_word f h.1.0
no_return-item_text (handle n) h = no_return-all_word n h

no_return-items_text : (xs : List Item) → All IsItem xs → contains b'\r' (items_text xs) ≡ false
unfolding contains
no_return-items_text [] h = refl
no_return-items_text (x ∷ xs) h =
    simp (contains-append, no_return-item_text x h.0, no_return-items_text xs h.1)

pub strip_cr-id : (s : Bytes) → contains b'\r' s ≡ false → strip_cr s ≡ s
unfolding strip_cr contains
strip_cr-id [] h = refl
strip_cr-id (c ∷ s) h = ground (arith, strip_cr-id s)

strip_end-concat : (s : Bytes) → strip_end (s ++ codes "\n") ≡ s
unfolding strip_end
strip_end-concat s = rw (ends_with-concat s b'\n') (drop_last-concat s b'\n')

tokenize_line :
    (head : Bytes) (ty : TokenType) (xs : List Item)
    → IsHead head ty
    → All IsItem xs
    → tokenize (head ++ items_text xs) [] ≡ tok head ty ∷ item_tokens xs
unfolding tokenize
tokenize_line head ty xs h all =
    ap finish (h.scans (items_text xs)) ∙ finish-items_text xs [] head ty h.ne_nil all

-- The raw text is parsed to the message `m`, with the type `ty`.
abbrev pub Reparsed : Bytes → ParserType → Message.Message → Type 0
Reparsed raw ty m = (p : Parser) × (parse_raw raw ≡ (some p, some m)) × (p.type ≡ ty)

pub parse_raw-line :
    (s : Bytes)
    → contains b'\r' s ≡ false
    → parse_raw (s ++ codes "\n") ≡ spore_parse (some new_parser) (some s) (some Message.empty)
unfolding parse_raw contains
parse_raw-line s h =
    ap (λ t. spore_parse (some new_parser) (some t) (some Message.empty))
      (ap strip_end (strip_cr-id (s ++ codes "\n") (rw contains-append (ground arith)))
        ∙ strip_end-concat s)

-- What `parseRaw` returns when the tokens are those.
abbrev pub outcome : Bytes → List Token → Option Parser × Option Message.Message
outcome s ts = let (p, m) = build 0 ts (restart new_parser s) Message.empty in (some p, some m)

spore_parse-outcome :
    (s : Bytes)
    → spore_parse (some new_parser) (some s) (some Message.empty) ≡ outcome s (tokenize s [])
unfolding spore_parse
spore_parse-outcome s = refl

-- The tokens of a whole line.
pub parse_raw_tokens :
    (head : Bytes) (ty : TokenType) (xs : List Item)
    → IsHead head ty
    → All IsItem xs
    → parse_raw (head ++ (items_text xs ++ codes "\n"))
      ≡ outcome (head ++ items_text xs) (tok head ty ∷ item_tokens xs)
parse_raw_tokens head ty xs h all =
    let clean : contains b'\r' (head ++ items_text xs) ≡ false =
      rw contains-append (ground (arith, h.no_return, no_return-items_text xs all)) in
    let s = head ++ items_text xs in
    ap parse_raw (sym (append_assoc head (items_text xs) (codes "\n")))
    ∙ parse_raw-line s clean
    ∙ spore_parse-outcome s
    ∙ ap (outcome s) (tokenize_line head ty xs h all)

-- The first token, by `build`.
abbrev first_of_line : Bytes → TokenType → List Item → Parser × Message.Message
first_of_line head ty xs =
    build_token 0 (tok head ty) (restart new_parser (head ++ items_text xs)) Message.empty

reparse :
    (head : Bytes) (ty : TokenType) (xs : List Item)
    → IsHead head ty
    → All IsItem xs
    → is_publish (first_of_line head ty xs).0.type ≡ false
    → Reparsed
        (head ++ (items_text xs ++ codes "\n"))
        (first_of_line head ty xs).0.type
        (add_items (first_of_line head ty xs).1 xs)
unfolding build
reparse head ty xs h all n =
    let f = first_of_line head ty xs in
    let r = build 1 (item_tokens xs) f.0 f.1 in
    let (same, added) = build-item_tokens xs 0 f.0 f.1 all (ground arith) in
    (r.0, parse_raw_tokens head ty xs h all ∙ ap (λ m. (some r.0, some m)) added, same)

-- The same from what the first token gives: a message of type `t`, and `m` so far.
pub reparse_from :
    (head : Bytes) (ty : TokenType) (xs : List Item) (t : ParserType) (m : Message.Message)
    → IsHead head ty
    → All IsItem xs
    → ((p : Parser) → build_token 0 (tok head ty) p Message.empty ≡ (record p { type = t }, m))
    → is_publish t ≡ false
    → Reparsed (head ++ (items_text xs ++ codes "\n")) t (add_items m xs)
reparse_from head ty xs t m h all first n =
    let e = first (restart new_parser (head ++ items_text xs)) in
    let raw = head ++ (items_text xs ++ codes "\n") in
    subst (λ f. Reparsed raw f.0.type (add_items f.1 xs)) e
      (reparse head ty xs h all (ap (λ f. is_publish f.0.type) e ∙ n))
