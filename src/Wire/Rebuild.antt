-- ===== src/Wire/Rebuild.antt =====
-- `parser::build` of parser/source/parser.cpp on the tokens of serialized items: the message gets
-- the arguments and flags that were written.
use native.Mathlib.Numerals.{add-one}
use spore_client_libs.Base.{
  ℕ, suc, ◌-◌, true, false, ◌&&◌, List, [], ◌∷◌, ◌++◌, ◌==◌, ◌≡◌, refl, sym, ap, ◌∙◌, inl, inr,
  arith, All, Bool-cases, append_assoc, length, take, drop, drop_last, take-length_append,
  length-append, get_last?-concat, drop_last-concat,
}
use spore_client_libs.Base.Text.{Bytes, codes, contains, find?-append, c_str, c_str-id}
use spore_client_libs.Parser.Lexer.{TokenType}
use spore_client_libs.Parser.Message
use spore_client_libs.Parser.Build.{
  Parser, is_block, strip_block, trim_front, trim_back, ends_with, key_of, value_of, is_publish,
  build_part, build,
}
use spore_client_libs.Wire.Items.{
  Item, arg, quoted, plain, flag, handle, IsKey, is_word_byte, all_word, is_raw, is_safe, IsItem,
  shown, item_token, item_tokens,
}

pub contains-all_word :
    (c : ℕ) (s : Bytes) → is_word_byte c ≡ false → all_word s ≡ true → contains c s ≡ false
unfolding contains all_word
contains-all_word c [] n h = refl
contains-all_word c (x ∷ s) n h = ground (arith, contains-all_word c s n)

key_of-append : (k w : Bytes) → contains b'=' k ≡ false → key_of (k ++ (b'=' ∷ w)) ≡ k
unfolding key_of
key_of-append k w h = rw (find?-append b'=' k w h, key_of) (take-length_append k (b'=' ∷ w))

pub drop-suc_append : (k w : Bytes) (c : ℕ) → drop (suc (length k)) (k ++ (c ∷ w)) ≡ w
drop-suc_append [] w c = refl
drop-suc_append (x ∷ k) w c = drop-suc_append k w c

value_of-append : (k w : Bytes) → contains b'=' k ≡ false → value_of (k ++ (b'=' ∷ w)) ≡ w
unfolding value_of
value_of-append k w h =
    rw (find?-append b'=' k w h, value_of) (rw add-one (drop-suc_append k w b'='))

pub ends_with-concat : (s : Bytes) (c : ℕ) → ends_with c (s ++ c ∷ []) ≡ true
unfolding ends_with
ends_with-concat s c = rw (get_last?-concat s c, ends_with) (ground arith)

module _ (w : Bytes) (c : ℕ) where
  concat_twice : w ++ (c ∷ c ∷ []) ≡ (w ++ c ∷ []) ++ c ∷ []
  concat_twice = sym (append_assoc w (c ∷ []) (c ∷ []))

  ends_with-concat_twice : ends_with c (w ++ (c ∷ c ∷ [])) ≡ true
  ends_with-concat_twice = rw concat_twice (ends_with-concat (w ++ c ∷ []) c)

  drop_last-concat_twice : drop_last (w ++ (c ∷ c ∷ [])) ≡ w ++ c ∷ []
  drop_last-concat_twice = rw concat_twice (drop_last-concat (w ++ c ∷ []) c)

-- The text between the delimiters of a block.
abbrev block : Bytes → Bytes
block w = b'<' ∷ b'<' ∷ (w ++ (b'>' ∷ b'>' ∷ []))

is_block-block : (w : Bytes) → is_block (block w) ≡ true
unfolding is_block
is_block-block w =
    let u : Bytes = b'<' ∷ b'<' ∷ w in
    ground (
      arith,
      ends_with-concat_twice u b'>',
      drop_last-concat_twice u b'>',
      ends_with-concat u b'>',
      length-append w (b'>' ∷ b'>' ∷ []),
    )

take-block : (w : Bytes) → take (length (block w) - 4) (drop 2 (block w)) ≡ w
take-block w =
    let n : length (block w) - 4 ≡ length w = omega (arith, length-append w (b'>' ∷ b'>' ∷ [])) in
    rw n (take-length_append w (b'>' ∷ b'>' ∷ []))

strip_block-is_block : (w : Bytes) → strip_block (block w) ≡ trim_back (trim_front w)
unfolding strip_block
strip_block-is_block w = rw (is_block-block w) (rw (take-block w))

trim_back-concat : (v : Bytes) → trim_back (v ++ b'\n' ∷ []) ≡ v
unfolding trim_back
trim_back-concat v = rw (ends_with-concat v b'\n') (drop_last-concat v b'\n')

-- A block loses its delimiters and the two newlines inside them.
strip_block-block : (v : Bytes) → strip_block (codes "<<\n" ++ (v ++ codes "\n>>")) ≡ v
unfolding trim_front
strip_block-block v =
    ap (λ w. strip_block (codes "<<\n" ++ w)) (sym (append_assoc v (codes "\n") (codes ">>")))
    ∙ strip_block-is_block (b'\n' ∷ (v ++ b'\n' ∷ []))
    ∙ trim_back-concat v

is_block-is_raw : (v : Bytes) → is_raw v ≡ true → is_block v ≡ false
unfolding is_block is_raw
is_block-is_raw [] h = refl
is_block-is_raw (x ∷ []) h = ground arith
is_block-is_raw (x ∷ y ∷ v) h = ground arith

strip_block-shown : (v : Bytes) → is_safe v ≡ true → strip_block (shown v) ≡ v
strip_block-shown v h = elim (Bool-cases (contains b'\n' v)) [
  | inl b ↦ rw b (strip_block-block v)
  | inr b ↦ rw b (unfold is_safe strip_block in ground (arith, is_block-is_raw v))
]

-- What `build` adds to a message for the items.
abbrev pub add_item : Message.Message → Item → Message.Message
add_item m (arg k v) = Message.add_arg m k v
add_item m (quoted k v) = Message.add_arg m k v
add_item m (plain k v) = Message.add_arg m k v
add_item m (flag f) = Message.add_flag m f
add_item m (handle h) = Message.set_handle m h

abbrev pub add_items : Message.Message → List Item → Message.Message
add_items m [] = m
add_items m (x ∷ xs) = add_items (add_item m x) xs

pub c_str-all_word : (s : Bytes) → all_word s ≡ true → c_str s ≡ s
c_str-all_word s h = c_str-id s (contains-all_word 0 s (unfold is_word_byte in refl) h)

-- The token of a key and a value, which stands in the token as `text`.
build_part-pair :
    (k text v : Bytes) (p : Parser) (m : Message.Message)
    → IsKey k
    → strip_block text ≡ v
    → contains 0 v ≡ false
    → ((build_part TokenType.arg (k ++ (b'=' ∷ text)) p m).0.type ≡ p.type)
      × ((build_part TokenType.arg (k ++ (b'=' ∷ text)) p m).1 ≡ Message.add_arg m k v)
unfolding build_part
build_part-pair k text v p m h s n =
    let e = contains-all_word b'=' k (unfold is_word_byte in refl) h.0 in
    let value = ap strip_block (value_of-append k text e) ∙ s in
    (refl, rw (key_of-append k text e, c_str-all_word k h.0, value, c_str-id v n))

strip_block-id : (v : Bytes) → is_block v ≡ false → strip_block v ≡ v
unfolding strip_block
strip_block-id v h = rw h

build_part-item_token :
    (x : Item) (p : Parser) (m : Message.Message)
    → IsItem x
    → ((build_part (item_token x).type (item_token x).value p m).0.type ≡ p.type)
      × ((build_part (item_token x).type (item_token x).value p m).1 ≡ add_item m x)
unfolding build_part
build_part-item_token (flag f) p m h = (refl, rw (c_str-all_word f h.1.0))
build_part-item_token (handle n) p m h = (refl, rw (c_str-all_word n h))
build_part-item_token (arg k v) p m h =
    build_part-pair k (shown v) v p m h.0 (strip_block-shown v h.1.1) h.1.0.no_zero
build_part-item_token (quoted k v) p m h =
    build_part-pair k v v p m h.0 (strip_block-id v h.1.2) h.1.0.no_zero
build_part-item_token (plain k v) p m h =
    build_part-pair k v v p m h.0 (strip_block-id v (is_block-is_raw v h.1.1)) h.1.0.no_zero

-- The items behind the first token of a message, and behind the topic of a publish.
pub build-item_tokens :
    (xs : List Item) (i : ℕ) (p : Parser) (m : Message.Message)
    → All IsItem xs
    → (is_publish p.type && i == 0) ≡ false
    → ((build (suc i) (item_tokens xs) p m).0.type ≡ p.type)
      × ((build (suc i) (item_tokens xs) p m).1 ≡ add_items m xs)
unfolding build
build-item_tokens [] i p m h n = (refl, refl)
build-item_tokens (x ∷ xs) i p m h n =
    let r = build_part (item_token x).type (item_token x).value p m in
    let (same, added) = build_part-item_token x p m h.0 in
    let (same', added') = build-item_tokens xs (suc i) r.0 r.1 h.1 (ground arith) in
    rw (n, build) (same' ∙ same, added' ∙ ap (λ m'. add_items m' xs) added)
