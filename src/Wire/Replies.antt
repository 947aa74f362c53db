-- ===== src/Wire/Replies.antt =====
-- The first token of a reply, `~handle:command`, and the flags of replies.
use native.Mathlib.Numerals.{add-one}
use spore_client_libs.Base.{
  true, false, List, [], ◌∷◌, ◌++◌, ◌≡◌, refl, sym, ◌∙◌, All, take-length_append, append-nil,
  append_assoc, Bool-cases, inl, inr,
}
use spore_client_libs.Base.Text.{Bytes, codes, is_empty, equal, contains, find?-append, c_str}
use spore_client_libs.Parser.Lexer.{TokenType}
use spore_client_libs.Parser.Message
use spore_client_libs.Parser.Build.{Parser, response, build_handle, build_token}
use spore_client_libs.Wire.Message.{Message, reply_head, serialize_other_flags}
use spore_client_libs.Wire.Items.{IsItem, items_text, all_word}
use spore_client_libs.Wire.Rebuild.{c_str-all_word, drop-suc_append}
use spore_client_libs.Wire.Scan.{tok}
use spore_client_libs.Wire.SetEquality.{without}
use spore_client_libs.Wire.Populate.{flag_items}

abbrev pub reply_token : Message → Bytes
reply_token m = b'~' ∷ (m.handle ++ (b':' ∷ m.command))

pub reply_head-token : (m : Message) → is_empty m.handle ≡ false → reply_head m ≡ reply_token m
reply_head-token m h = rw h

build_handle-colon :
    (h c : Bytes) (m : Message.Message)
    → contains b':' h ≡ false
    → build_handle (b'~' ∷ (h ++ (b':' ∷ c))) m
      ≡ Message.set_capability (Message.set_handle m (c_str h)) (c_str c)
unfolding build_handle
build_handle-colon h c m n =
    rw (find?-append b':' h c n, build_handle, take-length_append h (b':' ∷ c))
      (rw (add-one, drop-suc_append h c b':') refl)

pub first_of_reply :
    (m : Message)
    → all_word m.handle ≡ true
    → all_word m.command ≡ true
    → contains b':' m.handle ≡ false
    → (p : Parser)
    → build_token 0 (tok (reply_token m) TokenType.handle) p Message.empty ≡ (
      record p { type = response },
      record Message.empty { capability = m.command; handle = m.handle },
    )
unfolding build_token
first_of_reply m wh wc n p =
    rw
      (
        build_handle-colon m.handle m.command Message.empty n,
        c_str-all_word m.handle wh,
        c_str-all_word m.command wc,
      )
      refl

pub serialize_other_flags-items_text :
    (s : Bytes) (fs : List Bytes)
    → serialize_other_flags s fs ≡ s ++ items_text (flag_items (without (codes "ok") fs))
unfolding serialize_other_flags
serialize_other_flags-items_text s [] = sym (append-nil s)
serialize_other_flags-items_text s (f ∷ fs) = elim (Bool-cases (equal f (codes "ok"))) [
  | inl e ↦ rw (serialize_other_flags, without, e) (serialize_other_flags-items_text s fs)
  | inr e ↦
      rw (serialize_other_flags, without, e)
        (serialize_other_flags-items_text (s ++ (b' ' ∷ f)) fs ∙ append_assoc s (b' ' ∷ f) _)
]

pub without-IsItem :
    (f : Bytes) (fs : List Bytes)
    → All IsItem (flag_items fs)
    → All IsItem (flag_items (without f fs))
without-IsItem f [] h = tt
without-IsItem f (g ∷ fs) h = elim (Bool-cases (equal g f)) [
  | inl e ↦ rw (without, e) (without-IsItem f fs h.1)
  | inr e ↦ rw (without, e) (h.0, without-IsItem f fs h.1)
]
