-- ===== src/Wire/RoundTrip/ErrorItems.antt =====
-- `ResponseError::serialize`: the text of an error response as items, and what is parsed from them.
use spore_client_libs.Base.{
  true, false, not, List, [], ◌∷◌, ◌++◌, ◌≡◌, refl, sym, ap, All, All-append, append_assoc,
  append-nil, if◌then◌else◌,
}
use spore_client_libs.Base.Text.{Bytes, codes, is_empty, equal, contains}
use spore_client_libs.Parser.Lexer.{TokenType}
use spore_client_libs.Parser.Message
use spore_client_libs.Parser.Build.{response}
use spore_client_libs.Wire.Map.{Map}
use spore_client_libs.Wire.Message.{ResponseError, response_error_text}
use spore_client_libs.Wire.Items.{
  Item, flag, plain, quoted, items_text, IsItem, IsPlain, IsQuotable, all_word,
}
use spore_client_libs.Wire.Rebuild.{add_items}
use spore_client_libs.Wire.Reparse.{Reparsed, reply-IsHead, reparse_from}
use spore_client_libs.Wire.Populate.{
  arg_items, flag_items, AreArgs, AreFlags, items_text-append, serialize_args-items_text,
  serialize_flags-items_text, add_items-append, add_items-arg_items, add_items-flag_items,
}
use spore_client_libs.Wire.Replies.{reply_token, reply_head-token, first_of_reply}

-- No argument has a name that is a field of the error response.
abbrev pub AreOther : Map → Type 0
AreOther [] = Unit
AreOther ((k, v) ∷ a) =
    (equal k (codes "code") ≡ false) × (equal k (codes "what") ≡ false) × AreOther a

-- An error response that the wire can carry. The code is written as it is, the description in double
-- quotes.
pub record IsSendable (e : ResponseError) : Type 0 where
  pub named : is_empty e.handle ≡ false
  pub handle : all_word e.handle ≡ true
  pub no_colon : contains b':' e.handle ≡ false
  pub command : all_word e.command ≡ true
  pub code : IsPlain e.code
  pub what : IsQuotable e.what
  pub args : AreArgs e.args
  pub other : AreOther e.args
  pub flags : AreFlags e.flags

code_items : Bytes → List Item
code_items [] = []
code_items (c ∷ s) = plain (codes "code") (c ∷ s) ∷ []

what_items : Bytes → List Item
what_items [] = []
what_items (c ∷ s) = quoted (codes "what") (c ∷ s) ∷ []

end_items : List Bytes → List Item
end_items fs = flag_items fs ++ flag (codes "node_error") ∷ []

error_items : ResponseError → List Item
error_items e =
    flag (codes "error")
    ∷ (code_items e.code ++ (what_items e.what ++ (arg_items e.args ++ end_items e.flags)))

coded_items :
    (s code : Bytes)
    → (if not (is_empty code) then s ++ (codes " code=" ++ code) else s)
      ≡ s ++ items_text (code_items code)
unfolding code_items
coded_items s [] = sym (append-nil s)
coded_items s (c ∷ code) = rw append-nil

told_items :
    (s what : Bytes)
    → (if not (is_empty what) then s ++ (codes " what=\"" ++ (what ++ codes "\"")) else s)
      ≡ s ++ items_text (what_items what)
unfolding what_items
told_items s [] = sym (append-nil s)
told_items s (c ∷ what) = rw append-nil

error_text-items :
    (e : ResponseError)
    → is_empty e.handle ≡ false
    → response_error_text e ≡ reply_token e.message ++ (items_text (error_items e) ++ codes "\n")
unfolding response_error_text error_items end_items
error_text-items e n =
    rw
      (
        response_error_text,
        reply_head-token e.message n,
        coded_items (reply_token e.message ++ codes " error") e.code,
        told_items,
      )
      (simp
        (serialize_flags-items_text, serialize_args-items_text, items_text-append, append_assoc))

error-IsItem : IsItem (flag (codes "error"))
unfolding all_word
error-IsItem = (refl, (refl, refl))

code_items-IsItem : (s : Bytes) → IsPlain s → All IsItem (code_items s)
unfolding code_items all_word
code_items-IsItem [] h = tt
code_items-IsItem (c ∷ s) h = (((refl, refl), h), tt)

what_items-IsItem : (s : Bytes) → IsQuotable s → All IsItem (what_items s)
unfolding what_items all_word
what_items-IsItem [] h = tt
what_items-IsItem (c ∷ s) h = (((refl, refl), h), tt)

end_items-IsItem : (fs : List Bytes) → All IsItem (flag_items fs) → All IsItem (end_items fs)
unfolding end_items all_word
end_items-IsItem fs h = All-append IsItem (flag_items fs) _ h ((refl, (refl, refl)), tt)

error_items-IsItem : (e : ResponseError) → IsSendable e → All IsItem (error_items e)
unfolding error_items
error_items-IsItem e h = (
  error-IsItem,
  All-append IsItem (code_items e.code) _ (code_items-IsItem e.code h.code) (
      All-append IsItem (what_items e.what) _ (what_items-IsItem e.what h.what) (
        All-append IsItem (arg_items e.args) _ h.args.carried
          (end_items-IsItem e.flags h.flags.carried))),
)

-- The arguments as they are parsed: the two fields are among them.
abbrev pub code_args : Bytes → Map
code_args [] = []
code_args (c ∷ s) = (codes "code", c ∷ s) ∷ []

abbrev pub what_args : Bytes → Map
what_args [] = []
what_args (c ∷ s) = (codes "what", c ∷ s) ∷ []

abbrev pub end_flags : List Bytes → List Bytes
end_flags fs = codes "error" ∷ (fs ++ codes "node_error" ∷ [])

flag_items-append : (xs ys : List Bytes) → flag_items (xs ++ ys) ≡ flag_items xs ++ flag_items ys
flag_items-append [] ys = refl
flag_items-append (x ∷ xs) ys = ap (λ r. flag x ∷ r) (flag_items-append xs ys)

pub end_flags-IsItem :
    (fs : List Bytes) → All IsItem (flag_items fs) → All IsItem (flag_items (end_flags fs))
unfolding all_word end_items
end_flags-IsItem fs h = (
  (refl, (refl, refl)),
  rw (flag_items-append fs (codes "node_error" ∷ [])) (end_items-IsItem fs h),
)

abbrev pub parsed : ResponseError → Message.Message
parsed e = record {
  capability = e.command;
  handle = e.handle;
  args = code_args e.code ++ (what_args e.what ++ e.args);
  flags = end_flags e.flags;
}

add_items-code_items :
    (m : Message.Message) (s : Bytes)
    → add_items m (code_items s) ≡ record m { args = m.args ++ code_args s }
unfolding code_items
add_items-code_items m [] = rw append-nil
add_items-code_items m (c ∷ s) = refl

add_items-what_items :
    (m : Message.Message) (s : Bytes)
    → add_items m (what_items s) ≡ record m { args = m.args ++ what_args s }
unfolding what_items
add_items-what_items m [] = rw append-nil
add_items-what_items m (c ∷ s) = refl

error_message :
    (e : ResponseError)
    → add_items (record Message.empty { capability = e.command; handle = e.handle }) (error_items e)
      ≡ parsed e
unfolding error_items end_items
error_message e = simp (
  add_items-append, add_items-code_items, add_items-what_items, add_items-arg_items,
  add_items-flag_items, append_assoc,
)

pub error-Reparsed :
    (e : ResponseError) → IsSendable e → Reparsed (response_error_text e) response (parsed e)
error-Reparsed e h =
    let read =
      reparse_from (reply_token e.message) TokenType.handle (error_items e) response
        (record Message.empty { capability = e.command; handle = e.handle })
        (reply-IsHead e.handle e.command h.handle h.command) (error_items-IsItem e h)
        (first_of_reply e.message h.handle h.command h.no_colon) refl in
    rw (← error_text-items e h.named, error_message e) at read
