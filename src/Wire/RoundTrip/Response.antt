-- ===== src/Wire/RoundTrip/Response.antt =====
-- `Response::serialize` and `spore_response_create_from_raw`.
use spore_client_libs.Base.{
  true, false, List, [], ◌∷◌, ◌++◌, some, ◌≡◌, refl, ap, ◌∙◌, arith, All, All-append, append_assoc,
}
use spore_client_libs.Base.Text.{Bytes, codes, is_empty, contains}
use spore_client_libs.Parser.Lexer.{TokenType}
use spore_client_libs.Parser.Message
use spore_client_libs.Parser.Build.{response}
use spore_client_libs.Wire.Map.{insert, member}
use spore_client_libs.Wire.Message.{Message, empty, response_text}
use spore_client_libs.Wire.Items.{Item, flag, items_text, IsItem, all_word}
use spore_client_libs.Wire.Sorted.{assign_all-IsSorted}
use spore_client_libs.Wire.SortedSet.{IsSortedSet, insert-IsSortedSet, member-insert, insert_all}
use spore_client_libs.Wire.SetEquality.{
  without, member-without, insert_all-keeps, member-insert_all, member-ext,
}
use spore_client_libs.Wire.Rebuild.{add_items}
use spore_client_libs.Wire.Reparse.{Reparsed, reply-IsHead, reparse_from}
use spore_client_libs.Wire.Populate.{
  arg_items, flag_items, AreArgs, AreFlags, items_text-append, serialize_args-items_text,
  add_items-append, add_items-arg_items, add_items-flag_items, args_of-some, flags_of-some,
  add_args-assign_all, add_flags-insert_all, CleanArgs-carried, or_empty-data_or_null,
  no_zero-all_word, populate_message-loops,
}
use spore_client_libs.Wire.Replies.{
  reply_token, reply_head-token, first_of_reply, serialize_other_flags-items_text, without-IsItem,
}
use spore_client_libs.Wire.Raw.{populate_message, response_of, spore_response_create_from_raw}

-- An ok response that the wire can carry. Without a handle it would be read as a request.
pub record IsSendable (r : Message) : Type 0 where
  pub named : is_empty r.handle ≡ false
  pub handle : all_word r.handle ≡ true
  pub no_colon : contains b':' r.handle ≡ false
  pub command : all_word r.command ≡ true
  pub args : AreArgs r.args
  pub flags : AreFlags r.flags

abbrev pub ok : Bytes
ok = codes "ok"

response_items : Message → List Item
response_items r = flag ok ∷ (flag_items (without ok r.flags) ++ arg_items r.args)

response_text-items :
    (r : Message)
    → is_empty r.handle ≡ false
    → response_text r ≡ reply_token r ++ (items_text (response_items r) ++ codes "\n")
unfolding response_text response_items
response_text-items r n =
    rw (response_text, reply_head-token r n)
      (simp (
        serialize_args-items_text, serialize_other_flags-items_text, items_text-append,
        append_assoc,
      ))

ok-IsItem : IsItem (flag ok)
unfolding all_word
ok-IsItem = (refl, (refl, refl))

pub flags-IsItem : (r : Message) → IsSendable r → All IsItem (flag_items (ok ∷ without ok r.flags))
flags-IsItem r h = (ok-IsItem, without-IsItem ok r.flags h.flags.carried)

response_items-IsItem : (r : Message) → IsSendable r → All IsItem (response_items r)
unfolding response_items
response_items-IsItem r h = (
  ok-IsItem,
  All-append IsItem (flag_items (without ok r.flags)) _ (without-IsItem ok r.flags h.flags.carried)
      h.args.carried,
)

abbrev pub parsed : Message → Message.Message
parsed r = record {
  capability = r.command;
  handle = r.handle;
  args = r.args;
  flags = ok ∷ without ok r.flags;
}

response_message :
    (r : Message)
    → add_items
        (record Message.empty { capability = r.command; handle = r.handle })
        (response_items r)
      ≡ parsed r
unfolding response_items
response_message r = simp (add_items-append, add_items-arg_items, add_items-flag_items)

pub response-Reparsed :
    (r : Message) → IsSendable r → Reparsed (response_text r) response (parsed r)
response-Reparsed r h =
    let read =
      reparse_from (reply_token r) TokenType.handle (response_items r) response
        (record Message.empty { capability = r.command; handle = r.handle })
        (reply-IsHead r.handle r.command h.handle h.command) (response_items-IsItem r h)
        (first_of_reply r h.handle h.command h.no_colon) refl in
    rw (← response_text-items r h.named, response_message r) at read

-- The flags are a set: that `ok` comes first makes no difference.
member-ok_first :
    (g : Bytes) (fs : List Bytes)
    → member g (insert_all (ok ∷ []) (without ok fs)) ≡ member g (insert ok fs)
unfolding member
member-ok_first g fs = ground (
  arith,
  member-insert_all g (ok ∷ []) (without ok fs),
  member-without ok g fs,
  member-insert ok g fs,
)

pub ok_first :
    (fs : List Bytes) → IsSortedSet fs → insert_all (ok ∷ []) (without ok fs) ≡ insert ok fs
ok_first fs s =
    member-ext (insert_all (ok ∷ []) (without ok fs)) (insert ok fs)
      (insert_all-keeps (ok ∷ []) (without ok fs) (tt, tt)) (insert-IsSortedSet ok fs s)
      (λ g. member-ok_first g fs)

response_of-Reparsed :
    (raw : Bytes) (m : Message.Message)
    → Reparsed raw response m
    → spore_response_create_from_raw (some raw)
      ≡ some (record (populate_message empty (some m) false) { raw = raw })
unfolding spore_response_create_from_raw
response_of-Reparsed raw m (p, e, t) = ap (response_of raw) e ∙ rw (t, response_of)

response-populated :
    (r : Message)
    → IsSendable r
    → populate_message empty (some (parsed r)) false ≡ record empty {
      command = r.command;
      handle = r.handle;
      args = r.args;
      flags = insert ok r.flags;
    }
unfolding insert_all insert
response-populated r h =
    populate_message-loops (parsed r)
    ∙ simp (
      args_of-some (parsed r) (CleanArgs-carried r.args h.args.carried),
      flags_of-some (parsed r) (flags-IsItem r h),
      or_empty-data_or_null r.command (no_zero-all_word r.command h.command),
      or_empty-data_or_null r.handle (no_zero-all_word r.handle h.handle),
      add_args-assign_all,
      add_flags-insert_all,
      assign_all-IsSorted r.args h.args.sorted,
      ok_first r.flags h.flags.sorted,
    )

-- The text of an ok response that the wire can carry is parsed to a response with the same command,
-- handle and arguments, and with its flags and `ok`.
pub create_from_raw-response_text :
    (r : Message)
    → IsSendable r
    → spore_response_create_from_raw (some (response_text r))
      ≡ some
          (record r { flags = insert (codes "ok") r.flags; raw = response_text r; serialized = [] })
create_from_raw-response_text r h =
    response_of-Reparsed (response_text r) (parsed r) (response-Reparsed r h)
    ∙ ap (λ (m : Message). some (record m { raw = response_text r })) (response-populated r h)
