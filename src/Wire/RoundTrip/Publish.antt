-- ===== src/Wire/RoundTrip/Publish.antt =====
-- `Publish::serialize` and `spore_publish_create_from_raw`.
use spore_client_libs.Base.{
  true, false, List, ◌∷◌, ◌++◌, Option, none, some, ◌≡◌, refl, ap, ◌∙◌, All, All-append,
  append_assoc,
}
use spore_client_libs.Base.Text.{Bytes, codes, is_empty, equal}
use spore_client_libs.Parser.Lexer.{TokenType}
use spore_client_libs.Parser.Message
use spore_client_libs.Parser.Build.{Parser, publish, build, new_parser}
use spore_client_libs.Parser.Validate.{restart}
use spore_client_libs.Wire.Message.{Publish, empty, publish_text}
use spore_client_libs.Wire.Sorted.{assign_all-IsSorted}
use spore_client_libs.Wire.SortedSet.{insert_all-IsSortedSet}
use spore_client_libs.Wire.Items.{Item, flag, items_text, item_tokens, IsItem, IsWord, all_word}
use spore_client_libs.Wire.Scan.{tok}
use spore_client_libs.Wire.Rebuild.{add_items, build-item_tokens, c_str-all_word}
use spore_client_libs.Wire.Reparse.{word-IsHead, Reparsed, outcome, parse_raw_tokens}
use spore_client_libs.Wire.Populate.{
  arg_items, flag_items, AreArgs, AreFlags, items_text-append, serialize_args-items_text,
  serialize_flags-items_text, add_items-append, add_items-arg_items, add_items-flag_items,
  args_of-some, flags_of-some, add_args-assign_all, add_flags-insert_all, CleanArgs-carried,
  or_empty-data_or_null, no_zero-all_word,
}
use spore_client_libs.Parser.Api.{data_or_null}
use spore_client_libs.Wire.Raw.{
  or_empty, parse_raw, topic_of, args_of, flags_of, add_args, add_flags, publish_of,
  spore_publish_create_from_raw,
}

-- A publication that the wire can carry. Without a topic its first argument would be read as one.
pub record IsSendable (p : Publish) : Type 0 where
  pub topic : IsWord p.topic
  pub args : AreArgs p.args
  pub flags : AreFlags p.flags

rest_items : Publish → List Item
rest_items p = arg_items p.args ++ flag_items p.flags

publish_text-items :
    (p : Publish)
    → is_empty p.topic ≡ false
    → publish_text p ≡ codes "publish" ++ (items_text (flag p.topic ∷ rest_items p) ++ codes "\n")
unfolding publish_text rest_items
publish_text-items p ne =
    rw (ne, publish_text)
      (simp
        (serialize_flags-items_text, serialize_args-items_text, items_text-append, append_assoc))

publish-IsWord : IsWord (codes "publish")
unfolding all_word
publish-IsWord = (refl, (refl, refl))

rest_items-IsItem : (p : Publish) → IsSendable p → All IsItem (rest_items p)
unfolding rest_items
rest_items-IsItem p h = All-append IsItem (arg_items p.args) _ h.args.carried h.flags.carried

abbrev pub parsed : Publish → Message.Message
parsed p = record Message.empty { capability = p.topic; args = p.args; flags = p.flags }

rest_message :
    (p : Publish)
    → add_items (record Message.empty { capability = p.topic }) (rest_items p) ≡ parsed p
unfolding rest_items
rest_message p = simp (add_items-append, add_items-arg_items, add_items-flag_items)

-- The parser at the third token: the first has set the type, and the second the topic.
abbrev at_rest : Bytes → Parser
at_rest s = record (restart new_parser s) { type = publish }

abbrev after_topic : Bytes → Bytes → List Item → Parser × Message.Message
after_topic s topic xs =
    build 2 (item_tokens xs) (at_rest s) (record Message.empty { capability = topic })

abbrev both : Parser × Message.Message → Option Parser × Option Message.Message
both (p, m) = (some p, some m)

outcome-topic :
    (s topic : Bytes) (xs : List Item)
    → all_word topic ≡ true
    → outcome s (tok (codes "publish") TokenType.none ∷ tok topic TokenType.none ∷ item_tokens xs)
      ≡ both (after_topic s topic xs)
unfolding build equal
outcome-topic s topic xs h = ap (λ t. both (after_topic s t xs)) (c_str-all_word topic h)

pub publish-Reparsed : (p : Publish) → IsSendable p → Reparsed (publish_text p) publish (parsed p)
publish-Reparsed p h =
    let xs = rest_items p in
    let s = codes "publish" ++ items_text (flag p.topic ∷ xs) in
    let m = record Message.empty { capability = p.topic } in
    let (same, added) = build-item_tokens xs 1 (at_rest s) m (rest_items-IsItem p h) refl in
    let r = after_topic s p.topic xs in
    let tokens =
      parse_raw_tokens (codes "publish") TokenType.none (flag p.topic ∷ xs)
        (word-IsHead (codes "publish") publish-IsWord) (h.topic, rest_items-IsItem p h) in
    (
      r.0,
      ap parse_raw (publish_text-items p h.topic.0)
          ∙ tokens
          ∙ outcome-topic s p.topic xs h.topic.1.0
          ∙ ap (λ m'. both (r.0, m')) (added ∙ rest_message p),
      same,
    )

pub topic_of-or_empty : (o : Option Bytes) → topic_of o ≡ or_empty o
topic_of-or_empty none = refl
topic_of-or_empty (some s) = refl

publish_of-Reparsed :
    (raw : Bytes) (m : Message.Message)
    → Reparsed raw publish m
    → spore_publish_create_from_raw (some raw)
      ≡ some (record {
        message =
            add_flags
              (add_args false (record empty { raw = raw }) (args_of (some m)))
              (flags_of (some m));
        topic = or_empty (data_or_null m.capability);
      })
unfolding spore_publish_create_from_raw
publish_of-Reparsed raw m (p, e, t) =
    ap (publish_of raw) e
    ∙ rw (t, publish_of)
        (ap
          (λ (topic : Bytes). some (record {
            message =
                add_flags (add_args false (record empty { raw = raw }) (args_of (some m)))
                  (flags_of (some m));
            topic = topic;
          }))
          (topic_of-or_empty (data_or_null m.capability)))

-- The text of a publication that the wire can carry is parsed to one with the same topic, arguments
-- and flags. The command and the handle are not sent.
pub create_from_raw-publish_text :
    (p : Publish)
    → IsSendable p
    → spore_publish_create_from_raw (some (publish_text p))
      ≡ some (record {
        message = record empty { args = p.args; flags = p.flags; raw = publish_text p };
        topic = p.topic;
      })
create_from_raw-publish_text p h =
    publish_of-Reparsed (publish_text p) (parsed p) (publish-Reparsed p h)
    ∙ simp (
      args_of-some (parsed p) (CleanArgs-carried p.args h.args.carried),
      flags_of-some (parsed p) h.flags.carried,
      add_args-assign_all,
      add_flags-insert_all,
      assign_all-IsSorted p.args h.args.sorted,
      insert_all-IsSortedSet p.flags h.flags.sorted,
      or_empty-data_or_null p.topic (no_zero-all_word p.topic h.topic.1.0),
    )
