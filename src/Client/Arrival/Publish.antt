-- ===== src/Client/Arrival/Publish.antt =====
-- spore_c/source/client.cpp, `listen`: a publication that arrives.
use spore_client_libs.Base.{[], ◌++◌, some, ◌≡◌, refl, ap, ◌∙◌}
use spore_client_libs.Base.Text.{Bytes, codes}
use spore_client_libs.Parser.Build.{publish}
use spore_client_libs.Parser.Accepts.{IsWellFormed}
use spore_client_libs.Parser.Api.{spore_message_get_capability, data_or_null}
use spore_client_libs.Wire.Message.{Publish, publish_text}
use spore_client_libs.Wire.Items.{is_word_byte}
use spore_client_libs.Wire.Rebuild.{contains-all_word}
use spore_client_libs.Wire.Sorted.{assign_all-IsSorted}
use spore_client_libs.Wire.SortedSet.{insert_all-IsSortedSet}
use spore_client_libs.Wire.Populate.{
  args_of-some, flags_of-some, add_args-assign_all, add_flags-insert_all, CleanArgs-carried,
  or_empty-data_or_null, no_zero-all_word,
}
use spore_client_libs.Wire.RoundTrip.Publish.{
  IsSendable, parsed, publish-Reparsed, topic_of-or_empty,
}
use spore_client_libs.Client.State.{Client}
use spore_client_libs.Client.Dispatch.{on_publish, call_all, publish_from, dispatch, handle_line}
use spore_client_libs.Client.Arrival.{IsCollected, handle_line-Reparsed}

-- What the handlers are handed.
abbrev pub arrived : Bytes → Publish → Publish
arrived raw p = record p {
  message = record p.message { command = []; handle = []; raw = raw; serialized = [] };
}

publish_from-parsed :
    (raw : Bytes) (p : Publish) → IsSendable p → publish_from raw (some (parsed p)) ≡ arrived raw p
unfolding publish_from spore_message_get_capability
publish_from-parsed raw p h = simp (
  topic_of-or_empty (data_or_null p.topic),
  args_of-some (parsed p) (CleanArgs-carried p.args h.args.carried),
  flags_of-some (parsed p) h.flags.carried,
  add_args-assign_all,
  add_flags-insert_all,
  assign_all-IsSorted p.args h.args.sorted,
  insert_all-IsSortedSet p.flags h.flags.sorted,
  or_empty-data_or_null p.topic (no_zero-all_word p.topic h.topic.1.0),
)

parsed-IsWellFormed : (p : Publish) → IsSendable p → IsWellFormed publish (parsed p)
parsed-IsWellFormed p h = (
  h.topic.0,
  contains-all_word b'=' p.topic (unfold is_word_byte in refl) h.topic.1.0,
  h.topic.1.1,
)

pub handle_line-publish_text :
    (c : Client) (p : Publish) (line raw : Bytes)
    → IsSendable p
    → publish_text p ≡ line ++ codes "\n"
    → IsCollected line
    → handle_line c line raw
      ≡ some (call_all (λ fn. on_publish fn (arrived raw p)) c.publish_handlers)
unfolding dispatch
handle_line-publish_text c p line raw h text l =
    handle_line-Reparsed c line raw (publish_text p) publish (parsed p) (publish-Reparsed p h) text
      l (parsed-IsWellFormed p h)
    ∙ ap (λ m. some (call_all (λ fn. on_publish fn m) c.publish_handlers))
        (publish_from-parsed raw p h)
