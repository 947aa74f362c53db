-- ===== src/Client/Arrival/Witness.antt =====
-- spore_c/source/client.cpp, `listen`: a witness message that arrives.
use spore_client_libs.Base.{true, false, [], ◌∷◌, ◌++◌, some, ◌≡◌, refl, ap, ◌∙◌, arith}
use spore_client_libs.Base.Text.{Bytes, codes, is_empty, equal}
use spore_client_libs.Parser.Build.{witness}
use spore_client_libs.Parser.Contents.{has_key}
use spore_client_libs.Wire.Map.{Map}
use spore_client_libs.Wire.Message.{Witness, witness_text}
use spore_client_libs.Wire.Sorted.{assign_all-IsSorted}
use spore_client_libs.Wire.SortedSet.{insert_all-IsSortedSet}
use spore_client_libs.Wire.Populate.{
  args_of-some, flags_of-some, add_flags-insert_all, CleanArgs-carried,
}
use spore_client_libs.Wire.RoundTrip.Witness.{
  IsSendable, parsed, body_args, witness-Reparsed, CleanArgs-body_args, add_witness_args-Lacks,
  add_witness_args-body_args,
}
use spore_client_libs.Client.State.{Client}
use spore_client_libs.Client.Dispatch.{on_witness, call_all, witness_from, dispatch, handle_line}
use spore_client_libs.Client.Arrival.{IsCollected, handle_line-Reparsed}

-- What the handlers are handed.
abbrev pub arrived : Bytes → Witness → Witness
arrived raw w = record w {
  message = record w.message { command = []; handle = []; raw = raw; serialized = [] };
}

witness_from-parsed :
    (raw : Bytes) (w : Witness) → IsSendable w → witness_from raw (some (parsed w)) ≡ arrived raw w
unfolding witness_from
witness_from-parsed raw w h =
    let clean =
      CleanArgs-body_args w.body w.args h.body.0.no_zero
        (CleanArgs-carried w.args h.args.carried) in
    simp (
      args_of-some (parsed w) clean,
      flags_of-some (parsed w) h.flags.carried,
      add_witness_args-body_args _ w.body w.args refl,
      add_witness_args-Lacks _ w.args h.other_keys,
      add_flags-insert_all,
      assign_all-IsSorted w.args h.args.sorted,
      insert_all-IsSortedSet w.flags h.flags.sorted,
    )

has_key-body_args :
    (b : Bytes) (a : Map) → is_empty b ≡ false → has_key (codes "body") (body_args b ++ a) ≡ true
unfolding has_key equal
has_key-body_args [] a h = absurd (ground (arith, h))
has_key-body_args (x ∷ b) a h = refl

pub handle_line-witness_text :
    (c : Client) (w : Witness) (line raw : Bytes)
    → IsSendable w
    → is_empty w.body ≡ false
    → witness_text w ≡ line ++ codes "\n"
    → IsCollected line
    → handle_line c line raw
      ≡ some (call_all (λ fn. on_witness fn (arrived raw w)) c.witness_handlers)
unfolding dispatch
handle_line-witness_text c w line raw h told text l =
    handle_line-Reparsed c line raw (witness_text w) witness (parsed w) (witness-Reparsed w h) text
      l (has_key-body_args w.body w.args told)
    ∙ ap (λ m. some (call_all (λ fn. on_witness fn m) c.witness_handlers))
        (witness_from-parsed raw w h)
