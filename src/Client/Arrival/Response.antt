-- ===== src/Client/Arrival/Response.antt =====
-- spore_c/source/client.cpp, `listen`: an ok response that arrives.
use spore_client_libs.Base.{true, false, List, [], ◌∷◌, ◌++◌, some, ◌≡◌, refl, ap, ◌∙◌, arith, inl}
use spore_client_libs.Base.Text.{Bytes, codes, is_empty, equal}
use spore_client_libs.Parser.Build.{response}
use spore_client_libs.Parser.Contents.{has}
use spore_client_libs.Parser.Api.{spore_message_get_capability, spore_message_get_handle}
use spore_client_libs.Wire.Map.{insert}
use spore_client_libs.Wire.Message.{Message, response_text}
use spore_client_libs.Wire.Sorted.{assign_all-IsSorted}
use spore_client_libs.Wire.SortedSet.{insert_all}
use spore_client_libs.Wire.SetEquality.{without}
use spore_client_libs.Wire.Populate.{
  args_of-some, flags_of-some, add_args-assign_all, add_flags-insert_all, CleanArgs-carried,
  or_empty-data_or_null, no_zero-all_word,
}
use spore_client_libs.Wire.Raw.{flags_of}
use spore_client_libs.Wire.RoundTrip.Response.{
  IsSendable, ok, parsed, response-Reparsed, flags-IsItem, ok_first,
}
use spore_client_libs.Client.State.{Client}
use spore_client_libs.Client.Dispatch.{
  on_response, call_all, message_of, is_error, dispatch, handle_line,
}
use spore_client_libs.Client.Arrival.{IsCollected, handle_line-Reparsed}

-- What the handlers are handed.
abbrev pub arrived : Bytes → Message → Message
arrived raw r = record r { flags = insert (codes "ok") r.flags; raw = raw; serialized = [] }

-- The client tells an error response by its flag.
pub is_error-has : (fs : List Bytes) → is_error fs ≡ has (codes "error") fs
unfolding is_error has
is_error-has [] = refl
is_error-has (f ∷ fs) = ground (arith, is_error-has fs)

has-without : (x f : Bytes) (fs : List Bytes) → has x fs ≡ false → has x (without f fs) ≡ false
unfolding has
has-without x f [] h = refl
has-without x f (g ∷ fs) h = ground (arith, has-without x f fs)

message_of-parsed :
    (raw : Bytes) (r : Message) → IsSendable r → message_of raw (some (parsed r)) ≡ arrived raw r
unfolding message_of spore_message_get_capability spore_message_get_handle insert_all insert
message_of-parsed raw r h = simp (
  args_of-some (parsed r) (CleanArgs-carried r.args h.args.carried),
  flags_of-some (parsed r) (flags-IsItem r h),
  or_empty-data_or_null r.command (no_zero-all_word r.command h.command),
  or_empty-data_or_null r.handle (no_zero-all_word r.handle h.handle),
  add_args-assign_all,
  add_flags-insert_all,
  assign_all-IsSorted r.args h.args.sorted,
  ok_first r.flags h.flags.sorted,
)

no_error :
    (r : Message)
    → has (codes "error") r.flags ≡ false
    → has (codes "error") (parsed r).flags ≡ false
unfolding has equal
no_error r h = has-without (codes "error") ok r.flags h

has-ok : (fs : List Bytes) → has (codes "ok") (ok ∷ fs) ≡ true
unfolding has equal
has-ok fs = refl

dispatch-response :
    (c : Client) (raw : Bytes) (r : Message)
    → IsSendable r
    → has (codes "error") r.flags ≡ false
    → dispatch response c raw (some (parsed r))
      ≡ some (call_all (λ fn. on_response fn (arrived raw r)) c.response_handlers)
unfolding dispatch
dispatch-response c raw r h n =
    let flags = flags_of-some (parsed r) (flags-IsItem r h) in
    let fine : is_error (flags_of (some (parsed r))) ≡ false =
      ap is_error flags ∙ is_error-has (parsed r).flags ∙ no_error r n in
    rw (dispatch, fine, message_of-parsed raw r h) refl

pub handle_line-response_text :
    (c : Client) (r : Message) (line raw : Bytes)
    → IsSendable r
    → is_empty r.command ≡ false
    → has (codes "error") r.flags ≡ false
    → response_text r ≡ line ++ codes "\n"
    → IsCollected line
    → handle_line c line raw
      ≡ some (call_all (λ fn. on_response fn (arrived raw r)) c.response_handlers)
handle_line-response_text c r line raw h named n text l =
    handle_line-Reparsed c line raw (response_text r) response (parsed r) (response-Reparsed r h)
      text l (named, h.named, inl (has-ok (without ok r.flags), no_error r n))
    ∙ dispatch-response c raw r h n
