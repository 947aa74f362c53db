-- ===== src/Client/Arrival/ResponseError.antt =====
-- spore_c/source/client.cpp, `listen`: an error response that arrives.
use spore_client_libs.Base.{true, false, List, [], ◌∷◌, ◌++◌, some, ◌≡◌, refl, ap, ◌∙◌, arith, inr}
use spore_client_libs.Base.Text.{Bytes, codes, is_empty, equal, c_str-id, contains}
use spore_client_libs.Parser.Build.{response}
use spore_client_libs.Parser.Contents.{has, has_key, has-concat}
use spore_client_libs.Parser.Accepts.{IsWellFormed}
use spore_client_libs.Parser.Api.{
  data_or_null, spore_message_get_capability, spore_message_get_handle,
}
use spore_client_libs.Wire.Map.{Map, insert}
use spore_client_libs.Wire.Message.{Message, ResponseError, add_arg, response_error_text}
use spore_client_libs.Wire.Sorted.{assign_all, assign_all-IsSorted}
use spore_client_libs.Wire.Populate.{
  args_of-some, flags_of-some, add_flags-insert_all, CleanArgs-carried, no_zero-all_word,
}
use spore_client_libs.Wire.Raw.{flags_of}
use spore_client_libs.Wire.RoundTrip.ErrorItems.{
  AreOther, IsSendable, code_args, what_args, parsed, end_flags, end_flags-IsItem, error-Reparsed,
}
use spore_client_libs.Wire.RoundTrip.ResponseError.{CleanArgs-fields, flags_set}
use spore_client_libs.Client.State.{Client}
use spore_client_libs.Client.Dispatch.{
  on_response_error, call_all, add_error_args, error_with, error_of, is_error, dispatch,
  handle_line,
}
use spore_client_libs.Client.Arrival.{IsCollected, handle_line-Reparsed}

-- What the handlers are handed.
abbrev pub arrived : Bytes → ResponseError → ResponseError
arrived raw e = record e {
  message = record e.message {
    flags = insert (codes "node_error") (insert (codes "error") e.flags);
    raw = raw;
    serialized = [];
  };
}

add_error_args-AreOther :
    (e : ResponseError) (a : Map)
    → AreOther a
    → add_error_args e a ≡ record e { message = record e.message { args = assign_all e.args a } }
unfolding add_error_args assign_all
add_error_args-AreOther e [] h = refl
add_error_args-AreOther e ((k, v) ∷ a) h =
    rw (add_error_args, h.0, h.1)
      (add_error_args-AreOther (record e { message = add_arg e.message k v }) a h.2)

add_error_args-fields :
    (m : Message) (code what : Bytes) (a : Map)
    → AreOther a
    → add_error_args
        (record { message = m; code = []; what = [] })
        (code_args code ++ (what_args what ++ a))
      ≡ record { message = record m { args = assign_all m.args a }; code = code; what = what }
unfolding add_error_args equal
add_error_args-fields m [] [] a h = add_error_args-AreOther _ a h
add_error_args-fields m (c ∷ s) [] a h = add_error_args-AreOther _ a h
add_error_args-fields m [] (d ∷ t) a h = add_error_args-AreOther _ a h
add_error_args-fields m (c ∷ s) (d ∷ t) a h = add_error_args-AreOther _ a h

error_with-parsed :
    (raw : Bytes) (e : ResponseError)
    → IsSendable e
    → error_with e.command e.handle raw (some (parsed e)) ≡ arrived raw e
unfolding error_with
error_with-parsed raw e h =
    rw
      (
        args_of-some (parsed e) (
            CleanArgs-fields e.code e.what e.args h.code.0.no_zero h.what.0.no_zero
              (CleanArgs-carried e.args h.args.carried)),
        flags_of-some (parsed e) (end_flags-IsItem e.flags h.flags.carried),
        error_with,
        add_error_args-fields _ e.code e.what e.args h.other,
        add_flags-insert_all,
        assign_all-IsSorted e.args h.args.sorted,
        flags_set e.flags h.flags.sorted,
      )
      refl

data_or_null-clean :
    (s : Bytes) → is_empty s ≡ false → contains 0 s ≡ false → data_or_null s ≡ some s
data_or_null-clean s n z = rw (n, c_str-id s z) refl

error_of-parsed :
    (raw : Bytes) (e : ResponseError)
    → IsSendable e
    → is_empty e.command ≡ false
    → error_of
        (spore_message_get_capability (some (parsed e)))
        (spore_message_get_handle (some (parsed e)))
        raw
        (some (parsed e))
      ≡ some (arrived raw e)
unfolding error_of spore_message_get_capability spore_message_get_handle
error_of-parsed raw e h named =
    rw
      (
        data_or_null-clean e.command named (no_zero-all_word e.command h.command),
        data_or_null-clean e.handle h.named (no_zero-all_word e.handle h.handle),
        error_of,
        error_with-parsed raw e h,
      )
      refl

dispatch-response_error :
    (c : Client) (raw : Bytes) (e : ResponseError)
    → IsSendable e
    → is_empty e.command ≡ false
    → dispatch response c raw (some (parsed e))
      ≡ some (call_all (λ fn. on_response_error fn (arrived raw e)) c.response_handlers)
unfolding dispatch is_error equal
dispatch-response_error c raw e h named =
    let flags = flags_of-some (parsed e) (end_flags-IsItem e.flags h.flags.carried) in
    let error : is_error (flags_of (some (parsed e))) ≡ true = ap is_error flags in
    rw (dispatch, error, error_of-parsed raw e h named) refl

-- The two fields are found among the arguments.
has_key-fields :
    (code what : Bytes) (a : Map)
    → is_empty code ≡ false
    → is_empty what ≡ false
    → (has_key (codes "code") (code_args code ++ (what_args what ++ a)) ≡ true)
      × (has_key (codes "what") (code_args code ++ (what_args what ++ a)) ≡ true)
unfolding has_key equal
has_key-fields (x ∷ s) (y ∷ t) a h k = (refl, refl)
has_key-fields [] what a h k = absurd (ground (arith, h))
has_key-fields code [] a h k = absurd (ground (arith, k))

has-end_flags :
    (fs : List Bytes)
    → has (codes "ok") fs ≡ false
    → (has (codes "ok") (end_flags fs) ≡ false) × (has (codes "error") (end_flags fs) ≡ true)
unfolding has equal
has-end_flags fs h = (has-concat (codes "ok") fs (codes "node_error") ∙ rw h refl, refl)

parsed-IsWellFormed :
    (e : ResponseError)
    → IsSendable e
    → is_empty e.command ≡ false
    → is_empty e.code ≡ false
    → is_empty e.what ≡ false
    → has (codes "ok") e.flags ≡ false
    → IsWellFormed response (parsed e)
parsed-IsWellFormed e h named coded told n =
    let (not_ok, error) = has-end_flags e.flags n in
    let (has_code, has_what) = has_key-fields e.code e.what e.args coded told in
    (named, h.named, inr (not_ok, error, has_code, has_what))

pub handle_line-response_error_text :
    (c : Client) (e : ResponseError) (line raw : Bytes)
    → IsSendable e
    → is_empty e.command ≡ false
    → is_empty e.code ≡ false
    → is_empty e.what ≡ false
    → has (codes "ok") e.flags ≡ false
    → response_error_text e ≡ line ++ codes "\n"
    → IsCollected line
    → handle_line c line raw
      ≡ some (call_all (λ fn. on_response_error fn (arrived raw e)) c.response_handlers)
handle_line-response_error_text c e line raw h named coded told n text l =
    handle_line-Reparsed c line raw (response_error_text e) response (parsed e) (error-Reparsed e h)
      text l (parsed-IsWellFormed e h named coded told n)
    ∙ dispatch-response_error c raw e h named
