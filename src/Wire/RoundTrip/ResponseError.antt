-- ===== src/Wire/RoundTrip/ResponseError.antt =====
-- `ResponseError::serialize` and `spore_response_error_create_from_raw`.
use spore_client_libs.Base.{true, false, List, [], ◌∷◌, ◌++◌, some, ◌≡◌, refl, ap, ◌∙◌, arith}
use spore_client_libs.Base.Text.{Bytes, codes, equal, contains}
use spore_client_libs.Parser.Message
use spore_client_libs.Parser.Build.{response}
use spore_client_libs.Wire.Map.{Map, insert, member}
use spore_client_libs.Wire.Message.{Message, ResponseError, empty, add_arg, response_error_text}
use spore_client_libs.Wire.Sorted.{assign_all, assign_all-IsSorted}
use spore_client_libs.Wire.SortedSet.{IsSortedSet, insert-IsSortedSet, member-insert, insert_all}
use spore_client_libs.Wire.SetEquality.{
  member-append, insert_all-keeps, member-insert_all, member-ext,
}
use spore_client_libs.Wire.Reparse.{Reparsed}
use spore_client_libs.Wire.Populate.{
  CleanArgs, args_of-some, flags_of-some, add_flags-insert_all, CleanArgs-carried,
  or_empty-data_or_null, no_zero-all_word,
}
use spore_client_libs.Wire.Raw.{
  args_of, add_args, populate_message, take_error_fields, response_error_of,
  spore_response_error_create_from_raw,
}
use spore_client_libs.Wire.RoundTrip.ErrorItems.{
  AreOther, IsSendable, code_args, what_args, parsed, end_flags, end_flags-IsItem, error-Reparsed,
}
use spore_client_libs.Parser.Api.{spore_message_get_capability, spore_message_get_handle}

pub CleanArgs-fields :
    (code what : Bytes) (a : Map)
    → contains 0 code ≡ false
    → contains 0 what ≡ false
    → CleanArgs a
    → CleanArgs (code_args code ++ (what_args what ++ a))
unfolding contains
CleanArgs-fields [] [] a h k c = c
CleanArgs-fields (x ∷ s) [] a h k c = (refl, h, c)
CleanArgs-fields [] (y ∷ t) a h k c = (refl, k, c)
CleanArgs-fields (x ∷ s) (y ∷ t) a h k c = (refl, h, (refl, k, c))

member-end_flags :
    (g : Bytes) (fs : List Bytes)
    → member g (insert_all [] (end_flags fs))
      ≡ member g (insert (codes "node_error") (insert (codes "error") fs))
unfolding member
member-end_flags g fs = ground (
  arith,
  member-insert_all g [] (end_flags fs),
  member-append g fs (codes "node_error" ∷ []),
  member-insert (codes "node_error") g (insert (codes "error") fs),
  member-insert (codes "error") g fs,
)

pub flags_set :
    (fs : List Bytes)
    → IsSortedSet fs
    → insert_all [] (end_flags fs) ≡ insert (codes "node_error") (insert (codes "error") fs)
flags_set fs s =
    member-ext (insert_all [] (end_flags fs)) _ (insert_all-keeps [] (end_flags fs) tt)
      (insert-IsSortedSet (codes "node_error") _ (insert-IsSortedSet (codes "error") fs s))
      (λ g. member-end_flags g fs)

add_args-AreOther :
    (msg : Message) (a : Map)
    → AreOther a
    → add_args true msg a ≡ record msg { args = assign_all msg.args a }
unfolding add_args assign_all
add_args-AreOther msg [] h = refl
add_args-AreOther msg ((k, v) ∷ a) h =
    rw (add_args, h.0, h.1) (add_args-AreOther (add_arg msg k v) a h.2)

take_error_fields-AreOther : (e : ResponseError) (a : Map) → AreOther a → take_error_fields e a ≡ e
unfolding take_error_fields
take_error_fields-AreOther e [] h = refl
take_error_fields-AreOther e ((k, v) ∷ a) h =
    rw (take_error_fields, h.0, h.1) (take_error_fields-AreOther e a h.2)

add_args-fields :
    (msg : Message) (code what : Bytes) (a : Map)
    → AreOther a
    → add_args true msg (code_args code ++ (what_args what ++ a))
      ≡ record msg { args = assign_all msg.args a }
unfolding add_args equal
add_args-fields msg [] [] a h = add_args-AreOther msg a h
add_args-fields msg (c ∷ s) [] a h = add_args-AreOther msg a h
add_args-fields msg [] (d ∷ t) a h = add_args-AreOther msg a h
add_args-fields msg (c ∷ s) (d ∷ t) a h = add_args-AreOther msg a h

take_error_fields-fields :
    (m : Message) (code what : Bytes) (a : Map)
    → AreOther a
    → take_error_fields
        (record { message = m; code = []; what = [] })
        (code_args code ++ (what_args what ++ a))
      ≡ record { message = m; code = code; what = what }
unfolding take_error_fields equal
take_error_fields-fields m [] [] a h = take_error_fields-AreOther _ a h
take_error_fields-fields m (c ∷ s) [] a h = take_error_fields-AreOther _ a h
take_error_fields-fields m [] (d ∷ t) a h = take_error_fields-AreOther _ a h
take_error_fields-fields m (c ∷ s) (d ∷ t) a h = take_error_fields-AreOther _ a h

populate_message-fields :
    (e : ResponseError)
    → IsSendable e
    → populate_message empty (some (parsed e)) true ≡ record empty {
      command = e.command;
      handle = e.handle;
      args = e.args;
      flags = insert (codes "node_error") (insert (codes "error") e.flags);
    }
unfolding populate_message spore_message_get_capability spore_message_get_handle
populate_message-fields e h = simp (
  args_of-some (parsed e) (
      CleanArgs-fields e.code e.what e.args h.code.0.no_zero h.what.0.no_zero
        (CleanArgs-carried e.args h.args.carried)),
  flags_of-some (parsed e) (end_flags-IsItem e.flags h.flags.carried),
  or_empty-data_or_null e.command (no_zero-all_word e.command h.command),
  or_empty-data_or_null e.handle (no_zero-all_word e.handle h.handle),
  add_args-fields _ e.code e.what e.args h.other,
  add_flags-insert_all,
  assign_all-IsSorted e.args h.args.sorted,
  flags_set e.flags h.flags.sorted,
)

error_of-Reparsed :
    (raw : Bytes) (m : Message.Message)
    → Reparsed raw response m
    → spore_response_error_create_from_raw (some raw)
      ≡ some (
          take_error_fields
            (record {
              message = record (populate_message empty (some m) true) { raw = raw };
              code = [];
              what = [];
            })
            (args_of (some m)))
unfolding spore_response_error_create_from_raw
error_of-Reparsed raw m (p, e, t) = ap (response_error_of raw) e ∙ rw (t, response_error_of)

-- The text of an error response that the wire can carry is parsed to one with the same command,
-- handle, code, description and arguments, and with its flags, `error` and `node_error`.
pub create_from_raw-response_error_text :
    (e : ResponseError)
    → IsSendable e
    → spore_response_error_create_from_raw (some (response_error_text e))
      ≡ some (record e {
        message = record e.message {
          flags = insert (codes "node_error") (insert (codes "error") e.flags);
          raw = response_error_text e;
          serialized = [];
        };
      })
create_from_raw-response_error_text e h =
    error_of-Reparsed (response_error_text e) (parsed e) (error-Reparsed e h)
    ∙ rw
        (
          populate_message-fields e h,
          args_of-some (parsed e) (
              CleanArgs-fields e.code e.what e.args h.code.0.no_zero h.what.0.no_zero
                (CleanArgs-carried e.args h.args.carried)),
        )
        (ap some (take_error_fields-fields _ e.code e.what e.args h.other))
