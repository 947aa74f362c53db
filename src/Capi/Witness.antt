-- ===== src/Capi/Witness.antt =====
-- spore_c/source/spore_c.cpp, the functions `spore_witness_*`: witness messages.
-- A null handle is `none`. A call on one, or with a null text, does nothing.
use mathlib.Core.Option
use spore_client_libs.Base.{Bool, false, List, [], Option, none, some, ℕ}
use spore_client_libs.Base.Text.{Bytes, c_str}
use spore_client_libs.Wire.Message.{
  Witness, add_arg, add_flag, empty, get_arg, get_body, get_serialized, has_flag, set_body,
  witness_text,
}
use spore_client_libs.Capi.Texts.{sv, copy_arg_ids_of, copy_flags_of, raw_of}
use spore_client_libs.Client.State.{Client}
use spore_client_libs.Client.Send.{Writes, serialize, send_witness}

abbrev pub spore_witness_create : Option Witness
spore_witness_create = some (record { message = empty; body = [] })

unfoldable pub spore_witness_set_body : Option Witness → Option Bytes → Option Witness
unfolding c_str
spore_witness_set_body (some w) (some text) = some (set_body w (c_str text))
spore_witness_set_body h _ = h

unfoldable pub spore_witness_add_arg : Option Witness → Option Bytes → Option Bytes → Option Witness
unfolding add_arg c_str
spore_witness_add_arg (some w) (some key) (some value) =
    some (record w { message = add_arg w.message (c_str key) (c_str value) })
spore_witness_add_arg h _ _ = h

unfoldable pub spore_witness_add_flag : Option Witness → Option Bytes → Option Witness
unfolding add_flag c_str
spore_witness_add_flag (some w) (some flag) =
    some (record w { message = add_flag w.message (c_str flag) })
spore_witness_add_flag h _ = h

unfoldable pub spore_witness_get_body : Option Witness → Option Bytes
unfolding sv
spore_witness_get_body none = none
spore_witness_get_body (some w) = sv (get_body w)

unfoldable pub spore_witness_get_arg : Option Witness → Option Bytes → Option Bytes
unfolding get_arg sv c_str
spore_witness_get_arg (some w) (some key) = sv (get_arg w.message (c_str key))
spore_witness_get_arg _ _ = none

unfoldable pub spore_witness_has_flag : Option Witness → Option Bytes → Bool
unfolding has_flag c_str
spore_witness_has_flag (some w) (some flag) = has_flag w.message (c_str flag)
spore_witness_has_flag _ _ = false

-- `SPORE_MESSAGE_ACCESSORS(witness, …)`
unfoldable pub spore_witness_get_arg_ids :
    Option Witness → Option (List Bytes) → ℕ → Option (List Bytes) × ℕ
unfolding copy_arg_ids_of
spore_witness_get_arg_ids none out capacity = copy_arg_ids_of none out capacity
spore_witness_get_arg_ids (some w) out capacity = copy_arg_ids_of (some w.message) out capacity

unfoldable pub spore_witness_get_flags :
    Option Witness → Option (List Bytes) → ℕ → Option (List Bytes) × ℕ
unfolding copy_flags_of
spore_witness_get_flags none out capacity = copy_flags_of none out capacity
spore_witness_get_flags (some w) out capacity = copy_flags_of (some w.message) out capacity

unfoldable pub spore_witness_get_raw : Option Witness → Option ℕ → Option Bytes × Option ℕ
unfolding raw_of
spore_witness_get_raw none size = raw_of none size
spore_witness_get_raw (some w) size = raw_of (some w.message) size

unfoldable pub spore_witness_send :
    Writes → Option Client → Option Witness → Option Client × List Bytes × Option Witness
unfolding send_witness
spore_witness_send w none h = (none, [], h)
spore_witness_send w (some c) h = let (c', texts, h') = send_witness w h c in (some c', texts, h')

unfoldable pub spore_witness_serialize : Option Witness → Option Witness
unfolding witness_text
spore_witness_serialize none = none
spore_witness_serialize (some w) =
    some (record w { message = serialize (witness_text w) w.message })

unfoldable pub spore_witness_get_serialized : Option Witness → Option Bytes
unfolding get_serialized c_str
spore_witness_get_serialized none = none
spore_witness_get_serialized (some w) = Option.map c_str (get_serialized w.message)
