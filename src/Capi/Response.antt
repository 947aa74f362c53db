-- ===== src/Capi/Response.antt =====
-- spore_c/source/spore_c.cpp, the functions `spore_response_*`: ok responses.
-- A null handle is `none`. A call on one, or with a null text, does nothing.
use mathlib.Core.Option
use spore_client_libs.Base.{Bool, false, List, [], Option, none, some, ℕ}
use spore_client_libs.Base.Text.{Bytes, c_str}
use spore_client_libs.Wire.Message.{
  Message, add_arg, add_flag, empty, get_arg, get_command, get_handle, get_serialized, has_flag,
  response_text, set_command, set_handle,
}
use spore_client_libs.Capi.Texts.{sv, copy_arg_ids_of, copy_flags_of, raw_of}
use spore_client_libs.Client.State.{Client}
use spore_client_libs.Client.Send.{Writes, serialize, send_response}

abbrev pub spore_response_create : Option Message
spore_response_create = some empty

unfoldable pub spore_response_set_handle : Option Message → Option Bytes → Option Message
unfolding c_str
spore_response_set_handle (some m) (some text) = some (set_handle m (c_str text))
spore_response_set_handle h _ = h

unfoldable pub spore_response_set_command : Option Message → Option Bytes → Option Message
unfolding c_str
spore_response_set_command (some m) (some text) = some (set_command m (c_str text))
spore_response_set_command h _ = h

unfoldable pub spore_response_add_arg :
    Option Message → Option Bytes → Option Bytes → Option Message
unfolding add_arg c_str
spore_response_add_arg (some m) (some key) (some value) = some (add_arg m (c_str key) (c_str value))
spore_response_add_arg h _ _ = h

unfoldable pub spore_response_add_flag : Option Message → Option Bytes → Option Message
unfolding add_flag c_str
spore_response_add_flag (some m) (some flag) = some (add_flag m (c_str flag))
spore_response_add_flag h _ = h

unfoldable pub spore_response_get_command : Option Message → Option Bytes
unfolding sv
spore_response_get_command none = none
spore_response_get_command (some m) = sv (get_command m)

unfoldable pub spore_response_get_handle : Option Message → Option Bytes
unfolding sv
spore_response_get_handle none = none
spore_response_get_handle (some m) = sv (get_handle m)

unfoldable pub spore_response_get_arg : Option Message → Option Bytes → Option Bytes
unfolding get_arg sv c_str
spore_response_get_arg (some m) (some key) = sv (get_arg m (c_str key))
spore_response_get_arg _ _ = none

unfoldable pub spore_response_has_flag : Option Message → Option Bytes → Bool
unfolding has_flag c_str
spore_response_has_flag (some m) (some flag) = has_flag m (c_str flag)
spore_response_has_flag _ _ = false

-- `SPORE_MESSAGE_ACCESSORS(response, …)`
unfoldable pub spore_response_get_arg_ids :
    Option Message → Option (List Bytes) → ℕ → Option (List Bytes) × ℕ
unfolding copy_arg_ids_of
spore_response_get_arg_ids none out capacity = copy_arg_ids_of none out capacity
spore_response_get_arg_ids (some m) out capacity = copy_arg_ids_of (some m) out capacity

unfoldable pub spore_response_get_flags :
    Option Message → Option (List Bytes) → ℕ → Option (List Bytes) × ℕ
unfolding copy_flags_of
spore_response_get_flags none out capacity = copy_flags_of none out capacity
spore_response_get_flags (some m) out capacity = copy_flags_of (some m) out capacity

unfoldable pub spore_response_get_raw : Option Message → Option ℕ → Option Bytes × Option ℕ
unfolding raw_of
spore_response_get_raw none size = raw_of none size
spore_response_get_raw (some m) size = raw_of (some m) size

unfoldable pub spore_response_send :
    Writes → Option Client → Option Message → Option Client × List Bytes × Option Message
unfolding send_response
spore_response_send w none h = (none, [], h)
spore_response_send w (some c) h = let (c', texts, h') = send_response w h c in (some c', texts, h')

unfoldable pub spore_response_serialize : Option Message → Option Message
unfolding response_text
spore_response_serialize none = none
spore_response_serialize (some m) = some (serialize (response_text m) m)

unfoldable pub spore_response_get_serialized : Option Message → Option Bytes
unfolding get_serialized c_str
spore_response_get_serialized none = none
spore_response_get_serialized (some m) = Option.map c_str (get_serialized m)
