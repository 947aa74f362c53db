-- ===== src/Capi/ResponseError.antt =====
-- spore_c/source/spore_c.cpp, the functions `spore_response_error_*`: error responses.
-- A null handle is `none`. A call on one, or with a null text, does nothing.
use mathlib.Core.Option
use spore_client_libs.Base.{Bool, false, List, [], Option, none, some, ℕ}
use spore_client_libs.Base.Text.{Bytes, c_str}
use spore_client_libs.Wire.Message.{
  ResponseError, add_arg, add_flag, empty, get_arg, get_code, get_command, get_handle,
  get_serialized, get_what, has_flag, response_error_text, set_code, set_command, set_handle,
  set_what,
}
use spore_client_libs.Capi.Texts.{sv, copy_arg_ids_of, copy_flags_of, raw_of}
use spore_client_libs.Client.State.{Client}
use spore_client_libs.Client.Send.{Writes, serialize, send_response_error}

abbrev pub spore_response_error_create : Option ResponseError
spore_response_error_create = some (record { message = empty; code = []; what = [] })

unfoldable pub spore_response_error_set_handle :
    Option ResponseError → Option Bytes → Option ResponseError
unfolding c_str
spore_response_error_set_handle (some e) (some text) =
    some (record e { message = set_handle e.message (c_str text) })
spore_response_error_set_handle h _ = h

unfoldable pub spore_response_error_set_command :
    Option ResponseError → Option Bytes → Option ResponseError
unfolding c_str
spore_response_error_set_command (some e) (some text) =
    some (record e { message = set_command e.message (c_str text) })
spore_response_error_set_command h _ = h

unfoldable pub spore_response_error_set_code :
    Option ResponseError → Option Bytes → Option ResponseError
unfolding c_str
spore_response_error_set_code (some e) (some text) = some (set_code e (c_str text))
spore_response_error_set_code h _ = h

unfoldable pub spore_response_error_set_what :
    Option ResponseError → Option Bytes → Option ResponseError
unfolding c_str
spore_response_error_set_what (some e) (some text) = some (set_what e (c_str text))
spore_response_error_set_what h _ = h

unfoldable pub spore_response_error_add_arg :
    Option ResponseError → Option Bytes → Option Bytes → Option ResponseError
unfolding add_arg c_str
spore_response_error_add_arg (some e) (some key) (some value) =
    some (record e { message = add_arg e.message (c_str key) (c_str value) })
spore_response_error_add_arg h _ _ = h

unfoldable pub spore_response_error_add_flag :
    Option ResponseError → Option Bytes → Option ResponseError
unfolding add_flag c_str
spore_response_error_add_flag (some e) (some flag) =
    some (record e { message = add_flag e.message (c_str flag) })
spore_response_error_add_flag h _ = h

unfoldable pub spore_response_error_get_command : Option ResponseError → Option Bytes
unfolding sv
spore_response_error_get_command none = none
spore_response_error_get_command (some e) = sv (get_command e.message)

unfoldable pub spore_response_error_get_handle : Option ResponseError → Option Bytes
unfolding sv
spore_response_error_get_handle none = none
spore_response_error_get_handle (some e) = sv (get_handle e.message)

unfoldable pub spore_response_error_get_code : Option ResponseError → Option Bytes
unfolding sv
spore_response_error_get_code none = none
spore_response_error_get_code (some e) = sv (get_code e)

unfoldable pub spore_response_error_get_what : Option ResponseError → Option Bytes
unfolding sv
spore_response_error_get_what none = none
spore_response_error_get_what (some e) = sv (get_what e)

unfoldable pub spore_response_error_get_arg : Option ResponseError → Option Bytes → Option Bytes
unfolding get_arg sv c_str
spore_response_error_get_arg (some e) (some key) = sv (get_arg e.message (c_str key))
spore_response_error_get_arg _ _ = none

unfoldable pub spore_response_error_has_flag : Option ResponseError → Option Bytes → Bool
unfolding has_flag c_str
spore_response_error_has_flag (some e) (some flag) = has_flag e.message (c_str flag)
spore_response_error_has_flag _ _ = false

-- `SPORE_MESSAGE_ACCESSORS(response_error, …)`
unfoldable pub spore_response_error_get_arg_ids :
    Option ResponseError → Option (List Bytes) → ℕ → Option (List Bytes) × ℕ
unfolding copy_arg_ids_of
spore_response_error_get_arg_ids none out capacity = copy_arg_ids_of none out capacity
spore_response_error_get_arg_ids (some e) out capacity =
    copy_arg_ids_of (some e.message) out capacity

unfoldable pub spore_response_error_get_flags :
    Option ResponseError → Option (List Bytes) → ℕ → Option (List Bytes) × ℕ
unfolding copy_flags_of
spore_response_error_get_flags none out capacity = copy_flags_of none out capacity
spore_response_error_get_flags (some e) out capacity = copy_flags_of (some e.message) out capacity

unfoldable pub spore_response_error_get_raw :
    Option ResponseError → Option ℕ → Option Bytes × Option ℕ
unfolding raw_of
spore_response_error_get_raw none size = raw_of none size
spore_response_error_get_raw (some e) size = raw_of (some e.message) size

unfoldable pub spore_response_error_send :
    Writes
    → Option Client
    → Option ResponseError
    → Option Client × List Bytes × Option ResponseError
unfolding send_response_error
spore_response_error_send w none h = (none, [], h)
spore_response_error_send w (some c) h =
    let (c', texts, h') = send_response_error w h c in (some c', texts, h')

unfoldable pub spore_response_error_serialize : Option ResponseError → Option ResponseError
unfolding response_error_text
spore_response_error_serialize none = none
spore_response_error_serialize (some e) =
    some (record e { message = serialize (response_error_text e) e.message })

unfoldable pub spore_response_error_get_serialized : Option ResponseError → Option Bytes
unfolding get_serialized c_str
spore_response_error_get_serialized none = none
spore_response_error_get_serialized (some e) = Option.map c_str (get_serialized e.message)
