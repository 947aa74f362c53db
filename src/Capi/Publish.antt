-- ===== src/Capi/Publish.antt =====
-- spore_c/source/spore_c.cpp, the functions `spore_publish_*`: publications.
-- A null handle is `none`. A call on one, or with a null text, does nothing.
use mathlib.Core.Option
use spore_client_libs.Base.{Bool, false, List, [], Option, none, some, ℕ}
use spore_client_libs.Base.Text.{Bytes, c_str}
use spore_client_libs.Wire.Message.{
  Publish, add_arg, add_flag, empty, get_arg, get_serialized, get_topic, has_flag, publish_text,
  set_topic,
}
use spore_client_libs.Capi.Texts.{sv, copy_arg_ids_of, copy_flags_of, raw_of}
use spore_client_libs.Client.State.{Client}
use spore_client_libs.Client.Send.{Writes, serialize, send_publish}

abbrev pub spore_publish_create : Option Publish
spore_publish_create = some (record { message = empty; topic = [] })

unfoldable pub spore_publish_set_topic : Option Publish → Option Bytes → Option Publish
unfolding c_str
spore_publish_set_topic (some p) (some text) = some (set_topic p (c_str text))
spore_publish_set_topic h _ = h

unfoldable pub spore_publish_add_arg : Option Publish → Option Bytes → Option Bytes → Option Publish
unfolding add_arg c_str
spore_publish_add_arg (some p) (some key) (some value) =
    some (record p { message = add_arg p.message (c_str key) (c_str value) })
spore_publish_add_arg h _ _ = h

unfoldable pub spore_publish_add_flag : Option Publish → Option Bytes → Option Publish
unfolding add_flag c_str
spore_publish_add_flag (some p) (some flag) =
    some (record p { message = add_flag p.message (c_str flag) })
spore_publish_add_flag h _ = h

unfoldable pub spore_publish_get_topic : Option Publish → Option Bytes
unfolding sv
spore_publish_get_topic none = none
spore_publish_get_topic (some p) = sv (get_topic p)

unfoldable pub spore_publish_get_arg : Option Publish → Option Bytes → Option Bytes
unfolding get_arg sv c_str
spore_publish_get_arg (some p) (some key) = sv (get_arg p.message (c_str key))
spore_publish_get_arg _ _ = none

unfoldable pub spore_publish_has_flag : Option Publish → Option Bytes → Bool
unfolding has_flag c_str
spore_publish_has_flag (some p) (some flag) = has_flag p.message (c_str flag)
spore_publish_has_flag _ _ = false

-- `SPORE_MESSAGE_ACCESSORS(publish, …)`
unfoldable pub spore_publish_get_arg_ids :
    Option Publish → Option (List Bytes) → ℕ → Option (List Bytes) × ℕ
unfolding copy_arg_ids_of
spore_publish_get_arg_ids none out capacity = copy_arg_ids_of none out capacity
spore_publish_get_arg_ids (some p) out capacity = copy_arg_ids_of (some p.message) out capacity

unfoldable pub spore_publish_get_flags :
    Option Publish → Option (List Bytes) → ℕ → Option (List Bytes) × ℕ
unfolding copy_flags_of
spore_publish_get_flags none out capacity = copy_flags_of none out capacity
spore_publish_get_flags (some p) out capacity = copy_flags_of (some p.message) out capacity

unfoldable pub spore_publish_get_raw : Option Publish → Option ℕ → Option Bytes × Option ℕ
unfolding raw_of
spore_publish_get_raw none size = raw_of none size
spore_publish_get_raw (some p) size = raw_of (some p.message) size

unfoldable pub spore_publish_send :
    Writes → Option Client → Option Publish → Option Client × List Bytes × Option Publish
unfolding send_publish
spore_publish_send w none h = (none, [], h)
spore_publish_send w (some c) h = let (c', texts, h') = send_publish w h c in (some c', texts, h')

unfoldable pub spore_publish_serialize : Option Publish → Option Publish
unfolding publish_text
spore_publish_serialize none = none
spore_publish_serialize (some p) =
    some (record p { message = serialize (publish_text p) p.message })

unfoldable pub spore_publish_get_serialized : Option Publish → Option Bytes
unfolding get_serialized c_str
spore_publish_get_serialized none = none
spore_publish_get_serialized (some p) = Option.map c_str (get_serialized p.message)
