-- ===== src/Parser/Message.antt =====
-- parser/source/message.{h,cpp}: a parsed message. The vectors `argsC` and `flagsC` are views of
-- `args` and `flags` as C strings, made anew by each getter, so they are results here and no state.
use mathlib.Core.List.{map}
use spore_client_libs.Base.{List, [], ◌∷◌, ◌++◌}
use spore_client_libs.Base.Text.{Bytes, c_str}

pub record Message : Type 0 where
  pub capability : Bytes
  pub handle : Bytes
  pub args : List (Bytes × Bytes)
  pub flags : List Bytes

abbrev pub empty : Message
empty = record { capability = []; handle = []; args = []; flags = [] }

abbrev pub arg_c : Bytes × Bytes → Bytes × Bytes
arg_c (key, value) = (c_str key, c_str value)

unfoldable pub get_args : Message → List (Bytes × Bytes)
get_args m = map arg_c m.args

unfoldable pub get_flags : Message → List Bytes
get_flags m = map c_str m.flags

abbrev pub set_capability : Message → Bytes → Message
set_capability m cap = record m { capability = cap }

abbrev pub set_handle : Message → Bytes → Message
set_handle m h = record m { handle = h }

abbrev pub add_arg : Message → Bytes → Bytes → Message
add_arg m key value = record m { args = m.args ++ (key, value) ∷ [] }

abbrev pub add_flag : Message → Bytes → Message
add_flag m flag = record m { flags = m.flags ++ flag ∷ [] }
