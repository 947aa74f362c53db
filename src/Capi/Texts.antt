-- ===== src/Capi/Texts.antt =====
-- spore_c/source/spore_c.cpp: what the functions of the five kinds of messages share, `sv` and the
-- bodies that `SPORE_MESSAGE_ACCESSORS` makes, on the `Message` in the object that a handle points to.
use spore_client_libs.Base.{ℕ, List, [], Option, none, some, length, if◌then◌else◌}
use spore_client_libs.Base.Text.{Bytes, is_empty, c_str}
use spore_client_libs.Wire.Message.{Message, get_raw}
use spore_client_libs.Wire.Copies.{copy_arg_ids, copy_flags}

-- `s.empty() ? nullptr : s.data()`, which the caller reads as a C string
unfoldable pub sv : Bytes → Option Bytes
unfolding c_str
sv s = if is_empty s then none else some (c_str s)

-- The slots of an array that may be null.
abbrev pub slots : Option (List Bytes) → List Bytes
slots none = []
slots (some out) = out

-- The array after the call, and the number that is returned.
unfoldable pub copy_arg_ids_of : Option Message → Option (List Bytes) → ℕ → Option (List Bytes) × ℕ
unfolding copy_arg_ids
copy_arg_ids_of none out capacity = (some (slots out), 0)
copy_arg_ids_of (some m) out capacity = copy_arg_ids m out capacity

unfoldable pub copy_flags_of : Option Message → Option (List Bytes) → ℕ → Option (List Bytes) × ℕ
unfolding copy_flags
copy_flags_of none out capacity = (some (slots out), 0)
copy_flags_of (some m) out capacity = copy_flags m out capacity

-- The size goes where `size` points to, if it is not null.
abbrev store : Option ℕ → ℕ → Option ℕ
store none n = none
store (some old) n = some n

unfoldable pub raw_of : Option Message → Option ℕ → Option Bytes × Option ℕ
raw_of none size = (none, store size 0)
raw_of (some m) size = (some (get_raw m), store size (length (get_raw m)))
