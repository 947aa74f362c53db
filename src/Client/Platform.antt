-- ===== src/Client/Platform.antt =====
-- spore_c/source/client.cpp, `defaultSocketPath` and the address that `connect` makes of it, on each
-- platform that the code has a branch for.
use spore_client_libs.Base.{ℕ, ◌-◌, Option, none, some, ◌++◌, if◌then◌else◌, take}
use spore_client_libs.Base.Text.{Bytes, codes, is_empty, c_str}

pub data Platform : Type 0 where
  apple linux windows other : Platform

-- `R"(C:\ProgramData\spore-os\spore.sock)"`, and what `std::getenv("ProgramData")` gives, `none` for
-- a null pointer, with the rest of the path behind it.
abbrev windows_path : Option Bytes → Bytes
windows_path none = codes "C:\\ProgramData\\spore-os\\spore.sock"
windows_path (some base) =
    if is_empty (c_str base)
    then codes "C:\\ProgramData\\spore-os\\spore.sock"
    else c_str base ++ codes "\\spore-os\\spore.sock"

unfoldable pub default_socket_path : Platform → Option Bytes → Bytes
default_socket_path apple program_data = codes "/Library/Application Support/spore-os/spore.sock"
default_socket_path linux program_data = codes "/var/lib/spore-os/spore.sock"
default_socket_path windows program_data = windows_path program_data
default_socket_path other program_data = codes "/tmp/spore.sock"

-- `std::strncpy(addr.sun_path, path.c_str(), sizeof(addr.sun_path) - 1)` on an address that is zero:
-- the text that `sun_path` holds, if its size is `size`.
unfoldable pub sun_path : ℕ → Bytes → Bytes
sun_path size path = take (size - 1) (c_str path)
