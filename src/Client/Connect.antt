-- ===== src/Client/Connect.antt =====
-- spore_c/source/client.cpp: `connect`, `handshake` and `disconnect`.
-- What the operating system answers is the parameter `Os`; what the client asks of it is a list of
-- effects in order.
use spore_client_libs.Base.{
  ℕ, zero, suc, Bool, true, false, ◌&&◌, ◌||◌, not, List, [], ◌∷◌, ◌++◌, Option, none, some, ◌==◌,
  if◌then◌else◌,
}
use spore_client_libs.Base.Text.{Bytes, codes, is_empty, equal, c_str}
use spore_client_libs.Client.Platform.{Platform, windows, default_socket_path, sun_path}
use spore_client_libs.Client.State.{Client, error, clear_error, has_error}
use spore_client_libs.Client.Handlers.{delete_all}

-- The platform, what `std::getenv("ProgramData")` gives there and the size of `sun_path`; and the
-- answers to one call of `connect`: the descriptor from `socket`, whether `connect` and `write`
-- succeed, and what each `read` of one byte gives, `none` for an end of file, an error or a timeout.
pub record Os : Type 0 where
  pub platform : Platform
  pub program_data : Option Bytes
  pub sun_path_size : ℕ
  pub socket : Option ℕ
  pub connects : Bool
  pub writes : Bool
  pub reads : List (Option ℕ)

-- What is asked of the system: `WSAStartup`, `socket`, `connect` with a path, `close`, a write, and a
-- timeout for reads, in seconds, 0 for none.
pub data Effect : Type 0 where
  started_up : Effect
  opened closed : ℕ → Effect
  dialled : ℕ → Bytes → Effect
  wrote : Option ℕ → Bytes → Effect
  read_timeout : Option ℕ → ℕ → Effect

-- `std::string path = defaultSocketPath();`
abbrev pub path_of : Os → Bytes
path_of os = default_socket_path os.platform os.program_data

-- `WSAStartup` is called on Windows only.
abbrev pub start_up : Platform → List Effect
start_up windows = started_up ∷ []
start_up _ = []

-- The loop that reads one line, with `n` bytes of the buffer left. The newline stays in the buffer.
unfoldable pub read_reply : ℕ → List (Option ℕ) → Bytes → Option Bytes
read_reply zero reads buf = some buf
read_reply (suc n) [] buf = none
read_reply (suc n) (none ∷ reads) buf = none
read_reply (suc n) (some b ∷ reads) buf =
    let rest = read_reply n reads (buf ++ b ∷ []) in
    if b == b'\n' then some (buf ++ b ∷ []) else rest

-- `while (!response.empty() && (response.back() == '\n' || response.back() == '\r')) pop_back();`
unfoldable pub strip_newlines : Bytes → Bytes
strip_newlines [] = []
strip_newlines (x ∷ s) =
    let rest = strip_newlines s in
    if is_empty rest && (x == b'\n' || x == b'\r') then [] else x ∷ rest

-- What follows the reading loop; `none` is the return from within it.
unfoldable pub check_reply : Option Bytes → Client → Client × List Effect
unfolding strip_newlines equal c_str
check_reply none c = (error (codes "HandshakeFailed") (codes "no response from daemon") c, [])
check_reply (some buf) c =
    let response = strip_newlines (c_str buf) in
    (
      if equal response (codes "OK") then c else error (codes "HandshakeFailed") response c,
      read_timeout c.socket_fd 0 ∷ [],
    )

unfoldable pub handshake : Os → Client → Client × List Effect
unfolding read_reply check_reply
handshake os c =
    let msg = c.node_id ++ codes "\n" in
    let (c', effects) = check_reply (read_reply 63 os.reads []) c in
    if not os.writes
    then (
      error (codes "HandshakeFailed") (codes "failed to send node id") c,
      read_timeout c.socket_fd 5 ∷ [],
    )
    else (c', read_timeout c.socket_fd 5 ∷ wrote c.socket_fd msg ∷ effects)

-- `SPORE_CLOSE(fd)`
abbrev pub close : Option ℕ → List Effect
close none = []
close (some fd) = closed fd ∷ []

-- What `connect` does with the outcome of the handshake.
abbrev pub settle : Client × List Effect → Client × List Effect
settle (c, effects) =
    if has_error c
    then (record c { socket_fd = none }, effects ++ close c.socket_fd)
    else (record c { connected = true }, effects)

-- `connect` from the answer of `socket` on.
unfoldable pub connect_with : Option ℕ → Os → Client → Client × List Effect
unfolding handshake default_socket_path sun_path
connect_with none os c = (error (codes "ConnectFailed") (codes "failed to create socket") c, [])
connect_with (some fd) os c =
    let dial = dialled fd (sun_path os.sun_path_size (path_of os)) in
    if not os.connects
    then (
      error (codes "ConnectFailed") (codes "failed to connect to daemon at " ++ path_of os) c,
      opened fd ∷ dial ∷ closed fd ∷ [],
    )
    else (let (c', effects) = settle (handshake os (record c { socket_fd = some fd })) in
        (c', opened fd ∷ dial ∷ effects))

unfoldable pub connect : Os → Client → Client × List Effect
unfolding connect_with
connect os c =
    let (c', effects) = connect_with os.socket os (clear_error c) in
    (c', start_up os.platform ++ effects)

-- The socket and the flag of a client that is not both unconnected and without a socket.
abbrev pub release : Client → Client × List Effect
release c = (record c { socket_fd = none; connected = false }, close c.socket_fd)

abbrev pub is_none {ℓ} : {A : Type ℓ} → Option A → Bool
is_none none = true
is_none (some a) = false

unfoldable pub disconnect : Client → Client × List Effect
disconnect c =
    let c' = clear_error c in
    if not c'.connected && is_none c'.socket_fd then (c', []) else release c'

-- `Client::~Client`: the handlers that are freed, and what `disconnect` does.
unfoldable pub destroy : Client → List ℕ × List Effect
unfolding disconnect
destroy c =
    let (c', effects) = disconnect c in
    (
      delete_all c'.request_handlers
          ++ (delete_all c'.response_handlers
              ++ (delete_all c'.witness_handlers
                  ++ (delete_all c'.publish_handlers ++ delete_all c'.parse_error_handlers))),
      effects,
    )
