-- ===== src/Client/State.antt =====
-- spore_c/source/client.h and defs.h: the state of a client and its handlers, and the getters of
-- client.cpp. `kInvalidSocket` is `none`. The mutex orders concurrent writes and is no state here.
use spore_client_libs.Base.{ℕ, Bool, not, List, [], Option, none, false}
use spore_client_libs.Base.Text.{Bytes, is_empty}

pub data HandlerType : Type 0 where
  request response witness publish parse_error : HandlerType

-- A handler lives at an address, which is its identity, and holds the address of a callback.
pub record Handler : Type 0 where
  pub address : ℕ
  pub type : HandlerType
  pub id : ℕ
  pub callback : ℕ

pub record Client : Type 0 where
  pub node_id : Bytes
  pub socket_fd : Option ℕ
  pub connected : Bool
  pub next_id : ℕ
  pub error_code : Bytes
  pub error_what : Bytes
  pub request_handlers : List Handler
  pub response_handlers : List Handler
  pub witness_handlers : List Handler
  pub publish_handlers : List Handler
  pub parse_error_handlers : List Handler

-- `Client::Client`
abbrev pub new_client : Bytes → Client
new_client id = record {
  node_id = id;
  socket_fd = none;
  connected = false;
  next_id = 0;
  error_code = [];
  error_what = [];
  request_handlers = [];
  response_handlers = [];
  witness_handlers = [];
  publish_handlers = [];
  parse_error_handlers = [];
}

abbrev pub error : Bytes → Bytes → Client → Client
error code what c = record c { error_code = code; error_what = what }

abbrev pub clear_error : Client → Client
clear_error c = record c { error_code = []; error_what = [] }

abbrev pub has_error : Client → Bool
has_error c = not (is_empty c.error_code)
