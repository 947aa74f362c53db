-- ===== src/Capi/Client.antt =====
-- spore_c/source/spore_c.cpp, the functions `spore_client_*`. A null handle is `none`, and so is a null
-- callback or text; a call with one does nothing.
use spore_client_libs.Base.{ℕ, Bool, false, not, List, [], Option, none, some, if◌then◌else◌}
use mathlib.Core.Option
use spore_client_libs.Base.Text.{Bytes, c_str}
use spore_client_libs.Capi.Texts.{sv}
use spore_client_libs.Client.State.{Client, Handler, new_client, has_error}
use spore_client_libs.Client.Handlers.{
  register_request_handler, register_response_handler, register_witness_handler,
  register_publish_handler, register_parse_error_handler, unregister_handler,
}
use spore_client_libs.Client.Connect.{Os, Effect, connect, disconnect, destroy}
use spore_client_libs.Client.Send.{Writes, send_raw}
use spore_client_libs.Client.Dispatch.{Event}
use spore_client_libs.Client.Listen.{listen}

unfoldable pub spore_client_create : Option Bytes → Option Client
unfolding c_str
spore_client_create none = none
spore_client_create (some id) = some (new_client (c_str id))

-- The addresses of the handlers that are freed, and what is done to the socket.
unfoldable pub spore_client_destroy : Option Client → List ℕ × List Effect
unfolding destroy
spore_client_destroy none = ([], [])
spore_client_destroy (some c) = destroy c

unfoldable pub spore_client_connect : Os → Option Client → Option Client × List Effect
unfolding connect
spore_client_connect os none = (none, [])
spore_client_connect os (some c) = let (c', effects) = connect os c in (some c', effects)

unfoldable pub spore_client_disconnect : Option Client → Option Client × List Effect
unfolding disconnect
spore_client_disconnect none = (none, [])
spore_client_disconnect (some c) = let (c', effects) = disconnect c in (some c', effects)

unfoldable pub spore_client_is_connected : Option Client → Bool
spore_client_is_connected none = false
spore_client_is_connected (some c) = c.connected

unfoldable pub spore_client_has_error : Option Client → Bool
spore_client_has_error none = false
spore_client_has_error (some c) = has_error c

unfoldable pub spore_client_get_error_code : Option Client → Option Bytes
unfolding sv
spore_client_get_error_code none = none
spore_client_get_error_code (some c) = if not (has_error c) then none else sv c.error_code

unfoldable pub spore_client_get_error_what : Option Client → Option Bytes
unfolding sv
spore_client_get_error_what none = none
spore_client_get_error_what (some c) = if not (has_error c) then none else sv c.error_what

-- The handler that is returned, or null, and the client after the call.
abbrev registered : Handler × Client → Option Handler × Option Client
registered (h, c) = (some h, some c)

unfoldable pub spore_client_register_request_handler :
    ℕ → Option Client → Option ℕ → Option Handler × Option Client
unfolding register_request_handler
spore_client_register_request_handler address (some c) (some fn) =
    registered (register_request_handler address fn c)
spore_client_register_request_handler address c _ = (none, c)

unfoldable pub spore_client_register_response_handler :
    ℕ → Option Client → Option ℕ → Option Handler × Option Client
unfolding register_response_handler
spore_client_register_response_handler address (some c) (some fn) =
    registered (register_response_handler address fn c)
spore_client_register_response_handler address c _ = (none, c)

unfoldable pub spore_client_register_witness_handler :
    ℕ → Option Client → Option ℕ → Option Handler × Option Client
unfolding register_witness_handler
spore_client_register_witness_handler address (some c) (some fn) =
    registered (register_witness_handler address fn c)
spore_client_register_witness_handler address c _ = (none, c)

unfoldable pub spore_client_register_publish_handler :
    ℕ → Option Client → Option ℕ → Option Handler × Option Client
unfolding register_publish_handler
spore_client_register_publish_handler address (some c) (some fn) =
    registered (register_publish_handler address fn c)
spore_client_register_publish_handler address c _ = (none, c)

unfoldable pub spore_client_register_parse_error_handler :
    ℕ → Option Client → Option ℕ → Option Handler × Option Client
unfolding register_parse_error_handler
spore_client_register_parse_error_handler address (some c) (some fn) =
    registered (register_parse_error_handler address fn c)
spore_client_register_parse_error_handler address c _ = (none, c)

-- The client and the addresses that are freed, if that is defined.
unfoldable pub spore_client_unregister_handler :
    List Handler → Option Client → Option ℕ → Option (Option Client × List ℕ)
unfolding unregister_handler
spore_client_unregister_handler live none address = some (none, [])
spore_client_unregister_handler live (some c) address =
    Option.map (λ (r : Client × List ℕ). (some r.0, r.1)) (unregister_handler live address c)

unfoldable pub spore_client_listen :
    List Bytes → Option Client → Option Client × Option (List Event)
unfolding listen
spore_client_listen reads none = (none, some [])
spore_client_listen reads (some c) = let (c', events) = listen reads c in (some c', events)

-- The text has its size with it.
unfoldable pub spore_client_send_raw :
    Writes → Option Client → Option Bytes → Option Client × List Bytes
unfolding send_raw
spore_client_send_raw w (some c) (some data') =
    let (c', texts) = send_raw w data' c in (some c', texts)
spore_client_send_raw w c _ = (c, [])
