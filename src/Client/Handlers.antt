-- ===== src/Client/Handlers.antt =====
-- spore_c/source/client.cpp: registering handlers and taking them away. The address of a new handler
-- is the argument that stands for `new`.
use spore_client_libs.Base.{ℕ, ◌+◌, List, [], ◌∷◌, ◌++◌, Option, none, some, ◌==◌, if◌then◌else◌}
use spore_client_libs.Client.State.{
  HandlerType, request, response, witness, publish, parse_error, Handler, Client,
}

-- `auto* h = new spore_handler_t{}` with its fields set
abbrev pub new_handler : ℕ → HandlerType → ℕ → Client → Handler
new_handler address type fn c = record {
  address = address;
  type = type;
  id = c.next_id;
  callback = fn;
}

unfoldable pub register_request_handler : ℕ → ℕ → Client → Handler × Client
register_request_handler address fn c =
    let h = new_handler address request fn c in
    (h, record c { next_id = c.next_id + 1; request_handlers = c.request_handlers ++ h ∷ [] })

unfoldable pub register_response_handler : ℕ → ℕ → Client → Handler × Client
register_response_handler address fn c =
    let h = new_handler address response fn c in
    (h, record c { next_id = c.next_id + 1; response_handlers = c.response_handlers ++ h ∷ [] })

unfoldable pub register_witness_handler : ℕ → ℕ → Client → Handler × Client
register_witness_handler address fn c =
    let h = new_handler address witness fn c in
    (h, record c { next_id = c.next_id + 1; witness_handlers = c.witness_handlers ++ h ∷ [] })

unfoldable pub register_publish_handler : ℕ → ℕ → Client → Handler × Client
register_publish_handler address fn c =
    let h = new_handler address publish fn c in
    (h, record c { next_id = c.next_id + 1; publish_handlers = c.publish_handlers ++ h ∷ [] })

unfoldable pub register_parse_error_handler : ℕ → ℕ → Client → Handler × Client
register_parse_error_handler address fn c =
    let h = new_handler address parse_error fn c in
    (
      h,
      record c { next_id = c.next_id + 1; parse_error_handlers = c.parse_error_handlers ++ h ∷ [] },
    )

-- The lambda `erase`: the first handler at that address leaves the list.
unfoldable pub erase : ℕ → List Handler → List Handler
erase address [] = []
erase address (h ∷ hs) = if h.address == address then hs else h ∷ erase address hs

-- `switch (hHandler->type)`
unfoldable pub unregister_in : HandlerType → ℕ → Client → Client
unfolding erase
unregister_in request a c = record c { request_handlers = erase a c.request_handlers }
unregister_in response a c = record c { response_handlers = erase a c.response_handlers }
unregister_in witness a c = record c { witness_handlers = erase a c.witness_handlers }
unregister_in publish a c = record c { publish_handlers = erase a c.publish_handlers }
unregister_in parse_error a c = record c { parse_error_handlers = erase a c.parse_error_handlers }

-- `delete hHandler` in `erase`: the address that is freed, if the handler was found.
unfoldable pub erase_deletes : ℕ → List Handler → List ℕ
erase_deletes address [] = []
erase_deletes address (h ∷ hs) =
    if h.address == address then address ∷ [] else erase_deletes address hs

unfoldable pub unregister_in_deletes : HandlerType → ℕ → Client → List ℕ
unfolding erase_deletes
unregister_in_deletes request a c = erase_deletes a c.request_handlers
unregister_in_deletes response a c = erase_deletes a c.response_handlers
unregister_in_deletes witness a c = erase_deletes a c.witness_handlers
unregister_in_deletes publish a c = erase_deletes a c.publish_handlers
unregister_in_deletes parse_error a c = erase_deletes a c.parse_error_handlers

-- The object at an address, among those that are live. `none` is undefined behaviour: nothing live is
-- there.
unfoldable pub read_handler : ℕ → List Handler → Option Handler
read_handler address [] = none
read_handler address (h ∷ live) =
    let rest = read_handler address live in if h.address == address then some h else rest

abbrev unregister_object : ℕ → Option Handler → Client → Option (Client × List ℕ)
unregister_object address none c = none
unregister_object address (some h) c =
    some (unregister_in h.type address c, unregister_in_deletes h.type address c)

-- With the handlers that are live and a pointer: the client and the addresses that are freed. The type
-- is read through the pointer before the list is searched, so a pointer to a handler that was freed is
-- undefined behaviour.
unfoldable pub unregister_handler : List Handler → Option ℕ → Client → Option (Client × List ℕ)
unfolding read_handler unregister_in unregister_in_deletes
unregister_handler live none c = some (c, [])
unregister_handler live (some address) c = unregister_object address (read_handler address live) c

-- `for (auto* h : handlers) delete h`
abbrev pub delete_all : List Handler → List ℕ
delete_all [] = []
delete_all (h ∷ hs) = h.address ∷ delete_all hs
