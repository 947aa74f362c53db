-- ===== src/Tests/Lifetime.antt =====
-- The end of a client, and a line that is refused, at concrete inputs.
use spore_client_libs.Base.{List, false, [], ◌∷◌, none, some, ◌≡◌, ◌⊎◌, refl}
use spore_client_libs.Base.Text.{Bytes, codes, equal, find?, contains, c_str}
use spore_client_libs.Parser.Message
use spore_client_libs.Parser.Build.{Parser, new_parser}
use spore_client_libs.Parser.Build
use spore_client_libs.Parser.Validate.{parse}
use spore_client_libs.Parser.Accepts.{IsWellFormed}
use spore_client_libs.Client.State.{Client, Handler, request, witness, parse_error, new_client}
use spore_client_libs.Client.Handlers.{unregister_handler}
use spore_client_libs.Client.Connect.{destroy}
use spore_client_libs.Client.Registry.{register}
use spore_client_libs.Client.Dispatch.{dispatch, handle_line}
use spore_client_libs.Client.Refused.{error_calls, handle_line-IsWellFormed}
use spore_client_libs.Client.Lifetime
use spore_client_libs.Client.Lifetime.{Owned, added, removed, Owned-destroy}
use spore_client_libs.Client.Freeing.{free_all}

abbrev node : Client
node = new_client (codes "node")

abbrev first_handler : Handler
first_handler = (register request 100 7 node).0

abbrev both_registered : Client
both_registered = (register witness 200 9 (register request 100 7 node).1).1

abbrev second_handler : Handler
second_handler = (register witness 200 9 (register request 100 7 node).1).0

abbrev both_live : List Handler
both_live = second_handler ∷ first_handler ∷ []

both_registered-Owned : Owned both_registered both_live
unfolding register
both_registered-Owned =
    added witness 200 9 (added request 100 7 (Lifetime.created (codes "node")) refl) refl

abbrev one_left : Client
one_left = record both_registered { request_handlers = [] }

one_left-Owned : Owned one_left (second_handler ∷ [])
unfolding free_all unregister_handler register
one_left-Owned = removed (some 100) both_registered-Owned refl refl

Owned-destroy_example : free_all (destroy one_left).0 (second_handler ∷ []) ≡ some []
Owned-destroy_example = Owned-destroy one_left-Owned

-- To unregister the same handler again reads what was freed.
unregister_handler-again : unregister_handler (second_handler ∷ []) (some 100) one_left ≡ none
unfolding unregister_handler register
unregister_handler-again = refl

-- A request without a handle.
abbrev no_handle : Bytes
no_handle = codes "Run fast"

abbrev parsed : Message.Message
parsed = record Message.empty { capability = codes "Run"; flags = codes "fast" ∷ [] }

abbrev parser_after : Parser
parser_after = record new_parser { raw = no_handle; type = Build.request }

no_handle-parsed : parse new_parser no_handle (some Message.empty) ≡ (parser_after, some parsed)
unfolding parse equal find? c_str
no_handle-parsed = refl

abbrev with_handler : Client
with_handler = (register parse_error 300 5 node).1

no_handle-clean : contains 0 no_handle ≡ false
unfolding contains
no_handle-clean = refl

handle_line-IsWellFormed_example :
    IsWellFormed parser_after.type parsed
      × (handle_line with_handler no_handle no_handle
          ≡ dispatch parser_after.type with_handler no_handle (some parsed))
    ⊎ (¬ IsWellFormed parser_after.type parsed)
      × ((what : Bytes) × (handle_line with_handler no_handle no_handle
            ≡ some (error_calls with_handler what no_handle)))
handle_line-IsWellFormed_example =
    handle_line-IsWellFormed with_handler no_handle no_handle refl no_handle-clean no_handle-parsed
