-- ===== src/Client/Calls.antt =====
-- spore_c/source/client.cpp, `listen`: the loops over the handlers of a kind.
use mathlib.Core.List.{map}
use spore_client_libs.Base.{ℕ, List, [], ◌∷◌, ◌≡◌, refl, ap}
use spore_client_libs.Client.State.{Handler}
use spore_client_libs.Client.Dispatch.{Event, call_all}

-- Each handler is called once, in the order of the list.
pub call_all-map :
    (event : ℕ → Event) (hs : List Handler)
    → call_all event hs ≡ map (λ (h : Handler). event h.callback) hs
call_all-map event [] = refl
call_all-map event (h ∷ hs) = ap (λ es. event h.callback ∷ es) (call_all-map event hs)
