-- ===== src/Client/Lifetime.antt =====
-- spore_c/source/client.cpp, `registerRequestHandler` and the others, `unregisterHandler` and
-- `~Client`: what is allocated and what is freed.
use mathlib.Core.Path.{subst}
use spore_client_libs.Base.{
  ℕ, false, List, [], ◌∷◌, Option, some, ◌≡◌, sym, ap, ◌∙◌, arith, inl, inr,
}
use spore_client_libs.Base.Text.{Bytes}
use spore_client_libs.Client.State.{HandlerType, Handler, Client, new_client}
use spore_client_libs.Client.Handlers.{read_handler, unregister_handler}
use spore_client_libs.Client.Connect.{destroy}
use spore_client_libs.Client.Registry.{register, is_at, unregister_handler-cases}
use spore_client_libs.Client.Freeing.{
  free_all, count, count-none, free_all-count, handlers_injective,
}
use spore_client_libs.Client.Holding.{
  destroy-handler_count, Holds, added-Holds, unregister_in-Unregistered,
}

-- The clients that a program can get to by registering and unregistering handlers, each with its
-- handlers that are allocated and not yet freed. A new handler is at an address where none is live.
-- Any pointer may be unregistered, as far as that is defined.
pub data Owned : Client → List Handler → Type 0 where
  created : (id : Bytes) → Owned (new_client id) []
  added :
      {c : Client} {live : List Handler} (type : HandlerType) (address fn : ℕ)
      → Owned c live
      → is_at address live ≡ false
      → Owned (register type address fn c).1 ((register type address fn c).0 ∷ live)
  removed :
      {c c' : Client} {live live' : List Handler} {freed : List ℕ} (pointer : Option ℕ)
      → Owned c live
      → unregister_handler live pointer c ≡ some (c', freed)
      → free_all freed live ≡ some live'
      → Owned c' live'

Owned-Holds : {c : Client} {live : List Handler} → Owned c live → Holds c live
unfolding count read_handler free_all
Owned-Holds (created id) = record {
  counts = λ b. omega arith;
  once = λ b. omega arith;
  listed = λ b h e. absurd (ground (arith, e));
}
Owned-Holds (added type address fn o fresh) = added-Holds type address fn fresh (Owned-Holds o)
Owned-Holds (removed {c} {c'} {live} {live'} {freed} pointer o e frees) =
    elim (unregister_handler-cases live pointer c e) [
      | inl (same, nothing) ↦
          let all : some live ≡ some live' = ap (λ fs. free_all fs live) nothing ∙ frees in
          subst (λ k. Holds k live') same (subst (Holds c) (handlers_injective all) (Owned-Holds o))
      | inr (a, h, read, same, one_freed) ↦
          let u = unregister_in-Unregistered a h (Owned-Holds o) read in
          let rest : some u.left ≡ some live' =
            sym u.freed ∙ ap (λ fs. free_all fs live) (sym u.deletes ∙ one_freed) ∙ frees in
          subst (λ k. Holds k live') same (subst (Holds _) (handlers_injective rest) u.holds)
    ]

-- Whatever handlers are registered on a new client and unregistered, the destructor frees each handler
-- that is live once, and nothing else: after it, none is live.
pub Owned-destroy :
    {c : Client} {live : List Handler} → Owned c live → free_all (destroy c).0 live ≡ some []
Owned-destroy {c} {live} o =
    let held = Owned-Holds o in
    let (left, freed, counts) =
      free_all-count (destroy c).0 live
        (λ b. omega (arith, held.counts b, destroy-handler_count b c)) in
    let empty =
      count-none left (λ b. omega (arith, held.counts b, counts b, destroy-handler_count b c)) in
    freed ∙ ap some empty
