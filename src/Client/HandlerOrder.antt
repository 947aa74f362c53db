-- ===== src/Client/HandlerOrder.antt =====
-- spore_c/source/client.cpp: the order of handlers under registering and unregistering.
use mathlib.Core.Path.{subst}
use spore_client_libs.Base.{
  ℕ, suc, ◌+◌, ◌≤◌, List, [], ◌∷◌, ◌++◌, Option, some, ◌==◌, ◌≡◌, refl, arith, inl, inr, Bool-cases,
}
use spore_client_libs.Base.Text.{Bytes}
use spore_client_libs.Client.State.{
  HandlerType, request, response, witness, publish, parse_error, Handler, Client, new_client,
}
use spore_client_libs.Client.Handlers.{erase, unregister_in, unregister_handler}
use spore_client_libs.Client.Registry.{register, unregister_handler-cases}

-- The clients that registering and unregistering lead to.
pub data Registered : Client → Type 0 where
  created : (id : Bytes) → Registered (new_client id)
  added :
      {c : Client} (type : HandlerType) (address fn : ℕ)
      → Registered c
      → Registered (register type address fn c).1
  removed :
      {c c' : Client} {freed : List ℕ} (live : List Handler) (pointer : Option ℕ)
      → Registered c
      → unregister_handler live pointer c ≡ some (c', freed)
      → Registered c'

-- From `low` on, and below `high`, the numbers of the handlers grow.
abbrev pub Grow : ℕ → ℕ → List Handler → Type 0
Grow low high [] = low ≤ high
Grow low high (h ∷ hs) = (low ≤ h.id) × Grow (suc h.id) high hs

pub record AllGrow (c : Client) : Type 0 where
  pub request : Grow 0 c.next_id c.request_handlers
  pub response : Grow 0 c.next_id c.response_handlers
  pub witness : Grow 0 c.next_id c.witness_handlers
  pub publish : Grow 0 c.next_id c.publish_handlers
  pub parse_error : Grow 0 c.next_id c.parse_error_handlers

Grow-more : (low high : ℕ) (hs : List Handler) → Grow low high hs → Grow low (high + 1) hs
Grow-more low high [] g = omega arith
Grow-more low high (h ∷ hs) g = (g.0, Grow-more (suc h.id) high hs g.1)

Grow-concat :
    (low high : ℕ) (hs : List Handler) (h : Handler)
    → h.id ≡ high
    → Grow low high hs
    → Grow low (high + 1) (hs ++ h ∷ [])
Grow-concat low high [] h e g = (omega arith, omega arith)
Grow-concat low high (x ∷ hs) h e g = (g.0, Grow-concat (suc x.id) high hs h e g.1)

Grow-lower :
    (low low' high : ℕ) (hs : List Handler) → low ≤ low' → Grow low' high hs → Grow low high hs
Grow-lower low low' high [] h g = omega arith
Grow-lower low low' high (x ∷ hs) h g = (omega arith, g.1)

Grow-erase :
    (low high address : ℕ) (hs : List Handler) → Grow low high hs → Grow low high (erase address hs)
unfolding erase
Grow-erase low high address [] g = g
Grow-erase low high address (x ∷ hs) g = elim (Bool-cases (x.address == address)) [
  | inl e ↦ rw (erase, e) (Grow-lower low (suc x.id) high hs (omega arith) g.1)
  | inr e ↦ rw (erase, e) (g.0, Grow-erase (suc x.id) high address hs g.1)
]

register-AllGrow :
    (type : HandlerType) (address fn : ℕ) (c : Client)
    → AllGrow c
    → AllGrow (register type address fn c).1
unfolding register
register-AllGrow request address fn c g = record {
  request =
      Grow-concat 0 c.next_id c.request_handlers (register request address fn c).0 refl g.request;
  response = Grow-more 0 c.next_id c.response_handlers g.response;
  witness = Grow-more 0 c.next_id c.witness_handlers g.witness;
  publish = Grow-more 0 c.next_id c.publish_handlers g.publish;
  parse_error = Grow-more 0 c.next_id c.parse_error_handlers g.parse_error;
}
register-AllGrow response address fn c g = record {
  request = Grow-more 0 c.next_id c.request_handlers g.request;
  response =
      Grow-concat 0 c.next_id c.response_handlers (register response address fn c).0 refl
        g.response;
  witness = Grow-more 0 c.next_id c.witness_handlers g.witness;
  publish = Grow-more 0 c.next_id c.publish_handlers g.publish;
  parse_error = Grow-more 0 c.next_id c.parse_error_handlers g.parse_error;
}
register-AllGrow witness address fn c g = record {
  request = Grow-more 0 c.next_id c.request_handlers g.request;
  response = Grow-more 0 c.next_id c.response_handlers g.response;
  witness =
      Grow-concat 0 c.next_id c.witness_handlers (register witness address fn c).0 refl g.witness;
  publish = Grow-more 0 c.next_id c.publish_handlers g.publish;
  parse_error = Grow-more 0 c.next_id c.parse_error_handlers g.parse_error;
}
register-AllGrow publish address fn c g = record {
  request = Grow-more 0 c.next_id c.request_handlers g.request;
  response = Grow-more 0 c.next_id c.response_handlers g.response;
  witness = Grow-more 0 c.next_id c.witness_handlers g.witness;
  publish =
      Grow-concat 0 c.next_id c.publish_handlers (register publish address fn c).0 refl g.publish;
  parse_error = Grow-more 0 c.next_id c.parse_error_handlers g.parse_error;
}
register-AllGrow parse_error address fn c g = record {
  request = Grow-more 0 c.next_id c.request_handlers g.request;
  response = Grow-more 0 c.next_id c.response_handlers g.response;
  witness = Grow-more 0 c.next_id c.witness_handlers g.witness;
  publish = Grow-more 0 c.next_id c.publish_handlers g.publish;
  parse_error =
      Grow-concat 0 c.next_id c.parse_error_handlers (register parse_error address fn c).0 refl
        g.parse_error;
}

unregister_in-AllGrow :
    (type : HandlerType) (address : ℕ) (c : Client)
    → AllGrow c
    → AllGrow (unregister_in type address c)
unfolding unregister_in
unregister_in-AllGrow request address c g = record {
  request = Grow-erase 0 c.next_id address c.request_handlers g.request;
  response = g.response;
  witness = g.witness;
  publish = g.publish;
  parse_error = g.parse_error;
}
unregister_in-AllGrow response address c g = record {
  request = g.request;
  response = Grow-erase 0 c.next_id address c.response_handlers g.response;
  witness = g.witness;
  publish = g.publish;
  parse_error = g.parse_error;
}
unregister_in-AllGrow witness address c g = record {
  request = g.request;
  response = g.response;
  witness = Grow-erase 0 c.next_id address c.witness_handlers g.witness;
  publish = g.publish;
  parse_error = g.parse_error;
}
unregister_in-AllGrow publish address c g = record {
  request = g.request;
  response = g.response;
  witness = g.witness;
  publish = Grow-erase 0 c.next_id address c.publish_handlers g.publish;
  parse_error = g.parse_error;
}
unregister_in-AllGrow parse_error address c g = record {
  request = g.request;
  response = g.response;
  witness = g.witness;
  publish = g.publish;
  parse_error = Grow-erase 0 c.next_id address c.parse_error_handlers g.parse_error;
}

-- Whatever handlers are registered on a new client and unregistered, as far as that is defined and
-- whatever handlers are live, those of each type stand in the order in which they were registered,
-- with growing numbers below the next one: no two handlers of a type have the same number.
pub Registered-AllGrow : {c : Client} → Registered c → AllGrow c
Registered-AllGrow (created id) =
    let low : 0 ≤ 0 = omega arith in
    record { request = low; response = low; witness = low; publish = low; parse_error = low }
Registered-AllGrow (added {c} type address fn r) =
    register-AllGrow type address fn c (Registered-AllGrow r)
Registered-AllGrow (removed {c} live pointer r e) =
    elim (unregister_handler-cases live pointer c e) [
      | inl (same, _) ↦ subst AllGrow same (Registered-AllGrow r)
      | inr (address, h, _, same, _) ↦
          subst AllGrow same (unregister_in-AllGrow h.type address c (Registered-AllGrow r))
    ]
