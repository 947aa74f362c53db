-- ===== src/Client/Holding.antt =====
-- spore_c/source/client.cpp, the lists of handlers: what a client holds, against what is live.
use mathlib.Core.Path.{subst}
use spore_client_libs.Base.{
  ℕ, ◌+◌, ◌≤◌, true, false, List, [], ◌∷◌, some, ◌==◌, ◌≡◌, refl, sym, ◌∙◌, arith, inl, inr,
  Bool-cases, not, ◌&&◌,
}
use spore_client_libs.Client.State.{
  HandlerType, request, response, witness, publish, parse_error, Handler, Client,
}
use spore_client_libs.Client.Handlers.{
  read_handler, unregister_in, unregister_in_deletes, delete_all,
}
use spore_client_libs.Client.Connect.{disconnect, destroy, is_none}
use spore_client_libs.Client.Registry.{register, register-fields, handlers, is_at}
use spore_client_libs.Client.Freeing.{
  free_all, one, count, count-append, free-count, erase-count, delete_all-concat, is_at-count,
  is_at-count_none, is_at-count_zero, is_at-concat, is_at-last, is_at-erase, erase_deletes-is_at,
  is_at-read_handler, read_handler-free,
}

-- How often the address is among the handlers of the client.
abbrev pub handler_count : ℕ → Client → ℕ
handler_count b c =
    count b (delete_all c.request_handlers)
    + (count b (delete_all c.response_handlers)
        + (count b (delete_all c.witness_handlers)
            + (count b (delete_all c.publish_handlers)
                + count b (delete_all c.parse_error_handlers))))

handler_count-register :
    (b : ℕ) (type : HandlerType) (address fn : ℕ) (c : Client)
    → handler_count b (register type address fn c).1 ≡ one address b + handler_count b c
unfolding register
handler_count-register b request address fn c =
    omega (arith, delete_all-concat b c.request_handlers (register request address fn c).0)
handler_count-register b response address fn c =
    omega (arith, delete_all-concat b c.response_handlers (register response address fn c).0)
handler_count-register b witness address fn c =
    omega (arith, delete_all-concat b c.witness_handlers (register witness address fn c).0)
handler_count-register b publish address fn c =
    omega (arith, delete_all-concat b c.publish_handlers (register publish address fn c).0)
handler_count-register b parse_error address fn c =
    omega (arith, delete_all-concat b c.parse_error_handlers (register parse_error address fn c).0)

handler_count-unregister_in :
    (b : ℕ) (type : HandlerType) (address : ℕ) (c : Client)
    → handler_count b (unregister_in type address c)
        + count b (unregister_in_deletes type address c)
      ≡ handler_count b c
unfolding unregister_in unregister_in_deletes
handler_count-unregister_in b request a c = omega (arith, erase-count b a c.request_handlers)
handler_count-unregister_in b response a c = omega (arith, erase-count b a c.response_handlers)
handler_count-unregister_in b witness a c = omega (arith, erase-count b a c.witness_handlers)
handler_count-unregister_in b publish a c = omega (arith, erase-count b a c.publish_handlers)
handler_count-unregister_in b parse_error a c =
    omega (arith, erase-count b a c.parse_error_handlers)

pub destroy-handler_count : (b : ℕ) (c : Client) → count b (destroy c).0 ≡ handler_count b c
unfolding destroy disconnect
destroy-handler_count b c = elim (Bool-cases (not c.connected && is_none c.socket_fd)) [
  | inl e ↦ rw (destroy, disconnect, e) (simp count-append)
  | inr e ↦ rw (destroy, disconnect, e) (simp count-append)
]

-- Registering adds to one of the lists, and unregistering takes one address away from one.
is_at-register :
    (a : ℕ) (t type : HandlerType) (address fn : ℕ) (c : Client)
    → is_at a (handlers t c) ≡ true
    → is_at a (handlers t (register type address fn c).1) ≡ true
unfolding register
is_at-register a request request address fn c h = is_at-concat a c.request_handlers _ h
is_at-register a response response address fn c h = is_at-concat a c.response_handlers _ h
is_at-register a witness witness address fn c h = is_at-concat a c.witness_handlers _ h
is_at-register a publish publish address fn c h = is_at-concat a c.publish_handlers _ h
is_at-register a parse_error parse_error address fn c h = is_at-concat a c.parse_error_handlers _ h
is_at-register a _ _ address fn c h = h

is_at-registered :
    (type : HandlerType) (address fn : ℕ) (c : Client)
    → is_at address (handlers type (register type address fn c).1) ≡ true
unfolding register
is_at-registered request address fn c =
    is_at-last c.request_handlers (register request address fn c).0
is_at-registered response address fn c =
    is_at-last c.response_handlers (register response address fn c).0
is_at-registered witness address fn c =
    is_at-last c.witness_handlers (register witness address fn c).0
is_at-registered publish address fn c =
    is_at-last c.publish_handlers (register publish address fn c).0
is_at-registered parse_error address fn c =
    is_at-last c.parse_error_handlers (register parse_error address fn c).0

is_at-unregister_in :
    (b : ℕ) (t type : HandlerType) (a : ℕ) (c : Client)
    → (b == a) ≡ false
    → is_at b (handlers t c) ≡ true
    → is_at b (handlers t (unregister_in type a c)) ≡ true
unfolding unregister_in
is_at-unregister_in b request request a c n h = is_at-erase b a c.request_handlers n h
is_at-unregister_in b response response a c n h = is_at-erase b a c.response_handlers n h
is_at-unregister_in b witness witness a c n h = is_at-erase b a c.witness_handlers n h
is_at-unregister_in b publish publish a c n h = is_at-erase b a c.publish_handlers n h
is_at-unregister_in b parse_error parse_error a c n h = is_at-erase b a c.parse_error_handlers n h
is_at-unregister_in b _ _ a c n h = h

unregister_in_deletes-is_at :
    (type : HandlerType) (a : ℕ) (c : Client)
    → is_at a (handlers type c) ≡ true
    → unregister_in_deletes type a c ≡ a ∷ []
unfolding unregister_in_deletes
unregister_in_deletes-is_at request a c h = erase_deletes-is_at a c.request_handlers h
unregister_in_deletes-is_at response a c h = erase_deletes-is_at a c.response_handlers h
unregister_in_deletes-is_at witness a c h = erase_deletes-is_at a c.witness_handlers h
unregister_in_deletes-is_at publish a c h = erase_deletes-is_at a c.publish_handlers h
unregister_in_deletes-is_at parse_error a c h = erase_deletes-is_at a c.parse_error_handlers h

-- What is live is what the client has, each handler once and in the list of its type.
pub record Holds (c : Client) (live : List Handler) : Type 0 where
  pub counts : (b : ℕ) → count b (delete_all live) ≡ handler_count b c
  pub once : (b : ℕ) → count b (delete_all live) ≤ 1
  pub listed :
      (b : ℕ) (h : Handler) → read_handler b live ≡ some h → is_at b (handlers h.type c) ≡ true

same_handler : {x y : Handler} → some x ≡ some y → x ≡ y
same_handler e = cc

pub added-Holds :
    {c : Client} {live : List Handler} (type : HandlerType) (address fn : ℕ)
    → is_at address live ≡ false
    → Holds c live
    → Holds (register type address fn c).1 ((register type address fn c).0 ∷ live)
unfolding count one read_handler
added-Holds {c} {live} type address fn fresh held =
    let (t, a) = register-fields type address fn c in
    let unused = is_at-count_zero address live fresh in
    record {
      counts = λ b. rw a (omega (arith, held.counts b, handler_count-register b type address fn c));
      once = λ b. rw a (ground (arith, held.once b, unused));
      listed = λ b x e. elim (Bool-cases (address == b)) [
        | inl same ↦
            let new : some (register type address fn c).0 ≡ some x =
              sym (rw (read_handler, a, same) refl) ∙ e in
            let b_is : address ≡ b = ground (arith, same) in
            rw (sym (same_handler new), t, sym b_is) (is_at-registered type address fn c)
        | inr other ↦
            let old : read_handler b live ≡ some x = sym (rw (read_handler, a, other) refl) ∙ e in
            is_at-register b x.type type address fn c (held.listed b x old)
      ];
    }

-- A live handler is unregistered: its list has it, it is freed, and the rest holds.
pub record Unregistered (c : Client) (live : List Handler) (a : ℕ) (h : Handler) : Type 0 where
  pub deletes : unregister_in_deletes h.type a c ≡ a ∷ []
  pub left : List Handler
  pub freed : free_all (a ∷ []) live ≡ some left
  pub gone : is_at a left ≡ false
  pub holds : Holds (unregister_in h.type a c) left

pub unregister_in-Unregistered :
    {c : Client} {live : List Handler} (a : ℕ) (h : Handler)
    → Holds c live
    → read_handler a live ≡ some h
    → Unregistered c live a h
unfolding free_all count one
unregister_in-Unregistered {c} {live} a h held read =
    let deletes = unregister_in_deletes-is_at h.type a c (held.listed a h read) in
    let (left, freed, counts) =
      free-count a live (is_at-count a live (is_at-read_handler a live read)) in
    let gone = is_at-count_none a left (ground (arith, counts a, held.once a)) in
    record {
      deletes = deletes;
      left = left;
      freed = rw (free_all, freed) refl;
      gone = gone;
      holds = record {
        counts = λ b.
            let moved : handler_count b (unregister_in h.type a c) + count b (a ∷ [])
                ≡ handler_count b c =
              subst
                (λ fs. handler_count b (unregister_in h.type a c) + count b fs ≡ handler_count b c)
                deletes (handler_count-unregister_in b h.type a c) in
            omega (arith, moved, counts b, held.counts b);
        once = λ b. omega (arith, counts b, held.once b);
        listed = λ b x e. elim (Bool-cases (b == a)) [
          | inl same ↦ absurd (ground (arith, same, gone, is_at-read_handler b left e))
          | inr other ↦
              is_at-unregister_in b x.type h.type a c other
                (held.listed b x (sym (read_handler-free b a live left other freed) ∙ e))
        ];
      };
    }

pub handler_count-none :
    (a : ℕ) (t : HandlerType) (c : Client) → handler_count a c ≡ 0 → is_at a (handlers t c) ≡ false
handler_count-none a request c h = is_at-count_none a c.request_handlers (omega arith)
handler_count-none a response c h = is_at-count_none a c.response_handlers (omega arith)
handler_count-none a witness c h = is_at-count_none a c.witness_handlers (omega arith)
handler_count-none a publish c h = is_at-count_none a c.publish_handlers (omega arith)
handler_count-none a parse_error c h = is_at-count_none a c.parse_error_handlers (omega arith)
