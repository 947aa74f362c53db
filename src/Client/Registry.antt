-- ===== src/Client/Registry.antt =====
-- spore_c/source/client.cpp: what registering and unregistering do to the lists of handlers.
use spore_client_libs.Base.{
  Option-cases, ◌⊎◌, sym, refl, Option, none, ◌∙◌, ℕ, ◌+◌, Bool, true, false, List, [], ◌∷◌, ◌++◌,
  some, ◌==◌, if◌then◌else◌, ◌≡◌, ap, inl, inr, arith, Bool-cases,
}
use spore_client_libs.Client.State.{
  HandlerType, request, response, witness, publish, parse_error, Handler, Client,
}
use spore_client_libs.Client.Handlers.{
  register_request_handler, register_response_handler, register_witness_handler,
  register_publish_handler, register_parse_error_handler, erase, erase_deletes, unregister_in,
  unregister_in_deletes, read_handler, unregister_handler,
}

-- The five functions that register a handler, by the type of the handler.
unfoldable pub register : HandlerType → ℕ → ℕ → Client → Handler × Client
unfolding register_request_handler register_response_handler register_witness_handler
    register_publish_handler register_parse_error_handler
register request address fn c = register_request_handler address fn c
register response address fn c = register_response_handler address fn c
register witness address fn c = register_witness_handler address fn c
register publish address fn c = register_publish_handler address fn c
register parse_error address fn c = register_parse_error_handler address fn c

abbrev pub handlers : HandlerType → Client → List Handler
handlers request c = c.request_handlers
handlers response c = c.response_handlers
handlers witness c = c.witness_handlers
handlers publish c = c.publish_handlers
handlers parse_error c = c.parse_error_handlers

abbrev pub is_at : ℕ → List Handler → Bool
is_at address [] = false
is_at address (h ∷ hs) = if h.address == address then true else is_at address hs

erase-append :
    (h : Handler) (hs : List Handler)
    → is_at h.address hs ≡ false
    → erase h.address (hs ++ h ∷ []) ≡ hs
unfolding erase
erase-append h [] fresh = ground arith
erase-append h (x ∷ hs) fresh = elim (Bool-cases (x.address == h.address)) [
  | inl e ↦ absurd (ground (arith, e))
  | inr e ↦ let ih = erase-append h hs (ground (arith, e)) in rw (e) (ap (λ t. x ∷ t) ih)
]

erase_deletes-append :
    (h : Handler) (hs : List Handler)
    → is_at h.address hs ≡ false
    → erase_deletes h.address (hs ++ h ∷ []) ≡ h.address ∷ []
unfolding erase_deletes
erase_deletes-append h [] fresh = ground arith
erase_deletes-append h (x ∷ hs) fresh = elim (Bool-cases (x.address == h.address)) [
  | inl e ↦ absurd (ground (arith, e))
  | inr e ↦ rw e (erase_deletes-append h hs (ground (arith, e)))
]

read_handler-new :
    (address : ℕ) (h : Handler) (live : List Handler)
    → h.address ≡ address
    → read_handler address (h ∷ live) ≡ some h
unfolding read_handler
read_handler-new address h live e = ground (arith, e)

same_first :
    {x y : Client} {s t : List ℕ}
    → ◌≡◌ {A = Option (Client × List ℕ)} (some (x, s)) (some (y, t))
    → x ≡ y
same_first e = cc

same_second :
    {x y : Client} {s t : List ℕ}
    → ◌≡◌ {A = Option (Client × List ℕ)} (some (x, s)) (some (y, t))
    → s ≡ t
same_second e = cc

is_some : {x : Client × List ℕ} → ¬ (some x ≡ none)
is_some e = cc

-- What unregistering does with the object that it reads.
pub unregister_handler-read :
    (address : ℕ) (live : List Handler) (h : Handler) (c : Client)
    → read_handler address live ≡ some h
    → unregister_handler live (some address) c
      ≡ some (unregister_in h.type address c, unregister_in_deletes h.type address c)
unfolding unregister_handler
unregister_handler-read address live h c e = rw (unregister_handler, e) refl

-- The two ways in which unregistering is defined: a null pointer, and a handler that is live.
pub unregister_handler-cases :
    {c' : Client} {freed : List ℕ}
    → (live : List Handler) (pointer : Option ℕ) (c : Client)
    → unregister_handler live pointer c ≡ some (c', freed)
    → (c ≡ c') × ([] ≡ freed)
      ⊎ ((address : ℕ) × (h : Handler) × (read_handler address live ≡ some h)
          × (unregister_in h.type address c ≡ c')
          × (unregister_in_deletes h.type address c ≡ freed))
unfolding unregister_handler
unregister_handler-cases live none c e = inl (same_first e, same_second e)
unregister_handler-cases live (some address) c e = elim (Option-cases (read_handler address live)) [
  | inl none_there ↦ absurd (is_some (sym e ∙ rw (unregister_handler, none_there) refl))
  | inr (h, read) ↦
      let result = sym (unregister_handler-read address live h c read) ∙ e in
      inr (address, h, read, same_first result, same_second result)
]

-- The client without a handler that was just registered, and what is freed.
unregister_in-register :
    (type : HandlerType) (address fn : ℕ) (c : Client)
    → is_at address (handlers type c) ≡ false
    → (unregister_in type address (register type address fn c).1
        ≡ record c { next_id = c.next_id + 1 })
      × (unregister_in_deletes type address (register type address fn c).1 ≡ address ∷ [])
unfolding unregister_in unregister_in_deletes register
unregister_in-register request address fn c h =
    let new = (register request address fn c).0 in
    (
      ap (λ hs. record c { next_id = c.next_id + 1; request_handlers = hs })
          (erase-append new c.request_handlers h),
      erase_deletes-append new c.request_handlers h,
    )
unregister_in-register response address fn c h =
    let new = (register response address fn c).0 in
    (
      ap (λ hs. record c { next_id = c.next_id + 1; response_handlers = hs })
          (erase-append new c.response_handlers h),
      erase_deletes-append new c.response_handlers h,
    )
unregister_in-register witness address fn c h =
    let new = (register witness address fn c).0 in
    (
      ap (λ hs. record c { next_id = c.next_id + 1; witness_handlers = hs })
          (erase-append new c.witness_handlers h),
      erase_deletes-append new c.witness_handlers h,
    )
unregister_in-register publish address fn c h =
    let new = (register publish address fn c).0 in
    (
      ap (λ hs. record c { next_id = c.next_id + 1; publish_handlers = hs })
          (erase-append new c.publish_handlers h),
      erase_deletes-append new c.publish_handlers h,
    )
unregister_in-register parse_error address fn c h =
    let new = (register parse_error address fn c).0 in
    (
      ap (λ hs. record c { next_id = c.next_id + 1; parse_error_handlers = hs })
          (erase-append new c.parse_error_handlers h),
      erase_deletes-append new c.parse_error_handlers h,
    )

pub register-fields :
    (type : HandlerType) (address fn : ℕ) (c : Client)
    → ((register type address fn c).0.type ≡ type)
      × ((register type address fn c).0.address ≡ address)
unfolding register
register-fields request address fn c = (refl, refl)
register-fields _ address fn c = (refl, refl)

-- To unregister a handler that has just been registered, at an address where no handler of its type
-- is, whatever other handlers are live, is defined, leaves the client as it was before, except that
-- the number of the handler is used up, and frees just that handler. This holds of all five types.
pub unregister_handler-register :
    (type : HandlerType) (address fn : ℕ) (c : Client) (live : List Handler)
    → is_at address (handlers type c) ≡ false
    → unregister_handler
        ((register type address fn c).0 ∷ live)
        (some address)
        (register type address fn c).1
      ≡ some (record c { next_id = c.next_id + 1 }, address ∷ [])
unfolding unregister_handler
unregister_handler-register type address fn c live h =
    let (t, a) = register-fields type address fn c in
    let new = (register type address fn c).0 in
    let c' = (register type address fn c).1 in
    let (client, freed) = unregister_in-register type address fn c h in
    unregister_handler-read address (new ∷ live) new c' (read_handler-new address new live a)
    ∙ ap (λ ty. some (unregister_in ty address c', unregister_in_deletes ty address c')) t
    ∙ rw (client, freed) refl
