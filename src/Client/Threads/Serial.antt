-- ===== src/Client/Threads/Serial.antt =====
-- spore_c/source/client.cpp, `writeRaw`: the steps of many threads against calls one after the other.
use spore_client_libs.Base.{
  ℕ, Bool, true, not, List, [], ◌∷◌, ◌++◌, ◌==◌, if◌then◌else◌, ◌≡◌, refl, sym, ap, ◌∙◌, arith, inl,
  inr, Bool-cases, append_assoc, append-nil,
}
use mathlib.Core.Path.{subst}
use spore_client_libs.Base.Text.{codes}
use spore_client_libs.Client.State.{Client, error}
use spore_client_libs.Client.Send.{write_raw}
use spore_client_libs.Client.Threads.{
  Call, Mutex, free, locked, body_written, Sending, lock, write_body, write_newline, Step, locks,
  writes_body, writes_newline, Run, start, step, serial, made_by,
}

serial-concat :
    (order : List Call) (call : Call) (c : Client)
    → serial (order ++ call ∷ []) c ≡ (
        let o = serial order c in
        let last = write_raw call.writes call.data' o.0 in (last.0, o.1 ++ last.1))
unfolding serial
serial-concat [] call c = rw append-nil refl
serial-concat (x ∷ order) call c =
    let c' = (write_raw x.writes x.data' c).0 in rw (serial-concat order call c', append_assoc) refl

made_by-append : (t : ℕ) (xs ys : List Call) → made_by t (xs ++ ys) ≡ made_by t xs ++ made_by t ys
made_by-append t [] ys = refl
made_by-append t (x ∷ xs) ys = elim (Bool-cases (t == x.thread)) [
  | inl e ↦ rw (e, made_by-append t xs ys) refl
  | inr e ↦ rw (e, made_by-append t xs ys) refl
]

-- Up to the call that holds the mutex, everything is as if the calls were made one after the other.
abbrev IsSerial : Client → List Call → Sending → Mutex → Type 0
IsSerial c order s free = (s.client ≡ (serial order c).0) × (s.texts ≡ (serial order c).1)
IsSerial c order s (locked call) =
    (before : List Call) × (order ≡ before ++ call ∷ [])
    × (s.client ≡ (serial before c).0)
    × (s.texts ≡ (serial before c).1)
IsSerial c order s (body_written call) =
    (before : List Call) × (order ≡ before ++ call ∷ [])
    × (s.client ≡ (serial before c).0)
    × (s.texts ≡ (serial before c).1 ++ call.data' ∷ [])
    × (call.writes.body ≡ true)

write_body-written :
    (call : Call) (s : Sending)
    → call.writes.body ≡ true
    → write_body call s ≡ record s { texts = s.texts ++ call.data' ∷ []; mutex = body_written call }
unfolding write_body
write_body-written call s e =
    ap
      (λ (b : Bool).
        if not b
        then record s {
          client = error (codes "SendFailed") (codes "failed to write to socket") s.client;
          texts = s.texts ++ call.data' ∷ [];
          mutex = free;
        }
        else record s { texts = s.texts ++ call.data' ∷ []; mutex = body_written call })
      e

write_body-IsSerial :
    (c : Client) (order : List Call) (s : Sending) (call : Call)
    → IsSerial c order s (locked call)
    → IsSerial c order (write_body call s) (write_body call s).mutex
unfolding write_body write_raw
write_body-IsSerial c order s call (before, o, client, texts) = elim (Bool-cases call.writes.body) [
  | inl e ↦
      rw (write_body-written call s e)
        (before, o, client, ap (λ ts. ts ++ call.data' ∷ []) texts, e)
  | inr e ↦
      rw (write_body, e, o, serial-concat before call c, write_raw, e, client, texts) (refl, refl)
]

write_newline-IsSerial :
    (c : Client) (order : List Call) (s : Sending) (call : Call)
    → IsSerial c order s (body_written call)
    → IsSerial c order (write_newline call s) (write_newline call s).mutex
unfolding write_newline write_raw
write_newline-IsSerial c order s call (before, o, client, texts, e) =
    elim (Bool-cases call.writes.newline) [
      | inl f ↦
          rw
            (
              write_newline,
              f,
              o,
              serial-concat before call c,
              write_raw,
              e,
              f,
              client,
              texts,
              append_assoc,
            )
            (refl, refl)
      | inr f ↦
          rw
            (
              write_newline,
              f,
              o,
              serial-concat before call c,
              write_raw,
              e,
              f,
              client,
              texts,
              append_assoc,
            )
            (refl, refl)
    ]

Step-IsSerial :
    (c : Client) (order : List Call) {s s' : Sending} {taken : List Call}
    → IsSerial c order s s.mutex
    → Step s s' taken
    → IsSerial c (order ++ taken) s' s'.mutex
unfolding lock
Step-IsSerial c order {s} h (locks call rest e w) =
    let (client, texts) = subst (λ m. IsSerial c order s m) e h in (order, refl, client, texts)
Step-IsSerial c order {s} h (writes_body call e) =
    rw (append-nil order)
      (write_body-IsSerial c order s call (subst (λ m. IsSerial c order s m) e h))
Step-IsSerial c order {s} h (writes_newline call e) =
    rw (append-nil order)
      (write_newline-IsSerial c order s call (subst (λ m. IsSerial c order s m) e h))

-- Each thread's calls take the mutex in the order in which it makes them.
abbrev AreMade : (ℕ → List Call) → List Call → Sending → Type 0
AreMade calls order s = (t : ℕ) → made_by t order ++ s.calls t ≡ calls t

Step-AreMade :
    (calls : ℕ → List Call) (order : List Call) {s s' : Sending} {taken : List Call}
    → AreMade calls order s
    → Step s s' taken
    → AreMade calls (order ++ taken) s'
unfolding lock write_body write_newline
Step-AreMade calls order {s} h (locks call rest e w) t = elim (Bool-cases (t == call.thread)) [
  | inl same ↦
      rw (made_by-append t order (call ∷ []), same)
        (append_assoc (made_by t order) (call ∷ []) rest
          ∙ ap (λ xs. made_by t order ++ xs) (sym w)
          ∙ ground (arith, same, h t))
  | inr other ↦ rw (made_by-append t order (call ∷ []), other, append-nil) (h t)
]
Step-AreMade calls order {s} h (writes_body call e) t = rw (append-nil order) (ground (arith, h t))
Step-AreMade calls order {s} h (writes_newline call e) t =
    rw (append-nil order) (ground (arith, h t))

Run-IsSerial :
    {s s' : Sending} {order : List Call}
    → s.mutex ≡ free
    → s.texts ≡ []
    → Run s s' order
    → IsSerial s.client order s' s'.mutex × AreMade s.calls order s'
unfolding serial
Run-IsSerial {s} e n start = (subst (λ m. IsSerial s.client [] s m) (sym e) (refl, n), λ t. refl)
Run-IsSerial {s} e n (step {s'} {s''} {order} {taken} run next) =
    let (h, made) = Run-IsSerial e n run in
    (Step-IsSerial s.client order h next, Step-AreMade s.calls order made next)

-- Threads call `writeRaw` on one client, each its own calls one after the other, and the steps of
-- different threads come in any order. Whenever the mutex is free, the texts handed to the socket and
-- the errors of the client are those of the calls made so far, one after the other as a whole, in the
-- order in which they took the mutex; and that order has each thread's calls in its own order.
pub Run-write_raw :
    {s s' : Sending} {order : List Call} (t : ℕ)
    → s.mutex ≡ free
    → s.texts ≡ []
    → Run s s' order
    → s'.mutex ≡ free
    → (serial order s.client ≡ (s'.client, s'.texts)) × (made_by t order ++ s'.calls t ≡ s.calls t)
Run-write_raw {s} {s'} {order} t e n run done =
    let (h, made) = Run-IsSerial e n run in
    let (client, texts) = subst (λ m. IsSerial s.client order s' m) done h in
    (rw (client, texts) refl, made t)
