-- ===== src/Client/Stream.antt =====
-- spore_c/source/client.cpp, `listen`, and a description of it byte by byte.
use spore_client_libs.Base.{
  ℕ, zero, suc, ◌≤◌, true, false, List, [], ◌∷◌, ◌++◌, Option, none, some, ◌==◌, length, take, drop,
  ◌≡◌, refl, sym, ap, ◌∙◌, inl, inr, arith, Bool-cases, Option-cases, append-nil, append_assoc,
}
use spore_client_libs.Base.Text.{Bytes, find?, contains, contains-find?_none, find?-some}
use spore_client_libs.Client.State.{Client}
use spore_client_libs.Client.Frame.{Framer}
use spore_client_libs.Client.Dispatch.{Event}
use spore_client_libs.Client.Listen.{Run, with_events, ◌>>=◌, on_line, drain, receive}

-- The state of the framer, the events and the bytes of the line that has begun.
abbrev pub Streamed : Type 0
Streamed = Option (Framer × List Event × Bytes)

abbrev pub prepend : List Event → Streamed → Streamed
prepend es none = none
prepend es (some (f, es', buf)) = some (f, es ++ es', buf)

-- A line ends, and the rest of the bytes is `k`.
abbrev pub after_line : Run → (Framer → Streamed) → Streamed
after_line none k = none
after_line (some (f, es)) k = prepend es (k f)

-- The bytes one after another: a newline ends the line that has begun.
unfoldable pub stream : Client → Bytes → Bytes → Framer → Streamed
stream c [] buf f = some (f, [], buf)
stream c (b ∷ bs) buf f = elim (b == b'\n') [
  | true ↦ after_line (on_line c buf f) (λ f'. stream c bs [] f')
  | false ↦ stream c bs (buf ++ b ∷ []) f
]

pub prepend-nil : (s : Streamed) → prepend [] s ≡ s
prepend-nil none = refl
prepend-nil (some (f, es, buf)) = refl

prepend-prepend :
    (es es' : List Event) (s : Streamed) → prepend es (prepend es' s) ≡ prepend (es ++ es') s
prepend-prepend es es' none = refl
prepend-prepend es es' (some (f, es'', buf)) = rw append_assoc

-- Bytes with no newline only grow the line.
pub stream_line :
    (c : Client) (w rest buf : Bytes) (f : Framer)
    → contains b'\n' w ≡ false
    → stream c (w ++ rest) buf f ≡ stream c rest (buf ++ w) f
unfolding stream contains
stream_line c [] rest buf f h = rw append-nil
stream_line c (b ∷ w) rest buf f h = elim (Bool-cases (b == b'\n')) [
  | inl e ↦ absurd (ground arith)
  | inr e ↦ rw (e, stream) (stream_line c w rest (buf ++ b ∷ []) f (ground arith) ∙ rw append_assoc)
]

pub stream_newline :
    (c : Client) (rest buf : Bytes) (f : Framer)
    → stream c (b'\n' ∷ rest) buf f ≡ after_line (on_line c buf f) (λ f'. stream c rest [] f')
unfolding stream
stream_newline c rest buf f = refl

abbrev joined : Run × Bytes → Streamed
joined (none, buf) = none
joined (some (f, es), buf) = some (f, es, buf)

-- The first line of a buffer ends at its first newline.
stream_first :
    (c : Client) (buf : Bytes) (f : Framer) (pos : ℕ) (r : Run)
    → find? b'\n' buf ≡ some pos
    → on_line c (take pos buf) f ≡ r
    → stream c buf [] f ≡ after_line r (λ f'. stream c (drop (suc pos) buf) [] f')
stream_first c buf f pos r e e' =
    let (line, split, _) = find?-some b'\n' buf pos e in
    ap (λ w. stream c w [] f) split
    ∙ stream_line c (take pos buf) (b'\n' ∷ drop (suc pos) buf) [] f line
    ∙ stream_newline c (drop (suc pos) buf) (take pos buf) f
    ∙ ap (λ x. after_line x (λ f'. stream c (drop (suc pos) buf) [] f')) e'

joined-with_events :
    (es : List Event) (r : Run) (buf : Bytes)
    → joined (with_events es r, buf) ≡ prepend es (joined (r, buf))
joined-with_events es none buf = refl
joined-with_events es (some (f, es')) buf = refl

pub fuel_left :
    (buf : Bytes) (pos n : ℕ)
    → find? b'\n' buf ≡ some pos
    → length buf ≤ suc n
    → length (drop (suc pos) buf) ≤ n
fuel_left buf pos n e h = let (_, _, shorter) = find?-some b'\n' buf pos e in omega arith

-- Enough fuel: with as much fuel as bytes, every line in the buffer is handled, and the loop leaves
-- the state that the bytes one after another leave.
drain-stream :
    (n : ℕ) (c : Client) (buf : Bytes) (f : Framer)
    → length buf ≤ n
    → joined (drain n c buf f) ≡ stream c buf [] f
unfolding drain stream
drain-stream zero c [] f h = refl
drain-stream zero c (_ ∷ _) f h = elim h [ ]
drain-stream (suc n) c buf f h = elim (Option-cases (find? b'\n' buf)) [
  | inl e ↦
      let settled = contains-find?_none b'\n' buf e in
      rw (joined, drain, e)
        (sym (ap (λ w. stream c w [] f) (sym (append-nil buf)) ∙ stream_line c buf [] [] f settled))
  | inr (pos, e) ↦ elim (Option-cases (on_line c (take pos buf) f)) [
    | inl e' ↦ rw (joined, drain, e, e', stream_first c buf f pos _ e e') refl
    | inr ((f', es), e') ↦
        let ih = drain-stream n c (drop (suc pos) buf) f' (fuel_left buf pos n e h) in
        rw (joined, drain, e, e', stream_first c buf f pos _ e e')
          (joined-with_events es _ _ ∙ ap (prepend es) ih)
  ]
]

-- Whatever is left in the buffer has no newline.
abbrev pub Settled : Run × Bytes → Type 0
Settled (none, rest) = Unit
Settled (some r, rest) = contains b'\n' rest ≡ false

Settled-with_events :
    (es : List Event) (d : Run × Bytes) → Settled d → Settled (with_events es d.0, d.1)
Settled-with_events es (none, rest) h = h
Settled-with_events es (some (f, es'), rest) h = h

pub drain-Settled :
    (n : ℕ) (c : Client) (buf : Bytes) (f : Framer) → length buf ≤ n → Settled (drain n c buf f)
unfolding drain contains
drain-Settled zero c [] f h = refl
drain-Settled zero c (_ ∷ _) f h = elim h [ ]
drain-Settled (suc n) c buf f h = elim (Option-cases (find? b'\n' buf)) [
  | inl e ↦ rw (Settled, drain, e) (contains-find?_none b'\n' buf e)
  | inr (pos, e) ↦ elim (Option-cases (on_line c (take pos buf) f)) [
    | inl e' ↦ rw (Settled, drain, e, e') tt
    | inr ((f', es), e') ↦
        rw (Settled, drain, e, e')
          (Settled-with_events es (drain n c (drop (suc pos) buf) f')
            (drain-Settled n c (drop (suc pos) buf) f' (fuel_left buf pos n e h)))
  ]
]

abbrev pub follow : Streamed → (Framer → Bytes → Streamed) → Streamed
follow none k = none
follow (some (f, es, buf)) k = prepend es (k f buf)

follow-prepend :
    (es : List Event) (s : Streamed) (k : Framer → Bytes → Streamed)
    → follow (prepend es s) k ≡ prepend es (follow s k)
follow-prepend es none k = refl
follow-prepend es (some (f, es', buf)) k = sym (prepend-prepend es es' (k f buf))

follow-after_line :
    (r : Run) (k : Framer → Streamed) (k' : Framer → Bytes → Streamed)
    → follow (after_line r k) k' ≡ after_line r (λ f. follow (k f) k')
follow-after_line none k k' = refl
follow-after_line (some (f, es)) k k' = follow-prepend es (k f) k'

after_line_ext :
    (r : Run) (k k' : Framer → Streamed)
    → ((f : Framer) → k f ≡ k' f)
    → after_line r k ≡ after_line r k'
after_line_ext none k k' h = refl
after_line_ext (some (f, es)) k k' h = ap (prepend es) (h f)

pub stream-append :
    (c : Client) (xs ys buf : Bytes) (f : Framer)
    → stream c (xs ++ ys) buf f ≡ follow (stream c xs buf f) (λ f' rest. stream c ys rest f')
unfolding stream
stream-append c [] ys buf f = sym (prepend-nil (stream c ys buf f))
stream-append c (b ∷ xs) ys buf f = elim (Bool-cases (b == b'\n')) [
  | inl e ↦
      rw (stream, e, follow-after_line)
        (after_line_ext (on_line c buf f) (λ f'. stream c (xs ++ ys) [] f') _
          (λ f'. stream-append c xs ys [] f'))
  | inr e ↦ rw (stream, e) (stream-append c xs ys (buf ++ b ∷ []) f)
]

abbrev pub forget : Streamed → Run
forget none = none
forget (some (f, es, buf)) = some (f, es)

forget-prepend :
    (es : List Event) (s : Streamed) → forget (prepend es s) ≡ with_events es (forget s)
forget-prepend es none = refl
forget-prepend es (some (f, es', buf)) = refl

-- The bytes that are received before the first empty read.
abbrev pub received : List Bytes → Bytes
received [] = []
received ([] ∷ chunks) = []
received ((b ∷ bs) ∷ chunks) = (b ∷ bs) ++ received chunks

receive_rest :
    (c : Client) (chunks : List Bytes) (d : Run × Bytes) (k : Framer → Bytes → Streamed)
    → ((rest : Bytes) (f : Framer)
        → contains b'\n' rest ≡ false
        → receive c chunks rest f ≡ forget (k f rest))
    → Settled d
    → (d.0 >>= (λ f'. receive c chunks d.1 f')) ≡ forget (follow (joined d) k)
receive_rest c chunks (none, rest) k ih h = refl
receive_rest c chunks (some (f, es), rest) k ih h =
    rw (ih rest f h) (sym (forget-prepend es (k f rest)))

pub receive-stream :
    (c : Client) (chunks : List Bytes) (buf : Bytes) (f : Framer)
    → contains b'\n' buf ≡ false
    → receive c chunks buf f ≡ forget (stream c (received chunks) buf f)
unfolding receive stream
receive-stream c [] buf f h = refl
receive-stream c ([] ∷ chunks) buf f h = refl
receive-stream c ((b ∷ bs) ∷ chunks) buf f h =
    let all = buf ++ b ∷ bs in
    let d = drain (length all) c all f in
    let fuel : length all ≤ length all = omega arith in
    let drained = drain-stream (length all) c all f fuel ∙ stream_line c buf (b ∷ bs) [] f h in
    receive_rest c chunks d (λ f' rest. stream c (received chunks) rest f')
      (λ rest f' settled. receive-stream c chunks rest f' settled)
      (drain-Settled (length all) c all f fuel)
    ∙ ap (λ s. forget (follow s (λ f' rest. stream c (received chunks) rest f'))) drained
    ∙ ap forget (sym (stream-append c (b ∷ bs) (received chunks) buf f))
