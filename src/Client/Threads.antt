-- ===== src/Client/Threads.antt =====
-- spore_c/source/client.cpp, `writeRaw`: many threads that call it on one client, step by step. What
-- the sending functions do before they call it is not part of the steps.
use spore_client_libs.Base.{
  ℕ, ◌+◌, Bool, true, false, not, List, [], ◌∷◌, ◌++◌, Option, none, some, ◌==◌, if◌then◌else◌, ◌≡◌,
  refl, sym, ap, ◌∙◌, arith, inl, inr, Bool-cases, append_assoc, append-nil,
}
use mathlib.Core.Path.{subst}
use spore_client_libs.Base.Text.{Bytes, codes}
use spore_client_libs.Client.State.{Client, error}
use spore_client_libs.Client.Send.{Writes, write_raw}
pub mod Serial

-- A call of `writeRaw`: its thread, what its two writes come to, and its data.
pub record Call : Type 0 where
  pub thread : ℕ
  pub writes : Writes
  pub data' : Bytes

-- The mutex `writeMu`: free, or held by a call that has written nothing, or its data.
pub data Mutex : Type 0 where
  free : Mutex
  locked : Call → Mutex
  body_written : Call → Mutex

-- What the threads share, and the calls that each has before it. `texts` is what the calls of `write`
-- handed to the socket, in order.
pub record Sending : Type 0 where
  pub client : Client
  pub texts : List Bytes
  pub mutex : Mutex
  pub calls : ℕ → List Call

-- The thread has that call no longer before it.
abbrev pub rest_for : ℕ → List Call → (ℕ → List Call) → ℕ → List Call
rest_for t rest calls u = if u == t then rest else calls u

unfoldable pub lock : Call → List Call → Sending → Sending
lock call rest s = record s { mutex = locked call; calls = rest_for call.thread rest s.calls }

-- The first `write`. A failure returns, which releases the mutex.
unfoldable pub write_body : Call → Sending → Sending
write_body call s =
    let handed = s.texts ++ call.data' ∷ [] in
    if not call.writes.body
    then record s {
      client = error (codes "SendFailed") (codes "failed to write to socket") s.client;
      texts = handed;
      mutex = free;
    }
    else record s { texts = handed; mutex = body_written call }

unfoldable pub write_newline : Call → Sending → Sending
write_newline call s =
    let handed = s.texts ++ codes "\n" ∷ [] in
    if not call.writes.newline
    then record s {
      client = error (codes "SendFailed") (codes "failed to write newline terminator") s.client;
      texts = handed;
      mutex = free;
    }
    else record s { texts = handed; mutex = free }

-- One thread takes one step. The last index has the call that takes the mutex, if one does.
pub data Step : Sending → Sending → List Call → Type 0 where
  locks :
      {s : Sending} (call : Call) (rest : List Call)
      → s.mutex ≡ free
      → s.calls call.thread ≡ call ∷ rest
      → Step s (lock call rest s) (call ∷ [])
  writes_body : {s : Sending} (call : Call) → s.mutex ≡ locked call → Step s (write_body call s) []
  writes_newline :
      {s : Sending} (call : Call) → s.mutex ≡ body_written call → Step s (write_newline call s) []

-- Any steps of any threads, with the calls in the order in which they took the mutex.
pub data Run (s : Sending) : Sending → List Call → Type 0 where
  start : Run s s []
  step :
      {s' s'' : Sending} {order taken : List Call}
      → Run s s' order
      → Step s' s'' taken
      → Run s s'' (order ++ taken)

-- The calls one after the other, as one thread would make them.
unfoldable pub serial : List Call → Client → Client × List Bytes
unfolding write_raw
serial [] c = (c, [])
serial (call ∷ more) c =
    let (c', texts) = write_raw call.writes call.data' c in
    let (c'', texts') = serial more c' in (c'', texts ++ texts')

-- The calls of one thread.
abbrev pub made_by : ℕ → List Call → List Call
made_by t [] = []
made_by t (x ∷ xs) = if t == x.thread then x ∷ made_by t xs else made_by t xs
