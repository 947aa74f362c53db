-- ===== src/Client/Handshake.antt =====
-- spore_c/source/client.cpp, `connect` and `handshake`: what the daemon's reply decides.
use spore_client_libs.Base.{
  ℕ, zero, suc, ◌<◌, true, false, List, [], ◌∷◌, ◌++◌, Option, none, some, ◌==◌, length,
  if◌then◌else◌, ◌≡◌, refl, ap, ◌∙◌, arith, inl, inr, Bool-cases, append_assoc,
}
use spore_client_libs.Base.Text.{Bytes, codes, equal, contains, contains-append, c_str-id}
use spore_client_libs.Client.State.{Client, error, clear_error, has_error}
use spore_client_libs.Client.Connect.{
  Os, Effect, read_reply, strip_newlines, check_reply, handshake, settle, connect_with, connect,
}

-- The reads of a line that the daemon sends, and of whatever it sends behind it.
abbrev pub reads_of : Bytes → List (Option ℕ) → List (Option ℕ)
reads_of [] more = some b'\n' ∷ more
reads_of (b ∷ line) more = some b ∷ reads_of line more

read_reply-reads_of :
    (n : ℕ) (line buf : Bytes) (more : List (Option ℕ))
    → contains b'\n' line ≡ false
    → length line < n
    → read_reply n (reads_of line more) buf ≡ some (buf ++ (line ++ codes "\n"))
unfolding read_reply contains
read_reply-reads_of zero line buf more c h = absurd (omega arith)
read_reply-reads_of (suc n) [] buf more c h = refl
read_reply-reads_of (suc n) (b ∷ line) buf more c h = elim (Bool-cases (b == b'\n')) [
  | inl e ↦ absurd (ground (arith, e))
  | inr e ↦
      rw (read_reply, e)
        (read_reply-reads_of n line (buf ++ b ∷ []) more (ground (arith, e)) (omega arith)
          ∙ rw append_assoc refl)
]

strip_newlines-newline : (s : Bytes) → strip_newlines (s ++ codes "\n") ≡ strip_newlines s
unfolding strip_newlines
strip_newlines-newline [] = refl
strip_newlines-newline (x ∷ s) = rw (strip_newlines, strip_newlines-newline s) refl

-- The client after a handshake with that reply.
abbrev pub answered : Bytes → ℕ → Client → Client
answered line fd c =
    if equal (strip_newlines line) (codes "OK")
    then record c { socket_fd = some fd; connected = true }
    else error (codes "HandshakeFailed") (strip_newlines line) (record c { socket_fd = none })

check_reply-line :
    (line : Bytes) (c : Client)
    → contains 0 line ≡ false
    → (check_reply (some (line ++ codes "\n")) c).0 ≡ (
        if equal (strip_newlines line) (codes "OK")
        then c
        else error (codes "HandshakeFailed") (strip_newlines line) c)
unfolding check_reply contains
check_reply-line line c z =
    let clean : contains 0 (line ++ codes "\n") ≡ false = rw contains-append (ground (arith, z)) in
    rw (check_reply, c_str-id (line ++ codes "\n") clean, strip_newlines-newline line) refl

handshake-line :
    (os : Os) (line : Bytes) (more : List (Option ℕ)) (c : Client)
    → os.writes ≡ true
    → os.reads ≡ reads_of line more
    → contains b'\n' line ≡ false
    → length line < 63
    → (handshake os c).0 ≡ (check_reply (some (line ++ codes "\n")) c).0
unfolding handshake
handshake-line os line more c w r n h =
    let reply = read_reply-reads_of 63 line [] more n h in rw (w, handshake, r, reply) refl

settle-client :
    (o : Client × List Effect)
    → (settle o).0 ≡ (
        if has_error o.0
        then record (o.0) { socket_fd = none }
        else record (o.0) { connected = true })
settle-client (c, effects) = elim (Bool-cases (has_error c)) [
  | inl e ↦ rw (settle, e) refl
  | inr e ↦ rw (settle, e) refl
]

abbrev settled : Client → Client
settled c = if has_error c then record c { socket_fd = none } else record c { connected = true }

-- The daemon sends a line of at most 62 bytes, with no zero byte. If it is `OK`, but for line ends,
-- `connect` leaves the client connected on its new socket and with no error. Otherwise it leaves the
-- client without a socket, with the error `HandshakeFailed` and the line as its description.
pub connect-reply :
    (os : Os) (fd : ℕ) (line : Bytes) (more : List (Option ℕ)) (c : Client)
    → os.socket ≡ some fd
    → os.connects ≡ true
    → os.writes ≡ true
    → os.reads ≡ reads_of line more
    → contains b'\n' line ≡ false
    → contains 0 line ≡ false
    → length line < 63
    → (connect os c).0 ≡ answered line fd (clear_error c)
unfolding connect connect_with
connect-reply os fd line more c s k w r n z h =
    let c' = record (clear_error c) { socket_fd = some fd } in
    let outcome = handshake-line os line more c' w r n h ∙ check_reply-line line c' z in
    let after = settle-client (handshake os c') ∙ ap settled outcome in
    elim (Bool-cases (equal (strip_newlines line) (codes "OK"))) [
      | inl e ↦ rw (connect, s, connect_with, k, after, e) refl
      | inr e ↦ rw (connect, s, connect_with, k, after, e) refl
    ]
