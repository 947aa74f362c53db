-- ===== src/Client/Sockets.antt =====
-- spore_c/source/client.cpp, `connect`, `disconnect` and the sending functions: which sockets a
-- client holds.
use spore_client_libs.Base.{
  ℕ, false, not, List, [], ◌∷◌, ◌++◌, Option, none, some, ◌==◌, if◌then◌else◌, ◌≡◌, refl, sym, ap,
  ◌∙◌, inl, inr, arith, Bool-cases, Option-cases,
}
use spore_client_libs.Base.Text.{Bytes}
use spore_client_libs.Client.Platform.{Platform, windows}
use spore_client_libs.Client.State.{Client, new_client, has_error, clear_error}
use spore_client_libs.Client.Connect.{
  Os, Effect, started_up, dialled, start_up, opened, closed, wrote, read_timeout, read_reply,
  check_reply, handshake, settle, close, connect_with, connect, disconnect, is_none,
}
use spore_client_libs.Client.Send.{Writes, send_raw}

abbrev remove : ℕ → List ℕ → List ℕ
remove fd [] = []
remove fd (x ∷ xs) = if x == fd then xs else x ∷ remove fd xs

-- The descriptors that are open after some effects, from those that were open before.
abbrev pub held : List ℕ → List Effect → List ℕ
held fds [] = fds
held fds (started_up ∷ es) = held fds es
held fds (dialled fd path ∷ es) = held fds es
held fds (opened fd ∷ es) = held (fd ∷ fds) es
held fds (closed fd ∷ es) = held (remove fd fds) es
held fds (wrote fd s ∷ es) = held fds es
held fds (read_timeout fd n ∷ es) = held fds es

-- The clients that a program can get to, with the descriptors that are open, if it calls `connect`
-- only while the client is not connected.
pub data Reachable : Client → List ℕ → Type 0 where
  created : (id : Bytes) → Reachable (new_client id) []
  connected :
      {c : Client} {fds : List ℕ} (os : Os)
      → c.connected ≡ false
      → Reachable c fds
      → Reachable (connect os c).0 (held fds (connect os c).1)
  disconnected :
      {c : Client} {fds : List ℕ}
      → Reachable c fds
      → Reachable (disconnect c).0 (held fds (disconnect c).1)
  sent :
      {c : Client} {fds : List ℕ} (w : Writes) (data' : Bytes)
      → Reachable c fds
      → Reachable (send_raw w data' c).0 fds

abbrev pub fd_list : Option ℕ → List ℕ
fd_list none = []
fd_list (some fd) = fd ∷ []

-- A client is connected exactly while it has a socket, and that one is all that is open.
abbrev pub HoldsSocket : Client → List ℕ → Type 0
HoldsSocket c fds = (is_none c.socket_fd ≡ not c.connected) × (fds ≡ fd_list c.socket_fd)

held-append : (fds : List ℕ) (xs ys : List Effect) → held fds (xs ++ ys) ≡ held (held fds xs) ys
held-append fds [] ys = refl
held-append fds (started_up ∷ xs) ys = held-append fds xs ys
held-append fds (dialled fd path ∷ xs) ys = held-append fds xs ys
held-append fds (opened fd ∷ xs) ys = held-append (fd ∷ fds) xs ys
held-append fds (closed fd ∷ xs) ys = held-append (remove fd fds) xs ys
held-append fds (wrote fd s ∷ xs) ys = held-append fds xs ys
held-append fds (read_timeout fd n ∷ xs) ys = held-append fds xs ys

check_reply-socket :
    (r : Option Bytes) (c : Client) (fds : List ℕ)
    → ((check_reply r c).0.socket_fd ≡ c.socket_fd)
      × ((check_reply r c).0.connected ≡ c.connected)
      × (held fds (check_reply r c).1 ≡ fds)
unfolding check_reply
check_reply-socket none c fds = (refl, refl, refl)
check_reply-socket (some buf) c fds = ground arith

pub handshake-socket :
    (os : Os) (c : Client) (fds : List ℕ)
    → ((handshake os c).0.socket_fd ≡ c.socket_fd)
      × ((handshake os c).0.connected ≡ c.connected)
      × (held fds (handshake os c).1 ≡ fds)
unfolding handshake
handshake-socket os c fds =
    let replied = check_reply-socket (read_reply 63 os.reads []) c fds in
    ground (arith, replied.0, replied.1, replied.2)

remove_self : (fd : ℕ) → remove fd (fd ∷ []) ≡ []
remove_self fd = ground arith

settle-HoldsSocket :
    (c : Client) (es : List Effect) (fd : ℕ)
    → c.socket_fd ≡ some fd
    → c.connected ≡ false
    → held (fd ∷ []) es ≡ fd ∷ []
    → HoldsSocket (settle (c, es)).0 (held (fd ∷ []) (settle (c, es)).1)
settle-HoldsSocket c es fd s k h =
    let both = held-append (fd ∷ []) es (close (some fd)) in
    let closed_it = remove_self fd in
    elim (Bool-cases (has_error c)) [
      | inl e ↦
          rw (settle, e, s, k) (refl, both ∙ ap (λ fds. held fds (close (some fd))) h ∙ closed_it)
      | inr e ↦ rw (settle, e, s) (refl, h)
    ]

connect_with-HoldsSocket :
    (r : Option ℕ) (os : Os) (c : Client)
    → HoldsSocket c []
    → c.connected ≡ false
    → HoldsSocket (connect_with r os c).0 (held [] (connect_with r os c).1)
unfolding connect_with
connect_with-HoldsSocket none os c h k = h
connect_with-HoldsSocket (some fd) os c h k =
    let c' = record c { socket_fd = some fd } in
    let shaken = handshake-socket os c' (fd ∷ []) in
    let settled =
      settle-HoldsSocket (handshake os c').0 (handshake os c').1 fd shaken.0 (shaken.1 ∙ k)
        shaken.2 in
    elim (Bool-cases os.connects) [ inl e ↦ rw e settled | inr e ↦ rw (e, remove_self) h ]

held-start_up :
    (fds : List ℕ) (p : Platform) (es : List Effect) → held fds (start_up p ++ es) ≡ held fds es
held-start_up fds windows es = refl
held-start_up fds _ es = refl

connect-HoldsSocket :
    (os : Os) (c : Client) (fds : List ℕ)
    → HoldsSocket c fds
    → c.connected ≡ false
    → HoldsSocket (connect os c).0 (held fds (connect os c).1)
unfolding connect
connect-HoldsSocket os c fds h k =
    let nothing : fds ≡ [] = ground (arith, h.0, h.1) in
    let start : HoldsSocket (clear_error c) [] = (h.0, sym nothing ∙ h.1) in
    let started = held-start_up [] os.platform (connect_with os.socket os (clear_error c)).1 in
    rw (nothing, started) (connect_with-HoldsSocket os.socket os (clear_error c) start k)

disconnect-HoldsSocket :
    (c : Client) (fds : List ℕ)
    → HoldsSocket c fds
    → HoldsSocket (disconnect c).0 (held fds (disconnect c).1)
unfolding disconnect
disconnect-HoldsSocket c fds h = elim (Option-cases c.socket_fd) [
  | inl e ↦ ground (arith, e, h.0, h.1)
  | inr (fd, e) ↦ ground (arith, e, h.0, h.1, remove_self fd)
]

-- After any sequence of calls of `connect`, `disconnect` and `sendRaw` on a new client in which
-- `connect` is called only while the client is not connected, and whatever the operating system
-- answers, the client is connected exactly if it has a socket, and the sockets that it opened and
-- did not close are that one alone: none is leaked.
pub Reachable-HoldsSocket : {c : Client} {fds : List ℕ} → Reachable c fds → HoldsSocket c fds
unfolding connect disconnect send_raw
Reachable-HoldsSocket (created id) = (refl, refl)
Reachable-HoldsSocket (connected {c} {fds} os k r) =
    connect-HoldsSocket os c fds (Reachable-HoldsSocket r) k
Reachable-HoldsSocket (disconnected {c} {fds} r) =
    disconnect-HoldsSocket c fds (Reachable-HoldsSocket r)
Reachable-HoldsSocket (sent {c} {fds} w data' r) =
    let h = Reachable-HoldsSocket r in ground (arith, h.0, h.1)
