-- ===== src/Tests/Threads.antt =====
-- Two threads that write on one client, at a concrete order of steps.
use spore_client_libs.Base.{
  ℕ, true, false, List, [], ◌∷◌, ◌++◌, some, ◌==◌, if◌then◌else◌, ◌≡◌, refl,
}
use spore_client_libs.Base.Text.{Bytes, codes}
use spore_client_libs.Client.State.{new_client}
use spore_client_libs.Client.Threads.{
  Call, free, Sending, lock, write_body, write_newline, locks, writes_body, writes_newline, Run,
  start, step, serial, made_by,
}
use spore_client_libs.Client.Threads.Serial.{Run-write_raw}

abbrev call : ℕ → Bytes → Call
call t s = record { thread = t; writes = record { body = true; newline = true }; data' = s }

-- The newline of this one fails.
abbrev cut : Call
cut = record { thread = 2; writes = record { body = true; newline = false }; data' = codes "b" }

abbrev calls : ℕ → List Call
calls t =
    if t == 1 then call 1 (codes "a") ∷ [] else if t == 2 then cut ∷ call 2 (codes "c") ∷ [] else []

abbrev before : Sending
before = record {
  client = record (new_client (codes "node")) { socket_fd = some 3; connected = true };
  texts = [];
  mutex = free;
  calls = calls;
}

-- The second thread comes first, the first one then, and the second again.
abbrev locked_2 : Sending
locked_2 = lock cut (call 2 (codes "c") ∷ []) before

abbrev after_2 : Sending
after_2 = write_newline cut (write_body cut locked_2)

abbrev locked_1 : Sending
locked_1 = lock (call 1 (codes "a")) [] after_2

abbrev after_1 : Sending
after_1 = write_newline (call 1 (codes "a")) (write_body (call 1 (codes "a")) locked_1)

abbrev order : List Call
order = cut ∷ call 1 (codes "a") ∷ []

some_steps : Run before after_1 order
unfolding lock write_body write_newline
some_steps =
    step
      (step
        (step
          (step
            (step (step start (locks cut (call 2 (codes "c") ∷ []) refl refl))
              (writes_body cut refl))
            (writes_newline cut refl))
          (locks (call 1 (codes "a")) [] refl refl))
        (writes_body (call 1 (codes "a")) refl))
      (writes_newline (call 1 (codes "a")) refl)

after_1-free : after_1.mutex ≡ free
unfolding lock write_body write_newline
after_1-free = refl

Run-write_raw_example :
    (serial order before.client ≡ (after_1.client, after_1.texts))
    × (made_by 2 order ++ after_1.calls 2 ≡ before.calls 2)
Run-write_raw_example = Run-write_raw 2 refl refl some_steps after_1-free
