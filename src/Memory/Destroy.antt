-- ===== src/Memory/Destroy.antt =====
-- spore_c/source/spore_c.cpp, `spore_*_destroy` of the five kinds of messages: the end of what
-- `spore_*_create_from_raw` made.
use spore_client_libs.Base.{ℕ, ◌+◌, Option, none, some, ◌≡◌, refl, ◌∙◌, arith}
use spore_client_libs.Base.Text.{Bytes}
use spore_client_libs.Memory.Heap.{Object, Heap, M, pure, ◌>>=◌, free, free-find}
use spore_client_libs.Memory.FromRaw.{
  request_create_from_raw_at, response_create_from_raw_at, response_error_create_from_raw_at,
  witness_create_from_raw_at, publish_create_from_raw_at,
}
use spore_client_libs.Memory.FromRaw.Refine.{kept, create_from_raw_at-kept}

-- `delete` does nothing on a null pointer.
unfoldable pub delete : Option ℕ → M (Unit {0})
unfolding free
delete none = pure tt
delete (some p) = free p

unfoldable pub spore_request_destroy : Option ℕ → M (Unit {0})
unfolding delete
spore_request_destroy r = delete r

unfoldable pub spore_response_destroy : Option ℕ → M (Unit {0})
unfolding delete
spore_response_destroy r = delete r

unfoldable pub spore_response_error_destroy : Option ℕ → M (Unit {0})
unfolding delete
spore_response_error_destroy r = delete r

unfoldable pub spore_witness_destroy : Option ℕ → M (Unit {0})
unfolding delete
spore_witness_destroy r = delete r

unfoldable pub spore_publish_destroy : Option ℕ → M (Unit {0})
unfolding delete
spore_publish_destroy r = delete r

-- The heap holds what it held before, and the computation had no undefined behaviour.
abbrev pub Restores : Heap → Option (Unit {0} × Heap) → Type 0
Restores h r = (h' : Heap) × (r ≡ some (tt, h')) × (h'.cells ≡ h.cells)

Restores-kept :
    (make : M (Option ℕ)) (h : Heap) (o : Option Object)
    → make h ≡ some (kept h o)
    → Restores h ((make >>= delete) h)
unfolding delete
Restores-kept make h none e = (record h { next = h.next + 2 }, rw (◌>>=◌, e) refl, refl)
Restores-kept make h (some o) e =
    let all = (kept h (some o)).1 in
    let rest : Heap = record { next = h.next + 3; cells = h.cells } in
    let freed : free (h.next + 2) all ≡ some (tt, rest) =
      free-find (h.next + 2) all {o = o} (ground arith) ∙ ground arith in
    (rest, rw (◌>>=◌, e) freed, refl)

-- Making a message of each kind from a text, null or not, and destroying what was returned, null or
-- not, is defined and leaves on the heap just what was there.
pub destroy-create_from_raw_at :
    (raw : Option Bytes) (h : Heap)
    → Restores h ((request_create_from_raw_at raw >>= spore_request_destroy) h)
      × Restores h ((response_create_from_raw_at raw >>= spore_response_destroy) h)
      × Restores h ((response_error_create_from_raw_at raw >>= spore_response_error_destroy) h)
      × Restores h ((witness_create_from_raw_at raw >>= spore_witness_destroy) h)
      × Restores h ((publish_create_from_raw_at raw >>= spore_publish_destroy) h)
unfolding spore_request_destroy spore_response_destroy spore_response_error_destroy
    spore_witness_destroy spore_publish_destroy
destroy-create_from_raw_at none h =
    unfold request_create_from_raw_at response_create_from_raw_at response_error_create_from_raw_at
      witness_create_from_raw_at publish_create_from_raw_at delete in
    ((h, refl, refl), (h, refl, refl), (h, refl, refl), (h, refl, refl), (h, refl, refl))
destroy-create_from_raw_at (some raw) h =
    let (r, s, e, w, p) = create_from_raw_at-kept raw h in
    (
      Restores-kept (request_create_from_raw_at (some raw)) h _ r,
      Restores-kept (response_create_from_raw_at (some raw)) h _ s,
      Restores-kept (response_error_create_from_raw_at (some raw)) h _ e,
      Restores-kept (witness_create_from_raw_at (some raw)) h _ w,
      Restores-kept (publish_create_from_raw_at (some raw)) h _ p,
    )
