-- ===== src/Memory/FromRaw/Refine.antt =====
-- spore_c/source/spore_c.cpp, the five `spore_*_create_from_raw`: what they leave on the heap.
use spore_client_libs.Base.{
  ℕ, suc, ◌+◌, inl, inr, Option-cases, ◌∷◌, Option, none, some, ◌≡◌, refl, ◌∙◌, arith,
}
use spore_client_libs.Base.Text.{Bytes}
use spore_client_libs.Parser.Message
use spore_client_libs.Parser.Api.{spore_parse}
use spore_client_libs.Parser.Build.{Parser, new_parser}
use spore_client_libs.Wire.Raw.{
  Parsed, parse_raw, strip_cr, strip_end, request_of, response_of, response_error_of, witness_of,
  publish_of, spore_request_create_from_raw, spore_response_create_from_raw,
  spore_response_error_create_from_raw, spore_witness_create_from_raw,
  spore_publish_create_from_raw,
}
use spore_client_libs.Memory.Heap.{
  Object, parser, parsed, request, response, response_error, witness, publish, Heap, pure, ◌>>=◌,
  ◌>>◌, alloc, free, free-find,
}
use spore_client_libs.Memory.Handles.{
  spore_parser_create, spore_message_create, spore_parser_destroy, spore_message_destroy, parser_at,
  parsed_at,
}
use spore_client_libs.Memory.FromRaw.{
  parse_raw_at, new_result, create_from_raw, object, request_create_from_raw_at,
  response_create_from_raw_at, response_error_create_from_raw_at, witness_create_from_raw_at,
  publish_create_from_raw_at,
}
use spore_client_libs.Memory.Pair.{
  with_two, built, load_parser-with_two, load_parsed-with_two, spore_parse_at-with_two, free_both,
}

-- With that object, if there is one: a parser and a message are gone again, and it is left.
abbrev pub kept : Heap → Option Object → Option ℕ × Heap
kept h none = (none, record h { next = h.next + 2 })
kept h (some o) =
    (some (h.next + 2), record { next = h.next + 3; cells = (h.next + 2, o) ∷ h.cells })

abbrev with_result : Heap → Parser → Message.Message → Object → Heap
with_result h p m o = record {
  next = suc (suc (suc h.next));
  cells = (suc (suc h.next), o) ∷ (with_two h p m).cells;
}

-- The end of the function, where an object is returned.
module _ (h : Heap) (p : Parser) (m : Message.Message) where
  free_both-with_result :
      (r : Option ℕ) (o : Object)
      → (do spore_message_destroy (some (suc h.next)); spore_parser_destroy (some h.next); pure r)
          (with_result h p m o)
        ≡ some (r, record { next = h.next + 3; cells = (h.next + 2, o) ∷ h.cells })
  unfolding spore_message_destroy spore_parser_destroy
  free_both-with_result r o =
      let all = with_result h p m o in
      let rest : Heap = record {
        next = suc (suc (suc h.next));
        cells = (suc (suc h.next), o) ∷ (h.next, parser p) ∷ h.cells;
      } in
      let last : Heap = record {
        next = suc (suc (suc h.next));
        cells = (suc (suc h.next), o) ∷ h.cells;
      } in
      let first : free (suc h.next) all ≡ some (tt, rest) =
        free-find (suc h.next) all {o = parsed m} (ground arith) ∙ ground arith in
      let second : free h.next rest ≡ some (tt, last) =
        free-find h.next rest {o = parser p} (ground arith) ∙ ground arith in
      rw (spore_message_destroy, spore_parser_destroy, ◌>>=◌, first, second) (ground arith)

create_from_raw-kept :
    (make : Option Parser × Parsed → Option Object) (raw : Bytes) (h : Heap)
    → create_from_raw make (some raw) h ≡ some (kept h (make (parse_raw raw)))
unfolding create_from_raw spore_parser_create spore_message_create parser_at parsed_at parse_raw_at
    new_result alloc parse_raw
create_from_raw-kept make raw h =
    let (p, m) = built (strip_end (strip_cr raw)) new_parser Message.empty in
    let parsing = spore_parse_at-with_two h new_parser Message.empty (strip_end (strip_cr raw)) in
    let same : parse_raw raw ≡ (some p, some m) = unfold spore_parse in refl in
    elim (Option-cases (make (some p, some m))) [
      | inl e ↦
          rw
            (
              create_from_raw,
              ◌>>=◌,
              parsing,
              load_parser-with_two h p m,
              load_parsed-with_two h p m,
              e,
            )
            (free_both h p m none)
      | inr (o, e) ↦
          rw
            (
              create_from_raw,
              ◌>>=◌,
              parsing,
              load_parser-with_two h p m,
              load_parsed-with_two h p m,
              e,
            )
            (free_both-with_result h p m (some (suc (suc h.next))) o ∙ ground arith)
    ]

-- Each of the five functions, on a text that is not null, makes what is proved of it as a function of
-- the text, at an address of its own, and returns that address, or null where it makes nothing; no
-- parser or parsed message is left, and nothing else on the heap is changed.
pub create_from_raw_at-kept :
    (raw : Bytes) (h : Heap)
    → (request_create_from_raw_at (some raw) h
        ≡ some (kept h (object request (spore_request_create_from_raw (some raw)))))
      × (response_create_from_raw_at (some raw) h
          ≡ some (kept h (object response (spore_response_create_from_raw (some raw)))))
      × (response_error_create_from_raw_at (some raw) h
          ≡ some (kept h (object response_error (spore_response_error_create_from_raw (some raw)))))
      × (witness_create_from_raw_at (some raw) h
          ≡ some (kept h (object witness (spore_witness_create_from_raw (some raw)))))
      × (publish_create_from_raw_at (some raw) h
          ≡ some (kept h (object publish (spore_publish_create_from_raw (some raw)))))
unfolding request_create_from_raw_at response_create_from_raw_at response_error_create_from_raw_at
    witness_create_from_raw_at publish_create_from_raw_at spore_request_create_from_raw
    spore_response_create_from_raw spore_response_error_create_from_raw
    spore_witness_create_from_raw spore_publish_create_from_raw
create_from_raw_at-kept raw h = (
  create_from_raw-kept (λ v. object request (request_of raw v)) raw h,
  create_from_raw-kept (λ v. object response (response_of raw v)) raw h,
  create_from_raw-kept (λ v. object response_error (response_error_of raw v)) raw h,
  create_from_raw-kept (λ v. object witness (witness_of raw v)) raw h,
  create_from_raw-kept (λ v. object publish (publish_of raw v)) raw h,
)
