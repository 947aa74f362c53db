-- ===== src/Memory/Pair.antt =====
-- A parser and a parsed message on the heap, side by side, as `listen` and `spore_*_create_from_raw` have
-- them.
use spore_client_libs.Base.{suc, ◌+◌, [], ◌∷◌, some, ◌≡◌, refl, ◌∙◌, arith}
use spore_client_libs.Base.Text.{Bytes}
use spore_client_libs.Parser.Message
use spore_client_libs.Parser.Build.{Parser, build}
use spore_client_libs.Parser.Lexer.{tokenize}
use spore_client_libs.Parser.Validate.{parse, validate, restart}
use spore_client_libs.Memory.Heap.{
  parser, parsed, Heap, M, pure, ◌>>=◌, ◌>>◌, store_object, free, find, load_object-find,
  store_object-find, free-find,
}
use spore_client_libs.Memory.Handles.{
  spore_parser_destroy, spore_message_destroy, parsed_at, spore_validate_at, spore_parse_at,
  load_parser, load_parsed,
}

abbrev pub with_two : Heap → Parser → Message.Message → Heap
with_two h p m = record {
  next = suc (suc h.next);
  cells = (suc h.next, parsed m) ∷ (h.next, parser p) ∷ h.cells;
}

-- What `parse` leaves in the parser and in the message.
abbrev pub built : Bytes → Parser → Message.Message → Parser × Message.Message
built s p m = build 0 (tokenize s []) (restart p s) m

module _ (h : Heap) (p : Parser) (m : Message.Message) where
  pub find-parser : find h.next (with_two h p m).cells ≡ some (parser p)
  find-parser = ground arith

  pub find-parsed : find (suc h.next) (with_two h p m).cells ≡ some (parsed m)
  find-parsed = ground arith

  pub load_parser-with_two : load_parser h.next (with_two h p m) ≡ some (p, with_two h p m)
  unfolding load_parser
  load_parser-with_two =
      rw (load_parser, ◌>>=◌, load_object-find h.next (with_two h p m) find-parser) refl

  pub load_parsed-with_two : load_parsed (suc h.next) (with_two h p m) ≡ some (m, with_two h p m)
  unfolding load_parsed
  load_parsed-with_two =
      rw (load_parsed, ◌>>=◌, load_object-find (suc h.next) (with_two h p m) find-parsed) refl

  pub store_object-parser :
      (p' : Parser) → store_object h.next (parser p') (with_two h p m) ≡ some (tt, with_two h p' m)
  store_object-parser p' =
      store_object-find h.next (parser p') (with_two h p m) find-parser ∙ ground arith

  pub store_object-parsed :
      (m' : Message.Message)
      → store_object (suc h.next) (parsed m') (with_two h p m) ≡ some (tt, with_two h p m')
  store_object-parsed m' =
      store_object-find (suc h.next) (parsed m') (with_two h p m) find-parsed ∙ ground arith

module _ (h : Heap) (p : Parser) (m : Message.Message) where
  pub spore_parse_at-with_two :
      (s : Bytes)
      → spore_parse_at (some h.next) (some s) (some (suc h.next)) (with_two h p m)
        ≡ some (tt, with_two h (built s p m).0 (built s p m).1)
  unfolding spore_parse_at parse
  spore_parse_at-with_two s =
      let (p', m') = built s p m in
      rw
        (
          spore_parse_at,
          ◌>>=◌,
          load_parser-with_two h p m,
          load_parsed-with_two h p m,
          store_object-parser h p m p',
          store_object-parsed h p' m m',
        )
        refl

-- The end of a function that has both.
module _ (h : Heap) (p : Parser) (m : Message.Message) where
  pub free_both :
      {A : Type 0} (r : A)
      → (do spore_message_destroy (some (suc h.next)); spore_parser_destroy (some h.next); pure r)
          (with_two h p m)
        ≡ some (r, record h { next = h.next + 2 })
  unfolding spore_message_destroy spore_parser_destroy
  free_both r =
      let only_parser : Heap = record {
        next = suc (suc h.next);
        cells = (h.next, parser p) ∷ h.cells;
      } in
      let first : free (suc h.next) (with_two h p m) ≡ some (tt, only_parser) =
        free-find (suc h.next) (with_two h p m) (find-parsed h p m) ∙ ground arith in
      let second : free h.next only_parser ≡ some (tt, record h { next = suc (suc h.next) }) =
        free-find h.next only_parser {o = parser p} (ground arith) ∙ ground arith in
      rw (spore_message_destroy, spore_parser_destroy, ◌>>=◌, first, second) (ground arith)

  pub spore_validate_at-with_two :
      spore_validate_at (some h.next) (some (suc h.next)) (with_two h p m)
      ≡ some (tt, with_two h (validate p (some m)) m)
  unfolding spore_validate_at parsed_at
  spore_validate_at-with_two =
      rw
        (
          spore_validate_at,
          ◌>>=◌,
          load_parser-with_two h p m,
          load_parsed-with_two h p m,
          store_object-parser h p m (validate p (some m)),
        )
        refl

  only_parsed : Heap
  only_parsed = record { next = suc (suc h.next); cells = (suc h.next, parsed m) ∷ h.cells }

  -- In the other order, with more behind.
  pub free_parser_first :
      {A : Type 0} (k : M A)
      → (do spore_parser_destroy (some h.next); spore_message_destroy (some (suc h.next)); k)
          (with_two h p m)
        ≡ k (record h { next = suc (suc h.next) })
  unfolding spore_parser_destroy spore_message_destroy only_parsed
  free_parser_first k =
      let first : free h.next (with_two h p m) ≡ some (tt, only_parsed) =
        free-find h.next (with_two h p m) (find-parser h p m) ∙ ground arith in
      let second : free (suc h.next) only_parsed ≡ some (tt, record h { next = suc (suc h.next) }) =
        free-find (suc h.next) only_parsed {o = parsed m} (ground arith) ∙ ground arith in
      rw (spore_parser_destroy, spore_message_destroy, ◌>>=◌, first, second) refl
