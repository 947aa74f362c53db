-- ===== src/Wire/RoundTrip/Request.antt =====
-- `Request::serialize` and `spore_request_create_from_raw`.
use spore_client_libs.Base.{
  true, false, not, List, [], ◌∷◌, ◌++◌, some, ◌≡◌, ◌≢◌, refl, sym, ap, ◌∙◌, if◌then◌else◌, arith,
  All, All-append, append_assoc, append-nil,
}
use spore_client_libs.Base.Text.{Bytes, codes, is_empty, equal-ne}
use spore_client_libs.Parser.Lexer.{TokenType}
use spore_client_libs.Parser.Message
use spore_client_libs.Parser.Build.{Parser, request, build_token}
use spore_client_libs.Wire.Message.{Message, empty, request_text}
use spore_client_libs.Wire.Items.{Item, handle, items_text, IsItem, IsWord, all_word}
use spore_client_libs.Wire.Rebuild.{add_items, c_str-all_word}
use spore_client_libs.Wire.Scan.{tok}
use spore_client_libs.Wire.Reparse.{word-IsHead, Reparsed, reparse_from}
use spore_client_libs.Wire.Populate.{
  arg_items, flag_items, AreArgs, AreFlags, items_text-append, serialize_args-items_text,
  serialize_flags-items_text, add_items-append, add_items-arg_items, add_items-flag_items,
  populate_message-clean, no_zero-all_word,
}
use spore_client_libs.Wire.Raw.{populate_message, request_of, spore_request_create_from_raw}

-- A request that the wire can carry. A command `witness` or `publish` would make another message.
pub record IsSendable (r : Message) : Type 0 where
  pub command : IsWord r.command
  pub not_witness : r.command ≢ codes "witness"
  pub not_publish : r.command ≢ codes "publish"
  pub handle : all_word r.handle ≡ true
  pub args : AreArgs r.args
  pub flags : AreFlags r.flags

handle_items : Bytes → List Item
handle_items [] = []
handle_items (c ∷ h) = handle (c ∷ h) ∷ []

request_items : Message → List Item
request_items r = handle_items r.handle ++ (arg_items r.args ++ flag_items r.flags)

named_items :
    (c h : Bytes)
    → (if not (is_empty h) then c ++ (codes " ~" ++ h) else c) ≡ c ++ items_text (handle_items h)
unfolding handle_items
named_items c [] = sym (append-nil c)
named_items c (x ∷ h) = rw append-nil

request_text-items :
    (r : Message) → request_text r ≡ r.command ++ (items_text (request_items r) ++ codes "\n")
unfolding request_text request_items
request_text-items r = simp (
  serialize_flags-items_text, serialize_args-items_text, named_items, items_text-append,
  append_assoc,
)

first_of_request :
    (r : Message)
    → IsSendable r
    → (p : Parser)
    → build_token 0 (tok r.command TokenType.none) p Message.empty
      ≡ (record p { type = request }, record Message.empty { capability = r.command })
unfolding build_token
first_of_request r h p =
    rw
      (
        equal-ne r.command (codes "witness") h.not_witness,
        equal-ne r.command (codes "publish") h.not_publish,
      )
      (rw (c_str-all_word r.command h.command.1.0))

handle_items-IsItem : (h : Bytes) → all_word h ≡ true → All IsItem (handle_items h)
unfolding handle_items
handle_items-IsItem [] k = tt
handle_items-IsItem (x ∷ h) k = (k, tt)

add_items-handle_items :
    (m : Message.Message) (h : Bytes)
    → m.handle ≡ []
    → add_items m (handle_items h) ≡ record m { handle = h }
unfolding handle_items
add_items-handle_items m [] e = ground (arith, e)
add_items-handle_items m (x ∷ h) e = refl

-- What is parsed from the items of a request.
request_message :
    (r : Message)
    → add_items (record Message.empty { capability = r.command }) (request_items r)
      ≡ record { capability = r.command; handle = r.handle; args = r.args; flags = r.flags }
unfolding request_items
request_message r =
    simp (add_items-append, add_items-arg_items, add_items-flag_items)
      (rw (add_items-handle_items (record Message.empty { capability = r.command }) r.handle refl))

request_of-Reparsed :
    (raw : Bytes) (m : Message.Message)
    → Reparsed raw request m
    → spore_request_create_from_raw (some raw)
      ≡ some (record (populate_message empty (some m) false) { raw = raw })
unfolding spore_request_create_from_raw
request_of-Reparsed raw m (p, e, t) = ap (request_of raw) e ∙ rw (t, request_of)

request_items-IsItem : (r : Message) → IsSendable r → All IsItem (request_items r)
unfolding request_items
request_items-IsItem r h =
    All-append IsItem (handle_items r.handle) _ (handle_items-IsItem r.handle h.handle)
      (All-append IsItem (arg_items r.args) _ h.args.carried h.flags.carried)

-- The raw text of a request that the wire can carry is parsed to its parts.
pub request-Reparsed :
    (r : Message)
    → IsSendable r
    → Reparsed
        (request_text r)
        request
        (record { capability = r.command; handle = r.handle; args = r.args; flags = r.flags })
request-Reparsed r h =
    let parsed =
      reparse_from r.command TokenType.none (request_items r) request
        (record Message.empty { capability = r.command }) (word-IsHead r.command h.command)
        (request_items-IsItem r h) (first_of_request r h) refl in
    rw (← request_text-items r, request_message r) at parsed

-- The text of a request that the wire can carry is parsed to a request with the same command,
-- handle, arguments and flags.
pub create_from_raw-request_text :
    (r : Message)
    → IsSendable r
    → spore_request_create_from_raw (some (request_text r))
      ≡ some (record r { raw = request_text r; serialized = [] })
create_from_raw-request_text r h =
    request_of-Reparsed (request_text r) _ (request-Reparsed r h)
    ∙ ap (λ (m : Message). some (record m { raw = request_text r }))
        (populate_message-clean _ (no_zero-all_word r.command h.command.1.0)
          (no_zero-all_word r.handle h.handle) h.args h.flags)
