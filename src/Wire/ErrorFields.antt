-- ===== src/Wire/ErrorFields.antt =====
-- spore_c/source/spore_c.cpp, `spore_response_error_create_from_raw`: the fields `code` and `what`.
use spore_client_libs.Base.{
  Bool, true, false, not, ◌&&◌, List, [], ◌∷◌, Option, none, some, ◌≡◌, refl, sym, ap, ◌∙◌, arith,
  inl, inr, Bool-cases,
}
use spore_client_libs.Base.Text.{Bytes, codes, equal, equal-ne}
use spore_client_libs.Parser.Build.{Parser}
use spore_client_libs.Parser.Api.{spore_parser_get_type}
use spore_client_libs.Wire.Map.{Map, lookup}
use spore_client_libs.Wire.Sorted.{lookup-assign}
use spore_client_libs.Wire.Message.{Message, ResponseError, empty, add_arg}
use spore_client_libs.Wire.Populate.{add_flags-insert_all}
use spore_client_libs.Wire.Raw.{
  Parsed, add_args, populate_message, take_error_fields, response_error_of, parse_raw,
  spore_response_error_create_from_raw, args_of, is_response,
}

-- Not one of the two names that have fields of their own.
abbrev is_other : Bytes → Bool
is_other k = not (equal k (codes "code")) && not (equal k (codes "what"))

clash : (b : Bool) → b ≡ true → b ≡ false → ⊥
clash b h h' = ground arith

equal-is_other : (key k : Bytes) → is_other key ≡ true → is_other k ≡ false → equal key k ≡ false
equal-is_other key k h h' = equal-ne key k (λ e. clash (is_other k) (sym (ap is_other e) ∙ h) h')

lookup-add_args :
    (k : Bytes) (msg : Message) (a : List (Bytes × Bytes))
    → is_other k ≡ false
    → lookup k (add_args true msg a).args ≡ lookup k msg.args
unfolding add_args add_arg
lookup-add_args k msg [] h = refl
lookup-add_args k msg ((key, value) ∷ a) h = elim (Bool-cases (is_other key)) [
  | inl e ↦
      let ih = lookup-add_args k (add_arg msg key value) a h in
      let added = lookup-assign key k value msg.args in
      rw (add_args, e) (ih ∙ added ∙ rw (equal-is_other key k e h) refl)
  | inr e ↦ rw (add_args, e) (lookup-add_args k msg a h)
]

take_error_fields-message :
    (e : ResponseError) (a : List (Bytes × Bytes)) → (take_error_fields e a).message ≡ e.message
unfolding take_error_fields
take_error_fields-message e [] = refl
take_error_fields-message e ((key, value) ∷ a) = elim (Bool-cases (equal key (codes "code"))) [
  | inl c ↦ rw (take_error_fields, c) (take_error_fields-message (record e { code = value }) a)
  | inr c ↦ elim (Bool-cases (equal key (codes "what"))) [
    | inl w ↦ rw (take_error_fields, c, w) (take_error_fields-message (record e { what = value }) a)
    | inr w ↦ rw (take_error_fields, c, w) (take_error_fields-message e a)
  ]
]

populate_message-other :
    (k : Bytes) (m : Parsed)
    → is_other k ≡ false
    → lookup k (populate_message empty m true).args ≡ none
unfolding populate_message lookup
populate_message-other k m h = rw add_flags-insert_all (lookup-add_args k _ (args_of m) h)

abbrev map_of : Option ResponseError → Map
map_of none = []
map_of (some e) = e.message.args

response_error_of-other :
    (k raw : Bytes) (p : Option Parser) (m : Parsed)
    → is_other k ≡ false
    → lookup k (map_of (response_error_of raw (p, m))) ≡ none
unfolding response_error_of lookup
response_error_of-other k raw p m h = elim (Bool-cases (is_response (spore_parser_get_type p))) [
  | inl e ↦
      let message = record (populate_message empty m true) { raw = raw } in
      let e' : ResponseError = record { message = message; code = []; what = [] } in
      rw (response_error_of, e)
        (ap (λ (t : Message). lookup k t.args) (take_error_fields-message e' (args_of m))
          ∙ populate_message-other k m h)
  | inr e ↦ rw (response_error_of, e) refl
]

-- An error response that is made from raw text has neither `code` nor `what` among its arguments.
pub lookup-create_from_raw :
    (raw : Bytes) (e : ResponseError)
    → spore_response_error_create_from_raw (some raw) ≡ some e
    → (lookup (codes "code") e.args ≡ none) × (lookup (codes "what") e.args ≡ none)
unfolding spore_response_error_create_from_raw equal
lookup-create_from_raw raw e h =
    let (p, m) = parse_raw raw in
    (
      ap (λ o. lookup (codes "code") (map_of o)) (sym h)
          ∙ response_error_of-other (codes "code") raw p m refl,
      ap (λ o. lookup (codes "what") (map_of o)) (sym h)
          ∙ response_error_of-other (codes "what") raw p m refl,
    )
