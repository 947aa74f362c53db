-- ===== src/Parser/Build.antt =====
-- parser/source/parser.{h,cpp}: the state of a parser, and `parser::build`, which makes a message of
-- the tokens. `setCapability(t.value.c_str())` and the like hand over a C string, hence `c_str`.
use spore_client_libs.Base.{
  ℕ, zero, suc, ◌+◌, ◌-◌, Bool, true, false, ◌&&◌, List, [], ◌∷◌, none, some, ◌==◌, leb,
  if◌then◌else◌, length, take, drop, get_last?, drop_last,
}
use spore_client_libs.Base.Text.{Bytes, codes, equal, find?, starts_with, c_str}
use spore_client_libs.Parser.Lexer.{Token, TokenType, arg, handle}
use spore_client_libs.Parser.Message.{Message, set_capability, set_handle, add_arg, add_flag}

pub data ParserType : Type 0 where
  unknown request response witness publish : ParserType

pub record Props : Type 0 where
  pub has_flag_ok : Bool
  pub has_flag_error : Bool
  pub has_arg_code : Bool
  pub has_arg_what : Bool
  pub has_arg_body : Bool

abbrev pub no_props : Props
no_props = record {
  has_flag_ok = false;
  has_flag_error = false;
  has_arg_code = false;
  has_arg_what = false;
  has_arg_body = false;
}

pub record Parser : Type 0 where
  pub raw : Bytes
  pub type : ParserType
  pub error_code : Bytes
  pub error_what : Bytes
  pub props : Props

abbrev pub new_parser : Parser
new_parser = record { raw = []; type = unknown; error_code = []; error_what = []; props = no_props }

-- The first token, of type `HANDLE`: `~handle` or `~handle:capability`.
unfoldable pub build_handle : Bytes → Message → Message
build_handle value m =
    let name = drop 1 value in
    elim (find? b':' name) [
      | none ↦ set_handle m (c_str name)
      | some pos ↦
          set_capability (set_handle m (c_str (take pos name))) (c_str (drop (pos + 1) name))
    ]

-- `case i == 0`
unfoldable pub build_first : TokenType → Bytes → Parser → Message → Parser × Message
unfolding build_handle
build_first arg value p m = (record p { type = request }, set_capability m (c_str value))
build_first handle value p m = (record p { type = response }, build_handle value m)
build_first TokenType.none value p m =
    if equal value (codes "witness")
    then (record p { type = witness }, set_capability m (c_str value))
    else if equal value (codes "publish")
    then (record p { type = publish }, m)
    else (record p { type = request }, set_capability m (c_str value))

-- `t.value.substr(0, pos)`; for `npos` that is the whole text
unfoldable pub key_of : Bytes → Bytes
key_of value = elim (find? b'=' value) [ none ↦ value | some pos ↦ take pos value ]

-- `t.value.substr(pos + 1)`; for `npos` that is the whole text too, since `npos + 1` is 0
unfoldable pub value_of : Bytes → Bytes
value_of value = elim (find? b'=' value) [ none ↦ value | some pos ↦ drop (pos + 1) value ]

-- `!s.empty() && s.back() == c`
unfoldable pub ends_with : ℕ → Bytes → Bool
ends_with c s = elim (get_last? s) [ none ↦ false | some x ↦ x == c ]

-- The guard on the block delimiters.
unfoldable pub is_block : Bytes → Bool
unfolding ends_with
is_block v =
    leb 4 (length v)
    && starts_with b'<' v
    && starts_with b'<' (drop 1 v)
    && ends_with b'>' (drop_last v)
    && ends_with b'>' v

unfoldable pub trim_front : Bytes → Bytes
trim_front v = if starts_with b'\n' v then drop 1 v else v

unfoldable pub trim_back : Bytes → Bytes
unfolding ends_with
trim_back v = if ends_with b'\n' v then drop_last v else v

-- `strip block delimiters and trim one boundary newline on each side`
unfoldable pub strip_block : Bytes → Bytes
unfolding is_block trim_front trim_back
strip_block v = if is_block v then trim_back (trim_front (take (length v - 4) (drop 2 v))) else v

unfoldable pub note_arg : Bytes → Props → Props
note_arg key props =
    if equal key (codes "code")
    then record props { has_arg_code = true }
    else if equal key (codes "what")
    then record props { has_arg_what = true }
    else if equal key (codes "body")
    then record props { has_arg_body = true }
    else props

unfoldable pub note_flag : Bytes → Props → Props
note_flag flag props =
    if equal flag (codes "ok")
    then record props { has_flag_ok = true }
    else if equal flag (codes "error")
    then record props { has_flag_error = true }
    else props

-- The token is not the first, nor the topic of a publish.
unfoldable pub build_part : TokenType → Bytes → Parser → Message → Parser × Message
unfolding key_of value_of strip_block note_arg note_flag
build_part arg value p m =
    let key = key_of value in
    let v = strip_block (value_of value) in
    (record p { props = note_arg key p.props }, add_arg m (c_str key) (c_str v))
build_part handle value p m = (p, set_handle m (c_str (drop 1 value)))
build_part TokenType.none value p m =
    (record p { props = note_flag value p.props }, add_flag m (c_str value))

-- `type == SPORE_PARSER_TYPE_PUBLISH`
abbrev pub is_publish : ParserType → Bool
is_publish publish = true
is_publish _ = false

-- One round of the loop, at the token of number `i`.
unfoldable pub build_token : ℕ → Token → Parser → Message → Parser × Message
unfolding build_first build_part
build_token zero t p m = build_first t.type t.value p m
build_token (suc i) t p m =
    if is_publish p.type && i == 0
    then (p, set_capability m (c_str t.value))
    else build_part t.type t.value p m

-- The loop, from the token of number `i` on.
unfoldable pub build : ℕ → List Token → Parser → Message → Parser × Message
unfolding build_token
build i [] p m = (p, m)
build i (t ∷ ts) p m = let (p', m') = build_token i t p m in build (suc i) ts p' m'
