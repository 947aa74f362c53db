-- ===== src/Parser/Contents.antt =====
-- parser/source/parser.cpp, `parser::build`: the flags in `props` against the arguments and flags of
-- the message that is built beside them.
use spore_client_libs.Base.{
  ℕ, zero, suc, Bool, true, false, ◌||◌, ◌&&◌, List, [], ◌∷◌, ◌++◌, ◌==◌, ◌≡◌, refl, inl, inr,
  arith, All, Bool-cases, Option-cases, take,
}
use spore_client_libs.Base.Text.{Bytes, codes, equal, equal_iff, contains, find?, c_str, c_str-id}
use spore_client_libs.Parser.Lexer.{Token, TokenType, arg, handle}
use spore_client_libs.Parser.Message.{Message, set_capability}
use spore_client_libs.Parser.Build.{
  Props, Parser, key_of, note_arg, note_flag, is_publish, build_first, build_part, build_token,
  build,
}

-- The list holds the text.
unfoldable pub has : Bytes → List Bytes → Bool
has x [] = false
has x (y ∷ ys) = equal y x || has x ys

-- The arguments hold the key.
unfoldable pub has_key : Bytes → List (Bytes × Bytes) → Bool
has_key x [] = false
has_key x ((k, v) ∷ xs) = equal k x || has_key x xs

pub has-concat :
    (x : Bytes) (ys : List Bytes) (y : Bytes) → has x (ys ++ y ∷ []) ≡ (has x ys || equal y x)
unfolding has
has-concat x [] y = ground arith
has-concat x (z ∷ ys) y = ground (arith, has-concat x ys y)

has_key-concat :
    (x : Bytes) (xs : List (Bytes × Bytes)) (k v : Bytes)
    → has_key x (xs ++ (k, v) ∷ []) ≡ (has_key x xs || equal k x)
unfolding has_key
has_key-concat x [] k v = ground arith
has_key-concat x ((j, w) ∷ xs) k v = ground (arith, has_key-concat x xs k v)

-- The props say what the message holds.
pub record Agrees (props : Props) (m : Message) : Type 0 where
  pub ok : props.has_flag_ok ≡ has (codes "ok") m.flags
  pub error : props.has_flag_error ≡ has (codes "error") m.flags
  pub code : props.has_arg_code ≡ has_key (codes "code") m.args
  pub what : props.has_arg_what ≡ has_key (codes "what") m.args
  pub body : props.has_arg_body ≡ has_key (codes "body") m.args

-- A text is not two different words at once.
equal_one : (s a b : Bytes) → equal a b ≡ false → equal s a ≡ true → equal s b ≡ false
equal_one s a b d h = rw ((equal_iff s a).0 h) d

pub note_flag-Agrees :
    (flag : Bytes) (props : Props) (m : Message)
    → Agrees props m
    → Agrees (note_flag flag props) (record m { flags = m.flags ++ flag ∷ [] })
unfolding note_flag
note_flag-Agrees flag props m h = ground (
  arith,
  h.ok,
  h.error,
  h.code,
  h.what,
  h.body,
  has-concat (codes "ok") m.flags flag,
  has-concat (codes "error") m.flags flag,
  equal_one flag (codes "ok") (codes "error") (unfold equal in refl),
)

pub note_arg-Agrees :
    (key value : Bytes) (props : Props) (m : Message)
    → Agrees props m
    → Agrees (note_arg key props) (record m { args = m.args ++ (key, value) ∷ [] })
unfolding note_arg
note_arg-Agrees key value props m h = ground (
  arith,
  h.ok,
  h.error,
  h.code,
  h.what,
  h.body,
  has_key-concat (codes "code") m.args key value,
  has_key-concat (codes "what") m.args key value,
  has_key-concat (codes "body") m.args key value,
  equal_one key (codes "code") (codes "what") (unfold equal in refl),
  equal_one key (codes "code") (codes "body") (unfold equal in refl),
  equal_one key (codes "what") (codes "body") (unfold equal in refl),
)

contains-take : (c n : ℕ) (s : Bytes) → contains c s ≡ false → contains c (take n s) ≡ false
unfolding contains
contains-take c zero s h = refl
contains-take c (suc n) [] h = refl
contains-take c (suc n) (x ∷ s) h = ground (arith, contains-take c n s)

contains-key_of : (c : ℕ) (s : Bytes) → contains c s ≡ false → contains c (key_of s) ≡ false
unfolding key_of
contains-key_of c s h = elim (Option-cases (find? b'=' s)) [
  | inl e ↦ rw (e, key_of) h
  | inr (pos, e) ↦ rw (e, key_of) (contains-take c pos s h)
]

-- No token holds a zero byte.
abbrev pub IsClean : Token → Type 0
IsClean t = contains 0 t.value ≡ false

-- Setting the names of a message leaves its arguments and flags, and so what the props say.
record SameContents (r : Parser × Message) (p : Parser) (m : Message) : Type 0 where
  props : r.0.props ≡ p.props
  args : r.1.args ≡ m.args
  flags : r.1.flags ≡ m.flags

SameContents-Agrees :
    (r : Parser × Message) (p : Parser) (m : Message)
    → SameContents r p m
    → Agrees p.props m
    → Agrees r.0.props r.1
SameContents-Agrees r p m s h =
    ground (arith, s.props, s.args, s.flags, h.ok, h.error, h.code, h.what, h.body)

build_part-Agrees :
    (ty : TokenType) (value : Bytes) (p : Parser) (m : Message)
    → contains 0 value ≡ false
    → Agrees p.props m
    → Agrees (build_part ty value p m).0.props (build_part ty value p m).1
unfolding build_part
build_part-Agrees arg value p m c h =
    rw (c_str-id (key_of value) (contains-key_of 0 value c))
      (note_arg-Agrees (key_of value) _ p.props m h)
build_part-Agrees handle value p m c h =
    SameContents-Agrees (build_part handle value p m) p m
      (record { props = refl; args = refl; flags = refl }) h
build_part-Agrees TokenType.none value p m c h =
    rw (c_str-id value c) (note_flag-Agrees value p.props m h)

build_first-SameContents :
    (ty : TokenType) (value : Bytes) (p : Parser) (m : Message)
    → SameContents (build_first ty value p m) p m
unfolding build_first
build_first-SameContents arg value p m = ground arith
build_first-SameContents _ value p m = ground arith

build_token-Agrees :
    (i : ℕ) (t : Token) (p : Parser) (m : Message)
    → IsClean t
    → Agrees p.props m
    → Agrees (build_token i t p m).0.props (build_token i t p m).1
unfolding build_token
build_token-Agrees zero t p m c h =
    SameContents-Agrees _ p m (build_first-SameContents t.type t.value p m) h
build_token-Agrees (suc i) t p m c h = elim (Bool-cases (is_publish p.type && i == 0)) [
  | inl e ↦ rw e (
      SameContents-Agrees (p, set_capability m (c_str t.value)) p m
        (record { props = refl; args = refl; flags = refl }) h)
  | inr e ↦ rw e (build_part-Agrees t.type t.value p m c h)
]

pub build-Agrees :
    (i : ℕ) (ts : List Token) (p : Parser) (m : Message)
    → All IsClean ts
    → Agrees p.props m
    → Agrees (build i ts p m).0.props (build i ts p m).1
unfolding build
build-Agrees i [] p m c h = h
build-Agrees i (t ∷ ts) p m c h = build-Agrees (suc i) ts _ _ c.1 (build_token-Agrees i t p m c.0 h)
