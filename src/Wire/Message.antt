-- ===== src/Wire/Message.antt =====
-- spore_c/source/message.{h,cpp}, request.h, response.{h,cpp}, witness.{h,cpp}, publish.{h,cpp}: the
-- messages that a node builds and receives, and their text on the wire. `Request` and `Response` add
-- no field to `Message`.
use spore_client_libs.Base.{Bool, not, ◌||◌, List, [], ◌∷◌, ◌++◌, Option, none, some, if◌then◌else◌}
use spore_client_libs.Base.Text.{Bytes, codes, is_empty, equal, contains}
use spore_client_libs.Wire.Map.{Map, assign, lookup, insert, member}

pub record Message : Type 0 where
  pub command : Bytes
  pub handle : Bytes
  pub args : Map
  pub flags : List Bytes
  pub raw : Bytes
  pub serialized : Bytes

abbrev pub empty : Message
empty = record { command = []; handle = []; args = []; flags = []; raw = []; serialized = [] }

abbrev pub get_command : Message → Bytes
get_command m = m.command

abbrev pub get_handle : Message → Bytes
get_handle m = m.handle

abbrev pub get_raw : Message → Bytes
get_raw m = m.raw

-- The empty text if the key is absent.
unfoldable pub get_arg : Message → Bytes → Bytes
unfolding lookup
get_arg m key = elim (lookup key m.args) [ none ↦ [] | some v ↦ v ]

unfoldable pub has_flag : Message → Bytes → Bool
unfolding member
has_flag m flag = member flag m.flags

abbrev pub set_command : Message → Bytes → Message
set_command m v = record m { command = v }

abbrev pub set_handle : Message → Bytes → Message
set_handle m v = record m { handle = v }

abbrev pub set_raw : Message → Bytes → Message
set_raw m v = record m { raw = v }

unfoldable pub add_arg : Message → Bytes → Bytes → Message
unfolding assign
add_arg m key value = record m { args = assign key value m.args }

unfoldable pub add_flag : Message → Bytes → Message
unfolding insert
add_flag m flag = record m { flags = insert flag m.flags }

unfoldable pub get_serialized : Message → Option Bytes
get_serialized m = if is_empty m.serialized then none else some m.serialized

-- What `serializeArg` adds to the text.
unfoldable pub arg_text : Bytes → Bytes → Bytes
arg_text k v =
    if contains b'\n' v
    then b' ' ∷ (k ++ (codes "=<<\n" ++ (v ++ codes "\n>>")))
    else if contains b'"' v
    then b' ' ∷ (k ++ (codes "='" ++ (v ++ codes "'")))
    else if contains b' ' v || contains b'\t' v
    then b' ' ∷ (k ++ (codes "=\"" ++ (v ++ codes "\"")))
    else b' ' ∷ (k ++ (b'=' ∷ v))

abbrev pub serialize_arg : Bytes → Bytes → Bytes → Bytes
serialize_arg s k v = s ++ arg_text k v

-- `for (const auto& [k, v] : args) serializeArg(s, k, v)`
unfoldable pub serialize_args : Bytes → Map → Bytes
unfolding arg_text
serialize_args s [] = s
serialize_args s ((k, v) ∷ more) = serialize_args (serialize_arg s k v) more

-- `for (const auto& f : flags) s += " " + f`
unfoldable pub serialize_flags : Bytes → List Bytes → Bytes
serialize_flags s [] = s
serialize_flags s (f ∷ fs) = serialize_flags (s ++ (b' ' ∷ f)) fs

-- `Request::serialize`
unfoldable pub request_text : Message → Bytes
unfolding serialize_args serialize_flags
request_text m =
    let named =
      if not (is_empty m.handle) then m.command ++ (codes " ~" ++ m.handle) else m.command in
    serialize_flags (serialize_args named m.args) m.flags ++ codes "\n"

-- `if (!handle.empty()) s = "~" + handle + ":" + command; else s = command;`
abbrev pub reply_head : Message → Bytes
reply_head m =
    if not (is_empty m.handle) then b'~' ∷ (m.handle ++ (b':' ∷ m.command)) else m.command

-- The flags of an ok response: `ok` itself is not repeated.
unfoldable pub serialize_other_flags : Bytes → List Bytes → Bytes
serialize_other_flags s [] = s
serialize_other_flags s (f ∷ fs) =
    serialize_other_flags (if not (equal f (codes "ok")) then s ++ (b' ' ∷ f) else s) fs

-- `Response::serialize`
unfoldable pub response_text : Message → Bytes
unfolding serialize_args serialize_other_flags
response_text m =
    serialize_args (serialize_other_flags (reply_head m ++ codes " ok") m.flags) m.args
    ++ codes "\n"

pub record ResponseError : Type 0 where
  pub message : Message
  pub open message use *
  pub code : Bytes
  pub what : Bytes

-- `ResponseError::serialize`
unfoldable pub response_error_text : ResponseError → Bytes
unfolding serialize_args serialize_flags
response_error_text e =
    let s = reply_head e.message ++ codes " error" in
    let coded = if not (is_empty e.code) then s ++ (codes " code=" ++ e.code) else s in
    let told =
      if not (is_empty e.what)
      then coded ++ (codes " what=\"" ++ (e.what ++ codes "\""))
      else coded in
    serialize_flags (serialize_args told e.args) e.flags ++ codes " node_error\n"

pub record Witness : Type 0 where
  pub message : Message
  pub open message use *
  pub body : Bytes

-- `Witness::serialize`
unfoldable pub witness_text : Witness → Bytes
unfolding serialize_args serialize_flags
witness_text w =
    let s = codes "witness" in
    let told =
      if not (is_empty w.body) then s ++ (codes " body=\"" ++ (w.body ++ codes "\"")) else s in
    serialize_flags (serialize_args told w.args) w.flags ++ codes "\n"

pub record Publish : Type 0 where
  pub message : Message
  pub open message use *
  pub topic : Bytes

-- `Publish::serialize`
unfoldable pub publish_text : Publish → Bytes
unfolding serialize_args serialize_flags
publish_text p =
    let s = codes "publish" in
    let named = if not (is_empty p.topic) then s ++ (b' ' ∷ p.topic) else s in
    serialize_flags (serialize_args named p.args) p.flags ++ codes "\n"

abbrev pub get_code : ResponseError → Bytes
get_code e = e.code

abbrev pub get_what : ResponseError → Bytes
get_what e = e.what

abbrev pub set_code : ResponseError → Bytes → ResponseError
set_code e v = record e { code = v }

abbrev pub set_what : ResponseError → Bytes → ResponseError
set_what e v = record e { what = v }

abbrev pub get_body : Witness → Bytes
get_body w = w.body

abbrev pub set_body : Witness → Bytes → Witness
set_body w v = record w { body = v }

abbrev pub get_topic : Publish → Bytes
get_topic p = p.topic

abbrev pub set_topic : Publish → Bytes → Publish
set_topic p v = record p { topic = v }
