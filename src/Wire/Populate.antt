-- ===== src/Wire/Populate.antt =====
-- spore_c/source/spore_c.cpp, `populateMessage` and the loops like it, on a message that was parsed
-- from serialized arguments and flags.
use mathlib.Core.List.{map}
use spore_client_libs.Base.{
  ℕ, true, false, List, [], ◌∷◌, ◌++◌, Option, some, ◌≡◌, refl, sym, ◌∙◌, All, append_assoc,
  append-nil,
}
use spore_client_libs.Base.Text.{Bytes, contains, c_str, c_str-id}
use spore_client_libs.Parser.Message
use spore_client_libs.Parser.Api.{
  data_or_null, items_or_null, spore_message_get_args, spore_message_get_flags,
}
use spore_client_libs.Wire.Map.{Map}
use spore_client_libs.Wire.Message.{
  Message, empty, arg_text, add_arg, add_flag, serialize_args, serialize_flags,
}
use spore_client_libs.Wire.Sorted.{IsSorted, assign_all, assign_all-IsSorted}
use spore_client_libs.Wire.SortedSet.{IsSortedSet, insert_all, insert_all-IsSortedSet}
use spore_client_libs.Wire.Items.{Item, arg, flag, items_text, IsItem, all_word, is_word_byte}
use spore_client_libs.Wire.Rebuild.{add_item, add_items, contains-all_word, c_str-all_word}
use spore_client_libs.Wire.Raw.{
  or_empty, elements, args_of, flags_of, add_args, add_flags, populate_message,
}

abbrev pub arg_items : Map → List Item
arg_items [] = []
arg_items ((k, v) ∷ m) = arg k v ∷ arg_items m

abbrev pub flag_items : List Bytes → List Item
flag_items [] = []
flag_items (f ∷ fs) = flag f ∷ flag_items fs

-- Arguments that the wire can carry, in the order of a map.
pub record AreArgs (m : Map) : Type 0 where
  pub carried : All IsItem (arg_items m)
  pub sorted : IsSorted m

pub record AreFlags (fs : List Bytes) : Type 0 where
  pub carried : All IsItem (flag_items fs)
  pub sorted : IsSortedSet fs

pub items_text-append : (xs ys : List Item) → items_text (xs ++ ys) ≡ items_text xs ++ items_text ys
items_text-append [] ys = refl
items_text-append (x ∷ xs) ys = rw (items_text-append xs ys) (simp append_assoc)

pub serialize_args-items_text :
    (s : Bytes) (m : Map) → serialize_args s m ≡ s ++ items_text (arg_items m)
unfolding serialize_args
serialize_args-items_text s [] = sym (append-nil s)
serialize_args-items_text s ((k, v) ∷ m) =
    serialize_args-items_text (s ++ arg_text k v) m ∙ append_assoc s (arg_text k v) _

pub serialize_flags-items_text :
    (s : Bytes) (fs : List Bytes) → serialize_flags s fs ≡ s ++ items_text (flag_items fs)
unfolding serialize_flags
serialize_flags-items_text s [] = sym (append-nil s)
serialize_flags-items_text s (f ∷ fs) =
    serialize_flags-items_text (s ++ (b' ' ∷ f)) fs ∙ append_assoc s (b' ' ∷ f) _

pub add_items-append :
    (m : Message.Message) (xs ys : List Item)
    → add_items m (xs ++ ys) ≡ add_items (add_items m xs) ys
add_items-append m [] ys = refl
add_items-append m (x ∷ xs) ys = add_items-append (add_item m x) xs ys

pub add_items-arg_items :
    (m : Message.Message) (a : Map) → add_items m (arg_items a) ≡ record m { args = m.args ++ a }
add_items-arg_items m [] = rw append-nil
add_items-arg_items m ((k, v) ∷ a) = add_items-arg_items (Message.add_arg m k v) a ∙ rw append_assoc

pub add_items-flag_items :
    (m : Message.Message) (fs : List Bytes)
    → add_items m (flag_items fs) ≡ record m { flags = m.flags ++ fs }
add_items-flag_items m [] = rw append-nil
add_items-flag_items m (f ∷ fs) = add_items-flag_items (Message.add_flag m f) fs ∙ rw append_assoc

-- No zero byte in any key or value.
abbrev pub CleanArgs : Map → Type 0
CleanArgs [] = Unit
CleanArgs ((k, v) ∷ a) = (contains 0 k ≡ false) × (contains 0 v ≡ false) × CleanArgs a

pub no_zero-all_word : (s : Bytes) → all_word s ≡ true → contains 0 s ≡ false
no_zero-all_word s h = contains-all_word 0 s (unfold is_word_byte in refl) h

pub CleanArgs-carried : (a : Map) → All IsItem (arg_items a) → CleanArgs a
CleanArgs-carried [] h = tt
CleanArgs-carried ((k, v) ∷ a) h =
    (no_zero-all_word k h.0.0.0, h.0.1.0.no_zero, CleanArgs-carried a h.1)

-- The C view of clean arguments and flags is what they are.
map-arg_c : (a : Map) → CleanArgs a → map Message.arg_c a ≡ a
map-arg_c [] h = refl
map-arg_c ((k, v) ∷ a) h = rw (c_str-id k h.0, c_str-id v h.1, map-arg_c a h.2)

map-c_str : (fs : List Bytes) → All IsItem (flag_items fs) → map c_str fs ≡ fs
map-c_str [] h = refl
map-c_str (f ∷ fs) h = rw (c_str-all_word f h.0.1.0, map-c_str fs h.1)

elements-items_or_null {ℓ} :
    {A : Type ℓ} (xs : List A) (n : Option ℕ) → elements (items_or_null xs, n) ≡ xs
elements-items_or_null [] n = refl
elements-items_or_null (x ∷ xs) n = refl

pub args_of-some : (m : Message.Message) → CleanArgs m.args → args_of (some m) ≡ m.args
unfolding spore_message_get_args
args_of-some m h = elements-items_or_null (map Message.arg_c m.args) _ ∙ map-arg_c m.args h

pub flags_of-some :
    (m : Message.Message) → All IsItem (flag_items m.flags) → flags_of (some m) ≡ m.flags
unfolding spore_message_get_flags
flags_of-some m h = elements-items_or_null (map c_str m.flags) _ ∙ map-c_str m.flags h

pub or_empty-data_or_null : (s : Bytes) → contains 0 s ≡ false → or_empty (data_or_null s) ≡ s
or_empty-data_or_null [] h = refl
or_empty-data_or_null (x ∷ s) h = c_str-id (x ∷ s) h

pub add_args-assign_all :
    (msg : Message) (a : Map) → add_args false msg a ≡ record msg { args = assign_all msg.args a }
unfolding add_args assign_all
add_args-assign_all msg [] = refl
add_args-assign_all msg ((k, v) ∷ a) = add_args-assign_all (add_arg msg k v) a

pub add_flags-insert_all :
    (msg : Message) (fs : List Bytes)
    → add_flags msg fs ≡ record msg { flags = insert_all msg.flags fs }
unfolding add_flags insert_all
add_flags-insert_all msg [] = refl
add_flags-insert_all msg (f ∷ fs) = add_flags-insert_all (add_flag msg f) fs

pub populate_message-loops :
    (m : Message.Message)
    → populate_message empty (some m) false
      ≡ add_flags
          (add_args false
            (record empty {
              command = or_empty (data_or_null m.capability);
              handle = or_empty (data_or_null m.handle);
            })
            (args_of (some m)))
          (flags_of (some m))
unfolding populate_message
populate_message-loops m = refl

-- What `populateMessage` makes of a parsed message with clean contents.
pub populate_message-clean :
    (m : Message.Message)
    → contains 0 m.capability ≡ false
    → contains 0 m.handle ≡ false
    → AreArgs m.args
    → AreFlags m.flags
    → populate_message empty (some m) false
      ≡ record empty { command = m.capability; handle = m.handle; args = m.args; flags = m.flags }
populate_message-clean m c h a f =
    populate_message-loops m
    ∙ simp (
      args_of-some m (CleanArgs-carried m.args a.carried),
      flags_of-some m f.carried,
      or_empty-data_or_null m.capability c,
      or_empty-data_or_null m.handle h,
      add_args-assign_all,
      add_flags-insert_all,
      assign_all-IsSorted m.args a.sorted,
      insert_all-IsSortedSet m.flags f.sorted,
    )
