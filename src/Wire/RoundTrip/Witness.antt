-- ===== src/Wire/RoundTrip/Witness.antt =====
-- `Witness::serialize` and `spore_witness_create_from_raw`.
use spore_client_libs.Base.{
  false, not, List, [], ◌∷◌, ◌++◌, some, ◌≡◌, ◌≢◌, refl, ap, ◌∙◌, if◌then◌else◌, arith, All,
  All-append, append_assoc, append-nil,
}
use spore_client_libs.Base.Text.{Bytes, codes, is_empty, equal, equal-ne, contains, c_str}
use spore_client_libs.Parser.Lexer.{TokenType}
use spore_client_libs.Parser.Message
use spore_client_libs.Parser.Build.{Parser, witness, build_token}
use spore_client_libs.Wire.Map.{Map}
use spore_client_libs.Wire.Message.{Witness, empty, add_arg, witness_text}
use spore_client_libs.Wire.Sorted.{assign_all, assign_all-IsSorted}
use spore_client_libs.Wire.SortedSet.{insert_all-IsSortedSet}
use spore_client_libs.Wire.Items.{Item, quoted, items_text, IsItem, IsWord, IsQuotable, all_word}
use spore_client_libs.Wire.Scan.{tok}
use spore_client_libs.Wire.Rebuild.{add_items}
use spore_client_libs.Wire.Reparse.{word-IsHead, Reparsed, reparse_from}
use spore_client_libs.Wire.Populate.{
  arg_items, flag_items, AreArgs, AreFlags, items_text-append, serialize_args-items_text,
  serialize_flags-items_text, add_items-append, add_items-arg_items, add_items-flag_items,
  args_of-some, flags_of-some, add_flags-insert_all, CleanArgs, CleanArgs-carried,
}
use spore_client_libs.Wire.Raw.{
  args_of, flags_of, add_witness_args, add_flags, witness_of, spore_witness_create_from_raw,
}

-- No argument has the key.
abbrev pub Lacks : Bytes → Map → Type 0
Lacks key [] = Unit
Lacks key ((k, v) ∷ m) = (k ≢ key) × Lacks key m

-- A witness message that the wire can carry. The body is written between double quotes.
pub record IsSendable (w : Witness) : Type 0 where
  pub body : IsQuotable w.body
  pub args : AreArgs w.args
  pub flags : AreFlags w.flags
  pub other_keys : Lacks (codes "body") w.args

body_items : Bytes → List Item
body_items [] = []
body_items (c ∷ b) = quoted (codes "body") (c ∷ b) ∷ []

witness_items : Witness → List Item
witness_items w = body_items w.body ++ (arg_items w.args ++ flag_items w.flags)

told_items :
    (b : Bytes)
    → (if not (is_empty b)
        then codes "witness" ++ (codes " body=\"" ++ (b ++ codes "\""))
        else codes "witness")
      ≡ codes "witness" ++ items_text (body_items b)
unfolding body_items
told_items [] = refl
told_items (x ∷ b) = rw append-nil

witness_text-items :
    (w : Witness) → witness_text w ≡ codes "witness" ++ (items_text (witness_items w) ++ codes "\n")
unfolding witness_text witness_items
witness_text-items w = simp (
  serialize_flags-items_text, serialize_args-items_text, told_items, items_text-append,
  append_assoc,
)

first_of_witness :
    (p : Parser)
    → build_token 0 (tok (codes "witness") TokenType.none) p Message.empty
      ≡ (record p { type = witness }, record Message.empty { capability = codes "witness" })
unfolding build_token equal c_str
first_of_witness p = refl

witness-IsWord : IsWord (codes "witness")
unfolding all_word
witness-IsWord = (refl, (refl, refl))

body_items-IsItem : (b : Bytes) → IsQuotable b → All IsItem (body_items b)
unfolding body_items all_word
body_items-IsItem [] q = tt
body_items-IsItem (x ∷ b) q = (((refl, refl), q), tt)

witness_items-IsItem : (w : Witness) → IsSendable w → All IsItem (witness_items w)
unfolding witness_items
witness_items-IsItem w h =
    All-append IsItem (body_items w.body) _ (body_items-IsItem w.body h.body)
      (All-append IsItem (arg_items w.args) _ h.args.carried h.flags.carried)

-- The arguments as they are parsed: the body is one of them.
abbrev pub body_args : Bytes → Map
body_args [] = []
body_args (c ∷ b) = (codes "body", c ∷ b) ∷ []

abbrev pub parsed : Witness → Message.Message
parsed w = record Message.empty {
  capability = codes "witness";
  args = body_args w.body ++ w.args;
  flags = w.flags;
}

add_items-body_items :
    (m : Message.Message) (b : Bytes)
    → add_items m (body_items b) ≡ record m { args = m.args ++ body_args b }
unfolding body_items
add_items-body_items m [] = rw append-nil
add_items-body_items m (x ∷ b) = refl

witness_message :
    (w : Witness)
    → add_items (record Message.empty { capability = codes "witness" }) (witness_items w) ≡ parsed w
unfolding witness_items
witness_message w =
    simp (add_items-append, add_items-body_items, add_items-arg_items, add_items-flag_items)

pub CleanArgs-body_args :
    (b : Bytes) (a : Map) → contains 0 b ≡ false → CleanArgs a → CleanArgs (body_args b ++ a)
unfolding contains
CleanArgs-body_args [] a h c = c
CleanArgs-body_args (x ∷ b) a h c = (refl, h, c)

pub add_witness_args-Lacks :
    (w : Witness) (a : Map)
    → Lacks (codes "body") a
    → add_witness_args w a
      ≡ record w { message = record (w.message) { args = assign_all w.args a } }
unfolding add_witness_args assign_all
add_witness_args-Lacks w [] l = refl
add_witness_args-Lacks w ((k, v) ∷ a) l =
    rw (equal-ne k (codes "body") l.0)
      (add_witness_args-Lacks (record w { message = add_arg w.message k v }) a l.1)

pub add_witness_args-body_args :
    (w : Witness) (b : Bytes) (a : Map)
    → w.body ≡ []
    → add_witness_args w (body_args b ++ a) ≡ add_witness_args (record w { body = b }) a
unfolding add_witness_args equal
add_witness_args-body_args w [] a e = ground (arith, e)
add_witness_args-body_args w (x ∷ b) a e = refl

witness_of-Reparsed :
    (raw : Bytes) (m : Message.Message)
    → Reparsed raw witness m
    → spore_witness_create_from_raw (some raw) ≡ (
        let w =
          add_witness_args
            (record { message = record empty { raw = raw }; body = [] })
            (args_of (some m)) in
        some (record w { message = add_flags w.message (flags_of (some m)) }))
unfolding spore_witness_create_from_raw
witness_of-Reparsed raw m (p, e, t) = ap (witness_of raw) e ∙ rw (t, witness_of)

pub witness-Reparsed : (w : Witness) → IsSendable w → Reparsed (witness_text w) witness (parsed w)
witness-Reparsed w h =
    let read =
      reparse_from (codes "witness") TokenType.none (witness_items w) witness
        (record Message.empty { capability = codes "witness" })
        (word-IsHead (codes "witness") witness-IsWord) (witness_items-IsItem w h) first_of_witness
        refl in
    rw (← witness_text-items w, witness_message w) at read

-- The text of a witness message that the wire can carry is parsed to one with the same body,
-- arguments and flags. The command and the handle are not sent.
pub create_from_raw-witness_text :
    (w : Witness)
    → IsSendable w
    → spore_witness_create_from_raw (some (witness_text w))
      ≡ some (record {
        message = record empty { args = w.args; flags = w.flags; raw = witness_text w };
        body = w.body;
      })
create_from_raw-witness_text w h =
    let clean =
      CleanArgs-body_args w.body w.args h.body.0.no_zero
        (CleanArgs-carried w.args h.args.carried) in
    witness_of-Reparsed (witness_text w) (parsed w) (witness-Reparsed w h)
    ∙ simp (
      args_of-some (parsed w) clean,
      flags_of-some (parsed w) h.flags.carried,
      add_witness_args-body_args _ w.body w.args refl,
      add_witness_args-Lacks _ w.args h.other_keys,
      add_flags-insert_all,
      assign_all-IsSorted w.args h.args.sorted,
      insert_all-IsSortedSet w.flags h.flags.sorted,
    )
