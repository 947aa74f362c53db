-- ===== src/Tests/Texts.antt =====
-- Two texts in one, the bounds of the tokenizer, what parsing leaves, and messages filled in another
-- order, at concrete inputs.
use spore_client_libs.Base.{some, List, [], ◌∷◌, ◌++◌, ◌+◌, ◌≤◌, ◌≡◌, refl, length, arith}
use spore_client_libs.Base.Text.{Bytes, codes, equal, c_str, equal_iff}
use spore_client_libs.Parser.Lexer.{Inside, scan, initial, tokenize, step_in}
use spore_client_libs.Parser.Message.{Message}
use spore_client_libs.Parser.Message
use spore_client_libs.Parser.Build.{Parser, new_parser, witness, strip_block}
use spore_client_libs.Parser.Validate.{parse, restart}
use spore_client_libs.Parser.Described.{type_after, all_parts, noted_in, described, parse-described}
use spore_client_libs.Parser.Blanks.{tokenize-blank}
use spore_client_libs.Parser.Sizes.{total, tokenize-total}
use spore_client_libs.Wire.Map.{lookup, member}
use spore_client_libs.Wire.Message.{empty, request_text, response_text}
use spore_client_libs.Wire.Additions.{
  Addition, arg, flag, add_all, value_after, set_after, IsOrdered, add_all-same,
}

abbrev left_text : Bytes
left_text = codes "run a=\"x y\""

abbrev right_text : Bytes
right_text = codes "b=[1 2] f"

left_text-closed : (scan (initial []) left_text).inside ≡ Inside.none
unfolding scan step_in
left_text-closed = refl

tokenize-blank_example :
    tokenize (left_text ++ b' ' ∷ right_text) [] ≡ tokenize left_text [] ++ tokenize right_text []
tokenize-blank_example = tokenize-blank left_text right_text left_text-closed

abbrev open_text : Bytes
open_text = codes "run a=[[[x"

tokenize-total_example :
    (total (tokenize open_text []) ≤ length open_text + (length open_text + 2))
    × ((scan (initial []) open_text).depth ≤ length open_text)
tokenize-total_example = tokenize-total open_text

-- A parser and a message that were used before.
abbrev used_parser : Parser
used_parser = record new_parser { type = witness; error_code = codes "Malformed" }

abbrev used_message : Message
used_message = record Message.empty { handle = codes "old"; flags = codes "f" ∷ [] }

abbrev publication : Bytes
publication = codes "publish news a=<<\nx\n>> ok ~h"

parse-described_example : parse used_parser publication (some used_message) ≡ (
  record (restart used_parser publication) {
    type = type_after witness (tokenize publication []);
    props = noted_in (all_parts (tokenize publication []));
  },
  some (described used_message (tokenize publication [])),
)
parse-described_example = parse-described used_parser publication used_message

described-publication : described used_message (tokenize publication []) ≡ record {
  capability = codes "news";
  handle = codes "h";
  args = (codes "a", codes "x") ∷ [];
  flags = codes "f" ∷ codes "ok" ∷ [];
}
unfolding tokenize equal strip_block c_str
described-publication = refl

abbrev one_way : List Addition
one_way = arg (codes "a") (codes "1") ∷ flag (codes "f") ∷ arg (codes "b") (codes "2") ∷ []

abbrev other_way : List Addition
other_way =
    arg (codes "b") (codes "0")
    ∷ arg (codes "b") (codes "2")
    ∷ flag (codes "f")
    ∷ arg (codes "a") (codes "1")
    ∷ []

one_way-values :
    (q : Bytes)
    → value_after q one_way (lookup q empty.args) ≡ value_after q other_way (lookup q empty.args)
one_way-values q = ground (arith, equal_iff (codes "a") q, equal_iff (codes "b") q)

one_way-flags :
    (q : Bytes)
    → set_after q one_way (member q empty.flags) ≡ set_after q other_way (member q empty.flags)
one_way-flags q = refl

add_all-same_example :
    (add_all one_way empty ≡ add_all other_way empty)
    × IsOrdered (add_all one_way empty)
    × (request_text (add_all one_way empty) ≡ request_text (add_all other_way empty))
    × (response_text (add_all one_way empty) ≡ response_text (add_all other_way empty))
add_all-same_example =
    add_all-same one_way other_way empty (record { args = tt; flags = tt }) one_way-values
      one_way-flags
