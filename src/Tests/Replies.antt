-- ===== src/Tests/Replies.antt =====
-- The round trips of replies, and the ends of lines, at concrete inputs.
use spore_client_libs.Base.{[], ◌∷◌, some, ◌≡◌, refl}
use spore_client_libs.Base.Text.{Bytes, codes, contains, equal, has_pair}
use spore_client_libs.Parser.Build.{is_block}
use spore_client_libs.Wire.Map.{less, insert}
use spore_client_libs.Wire.Message.{
  Message, ResponseError, empty, response_text, response_error_text,
}
use spore_client_libs.Wire.Items.{all_word, is_raw, is_safe}
use spore_client_libs.Wire.LineEnds.{crlf, parse_raw-crlf}
use spore_client_libs.Wire.Raw.{
  parse_raw, spore_response_create_from_raw, spore_response_error_create_from_raw,
}
use spore_client_libs.Wire.RoundTrip.Response
use spore_client_libs.Wire.RoundTrip.Response.{create_from_raw-response_text}
use spore_client_libs.Wire.RoundTrip.ErrorItems
use spore_client_libs.Wire.RoundTrip.ResponseError.{create_from_raw-response_error_text}

abbrev some_response : Message
some_response = record empty {
  command = codes "Example.run";
  handle = codes "h1";
  args = (codes "n", codes "two words") ∷ [];
  flags = codes "fast" ∷ codes "quiet" ∷ [];
}

some_response-IsSendable : Response.IsSendable some_response
unfolding all_word is_safe contains less has_pair
some_response-IsSendable = record {
  named = refl;
  handle = refl;
  no_colon = refl;
  command = refl;
  args = record {
    carried = (((refl, refl), (record { no_zero = refl; no_return = refl }, refl)), tt);
    sorted = (tt, tt);
  };
  flags = record {
    carried = ((refl, (refl, refl)), ((refl, (refl, refl)), tt));
    sorted = ((refl, tt), (tt, tt));
  };
}

create_from_raw-response_text_example :
    spore_response_create_from_raw (some (response_text some_response))
    ≡ some (record some_response {
      flags = insert (codes "ok") some_response.flags;
      raw = response_text some_response;
      serialized = [];
    })
create_from_raw-response_text_example =
    create_from_raw-response_text some_response some_response-IsSendable

abbrev some_error : ResponseError
some_error = record { message = some_response; code = codes "E7"; what = codes "it broke" }

some_error-IsSendable : ErrorItems.IsSendable some_error
unfolding all_word is_safe contains less has_pair is_raw is_block equal
some_error-IsSendable = record {
  named = refl;
  handle = refl;
  no_colon = refl;
  command = refl;
  code = (record { no_zero = refl; no_return = refl }, refl);
  what = (record { no_zero = refl; no_return = refl }, refl, refl);
  args = some_response-IsSendable.args;
  other = (refl, refl, tt);
  flags = some_response-IsSendable.flags;
}

create_from_raw-response_error_text_example :
    spore_response_error_create_from_raw (some (response_error_text some_error))
    ≡ some (record some_error {
      message = record some_response {
        flags = insert (codes "node_error") (insert (codes "error") some_response.flags);
        raw = response_error_text some_error;
        serialized = [];
      };
    })
create_from_raw-response_error_text_example =
    create_from_raw-response_error_text some_error some_error-IsSendable

abbrev with_block : Bytes
with_block = codes "run ~h a=<<\nx\n>> f\n"

parse_raw-crlf_example : parse_raw (crlf with_block) ≡ parse_raw with_block
unfolding contains
parse_raw-crlf_example = parse_raw-crlf with_block refl

with_block-crlf : crlf with_block ≡ codes "run ~h a=<<\r\nx\r\n>> f\r\n"
unfolding crlf
with_block-crlf = refl
