-- ===== src/Tests/RoundTrips.antt =====
-- The round trips and the container laws at concrete messages.
use spore_client_libs.Base.{List, [], ◌∷◌, none, some, ◌≡◌, refl}
use spore_client_libs.Base.Text.{Bytes, find?, c_str, codes, equal, contains, has_pair}
use spore_client_libs.Parser.Build.{is_block}
use spore_client_libs.Wire.Map.{Map, less, lookup}
use spore_client_libs.Wire.Message.{
  ResponseError, Message, Witness, empty, Publish, request_text, witness_text, publish_text,
}
use spore_client_libs.Wire.Items.{all_word, is_safe}
use spore_client_libs.Wire.Copies.{copy_flags, copy_arg_ids, copy-capacity}
use spore_client_libs.Wire.ErrorFields.{lookup-create_from_raw}
use spore_client_libs.Wire.Populate.{AreArgs, AreFlags}
use spore_client_libs.Wire.Raw.{
  spore_request_create_from_raw, spore_response_error_create_from_raw,
  spore_witness_create_from_raw, spore_publish_create_from_raw,
}
use spore_client_libs.Wire.RoundTrip.Request
use spore_client_libs.Wire.RoundTrip.Request.{create_from_raw-request_text}
use spore_client_libs.Wire.RoundTrip.Publish
use spore_client_libs.Wire.RoundTrip.Publish.{create_from_raw-publish_text}
use spore_client_libs.Wire.RoundTrip.Witness
use spore_client_libs.Wire.RoundTrip.Witness.{create_from_raw-witness_text}

-- One value of each form that `serializeArg` writes.
abbrev some_args : Map
some_args =
    (codes "a", codes "plain~x=1")
    ∷ (codes "b", codes "two words")
    ∷ (codes "c", codes "say \"hi\"")
    ∷ (codes "d", codes "line 1\nline 2")
    ∷ []

abbrev some_flags : List Bytes
some_flags = codes "fast" ∷ codes "quiet" ∷ []

some_args-AreArgs : AreArgs some_args
unfolding all_word is_safe contains less has_pair
some_args-AreArgs = record {
  carried = (
    ((refl, refl), (record { no_zero = refl; no_return = refl }, refl)),
    (
      ((refl, refl), (record { no_zero = refl; no_return = refl }, refl)),
      (
        ((refl, refl), (record { no_zero = refl; no_return = refl }, refl)),
        (((refl, refl), (record { no_zero = refl; no_return = refl }, refl)), tt),
      ),
    ),
  );
  sorted = ((refl, (refl, (refl, tt))), ((refl, (refl, tt)), ((refl, tt), (tt, tt))));
}

some_flags-AreFlags : AreFlags some_flags
unfolding all_word less
some_flags-AreFlags = record {
  carried = ((refl, (refl, refl)), ((refl, (refl, refl)), tt));
  sorted = ((refl, tt), (tt, tt));
}

abbrev some_request : Message
some_request = record empty {
  command = codes "Example.run";
  handle = codes "h1";
  args = some_args;
  flags = some_flags;
}

some_request-IsSendable : Request.IsSendable some_request
unfolding all_word
some_request-IsSendable = record {
  command = (refl, (refl, refl));
  not_witness = λ e. cc;
  not_publish = λ e. cc;
  handle = refl;
  args = some_args-AreArgs;
  flags = some_flags-AreFlags;
}

create_from_raw-request_text_example :
    spore_request_create_from_raw (some (request_text some_request))
    ≡ some (record some_request { raw = request_text some_request; serialized = [] })
create_from_raw-request_text_example =
    create_from_raw-request_text some_request some_request-IsSendable

abbrev some_witness : Witness
some_witness = record {
  message = record empty { args = some_args; flags = some_flags };
  body = codes "a 'body' with words";
}

some_witness-IsSendable : Witness.IsSendable some_witness
unfolding contains is_block
some_witness-IsSendable = record {
  body = (record { no_zero = refl; no_return = refl }, refl, refl);
  args = some_args-AreArgs;
  flags = some_flags-AreFlags;
  other_keys = (λ e. cc, (λ e. cc, (λ e. cc, (λ e. cc, tt))));
}

create_from_raw-witness_text_example :
    spore_witness_create_from_raw (some (witness_text some_witness))
    ≡ some (record {
      message = record empty {
        args = some_args;
        flags = some_flags;
        raw = witness_text some_witness;
      };
      body = codes "a 'body' with words";
    })
create_from_raw-witness_text_example =
    create_from_raw-witness_text some_witness some_witness-IsSendable

abbrev some_publish : Publish
some_publish = record {
  message = record empty { args = some_args; flags = some_flags };
  topic = codes "Example.done";
}

some_publish-IsSendable : Publish.IsSendable some_publish
unfolding all_word
some_publish-IsSendable = record {
  topic = (refl, (refl, refl));
  args = some_args-AreArgs;
  flags = some_flags-AreFlags;
}

create_from_raw-publish_text_example :
    spore_publish_create_from_raw (some (publish_text some_publish))
    ≡ some (record {
      message = record empty {
        args = some_args;
        flags = some_flags;
        raw = publish_text some_publish;
      };
      topic = codes "Example.done";
    })
create_from_raw-publish_text_example =
    create_from_raw-publish_text some_publish some_publish-IsSendable

-- Two flags copied to an array of three slots, and four keys to one of the same size.
copy-capacity_example :
    (copy_flags some_request (some (codes "x" ∷ codes "y" ∷ codes "z" ∷ [])) 3
      ≡ (some (codes "fast" ∷ codes "quiet" ∷ codes "z" ∷ []), 2))
    × (copy_arg_ids some_request (some (codes "x" ∷ codes "y" ∷ codes "z" ∷ [])) 3
        ≡ (some (codes "a" ∷ codes "b" ∷ codes "c" ∷ []), 4))
unfolding c_str
copy-capacity_example = copy-capacity some_request (codes "x" ∷ codes "y" ∷ codes "z" ∷ []) 3 refl

abbrev raw_error : Bytes
raw_error = codes "~h:Some.thing error code=7 what=\"it broke\" n=1\n"

abbrev read_error : ResponseError
read_error = record {
  message = record empty {
    command = codes "Some.thing";
    handle = codes "h";
    args = (codes "n", codes "1") ∷ [];
    flags = codes "error" ∷ [];
    raw = raw_error;
  };
  code = codes "7";
  what = codes "it broke";
}

raw_error-read : spore_response_error_create_from_raw (some raw_error) ≡ some read_error
unfolding spore_response_error_create_from_raw equal find? c_str contains
raw_error-read = refl

lookup-create_from_raw_example :
    (lookup (codes "code") read_error.args ≡ none) × (lookup (codes "what") read_error.args ≡ none)
lookup-create_from_raw_example = lookup-create_from_raw raw_error read_error raw_error-read
