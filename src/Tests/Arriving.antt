-- ===== src/Tests/Arriving.antt =====
-- A message of each kind, one of them with a block, that the wire can carry.
use spore_client_libs.Base.{[], ◌∷◌, refl}
use spore_client_libs.Base.Text.{Bytes, codes, contains, equal, has_pair}
use spore_client_libs.Parser.Build.{is_block}
use spore_client_libs.Parser.Contents.{has}
use spore_client_libs.Wire.Map.{less}
use spore_client_libs.Wire.Items.{all_word, is_raw, is_safe}
use spore_client_libs.Wire.Message.{
  Message, ResponseError, Witness, Publish, empty, request_text, response_text, response_error_text,
  witness_text, publish_text,
}
use spore_client_libs.Wire.Populate.{AreArgs, AreFlags}
use spore_client_libs.Client.Frame.{opens_block, is_close}
use spore_client_libs.Client.Shapes.{one_line, block}
use spore_client_libs.Client.Packets.{request, response, response_error, witness, publish}
use spore_client_libs.Client.InOrder.{IsArriving}

abbrev pub with_value : Bytes → Message
with_value v = record empty {
  command = codes "run";
  handle = codes "h";
  args = (codes "a", v) ∷ [];
  flags = codes "f" ∷ [];
}

abbrev pub over_lines : Bytes
over_lines = codes "line 1\nline 2"

abbrev pub words : Message
words = with_value (codes "two words")

words-AreArgs : AreArgs words.args
unfolding all_word is_safe contains less has_pair
words-AreArgs = record {
  carried = (((refl, refl), (record { no_zero = refl; no_return = refl }, refl)), tt);
  sorted = (tt, tt);
}

lines-AreArgs : AreArgs (with_value over_lines).args
unfolding all_word is_safe contains less has_pair
lines-AreArgs = record {
  carried = (((refl, refl), (record { no_zero = refl; no_return = refl }, refl)), tt);
  sorted = (tt, tt);
}

words-AreFlags : AreFlags words.flags
unfolding all_word
words-AreFlags = record { carried = ((refl, (refl, refl)), tt); sorted = (tt, tt) }

abbrev pub failure : ResponseError
failure = record { message = words; code = codes "E7"; what = codes "it broke" }

abbrev pub told : Witness
told = record { message = record words { command = []; handle = [] }; body = codes "some text" }

abbrev pub news : Publish
news = record { message = record words { command = []; handle = [] }; topic = codes "node.up" }

pub block-IsArriving : IsArriving (request (with_value over_lines))
unfolding all_word is_safe contains has_pair request_text opens_block is_close
block-IsArriving = record {
  sendable = (
    record {
      command = (refl, (refl, refl));
      not_witness = λ e. cc;
      not_publish = λ e. cc;
      handle = refl;
      args = lines-AreArgs;
      flags = words-AreFlags;
    },
    refl,
  );
  shape = block (codes "run ~h a=<<") (codes "line 1" ∷ codes "line 2" ∷ []) (codes ">> f");
  text = refl;
  shaped = record {
    first_clean = record { no_newline = refl; no_return = refl };
    opens = refl;
    lines = (
      (record { no_newline = refl; no_return = refl }, refl),
      ((record { no_newline = refl; no_return = refl }, refl), tt),
    );
    last_clean = record { no_newline = refl; no_return = refl };
    closes = refl;
    no_other = refl;
  };
  whole = record { filled = refl; no_return = refl; no_zero = refl };
}

abbrev response_line : Bytes
response_line = codes "~h:run ok f a=\"two words\""

pub response-IsArriving : IsArriving (response words)
unfolding all_word is_safe contains has_pair equal has response_text opens_block
response-IsArriving = record {
  sendable = (
    record {
      named = refl;
      handle = refl;
      no_colon = refl;
      command = refl;
      args = words-AreArgs;
      flags = words-AreFlags;
    },
    refl,
    refl,
  );
  shape = one_line response_line;
  text = refl;
  shaped = record {
    filled = refl;
    no_newline = refl;
    no_return = refl;
    no_zero = refl;
    no_block = refl;
  };
  whole = record { filled = refl; no_return = refl; no_zero = refl };
}

abbrev error_line : Bytes
error_line = codes "~h:run error code=E7 what=\"it broke\" a=\"two words\" f node_error"

pub response_error-IsArriving : IsArriving (response_error failure)
unfolding all_word is_safe is_raw is_block contains has_pair equal has response_error_text
    opens_block
response_error-IsArriving = record {
  sendable = (
    record {
      named = refl;
      handle = refl;
      no_colon = refl;
      command = refl;
      code = (record { no_zero = refl; no_return = refl }, refl);
      what = (record { no_zero = refl; no_return = refl }, refl, refl);
      args = words-AreArgs;
      other = (refl, refl, tt);
      flags = words-AreFlags;
    },
    refl,
    refl,
    refl,
    refl,
  );
  shape = one_line error_line;
  text = refl;
  shaped = record {
    filled = refl;
    no_newline = refl;
    no_return = refl;
    no_zero = refl;
    no_block = refl;
  };
  whole = record { filled = refl; no_return = refl; no_zero = refl };
}

abbrev witness_line : Bytes
witness_line = codes "witness body=\"some text\" a=\"two words\" f"

pub witness-IsArriving : IsArriving (witness told)
unfolding all_word is_safe is_block contains has_pair equal witness_text opens_block
witness-IsArriving = record {
  sendable = (
    record {
      body = (record { no_zero = refl; no_return = refl }, refl, refl);
      args = words-AreArgs;
      flags = words-AreFlags;
      other_keys = (λ e. cc, tt);
    },
    refl,
  );
  shape = one_line witness_line;
  text = refl;
  shaped = record {
    filled = refl;
    no_newline = refl;
    no_return = refl;
    no_zero = refl;
    no_block = refl;
  };
  whole = record { filled = refl; no_return = refl; no_zero = refl };
}

abbrev publish_line : Bytes
publish_line = codes "publish node.up a=\"two words\" f"

pub publish-IsArriving : IsArriving (publish news)
unfolding all_word is_safe contains has_pair publish_text opens_block
publish-IsArriving = record {
  sendable = record { topic = (refl, (refl, refl)); args = words-AreArgs; flags = words-AreFlags };
  shape = one_line publish_line;
  text = refl;
  shaped = record {
    filled = refl;
    no_newline = refl;
    no_return = refl;
    no_zero = refl;
    no_block = refl;
  };
  whole = record { filled = refl; no_return = refl; no_zero = refl };
}
