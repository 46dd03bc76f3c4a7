-- ===== src/Parser/Tests.antt =====
-- Runs of the parser, and its theorems at a concrete transaction.
use ledger_arweave.Base.{
  ℕ, ◌∙◌, sym, take-append, ◌≡◌, ◌≢◌, refl, [], ◌∷◌, ◌++◌, some, Bytes, arith, length, replicate,
  take, drop, take-append-drop, ◌<◌, true, are_below, are_below_sound,
}
use ledger_arweave.Status.{ok, fail, codes, parser_no_data}
use ledger_arweave.Parser.{Context, Tx, parse, empty_element, empty_tag}
use ledger_arweave.Parser.Layout.{
  Transaction, IsSupported, encode, encode_element, encode_tags, encode_u16,
}
use ledger_arweave.Parser.Prefix.{without_buffer, parse-take}
use ledger_arweave.Parser.RoundTrip.{IsSound, Parsed, parse-encode, parse-IsSound, parse-truncated}

-- The globals before the first message.
abbrev pub idle : Context × Tx
idle = (
  record { buffer = []; buffer_len = 0; offset = 0 },
  record {
    format = empty_element;
    owner = empty_element;
    target = empty_element;
    quantity = empty_element;
    reward = empty_element;
    last_tx = empty_element;
    tags_count = 0;
    tags = replicate 16 empty_tag;
    data_size = empty_element;
    data_root = empty_element;
  },
)

abbrev pub transfer : Transaction
transfer = record {
  format = codes "2";
  owner = replicate 512 7;
  target = 1 ∷ 2 ∷ 3 ∷ [];
  quantity = codes "150";
  reward = codes "12345";
  last_tx = 9 ∷ [];
  tags = (codes "App", codes "x") ∷ [];
  data_size = codes "88";
  data_root = [];
}

pub transfer-IsSupported : IsSupported transfer
transfer-IsSupported = record {
  version = refl;
  modulus = refl;
  few_tags = omega arith;
  target_fits = omega arith;
  quantity_fits = omega arith;
  reward_fits = omega arith;
  last_tx_fits = omega arith;
  tags_fit = omega arith;
  data_size_fits = omega arith;
  data_root_fits = omega arith;
}

no_bytes : parse idle (some []) 0 ≡ fail parser_no_data idle
unfolding parse
no_bytes = refl

-- The encoding of the transfer, and two bytes behind it.
abbrev pub message : Bytes
message = encode transfer ++ 1 ∷ 2 ∷ []

pub message-are_bytes : are_below 256 message ≡ true
unfolding encode encode_element encode_u16 encode_tags
message-are_bytes = refl

pub length-message : length message ≡ 555
unfolding encode encode_element encode_u16 encode_tags
length-message = refl

pub message-small : length message < 65536
message-small = omega (arith, length-message)

parse-encode_example : Parsed idle message (length message) transfer (1 ∷ 2 ∷ [])
parse-encode_example =
    parse-encode idle transfer (1 ∷ 2 ∷ []) transfer-IsSupported
      (are_below_sound 256 message message-are_bytes) message-small refl

pub parsed_message : Parsed idle message (length message) transfer (1 ∷ 2 ∷ [])
parsed_message =
    parse-encode idle transfer (1 ∷ 2 ∷ []) transfer-IsSupported
      (are_below_sound 256 message message-are_bytes) message-small refl

parse-IsSound_example : IsSound message (length message) parsed_message.after
parse-IsSound_example =
    parse-IsSound idle message (length message) parsed_message.after
      (record {
        readable = omega arith;
        small = message-small;
        bytes = are_below_sound 256 message message-are_bytes;
      })
      refl parsed_message.returns

-- The first ten bytes of the transfer's encoding.
abbrev stub : Bytes
stub = take 10 (encode transfer)

stub-are_bytes : are_below 256 stub ≡ true
unfolding encode encode_element encode_u16 encode_tags
stub-are_bytes = refl

drop_rest : drop 10 (encode transfer) ≢ []
unfolding encode encode_element encode_u16 encode_tags
drop_rest e = cc

length-stub : length stub ≡ 10
unfolding encode encode_element encode_u16 encode_tags
length-stub = refl

parse-truncated_example : parse idle (some stub) (length stub) ≢ ok idle
parse-truncated_example =
    parse-truncated idle transfer stub (drop 10 (encode transfer)) idle transfer-IsSupported
      (take-append-drop 10 (encode transfer)) drop_rest (are_below_sound 256 stub stub-are_bytes)
      (omega (arith, length-stub)) refl

behind : (b : ℕ) → take (length message) (message ++ b ∷ []) ≡ message
behind b = take-append message (b ∷ []) (length message) refl

parse-take_example :
    without_buffer (parse idle (some (message ++ 1 ∷ [])) (length message))
    ≡ without_buffer (parse idle (some (message ++ 2 ∷ [])) (length message))
parse-take_example =
    parse-take (message ++ 1 ∷ []) (message ++ 2 ∷ []) (length message) (behind 1 ∙ sym (behind 2))
      idle
