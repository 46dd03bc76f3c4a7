-- ===== src/Fuzz/Tests.antt =====
-- The fuzz target at an encoded transaction, with toys in the place of zxlib's functions.
use ledger_arweave.Base.{◌≡◌, refl, none, some, [], Option, Bytes}
use ledger_arweave.Status.{codes}
use ledger_arweave.Parser
use ledger_arweave.Parser.{
  parse, init_context, read, read_element, read_u16, read_tag, read_tags, read_tag_list,
  check_format, check_owner, check_tags_count,
}
use ledger_arweave.Parser.Layout.{encode, encode_element, encode_u16, encode_tags}
use ledger_arweave.Parser.Tests.{idle, message}
use ledger_arweave.Base64
use ledger_arweave.Display.{
  Screen, get_num_items, get_item, print_tag, show_items, first_page, get_fixed_item,
  get_further_item, get_tag_item, print_target, print_quantity, print_reward, print_last_tx,
  print_data, print_size,
}
use ledger_arweave.Display.Tests.{ui}
use ledger_arweave.Fuzz.{
  Outcome, returned, validate_tx, host_validate, test_one_input, show_all, show_pages,
}
use ledger_arweave.Fuzz.NoAbort.{test_one_input-returned}

abbrev empty_texts : Screen
empty_texts = record { key = []; value = []; page_count = 0 }

test_one_input-returned_example :
    (s : Screen) × (test_one_input ui idle message empty_texts ≡ some (returned, s))
test_one_input-returned_example = test_one_input-returned ui idle message empty_texts

key_of : Option (Outcome × Screen) → Bytes
key_of none = []
key_of (some (o, s)) = s.key

-- The last item that is shown is the last tag.
last_key : key_of (test_one_input ui idle message empty_texts) ≡ codes "App"
unfolding key_of test_one_input validate_tx host_validate show_all show_pages parse Parser.init
    init_context read read_u16 read_element read_tag read_tags read_tag_list check_format
    check_owner check_tags_count encode encode_element encode_u16 encode_tags show_items first_page
    get_item get_num_items get_fixed_item get_further_item get_tag_item print_target print_quantity
    print_reward print_last_tx print_data print_size print_tag Base64.encode Base64.round
    Base64.rounds Base64.finish
last_key = refl
