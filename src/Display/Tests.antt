-- ===== src/Display/Tests.antt =====
-- The theorems on the review at a concrete transaction, with toys in the place of zxlib's functions.
use ledger_arweave.Base.{
  ◌+◌, ◌≡◌, refl, true, some, Bytes, arith, take, replicate, ◌++◌, [], ◌∷◌, length,
}
use ledger_arweave.Status.{ok, codes}
use ledger_arweave.Parser.{Tx, empty_tag}
use ledger_arweave.Parser.Tests.{idle}
use ledger_arweave.DeepHash.Decimal.{decimal}
use ledger_arweave.Store.{Store, is_initialized, pubkey_part, get_pubkey}
use ledger_arweave.Store.Tests.{fresh, blank}
use ledger_arweave.Crypto.{get_pubkey_part}
use ledger_arweave.Base64
use ledger_arweave.Display.{
  Ui, roots, written, get_num_items, get_item, print_tag, validate, same_owner, show_items,
  first_page, get_fixed_item, get_further_item, get_tag_item, print_target, print_quantity,
  print_reward, print_last_tx, print_data, print_size,
}
use ledger_arweave.Display.Items.{get_item-print_tag}
use ledger_arweave.Display.Meaning.{get_item-view}
use ledger_arweave.Parser.Layout.{view}
use ledger_arweave.Parser.RoundTrip.{IsInBounds}

-- A screen of one page.
abbrev pub ui : Ui
ui = record {
  page = λ n text i. (take n text, 1);
  to_fp = λ text decimals. some text;
  join = λ text prefix postfix. some (prefix ++ text ++ postfix);
  trim = λ text. text;
  expert = true;
}

-- The owner's modulus, and behind it the text of the other fields.
abbrev memory : Bytes
memory = replicate 512 7 ++ codes "150x"

-- The reward is the whole text, and so on: what matters is that each field lies in the memory.
abbrev shown : Tx
shown = record idle.1 {
  owner = record { len = 512; ptr = 0 };
  target = record { len = 3; ptr = 512 };
  quantity = record { len = 3; ptr = 512 };
  reward = record { len = 3; ptr = 512 };
  last_tx = record { len = 3; ptr = 512 };
  data_size = record { len = 3; ptr = 512 };
  tags_count = 2;
}

abbrev pub own : Store
own = record fresh {
  first = record blank { initialized = true; rsa_size = 512; rsa_pub = replicate 512 7 };
}

get_item-print_tag_example :
    get_item ui memory 40 40 0 shown
      (5 + roots shown + 1)
      (record { key = []; value = []; page_count = 0 })
    ≡ print_tag ui memory 40 40 0 empty_tag (record {
      key = written 40 (codes "? " ++ decimal (5 + roots shown + 1));
      value = written 40 (codes "?");
      page_count = 1;
    })
get_item-print_tag_example =
    get_item-print_tag ui memory 40 40 0 shown 1 (record { key = []; value = []; page_count = 0 })
      refl (omega arith) (omega arith)

accepted : validate ui own memory shown ≡ ok 7
unfolding validate same_owner get_pubkey_part is_initialized pubkey_part get_pubkey show_items
    first_page get_item get_num_items get_fixed_item get_further_item get_tag_item print_target
    print_quantity print_reward print_last_tx print_data print_size print_tag Base64.encode
    Base64.round Base64.rounds Base64.finish
accepted = refl

-- The same transaction one byte further on.
abbrev moved_memory : Bytes
moved_memory = 0 ∷ memory

abbrev moved : Tx
moved = record idle.1 {
  owner = record { len = 512; ptr = 1 };
  target = record { len = 3; ptr = 513 };
  quantity = record { len = 3; ptr = 513 };
  reward = record { len = 3; ptr = 513 };
  last_tx = record { len = 3; ptr = 513 };
  data_size = record { len = 3; ptr = 513 };
  tags_count = 2;
}

shown-IsInBounds : IsInBounds (length memory) shown
shown-IsInBounds = record {
  format_in = omega arith;
  owner_in = omega arith;
  target_in = omega arith;
  quantity_in = omega arith;
  reward_in = omega arith;
  last_tx_in = omega arith;
  tags_in = ((omega arith, omega arith), ((omega arith, omega arith), tt));
  count_in = omega arith;
  data_size_in = omega arith;
  data_root_in = omega arith;
}

moved-IsInBounds : IsInBounds (length moved_memory) moved
moved-IsInBounds = record {
  format_in = omega arith;
  owner_in = omega arith;
  target_in = omega arith;
  quantity_in = omega arith;
  reward_in = omega arith;
  last_tx_in = omega arith;
  tags_in = ((omega arith, omega arith), ((omega arith, omega arith), tt));
  count_in = omega arith;
  data_size_in = omega arith;
  data_root_in = omega arith;
}

same_view : view memory shown ≡ view moved_memory moved
same_view = refl

get_item-view_example :
    (get_num_items ui shown ≡ get_num_items ui moved)
    × (get_item ui memory 40 40 0 shown 6 (record { key = []; value = []; page_count = 0 })
        ≡ get_item ui moved_memory 40 40 0 moved 6
            (record { key = []; value = []; page_count = 0 }))
get_item-view_example =
    get_item-view memory moved_memory shown moved shown-IsInBounds moved-IsInBounds same_view ui 40
      40 0 6 (record { key = []; value = []; page_count = 0 }) (omega arith)
