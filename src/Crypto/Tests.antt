-- ===== src/Crypto/Tests.antt =====
-- The theorems on signing at a concrete transaction and store.
use ledger_arweave.Base.{
  ◌≡◌, ◌++◌, refl, some, Option, Bytes, arith, drop, replicate, true, ap, ◌∙◌, ◌⊎◌,
}
use ledger_arweave.Result.{ok, fail, ZxError}
use ledger_arweave.Store.{Store, store_signature, is_initialized}
use ledger_arweave.Store.Tests.{sdk, fresh, blank}
use ledger_arweave.Parser.Tests.{transfer, message, parsed_message}
use ledger_arweave.DeepHash.{Hash}
use ledger_arweave.Crypto.{Signing, sign}
use ledger_arweave.Crypto.Sign.{sign-signs, sign-fail_unchanged}
use ledger_arweave.DeepHash.Tree.{deep_hash, transaction_tree, absorb_all}
use ledger_arweave.Parser.Layout.{Transaction, view}

-- A hash function that gives one value only, and a signature that is the key with the hash.
flat : Hash
flat b = some (replicate 48 6)

toy_sign : Bytes → Bytes → Option Bytes
toy_sign key hash = some (key ++ hash)

abbrev ready : Signing
ready = record {
  buffer = replicate 100 0;
  sig_size = 0;
  store = record fresh { first = record blank { initialized = true; rsa_priv = replicate 480 8 } };
}

ready_set : is_initialized ready.store ≡ true
unfolding is_initialized
ready_set = refl

toy_sign_bytes : Bytes
toy_sign_bytes = replicate 480 8 ++ replicate 32 6

hashed_transfer : deep_hash flat (transaction_tree transfer) ≡ some (replicate 48 6)
unfolding deep_hash absorb_all flat
hashed_transfer = refl

hashed :
    deep_hash flat (transaction_tree (view message parsed_message.after.1)) ≡ some (replicate 48 6)
hashed =
    ap (λ (t : Transaction). deep_hash flat (transaction_tree t)) parsed_message.means
    ∙ hashed_transfer

sign-signs_example :
    sign sdk flat toy_sign message parsed_message.after.1 100 ready
    ≡ ok (record {
      buffer = replicate 48 6 ++ drop 48 ready.buffer;
      sig_size = 48;
      store = store_signature (toy_sign_bytes) ready.store;
    })
unfolding toy_sign toy_sign_bytes
sign-signs_example =
    sign-signs sdk flat toy_sign message parsed_message.after.1 100 ready (replicate 48 6)
      (replicate 32 6) toy_sign_bytes parsed_message.bounds ready_set (omega arith) hashed refl refl
      refl

-- Signing on a store that is not set up.
sign-fail_unchanged_example :
    ((s' : Signing) × (sign sdk flat toy_sign message parsed_message.after.1 100
          (record ready { store = fresh })
        ≡ ok s'))
    ⊎ ((e : ZxError) × (sign sdk flat toy_sign message parsed_message.after.1 100
            (record ready { store = fresh })
          ≡ fail e (record ready { store = fresh })))
sign-fail_unchanged_example =
    sign-fail_unchanged sdk flat toy_sign message parsed_message.after.1 100
      (record ready { store = fresh })

keyed_store : Store
keyed_store = record fresh { first = record blank { initialized = true; rsa_pub = replicate 32 8 } }
