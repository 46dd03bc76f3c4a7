-- ===== src/Store/Tests.antt =====
-- The theorems on the key store at concrete stores, with toys in the place of the SDK's functions.
use ledger_arweave.Base.{
  ◌≡◌, refl, true, false, none, some, take, replicate, length-take, length-append, arith, [], ◌∷◌,
  ◌++◌,
}
use ledger_arweave.Result.{ok, fail, final, zxerr_unknown}
use ledger_arweave.Store.{
  Sdk, Slot, Store, init, init_test, store_signature, slot_is_initialized, same_masterseed,
  initialize_slot, derive_master_seed, init_primes, init_keys, primes_of, derive_prime,
  prime_blocks, uninitialized_slot,
}
use ledger_arweave.Store.Keys.{HasKeys}
use ledger_arweave.Store.Cases.{wiped}
use ledger_arweave.Store.Init.{init-init_test}
use ledger_arweave.Store.Total.{Works, init-Works}
use ledger_arweave.Store.Slots.{IsStore, Kept, init-IsStore, init-Kept, init-erases}
use ledger_arweave.Store.Signature.{Fetched, store_signature-Fetched}

-- A device with the seed of fours.
abbrev pub sdk : Sdk
sdk = record {
  derive_seed = some (replicate 64 4);
  sha256 = λ b. some (take 32 (b ++ b));
  next_prime = λ b. some b;
  generate_pair = λ pq. some (pq, 1 ∷ pq);
  key_size = 512;
}

-- The same device, while the SDK reports an error.
abbrev broken : Sdk
broken = record sdk { derive_seed = none }

abbrev pub blank : Slot
blank = record {
  master_seed = [];
  pq = [];
  rsa_size = 0;
  rsa_pub = [];
  rsa_priv = [];
  initialized = false;
}

-- A slot of another seed.
abbrev pub foreign : Slot
foreign = record {
  master_seed = replicate 32 9;
  pq = 1 ∷ [];
  rsa_size = 512;
  rsa_pub = 2 ∷ [];
  rsa_priv = 3 ∷ [];
  initialized = true;
}

abbrev pub fresh : Store
fresh = record {
  first = blank;
  second = blank;
  first_sig = [];
  second_sig = [];
  slot_in_use = 0;
  device_initialized = false;
  signature_set = 0;
}

abbrev one_taken : Store
one_taken = record fresh { first = foreign }

abbrev pub both_taken : Store
both_taken = record fresh { first = foreign; second = foreign }

-- The second slot keyed for the seed of fours.
keyed_store : Store
unfolding init slot_is_initialized initialize_slot derive_master_seed init_primes init_keys
    primes_of derive_prime prime_blocks same_masterseed uninitialized_slot
keyed_store = final (init sdk one_taken)

init-keyed : init sdk one_taken ≡ ok keyed_store
unfolding keyed_store init slot_is_initialized initialize_slot derive_master_seed init_primes
    init_keys primes_of derive_prime prime_blocks same_masterseed uninitialized_slot
init-keyed = refl

init-init_test_example : init_test sdk keyed_store ≡ (true, keyed_store)
init-init_test_example = init-init_test sdk one_taken keyed_store init-keyed

-- The second slot holds this device's seed.
abbrev second_own : Store
second_own = record both_taken { second = record foreign { master_seed = replicate 32 4 } }

test_second : init_test sdk second_own ≡ (true, record second_own { slot_in_use = 1 })
unfolding init_test slot_is_initialized same_masterseed
test_second = refl

fresh-IsStore : IsStore sdk fresh
unfolding HasKeys
fresh-IsStore = record { first_keys = λ h. absurd (cc); second_keys = λ h. absurd (cc) }

init-IsStore_example : IsStore sdk (final (init sdk fresh))
init-IsStore_example = init-IsStore sdk fresh fresh-IsStore

init-Kept_example :
    Kept foreign (final (init sdk one_taken)).first × Kept blank (final (init sdk one_taken)).second
init-Kept_example = init-Kept sdk one_taken (λ _ h. absurd (cc))

init-erases_example :
    init broken both_taken
    ≡ fail zxerr_unknown
        (record both_taken { first = wiped foreign; second = wiped foreign; slot_in_use = 0 })
init-erases_example = init-erases broken both_taken refl refl refl

store_signature-Fetched_example :
    Fetched (replicate 512 5) (store_signature (replicate 512 5) fresh)
store_signature-Fetched_example = store_signature-Fetched (replicate 512 5) fresh refl

unfoldable pub padded : Sdk
padded = record sdk { sha256 = λ b. some (take 32 (b ++ replicate 32 0)) }

pub padded-Works : Works padded
unfolding padded
padded-Works = record {
  derives = (replicate 64 4, refl);
  hashes = λ b. (
    take 32 (b ++ replicate 32 0),
    refl,
    omega (arith, length-take 32 (b ++ replicate 32 0), length-append b (replicate 32 0)),
  );
  primes = λ b. (b, refl);
  pairs = λ b. ((b, 1 ∷ b), refl);
}

init-Works_example : (s' : Store) × (init padded both_taken ≡ ok s')
init-Works_example = init-Works padded padded-Works both_taken
