-- ===== src/Store.antt =====
-- app/src/crypto_store.c: the two slots with the keys of a seed, the slot in use, and the signature
-- that waits to be fetched.
--
-- `N_crypto_store` has two entries, `first` and `second`; `slot_in_use` only ever holds 0 or 1. A
-- public key is its modulus `n` and the field `size`, the two that the app reads; a private key is
-- the bytes of its struct. The build with APP_TESTING, which skips the derivation, and the calls that
-- only draw on the screen are left out. `Flash` has the writes to the flash one by one, for a loss of
-- power between two of them.
pub mod Keys
pub mod Signature
pub mod Cases
pub mod Init
pub mod Slots
pub mod Total
pub mod Flash
pub mod Tests
use Prim.Native.Nat.{bit_or}
use ledger_arweave.Base.{
  ℕ, zero, suc, ◌+◌, ◌*◌, Bool, true, false, not, ◌&&◌, List, [], ◌∷◌, ◌++◌, Option, none, some,
  Bytes, ltb, ◌==◌, if◌then◌else◌, and_then, length, take, drop, replicate, slice,
}
use ledger_arweave.Result.{
  Result, ok, fail, ◌>>=◌, final, ZxError, zxerr_unknown, zxerr_out_of_bounds,
  zxerr_invalid_crypto_settings,
}

abbrev pub rsa_modulus_len : ℕ
rsa_modulus_len = 512

abbrev pub rsa_modulus_halve : ℕ
rsa_modulus_halve = 256

abbrev pub masterseed_len : ℕ
masterseed_len = 32

-- What the SDK computes, `none` where it reports an error: the seed of the path for this device's
-- mnemonic, the hash, the next prime after a number, and the key pair of two primes, with the number
-- `key_size` in the field `size` of the public key.
pub record Sdk : Type 0 where
  pub derive_seed : Option Bytes
  pub sha256 : Bytes → Option Bytes
  pub next_prime : Bytes → Option Bytes
  pub generate_pair : Bytes → Option (Bytes × Bytes)
  pub key_size : ℕ

pub record Slot : Type 0 where
  pub master_seed : Bytes
  pub pq : Bytes
  pub rsa_size : ℕ
  pub rsa_pub : Bytes
  pub rsa_priv : Bytes
  pub initialized : Bool

pub record Store : Type 0 where
  pub first : Slot
  pub second : Slot
  pub first_sig : Bytes
  pub second_sig : Bytes
  pub slot_in_use : ℕ
  pub device_initialized : Bool
  pub signature_set : ℕ

-- The variables in the RAM, with the values that they start with.
abbrev pub power_on : Store → Store
power_on s = record s { slot_in_use = 0; device_initialized = false; signature_set = 0 }

abbrev pub slot_at : ℕ → Store → Slot
slot_at zero s = s.first
slot_at (suc n) s = s.second

abbrev pub put_slot : ℕ → Slot → Store → Store
put_slot zero k s = record s { first = k }
put_slot (suc n) k s = record s { second = k }

abbrev pub sig_at : ℕ → Store → Bytes
sig_at zero s = s.first_sig
sig_at (suc n) s = s.second_sig

abbrev pub put_sig : ℕ → Bytes → Store → Store
put_sig zero b s = record s { first_sig = b }
put_sig (suc n) b s = record s { second_sig = b }

abbrev pub in_use : Store → Slot
in_use s = slot_at s.slot_in_use s

unfoldable pub store_signature : Bytes → Store → Store
store_signature sig s = record (put_sig s.slot_in_use (take rsa_modulus_len sig) s) {
  signature_set = 1;
}

unfoldable pub is_sig_set : Store → Bool
is_sig_set s = s.signature_set == 1

-- The half of the signature is the first component of the result.
unfoldable pub signature_part : ℕ → Store → Result (Bytes × Store) Store
signature_part index s =
    if not (s.signature_set == 1)
    then fail zxerr_invalid_crypto_settings s
    else if ltb 1 index
    then fail zxerr_out_of_bounds s
    else let half = slice (sig_at s.slot_in_use s) (index * rsa_modulus_halve) rsa_modulus_halve in
      if index == 1
      then ok (
        half,
        record (put_sig s.slot_in_use (replicate rsa_modulus_len 0) s) { signature_set = 0 },
      )
      else ok (half, s)

unfoldable pub slot_is_initialized : ℕ → Store → Bool
slot_is_initialized slot s = (slot_at slot s).initialized

unfoldable pub is_initialized : Store → Bool
is_initialized s = (in_use s).initialized

-- `none` is the NULL pointer.
unfoldable pub get_pubkey : Store → Option Bytes
get_pubkey s = if (in_use s).initialized then some (in_use s).rsa_pub else none

unfoldable pub get_privkey : Store → Option Bytes
get_privkey s = if (in_use s).initialized then some (in_use s).rsa_priv else none

unfoldable pub pubkey_part : ℕ → Store → Result Bytes Store
unfolding is_initialized get_pubkey
pubkey_part index s =
    if not (is_initialized s)
    then fail zxerr_invalid_crypto_settings s
    else if ltb 1 index
    then fail zxerr_out_of_bounds s
    else part (get_pubkey s)
  where
    part : Option Bytes → Result Bytes Store
    part none = fail zxerr_invalid_crypto_settings s
    part (some n) = ok (slice n (index * rsa_modulus_halve) rsa_modulus_halve)

-- `MEMCMP`
abbrev pub same_bytes : Bytes → Bytes → Bool
same_bytes [] [] = true
same_bytes (x ∷ xs) (y ∷ ys) = if x == y then same_bytes xs ys else false
same_bytes [] (y ∷ ys) = false
same_bytes (x ∷ xs) [] = false

module _ (sdk : Sdk) where
  -- The call of the SDK fills 64 bytes; the first 32 are kept.
  abbrev pub seed_of : Bytes → Bytes
  seed_of derived = take masterseed_len derived

  unfoldable pub derive_master_seed : Store → Result Store Store
  derive_master_seed s = keep sdk.derive_seed
    where
      keep : Option Bytes → Result Store Store
      keep none = fail zxerr_unknown s
      keep (some derived) =
          ok (put_slot s.slot_in_use (record (in_use s) { master_seed = seed_of derived }) s)

  unfoldable pub same_masterseed : ℕ → Store → Bool
  same_masterseed slot s = if ltb 1 slot then false else compare sdk.derive_seed
    where
      compare : Option Bytes → Bool
      compare none = false
      compare (some derived) = same_bytes (slot_at slot s).master_seed (seed_of derived)

  -- The hashes of 0, the index of the prime, the seed and the number of the block, from block
  -- `block` on, with `left` blocks to go.
  unfoldable pub prime_blocks : Bytes → ℕ → ℕ → ℕ → Option Bytes
  prime_blocks seed index zero block = some []
  prime_blocks seed index (suc left) block =
      and_then (sdk.sha256 (0 ∷ index ∷ seed ++ block ∷ []))
        λ h. and_then (prime_blocks seed index left (block + 1)) λ hs. some (h ++ hs)

  -- `crypto_derivePrime`. A prime has 256 bytes, so there are 8 hashes of 32, fewer than the 255
  -- that it allows, and no remainder.
  unfoldable pub derive_prime : Bytes → ℕ → Option Bytes
  unfolding prime_blocks
  derive_prime seed index = prime_blocks seed index 8 0

  -- `*p |= 0x80`
  abbrev set_top_bit : Bytes → Bytes
  set_top_bit [] = []
  set_top_bit (b ∷ bs) = bit_or b 0x80 ∷ bs

  -- The two primes of `crypto_init_primes`; a failed call of any kind throws.
  unfoldable pub primes_of : Bytes → Option Bytes
  unfolding derive_prime
  primes_of seed = and_then (derive_prime seed 0) λ p_seed. and_then (derive_prime seed 1) λ q_seed.
      and_then (sdk.next_prime (set_top_bit p_seed))
        λ p. and_then (sdk.next_prime (set_top_bit q_seed)) λ q. some (p ++ q)

  unfoldable pub init_primes : Store → Result Store Store
  unfolding primes_of
  init_primes s = keep (primes_of (in_use s).master_seed)
    where
      keep : Option Bytes → Result Store Store
      keep none = fail zxerr_unknown s
      keep (some pq) = ok (put_slot s.slot_in_use (record (in_use s) { pq = pq }) s)

  unfoldable pub init_keys : Store → Result Store Store
  init_keys s = keep (sdk.generate_pair (in_use s).pq)
    where
      keep : Option (Bytes × Bytes) → Result Store Store
      keep none = fail zxerr_unknown s
      keep (some (n, d)) = ok (
          put_slot s.slot_in_use
            (record (in_use s) {
              initialized = true;
              rsa_size = sdk.key_size;
              rsa_pub = n;
              rsa_priv = d;
            })
            s)

  unfoldable pub initialize_slot : Store → Result Store Store
  unfolding derive_master_seed init_primes init_keys
  initialize_slot s = do
    s ← derive_master_seed s
    s ← init_primes s
    s ← init_keys s
    ok (record s { device_initialized = true })

-- The public key is left as it is.
unfoldable pub uninitialized_slot : ℕ → Store → Result Store Store
uninitialized_slot slot s =
    if ltb 1 slot
    then fail zxerr_out_of_bounds s
    else let k = slot_at slot s in
      ok (
        put_slot slot
          (record k {
            pq = replicate 512 0;
            rsa_priv = replicate (length k.rsa_priv) 0;
            master_seed = replicate masterseed_len 0;
            initialized = false;
          })
          s)

module _ (sdk : Sdk) where
  -- `crypto_store_init`
  unfoldable pub init : Store → Result Store Store
  unfolding uninitialized_slot
  init s =
      if not (slot_is_initialized 0 s)
      then initialize_slot sdk (record s { slot_in_use = 0 })
      else if same_masterseed sdk 0 s
      then ok (record s { slot_in_use = 0 })
      else if not (slot_is_initialized 1 s)
      then initialize_slot sdk (record s { slot_in_use = 1 })
      else if same_masterseed sdk 1 s
      then ok (record s { slot_in_use = 1 })
      else do
        s ← uninitialized_slot 0 s
        s ← uninitialized_slot 1 s
        initialize_slot sdk (record s { slot_in_use = 0 })

  -- `crypto_store_init_test`
  unfoldable pub init_test : Store → Bool × Store
  init_test s =
      if not (slot_is_initialized 0 s)
      then (false, s)
      else if same_masterseed sdk 0 s
      then (true, record s { slot_in_use = 0 })
      else if not (slot_is_initialized 1 s)
      then (false, s)
      else if same_masterseed sdk 1 s
      then (true, record s { slot_in_use = 1 })
      else (false, s)
