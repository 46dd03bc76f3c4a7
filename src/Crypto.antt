-- ===== src/Crypto.antt =====
-- app/src/crypto.c: what the handlers of the APDUs ask of the key store. The build with APP_TESTING,
-- which does not sign, is left out.
pub mod Sign
pub mod FillAddress
pub mod Tests
use ledger_arweave.Base.{
  ℕ, ◌-◌, ◌==◌, Bool, not, ◌||◌, ◌++◌, Option, none, some, Bytes, ltb, if◌then◌else◌, take, drop,
  replicate,
}
use ledger_arweave.Base64
use ledger_arweave.Status
use ledger_arweave.Status.{Step}
use ledger_arweave.Result.{
  Result, ok, fail, zxerr_unknown, zxerr_invalid_crypto_settings, zxerr_buffer_too_small,
}
use ledger_arweave.Parser.{Tx}
use ledger_arweave.DeepHash.{Hash, get_digest}
use ledger_arweave.Store.{
  Sdk, Store, in_use, is_initialized, is_sig_set, pubkey_part, signature_part, store_signature,
  get_pubkey, get_privkey, get_pubkey,
}

abbrev pub min_buffer_len : ℕ
min_buffer_len = 256

unfoldable pub get_pubkey_part : ℕ → ℕ → Store → Result Bytes Store
get_pubkey_part buffer_len index s =
    if not (is_initialized s) || ltb buffer_len min_buffer_len
    then fail zxerr_invalid_crypto_settings s
    else pubkey_part index s

unfoldable pub get_signature_part : ℕ → ℕ → Store → Result (Bytes × Store) Store
get_signature_part buffer_len index s =
    if not (is_sig_set s) || ltb buffer_len min_buffer_len
    then fail zxerr_invalid_crypto_settings s
    else signature_part index s

-- The caller's buffer with its size in use, and the store.
pub record Signing : Type 0 where
  pub buffer : Bytes
  pub sig_size : ℕ
  pub store : Store

-- The hash that is signed. The result of `cx_hash_sha256` is not looked at: after an error it is the
-- zeros that the buffer was set to.
unfoldable pub digest_small : Sdk → Bytes → Bytes
digest_small sdk digest = read_out (sdk.sha256 digest)
  where
    read_out : Option Bytes → Bytes
    read_out none = replicate 32 0
    read_out (some h) = h

-- `rsa_sign` is the SDK's signature of a hash under a private key, `none` where it reports an error.
-- `cx_rsa_sign` pads with PSS, which draws a salt: `rsa_sign` stands for the calls with one salt, so
-- that two signatures of one hash differ is not described.
module _ (sdk : Sdk) (sha384 : Hash) (rsa_sign : Bytes → Bytes → Option Bytes) where
  -- From the call of `crypto_store_get_privkey` on.
  unfoldable pub sign_digest : Bytes → Signing → Result Signing Signing
  sign_digest digest s = with_key (get_privkey s.store)
    where
      finish : Option Bytes → Result Signing Signing
      finish none = fail zxerr_unknown s
      finish (some sig) = ok (record {
        buffer = digest ++ drop 48 s.buffer;
        sig_size = 48;
        store = store_signature sig s.store;
      })

      with_key : Option Bytes → Result Signing Signing
      with_key none = fail zxerr_invalid_crypto_settings s
      with_key (some key) = finish (rsa_sign key (digest_small sdk digest))

  unfoldable pub sign : Bytes → Tx → ℕ → Signing → Result Signing Signing
  unfolding sign_digest
  sign memory v signature_maxlen s =
      if not (is_initialized s.store)
      then fail zxerr_invalid_crypto_settings s
      else if ltb signature_maxlen 48
      then fail zxerr_buffer_too_small s
      else with_digest (get_digest sha384 memory v (replicate 48 0) 48)
    where
      with_digest : Step Bytes → Result Signing Signing
      with_digest (Status.fail e digest) = fail zxerr_unknown s
      with_digest (Status.ok digest) = sign_digest digest s

-- The answer of `crypto_fillAddress`: the caller's buffer and the length of the address.
pub record Address : Type 0 where
  pub buffer : Bytes
  pub addr_len : ℕ

-- `crypto_fillAddress`. An `answer_t` has 43 characters and 4 bytes of padding. The hash is of as
-- many bytes of the modulus as the key in the flash says. The store is only read.
unfoldable pub fill_address : Sdk → Store → ℕ → Address → Result Address Address
fill_address sdk s buffer_len a =
    if not (is_initialized s)
    then fail zxerr_invalid_crypto_settings zeroed
    else if ltb buffer_len 47
    then fail zxerr_buffer_too_small zeroed
    else with_key (get_pubkey s)
  where
    zeroed : Address
    zeroed = record a { buffer = replicate buffer_len 0 }

    answer : ℕ × Option Bytes → Result Address Address
    answer (n, none) = fail zxerr_unknown zeroed
    answer (n, some text) =
        if n == 0
        then fail zxerr_unknown zeroed
        else ok (record { buffer = text ++ replicate (buffer_len - 43) 0; addr_len = 43 })

    with_hash : Option Bytes → Result Address Address
    with_hash none = fail zxerr_unknown zeroed
    with_hash (some h) = answer (Base64.encode (some (replicate 43 0)) 43 (some h))

    with_key : Option Bytes → Result Address Address
    with_key none = fail zxerr_invalid_crypto_settings zeroed
    with_key (some n) = with_hash (sdk.sha256 (take (in_use s).rsa_size n))
