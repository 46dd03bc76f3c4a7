-- ===== src/Crypto/FillAddress.antt =====
-- `crypto_fillAddress`: the address, the hash of the modulus as a text.
use ledger_arweave.Base.{
  ℕ, ◌+◌, ◌-◌, ◌≤◌, ◌≡◌, refl, ap, ◌∙◌, true, Bytes, IsByte, All, arith, ltb-false, take, length,
  some, ◌++◌, append-nil, replicate,
}
use ledger_arweave.Base64
use ledger_arweave.Base64.{min_space}
use ledger_arweave.Base64.Encode.{text_of, length-text_of, encode-text_of}
use ledger_arweave.Result.{ok}
use ledger_arweave.Store.{Sdk, Store, in_use, is_initialized}
use ledger_arweave.Crypto.{Address, fill_address}
use ledger_arweave.Crypto.Sign.{get_pubkey-in_use}

-- With keys for this device, a buffer of at least 47 bytes and no error of the SDK,
-- `crypto_fillAddress` writes the 43 characters of the base64url text of the hash of the modulus,
-- up to the size that the key says, with zeros behind it. The hash has 32 bytes.
pub fill_address-text_of :
    (sdk : Sdk) (s : Store) (buffer_len : ℕ) (a : Address) (h : Bytes)
    → is_initialized s ≡ true
    → 47 ≤ buffer_len
    → sdk.sha256 (take (in_use s).rsa_size (in_use s).rsa_pub) ≡ some h
    → All IsByte h
    → length h ≡ 32
    → fill_address sdk s buffer_len a
      ≡ ok (record { buffer = text_of h ++ replicate (buffer_len - 43) 0; addr_len = 43 })
unfolding fill_address
fill_address-text_of sdk s buffer_len a h set_up room hashes bytes long =
    rw (set_up, ltb-false buffer_len 47 room, get_pubkey-in_use s set_up, hashes, encoded) refl
  where
    chars : length (text_of h) ≡ 43
    chars = length-text_of h ∙ ap (λ (n : ℕ). n + min_space n) long

    encoded : Base64.encode (some (replicate 43 0)) 43 (some h) ≡ (43, some (text_of h))
    encoded =
        encode-text_of (replicate 43 0) 43 h bytes (omega arith) (omega (arith, chars))
        ∙ ap (λ (n : ℕ). (n, some (text_of h ++ replicate (43 - n) 0))) chars
        ∙ ap (λ (b : Bytes). (43, some b)) (append-nil (text_of h))
