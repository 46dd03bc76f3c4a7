-- ===== src/Crypto/Sign.antt =====
-- `crypto_sign`: what is signed, under which key, and what a failure leaves.
use ledger_arweave.Base.{
  ℕ, ◌≤◌, ◌≡◌, refl, sym, ap, ◌∙◌, true, ◌++◌, Option, none, some, Bytes, arith, ltb, ltb-false,
  on_test, on_not, drop, length, replicate, Option-cases, inl, inr, ◌⊎◌,
}
use ledger_arweave.Status
use ledger_arweave.Status.{Step-cases}
use ledger_arweave.Result.{
  Result, ZxError, ok, fail, zxerr_unknown, zxerr_invalid_crypto_settings, zxerr_buffer_too_small,
}
use ledger_arweave.Parser.{Tx}
use ledger_arweave.Parser.Layout.{view}
use ledger_arweave.Parser.RoundTrip.{IsInBounds}
use ledger_arweave.DeepHash.{Hash, get_digest}
use ledger_arweave.DeepHash.Tree.{deep_hash, transaction_tree}
use ledger_arweave.DeepHash.Digest.{get_digest-deep_hash, reported-some}
use ledger_arweave.Store.{
  Sdk, Store, in_use, is_initialized, get_pubkey, get_privkey, store_signature,
}
use ledger_arweave.Crypto.{Signing, sign, sign_digest, digest_small}

pub get_pubkey-in_use :
    (s : Store) → is_initialized s ≡ true → get_pubkey s ≡ some (in_use s).rsa_pub
unfolding is_initialized get_pubkey
get_pubkey-in_use s e =
    on_test (λ r. r ≡ some (in_use s).rsa_pub) _ _ (in_use s).initialized (λ _. refl)
      λ n. absurd (cc)

get_privkey-in_use :
    (s : Store) → is_initialized s ≡ true → get_privkey s ≡ some (in_use s).rsa_priv
unfolding is_initialized get_privkey
get_privkey-in_use s e =
    on_test (λ r. r ≡ some (in_use s).rsa_priv) _ _ (in_use s).initialized (λ _. refl)
      λ n. absurd (cc)

-- `small` is the SHA-256 hash of `digest` or, where the SDK reports an error, 32 zeros.
abbrev pub IsSmall : Sdk → Bytes → Bytes → Type 0
IsSmall sdk digest small =
    (sdk.sha256 digest ≡ some small) ⊎ ((sdk.sha256 digest ≡ none) × (small ≡ replicate 32 0))

digest_small-some :
    (sdk : Sdk) (digest h : Bytes) → sdk.sha256 digest ≡ some h → digest_small sdk digest ≡ h
unfolding digest_small
digest_small-some sdk digest h e = rw e refl

digest_small-none :
    (sdk : Sdk) (digest : Bytes)
    → sdk.sha256 digest ≡ none
    → digest_small sdk digest ≡ replicate 32 0
unfolding digest_small
digest_small-none sdk digest e = rw e refl

digest_small-IsSmall : (sdk : Sdk) (digest : Bytes) → IsSmall sdk digest (digest_small sdk digest)
digest_small-IsSmall sdk digest = elim (Option-cases (sdk.sha256 digest)) [
  | inl n ↦ inr (n, digest_small-none sdk digest n)
  | inr h ↦ inl (h.1 ∙ ap some (sym (digest_small-some sdk digest h.0 h.1)))
]

module _ (sdk : Sdk) (sha384 : Hash) (rsa_sign : Bytes → Bytes → Option Bytes) where
  -- With keys for this device, room for 48 bytes and no error of the SDK, `crypto_sign` signs the
  -- SHA-256 hash of the deep hash of the transaction with the private key of the slot in use, keeps the
  -- signature for the client to fetch, and answers the deep hash, which has 48 bytes.
  pub sign-signs :
      (memory : Bytes) (v : Tx) (maxlen : ℕ) (s : Signing) (digest h sig : Bytes)
      → IsInBounds (length memory) v
      → is_initialized s.store ≡ true
      → 48 ≤ maxlen
      → deep_hash sha384 (transaction_tree (view memory v)) ≡ some digest
      → length digest ≡ 48
      → sdk.sha256 digest ≡ some h
      → rsa_sign (in_use s.store).rsa_priv h ≡ some sig
      → sign sdk sha384 rsa_sign memory v maxlen s
        ≡ ok (record {
          buffer = digest ++ drop 48 s.buffer;
          sig_size = 48;
          store = store_signature sig s.store;
        })
  unfolding sign sign_digest
  sign-signs memory v maxlen s digest h sig bounds set_up room hashes long hashed signs =
      rw
        (
          set_up,
          ltb-false maxlen 48 room,
          get_digest-deep_hash sha384 memory v (replicate 48 0) 48 bounds (omega arith),
          hashes,
          reported-some digest long,
          get_privkey-in_use s.store set_up,
          digest_small-some sdk digest h hashed,
          signs,
        )
        refl

  -- The two ways in which `crypto_sign` ends.
  pub sign-cases :
      (memory : Bytes) (v : Tx) (maxlen : ℕ) (s : Signing) (R : Result Signing Signing → Type 0)
      → ((e : ZxError) → R (fail e s))
      → ((digest small sig : Bytes)
          → is_initialized s.store ≡ true
          → get_digest sha384 memory v (replicate 48 0) 48 ≡ Status.ok digest
          → IsSmall sdk digest small
          → rsa_sign (in_use s.store).rsa_priv small ≡ some sig
          → R (
              ok (record {
                buffer = digest ++ drop 48 s.buffer;
                sig_size = 48;
                store = store_signature sig s.store;
              })))
      → R (sign sdk sha384 rsa_sign memory v maxlen s)
  unfolding sign sign_digest
  sign-cases memory v maxlen s R failed signed =
      on_not R _ _ (is_initialized s.store) (λ _. failed zxerr_invalid_crypto_settings)
        λ set_up.
          on_test R _ _ (ltb maxlen 48) (λ _. failed zxerr_buffer_too_small)
            λ _. elim (Step-cases (get_digest sha384 memory v (replicate 48 0) 48)) [
              | inr f ↦ rw f.2 (failed zxerr_unknown)
              | inl d ↦
                  rw (d.1, get_privkey-in_use s.store set_up)
                    (elim (Option-cases
                      (rsa_sign (in_use s.store).rsa_priv (digest_small sdk d.0))) [
                        | inl n ↦ rw n (failed zxerr_unknown)
                        | inr sig ↦ rw sig.1 (
                            signed d.0 (digest_small sdk d.0) sig.0 set_up d.1
                              (digest_small-IsSmall sdk d.0) sig.1)
                      ])
            ]

  -- Whatever makes `crypto_sign` fail, the answer's buffer and the store are as before: no signature
  -- is stored, and one that waits is kept.
  pub sign-fail_unchanged :
      (memory : Bytes) (v : Tx) (maxlen : ℕ) (s : Signing)
      → ((s' : Signing) × (sign sdk sha384 rsa_sign memory v maxlen s ≡ ok s'))
        ⊎ ((e : ZxError) × (sign sdk sha384 rsa_sign memory v maxlen s ≡ fail e s))
  sign-fail_unchanged memory v maxlen s =
      sign-cases memory v maxlen s
        (λ r. ((s' : Signing) × (r ≡ ok s')) ⊎ ((e : ZxError) × (r ≡ fail e s)))
        (λ e. inr (e, refl)) λ digest _ sig _ _ _ _. inl (_, refl)
