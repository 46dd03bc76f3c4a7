-- ===== src/Store/Flash/Torn.antt =====
-- What a start finds when the power was lost while a slot was half written.
use ledger_arweave.Base.{
  ℕ, ◌≡◌, refl, sym, ap, arith, subst, true, false, some, Bytes, on_not, on_test, take, replicate,
  length,
}
use ledger_arweave.Store.{
  Sdk, Store, seed_of, primes_of, power_on, init_test, get_pubkey, get_privkey, slot_is_initialized,
  same_masterseed,
}
use ledger_arweave.Store.Init.{true_not_false, init_test-at}
use ledger_arweave.Store.Flash.{
  Writes, init_writes, initialize_writes, seed_writes, primes_writes, keys_writes, and_writes,
  perform, cut,
}
use ledger_arweave.Store.Flash.Ways.{all_writes, init-ways}

module _ (sdk : Sdk) (s : Store) (derived pq : Bytes) (pair : Bytes × Bytes) where
  initialize_writes-all :
      sdk.derive_seed ≡ some derived
      → primes_of sdk (seed_of sdk derived) ≡ some pq
      → sdk.generate_pair pq ≡ some pair
      → initialize_writes sdk 0 s ≡ (all_writes 0 sdk.key_size (seed_of sdk derived) pq pair, true)
  unfolding initialize_writes seed_writes primes_writes keys_writes and_writes perform primes_of
  initialize_writes-all d p q = rw d (rw p (rw q refl))

  init_writes-all :
      s.first.initialized ≡ false
      → sdk.derive_seed ≡ some derived
      → primes_of sdk (seed_of sdk derived) ≡ some pq
      → sdk.generate_pair pq ≡ some pair
      → init_writes sdk s ≡ (all_writes 0 sdk.key_size (seed_of sdk derived) pq pair, true)
  unfolding init_writes slot_is_initialized
  init_writes-all e d p q =
      on_not (λ w. w ≡ (all_writes 0 sdk.key_size (seed_of sdk derived) pq pair, true)) _ _
        s.first.initialized (λ _. initialize_writes-all d p q) λ a. absurd (true_not_false a e)

  -- A loss of power after `n` of the writes.
  cut-all :
      (n : ℕ)
      → s.first.initialized ≡ false
      → sdk.derive_seed ≡ some derived
      → primes_of sdk (seed_of sdk derived) ≡ some pq
      → sdk.generate_pair pq ≡ some pair
      → cut sdk n s ≡ perform (take n (all_writes 0 sdk.key_size (seed_of sdk derived) pq pair)) s
  unfolding cut
  cut-all n e d p q = ap (λ (w : Writes). perform (take n w.0) s) (init_writes-all e d p q)

-- The test of the store is content with the first slot.
unfoldable pub Accepts : Sdk → Store → Type 0
Accepts sdk s = init_test sdk (power_on s) ≡ (true, power_on s)

-- The first slot is marked and has the seed of this device.
marked-Accepts :
    (sdk : Sdk) (s : Store) (derived : Bytes)
    → sdk.derive_seed ≡ some derived
    → s.first.initialized ≡ true
    → s.first.master_seed ≡ seed_of sdk derived
    → Accepts sdk s
unfolding Accepts
marked-Accepts sdk s derived d e h =
    init_test-at sdk (power_on s) 0 (omega arith)
      (record { set_up = e; derived = derived; derives = d; same_seed = h })
      λ le. absurd (omega arith)

-- The keys that the app hands out.
unfoldable pub HandsOut : Bytes → Bytes → Store → Type 0
HandsOut n d s = (get_pubkey (power_on s) ≡ some n) × (get_privkey (power_on s) ≡ some d)

marked-HandsOut :
    (n d : Bytes) (s : Store)
    → s.first.initialized ≡ true
    → s.first.rsa_pub ≡ n
    → s.first.rsa_priv ≡ d
    → HandsOut n d s
unfolding HandsOut get_pubkey get_privkey
marked-HandsOut n d s e a b = (
  on_test (λ o. o ≡ some n) _ _ s.first.initialized (λ _. ap some a)
      λ f. absurd (true_not_false e f),
  on_test (λ o. o ≡ some d) _ _ s.first.initialized (λ _. ap some b)
      λ f. absurd (true_not_false e f),
)

-- `crypto_init_keys` sets `initialized` before it writes the keys. When the power is lost right
-- after that, on a device whose first slot was free, the next start finds the slot in order and hands
-- out the public and the private key that the flash held before; after one more write, it hands out
-- the new public key with the old private key. The SDK reports no error.
pub cut-HandsOut :
    (sdk : Sdk) (s : Store) (derived pq : Bytes) (pair : Bytes × Bytes)
    → s.first.initialized ≡ false
    → sdk.derive_seed ≡ some derived
    → primes_of sdk (seed_of sdk derived) ≡ some pq
    → sdk.generate_pair pq ≡ some pair
    → Accepts sdk (cut sdk 3 s)
      × HandsOut s.first.rsa_pub s.first.rsa_priv (cut sdk 3 s)
      × Accepts sdk (cut sdk 4 s)
      × HandsOut pair.0 s.first.rsa_priv (cut sdk 4 s)
unfolding perform
cut-HandsOut sdk s derived pq pair e d p q =
    let a3 = cut-all sdk s derived pq pair 3 e d p q in
    let a4 = cut-all sdk s derived pq pair 4 e d p q in
    (
      subst (Accepts sdk) (sym a3) (marked-Accepts sdk _ derived d refl refl),
      subst (HandsOut s.first.rsa_pub s.first.rsa_priv) (sym a3)
          (marked-HandsOut _ _ _ refl refl refl),
      subst (Accepts sdk) (sym a4) (marked-Accepts sdk _ derived d refl refl),
      subst (HandsOut pair.0 s.first.rsa_priv) (sym a4) (marked-HandsOut _ _ _ refl refl refl),
    )

-- `crypto_uninitialized_slot` clears `initialized` last. When the power is lost after it has erased
-- the private key of the first slot, and a device with the seed of that slot is started, it finds
-- the slot in order and hands out its public key with a private key of zeros. Both slots were in use
-- by seeds other than this device's.
pub cut_wipe-HandsOut :
    (sdk other : Sdk) (s : Store) (derived : Bytes)
    → s.first.initialized ≡ true
    → same_masterseed sdk 0 s ≡ false
    → s.second.initialized ≡ true
    → same_masterseed sdk 1 s ≡ false
    → other.derive_seed ≡ some derived
    → s.first.master_seed ≡ seed_of other derived
    → Accepts other (cut sdk 2 s)
      × HandsOut s.first.rsa_pub (replicate (length s.first.rsa_priv) 0) (cut sdk 2 s)
unfolding cut perform
cut_wipe-HandsOut sdk other s derived a b c d seeded same =
    init-ways sdk s (λ w _. Goal w) (λ e. absurd (true_not_false a e))
      (λ _ e. absurd (true_not_false e b)) (λ _ _ e. absurd (true_not_false c e))
      (λ _ _ _ e. absurd (true_not_false e d))
      λ _ _ _ _. (
        marked-Accepts other _ derived seeded a same,
        marked-HandsOut s.first.rsa_pub (replicate (length s.first.rsa_priv) 0) _ a refl refl,
      )
  where
    Goal : Writes → Type 0
    Goal w =
        Accepts other (perform (take 2 w.0) s)
        × HandsOut s.first.rsa_pub (replicate (length s.first.rsa_priv) 0) (perform (take 2 w.0) s)
