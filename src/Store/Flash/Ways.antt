-- ===== src/Store/Flash/Ways.antt =====
-- The ways through `crypto_store_init` and its calls, with the writes and the result of each.
use ledger_arweave.Base.{
  ℕ, zero, suc, ◌≡◌, true, false, List, [], ◌∷◌, ◌++◌, none, some, Bytes, replicate, length,
  on_tests, on_nots, Option-cases, inl, inr,
}
use ledger_arweave.Result.{Result, ok, fail, zxerr_unknown}
use ledger_arweave.Store.{
  Sdk, Slot, Store, slot_at, put_slot, seed_of, masterseed_len, primes_of, slot_is_initialized,
  same_masterseed, derive_master_seed, init_primes, init_keys, initialize_slot, uninitialized_slot,
  init,
}
use ledger_arweave.Store.Keys.{keyed}
use ledger_arweave.Store.Cases.{wiped_both}
use ledger_arweave.Store.Flash.{
  Written, Writes, write_seed, write_pq, write_pub, write_priv, write_initialized, and_writes,
  perform, uninitialized_writes, seed_writes, primes_writes, keys_writes, initialize_writes,
  init_writes,
}

abbrev pub all_writes : ℕ → ℕ → Bytes → Bytes → Bytes × Bytes → List Written
all_writes i size seed pq pair =
    (i, write_seed seed)
    ∷ (i, write_pq pq)
    ∷ (i, write_initialized true)
    ∷ (i, write_pub size pair.0)
    ∷ (i, write_priv pair.1)
    ∷ []

abbrev pub wipe_writes : ℕ → Slot → List Written
wipe_writes i k =
    (i, write_pq (replicate 512 0))
    ∷ (i, write_priv (replicate (length k.rsa_priv) 0))
    ∷ (i, write_seed (replicate masterseed_len 0))
    ∷ (i, write_initialized false)
    ∷ []

pub initialize-ways :
    (sdk : Sdk) (k : ℕ) (s : Store) (R : Writes → Result Store Store → Type 0)
    → (sdk.derive_seed ≡ none → R ([], false) (fail zxerr_unknown (record s { slot_in_use = k })))
    → ((derived : Bytes)
        → sdk.derive_seed ≡ some derived
        → R
            ((k, write_seed (seed_of sdk derived)) ∷ [], false)
            (fail zxerr_unknown (
              put_slot k
                (record (slot_at k s) { master_seed = seed_of sdk derived })
                (record s { slot_in_use = k }))))
    → ((derived pq : Bytes)
        → sdk.derive_seed ≡ some derived
        → R
            ((k, write_seed (seed_of sdk derived)) ∷ (k, write_pq pq) ∷ [], false)
            (fail zxerr_unknown (
              put_slot k
                (record (slot_at k s) { master_seed = seed_of sdk derived; pq = pq })
                (record s { slot_in_use = k }))))
    → ((derived pq : Bytes) (pair : Bytes × Bytes)
        → sdk.derive_seed ≡ some derived
        → primes_of sdk (seed_of sdk derived) ≡ some pq
        → sdk.generate_pair pq ≡ some pair
        → R
            (all_writes k sdk.key_size (seed_of sdk derived) pq pair, true)
            (ok (
              put_slot k
                (keyed sdk.key_size (seed_of sdk derived) pq pair)
                (record s { slot_in_use = k; device_initialized = true }))))
    → R (initialize_writes sdk k s) (initialize_slot sdk (record s { slot_in_use = k }))
unfolding initialize_writes seed_writes primes_writes keys_writes and_writes perform initialize_slot
    derive_master_seed init_primes init_keys
initialize-ways sdk zero s R unseeded seeded primed whole = elim (Option-cases sdk.derive_seed) [
  | inl e ↦ rw e (unseeded e)
  | inr d ↦ rw d.1 (elim (Option-cases (primes_of sdk (seed_of sdk d.0))) [
    | inl e ↦ rw e (seeded d.0 d.1)
    | inr q ↦ rw q.1 (elim (Option-cases (sdk.generate_pair q.0)) [
      | inl e ↦ rw e (primed d.0 q.0 d.1)
      | inr r ↦ rw r.1 (whole d.0 q.0 r.0 d.1 q.1 r.1)
    ])
  ])
]
initialize-ways sdk (suc n) s R unseeded seeded primed whole = elim (Option-cases sdk.derive_seed) [
  | inl e ↦ rw e (unseeded e)
  | inr d ↦ rw d.1 (elim (Option-cases (primes_of sdk (seed_of sdk d.0))) [
    | inl e ↦ rw e (seeded d.0 d.1)
    | inr q ↦ rw q.1 (elim (Option-cases (sdk.generate_pair q.0)) [
      | inl e ↦ rw e (primed d.0 q.0 d.1)
      | inr r ↦ rw r.1 (whole d.0 q.0 r.0 d.1 q.1 r.1)
    ])
  ])
]

pub init-ways :
    (sdk : Sdk) (s : Store) (R : Writes → Result Store Store → Type 0)
    → (s.first.initialized ≡ false
        → R (initialize_writes sdk 0 s) (initialize_slot sdk (record s { slot_in_use = 0 })))
    → (s.first.initialized ≡ true
        → same_masterseed sdk 0 s ≡ true
        → R ([], true) (ok (record s { slot_in_use = 0 })))
    → (s.first.initialized ≡ true
        → same_masterseed sdk 0 s ≡ false
        → s.second.initialized ≡ false
        → R (initialize_writes sdk 1 s) (initialize_slot sdk (record s { slot_in_use = 1 })))
    → (s.first.initialized ≡ true
        → same_masterseed sdk 0 s ≡ false
        → s.second.initialized ≡ true
        → same_masterseed sdk 1 s ≡ true
        → R ([], true) (ok (record s { slot_in_use = 1 })))
    → (s.first.initialized ≡ true
        → same_masterseed sdk 0 s ≡ false
        → s.second.initialized ≡ true
        → same_masterseed sdk 1 s ≡ false
        → R
            (
              wipe_writes 0 s.first
                  ++ wipe_writes 1 s.second
                  ++ (initialize_writes sdk 0 (wiped_both s)).0,
              (initialize_writes sdk 0 (wiped_both s)).1,
            )
            (initialize_slot sdk (record (wiped_both s) { slot_in_use = 0 })))
    → R (init_writes sdk s) (init sdk s)
unfolding init init_writes slot_is_initialized uninitialized_slot uninitialized_writes and_writes
    perform
init-ways sdk s R new_first own_first new_second own_second neither =
    on_nots R _ _ _ _ s.first.initialized new_first λ a.
      on_tests R _ _ _ _ (same_masterseed sdk 0 s) (own_first a) λ b.
        on_nots R _ _ _ _ s.second.initialized (new_second a b)
          λ c. on_tests R _ _ _ _ (same_masterseed sdk 1 s) (own_second a b c) (neither a b c)
