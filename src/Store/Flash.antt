-- ===== src/Store/Flash.antt =====
-- app/src/crypto_store.c: the writes to the flash that `crypto_store_init` makes, one by one.
--
-- `MEMCPY_NV` and `SET_NV` write a field of a slot. A function is given by the writes that it makes,
-- in order, and whether it returns `zxerr_ok`. A loss of power leaves the first few of the writes
-- done; one write is not cut in two.
pub mod Ways
pub mod Agreement
pub mod Between
pub mod Kept
pub mod Recovery
pub mod Torn
pub mod Tests
use ledger_arweave.Base.{
  ℕ, zero, suc, Bool, true, false, not, List, [], ◌∷◌, ◌++◌, Option, none, some, Bytes, ltb,
  if◌then◌else◌, replicate, length, take,
}
use ledger_arweave.Store.{
  Sdk, Slot, Store, slot_at, put_slot, seed_of, masterseed_len, primes_of, slot_is_initialized,
  same_masterseed,
}

pub data Write : Type 0 where
  write_seed : Bytes → Write
  write_pq : Bytes → Write
  write_pub : ℕ → Bytes → Write
  write_priv : Bytes → Write
  write_initialized : Bool → Write

-- A field of the slot with the index that comes first.
abbrev pub Written : Type 0
Written = ℕ × Write

abbrev pub write : Write → Slot → Slot
write (write_seed b) k = record k { master_seed = b }
write (write_pq b) k = record k { pq = b }
write (write_pub size b) k = record k { rsa_size = size; rsa_pub = b }
write (write_priv b) k = record k { rsa_priv = b }
write (write_initialized b) k = record k { initialized = b }

unfoldable pub perform : List Written → Store → Store
perform [] s = s
perform ((i, w) ∷ ws) s = perform ws (put_slot i (write w (slot_at i s)) s)

-- The writes of a function, and whether it succeeds.
abbrev pub Writes : Type 0
Writes = List Written × Bool

-- `CHECK_ZXERR`: the rest of the function runs on what the writes before it have left.
unfoldable pub and_writes : Store → Writes → (Store → Writes) → Writes
and_writes s (ws, false) rest = (ws, false)
and_writes s (ws, true) rest = let r = rest (perform ws s) in (ws ++ r.0, r.1)

-- `crypto_uninitialized_slot`
unfoldable pub uninitialized_writes : ℕ → Store → Writes
uninitialized_writes i s = if ltb 1 i then ([], false) else (
  (i, write_pq (replicate 512 0))
      ∷ (i, write_priv (replicate (length (slot_at i s).rsa_priv) 0))
      ∷ (i, write_seed (replicate masterseed_len 0))
      ∷ (i, write_initialized false)
      ∷ [],
  true,
)

module _ (sdk : Sdk) where
  -- `crypto_deriveMasterSeed`
  unfoldable pub seed_writes : ℕ → Writes
  seed_writes i = keep sdk.derive_seed
    where
      keep : Option Bytes → Writes
      keep none = ([], false)
      keep (some derived) = ((i, write_seed (seed_of sdk derived)) ∷ [], true)

  -- `crypto_init_primes`
  unfoldable pub primes_writes : ℕ → Store → Writes
  primes_writes i s = keep (primes_of sdk (slot_at i s).master_seed)
    where
      keep : Option Bytes → Writes
      keep none = ([], false)
      keep (some pq) = ((i, write_pq pq) ∷ [], true)

  -- `crypto_init_keys`
  unfoldable pub keys_writes : ℕ → Store → Writes
  keys_writes i s = keep (sdk.generate_pair (slot_at i s).pq)
    where
      keep : Option (Bytes × Bytes) → Writes
      keep none = ([], false)
      keep (some (n, d)) = (
        (i, write_initialized true) ∷ (i, write_pub sdk.key_size n) ∷ (i, write_priv d) ∷ [],
        true,
      )

  -- `crypto_initialize_slot`
  unfoldable pub initialize_writes : ℕ → Store → Writes
  initialize_writes i s =
      and_writes s (seed_writes i) λ s. and_writes s (primes_writes i s) λ s. keys_writes i s

  -- `crypto_store_init`
  unfoldable pub init_writes : Store → Writes
  init_writes s =
      if not (slot_is_initialized 0 s)
      then initialize_writes 0 s
      else if same_masterseed sdk 0 s
      then ([], true)
      else if not (slot_is_initialized 1 s)
      then initialize_writes 1 s
      else if same_masterseed sdk 1 s
      then ([], true)
      else and_writes s (uninitialized_writes 0 s)
          λ s. and_writes s (uninitialized_writes 1 s) λ s. initialize_writes 0 s

  -- The store when the power is lost after the first `n` writes.
  unfoldable pub cut : ℕ → Store → Store
  cut n s = perform (take n (init_writes s).0) s

  -- One loss after the other: each start runs `crypto_store_init` on what the last one has left.
  abbrev pub cut_all : List ℕ → Store → Store
  cut_all [] s = s
  cut_all (n ∷ ns) s = cut_all ns (cut n s)
