-- ===== src/Store/Keys.antt =====
-- Whose keys a slot holds, and that they are the ones its seed determines.
use ledger_arweave.Base.{
  ℕ, zero, suc, ◌≡◌, refl, ap₂, true, [], ◌∷◌, none, some, Bytes, arith, Option-cases, inl, inr,
  ==_iff,
}
use ledger_arweave.Result.{Result, zxerr_unknown, ok, fail}
use ledger_arweave.Store.{
  Sdk, Slot, Store, slot_at, put_slot, same_bytes, seed_of, derive_master_seed, primes_of,
  init_primes, init_keys, initialize_slot,
}

pub same_bytes-eq : (xs ys : Bytes) → same_bytes xs ys ≡ true → xs ≡ ys
same_bytes-eq [] [] h = refl
same_bytes-eq (x ∷ xs) (y ∷ ys) h =
    ap₂ ◌∷◌ ((==_iff x y).0 (ground arith)) (same_bytes-eq xs ys (ground arith))
same_bytes-eq [] (y ∷ ys) h = absurd (cc)
same_bytes-eq (x ∷ xs) [] h = absurd (cc)

pub same_bytes_self : (xs : Bytes) → same_bytes xs xs ≡ true
same_bytes_self [] = refl
same_bytes_self (x ∷ xs) = rw ((==_iff x x).1 refl) (same_bytes_self xs)

-- An initialized slot holds the key pair that its primes determine, with the size that the SDK gives
-- it, and the primes are those of its seed.
pub record IsDerived (sdk : Sdk) (k : Slot) : Type 0 where
  pub primes : primes_of sdk k.master_seed ≡ some k.pq
  pub pair : sdk.generate_pair k.pq ≡ some (k.rsa_pub, k.rsa_priv)
  pub size : k.rsa_size ≡ sdk.key_size

-- The invariant of a slot.
unfoldable pub HasKeys : Sdk → Slot → Type 0
HasKeys sdk k = k.initialized ≡ true → IsDerived sdk k

-- The slot is initialized with the seed of this device's mnemonic.
pub record IsOwn (sdk : Sdk) (k : Slot) : Type 0 where
  pub set_up : k.initialized ≡ true
  pub derived : Bytes
  pub derives : sdk.derive_seed ≡ some derived
  pub same_seed : k.master_seed ≡ seed_of sdk derived

-- The slot that `crypto_initialize_slot` makes of a seed, its primes and their key pair.
abbrev pub keyed : ℕ → Bytes → Bytes → Bytes × Bytes → Slot
keyed size seed pq pair = record {
  master_seed = seed;
  pq = pq;
  rsa_size = size;
  rsa_pub = pair.0;
  rsa_priv = pair.1;
  initialized = true;
}

-- The ways `crypto_initialize_slot` ends on the slot `k`: the SDK refuses the seed and nothing has
-- changed, it refuses later and a seed and perhaps primes are written, or all is written.
pub initialize_slot-cases :
    (sdk : Sdk) (k : ℕ) (s : Store) (R : Result Store Store → Type 0)
    → (sdk.derive_seed ≡ none → R (fail zxerr_unknown (record s { slot_in_use = k })))
    → ((derived seed pq : Bytes)
        → sdk.derive_seed ≡ some derived
        → R (
            fail zxerr_unknown (
              put_slot k
                (record (slot_at k s) { master_seed = seed; pq = pq })
                (record s { slot_in_use = k }))))
    → ((derived pq : Bytes) (pair : Bytes × Bytes)
        → sdk.derive_seed ≡ some derived
        → primes_of sdk (seed_of sdk derived) ≡ some pq
        → sdk.generate_pair pq ≡ some pair
        → R (
            ok (
              put_slot k
                (keyed sdk.key_size (seed_of sdk derived) pq pair)
                (record s { slot_in_use = k; device_initialized = true }))))
    → R (initialize_slot sdk (record s { slot_in_use = k }))
unfolding initialize_slot derive_master_seed init_primes init_keys
initialize_slot-cases sdk zero s R unseeded partly whole = elim (Option-cases sdk.derive_seed) [
  | inl e ↦ rw e (unseeded e)
  | inr d ↦ rw d.1 (elim (Option-cases (primes_of sdk (seed_of sdk d.0))) [
    | inl e ↦ rw e (partly d.0 (seed_of sdk d.0) s.first.pq d.1)
    | inr q ↦ rw q.1 (elim (Option-cases (sdk.generate_pair q.0)) [
      | inl e ↦ rw e (partly d.0 (seed_of sdk d.0) q.0 d.1)
      | inr r ↦ rw r.1 (whole d.0 q.0 r.0 d.1 q.1 r.1)
    ])
  ])
]
initialize_slot-cases sdk (suc n) s R unseeded partly whole = elim (Option-cases sdk.derive_seed) [
  | inl e ↦ rw e (unseeded e)
  | inr d ↦ rw d.1 (elim (Option-cases (primes_of sdk (seed_of sdk d.0))) [
    | inl e ↦ rw e (partly d.0 (seed_of sdk d.0) s.second.pq d.1)
    | inr q ↦ rw q.1 (elim (Option-cases (sdk.generate_pair q.0)) [
      | inl e ↦ rw e (partly d.0 (seed_of sdk d.0) q.0 d.1)
      | inr r ↦ rw r.1 (whole d.0 q.0 r.0 d.1 q.1 r.1)
    ])
  ])
]
