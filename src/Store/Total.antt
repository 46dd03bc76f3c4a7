-- ===== src/Store/Total.antt =====
-- The making of the keys comes to an end, with keys, when the SDK reports no error.
use ledger_arweave.Base.{
  ℕ, zero, suc, ◌+◌, ◌*◌, ◌≡◌, refl, [], ◌∷◌, ◌++◌, Option, none, some, and_then, Bytes, length,
  length-append, arith,
}
use ledger_arweave.Result.{Result, ok}
use ledger_arweave.Store.{
  Sdk, Store, derive_master_seed, init_primes, init_keys, prime_blocks, derive_prime, primes_of,
  seed_of, initialize_slot, init,
}
use ledger_arweave.Store.Cases.{init-cases, wiped_both}

-- The SDK's hash of 32 bytes never fails.
abbrev pub Hashes : Sdk → Type 0
Hashes sdk = (b : Bytes) → (h : Bytes) × (sdk.sha256 b ≡ some h) × (length h ≡ 32)

-- Nor does any other call.
pub record Works (sdk : Sdk) : Type 0 where
  pub derives : (d : Bytes) × (sdk.derive_seed ≡ some d)
  pub hashes : Hashes sdk
  pub primes : (b : Bytes) → (q : Bytes) × (sdk.next_prime b ≡ some q)
  pub pairs : (b : Bytes) → (pair : Bytes × Bytes) × (sdk.generate_pair b ≡ some pair)

then_some :
    {A B : Type 0} (o : Option A) (f : A → Option B)
    → (a : A) × (o ≡ some a)
    → ((a : A) → (b : B) × (f a ≡ some b))
    → (b : B) × (and_then o f ≡ some b)
then_some none f (a, e) g = absurd (cc)
then_some (some a) f r g = g a

dropped :
    {o : Option Bytes} {n : ℕ}
    → (b : Bytes) × (o ≡ some b) × (length b ≡ n)
    → (b : Bytes) × (o ≡ some b)
dropped (b, e, h) = (b, e)

module _ (sdk : Sdk) where
  prime_blocks-length :
      (seed : Bytes) (index left block : ℕ)
      → Hashes sdk
      → (b : Bytes) × (prime_blocks sdk seed index left block ≡ some b) × (length b ≡ left * 32)
  unfolding prime_blocks
  prime_blocks-length seed index zero block law = ([], refl, omega arith)
  prime_blocks-length seed index (suc left) block law =
      let (h, e, long) = law (0 ∷ index ∷ seed ++ block ∷ []) in
      let (b, f, rest) = prime_blocks-length seed index left (block + 1) law in
      (h ++ b, rw (e, f) refl, omega (arith, length-append h b, long, rest))

  -- The loop of `crypto_derivePrime` fills the 256 bytes of a prime, whatever the seed and the index
  -- of the prime, with a hash of 32 bytes that does not fail.
  pub derive_prime-length :
      (seed : Bytes) (index : ℕ)
      → Hashes sdk
      → (b : Bytes) × (derive_prime sdk seed index ≡ some b) × (length b ≡ 256)
  unfolding derive_prime
  derive_prime-length seed index law = prime_blocks-length seed index 8 0 law

  module _ (works : Works sdk) where
    primes_of-some : (seed : Bytes) → (pq : Bytes) × (primes_of sdk seed ≡ some pq)
    unfolding primes_of derive_prime prime_blocks
    primes_of-some seed =
        then_some (derive_prime sdk seed 0) _ (dropped (derive_prime-length seed 0 works.hashes))
          λ p_seed.
            then_some (derive_prime sdk seed 1) _
              (dropped (derive_prime-length seed 1 works.hashes))
              λ q_seed.
                then_some _ _ (works.primes _)
                  λ p. then_some _ _ (works.primes _) λ q. (p ++ q, refl)

    initialize_slot-Works :
        (k : ℕ) (s : Store)
        → (s' : Store) × (initialize_slot sdk (record s { slot_in_use = k }) ≡ ok s')
    unfolding initialize_slot derive_master_seed init_primes init_keys
    initialize_slot-Works zero s =
        let (d, e) = works.derives in
        let (pq, f) = primes_of-some (seed_of sdk d) in
        let (pair, g) = works.pairs pq in rw e (rw f (rw g (_, refl)))
    initialize_slot-Works (suc n) s =
        let (d, e) = works.derives in
        let (pq, f) = primes_of-some (seed_of sdk d) in
        let (pair, g) = works.pairs pq in rw e (rw f (rw g (_, refl)))

    -- While the SDK reports no error, `crypto_store_init` succeeds on every store.
    pub init-Works : (s : Store) → (s' : Store) × (init sdk s ≡ ok s')
    init-Works s =
        init-cases sdk s Succeeds (λ _. initialize_slot-Works 0 s) (λ _ _. (_, refl))
          (λ _ _ _. initialize_slot-Works 1 s) (λ _ _ _ _. (_, refl))
          λ _ _ _ _. initialize_slot-Works 0 (wiped_both s)
      where
        Succeeds : Result Store Store → Type 0
        Succeeds r = (s' : Store) × (r ≡ ok s')
