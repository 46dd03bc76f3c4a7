-- ===== src/Store/Init.antt =====
-- `crypto_store_init` and `crypto_store_init_test`: the slot in use after either has reported success.
use ledger_arweave.Base.{
  ℕ, zero, suc, ◌≤◌, ◌≡◌, refl, subst, Bool, true, false, none, some, Bytes, arith, Bool-cases, ltb,
  ltb-false, on_test, on_not, ◌⊎◌, Option-cases, inl, inr,
}
use ledger_arweave.Result.{Result, ok}
use ledger_arweave.Store.{
  Sdk, Store, slot_at, in_use, seed_of, same_masterseed, slot_is_initialized, initialize_slot, init,
  init_test,
}
use ledger_arweave.Store.Keys.{same_bytes-eq, same_bytes_self, IsOwn, keyed, initialize_slot-cases}
use ledger_arweave.Store.Cases.{wiped_both, init-cases}

pub same_masterseed-IsOwn :
    (sdk : Sdk) (k : ℕ) (s : Store)
    → (slot_at k s).initialized ≡ true
    → same_masterseed sdk k s ≡ true
    → IsOwn sdk (slot_at k s)
unfolding same_masterseed
same_masterseed-IsOwn sdk k s set_up h =
    by_slot (Bool-cases (ltb 1 k)) (Option-cases sdk.derive_seed)
  where
    by_slot :
        ((ltb 1 k ≡ true) ⊎ (ltb 1 k ≡ false))
        → ((sdk.derive_seed ≡ none) ⊎ ((d : Bytes) × (sdk.derive_seed ≡ some d)))
        → IsOwn sdk (slot_at k s)
    by_slot (inl a) o = absurd (cc)
    by_slot (inr a) (inl e) = absurd (cc)
    by_slot (inr a) (inr d) = record {
      set_up = set_up;
      derived = d.0;
      derives = d.1;
      same_seed = same_bytes-eq _ _ (cc);
    }

pub IsOwn-same_masterseed :
    (sdk : Sdk) (k : ℕ) (s : Store)
    → k ≤ 1
    → IsOwn sdk (slot_at k s)
    → same_masterseed sdk k s ≡ true
unfolding same_masterseed
IsOwn-same_masterseed sdk k s le o =
    rw (ltb-false 1 k le, o.derives, o.same_seed) (same_bytes_self (seed_of sdk o.derived))

-- The slot in use holds this device's seed, and it is the one that `crypto_store_init_test` comes to
-- first.
record Settled (sdk : Sdk) (s : Store) : Type 0 where
  index : s.slot_in_use ≤ 1
  own : IsOwn sdk (in_use s)
  before : 1 ≤ s.slot_in_use → (s.first.initialized ≡ true) × (same_masterseed sdk 0 s ≡ false)

pub true_not_false : {b : Bool} → b ≡ true → b ≡ false → ⊥
true_not_false p q = cc

pub ok-inj : {s t : Store} → ◌≡◌ {A = Result Store Store} (ok s) (ok t) → s ≡ t
ok-inj e = cc

pub keyed-IsOwn :
    (sdk : Sdk) (derived pq : Bytes) (pair : Bytes × Bytes)
    → sdk.derive_seed ≡ some derived
    → IsOwn sdk (keyed sdk.key_size (seed_of sdk derived) pq pair)
keyed-IsOwn sdk derived pq pair e = record {
  set_up = refl;
  derived = derived;
  derives = e;
  same_seed = refl;
}

initialize_first-Settled :
    (sdk : Sdk) (s s' : Store)
    → initialize_slot sdk (record s { slot_in_use = 0 }) ≡ ok s'
    → Settled sdk s'
initialize_first-Settled sdk s s' =
    initialize_slot-cases sdk 0 s (λ r. r ≡ ok s' → Settled sdk s') (λ _ e. absurd (cc))
      (λ _ _ _ _ e. absurd (cc))
      λ derived pq pair d _ _ e. subst (Settled sdk) (ok-inj e) (record {
        index = omega arith;
        own = keyed-IsOwn sdk derived pq pair d;
        before = λ h. absurd (omega arith);
      })

initialize_second-Settled :
    (sdk : Sdk) (s s' : Store)
    → s.first.initialized ≡ true
    → same_masterseed sdk 0 s ≡ false
    → initialize_slot sdk (record s { slot_in_use = 1 }) ≡ ok s'
    → Settled sdk s'
unfolding same_masterseed
initialize_second-Settled sdk s s' a b =
    initialize_slot-cases sdk 1 s (λ r. r ≡ ok s' → Settled sdk s') (λ _ e. absurd (cc))
      (λ _ _ _ _ e. absurd (cc))
      λ derived pq pair d _ _ e. subst (Settled sdk) (ok-inj e) (record {
        index = omega arith;
        own = keyed-IsOwn sdk derived pq pair d;
        before = λ _. (a, b);
      })

init-Settled : (sdk : Sdk) (s s' : Store) → init sdk s ≡ ok s' → Settled sdk s'
unfolding same_masterseed
init-Settled sdk s s' =
    init-cases sdk s (λ r. r ≡ ok s' → Settled sdk s') (λ _. initialize_first-Settled sdk s s')
      (λ a b e. subst (Settled sdk) (ok-inj e) (record {
        index = omega arith;
        own = same_masterseed-IsOwn sdk 0 s a b;
        before = λ h. absurd (omega arith);
      }))
      (λ a b _. initialize_second-Settled sdk s s' a b)
      (λ a b c d e. subst (Settled sdk) (ok-inj e) (record {
        index = omega arith;
        own = same_masterseed-IsOwn sdk 1 s c d;
        before = λ _. (a, b);
      }))
      (λ _ _ _ _. initialize_first-Settled sdk (wiped_both s) s')

-- After `crypto_store_init` has succeeded, the slot in use, one of the two, is initialized with the
-- seed of this device's mnemonic.
pub init-IsOwn :
    (sdk : Sdk) (s s' : Store) → init sdk s ≡ ok s' → (s'.slot_in_use ≤ 1) × IsOwn sdk (in_use s')
init-IsOwn sdk s s' e = let r = init-Settled sdk s s' e in (r.index, r.own)

-- The test of the store answers true only with a slot in use that is initialized with the seed of
-- this device's mnemonic, and the slots and signatures stay as they were.
pub init_test-IsOwn :
    (sdk : Sdk) (s s' : Store)
    → init_test sdk s ≡ (true, s')
    → IsOwn sdk (in_use s') × (s' ≡ record s { slot_in_use = s'.slot_in_use })
unfolding init_test slot_is_initialized
init_test-IsOwn sdk s s' =
    on_not Goal _ _ s.first.initialized (λ _ e. absurd (cc))
      λ a.
        on_test Goal _ _ (same_masterseed sdk 0 s)
          (λ b e. reached 0 (same_masterseed-IsOwn sdk 0 s a b) e)
          λ _.
            on_not Goal _ _ s.second.initialized (λ _ e. absurd (cc))
              λ c.
                on_test Goal _ _ (same_masterseed sdk 1 s)
                  (λ d e. reached 1 (same_masterseed-IsOwn sdk 1 s c d) e) (λ _ e. absurd (cc))
  where
    Goal : Bool × Store → Type 0
    Goal r =
        r ≡ (true, s') → IsOwn sdk (in_use s') × (s' ≡ record s { slot_in_use = s'.slot_in_use })

    reached :
        (k : ℕ)
        → IsOwn sdk (slot_at k s)
        → ◌≡◌ {A = Bool × Store} (true, record s { slot_in_use = k }) (true, s')
        → IsOwn sdk (in_use s') × (s' ≡ record s { slot_in_use = s'.slot_in_use })
    reached k o e =
        subst (λ (t : Store). IsOwn sdk (in_use t) × (t ≡ record s { slot_in_use = t.slot_in_use }))
          {x = record s { slot_in_use = k }} (cc) (own_at k o, refl)
      where
        own_at :
            (k : ℕ) → IsOwn sdk (slot_at k s) → IsOwn sdk (in_use (record s { slot_in_use = k }))
        own_at zero o = o
        own_at (suc n) o = o

-- The test comes to the slot `k`.
pub init_test-at :
    (sdk : Sdk) (s : Store) (k : ℕ)
    → k ≤ 1
    → IsOwn sdk (slot_at k s)
    → (1 ≤ k → (s.first.initialized ≡ true) × (same_masterseed sdk 0 s ≡ false))
    → init_test sdk s ≡ (true, record s { slot_in_use = k })
unfolding init_test slot_is_initialized
init_test-at sdk s zero le o h =
    on_not (λ r. r ≡ (true, record s { slot_in_use = 0 })) _ _ s.first.initialized
      (λ e. absurd (true_not_false o.set_up e))
      λ _.
        on_test (λ r. r ≡ (true, record s { slot_in_use = 0 })) _ _ (same_masterseed sdk 0 s)
          (λ _. refl) λ e. absurd (true_not_false (IsOwn-same_masterseed sdk 0 s le o) e)
init_test-at sdk s (suc zero) le o h =
    on_not (λ r. r ≡ (true, record s { slot_in_use = 1 })) _ _ s.first.initialized
      (λ e. absurd (true_not_false (h le).0 e))
      λ _.
        on_test (λ r. r ≡ (true, record s { slot_in_use = 1 })) _ _ (same_masterseed sdk 0 s)
          (λ e. absurd (true_not_false e (h le).1))
          λ _.
            on_not (λ r. r ≡ (true, record s { slot_in_use = 1 })) _ _ s.second.initialized
              (λ e. absurd (true_not_false o.set_up e))
              λ _.
                on_test (λ r. r ≡ (true, record s { slot_in_use = 1 })) _ _
                  (same_masterseed sdk 1 s) (λ _. refl)
                  λ e. absurd (true_not_false (IsOwn-same_masterseed sdk 1 s le o) e)
init_test-at sdk s (suc (suc n)) le o h = absurd (omega arith)

-- What `crypto_store_init` has set up, `crypto_store_init_test` finds: right after a success it
-- answers true and changes nothing.
pub init-init_test : (sdk : Sdk) (s s' : Store) → init sdk s ≡ ok s' → init_test sdk s' ≡ (true, s')
init-init_test sdk s s' e =
    let r = init-Settled sdk s s' e in init_test-at sdk s' s'.slot_in_use r.index r.own r.before
