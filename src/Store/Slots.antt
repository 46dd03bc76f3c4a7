-- ===== src/Store/Slots.antt =====
-- What `crypto_store_init` does to the two slots: the keys in them and their seeds, and the keys of
-- other seeds.
use ledger_arweave.Base.{◌≡◌, refl, sym, ◌∙◌, true, false, Option, none, some, Bytes, ◌⊎◌, inl, inr}
use ledger_arweave.Result.{Result, fail, final, zxerr_unknown}
use ledger_arweave.Store.{Sdk, Slot, Store, same_masterseed, initialize_slot, init, primes_of}
use ledger_arweave.Store.Keys.{HasKeys, IsOwn, keyed, initialize_slot-cases}
use ledger_arweave.Store.Init.{same_masterseed-IsOwn, true_not_false}
use ledger_arweave.Store.Cases.{wiped, wiped_both, init-cases}

-- The invariant of the store: an initialized slot holds the keys that its seed determines.
pub record IsStore (sdk : Sdk) (s : Store) : Type 0 where
  pub first_keys : HasKeys sdk s.first
  pub second_keys : HasKeys sdk s.second

vacuous : (sdk : Sdk) (k : Slot) → k.initialized ≡ false → HasKeys sdk k
unfolding HasKeys
vacuous sdk k e h = absurd (cc)

keyed-HasKeys :
    (sdk : Sdk) (seed pq : Bytes) (pair : Bytes × Bytes)
    → primes_of sdk seed ≡ some pq
    → sdk.generate_pair pq ≡ some pair
    → HasKeys sdk (keyed sdk.key_size seed pq pair)
unfolding HasKeys
keyed-HasKeys sdk seed pq pair p q h = record { primes = p; pair = q; size = refl }

initialize_first-IsStore :
    (sdk : Sdk) (s : Store)
    → s.first.initialized ≡ false
    → HasKeys sdk s.second
    → IsStore sdk (final (initialize_slot sdk (record s { slot_in_use = 0 })))
initialize_first-IsStore sdk s e h =
    initialize_slot-cases sdk 0 s (λ r. IsStore sdk (final r))
      (λ _. record { first_keys = vacuous sdk s.first e; second_keys = h })
      (λ _ _ _ _. record { first_keys = vacuous sdk _ e; second_keys = h })
      λ derived pq pair _ p q. record {
        first_keys = keyed-HasKeys sdk _ pq pair p q;
        second_keys = h;
      }

initialize_second-IsStore :
    (sdk : Sdk) (s : Store)
    → s.second.initialized ≡ false
    → HasKeys sdk s.first
    → IsStore sdk (final (initialize_slot sdk (record s { slot_in_use = 1 })))
initialize_second-IsStore sdk s e h =
    initialize_slot-cases sdk 1 s (λ r. IsStore sdk (final r))
      (λ _. record { first_keys = h; second_keys = vacuous sdk s.second e })
      (λ _ _ _ _. record { first_keys = h; second_keys = vacuous sdk _ e })
      λ derived pq pair _ p q. record {
        first_keys = h;
        second_keys = keyed-HasKeys sdk _ pq pair p q;
      }

-- However `crypto_store_init` ends, every initialized slot holds the primes and the key pair that
-- the seed stored in it determines, if that was so before.
pub init-IsStore : (sdk : Sdk) (s : Store) → IsStore sdk s → IsStore sdk (final (init sdk s))
init-IsStore sdk s h =
    init-cases sdk s (λ r. IsStore sdk (final r))
      (λ a. initialize_first-IsStore sdk s a h.second_keys)
      (λ _ _. record { first_keys = h.first_keys; second_keys = h.second_keys })
      (λ _ _ c. initialize_second-IsStore sdk s c h.first_keys)
      (λ _ _ _ _. record { first_keys = h.first_keys; second_keys = h.second_keys })
      λ _ _ _ _.
        initialize_first-IsStore sdk (wiped_both s) refl (vacuous sdk (wiped s.second) refl)

-- A slot that is initialized has not changed.
abbrev pub Kept : Slot → Slot → Type 0
Kept k k' = k.initialized ≡ true → k' ≡ k

lost : (k k' : Slot) → k.initialized ≡ false → Kept k k'
lost k k' e h = absurd (true_not_false h e)

-- While one of the two slots is free, or one of them is of this device's seed, `crypto_store_init`
-- leaves every initialized slot as it is, however it ends: the keys of another seed survive.
pub init-Kept :
    (sdk : Sdk) (s : Store)
    → (s.first.initialized ≡ true
        → s.second.initialized ≡ true
        → (same_masterseed sdk 0 s ≡ true) ⊎ (same_masterseed sdk 1 s ≡ true))
    → Kept s.first (final (init sdk s)).first × Kept s.second (final (init sdk s)).second
init-Kept sdk s room =
    init-cases sdk s Goal
      (λ a.
        initialize_slot-cases sdk 0 s Goal (λ _. (lost _ _ a, λ _. refl))
          (λ _ _ _ _. (lost _ _ a, λ _. refl)) λ _ _ _ _ _ _. (lost _ _ a, λ _. refl))
      (λ _ _. (λ _. refl, λ _. refl))
      (λ _ _ c.
        initialize_slot-cases sdk 1 s Goal (λ _. (λ _. refl, lost _ _ c))
          (λ _ _ _ _. (λ _. refl, lost _ _ c)) λ _ _ _ _ _ _. (λ _. refl, lost _ _ c))
      (λ _ _ _ _. (λ _. refl, λ _. refl)) λ a b c d. absurd (refuse (room a c) b d)
  where
    Goal : Result Store Store → Type 0
    Goal r = Kept s.first (final r).first × Kept s.second (final r).second

    refuse :
        (same_masterseed sdk 0 s ≡ true) ⊎ (same_masterseed sdk 1 s ≡ true)
        → same_masterseed sdk 0 s ≡ false
        → same_masterseed sdk 1 s ≡ false
        → ⊥
    refuse (inl e) b d = true_not_false e b
    refuse (inr e) b d = true_not_false e d

none_not_some : {b : Bytes} → ◌≡◌ {A = Option Bytes} none (some b) → ⊥
none_not_some e = cc

unseeded : (sdk : Sdk) (k : Slot) → sdk.derive_seed ≡ none → IsOwn sdk k → ⊥
unseeded sdk k e o = none_not_some (sym e ∙ o.derives)

-- An error of the SDK while it derives the seed counts as a foreign seed: with both slots
-- initialized, `crypto_store_init` then fails and has wiped the keys of both.
pub init-erases :
    (sdk : Sdk) (s : Store)
    → s.first.initialized ≡ true
    → s.second.initialized ≡ true
    → sdk.derive_seed ≡ none
    → init sdk s
      ≡ fail zxerr_unknown
          (record s { first = wiped s.first; second = wiped s.second; slot_in_use = 0 })
init-erases sdk s a b e =
    init-cases sdk s Goal (λ n. absurd (true_not_false a n))
      (λ _ same. absurd (unseeded sdk s.first e (same_masterseed-IsOwn sdk 0 s a same)))
      (λ _ _ n. absurd (true_not_false b n))
      (λ _ _ _ same. absurd (unseeded sdk s.second e (same_masterseed-IsOwn sdk 1 s b same)))
      λ _ _ _ _.
        initialize_slot-cases sdk 0 (wiped_both s) Goal (λ _. refl)
          (λ _ _ _ d. absurd (none_not_some (sym e ∙ d)))
          λ _ _ _ d _ _. absurd (none_not_some (sym e ∙ d))
  where
    Goal : Result Store Store → Type 0
    Goal r =
        r
        ≡ fail zxerr_unknown
            (record s { first = wiped s.first; second = wiped s.second; slot_in_use = 0 })
