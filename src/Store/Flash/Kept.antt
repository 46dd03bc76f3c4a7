-- ===== src/Store/Flash/Kept.antt =====
-- A slot of this device's seed has the keys of the seed, whatever is done to the store.
use ledger_arweave.Base.{◌≡◌, refl, false, List, [], ◌∷◌, ℕ, take, Bool, on_test, on_not}
use ledger_arweave.Result.{final}
use ledger_arweave.Store.{
  Sdk, Store, init, initialize_slot, init_test, slot_is_initialized, same_masterseed,
}
use ledger_arweave.Store.Keys.{initialize_slot-cases}
use ledger_arweave.Store.Cases.{wiped_both, init-cases}
use ledger_arweave.Store.Flash.{init_writes, cut, cut_all}
use ledger_arweave.Store.Flash.Between.{
  HasOwnKeys, IsSafe, HasSeed, ends_open, unmarked, keyed-HasOwnKeys, cut-IsSafe,
}

module _ (sdk : Sdk) where
  -- None of the losses comes while a slot is marked and its keys are not yet written.
  abbrev pub AllClosed : List ℕ → Store → Type 0
  AllClosed [] s = Unit
  AllClosed (n ∷ ns) s =
      (ends_open false (take n (init_writes sdk s).0) ≡ false) × AllClosed ns (cut sdk n s)

  pub cut_all-IsSafe :
      (ns : List ℕ) (s : Store)
      → HasSeed sdk
      → AllClosed ns s
      → IsSafe sdk s
      → IsSafe sdk (cut_all sdk ns s)
  cut_all-IsSafe [] s law c h = h
  cut_all-IsSafe (n ∷ ns) s law c h =
      cut_all-IsSafe ns (cut sdk n s) law c.1 (cut-IsSafe sdk s n law h c.0)

  initialize_first-IsSafe :
      (s : Store)
      → s.first.initialized ≡ false
      → HasOwnKeys sdk s.second
      → IsSafe sdk (final (initialize_slot sdk (record s { slot_in_use = 0 })))
  initialize_first-IsSafe s e h =
      initialize_slot-cases sdk 0 s (λ r. IsSafe sdk (final r))
        (λ _. record { first_own = unmarked sdk s.first e; second_own = h })
        (λ _ _ _ _. record { first_own = unmarked sdk _ e; second_own = h })
        λ derived pq pair _ p q. record {
          first_own = keyed-HasOwnKeys sdk _ pq pair p q;
          second_own = h;
        }

  initialize_second-IsSafe :
      (s : Store)
      → s.second.initialized ≡ false
      → HasOwnKeys sdk s.first
      → IsSafe sdk (final (initialize_slot sdk (record s { slot_in_use = 1 })))
  initialize_second-IsSafe s e h =
      initialize_slot-cases sdk 1 s (λ r. IsSafe sdk (final r))
        (λ _. record { first_own = h; second_own = unmarked sdk s.second e })
        (λ _ _ _ _. record { first_own = h; second_own = unmarked sdk _ e })
        λ derived pq pair _ p q. record {
          first_own = h;
          second_own = keyed-HasOwnKeys sdk _ pq pair p q;
        }

  -- The parts that count for `IsSafe` are those of another store.
  kept :
      {s : Store}
      → IsSafe sdk s
      → (t : Store) → t.first ≡ s.first
      → t.second ≡ s.second
      → IsSafe sdk t
  kept h t a b = record { first_own = rw a h.first_own; second_own = rw b h.second_own }

  pub init-IsSafe : (s : Store) → IsSafe sdk s → IsSafe sdk (final (init sdk s))
  init-IsSafe s h =
      init-cases sdk s (λ r. IsSafe sdk (final r)) (λ a. initialize_first-IsSafe s a h.second_own)
        (λ _ _. kept h _ refl refl) (λ _ _ c. initialize_second-IsSafe s c h.first_own)
        (λ _ _ _ _. kept h _ refl refl)
        λ _ _ _ _.
          initialize_first-IsSafe (wiped_both s) refl (unmarked sdk (wiped_both s).second refl)

  pub init_test-IsSafe : (s : Store) → IsSafe sdk s → IsSafe sdk (init_test sdk s).1
  unfolding init_test
  init_test-IsSafe s h =
      on_not Goal _ _ (slot_is_initialized 0 s) (λ _. h)
        λ _.
          on_test Goal _ _ (same_masterseed sdk 0 s) (λ _. kept h _ refl refl)
            λ _.
              on_not Goal _ _ (slot_is_initialized 1 s) (λ _. h)
                λ _. on_test Goal _ _ (same_masterseed sdk 1 s) (λ _. kept h _ refl refl) λ _. h
    where
      Goal : Bool × Store → Type 0
      Goal r = IsSafe sdk r.1
