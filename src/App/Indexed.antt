-- ===== src/App/Indexed.antt =====
-- The index of the slot in use, and the flag of the signature.
use ledger_arweave.Base.{ℕ, zero, suc, ◌≤◌, Bool, true, false, Bytes, arith, on_test, on_not}
use ledger_arweave.Result.{final}
use ledger_arweave.Store.{
  Sdk, Store, power_on, init, init_test, initialize_slot, slot_is_initialized, same_masterseed,
  put_sig,
}
use ledger_arweave.Store.Keys.{initialize_slot-cases}
use ledger_arweave.Store.Cases.{wiped_both, init-cases}
use ledger_arweave.Session.{Target, nano_s, nano_x, nano_s2, stax}
use ledger_arweave.App.{start_app, tested}
use ledger_arweave.App.Approvals.{put_sig-kept}

-- `slot_in_use` indexes the two slots, and `signature_set` is a flag.
pub record IsIndexed (t : Store) : Type 0 where
  pub slot : t.slot_in_use ≤ 1
  pub flag : t.signature_set ≤ 1

module _ (sdk : Sdk) where
  initialize_slot-IsIndexed :
      (k : ℕ) (s : Store)
      → k ≤ 1
      → s.signature_set ≤ 1
      → IsIndexed (final (initialize_slot sdk (record s { slot_in_use = k })))
  initialize_slot-IsIndexed zero s le flag =
      initialize_slot-cases sdk 0 s (λ r. IsIndexed (final r))
        (λ _. record { slot = omega arith; flag = flag })
        (λ _ _ _ _. record { slot = omega arith; flag = flag })
        λ _ _ _ _ _ _. record { slot = omega arith; flag = flag }
  initialize_slot-IsIndexed (suc n) s le flag =
      initialize_slot-cases sdk (suc n) s (λ r. IsIndexed (final r))
        (λ _. record { slot = le; flag = flag }) (λ _ _ _ _. record { slot = le; flag = flag })
        λ _ _ _ _ _ _. record { slot = le; flag = flag }

  pub init-IsIndexed : (s : Store) → s.signature_set ≤ 1 → IsIndexed (final (init sdk s))
  init-IsIndexed s flag =
      init-cases sdk s (λ r. IsIndexed (final r))
        (λ _. initialize_slot-IsIndexed 0 s (omega arith) flag)
        (λ _ _. record { slot = omega arith; flag = flag })
        (λ _ _ _. initialize_slot-IsIndexed 1 s (omega arith) flag)
        (λ _ _ _ _. record { slot = omega arith; flag = flag })
        λ _ _ _ _. initialize_slot-IsIndexed 0 (wiped_both s) (omega arith) flag

  init_test-IsIndexed : (s : Store) → IsIndexed s → IsIndexed (init_test sdk s).1
  unfolding init_test
  init_test-IsIndexed s h =
      on_not Goal _ _ (slot_is_initialized 0 s) (λ _. h)
        λ _.
          on_test Goal _ _ (same_masterseed sdk 0 s)
            (λ _. record { slot = omega arith; flag = h.flag })
            λ _.
              on_not Goal _ _ (slot_is_initialized 1 s) (λ _. h)
                λ _.
                  on_test Goal _ _ (same_masterseed sdk 1 s)
                    (λ _. record { slot = omega arith; flag = h.flag }) λ _. h
    where
      Goal : Bool × Store → Type 0
      Goal r = IsIndexed r.1

  flagged : (b : Bool) (s : Store) → IsIndexed s → IsIndexed (record s { device_initialized = b })
  flagged b s h = record { slot = h.slot; flag = h.flag }

  tested-IsIndexed :
      (target : Target) (b : Bool) (s : Store) → IsIndexed s → IsIndexed (tested target sdk b s)
  tested-IsIndexed target true s h = flagged true s h
  tested-IsIndexed nano_s false s h = flagged false s h
  tested-IsIndexed nano_x false s h = flagged false s h
  tested-IsIndexed nano_s2 false s h = flagged false s h
  tested-IsIndexed stax false s h = init-IsIndexed _ h.flag

  pub start_app-IsIndexed :
      (target : Target) (s : Store) → IsIndexed (start_app target sdk (power_on s))
  unfolding start_app
  start_app-IsIndexed target s =
      tested-IsIndexed target _ _
        (init_test-IsIndexed (power_on s) (record { slot = omega arith; flag = omega arith }))

pub with_sig-IsIndexed :
    (k : ℕ) (b : Bytes) (set : ℕ) (s : Store)
    → set ≤ 1
    → s.slot_in_use ≤ 1
    → IsIndexed (record (put_sig k b s) { signature_set = set })
with_sig-IsIndexed k b set s le h =
    put_sig-kept k b s (λ t. IsIndexed (record t { signature_set = set }))
      λ _ _. record { slot = h; flag = le }
