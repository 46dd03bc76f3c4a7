-- ===== src/App/Tests/Power.antt =====
-- A run in which the power is lost while the keys are made.
use ledger_arweave.Base.{◌≡◌, refl, ap, ◌∙◌, true, false, [], ◌∷◌, Option, some, Bytes, inl, take}
use ledger_arweave.Result.{final}
use ledger_arweave.Store.{
  in_use, init, init_test, slot_is_initialized, same_masterseed, initialize_slot,
  derive_master_seed, init_primes, init_keys, primes_of, derive_prime, prime_blocks,
  uninitialized_slot,
}
use ledger_arweave.Store.Keys.{IsOwn, IsDerived}
use ledger_arweave.Store.Flash.{
  init_writes, initialize_writes, seed_writes, primes_writes, keys_writes, and_writes, perform, cut,
  cut_all,
}
use ledger_arweave.Store.Flash.Between.{HasOwnKeys, IsSafe, HasSeed, ends_open}
use ledger_arweave.Store.Flash.Tests.{fours_not_zeros}
use ledger_arweave.Platform.{Platform}
use ledger_arweave.Session.{nano_s}
use ledger_arweave.Session.Tests.{Held, toy}
use ledger_arweave.Apdu.{Device}
use ledger_arweave.Apdu.Tests
use ledger_arweave.App.{Run, started, start_app, first, next, make, lose_power}
use ledger_arweave.App.Keyed.{RunClosed, Run-IsDerived}
use ledger_arweave.App.Tests.{flash}

-- A Nano S, which makes its keys when the user agrees.
abbrev nano : Platform
nano = record Tests.platform { target = nano_s }

at_first : Device Held
at_first = started nano toy [] ([], 0) flash

-- The power is lost when the seed and the primes are written.
after_loss : Device Held
unfolding at_first
after_loss = started nano toy [] ([], 0) (cut_all nano.sdk (2 ∷ []) at_first.store)

after_make : Device Held
unfolding after_loss
after_make = record after_loss { store = final (init nano.sdk after_loss.store) }

no_keys : at_first.store.device_initialized ≡ false
unfolding at_first start_app init_test slot_is_initialized
no_keys = refl

still_no_keys : after_loss.store.device_initialized ≡ false
unfolding after_loss at_first start_app init_test slot_is_initialized cut perform init_writes
    initialize_writes seed_writes primes_writes keys_writes and_writes primes_of derive_prime
    prime_blocks
still_no_keys = refl

at_first-Run : Run nano toy flash [] at_first
unfolding at_first
at_first-Run = first [] ([], 0) refl

after_loss-Run : Run nano toy flash [] after_loss
unfolding after_loss
after_loss-Run = next at_first-Run (lose_power (2 ∷ []) [] ([], 0) (inl no_keys) refl refl refl)

after_make-Run : Run nano toy flash [] after_make
unfolding after_make after_loss-Run
after_make-Run = next after_loss-Run (make still_no_keys refl refl)

closed : ends_open false (take 2 (init_writes nano.sdk at_first.store).0) ≡ false
unfolding at_first start_app init_test slot_is_initialized perform init_writes initialize_writes
    seed_writes primes_writes keys_writes and_writes primes_of derive_prime prime_blocks ends_open
closed = refl

after_make-RunClosed : RunClosed nano toy after_make-Run
unfolding after_make-Run after_loss-Run at_first-Run
after_make-RunClosed = ((tt, (closed, tt)), tt)

nano-HasSeed : HasSeed nano.sdk
nano-HasSeed derived e z = fours_not_zeros (ap (take 32) (some_inj e) ∙ z)
  where
    some_inj : {x y : Bytes} → ◌≡◌ {A = Option Bytes} (some x) (some y) → x ≡ y
    some_inj e = cc

flash-IsSafe : IsSafe nano.sdk flash
unfolding HasOwnKeys
flash-IsSafe = record {
  first_own = λ o. absurd (unset o.set_up);
  second_own = λ o. absurd (unset o.set_up);
}
  where
    unset : false ≡ true → ⊥
    unset e = cc

made : after_make.store.device_initialized ≡ true
unfolding after_make after_loss at_first start_app init_test slot_is_initialized cut perform
    init_writes initialize_writes seed_writes primes_writes keys_writes and_writes primes_of
    derive_prime prime_blocks init same_masterseed initialize_slot derive_master_seed init_primes
    init_keys uninitialized_slot
made = refl

Run-IsDerived_example :
    IsOwn nano.sdk (in_use after_make.store) × IsDerived nano.sdk (in_use after_make.store)
Run-IsDerived_example =
    Run-IsDerived nano toy flash [] after_make after_make-Run nano-HasSeed after_make-RunClosed
      flash-IsSafe made
