-- ===== src/App/Keyed.antt =====
-- The keys in use are the ones that this device's seed determines.
use ledger_arweave.Base.{
  ℕ, zero, suc, ◌≡◌, sym, subst, Bool, true, false, inl, inr, List, Bytes, take, replicate,
}
use ledger_arweave.Store.{Sdk, Store, power_on, in_use, slot_at, store_signature, put_sig}
use ledger_arweave.Store.Keys.{IsOwn, IsDerived}
use ledger_arweave.Store.Flash.{cut_all}
use ledger_arweave.Store.Flash.Between.{HasOwnKeys, IsSafe, HasSeed}
use ledger_arweave.Store.Flash.Kept.{AllClosed, cut_all-IsSafe, init-IsSafe, init_test-IsSafe}
use ledger_arweave.Crypto.Sign.{sign-cases}
use ledger_arweave.Buffering.{Buffering}
use ledger_arweave.Platform.{Platform}
use ledger_arweave.Session.{Target, nano_s, nano_x, nano_s2, stax}
use ledger_arweave.Apdu.{Device, handle_apdu}
use ledger_arweave.Apdu.Kept.{handle_apdu-without_sig}
use ledger_arweave.Actions.{app_sign, reply_signed, app_reject, app_reply_address}
use ledger_arweave.App.{
  Approval, Step, Run, command, approve, confirm, reject, make, restart, lose_power, first, next,
  start_app, tested,
}
use ledger_arweave.App.Approvals.{put_sig-kept}
use ledger_arweave.App.Owner.{Run-IsOwn}

module _ (sdk : Sdk) where
  flagged-IsSafe :
      (b : Bool) (s : Store) → IsSafe sdk s → IsSafe sdk (record s { device_initialized = b })
  flagged-IsSafe b s h = record { first_own = h.first_own; second_own = h.second_own }

  tested-IsSafe :
      (target : Target) (b : Bool) (s : Store) → IsSafe sdk s → IsSafe sdk (tested target sdk b s)
  tested-IsSafe target true s h = flagged-IsSafe true s h
  tested-IsSafe nano_s false s h = flagged-IsSafe false s h
  tested-IsSafe nano_x false s h = flagged-IsSafe false s h
  tested-IsSafe nano_s2 false s h = flagged-IsSafe false s h
  tested-IsSafe stax false s h = init-IsSafe sdk _ (flagged-IsSafe false s h)

  start_app-IsSafe :
      (target : Target) (s : Store) → IsSafe sdk s → IsSafe sdk (start_app target sdk (power_on s))
  unfolding start_app
  start_app-IsSafe target s h = tested-IsSafe target _ _ (
      init_test-IsSafe sdk (power_on s)
        (record { first_own = h.first_own; second_own = h.second_own }))

  with_sig-IsSafe :
      (k : ℕ) (b : Bytes) (set : ℕ) (s : Store)
      → IsSafe sdk s
      → IsSafe sdk (record (put_sig k b s) { signature_set = set })
  with_sig-IsSafe k b set s h =
      put_sig-kept k b s (λ t. IsSafe sdk (record t { signature_set = set }))
        λ _ _. record { first_own = h.first_own; second_own = h.second_own }

  own_in_use : (s : Store) → IsSafe sdk s → IsOwn sdk (in_use s) → IsDerived sdk (in_use s)
  unfolding HasOwnKeys
  own_in_use s h = at s.slot_in_use
    where
      at : (k : ℕ) → IsOwn sdk (slot_at k s) → IsDerived sdk (slot_at k s)
      at zero = h.first_own
      at (suc n) = h.second_own

module _ (p : Platform) (zx : Buffering) where
  open zx use {Buffer, contents}

  -- The power is not lost while a slot is marked and its keys are not yet written.
  abbrev pub StepClosed :
      {log log' : List Approval} {d d' : Device Buffer} → Step p zx log log' d d' → Type 0
  StepClosed (command rx received quiet bytes l e) = Unit
  StepClosed (approve shown l e) = Unit
  StepClosed (confirm shown l e) = Unit
  StepClosed (reject v shown l e) = Unit
  StepClosed (make locked l e) = Unit
  StepClosed (restart apdu b empty l e) = Unit
  StepClosed {d = d} (lose_power cuts apdu b making empty l e) = AllClosed p.sdk cuts d.store

  abbrev pub RunClosed :
      {s : Store} {log : List Approval} {d : Device Buffer} → Run p zx s log d → Type 0
  RunClosed (first apdu b empty) = Unit
  RunClosed (next r st) = RunClosed r × StepClosed st

  command-IsSafe :
      (rx : ℕ) (d : Device Buffer)
      → IsSafe p.sdk d.store
      → IsSafe p.sdk
          (handle_apdu p zx rx (record { device = d; tx = 0; asynch = false })).device.store
  command-IsSafe rx d h = elim (handle_apdu-without_sig p zx rx d 0 false) [
    | inl e ↦ subst (IsSafe p.sdk) (sym e) h
    | inr e ↦
        subst (IsSafe p.sdk) (sym e)
          (with_sig-IsSafe p.sdk d.store.slot_in_use (replicate 512 0) 0 d.store h)
  ]

  approve-IsSafe :
      (d : Device Buffer) → IsSafe p.sdk d.store → IsSafe p.sdk (app_sign p zx d).0.store
  unfolding app_sign reply_signed store_signature
  approve-IsSafe d h =
      sign-cases p.sdk p.sha384 p.rsa_sign (contents d.session.buffer) d.session.parsed.1 _ _
        (λ r. IsSafe p.sdk (reply_signed p zx d r).0.store) (λ e. h)
        λ _ _ sig _ _ _ _. with_sig-IsSafe p.sdk d.store.slot_in_use (take 512 sig) 1 d.store h

  at :
      {d : Device Buffer} (d' : Device Buffer)
      → d' ≡ d
      → IsSafe p.sdk d.store
      → IsSafe p.sdk d'.store
  at d' e = subst (λ (d : Device Buffer). IsSafe p.sdk d.store) (sym e)

  Step-IsSafe :
      (log log' : List Approval) (d d' : Device Buffer) (st : Step p zx log log' d d')
      → HasSeed p.sdk
      → StepClosed st
      → IsSafe p.sdk d.store
      → IsSafe p.sdk d'.store
  unfolding app_reject app_reply_address
  Step-IsSafe log log' d d' (command rx received quiet bytes l e) law c h =
      at d' e (command-IsSafe rx (record d { apdu = received }) h)
  Step-IsSafe log log' d d' (approve shown l e) law c h = at d' e (approve-IsSafe d h)
  Step-IsSafe log log' d d' (confirm shown l e) law c h = at d' e h
  Step-IsSafe log log' d d' (reject v shown l e) law c h = at d' e h
  Step-IsSafe log log' d d' (make locked l e) law c h = at d' e (init-IsSafe p.sdk d.store h)
  Step-IsSafe log log' d d' (restart apdu b empty l e) law c h =
      at d' e (start_app-IsSafe p.sdk p.target d.store h)
  Step-IsSafe log log' d d' (lose_power cuts apdu b making empty l e) law c h = at d' e (
      start_app-IsSafe p.sdk p.target (cut_all p.sdk cuts d.store)
        (cut_all-IsSafe p.sdk cuts d.store law c h))

  Run-IsSafe :
      (s : Store) (log : List Approval) (d : Device Buffer) (r : Run p zx s log d)
      → HasSeed p.sdk
      → RunClosed r
      → IsSafe p.sdk s
      → IsSafe p.sdk d.store
  Run-IsSafe s log d (first apdu b empty) law c h = start_app-IsSafe p.sdk p.target s h
  Run-IsSafe s log d (next {log = before} {d = d₀} r st) law c h =
      Step-IsSafe before log d₀ d st law c.1 (Run-IsSafe s before d₀ r law c.0 h)

  -- In every state that a device comes to in which it is initialized, the slot in use holds the
  -- primes and the key pair that the seed of this device's mnemonic determines, provided that the
  -- power was never lost while a slot was marked as initialized and its keys were not yet written.
  -- The slots of this seed held such keys at the first start, and the seed is not the 32 zeros of a
  -- wiped slot.
  pub Run-IsDerived :
      (s : Store) (log : List Approval) (d : Device Buffer) (r : Run p zx s log d)
      → HasSeed p.sdk
      → RunClosed r
      → IsSafe p.sdk s
      → d.store.device_initialized ≡ true
      → IsOwn p.sdk (in_use d.store) × IsDerived p.sdk (in_use d.store)
  Run-IsDerived s log d r law c h set_up =
      let own = Run-IsOwn p zx s log d r set_up in
      (own, own_in_use p.sdk d.store (Run-IsSafe s log d r law c h) own)
