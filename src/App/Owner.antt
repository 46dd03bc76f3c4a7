-- ===== src/App/Owner.antt =====
-- The seed in use is this device's.
use ledger_arweave.Base.{
  ℕ, zero, suc, ◌≡◌, refl, sym, subst, Bool, true, false, inl, inr, List, Bytes, take, replicate,
}
use ledger_arweave.Result.{final}
use ledger_arweave.Store.{
  Sdk, Store, power_on, in_use, slot_at, put_sig, store_signature, init, init_test, initialize_slot,
}
use ledger_arweave.Store.Keys.{IsOwn, initialize_slot-cases}
use ledger_arweave.Store.Cases.{init-cases, wiped_both}
use ledger_arweave.Store.Init.{keyed-IsOwn, init_test-IsOwn, true_not_false}
use ledger_arweave.Store.Flash.{cut_all}
use ledger_arweave.Crypto.Sign.{sign-cases}
use ledger_arweave.Buffering.{Buffering}
use ledger_arweave.Platform.{Platform}
use ledger_arweave.Session.{Target, nano_s, nano_x, nano_s2, stax}
use ledger_arweave.Apdu.{Device, handle_apdu}
use ledger_arweave.Apdu.Kept.{handle_apdu-without_sig}
use ledger_arweave.Actions.{app_sign, reply_signed, app_reject, app_reply_address}
use ledger_arweave.App.{
  Approval, Step, Run, command, approve, confirm, reject, make, restart, lose_power, first, next,
  start_app, tested, make_keys,
}

-- Whoever finds the device initialized finds its seed in the slot in use, which is marked.
abbrev pub Owned : Sdk → Store → Type 0
Owned sdk s = s.device_initialized ≡ true → IsOwn sdk (in_use s)

module _ (sdk : Sdk) where
  initialize_slot-Owned :
      (k : ℕ) (s : Store)
      → s.device_initialized ≡ false
      → Owned sdk (final (initialize_slot sdk (record s { slot_in_use = k })))
  initialize_slot-Owned zero s e =
      initialize_slot-cases sdk 0 s (λ r. Owned sdk (final r)) (λ _ t. absurd (true_not_false t e))
        (λ _ _ _ _ t. absurd (true_not_false t e))
        λ derived pq pair d _ _ _. keyed-IsOwn sdk derived pq pair d
  initialize_slot-Owned (suc n) s e =
      initialize_slot-cases sdk (suc n) s (λ r. Owned sdk (final r))
        (λ _ t. absurd (true_not_false t e)) (λ _ _ _ _ t. absurd (true_not_false t e))
        λ derived pq pair d _ _ _. keyed-IsOwn sdk derived pq pair d

  init-Owned : (s : Store) → s.device_initialized ≡ false → Owned sdk (final (init sdk s))
  init-Owned s e =
      init-cases sdk s (λ r. Owned sdk (final r)) (λ _. initialize_slot-Owned 0 s e)
        (λ _ _ t. absurd (true_not_false t e)) (λ _ _ _. initialize_slot-Owned 1 s e)
        (λ _ _ _ _ t. absurd (true_not_false t e))
        λ _ _ _ _. initialize_slot-Owned 0 (wiped_both s) e

  make_keys-Owned :
      (target : Target) (s : Store)
      → s.device_initialized ≡ false
      → Owned sdk (make_keys target sdk s)
  make_keys-Owned nano_s s e = λ t. absurd (true_not_false t e)
  make_keys-Owned nano_x s e = λ t. absurd (true_not_false t e)
  make_keys-Owned nano_s2 s e = λ t. absurd (true_not_false t e)
  make_keys-Owned stax s e = init-Owned s e

  flagged :
      (k : ℕ) (b : Bool) (s : Store) → slot_at k (record s { device_initialized = b }) ≡ slot_at k s
  flagged zero b s = refl
  flagged (suc n) b s = refl

  tested-Owned :
      (target : Target) (s : Store) (r : Bool × Store)
      → init_test sdk s ≡ r
      → Owned sdk (tested target sdk r.0 r.1)
  tested-Owned target s (true, s') e =
      λ _. subst (IsOwn sdk) (sym (flagged s'.slot_in_use true s')) (init_test-IsOwn sdk s s' e).0
  tested-Owned target s (false, s') e =
      make_keys-Owned target (record s' { device_initialized = false }) refl

  start_app-Owned : (target : Target) (s : Store) → Owned sdk (start_app target sdk s)
  unfolding start_app
  start_app-Owned target s = tested-Owned target s (init_test sdk s) refl

  with_sig-Owned :
      (k : ℕ) (b : Bytes) (set : ℕ) (s : Store)
      → Owned sdk (record s { slot_in_use = k })
      → Owned sdk (record (put_sig k b (record s { slot_in_use = k })) { signature_set = set })
  with_sig-Owned zero b set s h = h
  with_sig-Owned (suc n) b set s h = h

module _ (p : Platform) (zx : Buffering) where
  open zx use {Buffer, contents}

  command-Owned :
      (rx : ℕ) (d : Device Buffer)
      → Owned p.sdk d.store
      → Owned p.sdk
          (handle_apdu p zx rx (record { device = d; tx = 0; asynch = false })).device.store
  command-Owned rx d h = elim (handle_apdu-without_sig p zx rx d 0 false) [
    | inl e ↦ subst (Owned p.sdk) (sym e) h
    | inr e ↦
        subst (Owned p.sdk) (sym e)
          (with_sig-Owned p.sdk d.store.slot_in_use (replicate 512 0) 0 d.store h)
  ]

  approve-Owned : (d : Device Buffer) → Owned p.sdk d.store → Owned p.sdk (app_sign p zx d).0.store
  unfolding app_sign reply_signed store_signature
  approve-Owned d h =
      sign-cases p.sdk p.sha384 p.rsa_sign (contents d.session.buffer) d.session.parsed.1 _ _
        (λ r. Owned p.sdk (reply_signed p zx d r).0.store) (λ e. h)
        λ _ _ sig _ _ _ _. with_sig-Owned p.sdk d.store.slot_in_use (take 512 sig) 1 d.store h

  at :
      {d : Device Buffer} (d' : Device Buffer) → d' ≡ d → Owned p.sdk d.store → Owned p.sdk d'.store
  at d' e = subst (λ (d : Device Buffer). Owned p.sdk d.store) (sym e)

  Step-Owned :
      (log log' : List Approval) (d d' : Device Buffer)
      → Owned p.sdk d.store
      → Step p zx log log' d d'
      → Owned p.sdk d'.store
  unfolding app_reject app_reply_address
  Step-Owned log log' d d' h (command rx received quiet bytes l e) =
      at d' e (command-Owned rx (record d { apdu = received }) h)
  Step-Owned log log' d d' h (approve shown l e) = at d' e (approve-Owned d h)
  Step-Owned log log' d d' h (confirm shown l e) = at d' e h
  Step-Owned log log' d d' h (reject v shown l e) = at d' e h
  Step-Owned log log' d d' h (make locked l e) = at d' e (init-Owned p.sdk d.store locked)
  Step-Owned log log' d d' h (restart apdu b empty l e) =
      at d' e (start_app-Owned p.sdk p.target (power_on d.store))
  Step-Owned log log' d d' h (lose_power cuts apdu b making empty l e) =
      at d' e (start_app-Owned p.sdk p.target (power_on (cut_all p.sdk cuts d.store)))

  -- In every state that a device comes to in which it takes commands, that is in which it is
  -- initialized, the slot in use is marked as initialized and holds the seed of this device's
  -- mnemonic, whatever the flash held at the first start.
  pub Run-IsOwn :
      (s : Store) (log : List Approval) (d : Device Buffer)
      → Run p zx s log d
      → d.store.device_initialized ≡ true
      → IsOwn p.sdk (in_use d.store)
  Run-IsOwn s log d (first apdu b empty) = start_app-Owned p.sdk p.target (power_on s)
  Run-IsOwn s log d (next {log = before} {d = d₀} r st) =
      Step-Owned before log d₀ d (Run-IsOwn s before d₀ r) st
