-- ===== src/App/Keys.antt =====
-- What the start of the app leaves in the store.
use ledger_arweave.Base.{
  ℕ, zero, suc, ◌≡◌, refl, Bool, true, false, List, [], ◌∷◌, some, Bytes, length, on_test, on_not,
}
use ledger_arweave.Result.{final}
use ledger_arweave.Store.{
  Sdk, Store, power_on, in_use, slot_at, init, init_test, initialize_slot, slot_is_initialized,
  same_masterseed,
}
use ledger_arweave.Store.Keys.{initialize_slot-cases}
use ledger_arweave.Store.Cases.{wiped_both, init-cases}
use ledger_arweave.Store.Flash.{initialize_writes, init_writes, cut, cut_all}
use ledger_arweave.Store.Flash.Ways.{initialize-ways, init-ways}
use ledger_arweave.Store.Flash.Between.{Through, Through-take}
use ledger_arweave.Session.{Target, nano_s, nano_x, nano_s2, stax}
use ledger_arweave.App.{start_app, tested}

-- Each slot has room for a modulus of 4096 bits, whatever is written in it.
abbrev pub HasModuli : Store → Type 0
HasModuli s = (length s.first.rsa_pub ≡ 512) × (length s.second.rsa_pub ≡ 512)

-- The key pairs of the SDK have moduli of 4096 bits.
abbrev pub Makes4096 : Sdk → Type 0
Makes4096 sdk =
    (pq : Bytes) (pair : Bytes × Bytes) → sdk.generate_pair pq ≡ some pair → length pair.0 ≡ 512

pub in_use-HasModuli : (s : Store) → HasModuli s → length (in_use s).rsa_pub ≡ 512
in_use-HasModuli s h = at s.slot_in_use
  where
    at : (k : ℕ) → length (slot_at k s).rsa_pub ≡ 512
    at zero = h.0
    at (suc n) = h.1

-- Moduli in place, and no signature.
abbrev pub Unsigned : Store → Type 0
Unsigned s = HasModuli s × (s.signature_set ≡ 0)

module _ (sdk : Sdk) (law : Makes4096 sdk) where
  initialize_slot-Unsigned :
      (k : ℕ) (s : Store)
      → Unsigned s
      → Unsigned (final (initialize_slot sdk (record s { slot_in_use = k })))
  initialize_slot-Unsigned zero s h =
      initialize_slot-cases sdk 0 s (λ r. Unsigned (final r)) (λ _. h) (λ _ _ _ _. h)
        λ _ pq pair _ _ e. ((law pq pair e, h.0.1), h.1)
  initialize_slot-Unsigned (suc n) s h =
      initialize_slot-cases sdk (suc n) s (λ r. Unsigned (final r)) (λ _. h) (λ _ _ _ _. h)
        λ _ pq pair _ _ e. ((h.0.0, law pq pair e), h.1)

  pub init-Unsigned : (s : Store) → Unsigned s → Unsigned (final (init sdk s))
  init-Unsigned s h =
      init-cases sdk s (λ r. Unsigned (final r)) (λ _. initialize_slot-Unsigned 0 s h) (λ _ _. h)
        (λ _ _ _. initialize_slot-Unsigned 1 s h) (λ _ _ _ _. h)
        λ _ _ _ _. initialize_slot-Unsigned 0 (wiped_both s) h

  initialize_writes-HasModuli :
      (k : ℕ) (s : Store)
      → HasModuli s
      → Through (λ _. HasModuli) false (initialize_writes sdk k s).0 s
  unfolding Through
  initialize_writes-HasModuli zero s h =
      initialize-ways sdk 0 s (λ w _. Through (λ _. HasModuli) false w.0 s) (λ _. h) (λ _ _. (h, h))
        (λ _ _ _. (h, (h, h)))
        λ _ pq pair _ _ e. (h, (h, (h, (h, ((law pq pair e, h.1), (law pq pair e, h.1))))))
  initialize_writes-HasModuli (suc n) s h =
      initialize-ways sdk (suc n) s (λ w _. Through (λ _. HasModuli) false w.0 s) (λ _. h)
        (λ _ _. (h, h)) (λ _ _ _. (h, (h, h)))
        λ _ pq pair _ _ e. (h, (h, (h, (h, ((h.0, law pq pair e), (h.0, law pq pair e))))))

  init_writes-HasModuli :
      (s : Store) → HasModuli s → Through (λ _. HasModuli) false (init_writes sdk s).0 s
  unfolding Through
  init_writes-HasModuli s h =
      init-ways sdk s (λ w _. Through (λ _. HasModuli) false w.0 s)
        (λ _. initialize_writes-HasModuli 0 s h) (λ _ _. h)
        (λ _ _ _. initialize_writes-HasModuli 1 s h) (λ _ _ _ _. h)
        λ _ _ _ _.
          (h, (h, (h, (h, (h, (h, (h, (h, initialize_writes-HasModuli 0 (wiped_both s) h))))))))

  pub cut_all-HasModuli : (ns : List ℕ) (s : Store) → HasModuli s → HasModuli (cut_all sdk ns s)
  unfolding cut
  cut_all-HasModuli [] s h = h
  cut_all-HasModuli (n ∷ ns) s h =
      cut_all-HasModuli ns (cut sdk n s)
        (Through-take (λ _. HasModuli) false (init_writes sdk s).0 s n (init_writes-HasModuli s h))

  init_test-Unsigned : (s : Store) → Unsigned s → Unsigned (init_test sdk s).1
  unfolding init_test
  init_test-Unsigned s h =
      on_not Goal _ _ (slot_is_initialized 0 s) (λ _. h)
        λ _.
          on_test Goal _ _ (same_masterseed sdk 0 s) (λ _. h)
            λ _.
              on_not Goal _ _ (slot_is_initialized 1 s) (λ _. h)
                λ _. on_test Goal _ _ (same_masterseed sdk 1 s) (λ _. h) λ _. h
    where
      Goal : Bool × Store → Type 0
      Goal r = Unsigned r.1

  tested-Unsigned :
      (target : Target) (b : Bool) (s : Store) → Unsigned s → Unsigned (tested target sdk b s)
  tested-Unsigned target true s h = h
  tested-Unsigned nano_s false s h = h
  tested-Unsigned nano_x false s h = h
  tested-Unsigned nano_s2 false s h = h
  tested-Unsigned stax false s h = init-Unsigned _ h

  pub start_app-Unsigned :
      (target : Target) (s : Store) → HasModuli s → Unsigned (start_app target sdk (power_on s))
  unfolding start_app
  start_app-Unsigned target s h =
      tested-Unsigned target _ _ (init_test-Unsigned (power_on s) (h, refl))
