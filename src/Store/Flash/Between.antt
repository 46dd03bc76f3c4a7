-- ===== src/Store/Flash/Between.antt =====
-- What holds of the flash between the writes of `crypto_store_init`.
use ledger_arweave.Base.{
  ℕ, zero, suc, ◌≡◌, ◌≢◌, ◌≤◌, arith, refl, sym, Bool, true, false, List, [], ◌∷◌, ◌++◌, some,
  Bytes, take, replicate,
}
use ledger_arweave.Store.{
  Sdk, Slot, Store, slot_at, put_slot, seed_of, masterseed_len, primes_of, same_masterseed,
}
use ledger_arweave.Store.Keys.{IsOwn, IsDerived, keyed}
use ledger_arweave.Store.Cases.{wiped, wiped_both}
use ledger_arweave.Store.Init.{IsOwn-same_masterseed, true_not_false}
use ledger_arweave.Store.Flash.{
  Write, Written, write, write_seed, write_pq, write_pub, write_priv, write_initialized, perform,
  initialize_writes, init_writes, cut,
}
use ledger_arweave.Store.Flash.Ways.{wipe_writes, initialize-ways, init-ways}

-- A slot of this device's seed holds the keys that the seed determines.
unfoldable pub HasOwnKeys : Sdk → Slot → Type 0
HasOwnKeys sdk k = IsOwn sdk k → IsDerived sdk k

pub record IsSafe (sdk : Sdk) (s : Store) : Type 0 where
  pub first_own : HasOwnKeys sdk s.first
  pub second_own : HasOwnKeys sdk s.second

-- The seed of this device is not the one of a slot that has been wiped.
abbrev pub HasSeed : Sdk → Type 0
HasSeed sdk =
    (derived : Bytes)
    → sdk.derive_seed ≡ some derived
    → seed_of sdk derived ≢ replicate masterseed_len 0

-- The writes between the mark of the slot and the last part of its keys: `crypto_init_keys` sets
-- `initialized` before it writes the two keys.
abbrev pub leaves_open : Write → Bool
leaves_open (write_seed b) = false
leaves_open (write_pq b) = false
leaves_open (write_pub size b) = true
leaves_open (write_priv b) = false
leaves_open (write_initialized b) = b

-- Whether the last of the writes is one of those; `open` if there are none.
unfoldable pub ends_open : Bool → List Written → Bool
ends_open open_before [] = open_before
ends_open open_before ((i, w) ∷ ws) = ends_open (leaves_open w) ws

-- The property of the store before the writes, and after each.
unfoldable pub Through : (Bool → Store → Type 0) → Bool → List Written → Store → Type 0
Through P b [] s = P b s
Through P b ((i, w) ∷ ws) s =
    P b s × Through P (leaves_open w) ws (put_slot i (write w (slot_at i s)) s)

pub Through-take :
    (P : Bool → Store → Type 0) (b : Bool) (ws : List Written) (s : Store) (n : ℕ)
    → Through P b ws s
    → P (ends_open b (take n ws)) (perform (take n ws) s)
unfolding Through ends_open perform
Through-take P b [] s zero h = h
Through-take P b [] s (suc n) h = h
Through-take P b ((i, w) ∷ ws) s zero h = h.0
Through-take P b ((i, w) ∷ ws) s (suc n) h = Through-take P (leaves_open w) ws _ n h.1

module _ (sdk : Sdk) where
  -- Safe, unless a slot is open.
  abbrev Closed : Bool → Store → Type 0
  Closed b s = b ≡ false → IsSafe sdk s

  pub unmarked : (k : Slot) → k.initialized ≡ false → HasOwnKeys sdk k
  unfolding HasOwnKeys
  unmarked k e o = absurd (true_not_false o.set_up e)

  -- The seed is not this device's.
  abbrev IsForeign : Bytes → Type 0
  IsForeign seed =
      (derived : Bytes) → sdk.derive_seed ≡ some derived → seed ≡ seed_of sdk derived → ⊥

  foreign : (k : Slot) → IsForeign k.master_seed → HasOwnKeys sdk k
  unfolding HasOwnKeys
  foreign k h o = absurd (h o.derived o.derives o.same_seed)

  same_masterseed-IsForeign :
      (k : ℕ) (s : Store)
      → k ≤ 1
      → (slot_at k s).initialized ≡ true
      → same_masterseed sdk k s ≡ false
      → IsForeign (slot_at k s).master_seed
  same_masterseed-IsForeign k s le a b derived d e =
      true_not_false
        (IsOwn-same_masterseed sdk k s le
          (record { set_up = a; derived = derived; derives = d; same_seed = e }))
        b

  blank-IsForeign : HasSeed sdk → IsForeign (replicate masterseed_len 0)
  blank-IsForeign law derived d e = law derived d (sym e)

  pub keyed-HasOwnKeys :
      (seed pq : Bytes) (pair : Bytes × Bytes)
      → primes_of sdk seed ≡ some pq
      → sdk.generate_pair pq ≡ some pair
      → HasOwnKeys sdk (keyed sdk.key_size seed pq pair)
  unfolding HasOwnKeys
  keyed-HasOwnKeys seed pq pair p q h = record { primes = p; pair = q; size = refl }

  safe : {s : Store} → HasOwnKeys sdk s.first → HasOwnKeys sdk s.second → {b : Bool} → Closed b s
  safe a c = λ _. record { first_own = a; second_own = c }

  initialize_first-Through :
      (s : Store)
      → s.first.initialized ≡ false
      → HasOwnKeys sdk s.second
      → Through Closed false (initialize_writes sdk 0 s).0 s
  unfolding Through
  initialize_first-Through s e h =
      initialize-ways sdk 0 s (λ w _. Through Closed false w.0 s) (λ _. start)
        (λ _ _. (start, safe (unmarked _ e) h))
        (λ _ _ _. (start, (safe (unmarked _ e) h, safe (unmarked _ e) h)))
        λ derived pq pair _ p q. (
          start,
          (
            safe (unmarked _ e) h,
            (
              safe (unmarked _ e) h,
              (
                λ o. absurd (true_not_false refl o),
                (λ o. absurd (true_not_false refl o), safe (keyed-HasOwnKeys _ pq pair p q) h),
              ),
            ),
          ),
        )
    where
      start : Closed false s
      start = safe (unmarked s.first e) h

  initialize_second-Through :
      (s : Store)
      → s.second.initialized ≡ false
      → HasOwnKeys sdk s.first
      → Through Closed false (initialize_writes sdk 1 s).0 s
  unfolding Through
  initialize_second-Through s e h =
      initialize-ways sdk 1 s (λ w _. Through Closed false w.0 s) (λ _. start)
        (λ _ _. (start, safe h (unmarked _ e)))
        (λ _ _ _. (start, (safe h (unmarked _ e), safe h (unmarked _ e))))
        λ derived pq pair _ p q. (
          start,
          (
            safe h (unmarked _ e),
            (
              safe h (unmarked _ e),
              (
                λ o. absurd (true_not_false refl o),
                (λ o. absurd (true_not_false refl o), safe h (keyed-HasOwnKeys _ pq pair p q)),
              ),
            ),
          ),
        )
    where
      start : Closed false s
      start = safe h (unmarked s.second e)

  wipe_first-Through :
      (s : Store) (ws : List Written)
      → HasSeed sdk
      → IsForeign s.first.master_seed
      → HasOwnKeys sdk s.second
      → Through Closed false ws (record s { first = wiped s.first })
      → Through Closed false (wipe_writes 0 s.first ++ ws) s
  unfolding Through
  wipe_first-Through s ws law other h rest = (
    safe (foreign _ other) h,
    (
      safe (foreign _ other) h,
      (safe (foreign _ other) h, (safe (foreign _ (blank-IsForeign law)) h, rest)),
    ),
  )

  wipe_second-Through :
      (s : Store) (ws : List Written)
      → HasSeed sdk
      → IsForeign s.second.master_seed
      → HasOwnKeys sdk s.first
      → Through Closed false ws (record s { second = wiped s.second })
      → Through Closed false (wipe_writes 1 s.second ++ ws) s
  unfolding Through
  wipe_second-Through s ws law other h rest = (
    safe h (foreign _ other),
    (
      safe h (foreign _ other),
      (safe h (foreign _ other), (safe h (foreign _ (blank-IsForeign law)), rest)),
    ),
  )

  init-Through :
      (s : Store) → HasSeed sdk → IsSafe sdk s → Through Closed false (init_writes sdk s).0 s
  unfolding Through
  init-Through s law h =
      init-ways sdk s (λ w _. Through Closed false w.0 s)
        (λ a. initialize_first-Through s a h.second_own) (λ _ _ _. h)
        (λ _ _ c. initialize_second-Through s c h.first_own) (λ _ _ _ _ _. h)
        λ a b c d.
          wipe_first-Through s
            (wipe_writes 1 s.second ++ (initialize_writes sdk 0 (wiped_both s)).0) law
            (same_masterseed-IsForeign 0 s (omega arith) a b) h.second_own
            (wipe_second-Through (record s { first = wiped s.first }) _ law
              (same_masterseed-IsForeign 1 s (omega arith) c d) (unmarked _ refl)
              (initialize_first-Through (wiped_both s) refl (unmarked _ refl)))

  pub cut-IsSafe :
      (s : Store) (n : ℕ)
      → HasSeed sdk
      → IsSafe sdk s
      → ends_open false (take n (init_writes sdk s).0) ≡ false
      → IsSafe sdk (cut sdk n s)
  unfolding cut
  cut-IsSafe s n law h = Through-take Closed false (init_writes sdk s).0 s n (init-Through s law h)
