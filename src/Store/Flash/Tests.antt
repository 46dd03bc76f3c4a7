-- ===== src/Store/Flash/Tests.antt =====
-- The theorems on the writes to the flash at concrete stores.
use ledger_arweave.Base.{
  ◌≡◌, ◌≢◌, refl, true, false, some, take, replicate, Bytes, [], ◌∷◌, ℕ, ap, ◌∙◌, arith, ◌++◌,
  Option,
}
use ledger_arweave.Result.{ok}
use ledger_arweave.Store.{
  Sdk, Store, in_use, init, power_on, slot_is_initialized, same_masterseed, primes_of, derive_prime,
  prime_blocks,
}
use ledger_arweave.Store.Keys.{IsOwn, IsDerived}
use ledger_arweave.Store.Tests.{sdk, fresh, padded, padded-Works, both_taken}
use ledger_arweave.Store.Flash.{
  init_writes, initialize_writes, seed_writes, primes_writes, keys_writes, and_writes, perform, cut,
}
use ledger_arweave.Store.Flash.Between.{HasOwnKeys, IsSafe, HasSeed, ends_open}
use ledger_arweave.Store.Flash.Recovery.{cut-IsDerived}
use ledger_arweave.Store.Flash.Torn.{Accepts, HandsOut, cut-HandsOut, cut_wipe-HandsOut}

fresh-IsSafe : (sdk : Sdk) → IsSafe sdk fresh
unfolding HasOwnKeys
fresh-IsSafe sdk = record {
  first_own = λ o. absurd (unset o.set_up);
  second_own = λ o. absurd (unset o.set_up);
}
  where
    unset : false ≡ true → ⊥
    unset e = cc

pub fours_not_zeros : replicate {A = ℕ} 32 4 ≢ replicate 32 0
fours_not_zeros e = zero_not_four (ap first_byte e)
  where
    first_byte : Bytes → ℕ
    first_byte [] = 0
    first_byte (x ∷ xs) = x

    zero_not_four : ◌≡◌ {A = ℕ} 4 0 → ⊥
    zero_not_four e = omega (arith, e)

padded-HasSeed : HasSeed padded
unfolding padded
padded-HasSeed derived e z = fours_not_zeros (ap (take 32) (some_inj e) ∙ z)
  where
    some_inj : {x y : Bytes} → ◌≡◌ {A = Option Bytes} (some x) (some y) → x ≡ y
    some_inj e = cc

after_primes : ends_open false (take 2 (init_writes padded fresh).0) ≡ false
unfolding padded init_writes initialize_writes seed_writes primes_writes keys_writes and_writes
    perform slot_is_initialized ends_open primes_of derive_prime prime_blocks
after_primes = refl

cut-IsDerived_example :
    (s : Store) × (init padded (power_on (cut padded 2 fresh)) ≡ ok s)
    × IsOwn padded (in_use s)
    × IsDerived padded (in_use s)
cut-IsDerived_example =
    cut-IsDerived padded fresh 2 padded-Works padded-HasSeed (fresh-IsSafe padded) after_primes

-- A device whose keys are written out.
abbrev plain : Sdk
plain = record {
  derive_seed = some (replicate 64 4);
  sha256 = λ b. some (replicate 32 6);
  next_prime = λ b. some b;
  generate_pair = λ pq. some (7 ∷ pq, 8 ∷ pq);
  key_size = 512;
}

abbrev plain_prime : Bytes
plain_prime = 0x86 ∷ replicate 255 6

plain-primes_of : primes_of plain (replicate 32 4) ≡ some (plain_prime ++ plain_prime)
unfolding primes_of derive_prime prime_blocks
plain-primes_of = refl

cut-HandsOut_example :
    Accepts plain (cut plain 3 fresh)
    × HandsOut [] [] (cut plain 3 fresh)
    × Accepts plain (cut plain 4 fresh)
    × HandsOut (7 ∷ plain_prime ++ plain_prime) [] (cut plain 4 fresh)
cut-HandsOut_example =
    cut-HandsOut plain fresh (replicate 64 4) (plain_prime ++ plain_prime)
      (7 ∷ plain_prime ++ plain_prime, 8 ∷ plain_prime ++ plain_prime) refl refl plain-primes_of
      refl

-- The device with the seed of the slots that are in use.
abbrev of_nines : Sdk
of_nines = record plain { derive_seed = some (replicate 64 9) }

not_first : same_masterseed plain 0 both_taken ≡ false
unfolding same_masterseed
not_first = refl

not_second : same_masterseed plain 1 both_taken ≡ false
unfolding same_masterseed
not_second = refl

cut_wipe-HandsOut_example :
    Accepts of_nines (cut plain 2 both_taken)
    × HandsOut (2 ∷ []) (replicate 1 0) (cut plain 2 both_taken)
cut_wipe-HandsOut_example =
    cut_wipe-HandsOut plain of_nines both_taken (replicate 64 9) refl not_first refl not_second refl
      refl
