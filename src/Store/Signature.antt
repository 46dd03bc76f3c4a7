-- ===== src/Store/Signature.antt =====
-- The signature that waits in the store, and the two halves in which it is fetched.
use ledger_arweave.Base.{
  ℕ, zero, suc, ◌≡◌, refl, ap, ◌∙◌, false, ◌++◌, Bytes, arith, take, drop, take_all,
  take-append-drop, length, slice, length-drop, replicate,
}
use ledger_arweave.Result.{ok, fail, zxerr_invalid_crypto_settings}
use ledger_arweave.Store.{Store, sig_at, put_sig, store_signature, signature_part, is_sig_set}

pub sig_at-put_sig : (k : ℕ) (b : Bytes) (s : Store) → sig_at k (put_sig k b s) ≡ b
sig_at-put_sig zero b s = refl
sig_at-put_sig (suc n) b s = refl

-- What the calls of `crypto_signature_part` give for the indices 0 and 1, in this order.
pub record Fetched (sig : Bytes) (s : Store) : Type 0 where
  pub front : Bytes
  pub back : Bytes
  pub after : Store
  pub first : signature_part 0 s ≡ ok (front, s)
  pub second : signature_part 1 s ≡ ok (back, after)
  pub whole : front ++ back ≡ sig
  pub no_more : (index : ℕ) → signature_part index after ≡ fail zxerr_invalid_crypto_settings after
  pub unset : is_sig_set after ≡ false

halves :
    (sig : Bytes) → length sig ≡ 512 → take 256 (take 512 sig) ++ slice (take 512 sig) 256 256 ≡ sig
halves sig h =
    ap (λ (b : Bytes). take 256 b ++ slice b 256 256) (take_all 512 sig (omega arith))
    ∙ ap (λ (b : Bytes). take 256 sig ++ b)
        (take_all 256 (drop 256 sig) (omega (arith, length-drop 256 sig)))
    ∙ take-append-drop 256 sig

signature_part-Fetched :
    (k : ℕ) (sig : Bytes) (s : Store)
    → length sig ≡ 512
    → Fetched sig
        (record (put_sig k (take 512 sig) (record s { slot_in_use = k })) { signature_set = 1 })
unfolding signature_part is_sig_set
signature_part-Fetched zero sig s h = record {
  front = take 256 (take 512 sig);
  back = slice (take 512 sig) 256 256;
  after = record s { slot_in_use = 0; first_sig = replicate 512 0; signature_set = 0 };
  first = refl;
  second = refl;
  whole = halves sig h;
  no_more = λ index. refl;
  unset = refl;
}
signature_part-Fetched (suc n) sig s h = record {
  front = take 256 (take 512 sig);
  back = slice (take 512 sig) 256 256;
  after = record s { slot_in_use = suc n; second_sig = replicate 512 0; signature_set = 0 };
  first = refl;
  second = refl;
  whole = halves sig h;
  no_more = λ index. refl;
  unset = refl;
}

-- A stored signature of 512 bytes is fetched by the calls for the indices 0 and 1, whose halves make
-- it up again; after them no signature is left, and every further call is refused.
pub store_signature-Fetched :
    (sig : Bytes) (s : Store) → length sig ≡ 512 → Fetched sig (store_signature sig s)
unfolding store_signature
store_signature-Fetched sig s h = signature_part-Fetched s.slot_in_use sig s h
