-- ===== src/Apdu/Fetch.antt =====
-- A signature fetched by two commands.
use ledger_arweave.Base.{
  ℕ, zero, suc, ◌≤◌, ◌≡◌, refl, ap, false, ◌==◌, [], ◌∷◌, none, Bytes, get_or, set, take, arith,
}
use ledger_arweave.Result.{Result}
use ledger_arweave.Store.{Store}
use ledger_arweave.Buffering.{Buffering}
use ledger_arweave.Platform.{Platform}
use ledger_arweave.Apdu.{Device, Reply, handle_apdu}
use ledger_arweave.Apdu.Upload.{Command, received_by}

-- The PIN has been entered, the code of the command is told apart, and the buffer holds a half.
pub record TakesGetSig (p : Platform) : Type 0 where
  pub pin : p.pin_missing ≡ none
  pub not_version : (0x10 == p.ins_get_version) ≡ false
  pub not_addr : (0x10 == p.ins_get_addr) ≡ false
  pub not_sign : (0x10 == p.ins_sign) ≡ false
  pub room : 259 ≤ p.io_apdu_buffer_size

-- A command for the half of an index.
pub record IsGetSig (p : Platform) (index : ℕ) (c : Command) : Type 0 where
  pub cla : get_or c.received p.at.cla 0 ≡ 0x44
  pub ins : get_or c.received p.at.ins 0 ≡ 0x10
  pub data_len : get_or c.received p.at.data_len 0 ≡ 0
  pub p2 : get_or c.received p.at.p2 0 ≡ index
  pub whole : p.apdu_min_length ≤ c.rx

pub take-set : (n i : ℕ) (xs : Bytes) (v : ℕ) → n ≤ i → take n (set xs i v) ≡ take n xs
take-set zero i xs v h = refl
take-set (suc n) i [] v h = refl
take-set (suc n) zero (x ∷ xs) v h = absurd (omega arith)
take-set (suc n) (suc i) (x ∷ xs) v h = ap (λ (b : Bytes). x ∷ b) (take-set n i xs v (omega arith))

module _ (p : Platform) (zx : Buffering) where
  open zx use {Buffer}

  abbrev pub after : Command → Device Buffer → Reply (Device Buffer)
  after c d = handle_apdu p zx c.rx (received_by p zx c d)

  module _ (ready : TakesGetSig p) where
    -- What the answer to a command for a half is.
    record Half (d : Device Buffer) (half : Bytes) (t : Store) (r : Reply (Device Buffer))
        : Type 0 where
      text : take 256 r.device.apdu ≡ half
      len : r.tx ≡ 258
      at_once : r.asynch ≡ false
      stored : r.device.store ≡ t
