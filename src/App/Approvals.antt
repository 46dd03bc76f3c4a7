-- ===== src/App/Approvals.antt =====
-- What a stored signature rests on.
use mathlib.Core.List.{Mem, mem-cons_self, mem-cons_of_mem}
use ledger_arweave.Base.{ℕ, zero, suc, ◌≡◌, refl, List, ◌∷◌, some, Bytes, take}
use ledger_arweave.Parser.Layout.{Transaction, IsSupported}
use ledger_arweave.DeepHash.Tree.{deep_hash, transaction_tree}
use ledger_arweave.Store.{Store, slot_at, in_use, sig_at, store_signature, put_sig}
use ledger_arweave.Crypto.Sign.{IsSmall}
use ledger_arweave.Platform.{Platform}
use ledger_arweave.App.{Approval}

-- The signature in the store is one of an approved transaction: it has been made from the
-- SHA-256 hash of the deep hash of the transaction (from 32 zeros where the SDK could not hash), under
-- the private key of the slot in use, and the owner of the transaction is the public key of that slot.
pub record Authentic (p : Platform) (log : List Approval) (s : Store) : Type 0 where
  pub approval : Approval
  pub listed : Mem approval log
  pub supported : IsSupported approval.transaction
  pub own : approval.transaction.owner ≡ (in_use s).rsa_pub
  pub same_pub : approval.rsa_pub ≡ (in_use s).rsa_pub
  pub same_priv : approval.rsa_priv ≡ (in_use s).rsa_priv
  pub digest : Bytes
  pub hashed : deep_hash p.sha384 (transaction_tree approval.transaction) ≡ some digest
  pub small : Bytes
  pub small_of : IsSmall p.sdk (take 48 digest) small
  pub sig : Bytes
  pub signed : p.rsa_sign (in_use s).rsa_priv small ≡ some sig
  pub stored : sig_at s.slot_in_use s ≡ take 512 sig

pub Authentic-cons :
    (p : Platform) (log : List Approval) (a : Approval) (s : Store)
    → Authentic p log s
    → Authentic p (a ∷ log) s
Authentic-cons p log a s h = record {
  approval = h.approval;
  listed = mem-cons_of_mem a h.listed;
  supported = h.supported;
  own = h.own;
  same_pub = h.same_pub;
  same_priv = h.same_priv;
  digest = h.digest;
  hashed = h.hashed;
  small = h.small;
  small_of = h.small_of;
  sig = h.sig;
  signed = h.signed;
  stored = h.stored;
}

-- The keys of the store do not depend on its signatures.
pub put_sig-kept :
    (k : ℕ) (b : Bytes) (s : Store) (R : Store → Type 0)
    → ((first_sig second_sig : Bytes)
        → R (record s { first_sig = first_sig; second_sig = second_sig }))
    → R (put_sig k b s)
put_sig-kept zero b s R h = h b s.second_sig
put_sig-kept (suc n) b s R h = h s.first_sig b

-- The store with a new signature in the slot `k`.
abbrev signed_at : ℕ → Bytes → Store → Store
signed_at k sig s = record (put_sig k (take 512 sig) (record s { slot_in_use = k })) {
  signature_set = 1;
}

signed_at-Authentic :
    (p : Platform) (log : List Approval) (k : ℕ) (s : Store) (t : Transaction)
    (digest small sig : Bytes)
    → IsSupported t
    → t.owner ≡ (slot_at k s).rsa_pub
    → deep_hash p.sha384 (transaction_tree t) ≡ some digest
    → IsSmall p.sdk (take 48 digest) small
    → p.rsa_sign (slot_at k s).rsa_priv small ≡ some sig
    → Authentic p
        (record {
          transaction = t;
          rsa_pub = (slot_at k s).rsa_pub;
          rsa_priv = (slot_at k s).rsa_priv;
        }
          ∷ log)
        (signed_at k sig s)
signed_at-Authentic p log zero s t digest small sig supported own hashed small_of signed = record {
  approval = record { transaction = t; rsa_pub = s.first.rsa_pub; rsa_priv = s.first.rsa_priv };
  listed = mem-cons_self;
  supported = supported;
  own = own;
  same_pub = refl;
  same_priv = refl;
  digest = digest;
  hashed = hashed;
  small = small;
  small_of = small_of;
  sig = sig;
  signed = signed;
  stored = refl;
}
signed_at-Authentic p log (suc n) s t digest small sig supported own hashed small_of signed =
    record {
      approval = record {
        transaction = t;
        rsa_pub = s.second.rsa_pub;
        rsa_priv = s.second.rsa_priv;
      };
      listed = mem-cons_self;
      supported = supported;
      own = own;
      same_pub = refl;
      same_priv = refl;
      digest = digest;
      hashed = hashed;
      small = small;
      small_of = small_of;
      sig = sig;
      signed = signed;
      stored = refl;
    }

-- Storing the signature of a transaction that has just been approved.
pub store_signature-Authentic :
    (p : Platform) (log : List Approval) (s : Store) (t : Transaction) (digest small sig : Bytes)
    → IsSupported t
    → t.owner ≡ (in_use s).rsa_pub
    → deep_hash p.sha384 (transaction_tree t) ≡ some digest
    → IsSmall p.sdk (take 48 digest) small
    → p.rsa_sign (in_use s).rsa_priv small ≡ some sig
    → Authentic p
        (record { transaction = t; rsa_pub = (in_use s).rsa_pub; rsa_priv = (in_use s).rsa_priv }
          ∷ log)
        (store_signature sig s)
unfolding store_signature
store_signature-Authentic p log s = signed_at-Authentic p log s.slot_in_use s
