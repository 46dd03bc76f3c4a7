-- ===== src/Session/Parse.antt =====
-- What the NULL of `tx_parse` says of the message.
use ledger_arweave.Base.{
  inl, inr, ℕ, ◌<◌, ◌≡◌, refl, subst, true, none, some, Bytes, IsByte, All, arith, length,
  length-take, length-drop, drop,
}
use ledger_arweave.Status
use ledger_arweave.Status.{Step, Step-cases, get_error_description}
use ledger_arweave.Parser.{Context, Tx, parse}
use ledger_arweave.Parser.Layout.{view}
use ledger_arweave.Parser.RoundTrip.{IsSound, parse-IsSound}
use ledger_arweave.Parser.Room.{HasRoom, parse-HasRoom}
use ledger_arweave.Parser.Range.{IsTyped}
use ledger_arweave.Parser.Typed.{parse-IsTyped}
use ledger_arweave.Store.{Store, in_use, is_initialized}
use ledger_arweave.Display.{Ui, validate}
use ledger_arweave.Display.Validate.{validate-owner}
use ledger_arweave.Buffering.{Buffering}
use ledger_arweave.Session.{Session, tx_parse, tx_get_buffer, report_parsing, report_validation}

-- A transaction that may be shown: it is one that the message begins with, its owner is the public
-- key of the slot in use, and `parser_validate` has accepted it.
pub record IsReviewed (ui : Ui) (store : Store) (memory : Bytes) (p : Context × Tx) : Type 0 where
  pub sound : IsSound memory (length memory) p
  pub set_up : is_initialized store ≡ true
  pub own : (view memory p.1).owner ≡ (in_use store).rsa_pub
  pub items : ℕ
  pub valid : validate ui store memory p.1 ≡ Status.ok items

-- A received message: bytes, fewer than 2 ^ 16, with the tag array of the object in place.
pub record IsMessage (memory : Bytes) (p : Context × Tx) : Type 0 where
  pub bytes : All IsByte memory
  pub small : length memory < 65536
  pub room : HasRoom p

owner_len :
    (memory : Bytes) (p : Context × Tx) → IsSound memory (length memory) p → p.1.owner.len ≡ 512
owner_len memory p h = omega (
  arith,
  h.supported.modulus,
  h.bounds.owner_in,
  length-take p.1.owner.len (drop p.1.owner.ptr memory),
  length-drop p.1.owner.ptr memory,
)

parsed-IsReviewed :
    (ui : Ui) (store : Store) (memory : Bytes) (p q : Context × Tx) (n : ℕ)
    → IsMessage memory p
    → length (in_use store).rsa_pub ≡ 512
    → parse p (some memory) (length memory) ≡ Status.ok q
    → validate ui store memory q.1 ≡ Status.ok n
    → IsReviewed ui store memory q
parsed-IsReviewed ui store memory p q n m len e v =
    let sound =
      parse-IsSound p memory (length memory) q
        (record { readable = omega arith; small = m.small; bytes = m.bytes }) m.room e in
    let owner = validate-owner ui store memory q.1 n v (owner_len memory q sound) len in
    record { sound = sound; set_up = owner.0; own = owner.1; items = n; valid = v }

module _ (zx : Buffering) where
  open zx use {Buffer, contents}

  -- When `tx_parse` returns NULL, the message begins with the encoding of a supported transaction,
  -- the one that the object means; its owner is the public key of the slot in use, which is
  -- initialized; and `parser_validate` accepts it. The modulus in the slot has 512 bytes.
  pub tx_parse-IsReviewed :
      (ui : Ui) (store : Store) (s : Session Buffer)
      → IsMessage (contents s.buffer) s.parsed
      → length (in_use store).rsa_pub ≡ 512
      → (tx_parse zx ui store s).0 ≡ none
      → IsReviewed ui store (contents s.buffer) (tx_parse zx ui store s).1.parsed
  unfolding tx_parse tx_get_buffer report_parsing report_validation
  tx_parse-IsReviewed ui store s m len =
      elim (Step-cases (parse s.parsed (some (contents s.buffer)) (length (contents s.buffer)))) [
        | inr f ↦ rw f.2 λ h. absurd (cc)
        | inl q ↦ rw q.1 (elim (Step-cases (validate ui store (contents s.buffer) q.0.1)) [
          | inr f ↦ rw f.2 λ h. absurd (cc)
          | inl n ↦
              rw n.1
                λ h. parsed-IsReviewed ui store (contents s.buffer) s.parsed q.0 n.0 m len q.1 n.1
        ])
      ]

  -- The object of the parser keeps its tag array, and the buffer is left alone.
  pub tx_parse-HasRoom :
      (ui : Ui) (store : Store) (s : Session Buffer)
      → HasRoom s.parsed
      → HasRoom (tx_parse zx ui store s).1.parsed × ((tx_parse zx ui store s).1.buffer ≡ s.buffer)
  unfolding tx_parse tx_get_buffer report_parsing
  tx_parse-HasRoom ui store s h =
      elim (Step-cases (parse s.parsed (some (contents s.buffer)) (length (contents s.buffer)))) [
        | inr f ↦
            rw f.2 (subst (λ (m : Step (Context × Tx)). HasRoom (Status.final m)) f.2 kept, refl)
        | inl q ↦
            rw q.1 (subst (λ (m : Step (Context × Tx)). HasRoom (Status.final m)) q.1 kept, refl)
      ]
    where
      kept :
          HasRoom
            (Status.final (parse s.parsed (some (contents s.buffer)) (length (contents s.buffer))))
      kept = parse-HasRoom s.parsed (some (contents s.buffer)) (length (contents s.buffer)) h

  -- The numbers of the parser stay within their C types, and its cursor in the message.
  pub tx_parse-IsTyped :
      (ui : Ui) (store : Store) (s : Session Buffer)
      → IsTyped s.parsed
      → IsTyped (tx_parse zx ui store s).1.parsed
  unfolding tx_parse tx_get_buffer report_parsing
  tx_parse-IsTyped ui store s h =
      elim (Step-cases (parse s.parsed (some (contents s.buffer)) (length (contents s.buffer)))) [
        | inr f ↦ rw f.2 (subst (λ (m : Step (Context × Tx)). IsTyped (Status.final m)) f.2 kept)
        | inl q ↦ rw q.1 (subst (λ (m : Step (Context × Tx)). IsTyped (Status.final m)) q.1 kept)
      ]
    where
      kept :
          IsTyped
            (Status.final (parse s.parsed (some (contents s.buffer)) (length (contents s.buffer))))
      kept = parse-IsTyped s.parsed (contents s.buffer) (length (contents s.buffer)) (omega arith) h
