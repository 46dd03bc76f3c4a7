-- ===== src/App/Invariant.antt =====
-- What holds in every state that a device comes to.
use ledger_arweave.Base.{
  ◌+◌, ◌<◌, ◌≡◌, ◌≢◌, refl, sym, subst, false, List, Option, none, some, Bytes, IsByte, All,
  All-take, All-drop, arith,
}
use ledger_arweave.Parser.Room.{HasRoom}
use ledger_arweave.Store.{Store}
use ledger_arweave.Buffering.{Buffering}
use ledger_arweave.Platform.{Platform}
use ledger_arweave.Session.{
  Session, Target, nano_s, nano_x, nano_s2, stax, ram_buffer_size, flash_buffer_size, tx_initialize,
  tx_reset, tx_append, tx_parse,
}
use ledger_arweave.Session.Parse.{IsMessage, IsReviewed, tx_parse-IsReviewed, tx_parse-HasRoom}
use ledger_arweave.Apdu.{Review, review_txn}
use ledger_arweave.Apdu.Kept.{without_sig}
use ledger_arweave.Apdu.Leaves.{Uploaded, started, added, ignored}
use ledger_arweave.App.{Approval}
use ledger_arweave.App.Keys.{HasModuli, in_use-HasModuli}
use ledger_arweave.App.Approvals.{Authentic, put_sig-kept}

module _ (p : Platform) (zx : Buffering) where
  open zx use {
    Buffer, contents, limit, start, append, reset, contents_le, limit-start, limit-reset,
    limit-append, append_bytes, reset-empty,
  }

  -- The session: its tag array, its message of bytes, fewer than 2 ^ 16.
  pub record IsSession (s : Session Buffer) : Type 0 where
    pub room : HasRoom s.parsed
    pub small : limit s.buffer < 65536
    pub bytes : All IsByte (contents s.buffer)

  -- The invariant: without keys there is neither a signature nor a review, the transaction on the
  -- screen is one that `tx_parse` has let through, and a signature has been approved.
  pub record IsDevice (log : List Approval) (s : Session Buffer) (t : Store) (v : Option Review)
      : Type 0 where
    pub session : IsSession s
    pub moduli : HasModuli t
    pub locked : t.device_initialized ≡ false → (t.signature_set ≡ 0) × (v ≡ none)
    pub reviewed : v ≡ some review_txn → IsReviewed p.ui t (contents s.buffer) s.parsed
    pub authentic : t.signature_set ≢ 0 → Authentic p log t

  IsSession-IsMessage : (s : Session Buffer) → IsSession s → IsMessage (contents s.buffer) s.parsed
  IsSession-IsMessage s h = record {
    bytes = h.bytes;
    small = omega (arith, contents_le s.buffer, h.small);
    room = h.room;
  }

  sizes : (target : Target) → ram_buffer_size target + flash_buffer_size target < 65536
  sizes nano_s = omega arith
  sizes nano_x = omega arith
  sizes nano_s2 = omega arith
  sizes stax = omega arith

  pub started-IsSession :
      (s : Session Buffer) → IsSession s → IsSession (tx_reset zx (tx_initialize zx p.target s))
  unfolding tx_reset tx_initialize
  started-IsSession s h = record {
    room = h.room;
    small = omega (
      arith,
      sizes p.target,
      limit-reset begun,
      limit-start (ram_buffer_size p.target) (flash_buffer_size p.target) s.buffer,
    );
    bytes = subst (All IsByte) (sym (reset-empty begun)) tt;
  }
    where
      begun : Buffer
      begun = start (ram_buffer_size p.target) (flash_buffer_size p.target) s.buffer

  added-IsSession :
      (s : Session Buffer) (bs : Bytes)
      → All IsByte bs
      → IsSession s
      → IsSession (tx_append zx bs s).1
  unfolding tx_append
  added-IsSession s bs b h = record {
    room = h.room;
    small = omega (arith, limit-append bs s.buffer, h.small);
    bytes = append_bytes bs s.buffer h.bytes b;
  }

  pub Uploaded-IsSession :
      (apdu : Bytes) (s s' : Session Buffer)
      → All IsByte apdu
      → IsSession s
      → Uploaded p zx apdu s s'
      → IsSession s'
  Uploaded-IsSession apdu s s' b h (started e) = subst IsSession (sym e) (started-IsSession s h)
  Uploaded-IsSession apdu s s' b h (added n e) =
      subst IsSession (sym e)
        (added-IsSession s _ (All-take IsByte n _ (All-drop IsByte p.at.body apdu b)) h)
  Uploaded-IsSession apdu s s' b h (ignored e) = subst IsSession (sym e) h

  pub parsed-IsSession :
      (t : Store) (s : Session Buffer) → IsSession s → IsSession (tx_parse zx p.ui t s).1
  parsed-IsSession t s h =
      let (room, same) = tx_parse-HasRoom zx p.ui t s h.room in
      record { room = room; small = rw same h.small; bytes = rw same h.bytes }

  pub IsReviewed-contents :
      (t : Store) (s : Session Buffer)
      → HasModuli t
      → IsSession s
      → (tx_parse zx p.ui t s).0 ≡ none
      → IsReviewed p.ui t (contents (tx_parse zx p.ui t s).1.buffer) (tx_parse zx p.ui t s).1.parsed
  IsReviewed-contents t s m h e =
      rw (tx_parse-HasRoom zx p.ui t s h.room).1
        (tx_parse-IsReviewed zx p.ui t s (IsSession-IsMessage s h) (in_use-HasModuli t m) e)

  pub without_sig-IsDevice :
      (log : List Approval) (s : Session Buffer) (t : Store)
      → IsDevice log s t none
      → IsDevice log s (without_sig t) none
  without_sig-IsDevice log s t h =
      put_sig-kept t.slot_in_use _ t (λ u. IsDevice log s (record u { signature_set = 0 }) none)
        λ first_sig second_sig. record {
          session = h.session;
          moduli = h.moduli;
          locked = λ _. (refl, refl);
          reviewed = λ e. absurd (cc);
          authentic = λ n. absurd (n refl);
        }
