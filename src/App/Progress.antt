-- ===== src/App/Progress.antt =====
-- Whatever has happened to a device, a transaction can be brought to its review.
use ledger_arweave.Base.{
  ℕ, ◌+◌, ◌≤◌, ◌<◌, ◌≡◌, refl, ap, ◌∙◌, true, List, [], ◌∷◌, ◌++◌, none, Bytes, IsByte, All, length,
  length-append, arith,
}
use ledger_arweave.Parser.Layout.{Transaction, IsSupported, encode}
use ledger_arweave.Store.{Store}
use ledger_arweave.Buffering.{Buffering}
use ledger_arweave.Platform.{Platform}
use ledger_arweave.Apdu.{Device}
use ledger_arweave.Apdu.Upload.{
  IsReady, Command, IsSign, Received, capacity, send, send_all, send-init, send-add,
}
use ledger_arweave.Apdu.Delivery.{AreChunks, Delivered, join, send_all-adds, upload-Delivered}
use ledger_arweave.App.{Approval, Run, command, next}
use ledger_arweave.App.Keys.{HasModuli, Makes4096}
use ledger_arweave.App.Steps.{Run-IsDevice}

-- The buffer holds bytes.
abbrev pub OfBytes : Command → Type 0
OfBytes c = All IsByte c.received

module _ (p : Platform) (zx : Buffering) where
  open zx use {Buffer}

  Run-send :
      (s : Store) (log : List Approval) (c : Command) (d : Device Buffer)
      → Run p zx s log d
      → d.review ≡ none
      → OfBytes c
      → Run p zx s log (send p zx c d)
  Run-send s log c d r quiet bytes = next r (command c.rx c.received quiet bytes refl refl)

  module _ (ready : IsReady p) where
    Run-send_all :
        (s : Store) (log : List Approval) (bs : List Bytes) (cs : List Command) (sent : Bytes)
        (n : ℕ) (d d' : Device Buffer)
        → AreChunks p zx bs cs
        → All OfBytes cs
        → d.store.device_initialized ≡ true
        → d.review ≡ none
        → Received p zx ready d d' n sent
        → length sent + length (join bs) ≤ n
        → Run p zx s log d'
        → Run p zx s log (send_all p zx cs d')
    Run-send_all s log [] [] sent n d d' h bytes set_up quiet r fits run = run
    Run-send_all s log (b ∷ bs) (c ∷ cs) sent n d d' h bytes set_up quiet r fits run =
        Run-send_all s log bs cs (sent ++ b) n d (send p zx c d') h.1 bytes.1 set_up quiet
          (send-add p zx ready b sent n c d d' h.0 set_up r
            (omega (arith, length-append b (join bs))))
          (omega (arith, length-append b (join bs), length-append sent b))
          (Run-send s log c d' run (r.same_review ∙ quiet) bytes.0)
    Run-send_all s log [] (c ∷ cs) sent n d d' h bytes set_up quiet r fits run = absurd h
    Run-send_all s log (b ∷ bs) [] sent n d d' h bytes set_up quiet r fits run = absurd h

    -- From every state that a device comes to in which it is initialized and nothing is on the
    -- screen, the commands that send a supported transaction in chunks, one after the other, lead
    -- to a state in which the device holds that transaction, and its review is on the screen when `parser_validate` accepts it, and only then.
    -- The PIN is entered, the message fits the buffer and a 16-bit length, the flash has room for
    -- moduli of 512 bytes at the first start, and the SDK makes moduli of that size.
    pub Run-Delivered :
        (s : Store) (log : List Approval) (t : Transaction) (rest : Bytes) (bs : List Bytes)
        (b b₀ : Bytes) (c₀ : Command) (cs : List Command) (c : Command) (d : Device Buffer)
        → Makes4096 p.sdk
        → HasModuli s
        → Run p zx s log d
        → d.store.device_initialized ≡ true
        → d.review ≡ none
        → IsSign p p.p1_init b₀ c₀
        → AreChunks p zx bs cs
        → IsSign p p.p1_last b c
        → All OfBytes (c₀ ∷ c ∷ cs)
        → join bs ++ b ≡ encode t ++ rest
        → IsSupported t
        → All IsByte (encode t ++ rest)
        → length (encode t ++ rest) < 65536
        → length (encode t ++ rest) ≤ capacity p zx ready d
        → let d' = send p zx c (send_all p zx cs (send p zx c₀ d)) in
          Run p zx s log d' × Delivered p zx d d' t (encode t ++ rest)
    Run-Delivered s log t rest bs b b₀ c₀ cs c d law moduli r set_up quiet h₀ hs h bytes whole
          supported all_bytes small fits =
        (
          Run-send s log c (send_all p zx cs (send p zx c₀ d))
              (Run-send_all s log bs cs [] (capacity p zx ready d) d (send p zx c₀ d) hs bytes.1.1
                set_up quiet begun (omega (arith, long)) (Run-send s log c₀ d r quiet bytes.0))
              (uploaded.same_review ∙ quiet) bytes.1.0,
          upload-Delivered p zx ready t rest bs b b₀ c₀ cs c d h₀ hs h whole supported all_bytes
              small fits set_up (Run-IsDevice p zx s log d law moduli r).session.room,
        )
      where
        long : length (join bs) + length b ≤ capacity p zx ready d
        long = omega (arith, length-append (join bs) b, ap length whole, fits)

        begun : Received p zx ready d (send p zx c₀ d) (capacity p zx ready d) []
        begun = send-init p zx ready b₀ c₀ d h₀ set_up

        uploaded :
            Received p zx ready d
              (send_all p zx cs (send p zx c₀ d))
              (capacity p zx ready d)
              (join bs)
        uploaded =
            send_all-adds p zx ready bs cs [] (capacity p zx ready d) d (send p zx c₀ d) hs set_up
              begun (omega (arith, long))
