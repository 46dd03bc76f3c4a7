-- ===== src/Apdu/Delivery.antt =====
-- From the first chunk of a transaction to its review.
use ledger_arweave.Base.{
  ℕ, ◌+◌, ◌≤◌, ◌<◌, ◌≡◌, refl, sym, ap, ◌∙◌, subst, true, false, List, [], ◌∷◌, ◌++◌, append_assoc,
  append-nil, ◌⊎◌, inl, inr, Option, some, Bytes, IsByte, All, length, length-append, arith,
}
use ledger_arweave.Status
use ledger_arweave.Status.{Step, ParserError, get_error_description}
use ledger_arweave.Parser.{Context, Tx, parse}
use ledger_arweave.Parser.Layout.{Transaction, IsSupported, encode, view}
use ledger_arweave.Parser.RoundTrip.{Parsed, IsInBounds, parse-encode}
use ledger_arweave.Parser.Room.{HasRoom}
use ledger_arweave.Store.{Store}
use ledger_arweave.Display.{Ui, validate}
use ledger_arweave.Buffering.{Buffering}
use ledger_arweave.Platform.{Platform}
use ledger_arweave.Session.{
  Session, zero_tx, tx_append, tx_parse, tx_get_buffer, tx_get_buffer_length, report_parsing,
  report_validation,
}
use ledger_arweave.Apdu.{Device, Reply, review_txn, after_chunk, answer, reply_parsed}
use ledger_arweave.Apdu.Upload.{
  IsReady, Command, IsSign, Received, capacity, send, send_all, send_after, send-init, send-add,
  process_chunk-last,
}

abbrev pub join : List Bytes → Bytes
join [] = []
join (b ∷ bs) = b ++ join bs

module _ (p : Platform) (zx : Buffering) where
  open zx use {Buffer, contents, limit, append_fits, append_whole}

  -- Commands that carry the chunks, one each, with the P1 of a chunk that is not the last.
  abbrev pub AreChunks : List Bytes → List Command → Type 0
  AreChunks [] [] = Unit
  AreChunks (b ∷ bs) (c ∷ cs) = IsSign p p.p1_add b c × AreChunks bs cs
  AreChunks [] (c ∷ cs) = ⊥
  AreChunks (b ∷ bs) [] = ⊥

  -- `tx_parse` of a message that begins with the encoding of a transaction.
  tx_parse-encode :
      (ui : Ui) (store : Store) (s : Session Buffer) (t : Transaction) (rest : Bytes)
      → contents s.buffer ≡ encode t ++ rest
      → (q : Parsed s.parsed (encode t ++ rest) (length (encode t ++ rest)) t rest)
      → tx_parse zx ui store s ≡ (
        report_validation (validate ui store (encode t ++ rest) q.after.1),
        record s { tx_obj = zero_tx; parsed = q.after },
      )
  unfolding tx_parse tx_get_buffer tx_get_buffer_length report_parsing
  tx_parse-encode ui store s t rest e q =
      ap
        (λ (m : Bytes).
          report_parsing zx ui store (record s { tx_obj = zero_tx })
            (parse s.parsed (some m) (length m)))
        e
      ∙ ap (report_parsing zx ui store (record s { tx_obj = zero_tx })) q.returns
      ∙ ap
          (λ (m : Bytes). (
            report_validation (validate ui store m q.after.1),
            record s { tx_obj = zero_tx; parsed = q.after },
          ))
          e

  -- What the last command makes of a message.
  pub record Delivered (d d' : Device Buffer) (t : Transaction) (memory : Bytes) : Type 0 where
    pub message : contents d'.session.buffer ≡ memory
    pub means : view memory d'.session.parsed.1 ≡ t
    pub bounds : IsInBounds (length memory) d'.session.parsed.1
    pub same_store : d'.store ≡ d.store
    pub outcome :
        ((n : ℕ) × (validate p.ui d.store memory d'.session.parsed.1 ≡ Status.ok n)
          × (d'.review ≡ some review_txn))
        ⊎ ((e : ParserError) × (n : ℕ) × (validate p.ui d.store memory d'.session.parsed.1
              ≡ Status.fail e n)
            × (d'.review ≡ d.review))

  module _ (ready : IsReady p) where
    pub send_all-adds :
        (bs : List Bytes) (cs : List Command) (sent : Bytes) (n : ℕ) (d d' : Device Buffer)
        → AreChunks bs cs
        → d.store.device_initialized ≡ true
        → Received p zx ready d d' n sent
        → length sent + length (join bs) ≤ n
        → Received p zx ready d (send_all p zx cs d') n (sent ++ join bs)
    send_all-adds [] [] sent n d d' h set_up r fits =
        subst (Received p zx ready d d' n) (sym (append-nil sent)) r
    send_all-adds (b ∷ bs) (c ∷ cs) sent n d d' h set_up r fits =
        subst (Received p zx ready d (send_all p zx cs (send p zx c d')) n)
          (append_assoc sent b (join bs))
          (send_all-adds bs cs (sent ++ b) n d (send p zx c d') h.1 set_up
            (send-add p zx ready b sent n c d d' h.0 set_up r
              (omega (arith, length-append b (join bs))))
            (omega (arith, length-append b (join bs), length-append sent b)))
    send_all-adds [] (c ∷ cs) sent n d d' h set_up r fits = absurd h
    send_all-adds (b ∷ bs) [] sent n d d' h set_up r fits = absurd h

    validated :
        (r : Reply (Device Buffer)) (d : Device Buffer) (s : Session Buffer) (t : Transaction)
        (memory : Bytes) (v : Step ℕ)
        → contents s.buffer ≡ memory
        → view memory s.parsed.1 ≡ t
        → IsInBounds (length memory) s.parsed.1
        → r.device.store ≡ d.store
        → r.device.review ≡ d.review
        → validate p.ui d.store memory s.parsed.1 ≡ v
        → Delivered d (answer p zx (reply_parsed p zx r (report_validation v, s))).device t memory
    unfolding answer reply_parsed report_validation
    validated r d s t memory (Status.ok n) holds means bounds kept same e = record {
      message = holds;
      means = means;
      bounds = bounds;
      same_store = kept;
      outcome = inl (n, e, refl);
    }
    validated r d s t memory (Status.fail c n) holds means bounds kept same e = record {
      message = holds;
      means = means;
      bounds = bounds;
      same_store = kept;
      outcome = inr (c, n, e, same);
    }

    last_chunk :
        (b rest : Bytes) (c : Command) (d d' : Device Buffer) (n : ℕ) (sent : Bytes)
        (t : Transaction)
        → IsSign p p.p1_last b c
        → d.store.device_initialized ≡ true
        → HasRoom d.session.parsed
        → Received p zx ready d d' n sent
        → length sent + length b ≤ n
        → sent ++ b ≡ encode t ++ rest
        → IsSupported t
        → All IsByte (encode t ++ rest)
        → length (encode t ++ rest) < 65536
        → Delivered d (send p zx c d') t (encode t ++ rest)
    unfolding after_chunk tx_append
    last_chunk b rest c d d' n sent t h set_up room r fits whole supported bytes small =
        subst (λ (x : Device Buffer). Delivered d x t (encode t ++ rest))
          (sym (
            send_after p zx ready p.p1_last b c d' _ h
              (ap (λ (s : Store). s.device_initialized) r.same_store ∙ set_up)
              (process_chunk-last p zx ready b c d' h r.begun space)
            ∙ ap
                (λ (a : Option Bytes × Session Buffer).
                  (answer p zx (reply_parsed p zx replying a)).device)
                (tx_parse-encode p.ui d'.store session t rest holds q)))
          (validated replying d (record session { tx_obj = zero_tx; parsed = q.after }) t
            (encode t ++ rest) _ holds q.means q.bounds r.same_store r.same_review
            (ap (λ (s : Store). validate p.ui s (encode t ++ rest) q.after.1) (sym r.same_store)))
      where
        space : length (contents d'.session.buffer) + length b ≤ limit d'.session.buffer
        space = omega (arith, ap length r.holds, r.room, fits)

        session : Session Buffer
        session = (tx_append zx b d'.session).1

        replying : Reply (Device Buffer)
        replying = record {
          device = record d' { apdu = c.received; session = session };
          tx = 0;
          asynch = false;
        }

        holds : contents session.buffer ≡ encode t ++ rest
        holds =
            append_whole b d'.session.buffer (append_fits b d'.session.buffer space)
            ∙ ap (λ (m : Bytes). m ++ b) r.holds
            ∙ whole

        q : Parsed session.parsed (encode t ++ rest) (length (encode t ++ rest)) t rest
        q =
            parse-encode session.parsed t rest supported bytes small
              (ap (λ (x : Context × Tx). length x.1.tags) r.parsed ∙ room)

    -- A supported transaction that is sent in chunks, in any division, is the one that the device
    -- then holds, within its message, and the review of it is put on the screen when `parser_validate` accepts it, and
    -- only then; the key store stays as it is. The device is initialized, the PIN entered, and the bytes of the message fit the
    -- buffer and a 16-bit length; bytes behind the encoding do not matter.
    pub upload-Delivered :
        (t : Transaction) (rest : Bytes) (bs : List Bytes) (b b₀ : Bytes) (c₀ : Command)
        (cs : List Command) (c : Command) (d : Device Buffer)
        → IsSign p p.p1_init b₀ c₀
        → AreChunks bs cs
        → IsSign p p.p1_last b c
        → join bs ++ b ≡ encode t ++ rest
        → IsSupported t
        → All IsByte (encode t ++ rest)
        → length (encode t ++ rest) < 65536
        → length (encode t ++ rest) ≤ capacity p zx ready d
        → d.store.device_initialized ≡ true
        → HasRoom d.session.parsed
        → Delivered d (send p zx c (send_all p zx cs (send p zx c₀ d))) t (encode t ++ rest)
    upload-Delivered t rest bs b b₀ c₀ cs c d h₀ hs h whole supported bytes small fits set_up room =
        last_chunk b rest c d (send_all p zx cs (send p zx c₀ d)) (capacity p zx ready d) (join bs)
          t h set_up room
          (send_all-adds bs cs [] (capacity p zx ready d) d (send p zx c₀ d) hs set_up
            (send-init p zx ready b₀ c₀ d h₀ set_up) (omega (arith, long)))
          (omega (arith, long)) whole supported bytes small
      where
        long : length (join bs) + length b ≤ capacity p zx ready d
        long = omega (arith, length-append (join bs) b, ap length whole, fits)
