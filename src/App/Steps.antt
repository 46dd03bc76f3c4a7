-- ===== src/App/Steps.antt =====
-- Each step keeps the invariant.
use ledger_arweave.Base.{
  ℕ, ◌-◌, ◌≤◌, ◌≡◌, refl, sym, ◌∙◌, subst, false, List, [], ◌∷◌, ◌⊎◌, inl, inr, Option, none, some,
  Bytes, IsByte, All, arith, length, take,
}
use ledger_arweave.Result.{final}
use ledger_arweave.Parser.Layout.{view}
use ledger_arweave.DeepHash.Digest.{get_digest-ok}
use ledger_arweave.Store.{Store, put_sig, store_signature, init}
use ledger_arweave.Store.Flash.{cut_all}
use ledger_arweave.Crypto.Sign.{IsSmall, sign-cases}
use ledger_arweave.Buffering.{Buffering}
use ledger_arweave.Platform.{Platform}
use ledger_arweave.Session.{Session}
use ledger_arweave.Session.Parse.{IsReviewed}
use ledger_arweave.Apdu.{Device, Review, review_txn, handle_apdu}
use ledger_arweave.Apdu.Kept
use ledger_arweave.Apdu.Kept.{taken_half-without_sig}
use ledger_arweave.Apdu.Effects.{handle_apdu-Closed}
use ledger_arweave.Actions.{app_sign, app_reject, app_reply_address, reply_signed}
use ledger_arweave.App
use ledger_arweave.App.{
  Approval, approval_of, answered, Step, Run, command, approve, confirm, reject, make, restart,
  lose_power, first, next, start_app,
}
use ledger_arweave.App.Keys.{
  HasModuli, Makes4096, init-Unsigned, start_app-Unsigned, cut_all-HasModuli,
}
use ledger_arweave.App.Approvals.{
  Authentic, Authentic-cons, put_sig-kept, store_signature-Authentic,
}
use ledger_arweave.App.Invariant.{
  IsDevice, Uploaded-IsSession, parsed-IsSession, IsReviewed-contents, without_sig-IsDevice,
}

module _ (p : Platform) (zx : Buffering) where
  open zx use {Buffer, contents, limit, contents_le}

  abbrev Holds : List Approval → Device Buffer → Type 0
  Holds log d = IsDevice p zx log d.session d.store d.review

  none_not_review : {v : Review} → ◌≡◌ {A = Option Review} none (some v) → ⊥
  none_not_review e = cc

  command-Holds :
      (log : List Approval) (d : Device Buffer) (rx : ℕ)
      → All IsByte d.apdu
      → Holds log d
      → d.review ≡ none
      → Holds log (handle_apdu p zx rx (record { device = d; tx = 0; asynch = false })).device
  command-Holds log d rx bytes h quiet =
      handle_apdu-Closed p zx (IsDevice p zx log) rx d 0 false (record {
        kept = h;
        asked = λ set_up. record {
          session = h.session;
          moduli = h.moduli;
          locked = λ e. absurd (cc);
          reviewed = λ e. absurd (cc);
          authentic = h.authentic;
        };
        fetched = λ set_up n index. fetched (taken_half-without_sig p zx n index d.store);
        received = λ set_up s u. record {
          session = Uploaded-IsSession p zx d.apdu d.session s bytes h.session u;
          moduli = h.moduli;
          locked = h.locked;
          reviewed = λ e. absurd (none_not_review (sym quiet ∙ e));
          authentic = h.authentic;
        };
        parsed = λ set_up s u. record {
          session =
              parsed-IsSession p zx d.store s
                (Uploaded-IsSession p zx d.apdu d.session s bytes h.session u);
          moduli = h.moduli;
          locked = h.locked;
          reviewed = λ e. absurd (none_not_review (sym quiet ∙ e));
          authentic = h.authentic;
        };
        shown = λ set_up s u e.
            let session = Uploaded-IsSession p zx d.apdu d.session s bytes h.session u in
            record {
              session = parsed-IsSession p zx d.store s session;
              moduli = h.moduli;
              locked = λ e. absurd (cc);
              reviewed = λ _. IsReviewed-contents p zx d.store s h.moduli session e;
              authentic = h.authentic;
            };
      })
    where
      fetched :
          {t : Store}
          → (t ≡ d.store) ⊎ (t ≡ Kept.without_sig d.store)
          → IsDevice p zx log d.session t d.review
      fetched (inl e) = subst (λ (t : Store). IsDevice p zx log d.session t d.review) (sym e) h
      fetched (inr e) =
          subst (λ (t : Store). IsDevice p zx log d.session t d.review) (sym e)
            (subst (IsDevice p zx log d.session (Kept.without_sig d.store)) (sym quiet) (
              without_sig-IsDevice p zx log d.session d.store
                (subst (IsDevice p zx log d.session d.store) quiet h)))

  signature_kept :
      (before log : List Approval) (sig : Bytes) (s : Session Buffer) (t : Store)
      (v : Option Review)
      → IsDevice p zx before s t v
      → v ≡ some review_txn
      → Authentic p log (store_signature sig t)
      → IsDevice p zx log s (store_signature sig t) none
  unfolding store_signature
  signature_kept before log sig s t v h shown a = record {
    session = h.session;
    moduli = put_sig-kept t.slot_in_use _ t HasModuli λ _ _. h.moduli;
    locked = λ e. absurd (none_not_review (sym (h.locked (device_kept ∙ e)).1 ∙ shown));
    reviewed = λ e. absurd (none_not_review e);
    authentic = λ _. a;
  }
    where
      device_kept :
          t.device_initialized ≡ (put_sig t.slot_in_use (take 512 sig) t).device_initialized
      device_kept =
          put_sig-kept t.slot_in_use _ t (λ u. t.device_initialized ≡ u.device_initialized)
            λ _ _. refl

  answered-IsDevice :
      (log : List Approval) (a : Approval) (s : Session Buffer) (t : Store) (v : Option Review)
      → IsDevice p zx log s t v
      → IsDevice p zx (a ∷ log) s t none
  answered-IsDevice log a s t v h = record {
    session = h.session;
    moduli = h.moduli;
    locked = λ e. ((h.locked e).0, refl);
    reviewed = λ e. absurd (none_not_review e);
    authentic = λ n. Authentic-cons p log a t (h.authentic n);
  }

  approve-Holds :
      (log : List Approval) (d : Device Buffer)
      → Holds log d
      → d.review ≡ some review_txn
      → Holds (approval_of p zx d ∷ log) (answered p zx (app_sign p zx d).0)
  unfolding app_sign reply_signed
  approve-Holds log d h e =
      sign-cases p.sdk p.sha384 p.rsa_sign memory d.session.parsed.1 (p.io_apdu_buffer_size - 3)
        (record { buffer = d.apdu; sig_size = 0; store = d.store })
        (λ r. Holds (approval_of p zx d ∷ log) (answered p zx (reply_signed p zx d r).0))
        (λ c. answered-IsDevice log (approval_of p zx d) d.session d.store d.review h)
        λ digest small sig set_up digests small_of signs.
          let (whole, hashed, short) =
            get_digest-ok p.sha384 memory d.session.parsed.1 digest reviewed.sound.bounds digests in
          signature_kept log _ sig d.session d.store d.review h e (
            store_signature-Authentic p log d.store (view memory d.session.parsed.1) whole small sig
              reviewed.sound.supported reviewed.own hashed
              (subst (λ (b : Bytes). IsSmall p.sdk b small) short small_of) signs)
    where
      memory : Bytes
      memory = contents d.session.buffer

      reviewed : IsReviewed p.ui d.store memory d.session.parsed
      reviewed = h.reviewed e

  make-Holds :
      (log : List Approval) (d : Device Buffer)
      → Makes4096 p.sdk
      → Holds log d
      → d.store.device_initialized ≡ false
      → Holds log (record d { store = final (init p.sdk d.store) })
  make-Holds log d law h e =
      let (moduli, no_sig) = init-Unsigned p.sdk law d.store (h.moduli, (h.locked e).0) in
      record {
        session = h.session;
        moduli = moduli;
        locked = λ _. (no_sig, (h.locked e).1);
        reviewed = λ shown. absurd (none_not_review (sym (h.locked e).1 ∙ shown));
        authentic = λ n. absurd (n no_sig);
      }

  empty_contents : (b : Buffer) → limit b ≡ 0 → contents b ≡ []
  empty_contents b e = nothing (contents b) (omega (arith, contents_le b))
    where
      nothing : (bs : Bytes) → length bs ≤ 0 → bs ≡ []
      nothing [] h = refl
      nothing (x ∷ bs) h = absurd (omega arith)

  started-Holds :
      (log : List Approval) (apdu : Bytes) (b : Buffer) (s : Store)
      → Makes4096 p.sdk
      → HasModuli s
      → limit b ≡ 0
      → Holds log (App.started p zx apdu b s)
  started-Holds log apdu b s law m e =
      let (moduli, no_sig) = start_app-Unsigned p.sdk law p.target s m in
      record {
        session = record {
          room = refl;
          small = omega arith;
          bytes = subst (All IsByte) (sym (empty_contents b e)) tt;
        };
        moduli = moduli;
        locked = λ _. (no_sig, refl);
        reviewed = λ shown. absurd (none_not_review shown);
        authentic = λ n. absurd (n no_sig);
      }

  at-equal :
      {log log' : List Approval} {d d' : Device Buffer}
      → log' ≡ log
      → d' ≡ d
      → Holds log d
      → Holds log' d'
  at-equal {log} {log'} {d} {d'} l e h =
      subst (λ (x : List Approval). Holds x d') (sym l) (subst (Holds log) (sym e) h)

  closed :
      {log : List Approval} {s : Session Buffer} {t : Store} {v : Option Review}
      → IsDevice p zx log s t v
      → IsDevice p zx log s t none
  closed h = record {
    session = h.session;
    moduli = h.moduli;
    locked = λ e. ((h.locked e).0, refl);
    reviewed = λ e. absurd (none_not_review e);
    authentic = h.authentic;
  }

  Step-Holds :
      (log log' : List Approval) (d d' : Device Buffer)
      → Makes4096 p.sdk
      → Holds log d
      → Step p zx log log' d d'
      → Holds log' d'
  unfolding app_reject app_reply_address
  Step-Holds log log' d d' law h (command rx received quiet bytes l e) =
      at-equal l e (command-Holds log (record d { apdu = received }) rx bytes h quiet)
  Step-Holds log log' d d' law h (approve shown l e) = at-equal l e (approve-Holds log d h shown)
  Step-Holds log log' d d' law h (confirm shown l e) = at-equal l e (closed h)
  Step-Holds log log' d d' law h (reject v shown l e) = at-equal l e (closed h)
  Step-Holds log log' d d' law h (make locked l e) = at-equal l e (make-Holds log d law h locked)
  Step-Holds log log' d d' law h (restart apdu b empty l e) =
      at-equal l e (started-Holds log apdu b d.store law h.moduli empty)
  Step-Holds log log' d d' law h (lose_power cuts apdu b making empty l e) = at-equal l e (
      started-Holds log apdu b (cut_all p.sdk cuts d.store) law
        (cut_all-HasModuli p.sdk law cuts d.store h.moduli) empty)

  -- In every state that a device comes to, by commands, answers to reviews, the making of keys,
  -- restarts and losses of power, in any order: without keys there is neither a signature nor a review, the transaction
  -- on the screen is one that `tx_parse` has let through, a stored signature has been approved, and
  -- the session and the moduli keep their sizes. The flash has room for moduli of 512 bytes at the
  -- first start, and the SDK makes moduli of that size.
  pub Run-IsDevice :
      (s : Store) (log : List Approval) (d : Device Buffer)
      → Makes4096 p.sdk
      → HasModuli s
      → Run p zx s log d
      → IsDevice p zx log d.session d.store d.review
  Run-IsDevice s log d law m (first apdu b empty) = started-Holds [] apdu b s law m empty
  Run-IsDevice s log d law m (next {log = before} {d = d₀} r st) =
      Step-Holds before log d₀ d law (Run-IsDevice s before d₀ law m r) st
