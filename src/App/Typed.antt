-- ===== src/App/Typed.antt =====
-- The numbers of a device stay within their C types, and the cursor of the parser in the message.
use ledger_arweave.Base.{
  ℕ, zero, suc, ◌≡◌, sym, ap, subst, ◌⊎◌, false, inl, inr, List, Option, Bytes, arith, take,
  replicate, All,
}
use ledger_arweave.Parser.Range.{IsTag, IsTyped}
use ledger_arweave.Parser.{empty_tag}
use ledger_arweave.Store.{Store, store_signature}
use ledger_arweave.Store.Flash.{cut_all}
use ledger_arweave.Crypto.Sign.{sign-cases}
use ledger_arweave.Buffering.{Buffering}
use ledger_arweave.Platform.{Platform}
use ledger_arweave.Session.{Session, tx_initialize, tx_reset, tx_append, tx_parse}
use ledger_arweave.Session.Parse.{tx_parse-IsTyped}
use ledger_arweave.Apdu.{Device, Review, handle_apdu}
use ledger_arweave.Apdu.Leaves.{Uploaded, started, added, ignored}
use ledger_arweave.Apdu.Effects.{handle_apdu-Closed}
use ledger_arweave.Apdu.Kept
use ledger_arweave.Apdu.Kept.{taken_half-without_sig}
use ledger_arweave.Actions.{app_sign, reply_signed, app_reject, app_reply_address}
use ledger_arweave.App
use ledger_arweave.App.{
  Approval, Step, Run, command, approve, confirm, reject, make, restart, lose_power, first, next,
  start_app, tested,
}
use ledger_arweave.App.Indexed.{IsIndexed, init-IsIndexed, start_app-IsIndexed, with_sig-IsIndexed}

module _ (p : Platform) (zx : Buffering) where
  open zx use {Buffer, contents, limit}

  -- The lengths and counters of the parser are 16-bit numbers and its cursor is not behind the end of
  -- its input; the store has a slot in use, and a flag.
  pub record InTypes (s : Session Buffer) (t : Store) : Type 0 where
    pub parser : IsTyped s.parsed
    pub store : IsIndexed t

  Uploaded-parsed :
      (apdu : Bytes) (s s' : Session Buffer) → Uploaded p zx apdu s s' → s'.parsed ≡ s.parsed
  unfolding tx_reset tx_initialize tx_append
  Uploaded-parsed apdu s s' (started e) = ap (λ (s : Session Buffer). s.parsed) e
  Uploaded-parsed apdu s s' (added n e) = ap (λ (s : Session Buffer). s.parsed) e
  Uploaded-parsed apdu s s' (ignored e) = ap (λ (s : Session Buffer). s.parsed) e

  Holds : Session Buffer → Store → Option Review → Type 0
  Holds s t v = InTypes s t

  command-InTypes :
      (rx : ℕ) (d : Device Buffer)
      → InTypes d.session d.store
      → let d' = (handle_apdu p zx rx (record { device = d; tx = 0; asynch = false })).device in
        InTypes d'.session d'.store
  unfolding Holds
  command-InTypes rx d h = handle_apdu-Closed p zx Holds rx d 0 false (record {
    kept = h;
    asked = λ set_up. h;
    fetched = λ set_up n index. fetched (taken_half-without_sig p zx n index d.store);
    received = λ set_up s u. uploaded s u;
    parsed = λ set_up s u. parsed s u;
    shown = λ set_up s u e. parsed s u;
  })
    where
      fetched : {t : Store} → (t ≡ d.store) ⊎ (t ≡ Kept.without_sig d.store) → InTypes d.session t
      fetched (inl e) = subst (InTypes d.session) (sym e) h
      fetched (inr e) = subst (InTypes d.session) (sym e) (record {
        parser = h.parser;
        store = with_sig-IsIndexed d.store.slot_in_use _ 0 d.store (omega arith) h.store.slot;
      })

      uploaded : (s : Session Buffer) → Uploaded p zx d.apdu d.session s → InTypes s d.store
      uploaded s u = record {
        parser = subst IsTyped (sym (Uploaded-parsed d.apdu d.session s u)) h.parser;
        store = h.store;
      }

      parsed :
          (s : Session Buffer)
          → Uploaded p zx d.apdu d.session s
          → InTypes (tx_parse zx p.ui d.store s).1 d.store
      parsed s u = record {
        parser = tx_parse-IsTyped zx p.ui d.store s (uploaded s u).parser;
        store = h.store;
      }

  approve-InTypes :
      (d : Device Buffer)
      → InTypes d.session d.store
      → InTypes (app_sign p zx d).0.session (app_sign p zx d).0.store
  unfolding app_sign reply_signed store_signature
  approve-InTypes d h =
      sign-cases p.sdk p.sha384 p.rsa_sign (contents d.session.buffer) d.session.parsed.1 _ _
        (λ r. InTypes (reply_signed p zx d r).0.session (reply_signed p zx d r).0.store) (λ e. h)
        λ _ _ sig _ _ _ _. record {
          parser = h.parser;
          store =
              with_sig-IsIndexed d.store.slot_in_use (take 512 sig) 1 d.store (omega arith)
                h.store.slot;
        }

  started-InTypes :
      (apdu : Bytes) (b : Buffer) (s : Store)
      → InTypes (App.started p zx apdu b s).session (App.started p zx apdu b s).store
  started-InTypes apdu b s = record {
    parser = record {
      context = (omega arith, omega arith, omega arith);
      fields = (
        omega arith,
        (
          omega arith,
          (
            omega arith,
            (omega arith, (omega arith, (omega arith, (omega arith, (omega arith, tt))))),
          ),
        ),
      );
      count = omega arith;
      tags = zero_tags 16;
    };
    store = start_app-IsIndexed p.sdk p.target s;
  }
    where
      zero_tags : (n : ℕ) → All IsTag (replicate n empty_tag)
      zero_tags zero = tt
      zero_tags (suc n) = ((omega arith, omega arith), zero_tags n)

  at :
      {d : Device Buffer} (d' : Device Buffer)
      → d' ≡ d
      → InTypes d.session d.store
      → InTypes d'.session d'.store
  at d' e = subst (λ (d : Device Buffer). InTypes d.session d.store) (sym e)

  Step-InTypes :
      (log log' : List Approval) (d d' : Device Buffer)
      → InTypes d.session d.store
      → Step p zx log log' d d'
      → InTypes d'.session d'.store
  unfolding app_reject app_reply_address app_sign reply_signed
  Step-InTypes log log' d d' h (command rx received quiet bytes l e) =
      at d' e (command-InTypes rx (record d { apdu = received }) h)
  Step-InTypes log log' d d' h (approve shown l e) = at d' e (approve-InTypes d h)
  Step-InTypes log log' d d' h (confirm shown l e) = at d' e h
  Step-InTypes log log' d d' h (reject v shown l e) = at d' e h
  Step-InTypes log log' d d' h (make locked l e) =
      at d' e (record { parser = h.parser; store = init-IsIndexed p.sdk d.store h.store.flag })
  Step-InTypes log log' d d' h (restart apdu b empty l e) = at d' e (started-InTypes apdu b d.store)
  Step-InTypes log log' d d' h (lose_power cuts apdu b making empty l e) =
      at d' e (started-InTypes apdu b (cut_all p.sdk cuts d.store))

  -- In every state that a device comes to, the cursor of the parser is not behind the end of the
  -- message that it was started on, and the lengths and counters are 16-bit numbers, also after a message that could not be parsed;
  -- `slot_in_use` is an index of the two slots, and `signature_set` is 0 or 1. Nothing is assumed of the flash or the SDK.
  pub Run-InTypes :
      (s : Store) (log : List Approval) (d : Device Buffer)
      → Run p zx s log d
      → InTypes d.session d.store
  Run-InTypes s log d (first apdu b empty) = started-InTypes apdu b s
  Run-InTypes s log d (next {log = before} {d = d₀} r st) =
      Step-InTypes before log d₀ d (Run-InTypes s before d₀ r) st
