-- ===== src/Parser/RoundTrip.antt =====
-- What `parser_parse` accepts, in terms of the wire format alone.
use ledger_arweave.Base.{
  ℕ, zero, suc, ◌+◌, ◌≤◌, ◌<◌, ◌≡◌, ◌≢◌, refl, sym, ap, ◌∙◌, subst, [], ◌∷◌, ◌++◌, append_assoc,
  append-nil, some, Bytes, IsByte, All, arith, length, take, take_all, All-take,
}
use ledger_arweave.Status.{Step, ok}
use ledger_arweave.Parser.{Context, Tag, Tx, read, parse, init}
use ledger_arweave.Parser.Agreement.{AtTx, Meets-read, Known}
use ledger_arweave.Parser.Cursor.{Meets, Meets-ok_left, Meets-ok_right, At, At-length}
use ledger_arweave.Parser.Inverse.{take_transaction-encode, take_transaction-IsAccepted, IsAccepted}
use ledger_arweave.Parser.Layout.{
  Transaction, IsSupported, encode, encode_element, encode_u16, view,
}
use ledger_arweave.Parser.Lists.{take_transaction}

-- Every string that a parsed object refers to lies in the first `size` bytes, and the tags counted
-- are entries of the array.
pub record IsInBounds (size : ℕ) (v : Tx) : Type 0 where
  pub format_in : v.format.ptr + v.format.len ≤ size
  pub owner_in : v.owner.ptr + v.owner.len ≤ size
  pub target_in : v.target.ptr + v.target.len ≤ size
  pub quantity_in : v.quantity.ptr + v.quantity.len ≤ size
  pub reward_in : v.reward.ptr + v.reward.len ≤ size
  pub last_tx_in : v.last_tx.ptr + v.last_tx.len ≤ size
  pub tags_in :
      All
        (λ (t : Tag). (t.key.ptr + t.key.len ≤ size) × (t.value.ptr + t.value.len ≤ size))
        (take v.tags_count v.tags)
  pub count_in : v.tags_count ≤ length v.tags
  pub data_size_in : v.data_size.ptr + v.data_size.len ≤ size
  pub data_root_in : v.data_root.ptr + v.data_root.len ≤ size

-- The bytes that the caller hands over: `size` of them can be read, and fit the reader's counter.
pub record IsInput (memory : Bytes) (size : ℕ) : Type 0 where
  pub readable : size ≤ length memory
  pub small : size < 65536
  pub bytes : All IsByte memory

start : Bytes → ℕ → Context
start memory size = record { buffer = memory; buffer_len = size; offset = 0 }

parse_starts :
    (s : Context × Tx) (memory : Bytes) (size : ℕ)
    → 0 < size
    → size < 65536
    → parse s (some memory) size ≡ read (start memory size, s.1)
unfolding parse init start
parse_starts s memory size p q = ground arith

module _ (s : Context × Tx) (memory : Bytes) (size : ℕ) (input : IsInput memory size)
    (room : length s.1.tags ≡ 16) where
  agrees :
      Meets
        (AtTx memory size input.readable input.small input.bytes
          (Known memory size input.readable input.small input.bytes))
        (read (start memory size, s.1))
        (take_transaction (view memory s.1, take size memory))
  unfolding start
  agrees = Meets-read memory size input.readable input.small input.bytes _ _ (record {
    at = record {
      same = refl;
      same_len = refl;
      inside = omega arith;
      left = ap (λ (n : ℕ). take n memory) (omega arith);
    };
    means = refl;
    room = room;
    known = tt;
  })

  bounds_of :
      (v : Tx) → Known memory size input.readable input.small input.bytes v → IsInBounds size v
  bounds_of v k = record {
    format_in = k.0.0.0.0.0.0.0.0.1;
    owner_in = k.0.0.0.0.0.0.0.1;
    target_in = k.0.0.0.0.0.0.1;
    quantity_in = k.0.0.0.0.0.1;
    reward_in = k.0.0.0.0.1;
    last_tx_in = k.0.0.0.1;
    tags_in = k.0.0.1.0;
    count_in = k.0.0.1.1;
    data_size_in = k.0.1;
    data_root_in = k.1;
  }

  unread_of : (c : Context) (rest : Bytes) → At memory size c rest → c.offset + length rest ≡ size
  unread_of c rest a =
      omega (arith, At-length memory size input.readable input.small input.bytes c rest a, a.inside)

  -- From the agreement: the object of a successful reading, and what it means.
  accepted :
      (p : Context × Tx)
      → read (start memory size, s.1) ≡ ok p
      → (rest : Bytes) × IsAccepted (take size memory) (view memory p.1) rest
        × IsInBounds size p.1
        × (p.0.offset + length rest ≡ size)
  accepted p e =
      let (q, e', a) = Meets-ok_left _ _ _ p agrees e in
      (
        q.1,
        subst (λ (t : Transaction). IsAccepted (take size memory) t q.1) (sym a.means)
            (take_transaction-IsAccepted _ (take size memory) q
              (All-take IsByte size memory input.bytes) e'),
        bounds_of p.1 a.known,
        unread_of p.0 q.1 a.at,
      )

parse-zero :
    (s : Context × Tx) (memory : Bytes) (p : Context × Tx) → parse s (some memory) 0 ≡ ok p → ⊥
unfolding parse
parse-zero s memory p e = cc

ok_rest :
    {t u : Transaction} {x y : Bytes}
    → ◌≡◌ {A = Step (Transaction × Bytes)} (ok (t, x)) (ok (u, y))
    → x ≡ y
ok_rest e = cc

append-nil_right : (xs ys : Bytes) → xs ++ ys ≡ [] → ys ≡ []
append-nil_right [] ys e = e
append-nil_right (x ∷ xs) ys e = absurd (cc)

-- What `parser_parse` returned: the object, what it means, and what it left unread.
pub record Parsed (s : Context × Tx) (memory : Bytes) (size : ℕ) (t : Transaction) (rest : Bytes)
    : Type 0 where
  pub after : Context × Tx
  pub returns : parse s (some memory) size ≡ ok after
  pub means : view memory after.1 ≡ t
  pub bounds : IsInBounds size after.1
  pub unread : after.0.offset + length rest ≡ size

encode-pos : (t : Transaction) (rest : Bytes) → 0 < length (encode t ++ rest)
unfolding encode encode_element encode_u16
encode-pos t rest = omega arith

-- Any transaction that the app supports, encoded and with any bytes behind it, is parsed into an
-- object that means that transaction and refers to bytes of the input only; exactly the bytes
-- behind the encoding are left unread. What the object held before does not matter. The input is
-- shorter than 65536 bytes, and the tag array has its 16 entries.
pub parse-encode :
    (s : Context × Tx) (t : Transaction) (rest : Bytes)
    → IsSupported t
    → All IsByte (encode t ++ rest)
    → length (encode t ++ rest) < 65536
    → length s.1.tags ≡ 16
    → Parsed s (encode t ++ rest) (length (encode t ++ rest)) t rest
parse-encode s t rest h bytes small room =
    let (q, e, a) = Meets-ok_right _ _ _ (t, rest) (agrees s memory size input room) reads in
    record {
      after = q;
      returns = parse_starts s memory size (encode-pos t rest) small ∙ e;
      means = a.means;
      bounds = bounds_of s memory size input room q.1 a.known;
      unread = unread_of s memory size input room q.0 rest a.at;
    }
  where
    memory : Bytes
    memory = encode t ++ rest

    size : ℕ
    size = length memory

    input : IsInput memory size
    input = record { readable = omega arith; small = small; bytes = bytes }

    reads : take_transaction (view memory s.1, take size memory) ≡ ok (t, rest)
    reads =
        ap (λ (bs : Bytes). take_transaction (view memory s.1, bs))
          (take_all size memory (omega arith))
        ∙ take_transaction-encode (view memory s.1) t rest h

-- What a successful call of `parser_parse` says of its input.
pub record IsSound (memory : Bytes) (size : ℕ) (p : Context × Tx) : Type 0 where
  pub rest : Bytes
  pub supported : IsSupported (view memory p.1)
  pub splits : take size memory ≡ encode (view memory p.1) ++ rest
  pub bounds : IsInBounds size p.1
  pub unread : p.0.offset + length rest ≡ size

-- Whatever `parser_parse` accepts begins with the encoding of a supported transaction, the one that
-- the object then means: format 2, an owner of 512 bytes, at most 16 tags. No string of the object
-- reaches beyond the `size` bytes of the input, and the bytes not read are those behind the
-- encoding. The input is shorter than 65536 bytes.
pub parse-IsSound :
    (s : Context × Tx) (memory : Bytes) (size : ℕ) (p : Context × Tx)
    → IsInput memory size
    → length s.1.tags ≡ 16
    → parse s (some memory) size ≡ ok p
    → IsSound memory size p
parse-IsSound s memory zero p input room e = absurd (parse-zero s memory p e)
parse-IsSound s memory (suc n) p input room e =
    let (rest, a, bounds, unread) =
      accepted s memory (suc n) input room p
        (sym (parse_starts s memory (suc n) (omega arith) input.small) ∙ e) in
    record {
      rest = rest;
      supported = a.supported;
      splits = a.splits;
      bounds = bounds;
      unread = unread;
    }

-- A message that ends before its encoding does is never accepted, wherever it is cut.
pub parse-truncated :
    (s : Context × Tx) (t : Transaction) (sent lost : Bytes) (p : Context × Tx)
    → IsSupported t
    → sent ++ lost ≡ encode t
    → lost ≢ []
    → All IsByte sent
    → length sent < 65536
    → length s.1.tags ≡ 16
    → parse s (some sent) (length sent) ≢ ok p
parse-truncated s t sent lost p h cut missing bytes small room e =
    missing (append-nil_right sound.rest lost (sym whole))
  where
    sound : IsSound sent (length sent) p
    sound =
        parse-IsSound s sent (length sent) p
          (record { readable = omega arith; small = small; bytes = bytes }) room e

    u : Transaction
    u = view sent p.1

    joined : encode t ++ [] ≡ encode u ++ (sound.rest ++ lost)
    joined =
        append-nil (encode t)
        ∙ sym cut
        ∙ ap (λ (b : Bytes). b ++ lost)
            (sym (take_all (length sent) sent (omega arith)) ∙ sound.splits)
        ∙ append_assoc (encode u) sound.rest lost

    whole : [] ≡ sound.rest ++ lost
    whole = ok_rest (
        sym (take_transaction-encode t t [] h)
        ∙ ap (λ (b : Bytes). take_transaction (t, b)) joined
        ∙ take_transaction-encode t u (sound.rest ++ lost) sound.supported)
