-- ===== src/DeepHash/Digest.antt =====
-- `parser_getDigest` against the deep hash of the transaction that the parsed object means.
use ledger_arweave.Base.{
  append-nil, ℕ, ◌-◌, ◌≤◌, ◌<◌, ◌≡◌, refl, sym, ap, ◌∙◌, [], ◌++◌, Option, none, some, Bytes, arith,
  ltb-false, length, take, take_all, replicate, All, IsByte,
}
use ledger_arweave.Status.{
  Step, ok, fail, ParserError, parser_unexpected_error, parser_unexpected_buffer_end, codes, within,
}
use ledger_arweave.Status
use ledger_arweave.Parser.{Context, Tx, parse}
use ledger_arweave.Parser.RoundTrip.{IsInBounds, parse-encode}
use ledger_arweave.Parser.Layout.{Transaction, IsSupported, encode, view}
use ledger_arweave.DeepHash.{Hash, DeepHash, zeroed, hash_transaction, get_digest, deliver}
use ledger_arweave.DeepHash.Tree.{deep_hash, transaction_tree}
use ledger_arweave.DeepHash.Gives.{
  Gives, InMemory, TagInMemory, Gives-start, Gives-then, Gives-last, Gives-hash_chunk,
  Gives-apply_digest_tags,
}

-- How the deep hash comes out of a buffer of `digest_len` bytes.
pub reported : ℕ → Option Bytes → Step Bytes
reported digest_len none = fail parser_unexpected_error (replicate digest_len 0)
reported digest_len (some h) = ok (take 48 h ++ replicate (digest_len - 48) 0)

module _ (sha384 : Hash) where
  Gives-hash_transaction :
      (memory : Bytes) (v : Tx)
      → IsInBounds (length memory) v
      → Gives
          (λ s. s.acc)
          (hash_transaction sha384 memory v)
          (deep_hash sha384 (transaction_tree (view memory v)))
  unfolding hash_transaction InMemory TagInMemory
  Gives-hash_transaction memory v b = Gives-start sha384 zeroed.acc 9 _ _ refl λ s.
      Gives-then sha384 s.acc _ _ _ _ (Gives-hash_chunk sha384 memory v.format s b.format_in) λ s.
        Gives-then sha384 s.acc _ _ _ _ (Gives-hash_chunk sha384 memory v.owner s b.owner_in) λ s.
          Gives-then sha384 s.acc _ _ _ _ (Gives-hash_chunk sha384 memory v.target s b.target_in)
            λ s.
              Gives-then sha384 s.acc _ _ _ _
                (Gives-hash_chunk sha384 memory v.quantity s b.quantity_in)
                λ s.
                  Gives-then sha384 s.acc _ _ _ _
                    (Gives-hash_chunk sha384 memory v.reward s b.reward_in)
                    λ s.
                      Gives-then sha384 s.acc _ _ _ _
                        (Gives-hash_chunk sha384 memory v.last_tx s b.last_tx_in)
                        λ s.
                          Gives-then sha384 s.acc _ _ _ _
                            (Gives-apply_digest_tags sha384 memory v s b.tags_in b.count_in)
                            λ s.
                              Gives-then sha384 s.acc _ _ _ _
                                (Gives-hash_chunk sha384 memory v.data_size s b.data_size_in)
                                λ s.
                                  Gives-last sha384 s.acc _ _
                                    (Gives-hash_chunk sha384 memory v.data_root s b.data_root_in)

  Gives-reported :
      (digest_len : ℕ) (m : Step DeepHash) (o : Option Bytes)
      → Gives (λ s. s.acc) m o
      → deliver (replicate digest_len 0) (
          Status.◌>>=◌ m
            λ dh. ok (record dh { acc = take 48 dh.acc ++ replicate (digest_len - 48) 0 }))
        ≡ reported digest_len o
  unfolding Gives deliver reported
  Gives-reported n (ok s) (some a) e = ap (λ (b : Bytes). ok (take 48 b ++ replicate (n - 48) 0)) e
  Gives-reported n (ok s) none e = absurd e
  Gives-reported n (fail c s) (some a) e = absurd e
  Gives-reported n (fail c s) none e = ap (λ (c : ParserError). fail c (replicate n 0)) e

  -- On a buffer of at least 48 bytes, `parser_getDigest` writes the deep hash of the tree of the
  -- nine fields that the parsed object means, with zeros behind it; where the hash function fails
  -- on the way, it reports an error and leaves zeros. The strings of the object lie in the memory.
  pub get_digest-deep_hash :
      (memory : Bytes) (v : Tx) (digest : Bytes) (digest_len : ℕ)
      → IsInBounds (length memory) v
      → 48 ≤ digest_len
      → get_digest sha384 memory v digest digest_len
        ≡ reported digest_len (deep_hash sha384 (transaction_tree (view memory v)))
  unfolding get_digest
  get_digest-deep_hash memory v digest digest_len b h =
      rw (ltb-false digest_len 48 h)
        (Gives-reported digest_len _ _ (Gives-hash_transaction memory v b))

-- Parsing the encoding of a supported transaction, with any bytes behind it, succeeds, and
-- `parser_getDigest` on the object then reports the deep hash of the transaction's nine fields,
-- whatever bytes follow, in a buffer of at least 48 bytes. The input is shorter than 65536 bytes.
pub parse-get_digest :
    (sha384 : Hash) (s : Context × Tx) (t : Transaction) (rest digest : Bytes) (digest_len : ℕ)
    → IsSupported t
    → All IsByte (encode t ++ rest)
    → length (encode t ++ rest) < 65536
    → length s.1.tags ≡ 16
    → 48 ≤ digest_len
    → (p : Context × Tx) × (parse s (some (encode t ++ rest)) (length (encode t ++ rest)) ≡ ok p)
      × (get_digest sha384 (encode t ++ rest) p.1 digest digest_len
          ≡ reported digest_len (deep_hash sha384 (transaction_tree t)))
parse-get_digest sha384 s t rest digest digest_len h bytes small room long =
    let r = parse-encode s t rest h bytes small room in
    (
      r.after,
      r.returns,
      get_digest-deep_hash sha384 (encode t ++ rest) r.after.1 digest digest_len r.bounds long
          ∙ ap (λ (u : Transaction). reported digest_len (deep_hash sha384 (transaction_tree u)))
              r.means,
    )

-- A deep hash of 48 bytes fills a buffer of 48.
pub reported-some : (h : Bytes) → length h ≡ 48 → reported 48 (some h) ≡ ok h
unfolding reported
reported-some h e =
    ap (λ (b : Bytes). ok (b ++ [])) (take_all 48 h (omega arith))
    ∙ ap (λ (b : Bytes). ok b) (append-nil h)

reported-ok :
    (o : Option Bytes) (digest : Bytes)
    → reported 48 o ≡ ok digest
    → (h : Bytes) × (o ≡ some h) × (digest ≡ take 48 h)
unfolding reported
reported-ok none digest e = absurd (cc)
reported-ok (some h) digest e = (h, refl, sym (ok_inj e) ∙ append-nil (take 48 h))
  where
    ok_inj : {x y : Bytes} → ◌≡◌ {A = Step Bytes} (ok x) (ok y) → x ≡ y
    ok_inj e = cc

-- The digest that `parser_getDigest` gives is the deep hash, which has room for 48 bytes.
pub get_digest-ok :
    (sha384 : Hash) (memory : Bytes) (v : Tx) (digest : Bytes)
    → IsInBounds (length memory) v
    → get_digest sha384 memory v (replicate 48 0) 48 ≡ ok digest
    → (h : Bytes) × (deep_hash sha384 (transaction_tree (view memory v)) ≡ some h)
      × (digest ≡ take 48 h)
get_digest-ok sha384 memory v digest b e =
    reported-ok _ digest
      (sym (get_digest-deep_hash sha384 memory v (replicate 48 0) 48 b (omega arith)) ∙ e)
