-- ===== src/DeepHash/Binding.antt =====
-- A digest that the app computes stands for one transaction.
use ledger_arweave.Base.{
  ◌≡◌, sym, ap, ◌∙◌, ◌⊎◌, inl, some, Bytes, length, take, take_all, replicate, arith,
}
use ledger_arweave.Status
use ledger_arweave.Parser.{Tx}
use ledger_arweave.Parser.Layout.{Transaction, view}
use ledger_arweave.Parser.RoundTrip.{IsInBounds}
use ledger_arweave.DeepHash.{Hash, get_digest}
use ledger_arweave.DeepHash.Tree.{deep_hash, transaction_tree}
use ledger_arweave.DeepHash.Digest.{get_digest-ok}
use ledger_arweave.DeepHash.Collision.{
  Collision, Has48, Or, then, blob-inj, node-inj, tags-inj, deep_hash-length,
}

same_fields :
    {t u : Transaction}
    → t.format ≡ u.format
    → t.owner ≡ u.owner
    → t.target ≡ u.target
    → t.quantity ≡ u.quantity
    → t.reward ≡ u.reward
    → t.last_tx ≡ u.last_tx
    → t.tags ≡ u.tags
    → t.data_size ≡ u.data_size
    → t.data_root ≡ u.data_root
    → t ≡ u
same_fields a b c d e f g h k = λ i. record {
  format = a i;
  owner = b i;
  target = c i;
  quantity = d i;
  reward = e i;
  last_tx = f i;
  tags = g i;
  data_size = h i;
  data_root = k i;
}

module _ (sha384 : Hash) (law : Has48 sha384) where
  transaction-inj :
      (t u : Transaction) (h : Bytes)
      → deep_hash sha384 (transaction_tree t) ≡ some h
      → deep_hash sha384 (transaction_tree u) ≡ some h
      → Or sha384 law (t ≡ u)
  transaction-inj t u h p q = then sha384 law (node-inj sha384 law _ _ h p q) λ r.
      next (blob-inj sha384 law _ _ _ r.0.1 r.0.2) λ a.
        next (blob-inj sha384 law _ _ _ r.1.0.1 r.1.0.2) λ b.
          next (blob-inj sha384 law _ _ _ r.1.1.0.1 r.1.1.0.2) λ c.
            next (blob-inj sha384 law _ _ _ r.1.1.1.0.1 r.1.1.1.0.2) λ d.
              next (blob-inj sha384 law _ _ _ r.1.1.1.1.0.1 r.1.1.1.1.0.2) λ e.
                next (blob-inj sha384 law _ _ _ r.1.1.1.1.1.0.1 r.1.1.1.1.1.0.2) λ f.
                  next (node-inj sha384 law _ _ _ r.1.1.1.1.1.1.0.1 r.1.1.1.1.1.1.0.2) λ list.
                    next (tags-inj sha384 law t.tags u.tags list) λ g.
                      next (blob-inj sha384 law _ _ _ r.1.1.1.1.1.1.1.0.1 r.1.1.1.1.1.1.1.0.2) λ k.
                        next (blob-inj sha384 law _ _ _ r.1.1.1.1.1.1.1.1.0.1 r.1.1.1.1.1.1.1.1.0.2)
                          λ l. inl (same_fields a b c d e f g k l)
    where
      next : {P Q : Type 0} → Or sha384 law P → (P → Or sha384 law Q) → Or sha384 law Q
      next = then sha384 law

  -- If `parser_getDigest` gives one digest of 48 bytes for two parsed objects, the objects mean one
  -- transaction, in all its fields and tags, or two strings with one SHA-384 hash are at hand. A
  -- hash has 48 bytes, and the strings of the objects lie in their memories.
  pub get_digest-inj :
      (memory memory' : Bytes) (v v' : Tx) (digest : Bytes)
      → IsInBounds (length memory) v
      → IsInBounds (length memory') v'
      → get_digest sha384 memory v (replicate 48 0) 48 ≡ Status.ok digest
      → get_digest sha384 memory' v' (replicate 48 0) 48 ≡ Status.ok digest
      → (view memory v ≡ view memory' v') ⊎ Collision sha384
  get_digest-inj memory memory' v v' digest b b' p q =
      let (h, e, s) = get_digest-ok sha384 memory v digest b p in
      let (h', e', s') = get_digest-ok sha384 memory' v' digest b' q in
      transaction-inj (view memory v) (view memory' v') digest (e ∙ ap some (whole _ h e s))
        (e' ∙ ap some (whole _ h' e' s'))
    where
      whole :
          (t : Transaction) (h : Bytes)
          → deep_hash sha384 (transaction_tree t) ≡ some h
          → digest ≡ take 48 h
          → h ≡ digest
      whole t h e s = sym (s ∙ take_all 48 h (omega (arith, deep_hash-length sha384 law _ h e)))
