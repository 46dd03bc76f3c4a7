-- ===== src/DeepHash/Collision.antt =====
-- The deep hash tells transactions apart, as far as SHA-384 tells strings apart.
use ledger_arweave.Base.{
  ℕ, ◌<◌, ◌≡◌, ◌≢◌, refl, sym, ap, ap₂, ◌∙◌, Bool, true, false, Bool-cases, ltb, ltb→lt,
  le_of_ltb-false, ◌⊎◌, inl, inr, List, [], ◌∷◌, ◌++◌, Option, none, some, Bytes, length,
  length-append, length-take, append_inj_left, append_inj_right, arith,
}
use ledger_arweave.Status.{codes}
use ledger_arweave.Store.{same_bytes}
use ledger_arweave.Store.Keys.{same_bytes-eq, same_bytes_self}
use ledger_arweave.DeepHash.{Hash, tag_text}
use ledger_arweave.DeepHash.Decimal.{decimal}
use ledger_arweave.DeepHash.Tree
use ledger_arweave.DeepHash.Tree.{
  Tree, Trees, blob, node, nil, cons, count, deep_hash, absorb_all, tag_tree, tag_trees,
  transaction_tree,
}

-- Two strings of one hash.
pub record Collision (sha384 : Hash) : Type 0 where
  pub one : Bytes
  pub other : Bytes
  pub different : one ≢ other
  pub hash : Bytes
  pub first : sha384 one ≡ some hash
  pub second : sha384 other ≡ some hash

-- A hash has 48 bytes.
abbrev pub Has48 : Hash → Type 0
Has48 sha384 = (b h : Bytes) → sha384 b ≡ some h → length h ≡ 48

some_inj : {x y : Bytes} → ◌≡◌ {A = Option Bytes} (some x) (some y) → x ≡ y
some_inj e = cc

-- The value of a chain of calls comes from a value of the first.
bound :
    {A : Type 0} (o : Option A) (f : A → Option Bytes) (h : Bytes)
    → Tree.◌>>=◌ o f ≡ some h
    → (a : A) × (o ≡ some a) × (f a ≡ some h)
bound none f h e = absurd (cc)
bound (some a) f h e = (a, refl, e)

order : (m n : ℕ) → (m ≡ n) ⊎ ((m < n) ⊎ (n < m))
order m n = elim (Bool-cases (ltb m n)) [
  | inl lt ↦ inr (inl (ltb→lt m n lt))
  | inr ge ↦ elim (Bool-cases (ltb n m)) [
    | inl gt ↦ inr (inr (ltb→lt n m gt))
    | inr le ↦ inl (omega (arith, le_of_ltb-false m n ge, le_of_ltb-false n m le))
  ]
]

module _ (sha384 : Hash) (law : Has48 sha384) where
  abbrev pub Or : Type 0 → Type 0
  Or P = P ⊎ Collision sha384

  abbrev pub then : {P Q : Type 0} → Or P → (P → Or Q) → Or Q
  then (inl a) f = f a
  then (inr c) f = inr c

  same_input : (x y h : Bytes) → sha384 x ≡ some h → sha384 y ≡ some h → Or (x ≡ y)
  same_input x y h p q = elim (Bool-cases (same_bytes x y)) [
    | inl e ↦ inl (same_bytes-eq x y e)
    | inr e ↦ inr (record {
      one = x;
      other = y;
      different = λ same. ne (ap (same_bytes x) (sym same) ∙ same_bytes_self x) e;
      hash = h;
      first = p;
      second = q;
    })
  ]
    where
      ne : {b : Bool} → b ≡ true → b ≡ false → ⊥
      ne p q = cc

  same_pair :
      (a b c d h : Bytes)
      → length a ≡ 48
      → length c ≡ 48
      → sha384 (a ++ b) ≡ some h
      → sha384 (c ++ d) ≡ some h
      → Or ((a ≡ c) × (b ≡ d))
  same_pair a b c d h la lc p q =
      then (same_input (a ++ b) (c ++ d) h p q)
        λ e. inl (append_inj_left a c b d (la ∙ sym lc) e, append_inj_right a c b d (la ∙ sym lc) e)

  pub blob-inj :
      (x y h : Bytes)
      → deep_hash sha384 (blob x) ≡ some h
      → deep_hash sha384 (blob y) ≡ some h
      → Or (x ≡ y)
  unfolding deep_hash
  blob-inj x y h p q =
      let (a, ea, pa) = bound _ _ h p in
      let (b, eb, pb) = bound _ _ h pa in
      let (c, ec, qc) = bound _ _ h q in
      let (d, ed, qd) = bound _ _ h qc in
      then (same_pair a b c d h (law _ a ea) (law _ c ec) pb qd)
        λ e. same_input x y b eb (ed ∙ ap some (sym e.1))

  -- A child taken in: its hash, and what the accumulator has come to.
  absorb_all-cons :
      (t : Tree) (ts : Trees) (a h : Bytes)
      → absorb_all sha384 a (cons t ts) ≡ some h
      → (b a' : Bytes) × (deep_hash sha384 t ≡ some b)
        × (sha384 (a ++ b) ≡ some a')
        × (absorb_all sha384 a' ts ≡ some h)
  unfolding absorb_all
  absorb_all-cons t ts a h e =
      let (b, eb, pb) =
        bound (deep_hash sha384 t)
          (λ b. Tree.◌>>=◌ (sha384 (a ++ b)) (λ (a' : Bytes). absorb_all sha384 a' ts)) h e in
      let (a', ea, pa) = bound (sha384 (a ++ b)) (λ a'. absorb_all sha384 a' ts) h pb in
      (b, a', eb, ea, pa)

  deep_hash-node :
      (ts : Trees) (h : Bytes)
      → deep_hash sha384 (node ts) ≡ some h
      → (a : Bytes) × (sha384 (tag_text (codes "list") (count ts)) ≡ some a)
        × (absorb_all sha384 a ts ≡ some h)
  unfolding deep_hash
  deep_hash-node ts h e =
      bound (sha384 (tag_text (codes "list") (count ts))) (λ a. absorb_all sha384 a ts) h e

  -- Child by child, two nodes have children of one hash.
  abbrev pub Agree : Trees → Trees → Type 0
  Agree nil nil = Unit
  Agree (cons t ts) (cons u us) =
      ((h : Bytes) × (deep_hash sha384 t ≡ some h) × (deep_hash sha384 u ≡ some h)) × Agree ts us
  Agree nil (cons u us) = ⊥
  Agree (cons t ts) nil = ⊥

  same_count :
      (ts us : Trees) (a c h : Bytes)
      → count ts ≡ count us
      → length a ≡ 48
      → length c ≡ 48
      → absorb_all sha384 a ts ≡ some h
      → absorb_all sha384 c us ≡ some h
      → Or ((a ≡ c) × Agree ts us)
  unfolding absorb_all
  same_count nil nil a c h n la lc p q = inl (some_inj (p ∙ sym q), tt)
  same_count (cons t ts) (cons u us) a c h n la lc p q =
      let (b, a', eb, ea, pa) = absorb_all-cons t ts a h p in
      let (d, c', ed, ec, qc) = absorb_all-cons u us c h q in
      then (same_count ts us a' c' h (omega arith) (law _ a' ea) (law _ c' ec) pa qc) λ r.
        then (same_pair a b c d a' la lc ea (ec ∙ ap some (sym r.0)))
          λ e. inl (e.0, ((b, eb, ed ∙ ap some (sym e.1)), r.1))
  same_count nil (cons u us) a c h n la lc p q = absurd (omega arith)
  same_count (cons t ts) nil a c h n la lc p q = absurd (omega arith)

  absorb_all-length :
      (ts : Trees) (a h : Bytes) → length a ≡ 48 → absorb_all sha384 a ts ≡ some h → length h ≡ 48
  unfolding absorb_all
  absorb_all-length nil a h la e = ap length (sym (some_inj e)) ∙ la
  absorb_all-length (cons t ts) a h la e =
      let (b, a', eb, ea, pa) = absorb_all-cons t ts a h e in
      absorb_all-length ts a' h (law _ a' ea) pa

  pub deep_hash-length : (t : Tree) (h : Bytes) → deep_hash sha384 t ≡ some h → length h ≡ 48
  unfolding deep_hash
  deep_hash-length (blob x) h e =
      let (a, ea, pa) =
        bound (sha384 (tag_text (codes "blob") (length x)))
          (λ a. Tree.◌>>=◌ (sha384 x) (λ (b : Bytes). sha384 (a ++ b))) h e in
      let (b, eb, pb) = bound (sha384 x) (λ b. sha384 (a ++ b)) h pa in law (a ++ b) h pb
  deep_hash-length (node ts) h e =
      let (a, ea, pa) = deep_hash-node ts h e in absorb_all-length ts a h (law _ a ea) pa

  -- With a child too many, the accumulator that the other node starts from is a hash of 96 bytes.
  excess :
      (ts us : Trees) (a c h : Bytes)
      → count us < count ts
      → length a ≡ 48
      → length c ≡ 48
      → absorb_all sha384 a ts ≡ some h
      → absorb_all sha384 c us ≡ some h
      → Or ((x : Bytes) × (length x ≡ 96) × (sha384 x ≡ some c))
  unfolding absorb_all
  excess nil us a c h n la lc p q = absurd (omega arith)
  excess (cons t ts) us a c h n la lc p q =
      let (b, a', eb, ea, pa) = absorb_all-cons t ts a h p in
      elim (order (count ts) (count us)) [
        | inl e ↦ then (same_count ts us a' c h e (law _ a' ea) lc pa q) λ r. inl (
          a ++ b,
          omega (arith, la, length-append a b, deep_hash-length t b eb),
          ea ∙ ap some r.0,
        )
        | inr (inl lt) ↦ absurd (omega arith)
        | inr (inr gt) ↦ excess ts us a' c h gt (law _ a' ea) lc pa q
      ]

  -- What a node starts from is a hash of fewer bytes.
  not_start :
      (n : ℕ) (c : Bytes)
      → sha384 (tag_text (codes "list") n) ≡ some c
      → (x : Bytes) × (length x ≡ 96) × (sha384 x ≡ some c)
      → Collision sha384
  not_start n c e (x, long, f) = elim (same_input (tag_text (codes "list") n) x c e f) [
    | inl same ↦
        absurd (omega (arith, ap length same, long, length-take 49 (codes "list" ++ decimal n)))
    | inr k ↦ k
  ]

  pub node-inj :
      (ts us : Trees) (h : Bytes)
      → deep_hash sha384 (node ts) ≡ some h
      → deep_hash sha384 (node us) ≡ some h
      → Or (Agree ts us)
  node-inj ts us h p q =
      let (a, ea, pa) = deep_hash-node ts h p in
      let (c, ec, qc) = deep_hash-node us h q in
      elim (order (count ts) (count us)) [
        | inl e ↦ then (same_count ts us a c h e (law _ a ea) (law _ c ec) pa qc) λ r. inl r.1
        | inr (inl lt) ↦
            then (excess us ts c a h lt (law _ c ec) (law _ a ea) qc pa)
              λ x. inr (not_start (count ts) a ea x)
        | inr (inr gt) ↦
            then (excess ts us a c h gt (law _ a ea) (law _ c ec) pa qc)
              λ x. inr (not_start (count us) c ec x)
      ]

  pair_of :
      (ps qs : Bytes × Bytes) (h : Bytes)
      → deep_hash sha384 (tag_tree ps) ≡ some h
      → deep_hash sha384 (tag_tree qs) ≡ some h
      → Or (ps ≡ qs)
  pair_of (k, v) (l, w) h p q = then (node-inj _ _ h p q) λ r.
      then (blob-inj k l r.0.0 r.0.1 r.0.2) λ e.
        then (blob-inj v w r.1.0.0 r.1.0.1 r.1.0.2) λ f. inl (ap₂ (λ (x y : Bytes). (x, y)) e f)

  pub tags-inj : (ps qs : List (Bytes × Bytes)) → Agree (tag_trees ps) (tag_trees qs) → Or (ps ≡ qs)
  tags-inj [] [] r = inl refl
  tags-inj (p ∷ ps) (q ∷ qs) r =
      then (pair_of p q r.0.0 r.0.1 r.0.2) λ e. then (tags-inj ps qs r.1) λ f. inl (ap₂ ◌∷◌ e f)
  tags-inj [] (q ∷ qs) r = absurd r
  tags-inj (p ∷ ps) [] r = absurd r
