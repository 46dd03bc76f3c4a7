-- ===== src/Parser/Reach.antt =====
-- Two readers, on memories that agree as far as the counter of the context reaches.
use ledger_arweave.Base.{
  ℕ, zero, suc, ◌+◌, ◌*◌, ◌≤◌, ◌<◌, ◌≡◌, refl, ap, ◌∙◌, true, false, not, ◌||◌, ◌==◌, ==_iff, Bool,
  Bool-cases, inl, inr, Bytes, arith, ltb, le_of_ltb-false, get_or, set, u16, if◌then◌else◌,
}
use ledger_arweave.Status.{
  Step, ok, fail, ◌>>=◌, within, ParserError, parser_unexpected_buffer_end,
  parser_unexpected_tx_version, parser_value_out_of_range,
}
use ledger_arweave.Parser.{
  Context, Element, Tag, Tx, empty_tag, max_number_tags, check_avail, advance, read_element,
  read_u16, read_tag, read_tags, read_field, check_format, check_owner, check_tags_count,
  read_tag_list, read,
}

module _ (m m' : Bytes) (len : ℕ) (agree : (i : ℕ) → i < len → get_or m i 0 ≡ get_or m' i 0) where
  abbrev pub at : Bytes → ℕ → Context
  at b o = record { buffer = b; buffer_len = len; offset = o }

  -- The outcome of a reader, for the memory that it reads.
  abbrev pub placed : {X : Type 0} → Bytes → Step (ℕ × X) → Step (Context × X)
  placed b (ok (o, x)) = ok (at b o, x)
  placed b (fail e (o, x)) = fail e (at b o, x)

  abbrev pub OnOk : {X : Type 0} → (ℕ → X → Type 0) → Step (ℕ × X) → Type 0
  OnOk P (ok (o, x)) = P o x
  OnOk P (fail e (o, x)) = Unit

  -- The two readers come to one outcome, and on a success it has the property.
  pub record Twin {X : Type 0} (P : ℕ → X → Type 0) (r r' : Step (Context × X)) : Type 0 where
    pub both : Step (ℕ × X)
    pub here : r ≡ placed m both
    pub there : r' ≡ placed m' both
    pub holds : OnOk P both

  abbrev pub Any : {X : Type 0} → ℕ → X → Type 0
  Any o x = Unit

  Twin->>= :
      {X : Type 0} {P Q : ℕ → X → Type 0} (r r' : Step (Context × X))
      (f : Context × X → Step (Context × X))
      → Twin P r r'
      → ((o : ℕ) (x : X) → P o x → Twin Q (f (at m o, x)) (f (at m' o, x)))
      → Twin Q (r >>= f) (r' >>= f)
  Twin->>= {X} {P} {Q} r r' f t k = by_outcome t.both t.here t.there t.holds
    where
      by_outcome :
          (b : Step (ℕ × X))
          → r ≡ placed m b
          → r' ≡ placed m' b
          → OnOk P b
          → Twin Q (r >>= f) (r' >>= f)
      by_outcome (ok (o, x)) e e' h =
          let next = k o x h in
          record {
            both = next.both;
            here = ap (λ (r : Step (Context × X)). r >>= f) e ∙ next.here;
            there = ap (λ (r : Step (Context × X)). r >>= f) e' ∙ next.there;
            holds = next.holds;
          }
      by_outcome (fail c (o, x)) e e' h = record {
        both = fail c (o, x);
        here = ap (λ (r : Step (Context × X)). r >>= f) e;
        there = ap (λ (r : Step (Context × X)). r >>= f) e';
        holds = tt;
      }

  Twin-within :
      {X Y : Type 0} {P : ℕ → X → Type 0} {Q : ℕ → Y → Type 0} (g : X → Y)
      (r r' : Step (Context × X))
      → Twin P r r'
      → ((o : ℕ) (x : X) → P o x → Q o (g x))
      → Twin Q (within (λ p. (p.0, g p.1)) r) (within (λ p. (p.0, g p.1)) r')
  Twin-within {X} {Y} {P} {Q} g r r' t k = by_outcome t.both t.here t.there t.holds
    where
      placing : Step (Context × X) → Step (Context × Y)
      placing = within (λ p. (p.0, g p.1))

      by_outcome :
          (b : Step (ℕ × X))
          → r ≡ placed m b
          → r' ≡ placed m' b
          → OnOk P b
          → Twin Q (placing r) (placing r')
      by_outcome (ok (o, x)) e e' h = record {
        both = ok (o, g x);
        here = ap placing e;
        there = ap placing e';
        holds = k o x h;
      }
      by_outcome (fail c (o, x)) e e' h = record {
        both = fail c (o, g x);
        here = ap placing e;
        there = ap placing e';
        holds = tt;
      }

  read_u16-Twin : (o n : ℕ) → Twin Any (read_u16 (at m o, n)) (read_u16 (at m' o, n))
  unfolding read_u16
  read_u16-Twin o n = elim (Bool-cases (ltb len (o + 2))) [
    | inl z ↦ record {
      both = fail parser_unexpected_buffer_end (o, n);
      here = rw z refl;
      there = rw z refl;
      holds = tt;
    }
    | inr z ↦
        let high = agree o (omega (arith, le_of_ltb-false len (o + 2) z)) in
        let low = agree (o + 1) (omega (arith, le_of_ltb-false len (o + 2) z)) in
        record {
          both = ok (u16 (o + 2), u16 (u16 (get_or m o 0 * 256) + get_or m (o + 1) 0));
          here = rw z (rw z refl);
          there = rw z (rw z (rw (high, low) refl));
          holds = tt;
        }
  ]

  -- A string that has been read lies within the counter.
  abbrev Within : ℕ → Element → Type 0
  Within o e = e.ptr + e.len ≤ len

  taken-Twin :
      (o : ℕ) (e : Element)
      → Twin Within
          (check_avail e.len (at m o, e) >>= λ s.
            advance s.1.len (s.0, record s.1 { ptr = s.0.offset }))
          (check_avail e.len (at m' o, e) >>= λ s.
            advance s.1.len (s.0, record s.1 { ptr = s.0.offset }))
  taken-Twin o e = elim (Bool-cases (ltb len (o + e.len))) [
    | inl z ↦ record {
      both = fail parser_unexpected_buffer_end (o, e);
      here = rw z refl;
      there = rw z refl;
      holds = tt;
    }
    | inr z ↦ record {
      both = ok (u16 (o + e.len), record e { ptr = o });
      here = rw z (rw z refl);
      there = rw z (rw z refl);
      holds = le_of_ltb-false len (o + e.len) z;
    }
  ]

  read_element-Twin :
      (o : ℕ) (e : Element) → Twin Within (read_element (at m o, e)) (read_element (at m' o, e))
  unfolding read_element
  read_element-Twin o e =
      Twin->>= {P = Any} _ _ _
        (Twin-within {P = Any} {Q = Any} (λ (n : ℕ). record e { len = n }) _ _
          (read_u16-Twin o e.len) λ o x h. tt)
        λ o x h. taken-Twin o x

  read_tag-Twin : (o : ℕ) (t : Tag) → Twin Any (read_tag (at m o, t)) (read_tag (at m' o, t))
  unfolding read_tag
  read_tag-Twin o t =
      Twin->>= {P = Any} _ _ _
        (Twin-within {P = Within} {Q = Any} (λ (e : Element). record t { key = e }) _ _
          (read_element-Twin o t.key) λ o x h. tt)
        λ o t h.
          Twin-within {P = Within} {Q = Any} (λ (e : Element). record t { value = e }) _ _
            (read_element-Twin o t.value) λ o x h. tt

  read_tags-Twin :
      (left i o : ℕ) (v : Tx)
      → Twin Any (read_tags left i (at m o, v)) (read_tags left i (at m' o, v))
  unfolding read_tags
  read_tags-Twin zero i o v = record { both = ok (o, v); here = refl; there = refl; holds = tt }
  read_tags-Twin (suc left) i o v =
      Twin->>= {P = Any} _ _ _
        (Twin-within {P = Any} {Q = Any} (λ (t : Tag). record v { tags = set v.tags i t }) _ _
          (read_tag-Twin o (get_or v.tags i empty_tag)) λ o x h. tt)
        λ o v h. read_tags-Twin left (i + 1) o v

  -- A test that does not read the memory.
  checked :
      (e : ParserError) (b : Bool) (o : ℕ) (v : Tx)
      → Twin Any
          (if b then fail e (at m o, v) else ok (at m o, v))
          (if b then fail e (at m' o, v) else ok (at m' o, v))
  checked e true o v = record { both = fail e (o, v); here = refl; there = refl; holds = tt }
  checked e false o v = record { both = ok (o, v); here = refl; there = refl; holds = tt }

  check_owner-Twin :
      (o : ℕ) (v : Tx) → Twin Any (check_owner (at m o, v)) (check_owner (at m' o, v))
  unfolding check_owner
  check_owner-Twin o v = elim (Bool-cases (v.owner.len == 512)) [
    | inl z ↦ rw z (record { both = ok (o, v); here = refl; there = refl; holds = tt })
    | inr z ↦ rw z (record {
      both = fail parser_unexpected_tx_version (o, v);
      here = refl;
      there = refl;
      holds = tt;
    })
  ]

  -- The version is read from a string of one byte that lies within the counter.
  check_format-Twin :
      (o : ℕ) (v : Tx)
      → Within o v.format
      → Twin Any (check_format (at m o, v)) (check_format (at m' o, v))
  unfolding check_format
  check_format-Twin o v h = elim (Bool-cases (v.format.len == 1)) [
    | inr z ↦ rw z (checked parser_unexpected_tx_version true o v)
    | inl z ↦ rw (agree v.format.ptr (omega (arith, h, (==_iff v.format.len 1).0 z))) (
        checked parser_unexpected_tx_version
          (not (v.format.len == 1) || not (get_or m' v.format.ptr 0 == b'2')) o v)
  ]

  read_tag_list-Twin :
      (o : ℕ) (v : Tx) → Twin Any (read_tag_list (at m o, v)) (read_tag_list (at m' o, v))
  unfolding read_tag_list check_tags_count
  read_tag_list-Twin o v =
      Twin->>= {P = Any} _ _ _
        (Twin-within {P = Any} {Q = Any} (λ (n : ℕ). record v { tags_count = n }) _ _
          (read_u16-Twin o v.tags_count) λ o x h. tt)
        λ o v h.
          Twin->>= {P = Any} _ _ _
            (checked parser_value_out_of_range (ltb max_number_tags v.tags_count) o v)
            λ o v h. read_tags-Twin v.tags_count 0 o v

  -- A field that `_read` reads.
  field-Twin :
      (get : Tx → Element) (put : Tx → Element → Tx) (P : ℕ → Tx → Type 0) (o : ℕ) (v : Tx)
      → ((o : ℕ) (e : Element) → Within o e → P o (put v e))
      → Twin P (read_field get put (at m o, v)) (read_field get put (at m' o, v))
  field-Twin get put P o v k =
      Twin-within {P = Within} {Q = P} (put v) _ _ (read_element-Twin o (get v)) k

  pub read-Twin : (o : ℕ) (v : Tx) → Twin Any (read (at m o, v)) (read (at m' o, v))
  unfolding read
  read-Twin o v =
      Twin->>= {P = λ o v. Within o v.format} _ _ _
        (field-Twin (λ v. v.format) (λ v e. record v { format = e }) (λ o v. Within o v.format) o v
          λ o e h. h)
        λ o v h. Twin->>= {P = Any} _ _ _ (check_format-Twin o v h) λ o v h.
          Twin->>= {P = Any} _ _ _
            (field-Twin (λ v. v.owner) (λ v e. record v { owner = e }) Any o v λ o e h. tt)
            λ o v h. Twin->>= {P = Any} _ _ _ (check_owner-Twin o v) λ o v h.
              Twin->>= {P = Any} _ _ _
                (field-Twin (λ v. v.target) (λ v e. record v { target = e }) Any o v λ o e h. tt)
                λ o v h.
                  Twin->>= {P = Any} _ _ _
                    (field-Twin (λ v. v.quantity) (λ v e. record v { quantity = e }) Any o v
                      λ o e h. tt)
                    λ o v h.
                      Twin->>= {P = Any} _ _ _
                        (field-Twin (λ v. v.reward) (λ v e. record v { reward = e }) Any o v
                          λ o e h. tt)
                        λ o v h.
                          Twin->>= {P = Any} _ _ _
                            (field-Twin (λ v. v.last_tx) (λ v e. record v { last_tx = e }) Any o v
                              λ o e h. tt)
                            λ o v h. Twin->>= {P = Any} _ _ _ (read_tag_list-Twin o v) λ o v h.
                              Twin->>= {P = Any} _ _ _
                                (field-Twin (λ v. v.data_size) (λ v e. record v { data_size = e })
                                  Any o v λ o e h. tt)
                                λ o v h.
                                  field-Twin (λ v. v.data_root) (λ v e. record v { data_root = e })
                                    Any o v λ o e h. tt
