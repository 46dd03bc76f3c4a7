-- ===== src/Parser/Agreement.antt =====
-- `_read` on a context agrees with the list reader on the bytes that the context has left.
use mathlib.Core.List.{map, map-append}
use native.Mathlib.Nat.{suc-add, zero-add, add-zero}
use ledger_arweave.Base.{
  ℕ, zero, suc, ◌+◌, ◌≤◌, ◌<◌, ◌≡◌, refl, sym, ap, ap₂, not, ◌||◌, ◌∙◌, subst, List, [], ◌∷◌, ◌++◌,
  Bytes, IsByte, All, arith, ltb, ◌==◌, All-append, le_of_ltb-false, Bool-cases, inl, inr, length,
  take, drop, length-drop, get_or-take, get_or-drop, get_or, set, length-set, length-take,
}
use ledger_arweave.Status.{Step, ok, fail, ◌>>=◌, within}
use ledger_arweave.Parser.{
  Context, Element, Tag, Tx, read_u16, read_tag, read_tags, read_field, check_format, check_owner,
  check_tags_count, read_tag_list, read, max_number_tags, empty_tag,
}
use ledger_arweave.Parser.Cursor.{
  Meets, Meets-bind, Meets-refuse, Meets-accept, Meets-within, Meets-right, AtNumber, At, AtElement,
  Meets-element, Meets-u16, take_u16,
}
use ledger_arweave.Parser.Layout.{Transaction, view, view_tag, view_tags, view_element}
use ledger_arweave.Parser.Lists.{
  take_count, take_field, expect_version, expect_modulus, take_tag, take_tags, take_tag_list,
  take_transaction,
}

take-set {ℓ} :
    {A : Type ℓ} (xs : List A) (i : ℕ) (v : A)
    → i < length xs
    → take (i + 1) (set xs i v) ≡ take i xs ++ v ∷ []
take-set [] i v h = absurd (omega arith)
take-set (x ∷ xs) zero v h = refl
take-set (x ∷ xs) (suc i) v h = rw suc-add (ap (◌∷◌ x) (take-set xs i v (omega arith)))

module _ (buffer : Bytes) (size : ℕ) (fits : size ≤ length buffer) (small : size < 65536)
    (bytes : All IsByte buffer) where
  abbrev pub Inside : Element → Type 0
  Inside e = e.ptr + e.len ≤ size

  abbrev pub InsideTag : Tag → Type 0
  InsideTag t = Inside t.key × Inside t.value

  -- The context is where the rest begins, the object means the transaction read so far, and `P` is
  -- known of the object.
  pub record AtTx (P : Tx → Type 0) (p : Context × Tx) (q : Transaction × Bytes) : Type 0 where
    pub at : At buffer size p.0 q.1
    pub means : view buffer p.1 ≡ q.0
    pub room : length p.1.tags ≡ 16
    pub known : P p.1

  -- A field of the object, and the field of the transaction that it means.
  record Field : Type 0 where
    get : Tx → Element
    put : Tx → Element → Tx
    get_bytes : Transaction → Bytes
    put_bytes : Transaction → Bytes → Transaction
    view-put :
        (v : Tx) (e : Element)
        → view buffer (put v e) ≡ put_bytes (view buffer v) (view_element buffer e)
    tags-put : (v : Tx) (e : Element) → (put v e).tags ≡ v.tags
    get-put : (v : Tx) (e : Element) → get (put v e) ≡ e

  Meets-field :
      (P : Tx → Type 0) (f : Field) (p : Context × Tx) (q : Transaction × Bytes)
      → ((v : Tx) (e : Element) → P v → P (f.put v e))
      → AtTx P p q
      → Meets
          (AtTx (λ v. P v × Inside (f.get v)))
          (read_field f.get f.put p)
          (take_field f.get_bytes f.put_bytes q)
  Meets-field P f p q holds a =
      Meets-within (AtElement buffer size fits small bytes) (AtTx (λ v. P v × Inside (f.get v))) _ _
        _ _ (Meets-element buffer size fits small bytes p.0 (f.get p.1) (f.get_bytes q.0) q.1 a.at)
        λ s t h. record {
          at = h.0;
          means = f.view-put p.1 s.1 ∙ ap₂ f.put_bytes a.means h.1.shown;
          room = ap length (f.tags-put p.1 s.1) ∙ a.room;
          known = (holds p.1 s.1 a.known, rw (f.get-put p.1 s.1) h.1.stays);
        }

  abbrev format_field : Field
  format_field = record {
    get = λ v. v.format;
    put = λ v e. record v { format = e };
    get_bytes = λ t. t.format;
    put_bytes = λ t b. record t { format = b };
    view-put = λ v e. refl;
    tags-put = λ v e. refl;
    get-put = λ v e. refl;
  }

  abbrev owner_field : Field
  owner_field = record {
    get = λ v. v.owner;
    put = λ v e. record v { owner = e };
    get_bytes = λ t. t.owner;
    put_bytes = λ t b. record t { owner = b };
    view-put = λ v e. refl;
    tags-put = λ v e. refl;
    get-put = λ v e. refl;
  }

  abbrev target_field : Field
  target_field = record {
    get = λ v. v.target;
    put = λ v e. record v { target = e };
    get_bytes = λ t. t.target;
    put_bytes = λ t b. record t { target = b };
    view-put = λ v e. refl;
    tags-put = λ v e. refl;
    get-put = λ v e. refl;
  }

  abbrev quantity_field : Field
  quantity_field = record {
    get = λ v. v.quantity;
    put = λ v e. record v { quantity = e };
    get_bytes = λ t. t.quantity;
    put_bytes = λ t b. record t { quantity = b };
    view-put = λ v e. refl;
    tags-put = λ v e. refl;
    get-put = λ v e. refl;
  }

  abbrev reward_field : Field
  reward_field = record {
    get = λ v. v.reward;
    put = λ v e. record v { reward = e };
    get_bytes = λ t. t.reward;
    put_bytes = λ t b. record t { reward = b };
    view-put = λ v e. refl;
    tags-put = λ v e. refl;
    get-put = λ v e. refl;
  }

  abbrev last_tx_field : Field
  last_tx_field = record {
    get = λ v. v.last_tx;
    put = λ v e. record v { last_tx = e };
    get_bytes = λ t. t.last_tx;
    put_bytes = λ t b. record t { last_tx = b };
    view-put = λ v e. refl;
    tags-put = λ v e. refl;
    get-put = λ v e. refl;
  }

  abbrev data_size_field : Field
  data_size_field = record {
    get = λ v. v.data_size;
    put = λ v e. record v { data_size = e };
    get_bytes = λ t. t.data_size;
    put_bytes = λ t b. record t { data_size = b };
    view-put = λ v e. refl;
    tags-put = λ v e. refl;
    get-put = λ v e. refl;
  }

  abbrev data_root_field : Field
  data_root_field = record {
    get = λ v. v.data_root;
    put = λ v e. record v { data_root = e };
    get_bytes = λ t. t.data_root;
    put_bytes = λ t b. record t { data_root = b };
    view-put = λ v e. refl;
    tags-put = λ v e. refl;
    get-put = λ v e. refl;
  }

  abbrev AtTag : Context × Tag → (Bytes × Bytes) × Bytes → Type 0
  AtTag p q = At buffer size p.0 q.1 × (view_tag buffer p.1 ≡ q.0) × InsideTag p.1

  Meets-tag :
      (c : Context) (t : Tag) (rest : Bytes)
      → At buffer size c rest
      → Meets AtTag (read_tag (c, t)) (take_tag (([], []), rest))
  unfolding read_tag take_tag
  Meets-tag c t rest a =
      Meets-bind AtKey AtTag _ _ _ _
        (Meets-within (AtElement buffer size fits small bytes) AtKey _ _ _ _
          (Meets-element buffer size fits small bytes c t.key [] rest a)
          λ s t h. (h.0, h.1.shown, h.1.stays))
        λ s q k.
          Meets-within (AtElement buffer size fits small bytes) AtTag _ _ _ _
            (Meets-element buffer size fits small bytes s.0 s.1.value q.0.1 q.1 k.0)
            λ s' t' h. (h.0, ap₂ (λ (x y : Bytes). (x, y)) k.1 h.1.shown, (k.2, h.1.stays))
    where
      AtKey : Context × Tag → (Bytes × Bytes) × Bytes → Type 0
      AtKey p q = At buffer size p.0 q.1 × (view_element buffer p.1.key ≡ q.0.0) × Inside p.1.key

  -- After `i` rounds of the loop: the first `i` entries are the tags read, and no other field of the
  -- object differs from the one that the loop began with.
  record AtTags (v : Tx) (i : ℕ) (p : Context × Tx) (q : List (Bytes × Bytes) × Bytes)
      : Type 0 where
    at : At buffer size p.0 q.1
    read_so_far : view_tags buffer i p.1.tags ≡ q.0
    room : length p.1.tags ≡ 16
    rest_kept : p.1 ≡ record v { tags = p.1.tags }
    bounded : All InsideTag (take i p.1.tags)

  Meets-tags :
      (v : Tx) (left i : ℕ) (p : Context × Tx) (q : List (Bytes × Bytes) × Bytes)
      → i + left ≤ 16
      → AtTags v i p q
      → Meets (AtTags v (i + left)) (read_tags left i p) (take_tags left q)
  unfolding read_tags take_tags Meets
  Meets-tags v zero i p q h a = subst (λ (k : ℕ). AtTags v k p q) (omega arith) a
  Meets-tags v (suc left) i p q h a =
      Meets-bind (AtTags v (i + 1)) (AtTags v (i + suc left)) _ _ _ _
        (Meets-within AtTag (AtTags v (i + 1)) _ _ _ _
          (Meets-tag p.0 (get_or p.1.tags i empty_tag) q.1 a.at) λ s t k. next s t k)
        λ s t k.
          subst (λ (n : ℕ). Meets (AtTags v n) (read_tags left (i + 1) s) (take_tags left t))
            (omega arith) (Meets-tags v left (i + 1) s t (omega arith) k)
    where
      next :
          (s : Context × Tag) (t : (Bytes × Bytes) × Bytes)
          → AtTag s t
          → AtTags v (i + 1) (s.0, record p.1 { tags = set p.1.tags i s.1 }) (q.0 ++ t.0 ∷ [], t.1)
      next s t k = record {
        at = k.0;
        read_so_far =
            ap (map (view_tag buffer)) (take-set p.1.tags i s.1 (omega (arith, a.room)))
            ∙ map-append (view_tag buffer) (take i p.1.tags) (s.1 ∷ [])
            ∙ ap₂ (λ (xs : List (Bytes × Bytes)) (x : Bytes × Bytes). xs ++ x ∷ []) a.read_so_far
                k.1;
        room = length-set p.1.tags i s.1 ∙ a.room;
        rest_kept = ap (λ (w : Tx). record w { tags = set p.1.tags i s.1 }) a.rest_kept;
        bounded =
            subst (All InsideTag) (sym (take-set p.1.tags i s.1 (omega (arith, a.room))))
              (All-append InsideTag (take i p.1.tags) (s.1 ∷ []) a.bounded (k.2, tt));
      }

  abbrev counted : Tx → ℕ → Tx
  counted v n = record v { tags_count = n }

  module _ (P : Tx → Type 0)
      (holds : (v : Tx) (n : ℕ) (ts : List Tag)
        → P v
        → P (record v { tags_count = n; tags = ts })) where
    abbrev WithTags : Tx → Type 0
    WithTags v = P v × (All InsideTag (take v.tags_count v.tags) × (v.tags_count ≤ length v.tags))

    Meets-count :
        (c : Context) (v : Tx) (t : Transaction) (n : ℕ) (rest : Bytes)
        → AtTx P (c, v) (t, rest)
        → Meets
            (AtTx WithTags)
            (check_tags_count (c, counted v n) >>= λ s. read_tags s.1.tags_count 0 s)
            (within (λ r. (record t { tags = r.0 }, r.1)) (take_count n rest))
    unfolding check_tags_count take_count Meets
    Meets-count c v t n rest a = elim (Bool-cases (ltb max_number_tags n)) [
      | inl many ↦ rw many refl
      | inr few ↦ rw few (
          Meets-right (AtTags (counted v n) (0 + n)) (AtTx WithTags) _ _ _
            (Meets-tags (counted v n) n 0 (c, counted v n) ([], rest)
              (omega (arith, le_of_ltb-false 16 n few))
              (record {
                at = a.at;
                read_so_far = refl;
                room = a.room;
                rest_kept = refl;
                bounded = tt;
              }))
            λ s r k.
              let count : 0 + n ≡ s.1.tags_count =
                zero-add n ∙ sym (ap (λ (w : Tx). w.tags_count) k.rest_kept) in
              record {
                at = k.at;
                means =
                    ap (view buffer) k.rest_kept
                    ∙ ap₂
                        (λ (t' : Transaction) (ts : List (Bytes × Bytes)). record t' { tags = ts })
                        a.means
                        (ap (λ (m : ℕ). view_tags buffer m s.1.tags) (sym (zero-add n))
                          ∙ k.read_so_far);
                room = k.room;
                known = (
                  subst P (sym k.rest_kept) (holds v n s.1.tags a.known),
                  (
                    subst (λ (m : ℕ). All InsideTag (take m s.1.tags)) count k.bounded,
                    omega (arith, count, k.room, le_of_ltb-false 16 n few),
                  ),
                );
              })
    ]

    Meets-tag_list :
        (p : Context × Tx) (q : Transaction × Bytes)
        → AtTx P p q
        → Meets
            (AtTx WithTags)
            (read_tag_list p)
            (within (λ r. (record q.0 { tags = r.0 }, r.1)) (take_tag_list q.1))
    unfolding read_tag_list take_u16 take_tag_list Meets
    Meets-tag_list p (t, rest) a =
        measured rest (read_u16 (p.0, p.1.tags_count))
          (Meets-u16 buffer size fits small bytes p.0 p.1.tags_count 0 rest a.at)
      where
        measured :
            (rest : Bytes) (r : Step (Context × ℕ))
            → Meets (AtNumber buffer size fits small bytes) r (take_u16 0 rest)
            → Meets
                (AtTx WithTags)
                (within (λ k. (k.0, record p.1 { tags_count = k.1 })) r >>= λ s.
                  check_tags_count s >>= λ s. read_tags s.1.tags_count 0 s)
                (within (λ k. (record t { tags = k.0 }, k.1)) (take_tag_list rest))
        measured (h ∷ l ∷ rest) (ok k) m =
            subst
              (λ (n : ℕ).
                Meets (AtTx WithTags)
                  (check_tags_count (k.0, record p.1 { tags_count = k.1 }) >>= λ s.
                    read_tags s.1.tags_count 0 s)
                  (within (λ k. (record t { tags = k.0 }, k.1)) (take_count n rest)))
              m.1
              (Meets-count k.0 p.1 t k.1 rest
                (record { at = m.0; means = a.means; room = a.room; known = a.known }))
        measured (h ∷ l ∷ rest) (fail x k) m = absurd m
        measured [] (ok k) m = absurd m
        measured [] (fail x k) m = m
        measured (h ∷ []) (ok k) m = absurd m
        measured (h ∷ []) (fail x k) m = m

  view_length : (e : Element) → Inside e → length (view_element buffer e) ≡ e.len
  view_length e h = omega (arith, length-take e.len (drop e.ptr buffer), length-drop e.ptr buffer)

  -- The first byte of a string is the byte at its pointer.
  view_head :
      (e : Element) (c : Context)
      → c.buffer ≡ buffer
      → 0 < e.len
      → get_or c.buffer e.ptr 0 ≡ get_or (view_element buffer e) 0 0
  view_head e c same h =
      ap (λ (b : Bytes). get_or b e.ptr 0) same
      ∙ ap (λ (i : ℕ). get_or buffer i 0) (sym (add-zero e.ptr))
      ∙ sym (get_or-drop e.ptr 0 buffer 0)
      ∙ sym (get_or-take e.len 0 (drop e.ptr buffer) 0 h)

  module _ (P : Tx → Type 0) where
    -- The two checks of `_read` between the fields look at the string last read.
    Meets-format :
        (p : Context × Tx) (q : Transaction × Bytes)
        → AtTx (λ v. P v × Inside v.format) p q
        → Meets (AtTx (λ v. P v × Inside v.format)) (check_format p) (expect_version q)
    unfolding check_format expect_version
    Meets-format p q a = Meets-refuse (AtTx (λ v. P v × Inside v.format)) p q _ _ _ agree a
      where
        shown : view_element buffer p.1.format ≡ q.0.format
        shown = ap (λ (t : Transaction). t.format) a.means

        len : p.1.format.len ≡ length q.0.format
        len = sym (view_length p.1.format a.known.1) ∙ ap length shown

        first : p.1.format.len ≡ 1 → get_or p.0.buffer p.1.format.ptr 0 ≡ get_or q.0.format 0 0
        first h =
            view_head p.1.format p.0 a.at.same (omega arith)
            ∙ ap (λ (b : Bytes). get_or b 0 0) shown

        agree :
            (not (p.1.format.len == 1) || not (get_or p.0.buffer p.1.format.ptr 0 == b'2'))
            ≡ (not (length q.0.format == 1) || not (get_or q.0.format 0 0 == b'2'))
        agree = ground (arith, len, first)

    Meets-owner :
        (p : Context × Tx) (q : Transaction × Bytes)
        → AtTx (λ v. P v × Inside v.owner) p q
        → Meets (AtTx (λ v. P v × Inside v.owner)) (check_owner p) (expect_modulus q)
    unfolding check_owner expect_modulus
    Meets-owner p q a =
        Meets-accept (AtTx (λ v. P v × Inside v.owner)) p q _ _ _
          (ap (λ (n : ℕ). n == 512)
            (sym (view_length p.1.owner a.known.1)
              ∙ ap (λ (t : Transaction). length t.owner) a.means))
          a

  -- What is known of the fields of an object that has been read.
  abbrev pub Known : Tx → Type 0
  Known v =
      ((((((((Unit {0} × Inside v.format) × Inside v.owner) × Inside v.target) × Inside v.quantity)
              × Inside v.reward)
            × Inside v.last_tx)
          × (All InsideTag (take v.tags_count v.tags) × (v.tags_count ≤ length v.tags)))
        × Inside v.data_size)
      × Inside v.data_root

  -- `_read` and the list reader succeed together, with the same transaction and the same rest, and
  -- fail together, with the same error.
  pub Meets-read :
      (p : Context × Tx) (q : Transaction × Bytes)
      → AtTx (λ _. Unit {0}) p q
      → Meets (AtTx Known) (read p) (take_transaction q)
  unfolding read take_transaction
  Meets-read p q a = Meets-bind _ _ _ _ _ _ (Meets-field _ format_field p q (λ v e k. k) a) λ p q a.
      Meets-bind _ _ _ _ _ _ (Meets-format _ p q a) λ p q a.
        Meets-bind _ _ _ _ _ _ (Meets-field _ owner_field p q (λ v e k. k) a) λ p q a.
          Meets-bind _ _ _ _ _ _ (Meets-owner _ p q a) λ p q a.
            Meets-bind _ _ _ _ _ _ (Meets-field _ target_field p q (λ v e k. k) a) λ p q a.
              Meets-bind _ _ _ _ _ _ (Meets-field _ quantity_field p q (λ v e k. k) a) λ p q a.
                Meets-bind _ _ _ _ _ _ (Meets-field _ reward_field p q (λ v e k. k) a) λ p q a.
                  Meets-bind _ _ _ _ _ _ (Meets-field _ last_tx_field p q (λ v e k. k) a) λ p q a.
                    Meets-bind _ _ _ _ _ _ (Meets-tag_list _ (λ v n ts k. k) p q a) λ p q a.
                      Meets-bind _ _ _ _ _ _ (Meets-field _ data_size_field p q (λ v e k. k) a)
                        λ p q a. Meets-field _ data_root_field p q (λ v e k. k) a
