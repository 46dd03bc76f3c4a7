-- ===== src/Parser/Accept.antt =====
-- The list reader inverts the encoding: it reads back every supported transaction, and what it reads
-- from any bytes is a supported transaction whose encoding stands at the front of them.
use ledger_arweave.Base.{
  ℕ, zero, suc, ◌*◌, ◌+◌, ◌/◌, ◌%◌, ◌≤◌, ◌≡◌, refl, sym, ap, ap₂, ◌∙◌, subst, List, [], ◌∷◌, ◌++◌,
  append_assoc, append-nil, Bytes, IsByte, All, arith, ltb, ltb-false, le_of_ltb-false, true,
  if◌then◌else◌, Bool-cases, inl, inr, length, take, drop, take-append, drop-append,
  take-append-drop, length-append, length-take, All-drop,
}
use ledger_arweave.Status.{
  Step, ok, fail, ◌>>=◌, within, >>=-eq-ok, within-eq-ok, parser_value_out_of_range,
}
use ledger_arweave.Parser.Cursor.{take_body, take_element}
use ledger_arweave.Parser.Layout.{Fits, encode_u16, encode_element, encode_tags}
use ledger_arweave.Parser.Lists.{take_tag, take_tags, take_count, take_tag_list}

pub take_element-encode :
    (old b rest : Bytes) → Fits b → take_element old (encode_element b ++ rest) ≡ ok (b, rest)
unfolding take_element encode_element take_body
take_element-encode old b rest h =
    let n : length b / 256 * 256 + length b % 256 ≡ length b = omega arith in
    rw (n, ltb-false (length (b ++ rest)) (length b) (omega (arith, length-append b rest)))
      (ap₂ (λ (x y : Bytes). ok (x, y)) (take-append b rest _ refl) (drop-append b rest _ refl))

-- What a successful reading of one string says of the bytes that it was given.
pub record IsRead (bs b rest : Bytes) : Type 0 where
  pub splits : bs ≡ encode_element b ++ rest
  pub fits : Fits b
  pub bytes : All IsByte rest

take_body-ok :
    (old : Bytes) (n : ℕ) (r : Bytes) {b rest : Bytes}
    → take_body old n r ≡ ok (b, rest)
    → (n ≤ length r) × (b ≡ take n r) × (rest ≡ drop n r)
unfolding take_body
take_body-ok old n r e = ground arith

take_element-IsRead :
    (old bs : Bytes) {b rest : Bytes}
    → All IsByte bs
    → take_element old bs ≡ ok (b, rest)
    → IsRead bs b rest
unfolding take_element encode_element
take_element-IsRead old [] h e = absurd (cc)
take_element-IsRead old (x ∷ []) h e = absurd (cc)
take_element-IsRead old (x ∷ y ∷ r) {b} {rest} h e =
    let (enough, body, left) = take_body-ok old (x * 256 + y) r e in
    let len : length b ≡ x * 256 + y =
      ap length body ∙ length-take (x * 256 + y) r ∙ omega (arith, enough) in
    record {
      splits =
          ap₂ (λ (i j : ℕ). i ∷ j ∷ r) (omega (arith, len, h)) (omega (arith, len, h))
          ∙ ap (λ (t : Bytes). length b / 256 ∷ length b % 256 ∷ t)
              (sym (take-append-drop (x * 256 + y) r) ∙ ap₂ ◌++◌ (sym body) (sym left));
      fits = omega (arith, len, h);
      bytes = rw left (All-drop IsByte (x * 256 + y) r h.1.1);
    }

pub take_tag-encode :
    (k v rest : Bytes)
    → Fits k
    → Fits v
    → take_tag (([], []), encode_element k ++ (encode_element v ++ rest)) ≡ ok ((k, v), rest)
unfolding take_tag
take_tag-encode k v rest hk hv =
    rw (take_element-encode [] k _ hk) (rw (take_element-encode [] v _ hv))

pub take_tags-encode :
    (ts before : List (Bytes × Bytes)) (rest : Bytes)
    → All (λ p. Fits p.0 × Fits p.1) ts
    → take_tags (length ts) (before, encode_tags ts ++ rest) ≡ ok (before ++ ts, rest)
unfolding take_tags encode_tags
take_tags-encode [] before rest h = rw append-nil
take_tags-encode ((k, v) ∷ ts) before rest h =
    rw (append_assoc, append_assoc)
      (rw (take_tag-encode k v _ h.0.0 h.0.1)
        (take_tags-encode ts (before ++ (k, v) ∷ []) rest h.1 ∙ rw append_assoc))

-- The equations that follow a reading, with the read string and the rest named.
module _ {S C : Type 0} (old bs : Bytes) (put : Bytes × Bytes → S) (f : S → Step S) (r : S)
    (h : All IsByte bs) where
  pub after_element :
      (within put (take_element old bs) >>= f) ≡ ok r
      → ((b mid : Bytes) → IsRead bs b mid → f (put (b, mid)) ≡ ok r → C)
      → C
  after_element e k =
      let (s, e₁, e₂) = >>=-eq-ok (within put (take_element old bs)) f e in
      let (a, e₃, e₄) = within-eq-ok put (take_element old bs) e₁ in
      k a.0 a.1 (take_element-IsRead old bs h e₃) (subst (λ (s : S). f s ≡ ok r) (sym e₄) e₂)

pub last_element :
    {S C : Type 0} (old bs : Bytes) (put : Bytes × Bytes → S) (r : S)
    → All IsByte bs
    → within put (take_element old bs) ≡ ok r
    → ((b mid : Bytes) → IsRead bs b mid → put (b, mid) ≡ r → C)
    → C
last_element old bs put r h e k =
    let (a, e₃, e₄) = within-eq-ok put (take_element old bs) e in
    k a.0 a.1 (take_element-IsRead old bs h e₃) e₄

take_tag-IsRead :
    (bs : Bytes) {t : Bytes × Bytes} {rest : Bytes}
    → All IsByte bs
    → take_tag (([], []), bs) ≡ ok (t, rest)
    → (mid : Bytes) × IsRead bs t.0 mid × IsRead mid t.1 rest
unfolding take_tag
take_tag-IsRead bs {t} {rest} h e =
    after_element [] bs _ _ (t, rest) h e
      λ k mid a e.
        last_element [] mid _ (t, rest) a.bytes e
          λ v end b e.
            subst
              (λ (p : (Bytes × Bytes) × Bytes).
                (mid : Bytes) × IsRead bs p.0.0 mid × IsRead mid p.0.1 p.1)
              e (mid, a, b)

-- What a successful reading of tags says.
pub record AreRead (before : List (Bytes × Bytes)) (n : ℕ) (bs : Bytes) (all : List (Bytes × Bytes))
    (rest : Bytes) : Type 0 where
  pub tags : List (Bytes × Bytes)
  pub joins : all ≡ before ++ tags
  pub counts : length tags ≡ n
  pub splits : bs ≡ encode_tags tags ++ rest
  pub fit : All (λ p. Fits p.0 × Fits p.1) tags
  pub bytes : All IsByte rest

splice :
    (xs ys zs rest : Bytes) {bs mid end : Bytes}
    → bs ≡ xs ++ mid
    → mid ≡ ys ++ end
    → end ≡ zs ++ rest
    → bs ≡ (xs ++ (ys ++ zs)) ++ rest
splice xs ys zs rest p q r =
    p
    ∙ ap (◌++◌ xs) (q ∙ ap (◌++◌ ys) r ∙ sym (append_assoc ys zs rest))
    ∙ sym (append_assoc xs (ys ++ zs) rest)

take_tags-AreRead :
    (n : ℕ) (before : List (Bytes × Bytes)) (bs : Bytes) {all : List (Bytes × Bytes)} {rest : Bytes}
    → All IsByte bs
    → take_tags n (before, bs) ≡ ok (all, rest)
    → AreRead before n bs all rest
unfolding take_tags encode_tags
take_tags-AreRead zero before bs {all} {rest} h e =
    let e' : (before, bs) ≡ (all, rest) = cc in
    record {
      tags = [];
      joins = sym (ap (λ (p : List (Bytes × Bytes) × Bytes). p.0) e') ∙ sym (append-nil before);
      counts = refl;
      splits = ap (λ (p : List (Bytes × Bytes) × Bytes). p.1) e';
      fit = tt;
      bytes = subst (λ (p : List (Bytes × Bytes) × Bytes). All IsByte p.1) e' h;
    }
take_tags-AreRead (suc n) before bs {all} {rest} h e =
    let (s, e₁, e₂) = >>=-eq-ok (within _ (take_tag (([], []), bs))) _ e in
    let (a, e₃, e₄) = within-eq-ok _ (take_tag (([], []), bs)) e₁ in
    let (mid, key, value) = take_tag-IsRead bs h e₃ in
    let more =
      take_tags-AreRead n (before ++ a.0 ∷ []) a.1 value.bytes (
        subst (λ (s : List (Bytes × Bytes) × Bytes). take_tags n s ≡ ok (all, rest)) (sym e₄) e₂) in
    record {
      tags = a.0 ∷ more.tags;
      joins = more.joins ∙ append_assoc before (a.0 ∷ []) more.tags;
      counts = ap suc more.counts;
      splits =
          splice (encode_element a.0.0) (encode_element a.0.1) (encode_tags more.tags) _ key.splits
            value.splits more.splits;
      fit = ((key.fits, value.fits), more.fit);
      bytes = more.bytes;
    }

pub take_tag_list-encode :
    (ts : List (Bytes × Bytes)) (rest : Bytes)
    → length ts ≤ 16
    → All (λ p. Fits p.0 × Fits p.1) ts
    → take_tag_list (encode_u16 (length ts) ++ (encode_tags ts ++ rest)) ≡ ok (ts, rest)
unfolding take_tag_list take_count encode_u16
take_tag_list-encode ts rest few h =
    let n : length ts / 256 * 256 + length ts % 256 ≡ length ts = omega arith in
    rw (n, ltb-false 16 (length ts) few) (take_tags-encode ts [] rest h)

take_count-AreRead :
    (n : ℕ) (bs : Bytes) {all : List (Bytes × Bytes)} {rest : Bytes}
    → All IsByte bs
    → take_count n bs ≡ ok (all, rest)
    → (n ≤ 16) × AreRead [] n bs all rest
take_count-AreRead n bs {all} {rest} h e = elim (Bool-cases (ltb 16 n)) [
  | inl many ↦ absurd (refused many (unfold take_count in e))
  | inr few ↦ (le_of_ltb-false 16 n few, take_tags-AreRead n [] bs h (rw few at (unfold_count e)))
]
  where
    unfold_count :
        take_count n bs ≡ ok (all, rest)
        → (if ltb 16 n then fail parser_value_out_of_range ([], bs) else take_tags n ([], bs))
          ≡ ok (all, rest)
    unfold_count e = unfold take_count in e

    refused : ltb 16 n ≡ true → take_count n bs ≡ ok (all, rest) → ⊥
    refused many e = cc (rw many at (unfold_count e))

pub take_tag_list-AreRead :
    (bs : Bytes) {all : List (Bytes × Bytes)} {rest : Bytes}
    → All IsByte bs
    → take_tag_list bs ≡ ok (all, rest)
    → (length all ≤ 16)
      × (bs ≡ encode_u16 (length all) ++ (encode_tags all ++ rest))
      × All (λ p. Fits p.0 × Fits p.1) all
      × All IsByte rest
unfolding take_tag_list encode_u16
take_tag_list-AreRead [] h e = absurd (cc)
take_tag_list-AreRead (x ∷ []) h e = absurd (cc)
take_tag_list-AreRead (x ∷ y ∷ r) {all} {rest} h e =
    let (few, a) = take_count-AreRead (x * 256 + y) r h.1.1 e in
    let n : length all ≡ x * 256 + y = ap length a.joins ∙ a.counts in
    (
      omega (arith, n, few),
      ap₂ (λ (i j : ℕ). i ∷ j ∷ r) (omega (arith, n, h)) (omega (arith, n, h))
          ∙ ap (λ (t : Bytes). length all / 256 ∷ length all % 256 ∷ t)
              (a.splits ∙ ap (λ (ts : List (Bytes × Bytes)). encode_tags ts ++ rest) (sym a.joins)),
      subst (All (λ (p : Bytes × Bytes). Fits p.0 × Fits p.1)) (sym a.joins) a.fit,
      a.bytes,
    )
