-- ===== src/Parser/Inverse.antt =====
-- The list reader of a whole transaction inverts `encode`.
use ledger_arweave.Base.{
  ℕ, ◌≤◌, ◌≡◌, refl, sym, ap, ◌∙◌, subst, List, [], ◌∷◌, ◌++◌, append_assoc, Bytes, IsByte, All,
  arith, length, get_or,
}
use ledger_arweave.Status.{Step, ok, ◌>>=◌, within, >>=-ok, >>=-eq-ok, within-eq-ok}
use ledger_arweave.Parser.Accept.{
  take_element-encode, after_element, last_element, take_tag_list-encode, take_tag_list-AreRead,
}
use ledger_arweave.Parser.Layout.{
  Transaction, IsSupported, Fits, encode, encode_u16, encode_element, encode_tags,
}
use ledger_arweave.Parser.Lists.{expect_version, expect_modulus, take_tag_list, take_transaction}

encode-append :
    (t : Transaction) (rest : Bytes)
    → encode t ++ rest
      ≡ encode_element t.format
        ++ (encode_element t.owner
            ++ (encode_element t.target
                ++ (encode_element t.quantity
                    ++ (encode_element t.reward
                        ++ (encode_element t.last_tx
                            ++ (encode_u16 (length t.tags)
                                ++ (encode_tags t.tags
                                    ++ (encode_element t.data_size
                                        ++ (encode_element t.data_root ++ rest)))))))))
unfolding encode
encode-append t rest = simp append_assoc

expect_version_passes : (s : Transaction × Bytes) → s.0.format ≡ b'2' ∷ [] → expect_version s ≡ ok s
unfolding expect_version
expect_version_passes s e = simp e

expect_modulus_passes : (s : Transaction × Bytes) → length s.0.owner ≡ 512 → expect_modulus s ≡ ok s
unfolding expect_modulus
expect_modulus_passes s e = simp e

-- Reading an encoding gives the transaction back and leaves what stands behind it.
pub take_transaction-encode :
    (old t : Transaction) (rest : Bytes)
    → IsSupported t
    → take_transaction (old, encode t ++ rest) ≡ ok (t, rest)
unfolding take_transaction
take_transaction-encode old t rest h = rw encode-append (
    rw (take_element-encode _ t.format _ (omega (arith, ap length h.version))) (
      >>=-ok _ _ (expect_version_passes _ h.version) (
        rw (take_element-encode _ t.owner _ (omega (arith, h.modulus))) (
          >>=-ok _ _ (expect_modulus_passes _ h.modulus) (
            rw (take_element-encode _ t.target _ h.target_fits) (
              rw (take_element-encode _ t.quantity _ h.quantity_fits) (
                rw (take_element-encode _ t.reward _ h.reward_fits) (
                  rw (take_element-encode _ t.last_tx _ h.last_tx_fits) (
                    rw (take_tag_list-encode t.tags _ h.few_tags h.tags_fit) (
                      rw (take_element-encode _ t.data_size _ h.data_size_fits)
                        (rw (take_element-encode _ t.data_root _ h.data_root_fits) refl)))))))))))

-- A transaction read from `bs`: supported, with its encoding in front of the rest.
pub record IsAccepted (bs : Bytes) (t : Transaction) (rest : Bytes) : Type 0 where
  pub supported : IsSupported t
  pub splits : bs ≡ encode t ++ rest

one_byte : (bs : Bytes) → length bs ≡ 1 → get_or bs 0 0 ≡ b'2' → bs ≡ b'2' ∷ []
one_byte [] h k = absurd (omega arith)
one_byte (x ∷ []) h k = ap (λ (b : ℕ). b ∷ []) k
one_byte (x ∷ y ∷ bs) h k = absurd (omega arith)

version_of :
    (s : Transaction × Bytes) {r : Transaction × Bytes}
    → expect_version s ≡ ok r
    → (length s.0.format ≡ 1) × (get_or s.0.format 0 0 ≡ b'2') × (s ≡ r)
unfolding expect_version
version_of s e = ground arith

modulus_of :
    (s : Transaction × Bytes) {r : Transaction × Bytes}
    → expect_modulus s ≡ ok r
    → (length s.0.owner ≡ 512) × (s ≡ r)
unfolding expect_modulus
modulus_of s e = ground arith

module _ {C : Type 0} (s : Transaction × Bytes)
    (f : Transaction × Bytes → Step (Transaction × Bytes)) (r : Transaction × Bytes) where
  after_version : (expect_version s >>= f) ≡ ok r → (s.0.format ≡ b'2' ∷ [] → f s ≡ ok r → C) → C
  after_version e k =
      let (s', e₁, e₂) = >>=-eq-ok (expect_version s) f e in
      let (one, two, same) = version_of s e₁ in
      k (one_byte s.0.format one two)
        (subst (λ (s : Transaction × Bytes). f s ≡ ok r) (sym same) e₂)

  after_modulus : (expect_modulus s >>= f) ≡ ok r → (length s.0.owner ≡ 512 → f s ≡ ok r → C) → C
  after_modulus e k =
      let (s', e₁, e₂) = >>=-eq-ok (expect_modulus s) f e in
      let (len, same) = modulus_of s e₁ in
      k len (subst (λ (s : Transaction × Bytes). f s ≡ ok r) (sym same) e₂)

after_tag_list :
    {C : Type 0} (t : Transaction) (bs : Bytes)
    (f : Transaction × Bytes → Step (Transaction × Bytes)) (r : Transaction × Bytes)
    → All IsByte bs
    → (within (λ p. (record t { tags = p.0 }, p.1)) (take_tag_list bs) >>= f) ≡ ok r
    → ((ts : List (Bytes × Bytes)) (rest : Bytes)
        → (length ts ≤ 16)
          × (bs ≡ encode_u16 (length ts) ++ (encode_tags ts ++ rest))
          × All (λ p. Fits p.0 × Fits p.1) ts
          × All IsByte rest
        → f (record t { tags = ts }, rest) ≡ ok r
        → C)
    → C
after_tag_list t bs f r h e k =
    let put : List (Bytes × Bytes) × Bytes → Transaction × Bytes =
      λ p. (record t { tags = p.0 }, p.1) in
    let (s', e₁, e₂) = >>=-eq-ok (within put (take_tag_list bs)) f e in
    let (a, e₃, e₄) = within-eq-ok put (take_tag_list bs) e₁ in
    k a.0 a.1 (take_tag_list-AreRead bs h e₃)
      (subst (λ (s : Transaction × Bytes). f s ≡ ok r) (sym e₄) e₂)

behind : (b : Bytes) {x y : Bytes} → x ≡ y → encode_element b ++ x ≡ encode_element b ++ y
behind b p = ap (◌++◌ (encode_element b)) p

-- And nothing else is read.
pub take_transaction-IsAccepted :
    (old : Transaction) (bs : Bytes) (r : Transaction × Bytes)
    → All IsByte bs
    → take_transaction (old, bs) ≡ ok r
    → IsAccepted bs r.0 r.1
unfolding take_transaction
take_transaction-IsAccepted old bs r h e = after_element _ bs _ _ r h e λ b₁ m₁ a₁ e.
    after_version _ _ r e λ version e. after_element _ m₁ _ _ r a₁.bytes e λ b₂ m₂ a₂ e.
      after_modulus _ _ r e λ modulus e. after_element _ m₂ _ _ r a₂.bytes e λ b₃ m₃ a₃ e.
        after_element _ m₃ _ _ r a₃.bytes e λ b₄ m₄ a₄ e.
          after_element _ m₄ _ _ r a₄.bytes e λ b₅ m₅ a₅ e.
            after_element _ m₅ _ _ r a₅.bytes e λ b₆ m₆ a₆ e.
              after_tag_list
                (record old {
                  format = b₁;
                  owner = b₂;
                  target = b₃;
                  quantity = b₄;
                  reward = b₅;
                  last_tx = b₆;
                })
                m₆ _ r a₆.bytes e
                λ ts m₇ a₇ e. after_element _ m₇ _ _ r a₇.3 e λ b₈ m₈ a₈ e.
                  last_element _ m₈ _ r a₈.bytes e λ b₉ m₉ a₉ e.
                    subst (λ (s : Transaction × Bytes). IsAccepted bs s.0 s.1) e
                      (record {
                        supported = record {
                          version = version;
                          modulus = modulus;
                          few_tags = a₇.0;
                          target_fits = a₃.fits;
                          quantity_fits = a₄.fits;
                          reward_fits = a₅.fits;
                          last_tx_fits = a₆.fits;
                          tags_fit = a₇.2;
                          data_size_fits = a₈.fits;
                          data_root_fits = a₉.fits;
                        };
                        splits =
                            a₁.splits
                            ∙ behind b₁ (
                                a₂.splits
                                ∙ behind b₂ (
                                    a₃.splits
                                    ∙ behind b₃ (
                                        a₄.splits
                                        ∙ behind b₄ (
                                            a₅.splits
                                            ∙ behind b₅ (
                                                a₆.splits
                                                ∙ behind b₆ (
                                                    a₇.1
                                                    ∙ ap
                                                        (λ (r : Bytes).
                                                          encode_u16 (length ts)
                                                          ++ (encode_tags ts ++ r))
                                                        (a₈.splits ∙ behind b₈ a₉.splits)))))))
                            ∙ sym (encode-append _ m₉);
                      })
