-- ===== src/Parser/Room.antt =====
-- The tag array keeps its 16 entries, whether or not the reading succeeds.
use ledger_arweave.Base.{
  ℕ, zero, suc, ◌+◌, ◌≡◌, refl, ap, ◌∙◌, Option, Bytes, arith, ltb, on_test, length, length-set,
  u16,
}
use ledger_arweave.Status.{final}
use ledger_arweave.Parser.{
  Context, Element, Tx, read_element, read_u16, read_tag, read_tags, read_field, check_format,
  check_owner, check_tags_count, read_tag_list, read, init, parse,
}
use ledger_arweave.Parser.Always.{Always, Always-fail, Always-final, Always->>=, Always-within}

abbrev pub HasRoom : Context × Tx → Type 0
HasRoom p = length p.1.tags ≡ 16

read_tags-HasRoom :
    (left i : ℕ) (p : Context × Tx) → HasRoom p → Always HasRoom (read_tags left i p)
unfolding read_tags Always
read_tags-HasRoom zero i p h = h
read_tags-HasRoom (suc left) i p h =
    Always->>= HasRoom _ _
      (Always-within HasRoom _ (read_tag (p.0, _)) λ a. length-set p.1.tags i a.1 ∙ h)
      λ s k. read_tags-HasRoom left (i + 1) s k

check_format-HasRoom : (p : Context × Tx) → HasRoom p → Always HasRoom (check_format p)
unfolding check_format Always
check_format-HasRoom p h = ground arith

check_owner-HasRoom : (p : Context × Tx) → HasRoom p → Always HasRoom (check_owner p)
unfolding check_owner Always
check_owner-HasRoom p h = ground arith

check_tags_count-HasRoom : (p : Context × Tx) → HasRoom p → Always HasRoom (check_tags_count p)
unfolding check_tags_count Always
check_tags_count-HasRoom p h = ground arith

read_tag_list-HasRoom : (p : Context × Tx) → HasRoom p → Always HasRoom (read_tag_list p)
unfolding read_tag_list
read_tag_list-HasRoom p h =
    Always->>= HasRoom _ _ (Always-within HasRoom _ (read_u16 (p.0, p.1.tags_count)) λ a. h) λ p h.
      Always->>= HasRoom _ _ (check_tags_count-HasRoom p h)
        λ p h. read_tags-HasRoom p.1.tags_count 0 p h

read_field-HasRoom :
    (get : Tx → Element) (put : Tx → Element → Tx) (p : Context × Tx)
    → ((v : Tx) (e : Element) → (put v e).tags ≡ v.tags)
    → HasRoom p
    → Always HasRoom (read_field get put p)
read_field-HasRoom get put p same h =
    Always-within HasRoom _ (read_element (p.0, get p.1)) λ a. ap length (same p.1 a.1) ∙ h

read-HasRoom : (p : Context × Tx) → HasRoom p → Always HasRoom (read p)
unfolding read
read-HasRoom p h =
    Always->>= HasRoom _ _
      (read_field-HasRoom (λ v. v.format) (λ v e. record v { format = e }) p (λ v e. refl) h)
      λ p h. Always->>= HasRoom _ _ (check_format-HasRoom p h) λ p h.
        Always->>= HasRoom _ _
          (read_field-HasRoom (λ v. v.owner) (λ v e. record v { owner = e }) p (λ v e. refl) h)
          λ p h. Always->>= HasRoom _ _ (check_owner-HasRoom p h) λ p h.
            Always->>= HasRoom _ _
              (read_field-HasRoom (λ v. v.target) (λ v e. record v { target = e }) p (λ v e. refl)
                h)
              λ p h.
                Always->>= HasRoom _ _
                  (read_field-HasRoom (λ v. v.quantity) (λ v e. record v { quantity = e }) p
                    (λ v e. refl) h)
                  λ p h.
                    Always->>= HasRoom _ _
                      (read_field-HasRoom (λ v. v.reward) (λ v e. record v { reward = e }) p
                        (λ v e. refl) h)
                      λ p h.
                        Always->>= HasRoom _ _
                          (read_field-HasRoom (λ v. v.last_tx) (λ v e. record v { last_tx = e }) p
                            (λ v e. refl) h)
                          λ p h. Always->>= HasRoom _ _ (read_tag_list-HasRoom p h) λ p h.
                            Always->>= HasRoom _ _
                              (read_field-HasRoom (λ v. v.data_size)
                                (λ v e. record v { data_size = e }) p (λ v e. refl) h)
                              λ p h.
                                read_field-HasRoom (λ v. v.data_root)
                                  (λ v e. record v { data_root = e }) p (λ v e. refl) h

pub parse-HasRoom :
    (p : Context × Tx) (bytes : Option Bytes) (size : ℕ)
    → HasRoom p
    → HasRoom (final (parse p bytes size))
unfolding parse
parse-HasRoom p bytes size h = Always-final HasRoom (parse p bytes size) (
    on_test (Always HasRoom) _ _ (ltb size 1) (λ _. Always-fail HasRoom _ p h)
      λ _.
        Always->>= HasRoom _ _ (Always-within HasRoom _ (init p.0 bytes (u16 size)) λ c. h)
          read-HasRoom)
