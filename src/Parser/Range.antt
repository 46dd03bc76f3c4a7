-- ===== src/Parser/Range.antt =====
-- The numbers of the parser stay within their C types and its cursor within the input, whether or not
-- the reading succeeds.
use ledger_arweave.Base.{
  length, le_of_ltb-false, u16, ◌≤◌, ℕ, zero, suc, ◌+◌, ◌<◌, List, [], ◌∷◌, All, arith, ltb,
  on_test, get_or, set, All-get_or,
}
use ledger_arweave.Status.{◌>>=◌, ok}
use ledger_arweave.Parser.{
  Context, Element, Tag, Tx, empty_tag, check_avail, advance, read_element, read_u16, read_tag,
  read_tags,
}
use ledger_arweave.Parser.Always.{Always, Always-ok, Always-fail, Always->>=, Always-into}

-- `uint16_t`
abbrev pub IsWord : ℕ → Type 0
IsWord n = n < 65536

-- The cursor is not behind the announced end of the input, and that end not behind its real one.
abbrev pub IsContext : Context → Type 0
IsContext c = IsWord c.buffer_len × (c.offset ≤ c.buffer_len) × (c.buffer_len ≤ length c.buffer)

abbrev pub IsElement : Element → Type 0
IsElement e = IsWord e.len

abbrev pub IsTag : Tag → Type 0
IsTag t = IsElement t.key × IsElement t.value

abbrev pub elements : Tx → List Element
elements v =
    v.format ∷ v.owner ∷ v.target ∷ v.quantity ∷ v.reward ∷ v.last_tx ∷ v.data_size ∷ v.data_root
    ∷ []

-- The lengths and the counters of the context and the object are 16-bit numbers, and the cursor is
-- not behind the end of the input.
pub record IsTyped (p : Context × Tx) : Type 0 where
  pub context : IsContext p.0
  pub fields : All IsElement (elements p.1)
  pub count : IsWord p.1.tags_count
  pub tags : All IsTag p.1.tags

check_avail-Always :
    {A : Type 0} (P : Context × A → Type 0) (size : ℕ) (s : Context × A)
    → P s
    → Always P (check_avail size s)
check_avail-Always P size s h =
    on_test (Always P) _ _ (ltb s.0.buffer_len (s.0.offset + size)) (λ _. Always-fail P _ s h)
      λ _. Always-ok P s h

advance-Always :
    {A : Type 0} (P : A → Type 0) (size : ℕ) (s : Context × A)
    → IsContext s.0
    → P s.1
    → Always (λ a. IsContext a.0 × P a.1) (advance size s)
advance-Always {A} P size s c h =
    on_test (λ r. Always Q (r >>= λ s. ok (record s.0 { offset = u16 (s.0.offset + size) }, s.1))) _
      _ (ltb s.0.buffer_len (s.0.offset + size)) (λ _. Always-fail Q _ s (c, h))
      λ n.
        Always-ok Q _
          ((c.0, omega (arith, le_of_ltb-false s.0.buffer_len (s.0.offset + size) n), c.2), h)
  where
    Q : Context × A → Type 0
    Q a = IsContext a.0 × P a.1

pub read_u16-Always :
    (s : Context × ℕ)
    → IsContext s.0
    → IsWord s.1
    → Always (λ a. IsContext a.0 × IsWord a.1) (read_u16 s)
unfolding read_u16
read_u16-Always s c h =
    Always->>= (λ a. IsContext a.0 × IsWord a.1) _ _
      (check_avail-Always (λ a. IsContext a.0 × IsWord a.1) 2 s (c, h))
      λ s k. advance-Always IsWord 2 _ k.0 (omega arith)

pub read_element-Always :
    (s : Context × Element)
    → IsContext s.0
    → IsElement s.1
    → Always (λ a. IsContext a.0 × IsElement a.1) (read_element s)
unfolding read_element
read_element-Always s c h =
    Always->>= (λ a. IsContext a.0 × IsElement a.1) _ _
      (Always-into (λ a. IsContext a.0 × IsWord a.1) (λ a. IsContext a.0 × IsElement a.1) _
        (read_u16 (s.0, s.1.len)) (read_u16-Always (s.0, s.1.len) c h) λ a k. k)
      λ s k.
        Always->>= (λ a. IsContext a.0 × IsElement a.1) _ _
          (check_avail-Always (λ a. IsContext a.0 × IsElement a.1) s.1.len s k)
          λ s k. advance-Always IsElement s.1.len _ k.0 k.1

read_tag-Always :
    (s : Context × Tag)
    → IsContext s.0
    → IsTag s.1
    → Always (λ a. IsContext a.0 × IsTag a.1) (read_tag s)
unfolding read_tag
read_tag-Always s c h =
    Always->>= (λ a. IsContext a.0 × IsTag a.1) _ _
      (Always-into (λ a. IsContext a.0 × IsElement a.1) (λ a. IsContext a.0 × IsTag a.1) _
        (read_element (s.0, s.1.key)) (read_element-Always (s.0, s.1.key) c h.0)
        λ a k. (k.0, (k.1, h.1)))
      λ s k.
        Always-into (λ a. IsContext a.0 × IsElement a.1) (λ a. IsContext a.0 × IsTag a.1) _
          (read_element (s.0, s.1.value)) (read_element-Always (s.0, s.1.value) k.0 k.1.1)
          λ a j. (j.0, (k.1.0, j.1))

All-set : (ts : List Tag) (i : ℕ) (t : Tag) → All IsTag ts → IsTag t → All IsTag (set ts i t)
All-set [] i t h k = tt
All-set (x ∷ ts) zero t h k = (k, h.1)
All-set (x ∷ ts) (suc i) t h k = (h.0, All-set ts i t h.1 k)

pub read_tags-IsTyped :
    (left i : ℕ) (p : Context × Tx) → IsTyped p → Always IsTyped (read_tags left i p)
unfolding read_tags
read_tags-IsTyped zero i p h = Always-ok IsTyped p h
read_tags-IsTyped (suc left) i p h =
    Always->>= IsTyped _ _
      (Always-into (λ a. IsContext a.0 × IsTag a.1) IsTyped _
        (read_tag (p.0, get_or p.1.tags i empty_tag))
        (read_tag-Always (p.0, get_or p.1.tags i empty_tag) h.context
          (All-get_or IsTag p.1.tags i empty_tag h.tags (omega arith, omega arith)))
        λ a k. record {
          context = k.0;
          fields = h.fields;
          count = h.count;
          tags = All-set p.1.tags i a.1 h.tags k.1;
        })
      λ s k. read_tags-IsTyped left (i + 1) s k
