-- ===== src/Parser/Typed.antt =====
-- `parser_parse` keeps the numbers of the parser within their C types, and its cursor in the input.
use ledger_arweave.Base.{
  length, ◌≤◌, ℕ, ◌≡◌, refl, some, Bytes, All, arith, ltb, not, ◌||◌, ◌==◌, on_test, get_or, u16,
}
use ledger_arweave.Status.{parser_unexpected_tx_version, parser_value_out_of_range, ok, fail, final}
use ledger_arweave.Parser.{
  Context, Element, Tx, max_number_tags, read_element, read_u16, read_field, check_format,
  check_owner, check_tags_count, read_tag_list, read, init, init_context, parse,
}
use ledger_arweave.Parser.Always.{
  Always, Always-ok, Always-fail, Always-final, Always->>=, Always-into,
}
use ledger_arweave.Parser.Range.{
  IsWord, IsContext, IsElement, IsTyped, elements, read_u16-Always, read_element-Always,
  read_tags-IsTyped,
}

check_format-IsTyped : (p : Context × Tx) → IsTyped p → Always IsTyped (check_format p)
unfolding check_format
check_format-IsTyped p h =
    on_test (Always IsTyped) (fail parser_unexpected_tx_version p) (ok p)
      (not (p.1.format.len == 1) || not (get_or p.0.buffer p.1.format.ptr 0 == b'2'))
      (λ _. Always-fail IsTyped _ p h) λ _. Always-ok IsTyped p h

check_owner-IsTyped : (p : Context × Tx) → IsTyped p → Always IsTyped (check_owner p)
unfolding check_owner
check_owner-IsTyped p h =
    on_test (Always IsTyped) _ _ (p.1.owner.len == 512) (λ _. Always-ok IsTyped p h)
      λ _. Always-fail IsTyped _ p h

check_tags_count-IsTyped : (p : Context × Tx) → IsTyped p → Always IsTyped (check_tags_count p)
unfolding check_tags_count
check_tags_count-IsTyped p h =
    on_test (Always IsTyped) (fail parser_value_out_of_range p) (ok p)
      (ltb max_number_tags p.1.tags_count) (λ _. Always-fail IsTyped _ p h)
      λ _. Always-ok IsTyped p h

read_tag_list-IsTyped : (p : Context × Tx) → IsTyped p → Always IsTyped (read_tag_list p)
unfolding read_tag_list
read_tag_list-IsTyped p h =
    Always->>= IsTyped _ _
      (Always-into (λ a. IsContext a.0 × IsWord a.1) IsTyped _ (read_u16 (p.0, p.1.tags_count))
        (read_u16-Always (p.0, p.1.tags_count) h.context h.count)
        λ a k. record { context = k.0; fields = h.fields; count = k.1; tags = h.tags })
      λ p h.
        Always->>= IsTyped _ _ (check_tags_count-IsTyped p h)
          λ p h. read_tags-IsTyped p.1.tags_count 0 p h

-- A field that is read and put back, with the other fields as they were.
record IsField (get : Tx → Element) (put : Tx → Element → Tx) : Type 0 where
  before : (v : Tx) → All IsElement (elements v) → IsElement (get v)
  behind :
      (v : Tx) (e : Element)
      → All IsElement (elements v)
      → IsElement e
      → All IsElement (elements (put v e))
  same_count : (v : Tx) (e : Element) → (put v e).tags_count ≡ v.tags_count
  same_tags : (v : Tx) (e : Element) → (put v e).tags ≡ v.tags

read_field-IsTyped :
    {get : Tx → Element} {put : Tx → Element → Tx} (p : Context × Tx)
    → IsField get put
    → IsTyped p
    → Always IsTyped (read_field get put p)
read_field-IsTyped {get} {put} p f h =
    Always-into (λ a. IsContext a.0 × IsElement a.1) IsTyped _ (read_element (p.0, get p.1))
      (read_element-Always (p.0, get p.1) h.context (f.before p.1 h.fields))
      λ a k. record {
        context = k.0;
        fields = f.behind p.1 a.1 h.fields k.1;
        count = rw (f.same_count p.1 a.1) h.count;
        tags = rw (f.same_tags p.1 a.1) h.tags;
      }

format-IsField : IsField (λ v. v.format) (λ v e. record v { format = e })
format-IsField = record {
  before = λ v h. h.0;
  behind = λ v e h k. (k, h.1);
  same_count = λ v e. refl;
  same_tags = λ v e. refl;
}

owner-IsField : IsField (λ v. v.owner) (λ v e. record v { owner = e })
owner-IsField = record {
  before = λ v h. h.1.0;
  behind = λ v e h k. (h.0, (k, h.1.1));
  same_count = λ v e. refl;
  same_tags = λ v e. refl;
}

target-IsField : IsField (λ v. v.target) (λ v e. record v { target = e })
target-IsField = record {
  before = λ v h. h.1.1.0;
  behind = λ v e h k. (h.0, (h.1.0, (k, h.1.1.1)));
  same_count = λ v e. refl;
  same_tags = λ v e. refl;
}

quantity-IsField : IsField (λ v. v.quantity) (λ v e. record v { quantity = e })
quantity-IsField = record {
  before = λ v h. h.1.1.1.0;
  behind = λ v e h k. (h.0, (h.1.0, (h.1.1.0, (k, h.1.1.1.1))));
  same_count = λ v e. refl;
  same_tags = λ v e. refl;
}

reward-IsField : IsField (λ v. v.reward) (λ v e. record v { reward = e })
reward-IsField = record {
  before = λ v h. h.1.1.1.1.0;
  behind = λ v e h k. (h.0, (h.1.0, (h.1.1.0, (h.1.1.1.0, (k, h.1.1.1.1.1)))));
  same_count = λ v e. refl;
  same_tags = λ v e. refl;
}

last_tx-IsField : IsField (λ v. v.last_tx) (λ v e. record v { last_tx = e })
last_tx-IsField = record {
  before = λ v h. h.1.1.1.1.1.0;
  behind = λ v e h k. (h.0, (h.1.0, (h.1.1.0, (h.1.1.1.0, (h.1.1.1.1.0, (k, h.1.1.1.1.1.1))))));
  same_count = λ v e. refl;
  same_tags = λ v e. refl;
}

data_size-IsField : IsField (λ v. v.data_size) (λ v e. record v { data_size = e })
data_size-IsField = record {
  before = λ v h. h.1.1.1.1.1.1.0;
  behind = λ v e h k.
      (h.0, (h.1.0, (h.1.1.0, (h.1.1.1.0, (h.1.1.1.1.0, (h.1.1.1.1.1.0, (k, h.1.1.1.1.1.1.1)))))));
  same_count = λ v e. refl;
  same_tags = λ v e. refl;
}

data_root-IsField : IsField (λ v. v.data_root) (λ v e. record v { data_root = e })
data_root-IsField = record {
  before = λ v h. h.1.1.1.1.1.1.1.0;
  behind = λ v e h k. (
    h.0,
    (
      h.1.0,
      (
        h.1.1.0,
        (h.1.1.1.0, (h.1.1.1.1.0, (h.1.1.1.1.1.0, (h.1.1.1.1.1.1.0, (k, h.1.1.1.1.1.1.1.1))))),
      ),
    ),
  );
  same_count = λ v e. refl;
  same_tags = λ v e. refl;
}

read-IsTyped : (p : Context × Tx) → IsTyped p → Always IsTyped (read p)
unfolding read
read-IsTyped p h = Always->>= IsTyped _ _ (read_field-IsTyped p format-IsField h) λ p h.
    Always->>= IsTyped _ _ (check_format-IsTyped p h) λ p h.
      Always->>= IsTyped _ _ (read_field-IsTyped p owner-IsField h) λ p h.
        Always->>= IsTyped _ _ (check_owner-IsTyped p h) λ p h.
          Always->>= IsTyped _ _ (read_field-IsTyped p target-IsField h) λ p h.
            Always->>= IsTyped _ _ (read_field-IsTyped p quantity-IsField h) λ p h.
              Always->>= IsTyped _ _ (read_field-IsTyped p reward-IsField h) λ p h.
                Always->>= IsTyped _ _ (read_field-IsTyped p last_tx-IsField h) λ p h.
                  Always->>= IsTyped _ _ (read_tag_list-IsTyped p h) λ p h.
                    Always->>= IsTyped _ _ (read_field-IsTyped p data_size-IsField h)
                      λ p h. read_field-IsTyped p data_root-IsField h

init-IsContext :
    (c : Context) (b : Bytes) (size : ℕ)
    → IsWord size
    → size ≤ length b
    → Always IsContext (init c (some b) size)
unfolding init init_context
init-IsContext c b size h inside =
    Always->>= IsContext _ _
      (on_test (Always IsContext) _ _ (size == 0)
        (λ _. Always-fail IsContext _ _ (omega arith, omega arith, omega arith))
        λ _. Always-ok IsContext _ (h, omega arith, inside))
      λ c k. Always-ok IsContext c k

-- However `parser_parse` ends, the cursor that it leaves is in the input, and the lengths and counters
-- in the context and the object are 16-bit numbers, if they were before. The input is as long as
-- announced, or longer.
pub parse-IsTyped :
    (p : Context × Tx) (b : Bytes) (size : ℕ)
    → size ≤ length b
    → IsTyped p
    → IsTyped (final (parse p (some b) size))
unfolding parse
parse-IsTyped p b size inside h = Always-final IsTyped (parse p (some b) size) (
    on_test (Always IsTyped) _ _ (ltb size 1) (λ _. Always-fail IsTyped _ p h)
      λ _.
        Always->>= IsTyped _ _
          (Always-into IsContext IsTyped _ (init p.0 (some b) (u16 size))
            (init-IsContext p.0 b (u16 size) (omega arith) (omega (arith, inside)))
            λ c k. record { context = k; fields = h.fields; count = h.count; tags = h.tags })
          read-IsTyped)
