-- ===== src/Parser/Cursor.antt =====
-- A reader over lists that does what `parser_readU16` and `parser_readElement` do, and the relation
-- under which the two agree: the context stands where the rest of the list begins.
use native.Mathlib.Nat.{add-zero}
use ledger_arweave.Base.{
  Bool, true, false, ℕ, ◌+◌, ◌-◌, ◌*◌, ◌≤◌, ◌<◌, ◌≡◌, refl, sym, ap, ap₂, ◌∙◌, [], ◌∷◌, Bytes,
  IsByte, All, u16, arith, ltb, lt→ltb, ltb-false, if◌then◌else◌, Bool-cases, ltb→lt,
  le_of_ltb-false, inl, inr, length, take, drop, get_or, length-take, length-drop, get_or-take,
  get_or-drop, drop-take, drop-drop, take-take, All-take, All-drop, subst,
}
use ledger_arweave.Status.{ParserError, Step, ok, fail, ◌>>=◌, within, parser_unexpected_buffer_end}
use ledger_arweave.Parser.{Context, Element, check_avail, advance, read_u16, read_element}
use ledger_arweave.Parser.Layout.{view_element}

unfoldable pub take_u16 : ℕ → Bytes → Step (ℕ × Bytes)
take_u16 old (h ∷ l ∷ rest) = ok (h * 256 + l, rest)
take_u16 old bs = fail parser_unexpected_buffer_end (old, bs)

unfoldable pub take_body : Bytes → ℕ → Bytes → Step (Bytes × Bytes)
take_body old n rest =
    if ltb (length rest) n
    then fail parser_unexpected_buffer_end (old, rest)
    else ok (take n rest, drop n rest)

-- A length and as many bytes.
unfoldable pub take_element : Bytes → Bytes → Step (Bytes × Bytes)
unfolding take_body
take_element old (h ∷ l ∷ rest) = take_body old (h * 256 + l) rest
take_element old bs = fail parser_unexpected_buffer_end (old, bs)

-- Both ways of reading end alike: in related states, or with the same error.
unfoldable pub Meets : {S T : Type 0} → (S → T → Type 0) → Step S → Step T → Type 0
Meets R (ok s) (ok t) = R s t
Meets R (fail e s) (fail f t) = e ≡ f
Meets R _ _ = ⊥

module _ {S T : Type 0} (R Q : S → T → Type 0) where
  pub Meets-bind :
      (m : Step S) (n : Step T) (f : S → Step S) (g : T → Step T)
      → Meets R m n
      → ((s : S) (t : T) → R s t → Meets Q (f s) (g t))
      → Meets Q (m >>= f) (n >>= g)
  unfolding Meets
  Meets-bind (ok s) (ok t) f g h k = k s t h
  Meets-bind (fail e s) (fail e' t) f g h k = h
  Meets-bind (ok s) (fail e t) f g h k = absurd h
  Meets-bind (fail e s) (ok t) f g h k = absurd h

module _ {A B S T : Type 0} (R : A → B → Type 0) (Q : S → T → Type 0) where
  pub Meets-within :
      (m : Step A) (n : Step B) (f : A → S) (g : B → T)
      → Meets R m n
      → ((a : A) (b : B) → R a b → Q (f a) (g b))
      → Meets Q (within f m) (within g n)
  unfolding Meets
  Meets-within (ok s) (ok t) f g h k = k s t h
  Meets-within (fail e s) (fail e' t) f g h k = h
  Meets-within (ok s) (fail e t) f g h k = absurd h
  Meets-within (fail e s) (ok t) f g h k = absurd h

module _ {S T : Type 0} (R : S → T → Type 0) where
  pub Meets-ok_left :
      (m : Step S) (n : Step T) (s : S) → Meets R m n → m ≡ ok s → (t : T) × (n ≡ ok t) × R s t
  unfolding Meets
  Meets-ok_left (ok s') (ok t) s h e =
      let e' : s' ≡ s = cc in (t, refl, subst (λ (s : S). R s t) e' h)
  Meets-ok_left (fail x s') n s h e = absurd (cc)
  Meets-ok_left (ok s') (fail x t) s h e = absurd h

  pub Meets-ok_right :
      (m : Step S) (n : Step T) (t : T) → Meets R m n → n ≡ ok t → (s : S) × (m ≡ ok s) × R s t
  unfolding Meets
  Meets-ok_right (ok s) (ok t') t h e =
      let e' : t' ≡ t = cc in (s, refl, subst (λ (t : T). R s t) e' h)
  Meets-ok_right m (fail x t') t h e = absurd (cc)
  Meets-ok_right (fail x s) (ok t') t h e = absurd h

-- A check that refuses, and one that accepts, by tests that agree.
module _ {S T : Type 0} (R : S → T → Type 0) (s : S) (t : T) (e : ParserError) where
  pub Meets-refuse :
      (b c : Bool)
      → b ≡ c
      → R s t
      → Meets R (if b then fail e s else ok s) (if c then fail e t else ok t)
  unfolding Meets
  Meets-refuse true true h r = refl
  Meets-refuse false false h r = r
  Meets-refuse true false h r = absurd (cc)
  Meets-refuse false true h r = absurd (cc)

  pub Meets-accept :
      (b c : Bool)
      → b ≡ c
      → R s t
      → Meets R (if b then ok s else fail e s) (if c then ok t else fail e t)
  unfolding Meets
  Meets-accept true true h r = r
  Meets-accept false false h r = refl
  Meets-accept true false h r = absurd (cc)
  Meets-accept false true h r = absurd (cc)

-- The list side alone maps its result.
pub Meets-right :
    {S T U : Type 0} (R : S → T → Type 0) (Q : S → U → Type 0) (m : Step S) (n : Step T) (g : T → U)
    → Meets R m n
    → ((s : S) (t : T) → R s t → Q s (g t))
    → Meets Q m (within g n)
unfolding Meets
Meets-right R Q (ok s) (ok t) g h k = k s t h
Meets-right R Q (fail e s) (fail e' t) g h k = h
Meets-right R Q (ok s) (fail e t) g h k = absurd h
Meets-right R Q (fail e s) (ok t) g h k = absurd h

-- The context reads this buffer, and `rest` is what is left of it.
pub record At (buffer : Bytes) (size : ℕ) (c : Context) (rest : Bytes) : Type 0 where
  pub same : c.buffer ≡ buffer
  pub same_len : c.buffer_len ≡ size
  pub inside : c.offset ≤ size
  pub left : rest ≡ take (size - c.offset) (drop c.offset buffer)

module _ (buffer : Bytes) (size : ℕ) (fits : size ≤ length buffer) (small : size < 65536)
    (bytes : All IsByte buffer) where
  pub At-length :
      (c : Context) (rest : Bytes) → At buffer size c rest → length rest ≡ size - c.offset
  At-length c rest a =
      ap length a.left
      ∙ omega (
        arith,
        length-take (size - c.offset) (drop c.offset buffer),
        length-drop c.offset buffer,
        a.inside,
      )

  At-byte :
      (c : Context) (rest : Bytes) (k : ℕ)
      → At buffer size c rest
      → k < length rest
      → get_or c.buffer (c.offset + k) 0 ≡ get_or rest k 0
  At-byte c rest k a h =
      ap (λ (b : Bytes). get_or b (c.offset + k) 0) a.same
      ∙ sym (get_or-drop c.offset k buffer 0)
      ∙ sym (
          get_or-take (size - c.offset) k (drop c.offset buffer) 0
            (omega (arith, At-length c rest a)))
      ∙ ap (λ (b : Bytes). get_or b k 0) (sym a.left)

  At-drop :
      (c : Context) (rest : Bytes) (n : ℕ)
      → At buffer size c rest
      → n ≤ length rest
      → At buffer size (record c { offset = u16 (c.offset + n) }) (drop n rest)
  At-drop c rest n a h = record {
    same = a.same;
    same_len = a.same_len;
    inside = omega (arith, moved, At-length c rest a, a.inside);
    left =
        ap (drop n) a.left
        ∙ drop-take n (size - c.offset) (drop c.offset buffer)
        ∙ ap (take (size - c.offset - n)) (drop-drop n c.offset buffer)
        ∙ ap₂ (λ (i j : ℕ). take i (drop j buffer)) (omega (arith, moved)) (sym moved);
  }
    where
      moved : u16 (c.offset + n) ≡ c.offset + n
      moved = omega (arith, At-length c rest a, a.inside)

  At-slice :
      (c : Context) (rest : Bytes) (n : ℕ)
      → At buffer size c rest
      → n ≤ length rest
      → take n (drop c.offset buffer) ≡ take n rest
  At-slice c rest n a h =
      sym (take-take n (size - c.offset) (drop c.offset buffer) (omega (arith, At-length c rest a)))
      ∙ ap (take n) (sym a.left)

  -- The check passes exactly when the list is long enough, and then the context moves along it.
  check_avail_enough :
      {A : Type 0} (c : Context) (x : A) (rest : Bytes) (n : ℕ)
      → At buffer size c rest
      → n ≤ length rest
      → check_avail n (c, x) ≡ ok (c, x)
  check_avail_enough c x rest n a h = rw (
      ltb-false c.buffer_len (c.offset + n)
        (omega (arith, At-length c rest a, a.inside, a.same_len)))

  check_avail_short :
      {A : Type 0} (c : Context) (x : A) (rest : Bytes) (n : ℕ)
      → At buffer size c rest
      → length rest < n
      → check_avail n (c, x) ≡ fail parser_unexpected_buffer_end (c, x)
  check_avail_short c x rest n a h =
      rw (
        lt→ltb c.buffer_len (c.offset + n)
          (omega (arith, At-length c rest a, a.inside, a.same_len)))

  advance_enough :
      {A : Type 0} (c : Context) (x : A) (rest : Bytes) (n : ℕ)
      → At buffer size c rest
      → n ≤ length rest
      → advance n (c, x) ≡ ok (record c { offset = u16 (c.offset + n) }, x)
  advance_enough c x rest n a h = rw (check_avail_enough c x rest n a h)

  abbrev pub AtNumber : Context × ℕ → ℕ × Bytes → Type 0
  AtNumber p q = At buffer size p.0 q.1 × (p.1 ≡ q.0) × (p.1 < 65536)

  pub Meets-u16 :
      (c : Context) (v old : ℕ) (rest : Bytes)
      → At buffer size c rest
      → Meets AtNumber (read_u16 (c, v)) (take_u16 old rest)
  unfolding read_u16 take_u16 Meets
  Meets-u16 c v old [] a = rw (check_avail_short c v [] 2 a (omega arith)) refl
  Meets-u16 c v old (h ∷ []) a = rw (check_avail_short c v (h ∷ []) 2 a (omega arith)) refl
  Meets-u16 c v old (h ∷ l ∷ rest) a =
      rw (check_avail_enough c v _ 2 a (omega arith), advance_enough c _ _ 2 a (omega arith))
        (At-drop c _ 2 a (omega arith), value, omega arith)
    where
      whole : All IsByte (h ∷ l ∷ rest)
      whole =
          subst (All IsByte) (sym a.left)
            (All-take IsByte (size - c.offset) _ (All-drop IsByte c.offset buffer bytes))

      value :
          u16 (u16 (get_or c.buffer c.offset 0 * 256) + get_or c.buffer (c.offset + 1) 0)
          ≡ h * 256 + l
      value = omega (
        arith,
        whole,
        At-byte c (h ∷ l ∷ rest) 1 a (omega arith),
        ap (λ (i : ℕ). get_or c.buffer i 0) (add-zero c.offset),
        At-byte c (h ∷ l ∷ rest) 0 a (omega arith),
      )

  -- The element read is this string, and lies inside the buffer.
  pub record IsView (e : Element) (b : Bytes) : Type 0 where
    pub shown : view_element buffer e ≡ b
    pub stays : e.ptr + e.len ≤ size

  abbrev pub AtElement : Context × Element → Bytes × Bytes → Type 0
  AtElement p q = At buffer size p.0 q.1 × IsView p.1 q.0

  -- After the length: the check of the body, and the two writes.
  body : Context × Element → Step (Context × Element)
  body s = do s ← check_avail s.1.len s; advance s.1.len (s.0, record s.1 { ptr = s.0.offset })

  Meets-body :
      (c : Context) (e : Element) (old : Bytes) (n : ℕ) (rest : Bytes)
      → At buffer size c rest
      → e.len ≡ n
      → Meets AtElement (body (c, e)) (take_body old n rest)
  unfolding body take_body Meets
  Meets-body c e old n rest a len = elim (Bool-cases (ltb (length rest) n)) [
    | inl short ↦
        let lt : length rest < e.len = omega (arith, ltb→lt _ _ short) in
        rw (check_avail_short c e rest e.len a lt, short) refl
    | inr enough ↦
        let le : e.len ≤ length rest = omega (arith, le_of_ltb-false _ _ enough) in
        let moved : Context = record c { offset = u16 (c.offset + e.len) } in
        let e' : Element = record e { ptr = c.offset } in
        rw (check_avail_enough c e rest e.len a le, advance_enough c e' rest e.len a le, enough)
          (
            subst (λ (k : ℕ). At buffer size moved (drop k rest)) len (At-drop c rest e.len a le),
            record {
              shown = At-slice c rest e.len a le ∙ ap (λ (k : ℕ). take k rest) len;
              stays = omega (arith, le, At-length c rest a, a.inside);
            },
          )
  ]

  pub Meets-element :
      (c : Context) (e : Element) (old : Bytes) (rest : Bytes)
      → At buffer size c rest
      → Meets AtElement (read_element (c, e)) (take_element old rest)
  unfolding read_element take_element take_u16 body Meets
  Meets-element c e old rest a = measured rest (read_u16 (c, e.len)) (Meets-u16 c e.len 0 rest a)
    where
      measured :
          (rest : Bytes) (r : Step (Context × ℕ))
          → Meets AtNumber r (take_u16 0 rest)
          → Meets AtElement
              (within (λ p. (p.0, record e { len = p.1 })) r >>= body)
              (take_element old rest)
      measured (h ∷ l ∷ rest) (ok p) m = Meets-body p.0 _ old _ rest m.0 m.1
      measured (h ∷ l ∷ rest) (fail x p) m = absurd m
      measured [] (ok p) m = absurd m
      measured [] (fail x p) m = m
      measured (h ∷ []) (ok p) m = absurd m
      measured (h ∷ []) (fail x p) m = m
