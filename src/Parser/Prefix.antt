-- ===== src/Parser/Prefix.antt =====
-- `parser_parse` does not look behind its input.
use ledger_arweave.Base.{
  ℕ, ◌<◌, ◌≡◌, refl, sym, ap, ◌∙◌, ◌==◌, Bool-cases, inl, inr, some, Bytes, arith, ltb, u16, take,
  get_or, get_or-take,
}
use ledger_arweave.Status.{Step, ok, fail}
use ledger_arweave.Parser.{Context, Tx, parse, init, init_context}
use ledger_arweave.Parser.Reach.{Twin, Any, placed, read-Twin}

-- What a call leaves, but for the pointer to the memory: the code that it returns, the length and the
-- offset of the context, and the object.
abbrev pub without_buffer : Step (Context × Tx) → Step (ℕ × ℕ × Tx)
without_buffer (ok (c, v)) = ok (c.buffer_len, c.offset, v)
without_buffer (fail e (c, v)) = fail e (c.buffer_len, c.offset, v)

module _ (m m' : Bytes) (size : ℕ) (same : take size m ≡ take size m') where
  agrees : (i : ℕ) → i < u16 size → get_or m i 0 ≡ get_or m' i 0
  agrees i lt =
      sym (get_or-take size i m 0 (omega (arith, lt)))
      ∙ ap (λ (b : Bytes). get_or b i 0) same
      ∙ get_or-take size i m' 0 (omega (arith, lt))

  placed-same :
      (b : Step (ℕ × Tx))
      → without_buffer (placed m m' (u16 size) agrees m b)
        ≡ without_buffer (placed m m' (u16 size) agrees m' b)
  placed-same (ok (o, v)) = refl
  placed-same (fail e (o, v)) = refl

  twins-same :
      {r r' : Step (Context × Tx)}
      → Twin m m' (u16 size) agrees (Any m m' (u16 size) agrees) r r'
      → without_buffer r ≡ without_buffer r'
  twins-same t = ap without_buffer t.here ∙ placed-same t.both ∙ sym (ap without_buffer t.there)

  -- Two memories that agree on the first `size` bytes are parsed alike: `parser_parse` returns the
  -- same code, on a success and on every error, and leaves the same counters and the same object.
  -- No byte behind the announced length is looked at, whatever lengths the message itself gives.
  pub parse-take :
      (p : Context × Tx)
      → without_buffer (parse p (some m) size) ≡ without_buffer (parse p (some m') size)
  unfolding parse init init_context
  parse-take p = elim (Bool-cases (ltb size 1)) [
    | inl z ↦ rw z refl
    | inr z ↦ rw z (elim (Bool-cases (u16 size == 0)) [
      | inl y ↦ rw y refl
      | inr y ↦ rw y (twins-same (read-Twin m m' (u16 size) agrees 0 p.1))
    ])
  ]
