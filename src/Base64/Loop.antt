-- ===== src/Base64/Loop.antt =====
-- The rounds of the loop: the carry holds the bits that are not yet written.
use Prim.Native.Nat.{bit_or}
use mathlib.Core.List.{map}
use ledger_arweave.Base.{
  ℕ, suc, zero, ◌+◌, ◌*◌, ◌/◌, ◌%◌, ◌^◌, ◌<◌, ◌≤◌, ◌≡◌, refl, sym, ap, ap₂, ◌∙◌, subst, [], ◌∷◌,
  ◌++◌, append_assoc, append-nil, Bytes, IsByte, All, arith, u8, u16, length, set, replicate,
  length-append,
}
use ledger_arweave.Base.Bits.{bit_or_shifted, bit_and_mask}
use ledger_arweave.Base64.{Encoder, char, put, round, rounds, finish}
use ledger_arweave.Base64.Sextets.{sextets}

abbrev pub encoder : ℕ → ℕ → ℕ → Bytes → Encoder
encoder n v i out = record { carry_count = n; carry_value = v; out_idx = i; out = out }

round_first :
    (i : ℕ) (o : Bytes) (c : ℕ)
    → c < 256
    → round (encoder 0 0 i o) c ≡ encoder 2 (c % 4) (u16 (i + 1)) (set o i (char (c / 4)))
unfolding round
round_first i o c h =
    ap₂ (λ (x v : ℕ). encoder 2 v (u16 (i + 1)) (set o i (char x))) index (bit_and_mask 2 c)
  where
    index : u8 (bit_or (0 * 2 ^ 6) (c / 4)) ≡ c / 4
    index = omega (arith, bit_or_shifted 6 0 (c / 4) (omega arith))

round_second :
    (v i : ℕ) (o : Bytes) (c : ℕ)
    → v < 4
    → c < 256
    → round (encoder 2 v i o) c
      ≡ encoder 4 (c % 16) (u16 (i + 1)) (set o i (char (v * 16 + c / 16)))
unfolding round
round_second v i o c hv h =
    ap₂ (λ (x w : ℕ). encoder 4 w (u16 (i + 1)) (set o i (char x))) index (bit_and_mask 4 c)
  where
    index : u8 (bit_or (v * 2 ^ 4) (c / 16)) ≡ v * 16 + c / 16
    index = omega (arith, bit_or_shifted 4 v (c / 16) (omega arith))

round_third :
    (v i : ℕ) (o : Bytes) (c : ℕ)
    → v < 16
    → c < 256
    → round (encoder 4 v i o) c
      ≡ put (c % 64) (encoder 0 0 (u16 (i + 1)) (set o i (char (v * 4 + c / 64))))
unfolding round
round_third v i o c hv h =
    ap₂ (λ (x w : ℕ). put w (encoder 0 0 (u16 (i + 1)) (set o i (char x)))) index (bit_and_mask 6 c)
  where
    index : u8 (bit_or (v * 2 ^ 2) (c / 64)) ≡ v * 4 + c / 64
    index = omega (arith, bit_or_shifted 2 v (c / 64) (omega arith))

-- Three rounds write four characters and leave no carry.
abbrev grouped : ℕ → ℕ → ℕ → Encoder → Encoder
grouped a b c e =
    put (c % 64) (put (b % 16 * 4 + c / 64) (put (a % 4 * 16 + b / 16) (put (a / 4) e)))

rounds_group :
    (a b c : ℕ) (r : Bytes) (i : ℕ) (o : Bytes)
    → All IsByte (a ∷ b ∷ c ∷ r)
    → rounds (encoder 0 0 i o) (a ∷ b ∷ c ∷ r) ≡ rounds (grouped a b c (encoder 0 0 i o)) r
unfolding rounds
rounds_group a b c r i o h =
    ap (λ (e : Encoder). rounds e r)
      (ap (λ (e : Encoder). round (round e b) c) (round_first i o a h.0)
        ∙ ap (λ (e : Encoder). round e c) (round_second (a % 4) _ _ b (omega arith) h.1.0)
        ∙ round_third (b % 16) _ _ c (omega arith) h.1.1.0)

-- `text` stands at the front of the buffer, zeros behind it, and the index points behind it.
pub record IsWritten (e : Encoder) (text : Bytes) (size : ℕ) : Type 0 where
  pub room : ℕ
  pub index : e.out_idx ≡ length text
  pub cells : e.out ≡ text ++ replicate room 0
  pub sums : length text + room ≡ size

set-append :
    (text : Bytes) (room v : ℕ)
    → set (text ++ replicate (suc room) 0) (length text) v ≡ (text ++ v ∷ []) ++ replicate room 0
set-append [] room v = refl
set-append (x ∷ text) room v = ap (◌∷◌ x) (set-append text room v)

put-IsWritten :
    (idx : ℕ) (e : Encoder) (text : Bytes) (size : ℕ)
    → length text < size
    → size < 65536
    → IsWritten e text size
    → IsWritten (put idx e) (text ++ char idx ∷ []) size
put-IsWritten idx e text size h small w = filled w.room w.cells w.sums
  where
    filled :
        (room : ℕ)
        → e.out ≡ text ++ replicate room 0
        → length text + room ≡ size
        → IsWritten (put idx e) (text ++ char idx ∷ []) size
    filled zero cells sums = absurd (omega arith)
    filled (suc room) cells sums = record {
      room = room;
      index = omega (arith, w.index, length-append text (char idx ∷ []));
      cells =
          ap₂ (λ (o : Bytes) (i : ℕ). set o i (char idx)) cells w.index
          ∙ set-append text room (char idx);
      sums = omega (arith, sums, length-append text (char idx ∷ []));
    }

retext : {size : ℕ} {e : Encoder} {t u : Bytes} → t ≡ u → IsWritten e t size → IsWritten e u size
retext {size} {e} p w = subst (λ (t : Bytes). IsWritten e t size) p w

module _ (size : ℕ) (small : size < 65536) where
  put_two :
      (x y : ℕ) (e : Encoder) (text : Bytes)
      → length text + 2 ≤ size
      → IsWritten e text size
      → IsWritten (put y (put x e)) (text ++ char x ∷ char y ∷ []) size
  put_two x y e text h w = retext (append_assoc text (char x ∷ []) _) (
      put-IsWritten y (put x e) _ size (omega (arith, length-append text (char x ∷ []))) small
        (put-IsWritten x e text size (omega arith) small w))

  abbrev group : ℕ → ℕ → ℕ → Bytes
  group a b c =
      char (a / 4) ∷ char (a % 4 * 16 + b / 16) ∷ char (b % 16 * 4 + c / 64) ∷ char (c % 64) ∷ []

  put_four :
      (a b c : ℕ) (e : Encoder) (text : Bytes)
      → length text + 4 ≤ size
      → IsWritten e text size
      → IsWritten (grouped a b c e) (text ++ group a b c) size
  put_four a b c e text h w =
      let half : Bytes = char (a / 4) ∷ char (a % 4 * 16 + b / 16) ∷ [] in
      retext (append_assoc text half _) (
        put_two (b % 16 * 4 + c / 64) (c % 64) _ (text ++ half)
          (omega (arith, length-append text half))
          (put_two (a / 4) (a % 4 * 16 + b / 16) e text (omega arith) w))

  -- The carry is not part of what is written.
  recarry :
      (n v m u i : ℕ) (o text : Bytes)
      → IsWritten (encoder n v i o) text size
      → IsWritten (encoder m u i o) text size
  recarry n v m u i o text w = record {
    room = w.room;
    index = w.index;
    cells = w.cells;
    sums = w.sums;
  }

  -- Whatever the buffer begins with, the loop and the last character append the text.
  pub loop-IsWritten :
      (input : Bytes) (i : ℕ) (o text : Bytes)
      → All IsByte input
      → length text + length (sextets input) ≤ size
      → IsWritten (encoder 0 0 i o) text size
      → IsWritten (finish (rounds (encoder 0 0 i o) input)) (text ++ map char (sextets input)) size
  unfolding rounds finish sextets
  loop-IsWritten [] i o text h fits w = rw append-nil w
  loop-IsWritten (a ∷ []) i o text h fits w = rw (round_first i o a h.0) (
      put_two (a / 4) (a % 4 * 16) (encoder 2 (a % 4) i o) text (omega arith)
        (recarry 0 0 2 (a % 4) i o text w))
  loop-IsWritten (a ∷ b ∷ []) i o text h fits w =
      rw (round_first i o a h.0, round_second (a % 4) _ _ b (omega arith) h.1.0)
        (retext (append_assoc text _ _) (
          put-IsWritten (b % 16 * 4) _ _ size
            (omega (arith, length-append text (char (a / 4) ∷ char (a % 4 * 16 + b / 16) ∷ [])))
            small
            (put_two (a / 4) (a % 4 * 16 + b / 16) (encoder 4 (b % 16) i o) text (omega arith)
              (recarry 0 0 4 (b % 16) i o text w))))
  loop-IsWritten (a ∷ b ∷ c ∷ r) i o text h fits w =
      subst
        (λ (e : Encoder). IsWritten (finish e) (text ++ (group a b c ++ map char (sextets r))) size)
        (sym (rounds_group a b c r i o h))
        (retext (append_assoc text (group a b c) _) (
          loop-IsWritten r _ _ (text ++ group a b c) h.1.1.1
            (omega (arith, length-append text (group a b c)))
            (put_four a b c (encoder 0 0 i o) text (omega arith) w)))
