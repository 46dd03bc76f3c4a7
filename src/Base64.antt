-- ===== src/Base64.antt =====
-- app/src/b64url.c: base64url without padding, written into a caller's buffer.
--
-- `b64url_charset` is the table of 64 characters. `out` is the list of the `outlen` cells. A read
-- beyond the table gives 0 and a write beyond the cells is lost: Base64.Loop and Base64.Encode look
-- at whether there are any. `carry_count` is 0, 2, 4 or 6.
pub mod Sextets
pub mod Loop
pub mod Encode
pub mod Tests
use Prim.Native.Nat.{bit_and, bit_or}
use ledger_arweave.Base.{
  ℕ, zero, suc, ◌+◌, ◌-◌, ◌*◌, ◌/◌, ◌%◌, ◌^◌, ◌<◌, List, [], ◌∷◌, Option, none, some, Bytes, u8,
  u16, ltb, ◌==◌, if◌then◌else◌, get_or, set, length, replicate,
}
use ledger_arweave.Status.{codes}

abbrev pub charset : Bytes
charset = codes "ABCDEFGHIJKLMNOPQRSTUVWXYZabcdefghijklmnopqrstuvwxyz0123456789-_"

pub record Encoder : Type 0 where
  pub carry_count : ℕ
  pub carry_value : ℕ
  pub out_idx : ℕ
  pub out : Bytes

abbrev pub char : ℕ → ℕ
char idx = get_or charset idx 0

-- `out[out_idx++] = b64url_charset[idx]`
abbrev pub put : ℕ → Encoder → Encoder
put idx e = record e { out_idx = u16 (e.out_idx + 1); out = set e.out e.out_idx (char idx) }

-- One round of the loop. The shifts are done in `int` on values below 2 ^ 16.
unfoldable pub round : Encoder → ℕ → Encoder
round e c =
    let shift = 6 - e.carry_count in
    let idx = u8 (bit_or (e.carry_value * 2 ^ shift) (c / 2 ^ (e.carry_count + 2))) in
    let f =
      put idx (record e {
        carry_value = bit_and c (0xff / 2 ^ shift);
        carry_count = e.carry_count + 2;
      }) in
    if f.carry_count == 6
    then record (put f.carry_value f) { carry_value = 0; carry_count = 0 }
    else f

unfoldable pub rounds : Encoder → Bytes → Encoder
rounds e [] = e
rounds e (c ∷ cs) = rounds (round e c) cs

-- "If there is any left over add and pad"
unfoldable pub finish : Encoder → Encoder
finish e = if ltb 0 e.carry_count then put (e.carry_value * 2 ^ (6 - e.carry_count)) e else e

-- The space that the guard asks for.
abbrev pub min_space : ℕ → ℕ
min_space inlen = inlen / 3 + (if inlen % 3 == 0 then 0 else 1)

-- `b64url_encode`: the number that it returns, and the buffer. `input` is what `in` points to, with
-- `inlen` its length; `none` stands for a NULL pointer.
unfoldable pub encode : Option Bytes → ℕ → Option Bytes → ℕ × Option Bytes
encode none outlen input = (0, none)
encode (some out) outlen none = (0, some out)
encode (some out) outlen (some input) =
    let zeroed = replicate outlen 0 in
    if ltb outlen (length input + min_space (length input))
    then (0, some zeroed)
    else let e =
        finish
          (rounds (record { carry_count = 0; carry_value = 0; out_idx = 0; out = zeroed }) input) in
      (e.out_idx, some e.out)
