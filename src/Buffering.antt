-- ===== src/Buffering.antt =====
-- The buffer of zxlib that app/src/common/tx.c collects a message in. Its code is not part of the
-- repository: the operations that the app calls are fields, with what their documentation says of
-- them (app/src/common/tx.h repeats it for `tx_append`).
use ledger_arweave.Base.{ℕ, ◌+◌, ◌≤◌, ◌≡◌, [], ◌++◌, Bytes, IsByte, All, length}

pub record Buffering : Type 1 where
  pub Buffer : Type 0
  pub start : ℕ → ℕ → Buffer → Buffer
  pub reset : Buffer → Buffer
  pub append : Bytes → Buffer → ℕ × Buffer
  -- The first `pos` bytes of `data`.
  pub contents : Buffer → Bytes
  -- The most that fits.
  pub limit : Buffer → ℕ
  pub reset-empty : (b : Buffer) → contents (reset b) ≡ []
  pub append_whole :
      (bs : Bytes) (b : Buffer)
      → (append bs b).0 ≡ length bs
      → contents (append bs b).1 ≡ contents b ++ bs
  pub append_fits :
      (bs : Bytes) (b : Buffer)
      → length (contents b) + length bs ≤ limit b
      → (append bs b).0 ≡ length bs
  pub append_bytes :
      (bs : Bytes) (b : Buffer)
      → All IsByte (contents b)
      → All IsByte bs
      → All IsByte (contents (append bs b).1)
  pub contents_le : (b : Buffer) → length (contents b) ≤ limit b
  pub limit-start : (ram flash : ℕ) (b : Buffer) → limit (start ram flash b) ≤ ram + flash
  pub limit-reset : (b : Buffer) → limit (reset b) ≡ limit b
  pub limit-append : (bs : Bytes) (b : Buffer) → limit (append bs b).1 ≡ limit b
