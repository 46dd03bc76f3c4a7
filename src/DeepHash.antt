-- ===== src/DeepHash.antt =====
-- The deep hash that is signed: the hashing functions of app/src/parser.c and `crypto_sha384` of
-- app/src/crypto_helper.c.
--
-- `sha384` stands for the hash function of the SDK (on other platforms, for the library under
-- deps/sha512); it is `none` where that function reports an error.
pub mod Decimal
pub mod Tree
pub mod Gives
pub mod Digest
pub mod Collision
pub mod Binding
pub mod Tests
use ledger_arweave.Base.{
  ℕ, zero, suc, ◌+◌, ◌-◌, List, [], ◌∷◌, ◌++◌, Option, none, some, Bytes, ltb, if◌then◌else◌,
  length, get_or, take, drop, replicate, slice,
}
use ledger_arweave.Status.{
  Step, ok, fail, ◌>>=◌, within, codes, parser_unexpected_buffer_end, parser_unexpected_error,
}
use ledger_arweave.Parser.{Element, Tag, Tx, empty_tag}
use ledger_arweave.DeepHash.Decimal.{decimal}

-- `deepHash_t`; its `pair` is the two fields in a row.
pub record DeepHash : Type 0 where
  pub acc : Bytes
  pub hash : Bytes

-- `deepHash_t ctx = {0}`
abbrev pub zeroed : DeepHash
zeroed = record { acc = replicate 48 0; hash = replicate 48 0 }

-- What `snprintf` leaves in a zeroed buffer of 50 for the format "%s%d", up to its terminator.
abbrev pub tag_text : Bytes → ℕ → Bytes
tag_text name n = take 49 (name ++ decimal n)

abbrev pub Hash : Type 0
Hash = Bytes → Option Bytes

-- The value of `crypto_sha384` under the caller's `CONVERT_ZXERROR`; `out` is what the buffer held.
abbrev report : Bytes → Option Bytes → Step Bytes
report out none = fail parser_unexpected_error out
report out (some h) = ok h

unfoldable pub crypto_sha384 : Hash → Bytes → Bytes → Step Bytes
crypto_sha384 sha384 input out = report out (sha384 input)

-- The accumulator is copied out on success; the buffer was zeroed at the start.
unfoldable pub deliver : Bytes → Step DeepHash → Step Bytes
deliver zeros (fail e dh) = fail e zeros
deliver zeros (ok dh) = ok dh.acc

module _ (sha384 : Hash) where
  unfoldable pub hash_tag : Bytes → Bytes → ℕ → Step Bytes
  unfolding crypto_sha384
  hash_tag result name n = crypto_sha384 sha384 (tag_text name n) result

  -- `data_len` bytes are read from `bytes`. `ctx.blob` is the two hashes in a row.
  unfoldable pub hash_blob : Bytes → Bytes → ℕ → Step Bytes
  unfolding crypto_sha384 hash_tag
  hash_blob result bytes data_len = hash_both (hash_tag (replicate 48 0) (codes "blob") data_len)
    where
      hash_pair : Bytes → Step Bytes → Step Bytes
      hash_pair tag_hash (fail e h) = fail e result
      hash_pair tag_hash (ok data_hash) = crypto_sha384 sha384 (tag_hash ++ data_hash) result

      hash_both : Step Bytes → Step Bytes
      hash_both (fail e h) = fail e result
      hash_both (ok tag_hash) =
          hash_pair tag_hash (crypto_sha384 sha384 (take data_len bytes) (replicate 48 0))

  unfoldable pub hash_accumulate : DeepHash → Step DeepHash
  unfolding crypto_sha384
  hash_accumulate dh = keep (crypto_sha384 sha384 (dh.acc ++ dh.hash) (replicate 48 0))
    where
      -- `temp` is copied only on success.
      keep : Step Bytes → Step DeepHash
      keep (fail e temp) = fail e dh
      keep (ok temp) = ok (record dh { acc = temp })

  unfoldable pub hash_chunk : Bytes → Element → DeepHash → Step DeepHash
  unfolding hash_blob hash_accumulate
  hash_chunk memory e dh = do
    dh ← within (λ h. record dh { hash = h }) (hash_blob dh.hash (drop e.ptr memory) e.len)
    hash_accumulate dh

  -- `digest` is the caller's buffer of 48 bytes.
  unfoldable pub get_tag_digest : Bytes → Tag → Bytes → Step Bytes
  unfolding hash_tag hash_chunk deliver
  get_tag_digest memory tag digest = deliver (replicate 48 0) (do
    dh ← within (λ a. record zeroed { acc = a }) (hash_tag zeroed.acc (codes "list") 2)
    dh ← hash_chunk memory tag.key dh
    hash_chunk memory tag.value dh)

  -- The loop over the tags.
  unfoldable pub digest_tags : Bytes → List Tag → DeepHash → Step DeepHash
  unfolding get_tag_digest hash_accumulate
  digest_tags memory [] dh = ok dh
  digest_tags memory (tag ∷ tags) dh = do
    dh ← within (λ h. record dh { hash = h }) (get_tag_digest memory tag dh.hash)
    dh ← hash_accumulate dh
    digest_tags memory tags dh

  -- The end of `parser_applyDigestTags`, after the structure of its own, `ctx`.
  unfoldable pub combine : DeepHash → Step DeepHash → Step DeepHash
  unfolding hash_accumulate
  combine dh (fail e ctx) = fail e dh
  combine dh (ok ctx) = hash_accumulate (record dh { hash = ctx.acc })

  unfoldable pub apply_digest_tags : Bytes → Tx → DeepHash → Step DeepHash
  unfolding hash_tag digest_tags combine
  apply_digest_tags memory v dh = combine dh (do
    ctx ← within (λ a. record zeroed { acc = a }) (hash_tag zeroed.acc (codes "list") v.tags_count)
    digest_tags memory (take v.tags_count v.tags) ctx)

  -- The hashing of `parser_getDigest`, from the bootstrap on.
  unfoldable pub hash_transaction : Bytes → Tx → Step DeepHash
  unfolding hash_tag hash_chunk apply_digest_tags
  hash_transaction memory v = do
    dh ← within (λ a. record zeroed { acc = a }) (hash_tag zeroed.acc (codes "list") 9)
    dh ← hash_chunk memory v.format dh
    dh ← hash_chunk memory v.owner dh
    dh ← hash_chunk memory v.target dh
    dh ← hash_chunk memory v.quantity dh
    dh ← hash_chunk memory v.reward dh
    dh ← hash_chunk memory v.last_tx dh
    dh ← apply_digest_tags memory v dh
    dh ← hash_chunk memory v.data_size dh
    hash_chunk memory v.data_root dh

  -- `parser_getDigest`, on the buffer `digest` of `digest_len` bytes.
  unfoldable pub get_digest : Bytes → Tx → Bytes → ℕ → Step Bytes
  unfolding hash_transaction deliver
  get_digest memory v digest digest_len =
      if ltb digest_len 48
      then fail parser_unexpected_buffer_end digest
      else deliver (replicate digest_len 0) (do
        dh ← hash_transaction memory v
        ok (record dh { acc = take 48 dh.acc ++ replicate (digest_len - 48) 0 }))
