-- ===== src/DeepHash/Tests.antt =====
-- The theorems on the digest at a concrete transaction, with a toy in the place of the hash function.
use ledger_arweave.Base.{
  ℕ, ◌+◌, ◌*◌, ◌%◌, ◌≡◌, ◌⊎◌, refl, ap, subst, ◌∙◌, [], ◌∷◌, ◌++◌, Option, none, some, Bytes, arith,
  length, replicate, are_below_sound,
}
use ledger_arweave.Status.{ok}
use ledger_arweave.Parser.{Context, Tx, parse}
use ledger_arweave.Parser.Tests.{
  idle, transfer, transfer-IsSupported, message, message-are_bytes, message-small, parsed_message,
}
use ledger_arweave.Parser.RoundTrip.{Parsed, parse-encode}
use ledger_arweave.DeepHash.Collision.{Has48, Collision}
use ledger_arweave.DeepHash.Binding.{get_digest-inj}
use ledger_arweave.Parser.Layout.{
  Transaction, view, encode, encode_element, encode_u16, encode_tags,
}
use ledger_arweave.DeepHash.{Hash, get_digest}
use ledger_arweave.DeepHash.Tree.{deep_hash, absorb_all, transaction_tree}
use ledger_arweave.DeepHash.Digest.{reported, reported-some, get_digest-deep_hash, parse-get_digest}

sum : Bytes → ℕ
sum [] = 7
sum (b ∷ bs) = (b + 3 * sum bs) % 256

toy : Hash
toy bytes = some (replicate 48 (sum bytes))

get_digest-deep_hash_example :
    get_digest toy message parsed_message.after.1 (replicate 48 1) 48
    ≡ reported 48 (deep_hash toy (transaction_tree (view message parsed_message.after.1)))
get_digest-deep_hash_example =
    get_digest-deep_hash toy message parsed_message.after.1 (replicate 48 1) 48
      parsed_message.bounds (omega arith)

parse-get_digest_example :
    (p : Context × Tx) × (parse idle (some message) (length message) ≡ ok p)
    × (get_digest toy message p.1 (replicate 48 1) 48
        ≡ reported 48 (deep_hash toy (transaction_tree transfer)))
parse-get_digest_example =
    parse-get_digest toy idle transfer (1 ∷ 2 ∷ []) (replicate 48 1) 48 transfer-IsSupported
      (are_below_sound 256 message message-are_bytes) message-small refl (omega arith)

-- A hash function that gives one value only.
flat : Hash
flat b = some (replicate 48 6)

flat-Has48 : Has48 flat
unfolding flat
flat-Has48 b h e = subst (λ (o : Option Bytes). long o) e refl
  where
    long : Option Bytes → Type 0
    long none = Unit
    long (some h) = length h ≡ 48

-- The transfer again, with nothing behind it.
parsed_alone : Parsed idle (encode transfer ++ []) (length (encode transfer ++ [])) transfer []
unfolding encode encode_element encode_u16 encode_tags
parsed_alone =
    parse-encode idle transfer [] transfer-IsSupported
      (are_below_sound 256 (encode transfer ++ []) refl) (omega arith) refl

hashed : deep_hash flat (transaction_tree transfer) ≡ some (replicate 48 6)
unfolding deep_hash absorb_all flat
hashed = refl

digest_of :
    {memory rest : Bytes}
    → (q : Parsed idle memory (length memory) transfer rest)
    → get_digest flat memory q.after.1 (replicate 48 0) 48 ≡ ok (replicate 48 6)
digest_of {memory} {rest} q =
    get_digest-deep_hash flat memory q.after.1 (replicate 48 0) 48 q.bounds (omega arith)
    ∙ ap (λ (t : Transaction). reported 48 (deep_hash flat (transaction_tree t))) q.means
    ∙ ap (reported 48) hashed
    ∙ reported-some (replicate 48 6) refl

get_digest-inj_example :
    (view message parsed_message.after.1 ≡ view (encode transfer ++ []) parsed_alone.after.1)
    ⊎ Collision flat
get_digest-inj_example =
    get_digest-inj flat flat-Has48 message (encode transfer ++ []) parsed_message.after.1
      parsed_alone.after.1 (replicate 48 6) parsed_message.bounds parsed_alone.bounds
      (digest_of parsed_message) (digest_of parsed_alone)
