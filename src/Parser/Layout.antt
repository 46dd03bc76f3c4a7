-- ===== src/Parser/Layout.antt =====
-- The wire format of docs/APDUSPEC.md, written without reference to the reader: a transaction of
-- byte strings, and the bytes that stand for it. `view` is what a parsed `Tx` means.
use mathlib.Core.List.{map}
use ledger_arweave.Base.{
  ℕ, ◌/◌, ◌%◌, ◌≤◌, ◌<◌, ◌≡◌, List, [], ◌∷◌, ◌++◌, Bytes, All, length, take, slice,
}
use ledger_arweave.Parser.{Element, Tag, Tx}

pub record Transaction : Type 0 where
  pub format : Bytes
  pub owner : Bytes
  pub target : Bytes
  pub quantity : Bytes
  pub reward : Bytes
  pub last_tx : Bytes
  pub tags : List (Bytes × Bytes)
  pub data_size : Bytes
  pub data_root : Bytes

-- Two bytes, the high one first.
unfoldable pub encode_u16 : ℕ → Bytes
encode_u16 n = n / 256 ∷ n % 256 ∷ []

unfoldable pub encode_element : Bytes → Bytes
unfolding encode_u16
encode_element bs = encode_u16 (length bs) ++ bs

unfoldable pub encode_tags : List (Bytes × Bytes) → Bytes
encode_tags [] = []
encode_tags ((k, v) ∷ ts) = encode_element k ++ (encode_element v ++ encode_tags ts)

unfoldable pub encode : Transaction → Bytes
encode t =
    encode_element t.format
    ++ (encode_element t.owner
        ++ (encode_element t.target
            ++ (encode_element t.quantity
                ++ (encode_element t.reward
                    ++ (encode_element t.last_tx
                        ++ (encode_u16 (length t.tags)
                            ++ (encode_tags t.tags
                                ++ (encode_element t.data_size ++ encode_element t.data_root))))))))

-- A string that a 16-bit length can announce.
abbrev pub Fits : Bytes → Type 0
Fits bs = length bs < 65536

-- What the app accepts: format 2, a 4096-bit owner, at most 16 tags.
pub record IsSupported (t : Transaction) : Type 0 where
  pub version : t.format ≡ b'2' ∷ []
  pub modulus : length t.owner ≡ 512
  pub few_tags : length t.tags ≤ 16
  pub target_fits : Fits t.target
  pub quantity_fits : Fits t.quantity
  pub reward_fits : Fits t.reward
  pub last_tx_fits : Fits t.last_tx
  pub tags_fit : All (λ p. Fits p.0 × Fits p.1) t.tags
  pub data_size_fits : Fits t.data_size
  pub data_root_fits : Fits t.data_root

abbrev pub view_element : Bytes → Element → Bytes
view_element buffer e = slice buffer e.ptr e.len

abbrev pub view_tag : Bytes → Tag → Bytes × Bytes
view_tag buffer t = (view_element buffer t.key, view_element buffer t.value)

-- The first `tags_count` entries of the array are the tags.
abbrev pub view_tags : Bytes → ℕ → List Tag → List (Bytes × Bytes)
view_tags buffer n ts = map (view_tag buffer) (take n ts)

abbrev pub view : Bytes → Tx → Transaction
view buffer v = record {
  format = view_element buffer v.format;
  owner = view_element buffer v.owner;
  target = view_element buffer v.target;
  quantity = view_element buffer v.quantity;
  reward = view_element buffer v.reward;
  last_tx = view_element buffer v.last_tx;
  tags = view_tags buffer v.tags_count v.tags;
  data_size = view_element buffer v.data_size;
  data_root = view_element buffer v.data_root;
}
