-- ===== src/Display/Meaning.antt =====
-- The review shows the transaction, and nothing of the way in which it lies in the memory.
use mathlib.Core.List.{map}
use ledger_arweave.Base.{
  ℕ, zero, suc, ◌+◌, ◌≤◌, ◌<◌, ◌≡◌, refl, sym, ap, ◌∙◌, List, [], ◌∷◌, Bytes, All, arith, get_or,
  get_or-take, take, length, length-take, subst,
}
use ledger_arweave.Parser.{Tag, Tx, empty_tag}
use ledger_arweave.Parser.Layout.{Transaction, view, view_tag}
use ledger_arweave.Parser.RoundTrip.{IsInBounds}
use ledger_arweave.Display.{Ui, Screen, get_num_items, get_item}
use ledger_arweave.Display.Same.{SameTag, SameTx, bounded-Same, get_num_items-Same, get_item-Same}

abbrev TagsIn : ℕ → List Tag → Type 0
TagsIn size = All λ (t : Tag). (t.key.ptr + t.key.len ≤ size) × (t.value.ptr + t.value.len ≤ size)

length-map_view : (m : Bytes) (ts : List Tag) → length (map (view_tag m) ts) ≡ length ts
length-map_view m [] = refl
length-map_view m (t ∷ ts) = ap suc (length-map_view m ts)

-- The tags counted are those of the transaction.
pub tags_count-view :
    (size : ℕ) (m : Bytes) (v : Tx) → IsInBounds size v → v.tags_count ≡ length (view m v).tags
tags_count-view size m v h = omega (
  arith,
  length-map_view m (take v.tags_count v.tags),
  length-take v.tags_count v.tags,
  h.count_in,
)

module _ (m m' : Bytes) where
  entries-SameTag :
      (ts us : List Tag) (i : ℕ)
      → TagsIn (length m) ts
      → TagsIn (length m') us
      → map (view_tag m) ts ≡ map (view_tag m') us
      → i < length ts
      → SameTag m m' (get_or ts i empty_tag) (get_or us i empty_tag)
  entries-SameTag [] us i h k e lt = absurd (omega arith)
  entries-SameTag (t ∷ ts) [] i h k e lt = absurd (cc)
  entries-SameTag (t ∷ ts) (u ∷ us) zero h k e lt = (
    bounded-Same m m' t.key u.key h.0.0 k.0.0 (cc),
    bounded-Same m m' t.value u.value h.0.1 k.0.1 (cc),
  )
  entries-SameTag (t ∷ ts) (u ∷ us) (suc i) h k e lt =
      entries-SameTag ts us i h.1 k.1 (cc) (omega arith)

  module _ (v w : Tx) (h : IsInBounds (length m) v) (k : IsInBounds (length m') w)
      (e : view m v ≡ view m' w) where
    tags_eq : (view m v).tags ≡ (view m' w).tags
    tags_eq = ap (λ (t : Transaction). t.tags) e

    same_count : v.tags_count ≡ w.tags_count
    same_count =
        tags_count-view (length m) m v h
        ∙ ap length tags_eq
        ∙ sym (tags_count-view (length m') m' w k)

    same_tag :
        (i : ℕ)
        → i < v.tags_count
        → SameTag m m' (get_or v.tags i empty_tag) (get_or w.tags i empty_tag)
    same_tag i lt =
        subst (λ (u : Tag). SameTag m m' (get_or v.tags i empty_tag) u)
          (get_or-take w.tags_count i w.tags empty_tag (omega (arith, same_count, lt)))
          (subst (λ (t : Tag). SameTag m m' t (get_or (take w.tags_count w.tags) i empty_tag))
            (get_or-take v.tags_count i v.tags empty_tag lt)
            (entries-SameTag (take v.tags_count v.tags) (take w.tags_count w.tags) i h.tags_in
              k.tags_in tags_eq (omega (arith, length-take v.tags_count v.tags, h.count_in, lt))))

    view-SameTx : SameTx m m' v w
    view-SameTx = record {
      target =
          bounded-Same m m' v.target w.target h.target_in k.target_in
            (ap (λ (t : Transaction). t.target) e);
      quantity =
          bounded-Same m m' v.quantity w.quantity h.quantity_in k.quantity_in
            (ap (λ (t : Transaction). t.quantity) e);
      reward =
          bounded-Same m m' v.reward w.reward h.reward_in k.reward_in
            (ap (λ (t : Transaction). t.reward) e);
      last_tx =
          bounded-Same m m' v.last_tx w.last_tx h.last_tx_in k.last_tx_in
            (ap (λ (t : Transaction). t.last_tx) e);
      data_size =
          bounded-Same m m' v.data_size w.data_size h.data_size_in k.data_size_in
            (ap (λ (t : Transaction). t.data_size) e);
      data_root =
          bounded-Same m m' v.data_root w.data_root h.data_root_in k.data_root_in
            (ap (λ (t : Transaction). t.data_root) e);
      count = same_count;
      tags = same_tag;
    }

    -- Two parsed objects that mean the same transaction have the same review: as many items, and the
    -- same key, value, number of pages or error for each item and page, wherever the fields lie in
    -- the two memories. What is shown depends on the transaction alone, as its digest does. The
    -- strings of the objects lie in their memories, and there are at most 16 tags.
    pub get_item-view :
        (ui : Ui) (key_len val_len page_idx idx : ℕ) (s : Screen)
        → v.tags_count ≤ 16
        → (get_num_items ui v ≡ get_num_items ui w)
          × (get_item ui m key_len val_len page_idx v idx s
              ≡ get_item ui m' key_len val_len page_idx w idx s)
    get_item-view ui key_len val_len page_idx idx s few = (
      get_num_items-Same m m' ui key_len val_len page_idx v w view-SameTx,
      get_item-Same m m' ui key_len val_len page_idx v w idx s view-SameTx few,
    )
