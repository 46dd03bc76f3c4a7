-- ===== src/DeepHash/Gives.antt =====
-- The hashing functions of app/src/parser.c, each against the deep hash of its part of the tree.
use ledger_arweave.Base.{
  ℕ, suc, zero, ◌+◌, ◌≤◌, ◌≡◌, refl, sym, ap, subst, List, [], ◌∷◌, ◌++◌, Option, none, some, Bytes,
  arith, length, length-take, length-drop, take, drop, replicate, All, Option-cases, inl, inr,
}
use ledger_arweave.Status.{
  Step, ok, fail, ParserError, parser_unexpected_error, parser_unexpected_buffer_end, codes, within,
}
use ledger_arweave.Status
use mathlib.Core.List.{map}
use ledger_arweave.Parser.{Element, Tag, Tx}
use ledger_arweave.Parser.Layout.{view_element, view_tag, view_tags}
use ledger_arweave.DeepHash.{
  Hash, DeepHash, zeroed, crypto_sha384, hash_tag, hash_blob, hash_accumulate, hash_chunk,
  get_tag_digest, digest_tags, apply_digest_tags, deliver, combine, tag_text,
}
use ledger_arweave.DeepHash.Tree.{
  Tree, Trees, absorb, blob, node, nil, cons, ◌>>=◌, deep_hash, absorb_all, count, tag_tree,
  tag_trees,
}

-- The code ends as the specification does: with its value, or with `parser_unexpected_error`.
unfoldable pub Gives {ℓ} : {S : Type ℓ} → (S → Bytes) → Step S → Option Bytes → Type 0
Gives get (ok s) (some a) = get s ≡ a
Gives get (fail e s) none = e ≡ parser_unexpected_error
Gives get (ok s) none = ⊥
Gives get (fail e s) (some a) = ⊥

length-take_le : (n : ℕ) (bs : Bytes) → n ≤ length bs → length (take n bs) ≡ n
length-take_le n bs h = omega (arith, length-take n bs)

module _ where
  Gives->>= {ℓ} :
      {S : Type ℓ} (get : S → Bytes) (m : Step S) (f : S → Step S) (o : Option Bytes)
      (g : Bytes → Option Bytes)
      → Gives get m o
      → ((s : S) → Gives get (f s) (g (get s)))
      → Gives get (Status.◌>>=◌ m f) (o >>= g)
  unfolding Gives
  Gives->>= get (ok s) f (some a) g e k = subst (λ (b : Bytes). Gives get (f s) (g b)) e (k s)
  Gives->>= get (ok s) f none g e k = absurd e
  Gives->>= get (fail c s) f (some a) g e k = absurd e
  Gives->>= get (fail c s) f none g e k = e

  Gives-within {ℓ κ} :
      {A : Type ℓ} {S : Type κ} (get : A → Bytes) (get' : S → Bytes) (put : A → S) (m : Step A)
      (f : S → Step S) (o : Option Bytes) (g : Bytes → Option Bytes)
      → Gives get m o
      → ((a : A) → Gives get' (f (put a)) (g (get a)))
      → Gives get' (Status.◌>>=◌ (within put m) f) (o >>= g)
  unfolding Gives
  Gives-within get get' put (ok s) f (some a) g e k =
      subst (λ (b : Bytes). Gives get' (f (put s)) (g b)) e (k s)
  Gives-within get get' put (ok s) f none g e k = absurd e
  Gives-within get get' put (fail c s) f (some a) g e k = absurd e
  Gives-within get get' put (fail c s) f none g e k = e

Gives-deliver :
    (zeros : Bytes) (m : Step DeepHash) (o : Option Bytes)
    → Gives (λ s. s.acc) m o
    → Gives (λ h. h) (deliver zeros m) o
unfolding Gives deliver
Gives-deliver zeros (ok s) (some a) g = g
Gives-deliver zeros (ok s) none g = g
Gives-deliver zeros (fail e s) (some a) g = g
Gives-deliver zeros (fail e s) none g = g

>>=_assoc :
    {A B C : Type 0} (o : Option A) (f : A → Option B) (g : B → Option C)
    → (o >>= λ a. f a >>= g) ≡ ((o >>= f) >>= g)
>>=_assoc none f g = refl
>>=_assoc (some a) f g = refl

>>=-ok_right : {S : Type 0} (m : Step S) → Status.◌>>=◌ m ok ≡ m
>>=-ok_right (ok s) = refl
>>=-ok_right (fail e s) = refl

Step->>=_assoc :
    {S : Type 0} (m : Step S) (f g : S → Step S)
    → Status.◌>>=◌ m (λ s. Status.◌>>=◌ (f s) g) ≡ Status.◌>>=◌ (Status.◌>>=◌ m f) g
Step->>=_assoc (ok s) f g = refl
Step->>=_assoc (fail e s) f g = refl

count-view_tags :
    (memory : Bytes) (n : ℕ) (tags : List Tag)
    → n ≤ length tags
    → count (tag_trees (view_tags memory n tags)) ≡ n
count-view_tags memory zero tags h = refl
count-view_tags memory (suc n) [] h = absurd (omega arith)
count-view_tags memory (suc n) (t ∷ ts) h = ap suc (count-view_tags memory n ts (omega arith))

-- The bytes that `parser_getDigest` reads through an element.
unfoldable pub InMemory : Bytes → Element → Type 0
InMemory memory e = e.ptr + e.len ≤ length memory

unfoldable pub TagInMemory : Bytes → Tag → Type 0
TagInMemory memory t = InMemory memory t.key × InMemory memory t.value

module _ (sha384 : Hash) where
  Gives-crypto_sha384 :
      (input out : Bytes) → Gives (λ h. h) (crypto_sha384 sha384 input out) (sha384 input)
  unfolding crypto_sha384 Gives
  Gives-crypto_sha384 input out = elim (Option-cases (sha384 input)) [
    | inl e ↦ rw e refl
    | inr p ↦ rw p.1 refl
  ]

  Gives-hash_blob :
      (result bytes : Bytes) (n : ℕ)
      → n ≤ length bytes
      → Gives (λ h. h) (hash_blob sha384 result bytes n) (deep_hash sha384 (blob (take n bytes)))
  unfolding hash_blob hash_tag crypto_sha384 Gives deep_hash
  Gives-hash_blob result bytes n h =
      rw (length-take_le n bytes h) (elim (Option-cases (sha384 (tag_text (codes "blob") n))) [
        | inl e ↦ rw e refl
        | inr p ↦ rw p.1 (elim (Option-cases (sha384 (take n bytes))) [
          | inl e ↦ rw e refl
          | inr q ↦ rw q.1 (elim (Option-cases (sha384 (p.0 ++ q.0))) [
            | inl e ↦ rw e refl
            | inr r ↦ rw r.1 refl
          ])
        ])
      ])

  Gives-hash_accumulate :
      (dh : DeepHash) → Gives (λ s. s.acc) (hash_accumulate sha384 dh) (sha384 (dh.acc ++ dh.hash))
  unfolding hash_accumulate crypto_sha384 Gives
  Gives-hash_accumulate dh = elim (Option-cases (sha384 (dh.acc ++ dh.hash))) [
    | inl e ↦ rw e refl
    | inr p ↦ rw p.1 refl
  ]

  -- A hash that is put beside the accumulator, and taken in.
  Gives-absorb :
      (m : Step Bytes) (t : Tree) (dh : DeepHash)
      → Gives (λ h. h) m (deep_hash sha384 t)
      → Gives
          (λ s. s.acc)
          (Status.◌>>=◌ (within (λ h. record dh { hash = h }) m) (hash_accumulate sha384))
          (absorb sha384 dh.acc t)
  Gives-absorb m t dh g =
      Gives-within (λ h. h) (λ s. s.acc) (λ h. record dh { hash = h }) m (hash_accumulate sha384)
        (deep_hash sha384 t) (λ h. sha384 (dh.acc ++ h)) g
        (λ h. Gives-hash_accumulate (record dh { hash = h }))

  absorb_all-cons :
      (acc : Bytes) (t : Tree) (ts : Trees)
      → absorb_all sha384 acc (cons t ts) ≡ (absorb sha384 acc t >>= λ a. absorb_all sha384 a ts)
  unfolding absorb_all
  absorb_all-cons acc t ts = >>=_assoc (deep_hash sha384 t) _ _

  -- The first child of a node, and the others.
  pub Gives-then :
      (acc : Bytes) (m : Step DeepHash) (t : Tree) (ts : Trees) (f : DeepHash → Step DeepHash)
      → Gives (λ s. s.acc) m (absorb sha384 acc t)
      → ((s : DeepHash) → Gives (λ s. s.acc) (f s) (absorb_all sha384 s.acc ts))
      → Gives (λ s. s.acc) (Status.◌>>=◌ m f) (absorb_all sha384 acc (cons t ts))
  Gives-then acc m t ts f g k =
      subst (Gives (λ s. s.acc) (Status.◌>>=◌ m f)) (sym (absorb_all-cons acc t ts))
        (Gives->>= (λ s. s.acc) m f (absorb sha384 acc t) (λ a. absorb_all sha384 a ts) g k)

  Gives-end : (s : DeepHash) → Gives (λ s. s.acc) (ok s) (absorb_all sha384 s.acc nil)
  unfolding Gives absorb_all
  Gives-end s = refl

  pub Gives-last :
      (acc : Bytes) (m : Step DeepHash) (t : Tree)
      → Gives (λ s. s.acc) m (absorb sha384 acc t)
      → Gives (λ s. s.acc) m (absorb_all sha384 acc (cons t nil))
  Gives-last acc m t g =
      subst (λ (m : Step DeepHash). Gives (λ s. s.acc) m (absorb_all sha384 acc (cons t nil)))
        (>>=-ok_right m) (Gives-then acc m t nil ok g Gives-end)

  -- The bootstrap.
  pub Gives-start :
      (out : Bytes) (n : ℕ) (ts : Trees) (f : DeepHash → Step DeepHash)
      → n ≡ count ts
      → ((s : DeepHash) → Gives (λ s. s.acc) (f s) (absorb_all sha384 s.acc ts))
      → Gives
          (λ s. s.acc)
          (Status.◌>>=◌
            (within (λ a. record zeroed { acc = a }) (hash_tag sha384 out (codes "list") n))
            f)
          (deep_hash sha384 (node ts))
  unfolding hash_tag deep_hash
  Gives-start out n ts f e k =
      subst
        (λ (c : ℕ).
          Gives (λ s. s.acc)
            (Status.◌>>=◌
              (within (λ a. record zeroed { acc = a })
                (crypto_sha384 sha384 (tag_text (codes "list") n) out))
              f)
            (sha384 (tag_text (codes "list") c) >>= λ a. absorb_all sha384 a ts))
        e
        (Gives-within (λ h. h) (λ s. s.acc) (λ a. record zeroed { acc = a })
          (crypto_sha384 sha384 (tag_text (codes "list") n) out) f
          (sha384 (tag_text (codes "list") n)) (λ a. absorb_all sha384 a ts)
          (Gives-crypto_sha384 (tag_text (codes "list") n) out)
          (λ a. k (record zeroed { acc = a })))

  pub Gives-hash_chunk :
      (memory : Bytes) (e : Element) (dh : DeepHash)
      → InMemory memory e
      → Gives
          (λ s. s.acc)
          (hash_chunk sha384 memory e dh)
          (absorb sha384 dh.acc (blob (view_element memory e)))
  unfolding hash_chunk InMemory
  Gives-hash_chunk memory e dh h =
      Gives-absorb (hash_blob sha384 dh.hash (drop e.ptr memory) e.len)
        (blob (view_element memory e)) dh
        (Gives-hash_blob dh.hash (drop e.ptr memory) e.len
          (omega (arith, length-drop e.ptr memory)))

  Gives-get_tag_digest :
      (memory : Bytes) (tag : Tag) (digest : Bytes)
      → InMemory memory tag.key × InMemory memory tag.value
      → Gives
          (λ h. h)
          (get_tag_digest sha384 memory tag digest)
          (deep_hash sha384 (tag_tree (view_tag memory tag)))
  unfolding get_tag_digest
  Gives-get_tag_digest memory tag digest h = Gives-deliver (replicate 48 0) _ _ (
      Gives-start zeroed.acc 2
        (cons (blob (view_element memory tag.key))
          (cons (blob (view_element memory tag.value)) nil))
        _ refl
        (λ s.
          Gives-then s.acc _ _ _ _ (Gives-hash_chunk memory tag.key s h.0)
            (λ s. Gives-last s.acc _ _ (Gives-hash_chunk memory tag.value s h.1))))

  Gives-digest_tags :
      (memory : Bytes) (tags : List Tag) (dh : DeepHash)
      → All (TagInMemory memory) tags
      → Gives
          (λ s. s.acc)
          (digest_tags sha384 memory tags dh)
          (absorb_all sha384 dh.acc (tag_trees (map (view_tag memory) tags)))
  unfolding digest_tags TagInMemory
  Gives-digest_tags memory [] dh h = Gives-end dh
  Gives-digest_tags memory (tag ∷ tags) dh h =
      subst
        (λ (m : Step DeepHash).
          Gives (λ s. s.acc) m
            (absorb_all sha384 dh.acc (tag_trees (map (view_tag memory) (tag ∷ tags)))))
        (sym (
          Step->>=_assoc
            (within (λ h. record dh { hash = h }) (get_tag_digest sha384 memory tag dh.hash))
            (hash_accumulate sha384) (digest_tags sha384 memory tags)))
        (Gives-then dh.acc _ _ _ _
          (Gives-absorb (get_tag_digest sha384 memory tag dh.hash) (tag_tree (view_tag memory tag))
            dh (Gives-get_tag_digest memory tag dh.hash h.0))
          (λ s. Gives-digest_tags memory tags s h.1))

  Gives-combine :
      (dh : DeepHash) (m : Step DeepHash) (o : Option Bytes)
      → Gives (λ s. s.acc) m o
      → Gives (λ s. s.acc) (combine sha384 dh m) (o >>= λ h. sha384 (dh.acc ++ h))
  unfolding Gives combine
  Gives-combine dh (ok s) (some a) e =
      subst
        (λ b.
          Gives (λ s. s.acc) (hash_accumulate sha384 (record dh { hash = s.acc }))
            (sha384 (dh.acc ++ b)))
        e (Gives-hash_accumulate (record dh { hash = s.acc }))
  Gives-combine dh (ok s) none e = absurd e
  Gives-combine dh (fail c s) (some a) e = absurd e
  Gives-combine dh (fail c s) none e = e

  pub Gives-apply_digest_tags :
      (memory : Bytes) (v : Tx) (dh : DeepHash)
      → All (TagInMemory memory) (take v.tags_count v.tags)
      → v.tags_count ≤ length v.tags
      → Gives
          (λ s. s.acc)
          (apply_digest_tags sha384 memory v dh)
          (absorb sha384 dh.acc (node (tag_trees (view_tags memory v.tags_count v.tags))))
  unfolding apply_digest_tags
  Gives-apply_digest_tags memory v dh h le = Gives-combine dh _ _ (
      Gives-start zeroed.acc v.tags_count (tag_trees (view_tags memory v.tags_count v.tags)) _
        (sym (count-view_tags memory v.tags_count v.tags le))
        (λ s. Gives-digest_tags memory (take v.tags_count v.tags) s h))
