-- ===== src/DeepHash/Tree.antt =====
-- The deep hash of Arweave as its protocol defines it, on a tree of byte strings.
use ledger_arweave.Base.{ℕ, suc, List, [], ◌∷◌, ◌++◌, Option, none, some, Bytes, length}
use ledger_arweave.Status.{codes}
use ledger_arweave.DeepHash.{Hash, tag_text}
use ledger_arweave.Parser.Layout.{Transaction}

mutual
  pub data Tree : Type 0 where
    blob : Bytes → Tree
    node : Trees → Tree

  pub data Trees : Type 0 where
    nil : Trees
    cons : Tree → Trees → Trees

infixl 5 ◌>>=◌
abbrev pub ◌>>=◌ : {A B : Type 0} → Option A → (A → Option B) → Option B
none >>= f = none
some a >>= f = f a

abbrev pub count : Trees → ℕ
count nil = 0
count (cons t ts) = suc (count ts)

-- A leaf is the hash of the hashes of its tag and of its bytes. A node starts from the hash of its
-- tag and takes in the hashes of its children from left to right.
unfoldable mutual
  pub deep_hash : Hash → Tree → Option Bytes
  deep_hash sha384 (blob bytes) = do
    tag_hash ← sha384 (tag_text (codes "blob") (length bytes))
    bytes_hash ← sha384 bytes
    sha384 (tag_hash ++ bytes_hash)
  deep_hash sha384 (node ts) = do
    acc ← sha384 (tag_text (codes "list") (count ts))
    absorb_all sha384 acc ts

  pub absorb_all : Hash → Bytes → Trees → Option Bytes
  absorb_all sha384 acc nil = some acc
  absorb_all sha384 acc (cons t ts) = do
    h ← deep_hash sha384 t
    acc ← sha384 (acc ++ h)
    absorb_all sha384 acc ts

-- The pair of a tag.
abbrev pub tag_tree : Bytes × Bytes → Tree
tag_tree p = node (cons (blob p.0) (cons (blob p.1) nil))

abbrev pub tag_trees : List (Bytes × Bytes) → Trees
tag_trees [] = nil
tag_trees (p ∷ ps) = cons (tag_tree p) (tag_trees ps)

-- What a signature of a transaction in format 2 covers.
abbrev pub transaction_tree : Transaction → Tree
transaction_tree t = node (
    cons (blob t.format) (
      cons (blob t.owner) (
        cons (blob t.target) (
          cons (blob t.quantity) (
            cons (blob t.reward) (
              cons (blob t.last_tx) (
                cons (node (tag_trees t.tags))
                  (cons (blob t.data_size) (cons (blob t.data_root) nil)))))))))

-- One step of a node.
abbrev pub absorb : Hash → Bytes → Tree → Option Bytes
absorb sha384 acc t = do h ← deep_hash sha384 t; sha384 (acc ++ h)
