-- ===== src/Builder/Tree.antt =====
-- XML as a tree, and its text: an element is closed by its own name, after what stands in it.
use mukite.Common.{ℕ, none, some, List, [], ◌∷◌, ◌++◌, Bytes}
use mukite.Buffer.{BufferPtr, contents}

-- An attribute that is always there, one that may be missing, and attributes taken as they are.
pub data Attr : Type 0 where
  named : Bytes → Bytes → Attr
  optional : Bytes → BufferPtr → Attr
  given : BufferPtr → Attr

-- `text` is XML that is taken as it is.
pub data Tree : Type 0 where
  nil : Tree
  text : Bytes → Tree
  leaf : Bytes → List Attr → Tree
  element : Bytes → List Attr → Tree → Tree
  both : Tree → Tree → Tree

abbrev pub quote : ℕ
quote = 39

-- The text of a tree, in front of a rest.
abbrev pub print_attrs : List Attr → Bytes → Bytes
print_attrs [] r = r
print_attrs (named n v ∷ as_) r = b' ' ∷ (n ++ (b'=' ∷ quote ∷ (v ++ (quote ∷ print_attrs as_ r))))
print_attrs (optional n none ∷ as_) r = print_attrs as_ r
print_attrs (optional n (some v) ∷ as_) r =
    b' ' ∷ (n ++ (b'=' ∷ quote ∷ (v ++ (quote ∷ print_attrs as_ r))))
print_attrs (given b ∷ as_) r = contents b ++ print_attrs as_ r

abbrev pub print : Tree → Bytes → Bytes
print nil r = r
print (text t) r = t ++ r
print (leaf n a) r = b'<' ∷ (n ++ print_attrs a (b'/' ∷ b'>' ∷ r))
print (element n a inner) r =
    b'<' ∷ (n ++ print_attrs a (b'>' ∷ print inner (b'<' ∷ b'/' ∷ (n ++ (b'>' ∷ r)))))
print (both s t) r = print s (print t r)
