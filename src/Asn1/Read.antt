-- ===== src/Asn1/Read.antt =====
-- Elements that src/core/schemes/src/dl_schemes writes are read back.
use quorumcrypt.Asn1.{
  Element, integer, octets, Asn1, Wire, group_code, from_i32, Parser, done, ◌>>=◌, return, continue,
  known_group, or_panic, read_u16, read_group, read_decoded, read_many, finish, read_elements,
  parse_with, write_elements, or_serialization_failed, write_nested, with_octets,
}
use quorumcrypt.Base.{
  ℕ, ◌^◌, ◌<◌, ◌≡◌, refl, sym, ap, ◌∙◌, Option, none, some, List, [], ◌∷◌, ◌++◌, map, length, true,
  ltb, if_true, arith,
}
use quorumcrypt.Errors.{Result, ok, err, SchemeError}
use quorumcrypt.Keys.{Bytes}
use mathlib.Core.List.{append-nil}
use quorumcrypt.Schemes.{Group, bls12381, bn254, ed25519, rsa512, rsa1024, rsa2048, rsa4096}

pub from_i32-group_code : (group : Group) → from_i32 (group_code group) ≡ some group
unfolding from_i32 group_code
from_i32-group_code bls12381 = refl
from_i32-group_code bn254 = refl
from_i32-group_code ed25519 = refl
from_i32-group_code rsa512 = refl
from_i32-group_code rsa1024 = refl
from_i32-group_code rsa2048 = refl
from_i32-group_code rsa4096 = refl

group_code_bound : (group : Group) → ltb (group_code group) (2 ^ 31) ≡ true
unfolding group_code
group_code_bound bls12381 = refl
group_code_bound bn254 = refl
group_code_bound ed25519 = refl
group_code_bound rsa512 = refl
group_code_bound rsa1024 = refl
group_code_bound rsa2048 = refl
group_code_bound rsa4096 = refl

pub read_group_lem :
    (group : Group) (es : List Element)
    → read_group (integer (group_code group) ∷ es) ≡ done group es
unfolding read_group
read_group_lem group es =
    if_true (ltb (group_code group) (2 ^ 31)) _ _ (group_code_bound group)
    ∙ ap (λ o. known_group o es) (from_i32-group_code group)

pub read_u16_lem : (n : ℕ) (es : List Element) → n < 2 ^ 16 → read_u16 (integer n ∷ es) ≡ done n es
unfolding read_u16
read_u16_lem n es h =
    if_true (ltb n (2 ^ 64)) _ _ (let k : n < 2 ^ 64 = omega (arith, h) in ground arith)
    ∙ ap (λ m. done m es) (omega (arith, h))

pub read_decoded_lem :
    {A : Type 0} (decode : Bytes → Option A) (a : A) (b : Bytes) (es : List Element)
    → decode b ≡ some a
    → read_decoded decode (octets b ∷ es) ≡ done a es
unfolding read_decoded
read_decoded_lem decode a b es h = ap (λ o. or_panic o es) h

-- As many elements as the list is long.
pub read_many_lem :
    {A : Type 0} (decode : Bytes → Option A) (encode : A → Bytes) (l : List A) (es : List Element)
    → ((a : A) → decode (encode a) ≡ some a)
    → read_many decode (length l) (map (λ a. octets (encode a)) l ++ es) ≡ done l es
unfolding read_many
read_many_lem decode encode [] es h = refl
read_many_lem decode encode (a ∷ l) es h =
    ap (λ p. continue (λ x. read_many decode (length l) >>= λ rest. return (x ∷ rest)) p)
      (read_decoded_lem decode a (encode a) (map (λ a. octets (encode a)) l ++ es) (h a))
    ∙ ap (continue (λ rest. return (a ∷ rest))) (read_many_lem decode encode l es h)

-- A struct whose elements are read back, with nothing left, is parsed from what is written.
pub parse_with-write_elements :
    (c : Asn1) {A : Type 0} (read : Parser A) (a : A) (es : List Element) (bytes : Bytes)
    → read es ≡ done a []
    → write_elements c es ≡ ok bytes
    → parse_with c read bytes ≡ some (ok a)
parse_with-write_elements c read a es bytes h w =
    ap (read_elements read) (c.parse-write es bytes (written (c.write es) w)) ∙ ap finish h
  where
    written : (o : Option Bytes) → or_serialization_failed o ≡ ok bytes → o ≡ some bytes
    written none q = cc
    written (some b) q = cc

pub read_many_count :
    {A : Type 0} (decode : Bytes → Option A) (encode : A → Bytes) (n : ℕ) (l : List A)
    (es : List Element)
    → n ≡ length l
    → ((a : A) → decode (encode a) ≡ some a)
    → read_many decode n (map (λ a. octets (encode a)) l ++ es) ≡ done l es
read_many_count decode encode n l es e h =
    ap (λ m. read_many decode m (map (λ a. octets (encode a)) l ++ es)) e
    ∙ read_many_lem decode encode l es h

-- An encoding with another inside was written only if the other was.
pub written_nested :
    (c : Asn1) (f : Bytes → List Element) (inner : Result SchemeError Bytes) (bytes : Bytes)
    → write_nested c (with_octets f inner) ≡ ok bytes
    → (b : Bytes) × (inner ≡ ok b) × (write_elements c (f b) ≡ ok bytes)
written_nested c f (err e) bytes h = cc
written_nested c f (ok b) bytes h = (b, refl, h)

pub read_many_all :
    {A : Type 0} (decode : Bytes → Option A) (encode : A → Bytes) (n : ℕ) (l : List A)
    → n ≡ length l
    → ((a : A) → decode (encode a) ≡ some a)
    → read_many decode n (map (λ a. octets (encode a)) l) ≡ done l []
read_many_all decode encode n l e h =
    ap (read_many decode n) (sym (append-nil (map (λ a. octets (encode a)) l)))
    ∙ read_many_count decode encode n l [] e h

module _ {F G H : Type 0} (w : Wire F G H) (group : Group) (e : group ≡ w.group) where
  pub element_at : (a : G) → w.element group (w.element_bytes a) ≡ some a
  element_at a = ap (λ r. w.element r (w.element_bytes a)) e ∙ w.element-bytes a

  pub scalar_at : (a : F) → w.scalar group (w.scalar_bytes a) ≡ some a
  scalar_at a = ap (λ r. w.scalar r (w.scalar_bytes a)) e ∙ w.scalar-bytes a
