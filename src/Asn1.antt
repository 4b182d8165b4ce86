-- ===== src/Asn1.antt =====
-- How the structs of src/core/schemes/src/dl_schemes are written as a sequence of `asn1` elements and read
-- back: what their `to_bytes` and `from_bytes` have in common.
pub mod Sg02
pub mod Bz03
pub mod Bls04
pub mod Cks05
pub mod Frost
pub mod Read
pub mod Foreign
pub mod Narrow
use quorumcrypt.Base.{
  ℕ, zero, suc, ◌%◌, ◌^◌, ◌<◌, ◌==◌, ◌≡◌, String, Option, none, some, List, [], ◌∷◌, ◌++◌, map,
  true, false, ltb, if◌then◌else◌,
}
use quorumcrypt.Errors.{Result, ok, err, SchemeError, serialization_failed, deserialization_failed}
use quorumcrypt.Keys.{Bytes}
use quorumcrypt.Schemes.{Group, bls12381, bn254, ed25519, rsa512, rsa1024, rsa2048, rsa4096, is_dl}

-- The elements that are written; any other, a negative integer among them, is refused by every read.
pub data Element : Type 0 where
  integer : ℕ → Element
  octets : Bytes → Element
  other : Element

-- The crate `asn1` on sequences.
pub record Asn1 : Type 0 where
  pub write : List Element → Option Bytes
  pub parse : Bytes → Option (List Element)
  pub parse-write :
      (es : List Element) (bytes : Bytes) → write es ≡ some bytes → parse bytes ≡ some es

-- The bytes of group elements, of elements of the second group, of integers modulo the order and of
-- texts. To decode for a group without curve panics: `unsupported group` and `todo!()`. `group` is
-- that of the elements.
pub record Wire (F G H : Type 0) : Type 0 where
  pub group : Group
  pub element_bytes : G → Bytes
  pub element : Group → Bytes → Option G
  pub element2_bytes : H → Bytes
  pub element2 : Group → Bytes → Option H
  pub scalar_bytes : F → Bytes
  pub scalar : Group → Bytes → Option F
  pub as_bytes : String → Bytes
  pub from_utf8 : Bytes → Option String
  pub calc_key_id : Bytes → String
  pub element-bytes : (a : G) → element group (element_bytes a) ≡ some a
  pub element2-bytes : (a : H) → element2 group (element2_bytes a) ≡ some a
  pub scalar-bytes : (a : F) → scalar group (scalar_bytes a) ≡ some a
  pub from_utf8-as_bytes : (t : String) → from_utf8 (as_bytes t) ≡ some t
  pub element_none : (r : Group) (bytes : Bytes) → is_dl r ≡ false → element r bytes ≡ none
  pub element2_none : (r : Group) (bytes : Bytes) → is_dl r ≡ false → element2 r bytes ≡ none
  pub scalar_none : (r : Group) (bytes : Bytes) → is_dl r ≡ false → scalar r bytes ≡ none

-- `group as i32`
unfoldable pub group_code : Group → ℕ
group_code bls12381 = 0
group_code bn254 = 1
group_code ed25519 = 2
group_code rsa512 = 3
group_code rsa1024 = 4
group_code rsa2048 = 5
group_code rsa4096 = 6

-- `Group::from_i32`
unfoldable pub from_i32 : ℕ → Option Group
from_i32 zero = some bls12381
from_i32 (suc zero) = some bn254
from_i32 (suc (suc zero)) = some ed25519
from_i32 (suc (suc (suc zero))) = some rsa512
from_i32 (suc (suc (suc (suc zero)))) = some rsa1024
from_i32 (suc (suc (suc (suc (suc zero))))) = some rsa2048
from_i32 (suc (suc (suc (suc (suc (suc zero)))))) = some rsa4096
from_i32 (suc (suc (suc (suc (suc (suc (suc n))))))) = none

-- A read: a panic, a parse error, or a value and the elements that are left.
pub data Parsed (A : Type 0) : Type 0 where
  panicked refused : Parsed A
  done : A → List Element → Parsed A

abbrev pub Parser : Type 0 → Type 0
Parser A = List Element → Parsed A

abbrev pub continue : {A B : Type 0} → (A → Parser B) → Parsed A → Parsed B
continue f panicked = panicked
continue f refused = refused
continue f (done a es) = f a es

infixl 5 ◌>>=◌
abbrev pub ◌>>=◌ : {A B : Type 0} → Parser A → (A → Parser B) → Parser B
◌>>=◌ m f es = continue f (m es)

abbrev pub return : {A : Type 0} → A → Parser A
return a es = done a es

-- `read_element::<u64>()? as u16`
unfoldable pub read_u16 : Parser ℕ
read_u16 [] = refused
read_u16 (integer n ∷ es) = if ltb n (2 ^ 64) then done (n % 2 ^ 16) es else refused
read_u16 (octets b ∷ es) = refused
read_u16 (other ∷ es) = refused

abbrev pub known_group : Option Group → Parser Group
known_group none es = refused
known_group (some group) es = done group es

-- `Group::from_i32(read_element::<i32>()?)`, with the error for an unknown group.
unfoldable pub read_group : Parser Group
unfolding from_i32
read_group [] = refused
read_group (integer n ∷ es) = if ltb n (2 ^ 31) then known_group (from_i32 n) es else refused
read_group (octets b ∷ es) = refused
read_group (other ∷ es) = refused

-- `read_element::<&[u8]>()?`
unfoldable pub read_octets : Parser Bytes
read_octets [] = refused
read_octets (integer n ∷ es) = refused
read_octets (octets b ∷ es) = done b es
read_octets (other ∷ es) = refused

abbrev pub or_panic : {A : Type 0} → Option A → Parser A
or_panic none es = panicked
or_panic (some a) es = done a es

abbrev pub or_refuse : {A : Type 0} → Option A → Parser A
or_refuse none es = refused
or_refuse (some a) es = done a es

-- Octets that are decoded, with a panic for a group without curve.
unfoldable pub read_decoded : {A : Type 0} → (Bytes → Option A) → Parser A
unfolding read_octets
read_decoded decode = do bytes ← read_octets; or_panic (decode bytes)

-- The loop `for _i in 0..n`.
unfoldable pub read_many : {A : Type 0} → (Bytes → Option A) → ℕ → Parser (List A)
unfolding read_decoded
read_many decode zero = return []
read_many decode (suc n) = do a ← read_decoded decode; rest ← read_many decode n; return (a ∷ rest)

-- The end of a sequence: elements that are left are an error.
abbrev pub finish : {A : Type 0} → Parsed A → Option (Result SchemeError A)
finish panicked = none
finish refused = some (err deserialization_failed)
finish (done a []) = some (ok a)
finish (done a (e ∷ es)) = some (err deserialization_failed)

abbrev pub read_elements :
    {A : Type 0} → Parser A → Option (List Element) → Option (Result SchemeError A)
read_elements read none = some (err deserialization_failed)
read_elements read (some es) = finish (read es)

abbrev pub or_serialization_failed : Option Bytes → Result SchemeError Bytes
or_serialization_failed none = err serialization_failed
or_serialization_failed (some bytes) = ok bytes

abbrev pub with_octets : (Bytes → List Element) → Result SchemeError Bytes → Option (List Element)
with_octets f (err e) = none
with_octets f (ok bytes) = some (f bytes)

module _ (c : Asn1) where
  -- `to_bytes` of the elements, and of elements with an encoding inside that may fail.
  abbrev pub write_elements : List Element → Result SchemeError Bytes
  write_elements es = or_serialization_failed (c.write es)

  abbrev pub write_nested : Option (List Element) → Result SchemeError Bytes
  write_nested none = err serialization_failed
  write_nested (some es) = write_elements es

  abbrev pub parse_with : {A : Type 0} → Parser A → Bytes → Option (Result SchemeError A)
  parse_with read bytes = read_elements read (c.parse bytes)

-- An encoding of another struct inside: its panic is a panic, its error a parse error.
abbrev pub read_inner : {A : Type 0} → Option (Result SchemeError A) → Parser A
read_inner none es = panicked
read_inner (some (err e)) es = refused
read_inner (some (ok a)) es = done a es
