-- ===== src/Tests/Wire.antt =====
-- A format for `asn1` sequences and codes for the field with three elements, on which the encodings of the
-- structs of src/core/schemes/src/dl_schemes are run.
use quorumcrypt.Asn1.{Element, integer, octets, other, Asn1, Wire}
use quorumcrypt.Base.{
  ℕ, zero, suc, ◌≡◌, refl, ap, sym, ◌∙◌, String, Option, none, some, List, [], ◌∷◌, ◌++◌, map,
  false,
}
use quorumcrypt.Keys.{Bytes}
use quorumcrypt.Schemes.{Group, bls12381, bn254, ed25519, rsa512, rsa1024, rsa2048, rsa4096, is_dl}
use quorumcrypt.Tests.Field.{Three, t0, t1, t2, value, digit}
use mathlib.Core.List.{append-nil, append_assoc}
use mathlib.Core.Option
use Prim.Native.Char.{Char, char, code, IsScalar}
use Prim.Native.Nat.{Ordering, compare}
use quorumcrypt.Dl.Frost.{ascii}
use text.Mathlib.TextEquality.{Char-path}

-- A number after zero, or the successors of the octets between one and zero.
abbrev write_element : Element → Bytes
write_element (integer n) = 0 ∷ n ∷ []
write_element (octets b) = 1 ∷ (map suc b ++ (0 ∷ []))
write_element other = 2 ∷ []

abbrev write_all : List Element → Bytes
write_all [] = []
write_all (e ∷ es) = write_element e ++ write_all es

-- The octets so far, when inside a string.
abbrev read_all : Option Bytes → Bytes → Option (List Element)
read_all none [] = some []
read_all none (zero ∷ []) = none
read_all none (zero ∷ n ∷ bytes) = Option.map (λ es. integer n ∷ es) (read_all none bytes)
read_all none (suc zero ∷ bytes) = read_all (some []) bytes
read_all none (suc (suc n) ∷ bytes) = Option.map (λ es. other ∷ es) (read_all none bytes)
read_all (some acc) [] = none
read_all (some acc) (zero ∷ bytes) = Option.map (λ es. octets acc ∷ es) (read_all none bytes)
read_all (some acc) (suc b ∷ bytes) = read_all (some (acc ++ (b ∷ []))) bytes

read_octets_all :
    (acc b : Bytes) (bytes : Bytes)
    → read_all (some acc) ((map suc b ++ (0 ∷ [])) ++ bytes)
      ≡ Option.map (λ es. octets (acc ++ b) ∷ es) (read_all none bytes)
read_octets_all acc [] bytes =
    ap (λ a. Option.map (λ es. octets a ∷ es) (read_all none bytes)) (sym (append-nil acc))
read_octets_all acc (x ∷ b) bytes =
    read_octets_all (acc ++ (x ∷ [])) b bytes
    ∙ ap (λ a. Option.map (λ es. octets a ∷ es) (read_all none bytes)) (append_assoc acc (x ∷ []) b)

pub read_all-write_all : (es : List Element) → read_all none (write_all es) ≡ some es
read_all-write_all [] = refl
read_all-write_all (integer n ∷ es) = ap (Option.map (λ fs. integer n ∷ fs)) (read_all-write_all es)
read_all-write_all (octets b ∷ es) =
    read_octets_all [] b (write_all es)
    ∙ ap (Option.map (λ fs. octets b ∷ fs)) (read_all-write_all es)
read_all-write_all (other ∷ es) = ap (Option.map (λ fs. other ∷ fs)) (read_all-write_all es)

abbrev pub format : Asn1
format = record {
  write = λ es. some (write_all es);
  parse = read_all none;
  parse-write =
      λ es bytes h. ap (read_all none) (sym (Option.some-injective _ _ h)) ∙ read_all-write_all es;
}

abbrev first : Bytes → Three
first [] = t0
first (n ∷ bytes) = digit n

abbrev decode : Group → Bytes → Option Three
decode bls12381 bytes = some (first bytes)
decode bn254 bytes = some (first bytes)
decode ed25519 bytes = some (first bytes)
decode _ bytes = none

pub decode-value : (a : Three) → decode ed25519 (value a ∷ []) ≡ some a
decode-value t0 = refl
decode-value t1 = refl
decode-value t2 = refl

pub decode-none : (r : Group) (bytes : Bytes) → is_dl r ≡ false → decode r bytes ≡ none
unfolding is_dl
decode-none bls12381 bytes h = cc
decode-none bn254 bytes h = cc
decode-none ed25519 bytes h = cc
decode-none rsa512 bytes h = refl
decode-none rsa1024 bytes h = refl
decode-none rsa2048 bytes h = refl
decode-none rsa4096 bytes h = refl

abbrev Both : Ordering → Ordering → Type 0
Both Ordering.lt Ordering.lt = Unit {0}
Both Ordering.lt Ordering.eq = ⊥
Both Ordering.lt Ordering.gt = ⊥
Both Ordering.eq _ = ⊥
Both Ordering.gt _ = ⊥

abbrev ScalarOf : Ordering → Ordering → Ordering → Type 0
ScalarOf Ordering.lt _ _ = Unit {0}
ScalarOf Ordering.eq o p = Both o p
ScalarOf Ordering.gt o p = Both o p

abbrev pick_both : (o p : Ordering) → Option (Both o p)
pick_both Ordering.lt Ordering.lt = some tt
pick_both Ordering.lt Ordering.eq = none
pick_both Ordering.lt Ordering.gt = none
pick_both Ordering.eq _ = none
pick_both Ordering.gt _ = none

abbrev pick : (o p q : Ordering) → Option (ScalarOf o p q)
pick Ordering.lt p q = some tt
pick Ordering.eq p q = pick_both p q
pick Ordering.gt p q = pick_both p q

pick_both_lem : (o p : Ordering) (x : Both o p) → (y : Both o p) × (pick_both o p ≡ some y)
pick_both_lem Ordering.lt Ordering.lt x = (tt, refl)
pick_both_lem Ordering.lt Ordering.eq x = absurd x
pick_both_lem Ordering.lt Ordering.gt x = absurd x
pick_both_lem Ordering.eq _ x = absurd x
pick_both_lem Ordering.gt _ x = absurd x

pick_lem : (o p q : Ordering) (x : ScalarOf o p q) → (y : ScalarOf o p q) × (pick o p q ≡ some y)
pick_lem Ordering.lt p q x = (tt, refl)
pick_lem Ordering.eq p q x = pick_both_lem p q x
pick_lem Ordering.gt p q x = pick_both_lem p q x

abbrev read_char : ℕ → Option Char
read_char n =
    Option.map (λ (x : IsScalar n). char n x)
      (pick (compare n 55296) (compare 57343 n) (compare n 1114112))

read_char-code : (c : Char) → read_char (code c) ≡ some c
read_char-code (char n x) =
    let (y, e) = pick_lem (compare n 55296) (compare 57343 n) (compare n 1114112) x in
    ap (Option.map (λ (x : IsScalar n). char n x)) e
    ∙ ap some (Char-path (char n y) (char n x) refl)

abbrev read_text : Bytes → Option String
read_text [] = some String.[]
read_text (n ∷ bytes) = elim (read_char n) [
  | none ↦ none
  | some c ↦ Option.map (λ t. String.◌∷◌ c t) (read_text bytes)
]

pub read_text-ascii : (t : String) → read_text (ascii t) ≡ some t
read_text-ascii String.[] = refl
read_text-ascii (String.◌∷◌ c t) =
    rw (read_char-code c, read_text) (ap (Option.map (λ u. String.◌∷◌ c u)) (read_text-ascii t))

abbrev pub wire : Wire Three Three Three
wire = record {
  group = ed25519;
  element_bytes = λ a. value a ∷ [];
  element = decode;
  element2_bytes = λ a. value a ∷ [];
  element2 = decode;
  scalar_bytes = λ a. value a ∷ [];
  scalar = decode;
  as_bytes = ascii;
  from_utf8 = read_text;
  calc_key_id = λ bytes. "key";
  element-bytes = decode-value;
  element2-bytes = decode-value;
  scalar-bytes = decode-value;
  from_utf8-as_bytes = read_text-ascii;
  element_none = decode-none;
  element2_none = decode-none;
  scalar_none = decode-none;
}
