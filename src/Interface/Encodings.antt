-- ===== src/Interface/Encodings.antt =====
-- The encodings of the enums of src/core/schemes/src/interface.rs: a sequence of the number of the scheme
-- and the encoding of its own struct. The latter, which `asn1` writes and reads, is an interface.
use quorumcrypt.Base.{◌≡◌, refl, ap, ◌∙◌, Option, none, some}
use quorumcrypt.Dl.Bls04.{Bls04SignatureShare, Bls04Signature}
use quorumcrypt.Dl.Bz03.{Bz03Ciphertext, Bz03DecryptionShare}
use quorumcrypt.Dl.Cks05.{Cks05CoinShare}
use quorumcrypt.Dl.Sg02.{Sg02Ciphertext, Sg02DecryptionShare}
use quorumcrypt.Errors.{Result, ok, err, SchemeError, serialization_failed, deserialization_failed}
use quorumcrypt.Interface.{Ciphertext, DecryptionShare, CoinShare, SignatureShare, Signature}
use quorumcrypt.Keys.{Bytes, Codec, write_tagged}
use quorumcrypt.Schemes.Laws.{from_id-get_id}
use quorumcrypt.Schemes.{ThresholdScheme, get_id, from_id}

-- `to_bytes` and `from_bytes` of a scheme's own struct.
pub record Encoding (A : Type 0) : Type 0 where
  pub to_bytes : A → Option Bytes
  pub from_bytes : Bytes → Option A
  pub from_bytes-to_bytes : (a : A) (b : Bytes) → to_bytes a ≡ some b → from_bytes b ≡ some a

abbrev pub wrap : {A B : Type 0} → (A → B) → Option A → Result SchemeError B
wrap f none = err deserialization_failed
wrap f (some a) = ok (f a)

written :
    (o : Option Bytes) (f : SchemeError) (out : Bytes)
    → ◌≡◌ {A = Result SchemeError Bytes} (elim o [ none ↦ err f | some b ↦ ok b ]) (ok out)
    → o ≡ some out
written none f out h = cc
written (some b) f out h = cc

module _ (c : Codec) where
  -- The body of `from_bytes`, for the struct of each scheme.
  unfoldable pub read_tagged :
      {B : Type 0} → (ThresholdScheme → Bytes → Result SchemeError B) → Bytes → Result SchemeError B
  read_tagged read bytes = elim (c.parse_sequence bytes) [
    | none ↦ err deserialization_failed
    | some (tag, body) ↦ elim (from_id tag) [
      | none ↦ err deserialization_failed
      | some scheme ↦ read scheme body
    ]
  ]

  -- What is written under the number of a scheme is read with that scheme.
  read_tagged-write_tagged :
      {B : Type 0} (read : ThresholdScheme → Bytes → Result SchemeError B)
      (scheme : ThresholdScheme) (o : Option Bytes) (out : Bytes)
      → write_tagged c scheme o ≡ ok out
      → (body : Bytes) × (o ≡ some body) × (read_tagged read out ≡ read scheme body)
  unfolding write_tagged read_tagged
  read_tagged-write_tagged read scheme none out h = cc
  read_tagged-write_tagged read scheme (some body) out h = (
    body,
    refl,
    ap
          (λ o. elim o [
            | none ↦ err deserialization_failed
            | some (tag, body) ↦ elim (from_id tag) [
              | none ↦ err deserialization_failed
              | some scheme ↦ read scheme body
            ]
          ])
          (c.parse-write (get_id scheme) body out
            (written (c.write_sequence (get_id scheme) body) serialization_failed out h))
        ∙ ap (λ o. elim o [ none ↦ err deserialization_failed | some scheme ↦ read scheme body ])
            (from_id-get_id scheme),
  )

  module _ {F G H : Type 0} (a : Encoding (Sg02Ciphertext F G))
      (b : Encoding (Bz03Ciphertext G H)) where
    unfoldable pub ciphertext_to_bytes : Ciphertext F G H → Result SchemeError Bytes
    unfolding write_tagged
    ciphertext_to_bytes (Ciphertext.sg02 x) = write_tagged c ThresholdScheme.sg02 (a.to_bytes x)
    ciphertext_to_bytes (Ciphertext.bz03 x) = write_tagged c ThresholdScheme.bz03 (b.to_bytes x)

    unfoldable pub read_ciphertext : ThresholdScheme → Bytes → Result SchemeError (Ciphertext F G H)
    read_ciphertext ThresholdScheme.sg02 body = wrap Ciphertext.sg02 (a.from_bytes body)
    read_ciphertext ThresholdScheme.bz03 body = wrap Ciphertext.bz03 (b.from_bytes body)
    read_ciphertext _ body = err deserialization_failed

    unfoldable pub ciphertext_from_bytes : Bytes → Result SchemeError (Ciphertext F G H)
    unfolding read_tagged read_ciphertext
    ciphertext_from_bytes bytes = read_tagged read_ciphertext bytes

    -- A ciphertext that was written is read back, scheme and all.
    pub ciphertext_from_bytes-to_bytes :
        (x : Ciphertext F G H) (out : Bytes)
        → ciphertext_to_bytes x ≡ ok out
        → ciphertext_from_bytes out ≡ ok x
    unfolding ciphertext_to_bytes ciphertext_from_bytes read_ciphertext
    ciphertext_from_bytes-to_bytes (Ciphertext.sg02 x) out h =
        let (body, q, r) =
          read_tagged-write_tagged read_ciphertext ThresholdScheme.sg02 (a.to_bytes x) out h in
        r ∙ ap (wrap Ciphertext.sg02) (a.from_bytes-to_bytes x body q)
    ciphertext_from_bytes-to_bytes (Ciphertext.bz03 x) out h =
        let (body, q, r) =
          read_tagged-write_tagged read_ciphertext ThresholdScheme.bz03 (b.to_bytes x) out h in
        r ∙ ap (wrap Ciphertext.bz03) (b.from_bytes-to_bytes x body q)

  module _ {F G H : Type 0} (a : Encoding (Sg02DecryptionShare F G))
      (b : Encoding (Bz03DecryptionShare H)) where
    unfoldable pub decryption_share_to_bytes : DecryptionShare F G H → Result SchemeError Bytes
    unfolding write_tagged
    decryption_share_to_bytes (DecryptionShare.sg02 x) =
        write_tagged c ThresholdScheme.sg02 (a.to_bytes x)
    decryption_share_to_bytes (DecryptionShare.bz03 x) =
        write_tagged c ThresholdScheme.bz03 (b.to_bytes x)

    unfoldable pub read_decryption_share :
        ThresholdScheme → Bytes → Result SchemeError (DecryptionShare F G H)
    read_decryption_share ThresholdScheme.sg02 body = wrap DecryptionShare.sg02 (a.from_bytes body)
    read_decryption_share ThresholdScheme.bz03 body = wrap DecryptionShare.bz03 (b.from_bytes body)
    read_decryption_share _ body = err deserialization_failed

    unfoldable pub decryption_share_from_bytes : Bytes → Result SchemeError (DecryptionShare F G H)
    unfolding read_tagged read_decryption_share
    decryption_share_from_bytes bytes = read_tagged read_decryption_share bytes

    -- So is a decryption share.
    pub decryption_share_from_bytes-to_bytes :
        (x : DecryptionShare F G H) (out : Bytes)
        → decryption_share_to_bytes x ≡ ok out
        → decryption_share_from_bytes out ≡ ok x
    unfolding decryption_share_to_bytes decryption_share_from_bytes read_decryption_share
    decryption_share_from_bytes-to_bytes (DecryptionShare.sg02 x) out h =
        let (body, q, r) =
          read_tagged-write_tagged read_decryption_share ThresholdScheme.sg02 (a.to_bytes x) out
            h in
        r ∙ ap (wrap DecryptionShare.sg02) (a.from_bytes-to_bytes x body q)
    decryption_share_from_bytes-to_bytes (DecryptionShare.bz03 x) out h =
        let (body, q, r) =
          read_tagged-write_tagged read_decryption_share ThresholdScheme.bz03 (b.to_bytes x) out
            h in
        r ∙ ap (wrap DecryptionShare.bz03) (b.from_bytes-to_bytes x body q)

  module _ {F G : Type 0} (a : Encoding (Cks05CoinShare F G)) where
    unfoldable pub coin_share_to_bytes : CoinShare F G → Result SchemeError Bytes
    unfolding write_tagged
    coin_share_to_bytes (CoinShare.cks05 x) = write_tagged c ThresholdScheme.cks05 (a.to_bytes x)

    unfoldable pub read_coin_share : ThresholdScheme → Bytes → Result SchemeError (CoinShare F G)
    read_coin_share ThresholdScheme.cks05 body = wrap CoinShare.cks05 (a.from_bytes body)
    read_coin_share _ body = err deserialization_failed

    unfoldable pub coin_share_from_bytes : Bytes → Result SchemeError (CoinShare F G)
    unfolding read_tagged read_coin_share
    coin_share_from_bytes bytes = read_tagged read_coin_share bytes

    -- So is a coin share.
    pub coin_share_from_bytes-to_bytes :
        (x : CoinShare F G) (out : Bytes)
        → coin_share_to_bytes x ≡ ok out
        → coin_share_from_bytes out ≡ ok x
    unfolding coin_share_to_bytes coin_share_from_bytes read_coin_share
    coin_share_from_bytes-to_bytes (CoinShare.cks05 x) out h =
        let (body, q, r) =
          read_tagged-write_tagged read_coin_share ThresholdScheme.cks05 (a.to_bytes x) out h in
        r ∙ ap (wrap CoinShare.cks05) (a.from_bytes-to_bytes x body q)

  module _ {H X Y : Type 0} (a : Encoding (Bls04SignatureShare H)) (b : Encoding X)
      (d : Encoding Y) where
    unfoldable pub signature_share_to_bytes : SignatureShare H X Y → Result SchemeError Bytes
    unfolding write_tagged
    signature_share_to_bytes (SignatureShare.bls04 x) =
        write_tagged c ThresholdScheme.bls04 (a.to_bytes x)
    signature_share_to_bytes (SignatureShare.frost x) =
        write_tagged c ThresholdScheme.frost (b.to_bytes x)
    signature_share_to_bytes (SignatureShare.sh00 x) =
        write_tagged c ThresholdScheme.sh00 (d.to_bytes x)

    unfoldable pub read_signature_share :
        ThresholdScheme → Bytes → Result SchemeError (SignatureShare H X Y)
    read_signature_share ThresholdScheme.bls04 body = wrap SignatureShare.bls04 (a.from_bytes body)
    read_signature_share ThresholdScheme.frost body = wrap SignatureShare.frost (b.from_bytes body)
    read_signature_share ThresholdScheme.sh00 body = wrap SignatureShare.sh00 (d.from_bytes body)
    read_signature_share _ body = err deserialization_failed

    unfoldable pub signature_share_from_bytes : Bytes → Result SchemeError (SignatureShare H X Y)
    unfolding read_tagged read_signature_share
    signature_share_from_bytes bytes = read_tagged read_signature_share bytes

    -- So is a signature share.
    pub signature_share_from_bytes-to_bytes :
        (x : SignatureShare H X Y) (out : Bytes)
        → signature_share_to_bytes x ≡ ok out
        → signature_share_from_bytes out ≡ ok x
    unfolding signature_share_to_bytes signature_share_from_bytes read_signature_share
    signature_share_from_bytes-to_bytes (SignatureShare.bls04 x) out h =
        let (body, q, r) =
          read_tagged-write_tagged read_signature_share ThresholdScheme.bls04 (a.to_bytes x) out
            h in
        r ∙ ap (wrap SignatureShare.bls04) (a.from_bytes-to_bytes x body q)
    signature_share_from_bytes-to_bytes (SignatureShare.frost x) out h =
        let (body, q, r) =
          read_tagged-write_tagged read_signature_share ThresholdScheme.frost (b.to_bytes x) out
            h in
        r ∙ ap (wrap SignatureShare.frost) (b.from_bytes-to_bytes x body q)
    signature_share_from_bytes-to_bytes (SignatureShare.sh00 x) out h =
        let (body, q, r) =
          read_tagged-write_tagged read_signature_share ThresholdScheme.sh00 (d.to_bytes x) out h in
        r ∙ ap (wrap SignatureShare.sh00) (d.from_bytes-to_bytes x body q)

  module _ {H X Y : Type 0} (a : Encoding (Bls04Signature H)) (b : Encoding X)
      (d : Encoding Y) where
    unfoldable pub signature_to_bytes : Signature H X Y → Result SchemeError Bytes
    unfolding write_tagged
    signature_to_bytes (Signature.bls04 x) = write_tagged c ThresholdScheme.bls04 (a.to_bytes x)
    signature_to_bytes (Signature.frost x) = write_tagged c ThresholdScheme.frost (b.to_bytes x)
    signature_to_bytes (Signature.sh00 x) = write_tagged c ThresholdScheme.sh00 (d.to_bytes x)

    unfoldable pub read_signature : ThresholdScheme → Bytes → Result SchemeError (Signature H X Y)
    read_signature ThresholdScheme.bls04 body = wrap Signature.bls04 (a.from_bytes body)
    read_signature ThresholdScheme.frost body = wrap Signature.frost (b.from_bytes body)
    read_signature ThresholdScheme.sh00 body = wrap Signature.sh00 (d.from_bytes body)
    read_signature _ body = err deserialization_failed

    unfoldable pub signature_from_bytes : Bytes → Result SchemeError (Signature H X Y)
    unfolding read_tagged read_signature
    signature_from_bytes bytes = read_tagged read_signature bytes

    -- So is a signature.
    pub signature_from_bytes-to_bytes :
        (x : Signature H X Y) (out : Bytes)
        → signature_to_bytes x ≡ ok out
        → signature_from_bytes out ≡ ok x
    unfolding signature_to_bytes signature_from_bytes read_signature
    signature_from_bytes-to_bytes (Signature.bls04 x) out h =
        let (body, q, r) =
          read_tagged-write_tagged read_signature ThresholdScheme.bls04 (a.to_bytes x) out h in
        r ∙ ap (wrap Signature.bls04) (a.from_bytes-to_bytes x body q)
    signature_from_bytes-to_bytes (Signature.frost x) out h =
        let (body, q, r) =
          read_tagged-write_tagged read_signature ThresholdScheme.frost (b.to_bytes x) out h in
        r ∙ ap (wrap Signature.frost) (b.from_bytes-to_bytes x body q)
    signature_from_bytes-to_bytes (Signature.sh00 x) out h =
        let (body, q, r) =
          read_tagged-write_tagged read_signature ThresholdScheme.sh00 (d.to_bytes x) out h in
        r ∙ ap (wrap Signature.sh00) (d.from_bytes-to_bytes x body q)
