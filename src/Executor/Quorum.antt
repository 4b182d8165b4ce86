-- ===== src/Executor/Quorum.antt =====
-- The decryption protocol of src/core/protocols/src/threshold_cipher/protocol.rs with the cipher of
-- src/core/schemes/src/dl_schemes/ciphers/sg02.rs and keys of src/core/schemes/src/keys/key_generator.rs.
use quorumcrypt.Algebra.{Scalars, GroupOperations}
use quorumcrypt.Base.{
  ℕ, zero, suc, String, ◌^◌, ◌≤◌, ◌<◌, ◌≡◌, refl, sym, ap, subst, ◌∙◌, Bool, false, some, List, [],
  ◌∷◌, map, length, length-map, take, Has, contains, ℕ_discrete, arith,
}
use quorumcrypt.Dl.Sg02.{
  Sg02PrivateKey, Sg02Ciphertext, Sg02DecryptionShare, encrypt, verify_ciphertext, partial_decrypt,
  verify_share, assemble,
}
use quorumcrypt.Dl.{Primitives}
use quorumcrypt.Errors.{Result, ok, SchemeError}
use quorumcrypt.Executor.Returns.{shares_inbox, decryption-honest}
use quorumcrypt.Executor.Shares.{lift_outcome}
use quorumcrypt.Executor.Progress.{conclude}
use quorumcrypt.Protocols.Collect.{settled}
use mathlib.Core.Option
use quorumcrypt.Executor.{returned, run}
use quorumcrypt.Generator.Quorum.{generate_sg02-decrypt, generate_sg02-threshold}
use quorumcrypt.Generator.{KeyIds, generate_sg02}
use quorumcrypt.Keys.{Bytes, PrivateKeyShare, get_public_key, private_threshold}
use quorumcrypt.Protocols.Cipher
use quorumcrypt.Protocols.Cipher.{ThresholdCipher, DecryptionMessage, new_message}
use quorumcrypt.Protocols.Collect.Prefix.{Every-take}
use quorumcrypt.Protocols.Collect.Sound.{HasDistinctIds, Every, Every-map}
use quorumcrypt.Protocols.{MessageWrapper}
use quorumcrypt.Sharing.Lagrange.{IsFresh, AreIds}

take-map : {A B : Type 0} (f : A → B) (n : ℕ) (xs : List A) → take n (map f xs) ≡ map f (take n xs)
take-map f zero xs = refl
take-map f (suc n) [] = refl
take-map f (suc n) (x ∷ xs) = rw (take-map f n xs) refl

IsFresh-take : (i n : ℕ) (is : List ℕ) → IsFresh i is → IsFresh i (take n is)
unfolding IsFresh
IsFresh-take i zero is h = tt
IsFresh-take i (suc n) [] h = tt
IsFresh-take i (suc n) (j ∷ is) (e, h) = (e, IsFresh-take i n is h)

AreIds-take : (bound n : ℕ) (is : List ℕ) → AreIds bound is → AreIds bound (take n is)
unfolding AreIds
AreIds-take bound zero is h = tt
AreIds-take bound (suc n) [] h = tt
AreIds-take bound (suc n) (i ∷ is) (b, f, h) = (b, IsFresh-take i n is f, AreIds-take bound n is h)

module _ {F G : Type 0} ⦃s : Scalars F⦄ (g : GroupOperations F G s) (p : Primitives F) where
  -- For the server with the key share `key`, which stands for `own`, the operations of the interface are
  -- those of SG02, panics included; `si` has the random number drawn under each id.
  pub record RunsSg02 (cipher : ThresholdCipher (Sg02DecryptionShare F G) (Sg02Ciphertext F G))
      (key : PrivateKeyShare) (own : Sg02PrivateKey F G) (si : ℕ → F) : Type 0 where
    pub get_id_eq : (x : Sg02DecryptionShare F G) → cipher.get_id x ≡ x.id
    pub threshold_eq : private_threshold key ≡ own.pubkey.k
    pub verify_ciphertext_eq :
        (ct : Sg02Ciphertext F G)
        → cipher.verify_ciphertext ct (get_public_key key)
          ≡ some (ok (verify_ciphertext g p ct own.pubkey))
    pub partial_decrypt_eq :
        (ct : Sg02Ciphertext F G)
        → cipher.partial_decrypt ct key ≡ some (ok (partial_decrypt g p ct own (si own.id)))
    pub verify_share_eq :
        (x : Sg02DecryptionShare F G) (ct : Sg02Ciphertext F G)
        → cipher.verify_share x ct (get_public_key key)
          ≡ Option.map ok (verify_share g p x ct own.pubkey)
    pub assemble_eq :
        (xs : List (Sg02DecryptionShare F G)) (ct : Sg02Ciphertext F G)
        → cipher.assemble xs ct ≡ assemble g p xs ct

  -- The share of each key, in order.
  abbrev pub shares_of :
      (ℕ → F) → Sg02Ciphertext F G → List (Sg02PrivateKey F G) → List (Sg02DecryptionShare F G)
  shares_of si ct keys = map (λ key. partial_decrypt g p ct key (si key.id)) keys

  module _ (get_id : Sg02DecryptionShare F G → ℕ) (ct : Sg02Ciphertext F G) (si : ℕ → F)
      (named : (x : Sg02DecryptionShare F G) → get_id x ≡ x.id) where
    contains-shares_of :
        (i : ℕ) (keys : List (Sg02PrivateKey F G))
        → IsFresh i (map (λ key. key.id) keys)
        → contains ℕ_discrete i (map get_id (shares_of si ct keys)) ≡ false
    unfolding IsFresh partial_decrypt
    contains-shares_of i [] h = refl
    contains-shares_of i (key ∷ keys) (n, h) =
        let e = named (partial_decrypt g p ct key (si key.id)) in
        let rest = contains-shares_of i keys h in ground (arith, e, rest, n)

    shares_of-HasDistinctIds :
        (verify : Sg02DecryptionShare F G → Result SchemeError Bool)
        (keys : List (Sg02PrivateKey F G))
        → AreIds s.bound (map (λ key. key.id) keys)
        → HasDistinctIds get_id verify (shares_of si ct keys)
    unfolding AreIds partial_decrypt
    shares_of-HasDistinctIds verify [] h = tt
    shares_of-HasDistinctIds verify (key ∷ keys) (b, f, h) = (
      subst (λ i. contains ℕ_discrete i (map get_id (shares_of si ct keys)) ≡ false)
          (sym (named (partial_decrypt g p ct key (si key.id)))) (contains-shares_of key.id keys f),
      shares_of-HasDistinctIds verify keys h,
    )

    Every-shares_of :
        (P : Sg02DecryptionShare F G → Type 0) (keys : List (Sg02PrivateKey F G))
        → Every (λ key. P (partial_decrypt g p ct key (si key.id))) keys
        → Every P (shares_of si ct keys)
    Every-shares_of P [] h = tt
    Every-shares_of P (key ∷ keys) (q, h) = (q, Every-shares_of P keys h)

module _ {F G H : Type 0} ⦃s : Scalars F⦄ (g : GroupOperations F G s) (ids : KeyIds G H)
    (p : Primitives F) where
  -- Keys are generated for a threshold from one on and below 2 ^ 16, and a message is encrypted under
  -- their public key. A server with one of the keys, whose operations are those of SG02 and which reads
  -- back what is wrapped, runs a decryption of the ciphertext, and the messages that come bring the
  -- shares that are made with other keys of the generation, at least one. If these keys and the
  -- server's are at least as many as the threshold, with different ids below the bound, the run
  -- returns the message.
  pub run-generate_sg02 :
      (cipher : ThresholdCipher (Sg02DecryptionShare F G) (Sg02Ciphertext F G))
      (w : MessageWrapper (DecryptionMessage (Sg02DecryptionShare F G))) (key : PrivateKeyShare)
      (own : Sg02PrivateKey F G) (si : ℕ → F) (k n : ℕ) (rng : ℕ → F) (g_bar : G)
      (keys : List (Sg02PrivateKey F G)) (msg label : Bytes) (r : F) (ikm : Bytes) (t : F)
      (ct : Sg02Ciphertext F G) (id : String) (other : Sg02PrivateKey F G)
      (others : List (Sg02PrivateKey F G))
      → ((y : Sg02DecryptionShare F G)
          → w.unwrap (w.wrap (new_message y) id) ≡ some (ok (new_message y)))
      → RunsSg02 g p cipher key own si
      → generate_sg02 g ids (suc k) n rng g_bar ≡ some keys
      → suc k < 2 ^ 16
      → encrypt g p msg label own.pubkey r ikm t ≡ some ct
      → Every (λ q. Has q keys) (own ∷ other ∷ others)
      → AreIds s.bound (map (λ q. q.id) (own ∷ other ∷ others))
      → suc k ≤ length (own ∷ other ∷ others)
      → (run
          (Cipher.protocol cipher)
          w
          id
          (Cipher.new cipher key ct id)
          (shares_inbox w new_message id (shares_of g p si ct (other ∷ others)))).verdict
        ≡ returned (ok msg)
  unfolding AreIds
  run-generate_sg02 cipher w key own si k n rng g_bar keys msg label r ikm t ct id other others read
        runs e small enc (mine, theirs) a len =
      let all = other ∷ others in
      let x = partial_decrypt g p ct own (si own.id) in
      let threshold : private_threshold key ≡ suc k =
        runs.threshold_eq ∙ generate_sg02-threshold g ids k n rng g_bar keys own e mine small in
      let (valid, (_, good), _) =
        generate_sg02-decrypt g ids p k n rng g_bar keys own msg label r ikm t ct (own ∷ all) si e
          mine enc (mine, theirs) a len in
      let (m, enough, v) =
        decryption-honest cipher w key ct id x (partial_decrypt g p ct other (si other.id))
          (shares_of g p si ct others) read
          (runs.verify_ciphertext_eq ct ∙ ap (λ b. some (ok b)) valid) (runs.partial_decrypt_eq ct)
          (shares_of-HasDistinctIds g p cipher.get_id ct si runs.get_id_eq
            (λ y. settled (cipher.verify_share y ct (get_public_key key))) (own ∷ all) a)
          (Every-shares_of g p cipher.get_id ct si runs.get_id_eq _ all (
            Every-map _ _ all
              (λ q h.
                runs.verify_share_eq (partial_decrypt g p ct q (si q.id)) ct ∙ ap (Option.map ok) h)
              good))
          (omega
            (arith, threshold, len, length-map (λ q. partial_decrypt g p ct q (si q.id)) others)) in
      let quorum = own ∷ take m all in
      let taken : x ∷ take m (shares_of g p si ct all) ≡ shares_of g p si ct quorum =
        ap (λ l. x ∷ l) (take-map (λ q. partial_decrypt g p ct q (si q.id)) m all) in
      let (_, _, whole) =
        generate_sg02-decrypt g ids p k n rng g_bar keys own msg label r ikm t ct quorum si e mine
          enc (mine, Every-take (λ q. Has q keys) m all theirs)
          (subst (AreIds s.bound) (take-map (λ q. q.id) (suc m) (own ∷ all))
            (AreIds-take s.bound (suc m) (map (λ q. q.id) (own ∷ all)) a))
          (subst (λ j. j ≤ length quorum) threshold
            (subst (λ j. private_threshold key ≤ j)
              (ap length taken ∙ length-map (λ q. partial_decrypt g p ct q (si q.id)) quorum)
              enough)) in
      v
      ∙ ap (λ l. conclude (lift_outcome (cipher.assemble l ct))) taken
      ∙ ap (λ o. conclude (lift_outcome o))
          (runs.assemble_eq (shares_of g p si ct quorum) ct ∙ whole)
