-- ===== src/Lib.antt =====
-- Verification of quorumcrypt, a service for threshold cryptography: the part of the core layer that
-- generates and keeps keys and runs protocol instances, and the schemes that these run.
--
-- A request reaches the instance manager, which gives it an identifier, fetches a private key share
-- from the key store and starts an executor for a new instance. Messages of other servers go to the
-- instance, or wait in the backlog until it starts. The executor reports one result, the instance is
-- marked as finished and queued, and a later insertion may remove it.
--
-- Base: lists, texts, tests, and Base.Dict, a hash map as an association list. Errors: results and
-- the error types of src/core/schemes/src/interface.rs and src/core/protocols/src/interface.rs.
-- Schemes: src/core/schemes/src/scheme_types_impl.rs. Keys: src/core/schemes/src/keys/keys.rs.
-- KeyStore: src/core/schemes/src/keys/key_store.rs, with the entries of its file in KeyStore.Serial,
-- whose JSON and I/O are left out. Message: src/network/src/types/message.rs. Instance, Cache and
-- Manager: src/core/orchestration/src/instance_manager, with `handle` for a round of `run` and
-- `report` for what `execute_protocol` sends. Tests: runs at concrete inputs.
--
-- Protocols: src/core/protocols/src. Its `RoundProtocol` is the trait that the executor calls;
-- Protocols.Cipher, Coin and Signature are the three protocols of one round, with the fields
-- `valid_shares` and `received_share_ids` of each in one record of Protocols.Collect, and
-- Protocols.Collector is what the three have in common. Executor: `run` of
-- src/core/orchestration/src/instance_manager/protocol_executor.rs as a function of the values that
-- `recv` returns; where these end it waits. Executor.Shares and its child Signatures show that each
-- of the three protocols is a collector, Executor.Refine carries this over to whole runs, and
-- Executor.Quorum puts SG02 and generated keys in place of the cipher's interface; Executor.Panic
-- is about a share that ends such a run in a panic, Executor.Answers about runs of FROST.
-- Protocols.Frost and its child Rounds are the FROST protocol of
-- src/core/protocols/src/frost/protocol.rs, without its constructor.
--
-- Algebra: the interfaces of residues, groups and pairings that stand for the wrappers of MIRACL in
-- src/core/schemes/src/integers and src/core/schemes/src/groups; a big integer is its residue modulo
-- the order, so that `rmod` is the identity. Sharing: src/core/schemes/src/dl_schemes/common.rs,
-- with Lagrange's theorem in Sharing.Interpolation and the recovery of a secret in Sharing.Recover.
-- Dl: the schemes of src/core/schemes/src/dl_schemes, each in a module of its name with what it
-- accepts and recovers below it; Dl.Keys has the lemmas on masked keys and verification keys,
-- Dl.Proofs those on proofs of equal logarithms. Dl.Frost holds the structs, hashes and nonces of
-- src/core/schemes/src/dl_schemes/signatures/frost.rs, Dl.Frost.Signing its shares, their
-- verification and their assembly, and Order the effect of the sorting of commitments. Asn1:
-- `to_bytes` and `from_bytes` of the structs of src/core/schemes/src/dl_schemes, a module per scheme
-- with its round trips in Laws, over readers of Asn1 in which a panic and a parse error are
-- different results. Generator: src/core/schemes/src/keys/key_generator.rs, with the guards in
-- Generator.Dispatch; Generator.Quorum follows generated keys through encryption and decryption.
-- KeyManager: src/core/orchestration/src/key_manager/key_manager.rs, whose precomputations
-- KeyManager.Queue compares with queues. Interface: the enums of src/core/schemes/src/interface.rs
-- over the schemes, with their encodings and the dispatch of ciphers and coins; the dispatch of
-- signatures is not modelled. Tests.Field is a field with three elements on which the schemes are
-- run, Tests.Wire an encoding of it.
--
-- Parameters: the asn1, base64 and hash code and the encodings of the scheme structs (Keys.Codec),
-- the hash behind instance identifiers (Manager.Defs.Digest), and serde's JSON (Protocols.Json).
-- MIRACL's arithmetic, SHA-256 and HKDF, the authenticated encryption of chacha20poly1305, and the
-- RSA keys of the generator are parameters of Algebra, Dl and Generator.Dispatch, with their laws;
-- so is what FROST takes of SHA-512 and of its curve (Dl.Frost.FrostHash and CurveOperations), and
-- for the encodings the asn1 crate on sequences (Asn1.Asn1) and the bytes of numbers, elements and
-- texts (Asn1.Wire). For the protocols the schemes of src/core/schemes are the interfaces
-- ThresholdCipher, ThresholdCoin and ThresholdSignature, and that of FROST is the interface Frost;
-- the random numbers that they draw are fixed in their functions; only that of the ciphers is
-- filled, with SG02 (Executor.Quorum.RunsSg02). Channels are numbers; what is put on them is a list
-- of effects. The order of iteration over a hash map is that of the list, and no theorem about a
-- selection depends on it. A panic is the result `none`. No model needs fuel: the loops are
-- recursions on their inputs, and that of the clean-up on the number of its rounds. The bound on a
-- message channel, which makes the manager wait, is not modelled; nor is the shutdown of the loops.
--
-- Not modelled: the RSA schemes of src/core/schemes/src/rsa_schemes and the dispatch of signatures,
-- which needs them, since their integers are those of GMP and want an interface of their own; the
-- service, the network layer, the events and the command line tools, which are input and output
-- around the core; the derive macros, which write the dispatch over groups; and MIRACL Core in
-- src/core/schemes/mcore, a copy of a library, whose arithmetic is a parameter.
pub mod Base
pub mod Errors
pub mod Schemes
pub mod Keys
pub mod KeyStore
pub mod Message
pub mod Instance
pub mod Cache
pub mod Manager
pub mod Protocols
pub mod Executor
pub mod Algebra
pub mod Sharing
pub mod Dl
pub mod Generator
pub mod KeyManager
pub mod Interface
pub mod Asn1
pub mod Tests
