-- ===== src/Tests/Precomputations.antt =====
-- A run of src/core/orchestration/src/key_manager/key_manager.rs.
use quorumcrypt.Base.Dict.{lookup}
use quorumcrypt.Base.{ℕ, ◌≡◌, refl, Option, List, [], ◌∷◌}
use quorumcrypt.KeyManager.Queue.{Request, pop, push, responses, served, responses-served}
use quorumcrypt.KeyManager.{KeyManager}
use quorumcrypt.Tests.Data.{codec}

abbrev empty_manager : KeyManager ℕ
empty_manager = record {
  keystore = record { key_entries = []; filename = Option.none };
  frost_precomputes = [];
}

abbrev requests : List (Request ℕ)
requests =
    push "a" (1 ∷ 2 ∷ []) ∷ push "a" (3 ∷ []) ∷ pop "a" ∷ pop "b" ∷ pop "a" ∷ pop "a" ∷ pop "a" ∷ []

responses-served_example : responses codec empty_manager requests ≡ served (λ key. []) requests
unfolding lookup
responses-served_example = responses-served codec empty_manager (λ key. []) requests (λ key. refl)
