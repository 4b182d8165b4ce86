-- ===== src/Dl/Cks05.antt =====
-- src/core/schemes/src/dl_schemes/coins/cks05.rs: the coin of Cachin, Kursawe and Shoup. The random number
-- of a share is the last argument. A result of `none` is a panic.
pub mod Honest
pub mod Toss
use quorumcrypt.Algebra.{Scalars, GroupOperations, ◌⊕◌, ◌⊗◌}
use quorumcrypt.Base.{ℕ, ◌%◌, String, Bool, Option, none, some, List, [], ◌∷◌, ◌++◌}
use quorumcrypt.Dl.Bits.{xor_bits, common_ones}
use quorumcrypt.Dl.{Primitives, hash_residue, verification_key_of}
use quorumcrypt.Keys.{Bytes}
use quorumcrypt.Sharing.{DlShare, interpolate}
use mathlib.Core.Option

pub record Cks05PublicKey (G : Type 0) : Type 0 where
  pub n : ℕ
  pub k : ℕ
  pub y : G
  pub verification_key : List G
  pub id : String

pub record Cks05PrivateKey (F G : Type 0) : Type 0 where
  pub id : ℕ
  pub xi : F
  pub pubkey : Cks05PublicKey G

pub record Cks05CoinShare (F G : Type 0) : Type 0 where
  pub id : ℕ
  pub get_data : G
  pub c : F
  pub z : F

abbrev pub cks05_share : {F G : Type 0} → DlShare (Cks05CoinShare F G) G
cks05_share = record { get_id = λ x. x.id; get_data = λ x. x.get_data }

-- `MASK`
abbrev pub mask : Bytes
mask =
    220 ∷ 87 ∷ 38 ∷ 116 ∷ 35 ∷ 29 ∷ 173 ∷ 149 ∷ 233 ∷ 157 ∷ 36 ∷ 128 ∷ 97 ∷ 30 ∷ 89 ∷ 38 ∷ 189 ∷ 84
    ∷ 154 ∷ 24 ∷ 124 ∷ 0 ∷ 173 ∷ 153 ∷ 171 ∷ 56 ∷ 231 ∷ 70 ∷ 210 ∷ 170 ∷ 245 ∷ 86 ∷ 58 ∷ 233 ∷ 88
    ∷ 152 ∷ 242 ∷ 6 ∷ 140 ∷ 6 ∷ 157 ∷ 206 ∷ 215 ∷ 77 ∷ 130 ∷ 210 ∷ 176 ∷ 111 ∷ 174 ∷ 187 ∷ 177 ∷ 170
    ∷ 210 ∷ 154 ∷ 55 ∷ 204 ∷ 220 ∷ 207 ∷ 244 ∷ 1 ∷ 7 ∷ 202 ∷ 174 ∷ 228 ∷ 137 ∷ 159 ∷ 52 ∷ 175 ∷ 199
    ∷ 135 ∷ 141 ∷ 1 ∷ 92 ∷ 237 ∷ 188 ∷ 200 ∷ 130 ∷ 117 ∷ 159 ∷ 151 ∷ 106 ∷ 222 ∷ 165 ∷ 48 ∷ 210 ∷ 94
    ∷ 63 ∷ 74 ∷ 217 ∷ 90 ∷ 86 ∷ 76 ∷ 152 ∷ 228 ∷ 52 ∷ 97 ∷ 54 ∷ 196 ∷ 246 ∷ 203 ∷ 44 ∷ 209 ∷ 48
    ∷ 218 ∷ 153 ∷ 108 ∷ 182 ∷ 116 ∷ 192 ∷ 43 ∷ 61 ∷ 122 ∷ 228 ∷ 173 ∷ 17 ∷ 56 ∷ 198 ∷ 54 ∷ 50 ∷ 16
    ∷ 12 ∷ 204 ∷ 223 ∷ 161 ∷ 65 ∷ 146 ∷ 235 ∷ 233 ∷ 233 ∷ 47 ∷ 74 ∷ 238 ∷ 202 ∷ 101 ∷ 140 ∷ 239
    ∷ 236 ∷ 237 ∷ 175 ∷ 129 ∷ 14 ∷ 49 ∷ 108 ∷ 33 ∷ 125 ∷ 243 ∷ 243 ∷ 27 ∷ 25 ∷ 133 ∷ 86 ∷ 72 ∷ 240
    ∷ 157 ∷ 194 ∷ 65 ∷ 204 ∷ 213 ∷ 209 ∷ 134 ∷ 130 ∷ 131 ∷ 173 ∷ 54 ∷ 145 ∷ 246 ∷ 166 ∷ 67 ∷ 146
    ∷ 174 ∷ 12 ∷ 57 ∷ 241 ∷ 137 ∷ 4 ∷ 228 ∷ 200 ∷ 194 ∷ 245 ∷ 212 ∷ 58 ∷ 158 ∷ 196 ∷ 249 ∷ 2 ∷ 47
    ∷ 61 ∷ 179 ∷ 73 ∷ 202 ∷ 43 ∷ 164 ∷ 30 ∷ 157 ∷ 66 ∷ 19 ∷ 184 ∷ 255 ∷ 112 ∷ 138 ∷ 151 ∷ 127 ∷ 58
    ∷ 182 ∷ 21 ∷ 54 ∷ 222 ∷ 140 ∷ 216 ∷ 220 ∷ 183 ∷ 93 ∷ 77 ∷ 30 ∷ 157 ∷ 118 ∷ 157 ∷ 136 ∷ 160 ∷ 46
    ∷ 229 ∷ 171 ∷ 211 ∷ 174 ∷ 67 ∷ 213 ∷ 34 ∷ 34 ∷ 255 ∷ 237 ∷ 218 ∷ 72 ∷ 43 ∷ 16 ∷ 109 ∷ 74 ∷ 218
    ∷ 55 ∷ 8 ∷ 108 ∷ 243 ∷ 220 ∷ 13 ∷ 34 ∷ 56 ∷ 136 ∷ 69 ∷ 120 ∷ 76 ∷ 201 ∷ 165 ∷ 99 ∷ 187 ∷ 115
    ∷ 144 ∷ 86 ∷ []

-- The loop of `H2` on the bytes that are left, which panics when the mask is shorter.
unfoldable pub coin_loop : ℕ → Bytes → Bytes → Option ℕ
coin_loop bit [] masks = some bit
coin_loop bit (g_byte ∷ bytes) [] = none
coin_loop bit (g_byte ∷ bytes) (mask_byte ∷ masks) =
    coin_loop (xor_bits 8 bit (common_ones 8 g_byte mask_byte % 2)) bytes masks

module _ {F G : Type 0} ⦃s : Scalars F⦄ (g : GroupOperations F G s) where
  -- `H2`
  unfoldable pub hash_bit : G → Option ℕ
  unfolding coin_loop
  hash_bit x = coin_loop 0 (g.to_bytes x) mask

  unfoldable pub assemble : List (Cks05CoinShare F G) → Option ℕ
  unfolding hash_bit Option.bind
  assemble shares = Option.bind (interpolate g cks05_share shares) hash_bit

module _ {F G : Type 0} ⦃s : Scalars F⦄ (g : GroupOperations F G s) (p : Primitives F) where
  -- `H`
  unfoldable pub hash_element : Bytes → G
  hash_element name = g.pow g.new (hash_residue p name)

  -- `H1`
  unfoldable pub h1 : G → G → G → G → G → G → F
  h1 g1 g2 g3 g4 g5 g6 = hash_residue p (
      g.to_bytes g1
      ++ (g.to_bytes g2 ++ (g.to_bytes g3 ++ (g.to_bytes g4 ++ (g.to_bytes g5 ++ g.to_bytes g6)))))

  -- The share of a private key whose verification key is `hi`.
  unfoldable pub make_share : Bytes → Cks05PrivateKey F G → F → G → Cks05CoinShare F G
  make_share name sk t hi =
      let c_bar = hash_element name in
      let ci = g.pow c_bar sk.xi in
      let c = h1 g.new hi (g.pow g.new t) c_bar ci (g.pow c_bar t) in
      record { id = sk.id; get_data = ci; c = c; z = t ⊕ c ⊗ sk.xi }

  unfoldable pub create_share : Bytes → Cks05PrivateKey F G → F → Option (Cks05CoinShare F G)
  unfolding make_share
  create_share name sk t =
      Option.map (make_share name sk t) (verification_key_of sk.pubkey.verification_key sk.id)

  -- The check of a share against the verification key `hi`.
  unfoldable pub check_share : Cks05CoinShare F G → Bytes → G → Bool
  check_share share name hi =
      let c_bar = hash_element name in
      let hx = g.div (g.pow g.new share.z) (g.pow hi share.c) in
      let h_bar = g.div (g.pow c_bar share.z) (g.pow share.get_data share.c) in
      s.equals share.c (h1 g.new hi hx c_bar share.get_data h_bar)

  unfoldable pub verify_share : Cks05CoinShare F G → Bytes → Cks05PublicKey G → Option Bool
  unfolding check_share
  verify_share share name pk =
      Option.map (check_share share name) (verification_key_of pk.verification_key share.id)
