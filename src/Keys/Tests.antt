-- ===== src/Keys/Tests.antt =====
-- Tests of Keys.antt.
use p2p_update.Common.{
  ℕ, ◌≡◌, refl, Option, none, some, List, [], ◌∷◌, Text, codes, bytes_eq, ok, err,
}
use p2p_update.Keys.{Pem, failed_decoding, load_private_key, load_public_key}
use p2p_update.Fixtures.{toy_crypto}

-- A file that is not empty holds a public key.
abbrev toy_pem : Pem toy_crypto
toy_pem = record {
  decode = λ b. elim b [ [] ↦ none | _ ∷ block ↦ some (codes "PUBLIC KEY", block) ];
  parse_pkcs1 = λ b. none;
  parse_pkix = λ b. some (some 7);
}

abbrev files : Text → Option (List ℕ)
files name = some (1 ∷ 2 ∷ [])

load_test : load_public_key toy_crypto toy_pem files (codes "key.pub") ≡ ok 7
unfolding load_public_key
load_test = refl

-- The same file holds no private key.
private_test : load_private_key toy_crypto toy_pem files (codes "key.pem") ≡ err failed_decoding
unfolding load_private_key
private_test = refl
