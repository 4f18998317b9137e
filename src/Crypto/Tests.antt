-- ===== src/Crypto/Tests.antt =====
-- A concrete library and concrete names for src/crypto.rs, and the theorems applied to them.
use cyberfly_rust_node.Common.{ℕ, ◌≡◌, refl, true, some, List, [], ◌∷◌, ◌++◌, leb, ◌&&◌, replicate}
use cyberfly_rust_node.Common.Text.{Str, codes, str_len, str_eq, ends_with}
use cyberfly_rust_node.Common.Result.{ok}
use cyberfly_rust_node.Crypto.{
  CryptoLib, secure_hex_decode, verify_db_name_secure, extract_name_from_db, before_last,
  generate_db_name,
}
use cyberfly_rust_node.Crypto.Names.{IsOwned, verify_db_name_secure-IsOwned, db_name_one_owner}

abbrev plain_lib : CryptoLib
plain_lib = record {
  key_parses = λ k. true;
  key_verifies = λ k m s. true;
  hex_decode = λ s. some s;
  is_alphanumeric = λ c. leb b'a' c && leb c b'z';
}

abbrev pk : Str
pk = replicate 64 b'a'

abbrev db : Str
db = codes "my-db-" ++ pk

db_accepted : verify_db_name_secure plain_lib db pk ≡ ok tt
unfolding verify_db_name_secure secure_hex_decode extract_name_from_db before_last str_len str_eq
    ends_with
db_accepted = refl

verify_db_name_secure-IsOwned_example : (name : Str) × IsOwned plain_lib db pk name
verify_db_name_secure-IsOwned_example = verify_db_name_secure-IsOwned plain_lib db pk db_accepted

db-IsOwned : IsOwned plain_lib db pk (codes "my-db")
unfolding generate_db_name str_len
db-IsOwned = record {
  spelled = refl;
  named = λ e. cc;
  plain = refl;
  sized = refl;
  hexadecimal = refl;
}

db_name_one_owner_example : pk ≡ replicate 64 b'a'
db_name_one_owner_example = db_name_one_owner plain_lib db pk pk db_accepted db_accepted

abbrev key_bytes : List ℕ
key_bytes = replicate 32 0

abbrev sig_bytes : List ℕ
sig_bytes = replicate 64 0

abbrev message : List ℕ
message = 1 ∷ []

abbrev expected : List ℕ
expected = 7 ∷ 9 ∷ []

abbrev received : List ℕ
received = 7 ∷ 8 ∷ []
