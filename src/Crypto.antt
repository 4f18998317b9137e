-- ===== src/Crypto.antt =====
-- src/crypto.rs: database names bound to public keys, signatures, timestamps, hexadecimal input.
pub mod Names
pub mod Timestamp
pub mod Signature
pub mod Compare
pub mod Tests
use Prim.Native.Nat.{bit_or, bit_xor}
use cyberfly_rust_node.Common.{
  ℕ, ◌+◌, ◌*◌, ◌%◌, Bool, true, false, not, ◌&&◌, ◌||◌, Option, none, some, List, [], ◌∷◌, ◌++◌,
  ltb, leb, ◌==◌, unwrap_or, if◌then◌else◌, length,
}
use cyberfly_rust_node.Common.Int.{ℤ, pos, ltb_ℤ, dist_ℤ, quot_ℤ}
use cyberfly_rust_node.Common.Text.{Str, str_len, str_eq, ends_with}
use cyberfly_rust_node.Common.Result.{Result, ok, err, ◌>>=◌, ◌>>◌, guard}

abbrev pub ed25519_public_key_length : ℕ
ed25519_public_key_length = 32

abbrev pub ed25519_signature_length : ℕ
ed25519_signature_length = 64

abbrev pub max_message_length : ℕ
max_message_length = 1024 * 1024

abbrev pub max_timestamp_tolerance : ℕ
max_timestamp_tolerance = 3600

-- The messages of the errors, a constructor each.
pub data CryptoError : Type 0 where
  invalid_public_key_length invalid_signature_length message_too_large : CryptoError
  bad_public_key signature_failed : CryptoError
  name_mismatch empty_input public_key_hex_length : CryptoError
  invalid_name_format invalid_name_characters : CryptoError
  clock_before_epoch timestamp_too_old timestamp_too_future : CryptoError
  malformed_hex_encoding : CryptoError

-- What the crates `ed25519_dalek` and `hex` and Unicode's tables decide.
pub record CryptoLib : Type 0 where
  -- VerifyingKey::from_bytes succeeds
  pub key_parses : List ℕ → Bool
  -- public_key.verify(message, signature) succeeds
  pub key_verifies : List ℕ → List ℕ → List ℕ → Bool
  -- hex::decode
  pub hex_decode : Str → Option (List ℕ)
  -- char::is_alphanumeric
  pub is_alphanumeric : ℕ → Bool

abbrev pub all_chars : (ℕ → Bool) → Str → Bool
all_chars p [] = true
all_chars p (c ∷ s) = p c && all_chars p s

-- char::is_ascii_hexdigit
abbrev pub is_ascii_hexdigit : ℕ → Bool
is_ascii_hexdigit c =
    (leb b'0' c && leb c b'9') || (leb b'a' c && leb c b'f') || (leb b'A' c && leb c b'F')

unfoldable pub generate_db_name : Str → Str → Str
generate_db_name name public_key_hex = name ++ b'-' ∷ public_key_hex

unfoldable pub verify_db_name : Str → Str → Result CryptoError (Unit {0})
verify_db_name db_name public_key_hex =
    if not (ends_with db_name (b'-' ∷ public_key_hex)) then err name_mismatch else ok tt

-- What stands before the last `c`: `s.rfind(c).map(|pos| s[..pos])`.
unfoldable pub before_last : ℕ → Str → Option Str
before_last c [] = none
before_last c (x ∷ s) = elim (before_last c s) [
  | some p ↦ some (x ∷ p)
  | none ↦ if x == c then some [] else none
]

unfoldable pub extract_name_from_db : Str → Option Str
extract_name_from_db db_name = before_last b'-' db_name

-- The current time is given in seconds; `none` is a clock that stands before 1970.
unfoldable pub validate_timestamp : Option ℕ → ℤ → Option ℕ → Result CryptoError (Unit {0})
validate_timestamp none timestamp tolerance_seconds = err clock_before_epoch
validate_timestamp (some current_time) timestamp tolerance_seconds =
    let tolerance = unwrap_or tolerance_seconds max_timestamp_tolerance in
    let timestamp_seconds = quot_ℤ timestamp 1000 in
    let time_diff = dist_ℤ (pos current_time) timestamp_seconds in
    if ltb tolerance time_diff
    then (if ltb_ℤ timestamp_seconds (pos current_time)
        then err timestamp_too_old
        else err timestamp_too_future)
    else ok tt

-- The loop of `constant_time_eq` over the zipped bytes.
unfoldable pub fold_difference : ℕ → List ℕ → List ℕ → ℕ
fold_difference result [] b = result
fold_difference result (x ∷ a) [] = result
fold_difference result (x ∷ a) (y ∷ b) = fold_difference (bit_or result (bit_xor x y)) a b

-- The two texts are given by their bytes.
unfoldable pub constant_time_eq : List ℕ → List ℕ → Bool
constant_time_eq a b = if not (length a == length b) then false else fold_difference 0 a b == 0

abbrev or_error {ℓ} : {A : Type ℓ} → Option A → CryptoError → Result CryptoError A
or_error none e = err e
or_error (some a) e = ok a

abbrev pub is_empty : Str → Bool
is_empty [] = true
is_empty (c ∷ s) = false

module _ (lib : CryptoLib) where
  open lib use {key_parses, key_verifies, hex_decode, is_alphanumeric}

  unfoldable pub verify_signature : List ℕ → List ℕ → List ℕ → Result CryptoError (Unit {0})
  verify_signature public_key_bytes message signature_bytes =
      if not (length public_key_bytes == ed25519_public_key_length)
      then err invalid_public_key_length
      else if not (length signature_bytes == ed25519_signature_length)
      then err invalid_signature_length
      else if ltb max_message_length (length message)
      then err message_too_large
      else if not (key_parses public_key_bytes)
      then err bad_public_key
      else if not (key_verifies public_key_bytes message signature_bytes)
      then err signature_failed
      else ok tt

  unfoldable pub secure_hex_decode : Str → Result CryptoError (List ℕ)
  secure_hex_decode hex_str =
      if not (str_len hex_str % 2 == 0)
      then err malformed_hex_encoding
      else if not (all_chars is_ascii_hexdigit hex_str)
      then err malformed_hex_encoding
      else or_error (hex_decode hex_str) malformed_hex_encoding

  -- The test on the characters of the name part.
  abbrev pub is_name_char : ℕ → Bool
  is_name_char c = is_alphanumeric c || c == b'_' || c == b'-'

  unfoldable pub verify_db_name_secure : Str → Str → Result CryptoError (Unit {0})
  verify_db_name_secure db_name public_key_hex = do
    guard (not (is_empty db_name || is_empty public_key_hex)) empty_input
    guard (str_len public_key_hex == ed25519_public_key_length * 2) public_key_hex_length
    _ ← secure_hex_decode public_key_hex
    guard (ends_with db_name (b'-' ∷ public_key_hex)) name_mismatch
    name_part ← or_error (extract_name_from_db db_name) invalid_name_format
    guard (not (is_empty name_part || not (all_chars is_name_char name_part)))
        invalid_name_characters
