-- ===== src/Crypto/Names.antt =====
-- src/crypto.rs, `verify_db_name_secure`, `extract_name_from_db`, `generate_db_name`: the
-- names of databases and the keys that own them.
use cyberfly_rust_node.Common.{
  ℕ, ◌%◌, ◌≡◌, ◌≢◌, refl, true, false, not, none, some, List, [], ◌∷◌, ◌++◌, ◌==◌, inl, inr,
  Option-cases, arith, is_some,
}
use cyberfly_rust_node.Common.Text.{Str, str_len, ends_with, ends_with_sound, ends_with-append}
use cyberfly_rust_node.Common.Result.{ok}
use cyberfly_rust_node.Crypto.{
  CryptoLib, all_chars, is_ascii_hexdigit, is_empty, is_name_char, before_last, generate_db_name,
  extract_name_from_db, secure_hex_decode, verify_db_name_secure,
}

abbrev Lacks : ℕ → Str → Type 0
Lacks c s = all_chars (λ x. not (x == c)) s ≡ true

before_last-Lacks : (c : ℕ) (t : Str) → Lacks c t → before_last c t ≡ none
unfolding before_last
before_last-Lacks c [] h = refl
before_last-Lacks c (x ∷ t) h = ground (arith, before_last-Lacks c t)

pub before_last-append : (c : ℕ) (p t : Str) → Lacks c t → before_last c (p ++ c ∷ t) ≡ some p
unfolding before_last
before_last-append c [] t h = ground (arith, before_last-Lacks c t)
before_last-append c (x ∷ p) t h = ground (arith, before_last-append c p t)

pub hex-Lacks_dash : (s : Str) → all_chars is_ascii_hexdigit s ≡ true → Lacks b'-' s
hex-Lacks_dash [] h = refl
hex-Lacks_dash (c ∷ s) h = ground (arith, hex-Lacks_dash s)

-- Removing the key from a generated name gives back the name that it was generated from, for
-- every key text that has no dash.
pub extract-generate :
    (name public_key_hex : Str)
    → Lacks b'-' public_key_hex
    → extract_name_from_db (generate_db_name name public_key_hex) ≡ some name
unfolding extract_name_from_db generate_db_name
extract-generate name public_key_hex h = before_last-append b'-' name public_key_hex h

append_cancel : (p s t : Str) → p ++ s ≡ p ++ t → s ≡ t
append_cancel [] s t h = h
append_cancel (c ∷ p) s t h = append_cancel p s t (cc)

is_empty-append : (p s : Str) (c : ℕ) → is_empty (p ++ c ∷ s) ≡ false
is_empty-append [] s c = refl
is_empty-append (x ∷ p) s c = refl

is_empty-generate : (name pk : Str) → is_empty (generate_db_name name pk) ≡ false
unfolding generate_db_name
is_empty-generate name pk = is_empty-append name pk b'-'

ends_with-generate : (name pk : Str) → ends_with (generate_db_name name pk) (b'-' ∷ pk) ≡ true
unfolding generate_db_name
ends_with-generate name pk = ends_with-append name (b'-' ∷ pk)

is_empty_of_ne : (s : Str) → s ≢ [] → is_empty s ≡ false
is_empty_of_ne [] h = absurd (h refl)
is_empty_of_ne (c ∷ s) h = refl

is_empty_of_sized : (s : Str) → str_len s ≡ 64 → is_empty s ≡ false
unfolding str_len
is_empty_of_sized [] h = absurd (omega arith)
is_empty_of_sized (c ∷ s) h = refl

module _ (lib : CryptoLib) where
  -- The description of a database name that its owner may use.
  pub record IsOwned (db_name public_key_hex name : Str) : Type 0 where
    pub spelled : db_name ≡ generate_db_name name public_key_hex
    pub named : name ≢ []
    pub plain : all_chars (is_name_char lib) name ≡ true
    pub sized : str_len public_key_hex ≡ 64
    pub hexadecimal : all_chars is_ascii_hexdigit public_key_hex ≡ true

  pub secure_hex_decode_ok :
      (s : Str) {b : List ℕ}
      → secure_hex_decode lib s ≡ ok b
      → (str_len s % 2 ≡ 0) × (all_chars is_ascii_hexdigit s ≡ true) × (lib.hex_decode s ≡ some b)
  unfolding secure_hex_decode
  secure_hex_decode_ok s h = ground arith

  -- What the checks say of an accepted name, with the name part that was extracted.
  record Passed (db_name public_key_hex name : Str) : Type 0 where
    sized : str_len public_key_hex ≡ 64
    hexadecimal : all_chars is_ascii_hexdigit public_key_hex ≡ true
    ending : ends_with db_name (b'-' ∷ public_key_hex) ≡ true
    named : is_empty name ≡ false
    plain : all_chars (is_name_char lib) name ≡ true

  passed :
      (db_name pk name : Str)
      → extract_name_from_db db_name ≡ some name
      → verify_db_name_secure lib db_name pk ≡ ok tt
      → Passed db_name pk name
  unfolding verify_db_name_secure secure_hex_decode
  passed db_name pk name e h = ground arith

  extracted :
      (db_name pk : Str)
      → verify_db_name_secure lib db_name pk ≡ ok tt
      → (name : Str) × (extract_name_from_db db_name ≡ some name)
  unfolding verify_db_name_secure secure_hex_decode
  extracted db_name pk h = elim (Option-cases (extract_name_from_db db_name)) [
    | inl e ↦ absurd (ground arith)
    | inr found ↦ found
  ]

  not-nil : (s : Str) → is_empty s ≡ false → s ≢ []
  not-nil [] h = cc
  not-nil (c ∷ s) h = λ e. cc

  owned :
      (db_name pk name : Str)
      → extract_name_from_db db_name ≡ some name
      → Passed db_name pk name
      → IsOwned db_name pk name
  unfolding generate_db_name extract_name_from_db
  owned db_name pk name e p =
      let (prefix, split) = ends_with_sound db_name (b'-' ∷ pk) p.ending in
      let same : prefix ≡ name =
        ground (arith, before_last-append b'-' prefix pk (hex-Lacks_dash pk p.hexadecimal)) in
      record {
        spelled = rw (← same) split;
        named = not-nil name p.named;
        plain = p.plain;
        sized = p.sized;
        hexadecimal = p.hexadecimal;
      }

  -- A name that is accepted is its owner's: it is a non-empty name of letters, digits, `_` and `-`,
  -- a dash, and the key's 64 hexadecimal digits.
  pub verify_db_name_secure-IsOwned :
      (db_name pk : Str)
      → verify_db_name_secure lib db_name pk ≡ ok tt
      → (name : Str) × IsOwned db_name pk name
  verify_db_name_secure-IsOwned db_name pk h =
      let (name, e) = extracted db_name pk h in
      (name, owned db_name pk name e (passed db_name pk name e h))

  -- A non-empty name of letters, digits, `_` and `-`, with a dash and a key of 64 hexadecimal digits
  -- behind it, is accepted for that key, where `hex::decode` accepts 64 hexadecimal digits.
  pub IsOwned-verify_db_name_secure :
      (decodes : (s : Str)
        → str_len s ≡ 64
        → all_chars is_ascii_hexdigit s ≡ true
        → is_some (lib.hex_decode s) ≡ true)
      (db_name pk name : Str)
      → IsOwned db_name pk name
      → verify_db_name_secure lib db_name pk ≡ ok tt
  unfolding verify_db_name_secure secure_hex_decode
  IsOwned-verify_db_name_secure decodes db_name pk name o = rw o.spelled (
      ground (
        arith,
        is_empty-generate name pk,
        is_empty_of_sized pk o.sized,
        ends_with-generate name pk,
        extract-generate name pk (hex-Lacks_dash pk o.hexadecimal),
        is_empty_of_ne name o.named,
        decodes pk o.sized o.hexadecimal,
      ))

  same_key :
      (db_name pk pk' name name' : Str)
      → IsOwned db_name pk name
      → IsOwned db_name pk' name'
      → pk ≡ pk'
  unfolding generate_db_name
  same_key db_name pk pk' name name' o o' =
      let same : name ≡ name' = cc (
        o.spelled,
        o'.spelled,
        before_last-append b'-' name pk (hex-Lacks_dash pk o.hexadecimal),
        before_last-append b'-' name' pk' (hex-Lacks_dash pk' o'.hexadecimal),
      ) in
      let spelled : name ++ b'-' ∷ pk ≡ name ++ b'-' ∷ pk' = cc (same, o.spelled, o'.spelled) in
      cc (append_cancel name (b'-' ∷ pk) (b'-' ∷ pk') spelled)

  -- A database name is accepted with one key at most.
  pub db_name_one_owner :
      (db_name pk pk' : Str)
      → verify_db_name_secure lib db_name pk ≡ ok tt
      → verify_db_name_secure lib db_name pk' ≡ ok tt
      → pk ≡ pk'
  db_name_one_owner db_name pk pk' h h' =
      let (name, o) = verify_db_name_secure-IsOwned db_name pk h in
      let (name', o') = verify_db_name_secure-IsOwned db_name pk' h' in
      same_key db_name pk pk' name name' o o'
