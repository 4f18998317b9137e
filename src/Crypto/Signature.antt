-- ===== src/Crypto/Signature.antt =====
-- src/crypto.rs, `verify_signature`: what an accepted signature passes.
use cyberfly_rust_node.Common.{ℕ, ◌≤◌, ◌≡◌, ◌↔◌, true, List, arith, length}
use cyberfly_rust_node.Common.Result.{ok}
use cyberfly_rust_node.Crypto.{CryptoLib, verify_signature}

-- A signature is accepted exactly when key and signature have their lengths, the message is at most
-- 1 MiB, the key parses, and the key verifies the message.
pub verify_signature_iff :
    (lib : CryptoLib) (key message signature : List ℕ)
    → (verify_signature lib key message signature ≡ ok tt) ↔ (
        (length key ≡ 32)
        × (length signature ≡ 64)
        × (length message ≤ 1048576)
        × (lib.key_parses key ≡ true)
        × (lib.key_verifies key message signature ≡ true))
unfolding verify_signature
verify_signature_iff lib key message signature = ground arith
