-- ===== src/Gossip/Message.antt =====
-- src/gossip_discovery.rs: announcements, and the signed messages that carry them.
use cyberfly_rust_node.Common.{ℕ, Bool, Option, none, some, List, ◌==◌, length, ◌≡◌, true}
use cyberfly_rust_node.Common.Text.{Str}
use cyberfly_rust_node.Common.Result.{Result, ok, err, ◌>>=◌, ◌>>◌, guard}

-- An endpoint's identifier, by its number.
abbrev pub NodeId : Type 0
NodeId = ℕ

abbrev pub Bytes : Type 0
Bytes = List ℕ

pub record NodeCapabilities : Type 0 where
  pub mqtt : Bool
  pub streams : Bool
  pub timeseries : Bool
  pub geo : Bool
  pub blobs : Bool
  pub tflite : Bool
  pub onnx : Bool
  pub cpu_cores : ℕ
  pub ram_mb : ℕ

pub record DiscoveryNode : Type 0 where
  pub name : Str
  pub node_id : NodeId
  pub count : ℕ
  pub region : Str
  pub capabilities : NodeCapabilities

-- `last_seen` is a reading of the monotonic clock in nanoseconds.
pub record PeerInfo : Type 0 where
  pub node_id : NodeId
  pub name : Str
  pub region : Str
  pub capabilities : NodeCapabilities
  pub last_seen : ℕ
  pub message_count : ℕ

pub record SignedDiscoveryMessage : Type 0 where
  pub from : Bytes
  pub data_ : Bytes
  pub signature : Bytes

-- The texts of the errors are left out. The code makes no NodeIdMismatch.
pub data GossipDiscoveryError : Type 0 where
  gossip_net gossip_api channel_send serialization deserialization signature_verification :
      GossipDiscoveryError
  node_id_mismatch : (claimed actual : NodeId) → GossipDiscoveryError

-- The crates: postcard for both kinds of value, ed25519_dalek, and iroh's keys.
pub record Wire : Type 0 where
  pub node_to_bytes : DiscoveryNode → Option Bytes
  pub node_from_bytes : Bytes → Option DiscoveryNode
  pub message_to_bytes : SignedDiscoveryMessage → Option Bytes
  pub message_from_bytes : Bytes → Option SignedDiscoveryMessage
  pub sign : (secret_key payload : Bytes) → Bytes
  pub verifying_key : (secret_key : Bytes) → Bytes
  -- VerifyingKey::from_bytes succeeds
  pub key_parses : Bytes → Bool
  pub key_verifies : (key payload signature : Bytes) → Bool
  -- NodeId::from(iroh::PublicKey::from_bytes(..)?)
  pub public_key_from_bytes : Bytes → Option NodeId

-- What they document: decoding undoes encoding, and a signature verifies under the signer's key.
pub record IsWire (w : Wire) : Type 0 where
  pub node_decodes :
      (n : DiscoveryNode) (b : Bytes) → w.node_to_bytes n ≡ some b → w.node_from_bytes b ≡ some n
  pub message_decodes :
      (m : SignedDiscoveryMessage) (b : Bytes)
      → w.message_to_bytes m ≡ some b
      → w.message_from_bytes b ≡ some m
  pub key_length : (sk : Bytes) → length (w.verifying_key sk) ≡ 32
  pub signature_length : (sk payload : Bytes) → length (w.sign sk payload) ≡ 64
  pub own_key_parses : (sk : Bytes) → w.key_parses (w.verifying_key sk) ≡ true
  pub signed_verifies :
      (sk payload : Bytes) → w.key_verifies (w.verifying_key sk) payload (w.sign sk payload) ≡ true

-- `Option::ok_or`
abbrev pub ok_or : {A : Type 0} → Option A → GossipDiscoveryError → Result GossipDiscoveryError A
ok_or none e = err e
ok_or (some a) e = ok a

module _ (w : Wire) where
  unfoldable pub sign_and_encode : Bytes → DiscoveryNode → Result GossipDiscoveryError Bytes
  sign_and_encode secret_key node = do
    payload ← ok_or (w.node_to_bytes node) serialization
    let signed_message : SignedDiscoveryMessage = record {
      from = w.verifying_key secret_key;
      data_ = payload;
      signature = w.sign secret_key payload;
    }
    ok_or (w.message_to_bytes signed_message) serialization

  unfoldable pub verify_and_decode : Bytes → Result GossipDiscoveryError (Bytes × DiscoveryNode)
  verify_and_decode bytes = do
    signed_message ← ok_or (w.message_from_bytes bytes) deserialization
    guard (length signed_message.from == 32) deserialization
    guard (w.key_parses signed_message.from) signature_verification
    guard (length signed_message.signature == 64) deserialization
    guard (w.key_verifies signed_message.from signed_message.data_ signed_message.signature)
        signature_verification
    node ← ok_or (w.node_from_bytes signed_message.data_) deserialization
    ok (signed_message.from, node)

  unfoldable pub verifying_key_to_node_id : Bytes → Option NodeId
  verifying_key_to_node_id key = w.public_key_from_bytes key
