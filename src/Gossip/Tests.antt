-- ===== src/Gossip/Tests.antt =====
-- A small encoding of announcements for src/gossip_discovery.rs, and the theorems applied to it.
use cyberfly_rust_node.Common.{
  ℕ, suc, ◌+◌, ◌≡◌, ◌≢◌, refl, ap, subst, Bool, true, false, not, ◌&&◌, Option, none, some, List,
  [], ◌∷◌, ◌++◌, ◌==◌, if◌then◌else◌, length, take, drop, replicate, is_some, In, ◌⊎◌, arith,
}
use cyberfly_rust_node.Common.Assoc.{lookup, insert, nat_eq}
use cyberfly_rust_node.Common.Unique.{IsUnique}
use cyberfly_rust_node.Common.Text.{codes}
use cyberfly_rust_node.Common.Result.{ok, err}
use cyberfly_rust_node.Gossip.Message.{
  NodeId, Bytes, DiscoveryNode, SignedDiscoveryMessage, Wire, IsWire, sign_and_encode,
  verify_and_decode,
}
use cyberfly_rust_node.Gossip.Receiver.{
  DiscoveryReceiver, GossipEvent, received, neighbor_up, info_of, handle_message, run, receive,
  admit, is_overdue, cleanup_expired,
}
use cyberfly_rust_node.Gossip.Sender.{build, new_builder, with_expiration_timeout}
use cyberfly_rust_node.Gossip.Authentic.{IsAnnounced, run_authentic, announce_lem}
use cyberfly_rust_node.Gossip.Expired.{cleanup_lem}

take-append {ℓ} : {A : Type ℓ} (xs ys : List A) → take (length xs) (xs ++ ys) ≡ xs
take-append [] ys = refl
take-append (x ∷ xs) ys = ap (λ l. x ∷ l) (take-append xs ys)

drop-append {ℓ} : {A : Type ℓ} (xs ys : List A) → drop (length xs) (xs ++ ys) ≡ ys
drop-append [] ys = refl
drop-append (x ∷ xs) ys = drop-append xs ys

abbrev bit : Bool → ℕ
bit true = 1
bit false = 0

bit_lem : (b : Bool) → (bit b == 1) ≡ b
bit_lem true = refl
bit_lem false = refl

abbrev toy_node : DiscoveryNode → Option Bytes
toy_node n =
    let c = n.capabilities in
    some (
      n.node_id
      ∷ n.count
      ∷ bit c.mqtt
      ∷ bit c.streams
      ∷ bit c.timeseries
      ∷ bit c.geo
      ∷ bit c.blobs
      ∷ bit c.tflite
      ∷ bit c.onnx
      ∷ c.cpu_cores
      ∷ c.ram_mb
      ∷ length n.name
      ∷ (n.name ++ n.region))

abbrev node_toy : Bytes → Option DiscoveryNode
node_toy (i ∷ k ∷ m ∷ s ∷ t ∷ g ∷ b ∷ f ∷ o ∷ cores ∷ ram ∷ l ∷ rest) = some (record {
  name = take l rest;
  node_id = i;
  count = k;
  region = drop l rest;
  capabilities = record {
    mqtt = m == 1;
    streams = s == 1;
    timeseries = t == 1;
    geo = g == 1;
    blobs = b == 1;
    tflite = f == 1;
    onnx = o == 1;
    cpu_cores = cores;
    ram_mb = ram;
  };
})
node_toy _ = none

abbrev toy_message : SignedDiscoveryMessage → Option Bytes
toy_message m = some (length m.from ∷ length m.data_ ∷ (m.from ++ (m.data_ ++ m.signature)))

abbrev message_toy : Bytes → Option SignedDiscoveryMessage
message_toy (f ∷ l ∷ rest) =
    some (record {
      from = take f rest;
      data_ = take l (drop f rest);
      signature = drop l (drop f rest);
    })
message_toy _ = none

abbrev first : Bytes → ℕ
first [] = 0
first (b ∷ bytes) = b

-- Keys and signatures repeat the first number of the secret key; a key's number is its identifier.
abbrev toy : Wire
toy = record {
  node_to_bytes = toy_node;
  node_from_bytes = node_toy;
  message_to_bytes = toy_message;
  message_from_bytes = message_toy;
  sign = λ sk payload. replicate 64 (first sk);
  verifying_key = λ sk. replicate 32 (first sk);
  key_parses = λ key. true;
  key_verifies = λ key payload signature. first key == first signature;
  public_key_from_bytes = λ key. some (first key);
}

toy-IsWire : IsWire toy
toy-IsWire = record {
  node_decodes = λ n b e.
      subst (λ o. elim o [ none ↦ Unit {0} | some c ↦ node_toy c ≡ some n ]) e
        (simp (bit_lem, take-append, drop-append) refl);
  message_decodes = λ m b e.
      subst (λ o. elim o [ none ↦ Unit {0} | some c ↦ message_toy c ≡ some m ]) e
        (simp (take-append, drop-append) refl);
  key_length = λ sk. refl;
  signature_length = λ sk payload. refl;
  own_key_parses = λ sk. refl;
  signed_verifies = λ sk payload. ground arith;
}

abbrev node : DiscoveryNode
node = record {
  name = codes "ann";
  node_id = 7;
  count = 3;
  region = codes "eu";
  capabilities = record {
    mqtt = true;
    streams = true;
    timeseries = false;
    geo = false;
    blobs = true;
    tflite = false;
    onnx = false;
    cpu_cores = 4;
    ram_mb = 2048;
  };
}

-- What the holder of the key 7 sends.
abbrev announcement : Bytes
announcement = elim (sign_and_encode toy (7 ∷ []) node) [ ok bytes ↦ bytes | err e ↦ [] ]

-- A receiver that knows peer 9.
abbrev receiver : DiscoveryReceiver
receiver = record {
  neighbor_map = (9, info_of 10 (record node { node_id = 9 })) ∷ [];
  peer_tx = 9 ∷ [];
  peer_tx_open = true;
  metrics = record {
    connections_total = 0;
    connection_failures = 0;
    announcements_received = 0;
    expirations = 0;
    network_peers = 0;
  };
}

abbrev events : List (ℕ × GossipEvent)
events = (20, neighbor_up 7) ∷ (21, received (1 ∷ 2 ∷ [])) ∷ (22, received announcement) ∷ []

run_authentic_example :
    (lookup 7 receiver.neighbor_map ≡ some (info_of 22 node))
    ⊎ ((now : ℕ) × (content : Bytes) × In (now, received content) events
        × IsAnnounced toy now content 7 (info_of 22 node))
unfolding run receive handle_message admit verify_and_decode sign_and_encode lookup insert
run_authentic_example = run_authentic toy events receiver 7 (info_of 22 node) refl

announce_lem_example :
    let (r, d') = handle_message toy 22 announcement receiver in
    (r ≡ ok tt)
    × ((p : NodeId)
        → lookup p d'.neighbor_map ≡ (
            if (p == 7) && (node.node_id == 7)
            then some (info_of 22 node)
            else lookup p receiver.neighbor_map))
    × (d'.peer_tx ≡ (
        if (node.node_id == 7) && not (is_some (lookup 7 receiver.neighbor_map))
        then receiver.peer_tx ++ 7 ∷ []
        else receiver.peer_tx))
    × (d'.metrics ≡ (
        if node.node_id == 7
        then if is_some (lookup 7 receiver.neighbor_map)
          then receiver.metrics
          else record receiver.metrics {
            announcements_received = suc receiver.metrics.announcements_received;
          }
        else record receiver.metrics {
          connection_failures = suc receiver.metrics.connection_failures;
        }))
    × (d'.peer_tx_open ≡ true)
    × (node.node_id ≢ 7
        → d' ≡ record receiver {
          metrics = record receiver.metrics {
            connection_failures = suc receiver.metrics.connection_failures;
          };
        })
unfolding sign_and_encode
announce_lem_example =
    announce_lem toy toy-IsWire (7 ∷ []) node announcement 7 22 receiver refl refl refl

cleanup_lem_example :
    let (n, d') = cleanup_expired 50 30 receiver in
    ((q : NodeId)
      → lookup q d'.neighbor_map ≡ (elim (lookup q receiver.neighbor_map) [
        | none ↦ none
        | some info ↦ if is_overdue 50 30 info then none else some info
      ]))
    × (length receiver.neighbor_map ≡ n + length d'.neighbor_map)
    × (d'.metrics.expirations ≡ receiver.metrics.expirations + n)
    × IsUnique d'.neighbor_map
unfolding IsUnique lookup
cleanup_lem_example = cleanup_lem 50 30 receiver (refl, tt)

-- A third of 45 s.
interval_ok : (build (with_expiration_timeout 45000000000 new_builder)).cleanup ≡ 15000000000
unfolding build
interval_ok = refl
