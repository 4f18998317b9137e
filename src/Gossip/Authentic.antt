-- ===== src/Gossip/Authentic.antt =====
-- src/gossip_discovery.rs: only the holder of a key announces its node.
use cyberfly_rust_node.Common.{
  ℕ, suc, ◌≡◌, ◌≢◌, refl, ◌⊎◌, inl, inr, true, not, ◌&&◌, some, List, [], ◌∷◌, ◌++◌, ◌==◌,
  if◌then◌else◌, In, is_some, arith, Bool-cases, Option-cases,
}
use cyberfly_rust_node.Common.Assoc.{lookup, lookup-insert, nat_eq}
use cyberfly_rust_node.Common.Result.{ok, Result-cases}
use cyberfly_rust_node.Gossip.Message.{
  NodeId, Bytes, DiscoveryNode, PeerInfo, SignedDiscoveryMessage, Wire, IsWire, sign_and_encode,
  verify_and_decode,
}
use cyberfly_rust_node.Gossip.Receiver.{
  DiscoveryReceiver, GossipEvent, received, failed, neighbor_up, neighbor_down, lagged, info_of,
  admit, handle_message, receive, run,
}

module _ (w : Wire) where
  -- The bytes carry an announcement of the node, signed by the key whose identifier it claims.
  pub record IsAnnounced (now : ℕ) (content : Bytes) (q : NodeId) (info : PeerInfo) : Type 0 where
    pub message : SignedDiscoveryMessage
    pub node : DiscoveryNode
    pub carried : w.message_from_bytes content ≡ some message
    pub signed : w.key_verifies message.from message.data_ message.signature ≡ true
    pub owned : w.public_key_from_bytes message.from ≡ some q
    pub announced : w.node_from_bytes message.data_ ≡ some node
    pub claimed : node.node_id ≡ q
    pub kept : info ≡ info_of now node

  verified :
      (content key : Bytes) (node : DiscoveryNode)
      → verify_and_decode w content ≡ ok (key, node)
      → (m : SignedDiscoveryMessage) × (w.message_from_bytes content ≡ some m)
        × (m.from ≡ key)
        × (w.key_verifies m.from m.data_ m.signature ≡ true)
        × (w.node_from_bytes m.data_ ≡ some node)
  unfolding verify_and_decode
  verified content key node h = elim (Option-cases (w.message_from_bytes content)) [
    | inl e ↦ absurd (ground arith)
    | inr (m, e) ↦ (m, e, ground arith, ground arith, ground arith)
  ]

  admitted :
      (now : ℕ) (node : DiscoveryNode) (d : DiscoveryReceiver) (info : PeerInfo)
      → lookup node.node_id (admit now node d).1.neighbor_map ≡ some info
      → (lookup node.node_id d.neighbor_map ≡ some info) ⊎ (info ≡ info_of now node)
  unfolding admit
  admitted now node d info h =
      let kept = lookup-insert node.node_id node.node_id (info_of now node) d.neighbor_map in
      elim (Bool-cases d.peer_tx_open) [
        | inl opened ↦ inr (ground arith)
        | inr closed ↦ elim (Option-cases (lookup node.node_id d.neighbor_map)) [
          | inl absent ↦ inl (ground arith)
          | inr (old, known) ↦ inr (ground arith)
        ]
      ]

  handled_authentic :
      (now : ℕ) (content : Bytes) (d : DiscoveryReceiver) (q : NodeId) (info : PeerInfo)
      → lookup q (handle_message w now content d).1.neighbor_map ≡ some info
      → (lookup q d.neighbor_map ≡ some info) ⊎ IsAnnounced now content q info
  unfolding handle_message admit
  handled_authentic now content d q info h = elim (Result-cases (verify_and_decode w content)) [
    | inr (e, bad) ↦ inl (ground arith)
    | inl ((key, node), good) ↦ elim (Option-cases (w.public_key_from_bytes key)) [
      | inl none_k ↦ inl (ground arith)
      | inr (p, some_k) ↦ elim (Bool-cases (node.node_id == p)) [
        | inr other ↦ inl (ground arith)
        | inl same ↦ elim (Bool-cases (p == q)) [
          | inr apart ↦
              inl (ground (arith, lookup-insert node.node_id q (info_of now node) d.neighbor_map))
          | inl here ↦
              let (m, carried, from_key, signed, announced) = verified content key node good in
              elim (admitted now node d info (ground arith)) [
                | inl old ↦ inl (ground arith)
                | inr new ↦ inr (record {
                  message = m;
                  node = node;
                  carried = carried;
                  signed = signed;
                  owned = ground arith;
                  announced = announced;
                  claimed = ground arith;
                  kept = new;
                })
              ]
        ]
      ]
    ]
  ]

  -- Every entry that a node has of a peer after a run, also one that an error ended, stood there
  -- before or was announced in a message of the run: bytes that carry an announcement of just that
  -- node's identifier, with a signature that verifies under the key of that identifier.
  pub run_authentic :
      (events : List (ℕ × GossipEvent)) (d : DiscoveryReceiver) (q : NodeId) (info : PeerInfo)
      → lookup q (run w events d).1.neighbor_map ≡ some info
      → (lookup q d.neighbor_map ≡ some info)
        ⊎ ((now : ℕ) × (content : Bytes) × In (now, received content) events
            × IsAnnounced now content q info)
  unfolding run receive
  run_authentic [] d q info h = inl h
  run_authentic ((now, event) ∷ events) d q info h = elim (Result-cases (receive w now event d).0) [
    | inl (u, good) ↦ elim (run_authentic events (receive w now event d).1 q info (ground arith)) [
      | inl before ↦ receive_authentic now event d q info events before
      | inr (t, content, i, a) ↦ inr (t, content, inr i, a)
    ]
    | inr (e, bad) ↦ receive_authentic now event d q info events (ground arith)
  ]
    where
      receive_authentic :
          (now : ℕ) (event : GossipEvent) (d : DiscoveryReceiver) (q : NodeId) (info : PeerInfo)
          (events : List (ℕ × GossipEvent))
          → lookup q (receive w now event d).1.neighbor_map ≡ some info
          → (lookup q d.neighbor_map ≡ some info)
            ⊎ ((t : ℕ) × (content : Bytes) × In (t, received content) ((now, event) ∷ events)
                × IsAnnounced t content q info)
      receive_authentic now (received content) d q info events h =
          elim (handled_authentic now content d q info h) [
            | inl old ↦ inl old
            | inr a ↦ inr (now, content, inl refl, a)
          ]
      receive_authentic now failed d q info events h = inl h
      receive_authentic now (neighbor_up p) d q info events h = inl h
      receive_authentic now (neighbor_down p) d q info events h = inl h
      receive_authentic now lagged d q info events h = inl h

  -- What a node signs and encodes is decoded to its key and its announcement.
  pub verify_and_decode-sign_and_encode :
      (law : IsWire w) (sk : Bytes) (node : DiscoveryNode) (bytes : Bytes)
      → sign_and_encode w sk node ≡ ok bytes
      → verify_and_decode w bytes ≡ ok (w.verifying_key sk, node)
  unfolding sign_and_encode verify_and_decode
  verify_and_decode-sign_and_encode law sk node bytes h =
      elim (Option-cases (w.node_to_bytes node)) [
        | inl e ↦ absurd (ground arith)
        | inr (payload, e) ↦
            let m : SignedDiscoveryMessage = record {
              from = w.verifying_key sk;
              data_ = payload;
              signature = w.sign sk payload;
            } in
            ground (
              arith,
              law.node_decodes node payload e,
              law.message_decodes m bytes,
              law.key_length sk,
              law.signature_length sk payload,
              law.own_key_parses sk,
              law.signed_verifies sk payload,
            )
      ]

  -- A node's signed announcement, where the crates are as `IsWire` says and the channel to the sender
  -- is open. If it claims the identifier
  -- of the signing key, the receiver then has just what it says, seen now, at that identifier and what
  -- it had at every other. Exactly when the node was new, the sender is notified and the announcement is
  -- counted; no other counter changes. If it claims another one, the count of failures is one higher
  -- and all else is as before.
  pub announce_lem :
      (law : IsWire w) (sk : Bytes) (node : DiscoveryNode) (bytes : Bytes) (q : NodeId) (now : ℕ)
      (d : DiscoveryReceiver)
      → sign_and_encode w sk node ≡ ok bytes
      → w.public_key_from_bytes (w.verifying_key sk) ≡ some q
      → d.peer_tx_open ≡ true
      → let (r, d') = handle_message w now bytes d in
        (r ≡ ok tt)
        × ((p : NodeId)
            → lookup p d'.neighbor_map ≡ (
                if (p == q) && (node.node_id == q)
                then some (info_of now node)
                else lookup p d.neighbor_map))
        × (d'.peer_tx ≡ (
            if (node.node_id == q) && not (is_some (lookup q d.neighbor_map))
            then d.peer_tx ++ q ∷ []
            else d.peer_tx))
        × (d'.metrics ≡ (
            if node.node_id == q
            then if is_some (lookup q d.neighbor_map) then d.metrics else record d.metrics {
              announcements_received = suc d.metrics.announcements_received;
            }
            else record d.metrics { connection_failures = suc d.metrics.connection_failures }))
        × (d'.peer_tx_open ≡ true)
        × (node.node_id ≢ q
            → d' ≡ record d {
              metrics = record d.metrics {
                connection_failures = suc d.metrics.connection_failures;
              };
            })
  unfolding handle_message admit
  announce_lem law sk node bytes q now d signed owned opened =
      let decoded = verify_and_decode-sign_and_encode law sk node bytes signed in
      (
        ground arith,
        λ p. ground (arith, lookup-insert node.node_id p (info_of now node) d.neighbor_map),
        ground arith,
        ground arith,
        ground arith,
        λ other. ground arith,
      )
