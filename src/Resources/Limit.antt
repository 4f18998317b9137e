-- ===== src/Resources/Limit.antt =====
-- src/resource_manager.rs: the limit on connections, whatever the order of the accesses.
use cyberfly_rust_node.Common.{
  ℕ, suc, ◌+◌, ◌^◌, ◌≡◌, ◌≤◌, ◌<◌, subst, inl, inr, some, List, [], ◌∷◌, length, arith,
  Option-cases,
}
use cyberfly_rust_node.Resources.Connections.{
  ResourceLimits, Connections, Access, register_connection, take_back, drop_guard, access,
  interleaving, idle,
}

-- The counter counts guards and refused calls, of which at most `n` have been made.
pub record IsCounted (limits : ResourceLimits) (n : ℕ) (c : Connections) : Type 0 where
  pub counted : c.metrics.active_connections ≡ c.guards + c.refused
  pub limited : c.guards ≤ limits.max_peer_connections
  pub made : c.guards + c.refused ≤ n

access-IsCounted :
    (limits : ResourceLimits) (n : ℕ) (a : Access) (c c' : Connections)
    → suc n < 2 ^ 64
    → IsCounted limits n c
    → access limits a c ≡ some c'
    → IsCounted limits (suc n) c'
unfolding access
access-IsCounted limits n register_connection c c' h i e = record {
  counted = ground (arith, i.counted, i.made);
  limited = ground (arith, i.counted, i.limited);
  made = ground (arith, i.made);
}
access-IsCounted limits n take_back c c' h i e = record {
  counted = ground (arith, i.counted, i.made);
  limited = ground (arith, i.counted, i.limited);
  made = ground (arith, i.made);
}
access-IsCounted limits n drop_guard c c' h i e = record {
  counted = ground (arith, i.counted, i.made);
  limited = ground (arith, i.counted, i.limited);
  made = ground (arith, i.made);
}

interleaving-IsCounted :
    (limits : ResourceLimits) (n : ℕ) (accesses : List Access) (c c' : Connections)
    → n + length accesses < 2 ^ 64
    → IsCounted limits n c
    → interleaving limits accesses c ≡ some c'
    → IsCounted limits (n + length accesses) c'
unfolding interleaving
interleaving-IsCounted limits n [] c c' h i e =
    let same : c ≡ c' = cc e in
    subst (λ u. IsCounted limits u c') (omega arith) (subst (IsCounted limits n) same i)
interleaving-IsCounted limits n (a ∷ accesses) c c' h i e =
    elim (Option-cases (access limits a c)) [
      | inl never ↦ absurd (ground arith)
      | inr (d, next) ↦
          let after = access-IsCounted limits n a c d (omega arith) i next in
          subst (λ u. IsCounted limits u c') (omega arith)
            (interleaving-IsCounted limits (suc n) accesses d c' (omega arith) after (ground arith))
    ]

-- In whatever order the accesses of fewer than 2^64 calls and guards interleave, from a counter at 0, no
-- more guards are alive than the limit allows, and the counter is their number and that of the refused
-- calls that have not yet taken their addition back.
pub register_connection_lem :
    (limits : ResourceLimits) (accesses : List Access) (c : Connections)
    → length accesses < 2 ^ 64
    → interleaving limits accesses idle ≡ some c
    → (c.guards ≤ limits.max_peer_connections)
      × (c.metrics.active_connections ≡ c.guards + c.refused)
register_connection_lem limits accesses c h e =
    let start : IsCounted limits 0 idle = record {
      counted = omega arith;
      limited = omega arith;
      made = omega arith;
    } in
    let after = interleaving-IsCounted limits 0 accesses idle c (omega arith) start e in
    (after.limited, after.counted)
