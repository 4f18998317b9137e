-- ===== src/Resilience/Reputation.antt =====
-- src/network_resilience.rs, `ReputationManager`: a score and a ban for each peer. Readings of the
-- clock are in nanoseconds; one stands for all of an operation.
use cyberfly_rust_node.Common.{
  ℕ, suc, ◌+◌, ◌*◌, ◌%◌, ◌^◌, Bool, true, false, Option, none, some, List, [], ◌∷◌, ◌==◌,
  if◌then◌else◌,
}
use cyberfly_rust_node.Common.Float.{Float}
use cyberfly_rust_node.Common.Int.{sub_ℤ, quot_ℤ}
use cyberfly_rust_node.Common.Text.{Str, codes}
use cyberfly_rust_node.Common.Assoc.{lookup, insert, nat_eq}
use cyberfly_rust_node.Resilience.Breaker.{EndpointId}

pub record ReputationConfig (F : Type 0) : Type 0 where
  pub initial_score : F
  pub max_score : F
  pub min_score : F
  pub sync_success_gain : F
  pub sync_failure_loss : F
  pub message_success_gain : F
  pub message_failure_loss : F
  pub hourly_decay_factor : F
  pub latency_weight : F

pub record PeerReputation (F : Type 0) : Type 0 where
  pub score : F
  pub successful_syncs : ℕ
  pub failed_syncs : ℕ
  pub successful_messages : ℕ
  pub failed_messages : ℕ
  pub avg_latency_ms : F
  pub latency_samples : ℕ
  pub bytes_received : ℕ
  pub bytes_sent : ℕ
  pub first_seen : ℕ
  pub last_seen : ℕ
  pub last_decay : ℕ
  pub is_banned : Bool
  pub ban_reason : Option Str

abbrev pub u64 : ℕ → ℕ
u64 n = n % 2 ^ 64

module _ {F : Type 0} (fl : Float F) where
  abbrev pub default_reputation_config : ReputationConfig F
  default_reputation_config = record {
    initial_score = fl.decimal 0 50;
    max_score = fl.decimal 0 100;
    min_score = fl.decimal 0 0;
    sync_success_gain = fl.decimal 0 2;
    sync_failure_loss = fl.decimal 0 5;
    message_success_gain = fl.decimal 1 5;
    message_failure_loss = fl.decimal 0 1;
    hourly_decay_factor = fl.decimal 2 99;
    latency_weight = fl.decimal 1 1;
  }

  unfoldable pub new_reputation : ℕ → F → PeerReputation F
  new_reputation now initial_score = record {
    score = initial_score;
    successful_syncs = 0;
    failed_syncs = 0;
    successful_messages = 0;
    failed_messages = 0;
    avg_latency_ms = fl.decimal 0 0;
    latency_samples = 0;
    bytes_received = 0;
    bytes_sent = 0;
    first_seen = now;
    last_seen = now;
    last_decay = now;
    is_banned = false;
    ban_reason = none;
  }

  unfoldable pub reliability : PeerReputation F → F
  reliability rep =
      let total_syncs = u64 (rep.successful_syncs + rep.failed_syncs) in
      let total_messages = u64 (rep.successful_messages + rep.failed_messages) in
      let total = u64 (total_syncs + total_messages) in
      if total == 0
      then fl.decimal 1 5
      else fl.divide (fl.of_u64 (u64 (rep.successful_syncs + rep.successful_messages)))
          (fl.of_u64 total)

  -- num_minutes of a difference, as hours.
  unfoldable pub hours_between : ℕ → ℕ → F
  hours_between from to =
      fl.divide (fl.of_i64 (quot_ℤ (sub_ℤ to from) (60 * 10 ^ 9))) (fl.decimal 0 60)

  unfoldable pub uptime_hours : PeerReputation F → F
  uptime_hours rep = hours_between rep.first_seen rep.last_seen

  abbrev pub Reputations : Type 0
  Reputations = List (EndpointId × PeerReputation F)

  -- An exponential moving average.
  unfoldable pub update_latency : F → PeerReputation F → PeerReputation F
  update_latency latency_ms rep =
      let alpha = fl.decimal 1 2 in
      record rep {
        avg_latency_ms =
            if rep.latency_samples == 0
            then latency_ms
            else fl.plus (fl.times alpha latency_ms)
                (fl.times (fl.minus (fl.decimal 0 1) alpha) rep.avg_latency_ms);
        latency_samples = u64 (suc rep.latency_samples);
      }

  module _ (config : ReputationConfig F) where
    abbrev pub gained : F → PeerReputation F → PeerReputation F
    gained gain rep = record rep { score = fl.min (fl.plus rep.score gain) config.max_score }

    abbrev pub lost : F → PeerReputation F → PeerReputation F
    lost loss rep = record rep { score = fl.max (fl.minus rep.score loss) config.min_score }

    -- The check for a ban after a failure.
    unfoldable pub ban_if_low : PeerReputation F → PeerReputation F
    ban_if_low rep =
        if fl.leb rep.score config.min_score
        then record rep { is_banned = true; ban_reason = some (codes "Reputation score too low") }
        else rep

    abbrev with_latency : Option F → PeerReputation F → PeerReputation F
    with_latency none rep = rep
    with_latency (some latency) rep = update_latency latency rep

    unfoldable pub sync_succeeded : ℕ → Option F → PeerReputation F → PeerReputation F
    sync_succeeded now latency rep =
        with_latency latency (record (gained config.sync_success_gain rep) {
          successful_syncs = u64 (suc rep.successful_syncs);
          last_seen = now;
        })

    unfoldable pub sync_failed : ℕ → PeerReputation F → PeerReputation F
    sync_failed now rep = ban_if_low (record (lost config.sync_failure_loss rep) {
      failed_syncs = u64 (suc rep.failed_syncs);
      last_seen = now;
    })

    unfoldable pub message_succeeded : ℕ → ℕ → PeerReputation F → PeerReputation F
    message_succeeded now bytes rep = record (gained config.message_success_gain rep) {
      successful_messages = u64 (suc rep.successful_messages);
      bytes_received = u64 (rep.bytes_received + bytes);
      last_seen = now;
    }

    unfoldable pub message_failed : ℕ → PeerReputation F → PeerReputation F
    message_failed now rep = ban_if_low (record (lost config.message_failure_loss rep) {
      failed_messages = u64 (suc rep.failed_messages);
      last_seen = now;
    })

    abbrev pub bytes_sent_to : ℕ → ℕ → PeerReputation F → PeerReputation F
    bytes_sent_to now bytes rep = record rep {
      bytes_sent = u64 (rep.bytes_sent + bytes);
      last_seen = now;
    }

    unfoldable pub get_or_create :
        ℕ → EndpointId → List (EndpointId × PeerReputation F) → PeerReputation F
    get_or_create now peer m = elim (lookup peer m) [
      | none ↦ new_reputation now config.initial_score
      | some rep ↦ rep
    ]

    -- A change to the entry of a peer, which is made where there is none.
    abbrev pub change_entry :
        ℕ
        → EndpointId
        → (PeerReputation F → PeerReputation F)
        → List (EndpointId × PeerReputation F)
        → List (EndpointId × PeerReputation F)
    change_entry now peer change m = insert peer (change (get_or_create now peer m)) m

    unfoldable pub record_sync_success :
        ℕ
        → EndpointId
        → Option F
        → List (EndpointId × PeerReputation F)
        → List (EndpointId × PeerReputation F)
    record_sync_success now peer latency m = change_entry now peer (sync_succeeded now latency) m

    unfoldable pub record_sync_failure :
        ℕ → EndpointId → List (EndpointId × PeerReputation F) → List (EndpointId × PeerReputation F)
    record_sync_failure now peer m = change_entry now peer (sync_failed now) m

    unfoldable pub record_message_success :
        ℕ
        → EndpointId
        → ℕ
        → List (EndpointId × PeerReputation F)
        → List (EndpointId × PeerReputation F)
    record_message_success now peer bytes m = change_entry now peer (message_succeeded now bytes) m

    unfoldable pub record_message_failure :
        ℕ → EndpointId → List (EndpointId × PeerReputation F) → List (EndpointId × PeerReputation F)
    record_message_failure now peer m = change_entry now peer (message_failed now) m

    unfoldable pub record_bytes_sent :
        ℕ
        → EndpointId
        → ℕ
        → List (EndpointId × PeerReputation F)
        → List (EndpointId × PeerReputation F)
    record_bytes_sent now peer bytes m = change_entry now peer (bytes_sent_to now bytes) m

    -- The score moves towards the initial one.
    unfoldable pub decayed : ℕ → PeerReputation F → PeerReputation F
    decayed now rep =
        let hours = hours_between rep.last_decay now in
        if fl.leb (fl.decimal 0 1) hours
        then record rep {
          score = fl.plus config.initial_score (
              fl.times (fl.minus rep.score config.initial_score)
                (fl.powf config.hourly_decay_factor hours));
          last_decay = now;
        }
        else rep

    unfoldable pub apply_decay :
        ℕ → List (EndpointId × PeerReputation F) → List (EndpointId × PeerReputation F)
    apply_decay now [] = []
    apply_decay now ((peer, rep) ∷ m) = (peer, decayed now rep) ∷ apply_decay now m

    unfoldable pub unban :
        EndpointId → List (EndpointId × PeerReputation F) → List (EndpointId × PeerReputation F)
    unban peer m = elim (lookup peer m) [
      | none ↦ m
      | some rep ↦
          insert peer
            (record rep { is_banned = false; ban_reason = none; score = config.initial_score }) m
    ]
