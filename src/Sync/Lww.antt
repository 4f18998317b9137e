-- ===== src/Sync/Lww.antt =====
-- The order by which src/sync.rs lets the last write win, and the map of winners that a set of
-- operations determines.
use cyberfly_rust_node.Common.{
  ◌≡◌, sym, subst, ◌⊎◌, inl, inr, Bool, true, false, not, ◌&&◌, ◌||◌, some, [], arith,
  if◌then◌else◌, Bool-cases, Option-cases,
}
use cyberfly_rust_node.Common.Int.{ℤ, ltb_ℤ, eqb_ℤ, eqb_ℤ_iff}
use cyberfly_rust_node.Common.Text.{
  Str, str_leb, str_eq, str_eq_iff, str_leb_refl, str_leb_total, str_leb_antisym, str_leb_trans,
}
use cyberfly_rust_node.Common.Assoc.{lookup, insert, lookup-insert, str_key}
use cyberfly_rust_node.Sync.Operation.{SignedOperation, crdt_key}
use cyberfly_rust_node.Sync.Store.{Operations, is_stale}

-- `a` is as old as `b` or older: by timestamp, then by identifier.
unfoldable pub op_leb : SignedOperation → SignedOperation → Bool
op_leb a b =
    ltb_ℤ a.timestamp b.timestamp || (eqb_ℤ a.timestamp b.timestamp && str_leb a.op_id b.op_id)

pub op_leb_refl : (a : SignedOperation) → op_leb a a ≡ true
unfolding op_leb
op_leb_refl a = ground (arith, str_leb_refl a.op_id)

pub op_leb_total : (a b : SignedOperation) → op_leb a b ≡ false → op_leb b a ≡ true
unfolding op_leb
op_leb_total a b h = ground (arith, str_leb_total a.op_id b.op_id)

pub op_leb_trans :
    (a b c : SignedOperation) → op_leb a b ≡ true → op_leb b c ≡ true → op_leb a c ≡ true
unfolding op_leb
op_leb_trans a b c h k = ground (arith, str_leb_trans a.op_id b.op_id c.op_id)

pub op_leb_antisym :
    (a b : SignedOperation)
    → op_leb a b ≡ true
    → op_leb b a ≡ true
    → (a.timestamp ≡ b.timestamp) × (a.op_id ≡ b.op_id)
unfolding op_leb
op_leb_antisym a b h k =
    ground (arith, str_leb_antisym a.op_id b.op_id, eqb_ℤ_iff a.timestamp b.timestamp)

-- What `add_operation_to_memory` does to the map when it returns normally.
unfoldable pub lww_insert : SignedOperation → Operations → Operations
lww_insert op m =
    if is_stale op (lookup (crdt_key op) m) then m else insert (crdt_key op) (op.timestamp, op) m

-- The map holds, at each key, a newest operation of those that satisfy `P`.
pub record Winners (P : SignedOperation → Type 0) (m : Operations) : Type 0 where
  pub offered :
      (k : Str) (ts : ℤ) (o : SignedOperation)
      → lookup k m ≡ some (ts, o)
      → P o × (crdt_key o ≡ k) × (o.timestamp ≡ ts)
  pub best :
      (a : SignedOperation)
      → P a
      → (o : SignedOperation) × (lookup (crdt_key a) m ≡ some (o.timestamp, o))
        × (op_leb a o ≡ true)

pub is_stale-op_leb : (op o : SignedOperation) → is_stale op (some (o.timestamp, o)) ≡ op_leb op o
unfolding is_stale op_leb
is_stale-op_leb op o = ground arith

lookup-lww_insert :
    (op : SignedOperation) (m : Operations) (k : Str)
    → lookup k (lww_insert op m) ≡ (
        if str_eq (crdt_key op) k && not (is_stale op (lookup (crdt_key op) m))
        then some (op.timestamp, op)
        else lookup k m)
unfolding lww_insert
lookup-lww_insert op m k = ground (arith, lookup-insert (crdt_key op) k (op.timestamp, op) m)

abbrev pub Best : SignedOperation → Operations → Type 0
Best a m =
    (o : SignedOperation) × (lookup (crdt_key a) m ≡ some (o.timestamp, o)) × (op_leb a o ≡ true)

pub Best-old :
    (op a o : SignedOperation) (m : Operations)
    → lookup (crdt_key a) m ≡ some (o.timestamp, o)
    → op_leb a o ≡ true
    → Best a (lww_insert op m)
Best-old op a o m e le =
    elim (Bool-cases
      (str_eq (crdt_key op) (crdt_key a) && not (is_stale op (lookup (crdt_key op) m)))) [
        | inl replaced ↦
            let same : crdt_key op ≡ crdt_key a = (str_eq_iff _ _).0 (ground arith) in
            let beaten : op_leb op o ≡ false = ground (arith, is_stale-op_leb op o) in
            (
              op,
              ground (arith, lookup-lww_insert op m (crdt_key a)),
              op_leb_trans a o op le (op_leb_total op o beaten),
            )
        | inr kept ↦ (o, ground (arith, lookup-lww_insert op m (crdt_key a)), le)
      ]

Best-new :
    {P : SignedOperation → Type 0} (op : SignedOperation) (m : Operations)
    → Winners P m
    → Best op (lww_insert op m)
unfolding is_stale
Best-new op m w = elim (Bool-cases (is_stale op (lookup (crdt_key op) m))) [
  | inl stale ↦ elim (Option-cases (lookup (crdt_key op) m)) [
    | inl absent ↦ absurd (ground arith)
    | inr ((ts, o), present) ↦
        let (_, _, at) = w.offered (crdt_key op) ts o present in
        let e : lookup (crdt_key op) m ≡ some (o.timestamp, o) = cc in
        (
          o,
          ground (arith, lookup-lww_insert op m (crdt_key op)),
          ground (arith, is_stale-op_leb op o),
        )
  ]
  | inr fresh ↦ (
    op,
    ground (arith, lookup-lww_insert op m (crdt_key op), str_eq_iff (crdt_key op) (crdt_key op)),
    op_leb_refl op,
  )
]

-- One more operation is one more competitor.
pub Winners-lww_insert :
    {P : SignedOperation → Type 0} {m : Operations} (op : SignedOperation)
    → Winners P m
    → Winners (λ a. P a ⊎ (a ≡ op)) (lww_insert op m)
Winners-lww_insert {P} {m} op w = record {
  offered = λ k ts o h.
      ground (arith, w.offered k ts o, lookup-lww_insert op m k, str_eq_iff (crdt_key op) k);
  best = λ a. elim [
    | inl old ↦ let (o, e, le) = w.best a old in Best-old op a o m e le
    | inr new ↦ subst (λ b. Best b (lww_insert op m)) (sym new) (Best-new op m w)
  ];
}

-- What the other map holds at the key of an entry.
record Rival (Q : SignedOperation → Type 0) (n : Operations) (k : Str) (a : SignedOperation)
    : Type 0 where
  rival : SignedOperation
  satisfies : Q rival
  keyed : crdt_key rival ≡ k
  held : lookup k n ≡ some (rival.timestamp, rival)
  newer : op_leb a rival ≡ true

find-Rival :
    {P Q : SignedOperation → Type 0} {m n : Operations}
    → ((a : SignedOperation) → P a → Q a)
    → Winners P m
    → Winners Q n
    → (k : Str) (ts : ℤ) (a : SignedOperation) → lookup k m ≡ some (ts, a)
    → Rival Q n k a
find-Rival to w v k ts a e =
    let (pa, ka, ta) = w.offered k ts a e in
    let (b, held, newer) = v.best a (to a pa) in
    let (qb, kb, tb) = v.offered (crdt_key a) b.timestamp b held in
    record { rival = b; satisfies = qb; keyed = cc; held = rw ka at held; newer = newer }

-- Two maps of winners of the same operations agree, where key, timestamp and identifier tell the
-- operations apart.
pub Winners-unique :
    {P Q : SignedOperation → Type 0} {m n : Operations}
    → ((a : SignedOperation) → P a → Q a)
    → ((a : SignedOperation) → Q a → P a)
    → ((a b : SignedOperation)
        → P a
        → P b
        → crdt_key a ≡ crdt_key b
        → a.timestamp ≡ b.timestamp
        → a.op_id ≡ b.op_id
        → a ≡ b)
    → Winners P m
    → Winners Q n
    → (k : Str) → lookup k m ≡ lookup k n
Winners-unique {m} {n} to from distinct w v k = elim (Option-cases (lookup k m)) [
  | inl none_m ↦ elim (Option-cases (lookup k n)) [
    | inl none_n ↦ cc
    | inr ((ts, o), e) ↦ let r = find-Rival from v w k ts o e in cc (r.held, none_m)
  ]
  | inr ((ts, o), e) ↦
      let (po, ko, to') = w.offered k ts o e in
      let r = find-Rival to w v k ts o e in
      let back = find-Rival from v w k r.rival.timestamp r.rival r.held in
      let same : back.rival ≡ o = cc (back.held, e) in
      let newer : op_leb r.rival o ≡ true = cc (same, back.newer) in
      let (times, ids) = op_leb_antisym o r.rival r.newer newer in
      let equal : o ≡ r.rival =
        distinct o r.rival po (from r.rival r.satisfies) (cc (ko, r.keyed)) times ids in
      cc (equal, e, to', r.held)
]

pub Winners-iff :
    {P Q : SignedOperation → Type 0} {m : Operations}
    → ((a : SignedOperation) → P a → Q a)
    → ((a : SignedOperation) → Q a → P a)
    → Winners P m
    → Winners Q m
Winners-iff to from w = record {
  offered = λ k ts o h. let (p, e, t) = w.offered k ts o h in (to o p, e, t);
  best = λ a q. w.best a (from a q);
}

pub Winners-nil : Winners (λ _. ⊥) []
unfolding lookup
Winners-nil = record { offered = λ k ts o h. cc; best = λ a. elim [ ] }
