-- ===== src/Scope/Balance.antt =====
-- When the local assumptions of a list of nodes are balanced (internal/scope/validate.go).
use vibefeld.Prelude.{
  ℕ, zero, suc, ◌+◌, ◌-◌, ◌≤◌, ◌≡◌, ◌↔◌, refl, Option, none, some, List, [], ◌∷◌, arith,
  if◌then◌else◌, ltb, ok, Bool-cases, inl, inr,
}
use vibefeld.Schema.NodeType.{is_local_assume, is_local_discharge}
use vibefeld.Node.{Node}
use vibefeld.Scope.Validate.{count_open, validate_scope_balance}

-- How many of the nodes open a scope, and how many close one.
abbrev pub assumes : List (Option Node) → ℕ
assumes [] = 0
assumes (none ∷ ns) = assumes ns
assumes (some n ∷ ns) = if is_local_assume n.node_type then suc (assumes ns) else assumes ns

abbrev pub discharges : List (Option Node) → ℕ
discharges [] = 0
discharges (none ∷ ns) = discharges ns
discharges (some n ∷ ns) =
    if is_local_assume n.node_type
    then discharges ns
    else if is_local_discharge n.node_type
    then suc (discharges ns)
    else discharges ns

-- From every place on, at least as many nodes close a scope as open one.
abbrev pub IsCovered : List (Option Node) → Type 0
IsCovered [] = Unit
IsCovered (n ∷ ns) = (assumes (n ∷ ns) ≤ discharges (n ∷ ns)) × IsCovered ns

covered-le : (ns : List (Option Node)) → IsCovered ns → assumes ns ≤ discharges ns
covered-le [] h = omega arith
covered-le (n ∷ ns) h = h.0

-- A discharge takes one off the count, or is one too many.
discharged :
    (c : ℕ) (ns : List (Option Node))
    → ((k : ℕ) → (count_open k ns ≡ 0) ↔ ((k + assumes ns ≤ discharges ns) × IsCovered ns))
    → (count_open (if ltb 0 c then c - 1 else c) ns ≡ 0) ↔ (
        (c + assumes ns ≤ suc (discharges ns))
        × ((assumes ns ≤ suc (discharges ns)) × IsCovered ns))
discharged zero ns h =
    let (to, from) = h 0 in
    (
      λ e. (omega (arith, (to e).0), (omega (arith, (to e).0), (to e).1)),
      λ h'. from (omega (arith, covered-le ns h'.1.1), h'.1.1),
    )
discharged (suc c) ns h =
    let less : (if ltb 0 (suc c) then suc c - 1 else suc c) ≡ c = ground arith in
    let (to, from) = h c in
    rw less (
      λ e. (omega (arith, (to e).0), (omega (arith, (to e).0), (to e).1)),
      λ h'. from (omega (arith, h'.0), h'.1.1),
    )

count_open-zero :
    (c : ℕ) (ns : List (Option Node))
    → (count_open c ns ≡ 0) ↔ ((c + assumes ns ≤ discharges ns) × IsCovered ns)
unfolding count_open
count_open-zero c [] = (λ e. (omega arith, tt), λ h. omega (arith, h.0))
count_open-zero c (none ∷ ns) =
    let (to, from) = count_open-zero c ns in
    (λ e. ((to e).0, (omega (arith, (to e).0), (to e).1)), λ h. from (h.0, h.1.1))
count_open-zero c (some n ∷ ns) = elim (Bool-cases (is_local_assume n.node_type)) [
  | inl a ↦
      let (to, from) = count_open-zero (suc c) ns in
      rw (a, count_open)
        (
          λ e. (omega (arith, (to e).0), (omega (arith, (to e).0), (to e).1)),
          λ h. from (omega (arith, h.0), h.1.1),
        )
  | inr a ↦ elim (Bool-cases (is_local_discharge n.node_type)) [
    | inl d ↦ rw (a, count_open) (rw (d, count_open) (discharged c ns (λ k. count_open-zero k ns)))
    | inr d ↦
        let (to, from) = count_open-zero c ns in
        rw (a, count_open)
          (rw (d, count_open)
            (λ e. ((to e).0, (omega (arith, (to e).0), (to e).1)), λ h. from (h.0, h.1.1)))
  ]
]

-- `ValidateScopeBalance` accepts exactly the lists of nodes in which, from every place on, at least as
-- many nodes discharge a local assumption as make one.
pub validate_scope_balance_iff :
    (nodes : List (Option Node)) → (validate_scope_balance nodes ≡ ok tt) ↔ IsCovered nodes
unfolding validate_scope_balance
validate_scope_balance_iff nodes =
    let (to, from) = count_open-zero 0 nodes in
    (
      λ e. elim (Bool-cases (ltb 0 (count_open 0 nodes))) [
        | inl some_open ↦ absurd (cc (rw (some_open, validate_scope_balance) at e))
        | inr none_open ↦ (to (ground (arith, none_open))).1
      ],
      λ h. rw (from (omega (arith, covered-le nodes h), h), validate_scope_balance) refl,
    )
