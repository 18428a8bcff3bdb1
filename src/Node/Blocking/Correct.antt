-- ===== src/Node/Blocking/Correct.antt =====
-- ComputeBlockedSet of internal/node/blocking.go returns the blocked nodes.
use vibefeld.Prelude.{
  ℕ, zero, suc, ◌+◌, ◌≤◌, ◌≡◌, refl, subst, ◌↔◌, ◌⊎◌, inl, inr, Option, some, List, [], ◌∷◌, map,
  Text, length, length-map, Map, map-mem, arith,
}
use mathlib.Core.List.{Memᴰ}
use vibefeld.Node.Pending.{PendingDef}
use vibefeld.Node.Blocking.{
  mark_requested, dependents_of, reverse_dependencies, Frontier, block_dependents, propagate,
  compute_blocked_set,
}
use vibefeld.Node.Blocking.Reach.{Requested, Blocked, requested, depends}
use vibefeld.Node.Blocking.Dependents.{dependents-DependsOn, DependsOn-dependents}
use vibefeld.Node.Blocking.Requests.{mark_requested-from, mark_requested-marks}
use vibefeld.Node.Blocking.Advance.{unblocked-le-length, work, Advances, Advances-block_dependents}

module _ (pds : List (Option PendingDef)) (dependencies : Map Text (List Text)) where
  abbrev nodes : List Text
  nodes = map (λ entry. entry.0) dependencies

  abbrev dependents : Map Text (List Text)
  dependents = reverse_dependencies dependencies []

  -- What holds before each round of the loop over the queue.
  record Inv (f : Frontier) : Type 0 where
    sound : (s : Text) → Memᴰ s f.blocked → Blocked pds dependencies s
    started : (s : Text) → Requested pds s → Memᴰ s f.blocked
    queue_blocked : (s : Text) → Memᴰ s f.queue → Memᴰ s f.blocked
    passed_on :
        (s : Text)
        → Memᴰ s f.blocked
        → Memᴰ s f.queue ⊎ ((n : Text) → Memᴰ n (dependents_of dependents s) → Memᴰ n f.blocked)

  dependent_known : (s d : Text) → Memᴰ s (dependents_of dependents d) → Memᴰ s nodes
  dependent_known s d m =
      let (deps, entry, _) = dependents-DependsOn dependencies s d m in
      map-mem (λ e. e.0) (s, deps) dependencies entry

  Inv-round :
      (blocked queue : List Text) (current : Text) (f : Frontier)
      → Inv (record { blocked = blocked; queue = current ∷ queue })
      → Advances nodes
          (dependents_of dependents current)
          (record { blocked = blocked; queue = queue })
          f
      → Inv f
  Inv-round blocked queue current f inv a = record {
    sound = λ s m. elim (a.from s m) [
      | inl old ↦ inv.sound s old
      | inr (new, _) ↦
          depends (dependents-DependsOn dependencies s current new)
            (inv.sound current (inv.queue_blocked current (Memᴰ.head refl)))
    ];
    started = λ s r. a.kept s (inv.started s r);
    queue_blocked = λ s m. elim (a.from_queue s m) [
      | inl old ↦ a.kept s (inv.queue_blocked s (Memᴰ.tail old))
      | inr here ↦ here
    ];
    passed_on = λ s m. elim (a.from s m) [
      | inl old ↦ elim (inv.passed_on s old) [
        | inl (Memᴰ.head e) ↦ inr (λ n dependent.
            a.all_blocked n (subst (λ k. Memᴰ n (dependents_of dependents k)) e dependent))
        | inl (Memᴰ.tail waits) ↦ inl (a.queued s waits)
        | inr passed ↦ inr (λ n dependent. a.kept n (passed n dependent))
      ]
      | inr (_, waits) ↦ inl waits
    ];
  }

  complete :
      (blocked : List Text)
      → Inv (record { blocked = blocked; queue = [] })
      → (s : Text) → Blocked pds dependencies s
      → Memᴰ s blocked
  complete blocked inv _ (requested {s} r) = inv.started s r
  complete blocked inv _ (depends {node} {dep} on b) =
      elim (inv.passed_on dep (complete blocked inv dep b)) [
        | inl nothing ↦ elim nothing [ ]
        | inr passed ↦ passed node (DependsOn-dependents dependencies node dep on)
      ]

  abbrev Decides : Option (List Text) → Type 0
  Decides o =
      (blocked : List Text) × (o ≡ some blocked)
      × ((s : Text) → Memᴰ s blocked ↔ Blocked pds dependencies s)

  propagate-Decides :
      (fuel : ℕ) (blocked queue : List Text)
      → Inv (record { blocked = blocked; queue = queue })
      → work nodes (record { blocked = blocked; queue = queue }) ≤ fuel
      → Decides (propagate dependents fuel blocked queue)
  unfolding propagate
  propagate-Decides fuel blocked [] inv enough =
      (blocked, refl, λ s. (inv.sound s, complete blocked inv s))
  propagate-Decides zero blocked (current ∷ queue) inv enough = absurd (omega arith)
  propagate-Decides (suc fuel) blocked (current ∷ queue) inv enough =
      let f : Frontier = record { blocked = blocked; queue = queue } in
      let next = block_dependents (dependents_of dependents current) f in
      let a =
        Advances-block_dependents nodes (dependents_of dependents current) f
          (λ s m. dependent_known s current m) in
      propagate-Decides fuel next.blocked next.queue (Inv-round blocked queue current next inv a)
        (omega (arith, a.less_work))

  -- ComputeBlockedSet returns, and a node is in the set exactly if it requested a pending
  -- definition or depends, over any number of dependencies, on a node that did.
  pub compute_blocked_set_decides :
      (blocked : List Text) × (compute_blocked_set pds dependencies ≡ some blocked)
      × ((s : Text) → Memᴰ s blocked ↔ Blocked pds dependencies s)
  unfolding compute_blocked_set
  compute_blocked_set_decides =
      let blocked = mark_requested pds [] in
      propagate-Decides (length blocked + length dependencies) blocked blocked
        (record {
          sound = λ s m. elim (mark_requested-from pds [] s m) [
            | inl nothing ↦ elim nothing [ ]
            | inr r ↦ requested r
          ];
          started = λ s r. mark_requested-marks pds [] s r;
          queue_blocked = λ s m. m;
          passed_on = λ s m. inl m;
        })
        (omega (arith, unblocked-le-length blocked nodes, length-map (λ e. e.0) dependencies))
