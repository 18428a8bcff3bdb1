-- ===== src/Taint/Compute.antt =====
-- `ComputeTaint` against its documented rules (internal/taint/compute.go).
use vibefeld.Prelude.{◌≡◌, ◌≢◌, ◌↔◌, ◌⊎◌, refl, true, false, List, [], ◌∷◌, arith, any, All}
use vibefeld.Schema.Epistemic.{pending, admitted}
use vibefeld.Node.{Node, TaintState, clean, self_admitted, tainted, unresolved}
use vibefeld.Taint.{compute_taint, is_unresolved, taints_below, same_taint}

-- Some ancestor has the taint `t`.
abbrev pub HasTaint : TaintState → List Node → Type 0
HasTaint t [] = ⊥
HasTaint t (a ∷ above) = (a.taint_state ≡ t) ⊎ HasTaint t above

any-unresolved : (above : List Node) → (any is_unresolved above ≡ true) ↔ HasTaint unresolved above
unfolding same_taint
any-unresolved [] = (λ h. cc, λ h. absurd h)
any-unresolved (a ∷ above) = ground (arith, any-unresolved above)

any-taints :
    (above : List Node)
    → (any taints_below above ≡ true) ↔ (HasTaint tainted above ⊎ HasTaint self_admitted above)
unfolding same_taint
any-taints [] = (λ h. cc, λ h. ground arith)
any-taints (a ∷ above) = ground (arith, any-taints above)

-- The taint is `unresolved` exactly if the node is pending or an ancestor is unresolved; otherwise it
-- is `self_admitted` exactly if the node is admitted; otherwise it is `tainted` exactly if an
-- ancestor is tainted or admitted itself.
pub compute_taint_rules :
    (n : Node) (above : List Node)
    → ((compute_taint n above ≡ unresolved)
        ↔ ((n.epistemic_state ≡ pending) ⊎ HasTaint unresolved above))
      × (compute_taint n above ≢ unresolved
          → (compute_taint n above ≡ self_admitted) ↔ (n.epistemic_state ≡ admitted))
      × (compute_taint n above ≢ unresolved
          → n.epistemic_state ≢ admitted
          → (compute_taint n above ≡ tainted)
            ↔ (HasTaint tainted above ⊎ HasTaint self_admitted above))
unfolding compute_taint
compute_taint_rules n above = ground (arith, any-unresolved above, any-taints above)

-- No ancestor is unresolved, tainted or admitted itself.
abbrev pub AllClean : List Node → Type 0
AllClean = All (λ (a : Node).
    (a.taint_state ≢ unresolved) × (a.taint_state ≢ tainted) × (a.taint_state ≢ self_admitted))

not-any :
    (above : List Node)
    → AllClean above ↔ ((any is_unresolved above ≡ false) × (any taints_below above ≡ false))
unfolding same_taint
not-any [] = (λ h. (refl, refl), λ h. tt)
not-any (a ∷ above) = ground (arith, not-any above)

-- A node is clean exactly if it is neither pending nor admitted and no ancestor is unresolved, tainted or
-- admitted itself.
pub compute_taint-clean :
    (n : Node) (above : List Node)
    → (compute_taint n above ≡ clean)
      ↔ ((n.epistemic_state ≢ pending) × (n.epistemic_state ≢ admitted) × AllClean above)
unfolding compute_taint
compute_taint-clean n above = ground (arith, not-any above)
