-- ===== src/Node/Blocking/Requests.antt =====
-- The nodes that ComputeBlockedSet of internal/node/blocking.go starts from.
use vibefeld.Prelude.{
  ◌≡◌, refl, sym, subst, ◌⊎◌, inl, inr, true, not, ◌||◌, Bool-cases, eq_of_some-eq, Option, none,
  some, List, [], ◌∷◌, ◌++◌, Text, text_eq, text_eq_iff, mem-append_left, mem-append,
  mem-append_right, arith,
}
use mathlib.Core.List.{Memᴰ}
use vibefeld.Types.NodeId.{to_string}
use vibefeld.Node.Pending.{PendingDef, is_pending}
use vibefeld.Node.Blocking.{is_key, mark_requested}
use vibefeld.Node.Blocking.Reach.{Requested}

pub is_key-mem : (ss : List Text) (k : Text) → is_key ss k ≡ true → Memᴰ k ss
is_key-mem [] k h = absurd (cc)
is_key-mem (s ∷ ss) k h = elim (Bool-cases (text_eq s k)) [
  | inl e ↦ Memᴰ.head (sym ((text_eq_iff s k).0 e))
  | inr e ↦ Memᴰ.tail (is_key-mem ss k (ground arith))
]

pub mark_requested-from :
    (pds : List (Option PendingDef)) (blocked : List Text) (s : Text)
    → Memᴰ s (mark_requested pds blocked)
    → Memᴰ s blocked ⊎ Requested pds s
unfolding mark_requested
mark_requested-from [] blocked s here = inl here
mark_requested-from (none ∷ pds) blocked s here = elim (mark_requested-from pds blocked s here) [
  | inl old ↦ inl old
  | inr (pd, m, waits, name) ↦ inr (pd, Memᴰ.tail m, waits, name)
]
mark_requested-from (some pd ∷ pds) blocked s here =
    elim (Bool-cases (not (is_pending pd) || is_key blocked (to_string pd.requested_by))) [
      | inl e ↦ elim (mark_requested-from pds blocked s (subst (Memᴰ s) (cc e) here)) [
        | inl old ↦ inl old
        | inr (other, m, waits, name) ↦ inr (other, Memᴰ.tail m, waits, name)
      ]
      | inr e ↦
          elim (mark_requested-from pds (blocked ++ to_string pd.requested_by ∷ []) s
            (subst (Memᴰ s) (cc e) here)) [
              | inl before ↦ elim (mem-append s blocked (to_string pd.requested_by ∷ []) before) [
                | inl old ↦ inl old
                | inr (Memᴰ.head new) ↦ inr (pd, Memᴰ.head refl, ground (arith, e), new)
                | inr (Memᴰ.tail nothing) ↦ elim nothing [ ]
              ]
              | inr (other, m, waits, name) ↦ inr (other, Memᴰ.tail m, waits, name)
            ]
    ]

mark_requested-kept :
    (pds : List (Option PendingDef)) (blocked : List Text) (s : Text)
    → Memᴰ s blocked
    → Memᴰ s (mark_requested pds blocked)
unfolding mark_requested
mark_requested-kept [] blocked s m = m
mark_requested-kept (none ∷ pds) blocked s m = mark_requested-kept pds blocked s m
mark_requested-kept (some pd ∷ pds) blocked s m =
    let k = to_string pd.requested_by in
    elim (Bool-cases (not (is_pending pd) || is_key blocked k)) [
      | inl e ↦ rw e (mark_requested-kept pds blocked s m)
      | inr e ↦
          rw e
            (mark_requested-kept pds (blocked ++ k ∷ []) s (mem-append_left s blocked (k ∷ []) m))
    ]

pub mark_requested-marks :
    (pds : List (Option PendingDef)) (blocked : List Text) (s : Text)
    → Requested pds s
    → Memᴰ s (mark_requested pds blocked)
unfolding mark_requested
mark_requested-marks [] blocked s (pd, m, waits, name) = elim m [ ]
mark_requested-marks (none ∷ pds) blocked s (pd, Memᴰ.head e, waits, name) = absurd (cc)
mark_requested-marks (none ∷ pds) blocked s (pd, Memᴰ.tail m, waits, name) =
    mark_requested-marks pds blocked s (pd, m, waits, name)
mark_requested-marks (some pd ∷ pds) blocked s (other, Memᴰ.tail m, waits, name) =
    let k = to_string pd.requested_by in
    elim (Bool-cases (not (is_pending pd) || is_key blocked k)) [
      | inl e ↦ rw e (mark_requested-marks pds blocked s (other, m, waits, name))
      | inr e ↦ rw e (mark_requested-marks pds (blocked ++ k ∷ []) s (other, m, waits, name))
    ]
mark_requested-marks (some pd ∷ pds) blocked s (other, Memᴰ.head e, waits, name) =
    let k = to_string pd.requested_by in
    let same = eq_of_some-eq other pd e in
    let here : s ≡ k = subst (λ p. s ≡ to_string p.requested_by) same name in
    let active : is_pending pd ≡ true = subst (λ p. is_pending p ≡ true) same waits in
    elim (Bool-cases (is_key blocked k)) [
      | inl old ↦ rw active (
          rw old (
            mark_requested-kept pds blocked s
              (subst (λ t. Memᴰ t blocked) (sym here) (is_key-mem blocked k old))))
      | inr new ↦ rw active (
          rw new (
            mark_requested-kept pds (blocked ++ k ∷ []) s
              (mem-append_right s blocked (k ∷ []) (Memᴰ.head here))))
    ]
