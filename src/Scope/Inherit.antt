-- ===== src/Scope/Inherit.antt =====
-- Inheritance against the check of a scope (internal/scope/inherit.go, validate.go).
use vibefeld.Prelude.{
  ◌≡◌, refl, sym, ◌∙◌, ap, Bool, true, false, Option, none, some, List, [], ◌∷◌, Text, text_eq, Map,
  lookup, insert, lookup-insert, eq_text, if◌then◌else◌, Bool-cases, Option-cases, inl, inr,
  eq_of_some-eq, ok,
}
use vibefeld.Types.NodeId.{to_string}
use vibefeld.Node.{Node}
use vibefeld.Scope.{Entry, is_active}
use vibefeld.Scope.Validate.{
  entry_map, active_map, holds_active, keep_active, inherit_scope, check_references, validate_scope,
}

-- Where the one map has an active entry, the other has some entry.
abbrev HasActive : Map Text Entry → Map Text Entry → Type 0
HasActive m active =
    (ref : Text) (e : Entry)
    → lookup m ref ≡ some e
    → is_active e ≡ true
    → (e' : Entry) × (lookup active ref ≡ some e')

insert-HasActive :
    (m active : Map Text Entry) (k : Text) (e : Entry)
    → HasActive m active
    → HasActive (insert m k e) (if is_active e then insert active k e else active)
insert-HasActive m active k e h ref x found act = elim (Bool-cases (text_eq k ref)) [
  | inl same ↦
      let here : e ≡ x = eq_of_some-eq e x (sym (rw same at (lookup-insert m k e ref)) ∙ found) in
      let kept : is_active e ≡ true = ap (λ (y : Entry). is_active y) here ∙ act in
      (
        e,
        ap (λ b. lookup (if b then insert active k e else active) ref) kept
            ∙ (rw same at (lookup-insert active k e ref)),
      )
  | inr other ↦
      let (y, there) = h ref x (sym (rw other at (lookup-insert m k e ref)) ∙ found) act in
      (y, either (is_active e) other there)
]
  where
    either :
        (b : Bool)
        → text_eq k ref ≡ false
        → {y : Entry} → lookup active ref ≡ some y
        → lookup (if b then insert active k e else active) ref ≡ some y
    either true other there = (rw other at (lookup-insert active k e ref)) ∙ there
    either false other there = there

maps-HasActive :
    (es : List (Option Entry)) (m active : Map Text Entry)
    → HasActive m active
    → HasActive (entry_map es m) (active_map es active)
unfolding entry_map active_map
maps-HasActive [] m active h = h
maps-HasActive (none ∷ es) m active h = maps-HasActive es m active h
maps-HasActive (some e ∷ es) m active h =
    maps-HasActive es (insert m (to_string e.node_id) e)
      (if is_active e then insert active (to_string e.node_id) e else active)
      (insert-HasActive m active (to_string e.node_id) e h)

kept-checked :
    (m active : Map Text Entry) (refs : List Text)
    → HasActive m active
    → check_references active (keep_active m refs) ≡ ok tt
unfolding keep_active check_references
kept-checked m active [] h = refl
kept-checked m active (ref ∷ refs) h = elim (Option-cases (lookup m ref)) [
  | inl missing ↦ rw (missing, keep_active, holds_active) (kept-checked m active refs h)
  | inr (e, found) ↦ elim (Bool-cases (is_active e)) [
    | inl act ↦
        let (e', there) = h ref e found act in
        rw (found, keep_active, holds_active)
          (rw (act, keep_active) (rw (there, check_references) (kept-checked m active refs h)))
    | inr closed ↦
        rw (found, keep_active, holds_active)
          (rw (closed, keep_active) (kept-checked m active refs h))
  ]
]

-- A node whose scope is what `InheritScope` gives passes `ValidateScope` with the same entries.
pub validate_scope-inherit_scope :
    (n : Node) (parent_scope : List Text) (entries : List (Option Entry))
    → n.scope ≡ inherit_scope parent_scope entries
    → validate_scope (some n) entries ≡ ok tt
unfolding inherit_scope validate_scope lookup
validate_scope-inherit_scope n parent_scope entries e =
    ap (check_references (active_map entries [])) e
    ∙ kept-checked (entry_map entries []) (active_map entries []) parent_scope
        (maps-HasActive entries [] [] (λ ref x found act. absurd (cc)))
