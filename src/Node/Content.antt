-- ===== src/Node/Content.antt =====
-- What `NewNode` returns, and what the content hash covers (internal/node/node.go).
use mathlib.Core.List.{Permᴰ}
use mathlib.Core.List.Perm
use vibefeld.Prelude.{
  ◌≡◌, refl, ap, true, false, some, List, [], ◌∷◌, ◌++◌, Text, codes, ok, fail_if-eq_ok,
  eq_of_ok-eq, subst, beq_refl, eq_text,
}
use vibefeld.Text.Sort.{sort_strings-perm}
use vibefeld.Text.{join, is_blank}
use vibefeld.Types.NodeId.{NodeId, to_string, to_string_slice}
use vibefeld.Schema.NodeType.{NodeType, get_node_type_info}
use vibefeld.Schema.Inference.{InferenceType, get_inference_info}
use vibefeld.Schema.Workflow.{available, get_workflow_state_info}
use vibefeld.Schema.Epistemic.{pending, get_epistemic_state_info}
use vibefeld.Node.{
  Node, NodeOptions, NodeError, Timestamp, unresolved, new_node_with_options, validate,
  verify_content_hash, compute_content_hash, content_text, labelled_list, fresh_node, is_none,
}

labelled_list-perm :
    (label : Text) (ss ts : List Text)
    → Permᴰ ss ts
    → labelled_list label ss ≡ labelled_list label ts
unfolding labelled_list
labelled_list-perm label [] [] p = refl
labelled_list-perm label [] (t ∷ ts) p = cc (Perm.nil-eq ∣ p ∣₁)
labelled_list-perm label (s ∷ ss) [] p = cc (Perm.eq-nil ∣ p ∣₁)
labelled_list-perm label (s ∷ ss) (t ∷ ts) p =
    ap (λ l. label ++ join b',' l) (sort_strings-perm (s ∷ ss) (t ∷ ts) p)

to_string_slice-perm :
    (ids js : List NodeId) → Permᴰ ids js → Permᴰ (to_string_slice ids) (to_string_slice js)
unfolding to_string_slice
to_string_slice-perm _ _ Permᴰ.nil = Permᴰ.nil
to_string_slice-perm _ _ (Permᴰ.cons e p) = Permᴰ.cons (ap to_string e) (to_string_slice-perm _ _ p)
to_string_slice-perm _ _ (Permᴰ.swap e f) = Permᴰ.swap (ap to_string e) (ap to_string f)
to_string_slice-perm _ _ (Permᴰ.trans p q) =
    Permᴰ.trans (to_string_slice-perm _ _ p) (to_string_slice-perm _ _ q)

module _ (sha256_hex : Text → Text) (now : Timestamp) (id : NodeId) (t : NodeType) (s : Text)
    (i : InferenceType) (o : NodeOptions) where
  abbrev fresh : Node
  fresh = fresh_node now id t s i o

  abbrev built : Node
  built = record fresh { content_hash = compute_content_hash sha256_hex fresh }

  built-hash : verify_content_hash sha256_hex (some built) ≡ true
  unfolding verify_content_hash compute_content_hash fresh_node
  built-hash = beq_refl (sha256_hex (content_text fresh))

  built-validate :
      is_blank s ≡ false
      → is_none (get_node_type_info t) ≡ false
      → is_none (get_inference_info i) ≡ false
      → validate (some built) ≡ ok tt
  unfolding validate fresh_node get_workflow_state_info get_epistemic_state_info
  built-validate a b c = rw (a, b, c)

  -- What is promised of a new node.
  abbrev Fresh : Node → Type 0
  Fresh n =
      (validate (some n) ≡ ok tt)
      × (verify_content_hash sha256_hex (some n) ≡ true)
      × (n.workflow_state ≡ available)
      × (n.epistemic_state ≡ pending)
      × (n.taint_state ≡ unresolved)

  built-state :
      (built.workflow_state ≡ available)
      × (built.epistemic_state ≡ pending)
      × (built.taint_state ≡ unresolved)
  unfolding fresh_node
  built-state = (refl, refl, refl)

  -- What `NewNodeWithOptions` returns is valid, open for a verifier, free to claim, of unresolved
  -- taint, and carries the hash of its own content.
  pub new_node-valid :
      (n : Node)
      → new_node_with_options sha256_hex now id t s i o ≡ ok n
      → (validate (some n) ≡ ok tt)
        × (verify_content_hash sha256_hex (some n) ≡ true)
        × (n.workflow_state ≡ available)
        × (n.epistemic_state ≡ pending)
        × (n.taint_state ≡ unresolved)
  unfolding new_node_with_options
  new_node-valid n h =
      let (a, h₁) = fail_if-eq_ok _ _ _ n h in
      let (b, h₂) = fail_if-eq_ok _ _ _ n h₁ in
      let (c, h₃) = fail_if-eq_ok _ _ _ n h₂ in
      subst Fresh (eq_of_ok-eq {E = NodeError} built n h₃)
        (built-validate a b c, built-hash, built-state.0, built-state.1, built-state.2)

-- The content hash of two nodes of the same type, statement, formula and inference is the same when
-- their context references, dependencies and validation dependencies differ in order only.
pub content_hash-perm :
    (sha256_hex : Text → Text) (n m : Node)
    → m.node_type ≡ n.node_type
    → m.statement ≡ n.statement
    → m.latex ≡ n.latex
    → m.inference ≡ n.inference
    → Permᴰ m.context n.context
    → Permᴰ m.dependencies n.dependencies
    → Permᴰ m.validation_deps n.validation_deps
    → compute_content_hash sha256_hex m ≡ compute_content_hash sha256_hex n
unfolding compute_content_hash
content_hash-perm sha256_hex n m a b c d p q r = cc (
  a,
  b,
  c,
  d,
  labelled_list-perm (codes "|context:") m.context n.context p,
  labelled_list-perm (codes "|dependencies:") _ _
      (to_string_slice-perm m.dependencies n.dependencies q),
  labelled_list-perm (codes "|validation_deps:") _ _
      (to_string_slice-perm m.validation_deps n.validation_deps r),
)
