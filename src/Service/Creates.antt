-- ===== src/Service/Creates.antt =====
-- CreateNode and Refine of internal/service/proof.go plan a new node, within the limit on its depth.
use vibefeld.Prelude.{
  ℕ, ◌≤◌, ◌≡◌, refl, sym, subst, true, false, not, Option, none, some, Text, eq_text, lookup,
  Result, ok, err, ◌>>=◌, arith,
}
use vibefeld.Types.NodeId.{NodeId, to_string, depth, parent}
use vibefeld.Schema.NodeType.{NodeType}
use vibefeld.Schema.Inference.{InferenceType}
use vibefeld.Node.{Node, NodeError, NodeOptions, Timestamp, new_node, new_node_with_options}
use vibefeld.Taint.{Ptr}
use vibefeld.Ledger.Event.{node_created}
use vibefeld.State.{State, get_node}
use vibefeld.Citations.{validate_ext_citations}
use vibefeld.Service.{
  not_initialized, ServiceError, exceeds, Configured, already_exists, external_not_found, bad_node,
  map_error, is_none, validate_depth, validate_child_count,
}
use vibefeld.Service.Refine.{
  is_initialized, RefineSpec, create_node, refine, check_parent_children, check_claim,
  check_dependencies,
}
use vibefeld.Service.Valid.{creates, IsAllowed}
use vibefeld.Service.Plans.{IsSound, true_of_not, fail_if-IsSound, bind-IsSound}
use vibefeld.Text.{ℤ, pos, negsuc}

module _ (sha256_hex : Text → Text) (now : Timestamp) (id : NodeId) (node_type : NodeType)
    (statement : Text) (inference : InferenceType) where
  new_node_with_options-id :
      (opts : NodeOptions) (n : Node)
      → new_node_with_options sha256_hex now id node_type statement inference opts ≡ ok n
      → n.id ≡ id
  unfolding new_node_with_options
  new_node_with_options-id opts n e = ground arith

  new_node-id :
      (n : Node) → new_node sha256_hex now id node_type statement inference ≡ ok n → n.id ≡ id
  unfolding new_node
  new_node-id n e = new_node_with_options-id _ n e

map_error-ok : (r : Result NodeError Node) (n : Node) → map_error bad_node r ≡ ok n → r ≡ ok n
map_error-ok (ok m) n e = cc
map_error-ok (err x) n e = absurd (cc)

none_of_is_none : (o : Option Ptr) → is_none o ≡ true → o ≡ none
none_of_is_none none h = refl
none_of_is_none (some p) h = absurd (cc)

exceeds-bound : (n : ℕ) (limit : ℤ) → exceeds n limit ≡ false → (m : ℕ) × (limit ≡ pos m) × (n ≤ m)
exceeds-bound n (pos m) h = (m, refl, ground (arith, h))
exceeds-bound n (negsuc m) h = absurd (cc)

validate_depth-IsAllowed :
    (cfg : Configured) (n : ℕ) → validate_depth cfg n ≡ ok tt → IsAllowed cfg n
validate_depth-IsAllowed (err e) n h = absurd (cc)
validate_depth-IsAllowed (ok limits) n h = exceeds-bound n limits.max_depth (ground (arith, h))

module _ (cfg : Configured) (st : State) where
  -- A new node is appended whatever the other guards say.
  created-IsSound :
      (now : Timestamp) (id : NodeId) (r : Result NodeError Node)
      → ((n : Node) → r ≡ ok n → n.id ≡ id)
      → validate_depth cfg (depth id) ≡ ok tt
      → not (is_none (get_node st id)) ≡ false
      → IsSound cfg st (map_error bad_node r >>= λ n. ok (node_created now n, st.latest_seq))
  created-IsSound now id r named small new = bind-IsSound cfg st (map_error bad_node r) _ λ n made.
      let same = named n (map_error-ok r n made) in
      (
        creates now n
            (subst (λ i. IsAllowed cfg (depth i)) (sym same)
              (validate_depth-IsAllowed cfg (depth id) small))
            (subst (λ i. lookup st.nodes (to_string i) ≡ none) (sym same)
              (none_of_is_none (get_node st id) (true_of_not _ new))),
        refl,
      )

  module _ (sha256_hex : Text → Text) (now : Timestamp) where
    pub create_node-IsSound :
        (counted : Result ServiceError ℕ) (id : NodeId) (node_type : NodeType) (statement : Text)
        (inference : InferenceType)
        → IsSound cfg st
            (create_node sha256_hex cfg now counted id node_type statement inference (ok st))
    unfolding create_node
    create_node-IsSound counted id node_type statement inference =
        bind-IsSound cfg st (is_initialized counted) _ λ init _.
          fail_if-IsSound cfg st (not init) not_initialized _ λ _.
            bind-IsSound cfg st (validate_depth cfg (depth id)) _ λ _ small.
              fail_if-IsSound cfg st (not (is_none (get_node st id))) already_exists _ λ new.
                bind-IsSound cfg st (check_parent_children cfg st (parent id)) _ λ _ _.
                  created-IsSound now id _
                    (new_node-id sha256_hex now id node_type statement inference) small new

    pub refine-IsSound :
        (spec : RefineSpec) → IsSound cfg st (refine sha256_hex cfg now spec (ok st))
    unfolding refine
    refine-IsSound spec =
        bind-IsSound cfg st (validate_depth cfg (depth spec.child_id)) _ λ _ small.
          bind-IsSound cfg st (check_claim st spec.parent_id spec.owner) _ λ _ _.
            fail_if-IsSound cfg st (not (is_none (get_node st spec.child_id))) already_exists _
              λ new. bind-IsSound cfg st (validate_child_count cfg st spec.parent_id) _ λ _ _.
                fail_if-IsSound cfg st (not (is_none (validate_ext_citations spec.statement st)))
                  external_not_found _
                  λ _.
                    bind-IsSound cfg st (check_dependencies st spec.parent_id spec.dependencies) _
                      λ _ _.
                        bind-IsSound cfg st
                          (check_dependencies st spec.parent_id spec.validation_deps) _
                          λ _ _.
                            created-IsSound now spec.child_id _
                              (new_node_with_options-id sha256_hex now spec.child_id spec.node_type
                                spec.statement spec.inference _)
                              small new
