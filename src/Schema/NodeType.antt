-- ===== src/Schema/NodeType.antt =====
-- internal/schema/nodetype.go: the types of a proof node.
use vibefeld.Prelude.{Bool, true, false, Option, none, some, Text, codes, Result, ok, err}

-- `other` holds a string that is none of the constants.
pub data NodeType : Type 0 where
  claim local_assume local_discharge case qed : NodeType
  other : Text → NodeType

pub record NodeTypeInfo : Type 0 where
  pub id : NodeType
  pub description : Text
  pub opens_scope : Bool
  pub closes_scope : Bool

-- The string of a node type.
unfoldable pub node_type_text : NodeType → Text
node_type_text claim = codes "claim"
node_type_text local_assume = codes "local_assume"
node_type_text local_discharge = codes "local_discharge"
node_type_text case = codes "case"
node_type_text qed = codes "qed"
node_type_text (other s) = s

-- `nodeTypeRegistry`, and `GetNodeTypeInfo` that reads it.
unfoldable pub get_node_type_info : NodeType → Option NodeTypeInfo
get_node_type_info claim = some (record {
  id = claim;
  description = codes "A mathematical assertion to be justified";
  opens_scope = false;
  closes_scope = false;
})
get_node_type_info local_assume = some (record {
  id = local_assume;
  description = codes "Introduce a local hypothesis (opens scope)";
  opens_scope = true;
  closes_scope = false;
})
get_node_type_info local_discharge = some (record {
  id = local_discharge;
  description = codes "Conclude from local hypothesis (closes scope)";
  opens_scope = false;
  closes_scope = true;
})
get_node_type_info case = some (record {
  id = case;
  description = codes "One branch of a case split";
  opens_scope = false;
  closes_scope = false;
})
get_node_type_info qed = some (record {
  id = qed;
  description = codes "Final step concluding the proof or subproof";
  opens_scope = false;
  closes_scope = false;
})
get_node_type_info (other s) = none

-- `ValidateNodeType`, with the rejected type as its error
unfoldable pub validate_node_type : NodeType → Result NodeType (Unit {0})
unfolding get_node_type_info
validate_node_type t = elim (get_node_type_info t) [ none ↦ err t | some _ ↦ ok tt ]

-- `OpensScope`
unfoldable pub opens_scope : NodeType → Bool
unfolding get_node_type_info
opens_scope t = elim (get_node_type_info t) [ none ↦ false | some info ↦ info.opens_scope ]

-- `ClosesScope`
unfoldable pub closes_scope : NodeType → Bool
unfolding get_node_type_info
closes_scope t = elim (get_node_type_info t) [ none ↦ false | some info ↦ info.closes_scope ]

-- `t == NodeTypeLocalAssume`
abbrev pub is_local_assume : NodeType → Bool
is_local_assume local_assume = true
is_local_assume _ = false

-- `t == NodeTypeLocalDischarge`
abbrev pub is_local_discharge : NodeType → Bool
is_local_discharge local_discharge = true
is_local_discharge _ = false
