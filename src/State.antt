-- ===== src/State.antt =====
-- internal/state/state.go: the state that replay derives from the ledger. A `*node.Node` is a pointer
-- into `heap`, and `fresh` is the next pointer that an allocation returns. A `*Challenge` is named by
-- its key in `challenges`. A method that fills the cache returns the state that it leaves.
pub mod Queries
pub mod Handlers
pub mod Apply
pub mod Replay
pub mod TaintInvariant
pub mod Challenges
pub mod Decision
pub mod TaintKept
pub mod Untouched
pub mod Coherence
pub mod Closing
pub mod Claims
pub mod Keyed
pub mod WellFormed
use vibefeld.Prelude.{
  ℕ, zero, suc, ◌+◌, ◌≡◌, Bool, true, false, not, ◌&&◌, ◌||◌, Option, none, some, List, [], ◌∷◌,
  ◌++◌, map, Text, text_eq, ltb, ◌==◌, if◌then◌else◌, length, filter, any, all, Map, lookup, insert,
  values, eq_text,
}
use vibefeld.Types.NodeId.{NodeId, to_string, parent}
use vibefeld.Schema.Epistemic.{EpistemicState, validated, needs_refinement, same_state}
use vibefeld.Schema.Severity.{ChallengeSeverity, severity_blocks_acceptance}
use vibefeld.Node.{Node, Timestamp}
use vibefeld.Node.Challenge.{ChallengeStatus, is_opened, Challenge as JobChallenge}
use vibefeld.Taint.{Ptr, Heap}
use vibefeld.Scope.{Tracker, new_tracker}
use vibefeld.Schema.Severity

-- `state.Challenge`
pub record Challenge : Type 0 where
  pub id : Text
  pub node_id : NodeId
  pub target : Text
  pub reason : Text
  pub status : ChallengeStatus
  pub severity : ChallengeSeverity
  pub created : Timestamp
  pub resolution : Text
  pub raised_by : Text

pub record Amendment : Type 0 where
  pub timestamp : Timestamp
  pub previous_statement : Text
  pub new_statement : Text
  pub owner : Text

-- `node.Definition`
pub record Definition : Type 0 where
  pub id : Text
  pub name : Text
  pub content : Text
  pub content_hash : Text
  pub created : Timestamp

-- `node.Lemma`
pub record Lemma : Type 0 where
  pub id : Text
  pub statement : Text
  pub source_node_id : NodeId
  pub content_hash : Text
  pub created : Timestamp
  pub proof : Text

-- `node.Assumption`
pub record Assumption : Type 0 where
  pub id : Text
  pub statement : Text
  pub content_hash : Text
  pub created : Timestamp
  pub justification : Text

-- `node.External`
pub record External : Type 0 where
  pub id : Text
  pub name : Text
  pub source : Text
  pub content_hash : Text
  pub created : Timestamp
  pub notes : Text

pub record State : Type 0 where
  pub heap : Heap
  pub fresh : Ptr
  pub nodes : Map Text Ptr
  pub definitions : Map Text Definition
  pub assumptions : Map Text Assumption
  pub externals : Map Text External
  pub lemmas : Map Text Lemma
  pub challenges : Map Text Challenge
  pub challenges_by_node : Option (Map Text (List Text))
  pub amendments : Map Text (List Amendment)
  pub scope_tracker : Tracker
  pub latest_seq : ℕ

-- `NewState`, over a heap where nothing is allocated yet.
unfoldable pub new_state : Heap → State
new_state heap = record {
  heap = heap;
  fresh = 0;
  nodes = [];
  definitions = [];
  assumptions = [];
  externals = [];
  lemmas = [];
  challenges = [];
  challenges_by_node = none;
  amendments = [];
  scope_tracker = new_tracker;
  latest_seq = 0;
}

-- Writing all fields through a pointer.
unfoldable pub write : Heap → Ptr → Node → Heap
write h p n q = if q == p then n else h q

-- `AddNode(&n)`
unfoldable pub add_node : Node → State → State
unfolding write
add_node n s = record s {
  heap = write s.heap s.fresh n;
  fresh = suc s.fresh;
  nodes = insert s.nodes (to_string n.id) s.fresh;
}

-- `GetNode`
abbrev pub get_node : State → NodeId → Option Ptr
get_node s id = lookup s.nodes (to_string id)

-- `AllNodes`
abbrev pub all_nodes : State → List Ptr
all_nodes s = values s.nodes

abbrev pub add_definition : Definition → State → State
add_definition d s = record s { definitions = insert s.definitions d.id d }

abbrev pub get_definition : State → Text → Option Definition
get_definition s id = lookup s.definitions id

abbrev pub add_assumption : Assumption → State → State
add_assumption a s = record s { assumptions = insert s.assumptions a.id a }

abbrev pub get_assumption : State → Text → Option Assumption
get_assumption s id = lookup s.assumptions id

abbrev pub add_external : External → State → State
add_external e s = record s { externals = insert s.externals e.id e }

abbrev pub get_external : State → Text → Option External
get_external s id = lookup s.externals id

abbrev pub add_lemma : Lemma → State → State
add_lemma l s = record s { lemmas = insert s.lemmas l.id l }

abbrev pub get_lemma : State → Text → Option Lemma
get_lemma s id = lookup s.lemmas id

abbrev pub all_lemmas : State → List Lemma
all_lemmas s = values s.lemmas

-- `AddChallenge`
unfoldable pub add_challenge : Challenge → State → State
add_challenge c s = record s { challenges = insert s.challenges c.id c; challenges_by_node = none }

abbrev pub get_challenge : State → Text → Option Challenge
get_challenge s id = lookup s.challenges id

abbrev pub all_challenges : State → List Challenge
all_challenges s = values s.challenges

-- `InvalidateChallengeCache`
abbrev pub invalidate_challenge_cache : State → State
invalidate_challenge_cache s = record s { challenges_by_node = none }

-- A missing key reads as the empty list.
abbrev pub list_at : {A : Type 0} → Map Text (List A) → Text → List A
list_at m k = elim (lookup m k) [ none ↦ [] | some l ↦ l ]

-- The loop that groups the challenges by node.
unfoldable pub group_by_node : Map Text Challenge → Map Text (List Text) → Map Text (List Text)
group_by_node [] m = m
group_by_node ((k, c) ∷ cs) m =
    group_by_node cs (insert m (to_string c.node_id) (list_at m (to_string c.node_id) ++ k ∷ []))

-- `ChallengesByNodeID`
unfoldable pub challenges_by_node_id : State → State × Map Text (List Text)
unfolding group_by_node
challenges_by_node_id s = elim s.challenges_by_node [
  | some cache ↦ (s, cache)
  | none ↦
      let cache = group_by_node s.challenges [] in
      (record s { challenges_by_node = some cache }, cache)
]

-- `GetChallengesForNode`: the keys of the challenges.
unfoldable pub get_challenges_for_node : State → NodeId → State × List Text
unfolding challenges_by_node_id
get_challenges_for_node s node_id =
    let (s', cache) = challenges_by_node_id s in (s', list_at cache (to_string node_id))

-- Reading the challenges through their names.
unfoldable pub deref : Map Text Challenge → List Text → List Challenge
deref m [] = []
deref m (k ∷ ks) = let rest = deref m ks in elim (lookup m k) [ none ↦ rest | some c ↦ c ∷ rest ]

-- `AddAmendment`
unfoldable pub add_amendment : NodeId → Amendment → State → State
add_amendment node_id a s = record s {
  amendments =
      insert s.amendments (to_string node_id) (list_at s.amendments (to_string node_id) ++ a ∷ []);
}

-- `GetAmendmentHistory`
abbrev pub get_amendment_history : State → NodeId → List Amendment
get_amendment_history s node_id = list_at s.amendments (to_string node_id)
