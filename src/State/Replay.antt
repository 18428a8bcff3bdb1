-- ===== src/State/Replay.antt =====
-- internal/state/replay.go: `Replay` and `ReplayWithVerify` over what the ledger's scan hands to the
-- callback: the sequence numbers and the events, where `none` is an event that does not parse.
pub mod Sequence
pub mod Verify
pub mod Hashes
use vibefeld.Prelude.{
  ℕ, zero, suc, ◌≡◌, Bool, true, false, not, ◌&&◌, Option, none, some, List, [], ◌∷◌, Text, ltb,
  ◌==◌, if◌then◌else◌, Result, ok, err, fail_if, ◌>>=◌, ◌>>◌,
}
use vibefeld.Types.NodeId.{NodeId}
use vibefeld.Node.{Node, Timestamp, verify_content_hash}
use vibefeld.Taint.{Heap, Sorter}
use vibefeld.Ledger.Event.{Event, node_created}
use vibefeld.State.{State, new_state, get_node}
use vibefeld.State.Handlers.{ApplyError}
use vibefeld.State.Apply.{apply}

pub data ReplayError : Type 0 where
  duplicate_sequence sequence_gap parse_failed hash_mismatch : ReplayError
  apply_failed : ApplyError → ReplayError

-- `now` gives the clock's reading while the event with a number is applied.
module _ (sha256_hex : Text → Text) (sorter : Sorter) (now : ℕ → Timestamp) where
  -- The check after a `NodeCreated` when hashes are verified.
  unfoldable pub hash_is_wrong : State → Event → Bool
  unfolding verify_content_hash
  hash_is_wrong s (node_created at n) = elim (get_node s n.id) [
    | none ↦ false
    | some p ↦ not (verify_content_hash sha256_hex (some (s.heap p)))
  ]
  hash_is_wrong s _ = false

  -- What follows a parsed event: `Apply`, the sequence number, the hash.
  unfoldable pub apply_numbered : Bool → ℕ → State → Event → Result ReplayError State
  unfolding apply hash_is_wrong
  apply_numbered verify_hashes seq s event =
      let (s', outcome) = apply sha256_hex sorter (now seq) s event in
      elim outcome [
        | err e ↦ err (apply_failed e)
        | ok _ ↦ (do
          let s'' = record s' { latest_seq = seq }
          fail_if (verify_hashes && hash_is_wrong s'' event) hash_mismatch
          ok s'')
      ]

  -- The callback of the scan.
  unfoldable pub replay_one : Bool → ℕ → State → ℕ → Option Event → Result ReplayError State
  unfolding apply_numbered
  replay_one verify_hashes expected_seq s seq event =
      if not (seq == expected_seq)
      then (if ltb seq expected_seq then err duplicate_sequence else err sequence_gap)
      else elim event [ none ↦ err parse_failed | some e ↦ apply_numbered verify_hashes seq s e ]

  -- The scan, which stops at the first error.
  unfoldable pub replay_from : Bool → ℕ → List (ℕ × Option Event) → State → Result ReplayError State
  unfolding replay_one
  replay_from verify_hashes expected_seq [] s = ok s
  replay_from verify_hashes expected_seq ((seq, event) ∷ events) s =
      replay_one verify_hashes expected_seq s seq event >>= λ s'.
      replay_from verify_hashes (suc expected_seq) events s'

  -- `replayInternal`, over a heap where nothing is allocated yet.
  unfoldable pub replay_internal : Bool → Heap → List (ℕ × Option Event) → Result ReplayError State
  unfolding replay_from new_state
  replay_internal verify_hashes heap events = replay_from verify_hashes 1 events (new_state heap)

  -- `Replay`
  unfoldable pub replay : Heap → List (ℕ × Option Event) → Result ReplayError State
  unfolding replay_internal
  replay heap events = replay_internal false heap events

  -- `ReplayWithVerify`
  unfoldable pub replay_with_verify : Heap → List (ℕ × Option Event) → Result ReplayError State
  unfolding replay_internal
  replay_with_verify heap events = replay_internal true heap events
