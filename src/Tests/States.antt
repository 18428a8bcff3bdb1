-- ===== src/Tests/States.antt =====
-- Examples for the taint, the state, the replay and the jobs.
use mathlib.Core.List.{Memᴰ}
use vibefeld.Prelude.{
  ℕ, ◌+◌, ◌≡◌, ◌≢◌, refl, true, false, Option, some, List, [], ◌∷◌, Text, codes, ◌⊎◌, ◌↔◌, All,
  lookup, insert, eq_text, ok, any,
}
use vibefeld.Types.NodeId.{to_string, is_ancestor_of}
use vibefeld.Schema.Epistemic.{pending, validate_epistemic_transition}
use vibefeld.Schema.Severity.{major}
use vibefeld.Node.{Node, Timestamp, clean, content_text}
use vibefeld.Node.Challenge.{is_opened}
use vibefeld.Taint.{node_map, propagate_taint}
use vibefeld.Taint.Propagate.{IsConsistent}
use vibefeld.Taint.Correct.{propagate_taint-IsConsistent}
use vibefeld.Taint.Frame.{propagate_taint_reports}
use vibefeld.Ledger.Event.{
  Event, node_created, challenge_raised, node_validated, node_archived, lock_reaped,
  proof_initialized,
}
use vibefeld.State.Queries.{challenge_map_for_jobs}
use vibefeld.State.{
  State, new_state, add_node, deref, get_challenges_for_node, challenges_by_node_id,
}
use vibefeld.State.Handlers.{apply_node_created}
use vibefeld.State.Apply.{apply, apply_node_archived, change_epistemic}
use vibefeld.State.Replay.{
  replay, replay_internal, replay_from, replay_with_verify, replay_one, apply_numbered,
}
use vibefeld.Ledger.Numbered.{IsNumberedFrom}
use vibefeld.State.Replay.Sequence.{replay_internal-numbered}
use vibefeld.State.Replay.Hashes.{HasHash, FileHasHash, replay_with_verify_iff}
use vibefeld.State.Replay.Verify.{replay_internal-lock_reaped}
use vibefeld.State.Challenges.{IsCoherent, challenges_by_node_id-Lists}
use vibefeld.State.Coherence.{AllListed, apply-AllListed}
use vibefeld.State.Closing.{NoneOpen, archives, closing-NoneOpen}
use vibefeld.State.TaintKept.{TaintsConsistent, validates, decision-keeps_taint}
use vibefeld.Jobs.{has_blocking_challenges, find_jobs}
use vibefeld.Jobs.Split.{find_jobs-disjoint}
use vibefeld.Jobs.Severities.{challenge_map_for_jobs-blocks}
use vibefeld.Tests.Sorting.{by_insertion}
use vibefeld.Tests.Sample.{
  id1, id11, id111, id1-IsCanonical, id11-IsCanonical, id111-IsCanonical, sample_heap,
  sample_pointers, sample_node, sample_state, sample-IsConsistent,
}

abbrev no_hash : Text → Text
no_hash t = t

abbrev clock : ℕ → Timestamp
clock n = n + 10

abbrev validate_11 : Event
validate_11 = node_validated 5 id11 []

abbrev archive_11 : Event
archive_11 = node_archived 5 id11

decision-keeps_taint_example :
    TaintsConsistent (apply no_hash by_insertion 5 sample_state validate_11).0
decision-keeps_taint_example =
    decision-keeps_taint no_hash by_insertion 5 sample_state validate_11 validates
      (id1-IsCanonical, (id11-IsCanonical, (id111-IsCanonical, tt))) sample-IsConsistent

propagate_taint-IsConsistent_example :
    IsConsistent
      (node_map sample_heap sample_pointers [])
      (propagate_taint by_insertion sample_heap (some 0) sample_pointers).0
      2
unfolding is_ancestor_of
propagate_taint-IsConsistent_example =
    propagate_taint-IsConsistent by_insertion sample_heap 0 2 sample_pointers id1-IsCanonical
      (id1-IsCanonical, (id11-IsCanonical, (id111-IsCanonical, tt)))
      (Memᴰ.tail (Memᴰ.tail (Memᴰ.head refl))) refl

propagate_taint_reports_example :
    ((propagate_taint by_insertion sample_heap (some 1) sample_pointers).0 2 ≡ sample_heap 2)
    ⊎ (Memᴰ 2 (propagate_taint by_insertion sample_heap (some 1) sample_pointers).1
        × (is_ancestor_of id11 id111 ≡ true))
propagate_taint_reports_example =
    propagate_taint_reports by_insertion sample_heap 1 2 sample_pointers

sample-IsCoherent : IsCoherent sample_state
sample-IsCoherent cache e = absurd (cc)

-- The state with its cache filled.
abbrev cached_state : State
cached_state = record sample_state {
  challenges_by_node = some ((codes "1.1", codes "c1" ∷ []) ∷ []);
}

cached-AllListed : AllListed cached_state
unfolding challenges_by_node_id insert to_string lookup
cached-AllListed = challenges_by_node_id-Lists sample_state sample-IsCoherent

abbrev raise_c2 : Event
raise_c2 = challenge_raised 5 (record {
  challenge_id = codes "c2";
  node_id = id111;
  target = codes "gap";
  reason = codes "why?";
  severity = major;
  raised_by = [];
})

apply-AllListed_example : AllListed (apply no_hash by_insertion 5 cached_state raise_c2).0
apply-AllListed_example =
    apply-AllListed no_hash by_insertion 5 cached_state raise_c2 cached-AllListed

sample-archived : (apply no_hash by_insertion 5 sample_state archive_11).1 ≡ ok tt
unfolding apply apply_node_archived change_epistemic lookup to_string validate_epistemic_transition
sample-archived = refl

closing-NoneOpen_example : NoneOpen (apply no_hash by_insertion 5 sample_state archive_11).0 id11
closing-NoneOpen_example =
    closing-NoneOpen no_hash by_insertion 5 sample_state id11 archive_11 archives sample-IsCoherent
      sample-archived

-- A ledger with the start of a proof and its root.
abbrev ledger_events : List (ℕ × Option Event)
ledger_events =
    (1, some (proof_initialized 1 (codes "P") (codes "me")))
    ∷ (2, some (proof_initialized 2 [] []))
    ∷ []

abbrev end_state : State
end_state = record (new_state sample_heap) { latest_seq = 2 }

replayed_verified :
    replay_with_verify no_hash by_insertion clock sample_heap ledger_events ≡ ok end_state
unfolding replay_with_verify replay_internal replay_from replay_one apply_numbered apply new_state
replayed_verified = refl

replay_internal-numbered_example : IsNumberedFrom 1 ledger_events × (end_state.latest_seq ≡ 2)
unfolding replay_with_verify
replay_internal-numbered_example =
    replay_internal-numbered no_hash by_insertion clock true sample_heap ledger_events end_state
      replayed_verified

-- A ledger with a root that carries the hash of its content.
abbrev root : Node
root = sample_node id1 pending clean

abbrev hashed_root : Node
hashed_root = record root { content_hash = content_text root }

abbrev hashed_events : List (ℕ × Option Event)
hashed_events =
    (1, some (proof_initialized 1 (codes "P") (codes "me")))
    ∷ (2, some (node_created 2 hashed_root))
    ∷ []

abbrev hashed_state : State
hashed_state = record (add_node hashed_root (new_state sample_heap)) { latest_seq = 2 }

replay_with_verify_iff_example :
    (replay_with_verify no_hash by_insertion clock sample_heap hashed_events ≡ ok hashed_state) ↔ (
      (replay no_hash by_insertion clock sample_heap hashed_events ≡ ok hashed_state)
      × All (λ file. FileHasHash no_hash file.1) hashed_events)
replay_with_verify_iff_example =
    replay_with_verify_iff no_hash by_insertion clock sample_heap hashed_events hashed_state

hashed-Replays : replay no_hash by_insertion clock sample_heap hashed_events ≡ ok hashed_state
unfolding replay replay_internal replay_from replay_one apply_numbered apply apply_node_created
    new_state
hashed-Replays = refl

hashed-HasHash : HasHash no_hash (node_created 2 hashed_root)
unfolding content_text
hashed-HasHash = refl

hashed_verified :
    replay_with_verify no_hash by_insertion clock sample_heap hashed_events ≡ ok hashed_state
hashed_verified =
    (replay_with_verify_iff no_hash by_insertion clock sample_heap hashed_events hashed_state).1
      (hashed-Replays, (tt, (hashed-HasHash, tt)))

replay_internal-lock_reaped_example :
    replay_internal no_hash by_insertion clock false sample_heap
      ((1, some (lock_reaped 1 id1 [])) ∷ [])
    ≢ ok end_state
replay_internal-lock_reaped_example =
    replay_internal-lock_reaped no_hash by_insertion clock false 1 1 id1 [] sample_heap
      ((1, some (lock_reaped 1 id1 [])) ∷ []) end_state (Memᴰ.head refl)

find_jobs-disjoint_example : ¬ (
    Memᴰ 1 (find_jobs sample_heap [] (0 ∷ 1 ∷ [])).prover_jobs
    × Memᴰ 1 (find_jobs sample_heap [] (0 ∷ 1 ∷ [])).verifier_jobs)
find_jobs-disjoint_example = find_jobs-disjoint sample_heap [] (0 ∷ 1 ∷ []) 1

challenge_map_for_jobs-blocks_example :
    has_blocking_challenges (sample_heap 1) (challenge_map_for_jobs sample_state).1
    ≡ any
        (λ c. is_opened c.status)
        (deref
          (get_challenges_for_node sample_state id11).0.challenges
          (get_challenges_for_node sample_state id11).1)
challenge_map_for_jobs-blocks_example = challenge_map_for_jobs-blocks sample_state (sample_heap 1)

-- One open minor challenge on 1.1 counts as blocking.
minor_blocks :
    has_blocking_challenges (sample_heap 1) (challenge_map_for_jobs sample_state).1 ≡ true
unfolding has_blocking_challenges challenge_map_for_jobs lookup to_string insert
minor_blocks = refl
