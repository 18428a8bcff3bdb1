-- ===== src/Jobs/Severities.antt =====
-- What job detection makes of the severities that `ChallengeMapForJobs` hands to it
-- (internal/state/state.go, internal/jobs/verifier.go).
use vibefeld.Prelude.{
  ◌≡◌, refl, ◌∙◌, ap, List, [], ◌∷◌, map, Text, text_eq, any, Map, lookup, eq_text, Bool-cases, inl,
  inr, arith,
}
use vibefeld.Types.NodeId.{NodeId, to_string}
use vibefeld.Schema.Severity.{severity_blocks_acceptance}
use vibefeld.Node.{Node}
use vibefeld.Node.Challenge.{is_opened}
use vibefeld.Jobs.{blocks, has_blocking_challenges, challenges_of}
use vibefeld.State.Queries.{challenge_for_jobs, challenge_map_for_jobs, convert_all}
use vibefeld.State.{
  State, Challenge, deref, get_challenges_for_node, challenges_by_node_id, list_at,
}

converted_blocks :
    (cs : List Challenge)
    → any blocks (map challenge_for_jobs cs) ≡ any (λ c. is_opened c.status) cs
unfolding challenge_for_jobs severity_blocks_acceptance
converted_blocks [] = refl
converted_blocks (c ∷ cs) = rw (converted_blocks cs) (ground arith)

looked_up :
    (m : Map Text Challenge) (cache : Map Text (List Text)) (id : NodeId)
    → challenges_of id (convert_all m cache)
      ≡ map challenge_for_jobs (deref m (list_at cache (to_string id)))
unfolding convert_all lookup deref
looked_up m [] id = refl
looked_up m ((k, keys) ∷ cache) id = elim (Bool-cases (text_eq k (to_string id))) [
  | inl e ↦ rw (e, lookup, challenges_of, list_at) refl
  | inr e ↦ rw (e, lookup, challenges_of, list_at) (looked_up m cache id)
]

-- The map that `ChallengeMapForJobs` builds makes job detection count every open challenge of a node as
-- blocking, whatever its severity is.
pub challenge_map_for_jobs-blocks :
    (s : State) (n : Node)
    → has_blocking_challenges n (challenge_map_for_jobs s).1
      ≡ any
          (λ c. is_opened c.status)
          (deref (get_challenges_for_node s n.id).0.challenges (get_challenges_for_node s n.id).1)
unfolding has_blocking_challenges challenge_map_for_jobs get_challenges_for_node deref
challenge_map_for_jobs-blocks s n =
    let (s', cache) = challenges_by_node_id s in
    ap (any blocks) (looked_up s'.challenges cache n.id)
    ∙ converted_blocks (deref s'.challenges (list_at cache (to_string n.id)))
