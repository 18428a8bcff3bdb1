-- ===== src/State/Replay/Hashes.antt =====
-- What a verified replay checks beyond a plain one (internal/state/replay.go).
use vibefeld.Prelude.{
  ℕ, suc, ◌≡◌, refl, sym, ap, subst, ◌↔◌, true, false, not, Option, none, some, List, [], ◌∷◌, Text,
  text_eq, text_eq_iff, lookup-insert, eq_text, All, ==_iff, ok, bind-eq_ok, arith,
}
use vibefeld.Types.NodeId.{to_string}
use vibefeld.Node.{Node, Timestamp, content_text, compute_content_hash, verify_content_hash}
use vibefeld.Taint.{Heap, Sorter}
use vibefeld.Ledger.Event.{Event, node_created}
use vibefeld.State.{State, add_node}
use vibefeld.State.Handlers.{apply_node_created}
use vibefeld.State.Apply.{apply}
use vibefeld.State.WellFormed.{write_self}
use vibefeld.State.Replay.{
  hash_is_wrong, apply_numbered, replay_one, replay_from, replay_internal, replay,
  replay_with_verify,
}
use vibefeld.State.Replay.Sequence.{replay_one-ok, apply_numbered-ok}
use vibefeld.State.Replay.Verify.{one-unverified}

module _ (sha256_hex : Text → Text) where
  -- A created node carries the hash of its content.
  abbrev pub HasHash : Event → Type 0
  HasHash (node_created at n) = n.content_hash ≡ sha256_hex (content_text n)
  HasHash _ = Unit

  abbrev pub FileHasHash : Option Event → Type 0
  FileHasHash none = Unit
  FileHasHash (some e) = HasHash e

module _ (sha256_hex : Text → Text) (sorter : Sorter) (now : ℕ → Timestamp) where
  -- The state after an event, with its number.
  abbrev after : State → ℕ → Event → State
  after s seq e = record ((apply sha256_hex sorter (now seq) s e).0) { latest_seq = seq }

  wrong_iff : (h k : Text) → (not (text_eq h k) ≡ false) ↔ (h ≡ k)
  wrong_iff h k = ground (arith, text_eq_iff h k)

  created_wrong :
      (s : State) (seq : ℕ) (at : Timestamp) (n : Node)
      → hash_is_wrong sha256_hex sorter now (after s seq (node_created at n)) (node_created at n)
        ≡ not (text_eq n.content_hash (sha256_hex (content_text n)))
  unfolding hash_is_wrong verify_content_hash apply apply_node_created add_node compute_content_hash
  created_wrong s seq at n =
      rw (lookup-insert s.nodes (to_string n.id) s.fresh (to_string n.id), hash_is_wrong)
        (rw ((text_eq_iff (to_string n.id) (to_string n.id)).1 refl)
          (rw (write_self s.heap s.fresh n) refl))

  none_due : (false ≡ false) ↔ Unit {0}
  none_due = (λ _. tt, λ _. refl)

  hash_iff :
      (s : State) (seq : ℕ) (e : Event)
      → (hash_is_wrong sha256_hex sorter now (after s seq e) e ≡ false) ↔ HasHash sha256_hex e
  unfolding hash_is_wrong
  hash_iff s seq (Event.node_created at n) =
      subst (λ b. (b ≡ false) ↔ HasHash sha256_hex (node_created at n))
        (sym (created_wrong s seq at n)) (wrong_iff n.content_hash (sha256_hex (content_text n)))
  hash_iff s seq (Event.proof_initialized _ _ _) = none_due
  hash_iff s seq (Event.nodes_claimed _ _ _ _) = none_due
  hash_iff s seq (Event.nodes_released _ _) = none_due
  hash_iff s seq (Event.challenge_raised _ _) = none_due
  hash_iff s seq (Event.challenge_resolved _ _) = none_due
  hash_iff s seq (Event.challenge_withdrawn _ _) = none_due
  hash_iff s seq (Event.challenge_superseded _ _ _) = none_due
  hash_iff s seq (Event.node_validated _ _ _) = none_due
  hash_iff s seq (Event.node_admitted _ _) = none_due
  hash_iff s seq (Event.node_refuted _ _) = none_due
  hash_iff s seq (Event.node_archived _ _) = none_due
  hash_iff s seq (Event.node_amended _ _) = none_due
  hash_iff s seq (Event.taint_recomputed _ _ _) = none_due
  hash_iff s seq (Event.def_added _ _) = none_due
  hash_iff s seq (Event.lemma_extracted _ _) = none_due
  hash_iff s seq (Event.lock_reaped _ _ _) = none_due
  hash_iff s seq (Event.scope_opened _ _ _) = none_due
  hash_iff s seq (Event.scope_closed _ _ _) = none_due
  hash_iff s seq (Event.claim_refreshed _ _ _ _) = none_due
  hash_iff s seq (Event.refinement_requested _ _ _ _) = none_due

  one_verified :
      (expected : ℕ) (s : State) (seq : ℕ) (event : Option Event) (s' : State)
      → replay_one sha256_hex sorter now false expected s seq event ≡ ok s'
      → FileHasHash sha256_hex event
      → replay_one sha256_hex sorter now true expected s seq event ≡ ok s'
  unfolding replay_one apply_numbered
  one_verified expected s seq event s' h hash =
      let (numbered, (e, parsed, applied)) =
        replay_one-ok sha256_hex sorter now false expected s seq event s' h in
      let (out, made, _) = apply_numbered-ok sha256_hex sorter now false seq s e s' applied in
      let right = (hash_iff s seq e).1 (subst (FileHasHash sha256_hex) parsed hash) in
      rw ((==_iff seq expected).1 numbered, replay_one)
        (rw parsed (rw (out, apply_numbered) (rw (right, apply_numbered) (ap ok (sym made)))))

  one_iff :
      (expected : ℕ) (s : State) (seq : ℕ) (event : Option Event) (s' : State)
      → (replay_one sha256_hex sorter now true expected s seq event ≡ ok s') ↔ (
          (replay_one sha256_hex sorter now false expected s seq event ≡ ok s')
          × FileHasHash sha256_hex event)
  one_iff expected s seq event s' = (
    λ h.
        let (_, (e, parsed, applied)) =
          replay_one-ok sha256_hex sorter now true expected s seq event s' h in
        let (_, made, right) = apply_numbered-ok sha256_hex sorter now true seq s e s' applied in
        (
          one-unverified sha256_hex sorter now expected s seq event s' h,
          subst (FileHasHash sha256_hex) (sym parsed) (
              (hash_iff s seq e).0
                (subst (λ t. hash_is_wrong sha256_hex sorter now t e ≡ false) made right)),
        ),
    λ (h, hash). one_verified expected s seq event s' h hash,
  )

  from_iff :
      (n : ℕ) (events : List (ℕ × Option Event)) (s s' : State)
      → (replay_from sha256_hex sorter now true n events s ≡ ok s') ↔ (
          (replay_from sha256_hex sorter now false n events s ≡ ok s')
          × All (λ file. FileHasHash sha256_hex file.1) events)
  unfolding replay_from
  from_iff n [] s s' = (λ h. (h, tt), λ h. h.0)
  from_iff n ((seq, event) ∷ events) s s' = (
    λ h.
        let (mid, one, rest) =
          bind-eq_ok (replay_one sha256_hex sorter now true n s seq event) _ s' h in
        let (plain, hash) = (one_iff n s seq event mid).0 one in
        let (plains, hashes) = (from_iff (suc n) events mid s').0 rest in
        (rw plain plains, (hash, hashes)),
    λ (h, (hash, hashes)).
        let (mid, one, rest) =
          bind-eq_ok (replay_one sha256_hex sorter now false n s seq event) _ s' h in
        rw ((one_iff n s seq event mid).1 (one, hash))
          ((from_iff (suc n) events mid s').1 (rest, hashes)),
  )

  -- A verified replay gives a state exactly if the plain replay gives it and every node created in the
  -- ledger carries the hash of its content.
  pub replay_with_verify_iff :
      (heap : Heap) (events : List (ℕ × Option Event)) (s : State)
      → (replay_with_verify sha256_hex sorter now heap events ≡ ok s) ↔ (
          (replay sha256_hex sorter now heap events ≡ ok s)
          × All (λ file. FileHasHash sha256_hex file.1) events)
  unfolding replay_with_verify replay replay_internal
  replay_with_verify_iff heap events s = from_iff 1 events _ s
