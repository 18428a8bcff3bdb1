-- ===== src/State/Replay/Sequence.antt =====
-- What a replay that succeeds says of the ledger (internal/state/replay.go).
use vibefeld.Prelude.{
  ℕ, suc, ◌+◌, ◌≡◌, refl, sym, ◌∙◌, ap, subst, Bool, true, false, ◌&&◌, Option, none, some, List,
  [], ◌∷◌, Text, ltb, ◌==◌, ==_iff, if◌then◌else◌, length, arith, Result, ok, err, fail_if, ◌>>◌,
  Bool-cases, inl, inr, fail_if-eq_ok, bind-eq_ok, eq_of_ok-eq,
}
use vibefeld.Node.{Timestamp}
use vibefeld.Taint.{Heap, Sorter}
use vibefeld.Ledger.Event.{Event}
use vibefeld.Ledger.Numbered.{IsNumberedFrom}
use vibefeld.State.{State, new_state}
use vibefeld.State.Handlers.{ApplyError}
use vibefeld.State.Apply.{apply}
use vibefeld.State.Replay.{
  ReplayError, duplicate_sequence, sequence_gap, parse_failed, apply_failed, hash_mismatch,
  hash_is_wrong, apply_numbered, replay_one, replay_from, replay_internal,
}

module _ (sha256_hex : Text → Text) (sorter : Sorter) (now : ℕ → Timestamp) where
  pub replay_one-ok :
      (verify : Bool) (expected : ℕ) (s : State) (seq : ℕ) (event : Option Event) (s' : State)
      → replay_one sha256_hex sorter now verify expected s seq event ≡ ok s'
      → (seq ≡ expected)
        × ((e : Event) × (event ≡ some e)
            × (apply_numbered sha256_hex sorter now verify seq s e ≡ ok s'))
  unfolding replay_one
  replay_one-ok verify expected s seq event s' h = elim (Bool-cases (seq == expected)) [
    | inl e ↦ ((==_iff seq expected).0 e, parsed event (rw (e, replay_one) at h))
    | inr e ↦
        let failed : (if ltb seq expected then err duplicate_sequence else err sequence_gap)
            ≡ ok s' =
          rw (e, replay_one) at h in
        misnumbered (ltb seq expected) failed
  ]
    where
      misnumbered :
          (b : Bool)
          → (if b then err duplicate_sequence else err sequence_gap) ≡ ok s'
          → (seq ≡ expected)
            × ((e : Event) × (event ≡ some e)
                × (apply_numbered sha256_hex sorter now verify seq s e ≡ ok s'))
      misnumbered true h = absurd (cc)
      misnumbered false h = absurd (cc)

      parsed :
          (event : Option Event)
          → elim event as (λ _. Result ReplayError State) [
            | none ↦ err parse_failed
            | some e ↦ apply_numbered sha256_hex sorter now verify seq s e
          ]
            ≡ ok s'
          → (e : Event) × (event ≡ some e)
            × (apply_numbered sha256_hex sorter now verify seq s e ≡ ok s')
      parsed none h = absurd (cc)
      parsed (some e) h = (e, refl, h)

  pub apply_numbered-ok :
      (verify : Bool) (seq : ℕ) (s : State) (e : Event) (s' : State)
      → apply_numbered sha256_hex sorter now verify seq s e ≡ ok s'
      → ((apply sha256_hex sorter (now seq) s e).1 ≡ ok tt)
        × (s' ≡ record ((apply sha256_hex sorter (now seq) s e).0) { latest_seq = seq })
        × ((verify && hash_is_wrong sha256_hex sorter now s' e) ≡ false)
  unfolding apply_numbered
  apply_numbered-ok verify seq s e s' h =
      done (apply sha256_hex sorter (now seq) s e).1 refl
        (record ((apply sha256_hex sorter (now seq) s e).0) { latest_seq = seq }) refl h
    where
      done :
          (outcome : Result ApplyError (Unit {0}))
          → (apply sha256_hex sorter (now seq) s e).1 ≡ outcome
          → (t : State)
          → record ((apply sha256_hex sorter (now seq) s e).0) { latest_seq = seq } ≡ t
          → elim outcome as (λ _. Result ReplayError State) [
            | err x ↦ err (apply_failed x)
            | ok _ ↦
                (fail_if (verify && hash_is_wrong sha256_hex sorter now t e) hash_mismatch >> ok t)
          ]
            ≡ ok s'
          → ((apply sha256_hex sorter (now seq) s e).1 ≡ ok tt)
            × (s' ≡ record ((apply sha256_hex sorter (now seq) s e).0) { latest_seq = seq })
            × ((verify && hash_is_wrong sha256_hex sorter now s' e) ≡ false)
      done (err x) out t same h = absurd (cc)
      done (ok _) out t same h =
          let (good, e') =
            fail_if-eq_ok (verify && hash_is_wrong sha256_hex sorter now t e) hash_mismatch (ok t)
              s' h in
          let eq = eq_of_ok-eq t s' e' in
          (
            out,
            sym eq ∙ sym same,
            subst (λ u. (verify && hash_is_wrong sha256_hex sorter now u e) ≡ false) eq good,
          )

  -- The last sequence number of a ledger of `n` events that begins after `last`.
  from-numbered :
      (verify : Bool) (last : ℕ) (events : List (ℕ × Option Event)) (s s' : State)
      → s.latest_seq ≡ last
      → replay_from sha256_hex sorter now verify (suc last) events s ≡ ok s'
      → IsNumberedFrom (suc last) events × (s'.latest_seq ≡ last + length events)
  unfolding replay_from
  from-numbered verify last [] s s' l h =
      (tt, omega (arith, l, ap (λ (t : State). t.latest_seq) (eq_of_ok-eq s s' h)))
  from-numbered verify last ((seq, event) ∷ events) s s' l h =
      let (mid, one, rest) =
        bind-eq_ok (replay_one sha256_hex sorter now verify (suc last) s seq event) _ s' h in
      let (numbered, (e, _, applied)) = replay_one-ok verify (suc last) s seq event mid one in
      let (_, made, _) = apply_numbered-ok verify seq s e mid applied in
      let (later, end) =
        from-numbered verify (suc last) events mid s'
          (ap (λ (t : State). t.latest_seq) made ∙ numbered) rest in
      ((numbered, later), omega (arith, end))

  -- A replay, verifying or not, that succeeds has read events that are numbered from 1 without a gap,
  -- and its state's `LatestSeq` is their number.
  pub replay_internal-numbered :
      (verify : Bool) (heap : Heap) (events : List (ℕ × Option Event)) (s : State)
      → replay_internal sha256_hex sorter now verify heap events ≡ ok s
      → IsNumberedFrom 1 events × (s.latest_seq ≡ length events)
  unfolding replay_internal new_state
  replay_internal-numbered verify heap events s h =
      let (numbered, last) = from-numbered verify 0 events (new_state heap) s refl h in
      (numbered, omega (arith, last))
