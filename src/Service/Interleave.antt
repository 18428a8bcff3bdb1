-- ===== src/Service/Interleave.antt =====
-- The agents' steps refine atomic events (internal/service/proof.go): whatever their order, the ledger
-- is what a sequence of events gives each of which fits the state that it acts on.
use vibefeld.Prelude.{
  ℕ, suc, ◌≤◌, ◌≡◌, refl, sym, ◌∙◌, ap, subst, ◌⊎◌, inl, inr, false, none, some, [], ◌∷◌, ◌++◌,
  Text, ◌==◌, length, length-append, Result, ok, err, Bool-cases, Result-cases, eq_of_some-eq,
  arith,
}
use vibefeld.Node.{Timestamp}
use vibefeld.Taint.{Heap, Sorter}
use vibefeld.Ledger.Event.{Event}
use vibefeld.Ledger.Store.{
  Ledger, Fault, LedgerError, io_error, sequence_mismatch, append_if_sequence,
}
use vibefeld.Ledger.Numbered.{IsNumberedFrom, append_if_sequence-cases}
use vibefeld.State.{State}
use vibefeld.State.Replay.{replay}
use vibefeld.State.Replay.Sequence.{replay_internal-numbered}
use vibefeld.Service.{Planned, Configured}
use vibefeld.Service.Commit.{Files, load_state, commit, wrap_sequence_mismatch}
use vibefeld.Service.Valid.{Fits}
use vibefeld.Service.Plans.{IsSound}
use vibefeld.Service.World.{
  Operation, Plans, World, set_plan, plan, Step, look, finish, Reach, here, next,
}
use vibefeld.Service.Safe.{
  IsError, plan-IsError, plan-IsSound, load_state-SameNodes, append-Replays, Replays, after,
}

wrapped : {A : Type 0} (r : Ledger × Result LedgerError A) → (wrap_sequence_mismatch r).0 ≡ r.0
wrapped (l, ok a) = refl
wrapped (l, err sequence_mismatch) = refl
wrapped (l, err (io_error e)) = refl

-- An operation's end leaves the ledger alone, or appends its event if the ledger's length is the number
-- that it expects.
commit-cases :
    (fault : Fault) (ledger : Ledger) (planned : Planned Event)
    → IsNumberedFrom 1 ledger
    → ((commit fault ledger planned).0 ≡ ledger)
      ⊎ ((e : Event) × (planned ≡ ok (e, length ledger))
          × ((commit fault ledger planned).0 ≡ ledger ++ (suc (length ledger), some e) ∷ []))
unfolding commit
commit-cases fault ledger (err x) numbered = inl refl
commit-cases fault ledger (ok (e, expected)) numbered =
    let out = wrapped (append_if_sequence fault ledger e expected) in
    elim (append_if_sequence-cases ledger numbered fault e expected) [
      | inl (x, failed) ↦ inl (out ∙ ap (λ (r : Ledger × Result LedgerError ℕ). r.0) failed)
      | inr (same, done) ↦ inr (
        e,
        (let f : ℕ → Planned Event = λ n. ok (e, n) in ap f same),
        out ∙ ap (λ (r : Ledger × Result LedgerError ℕ). r.0) done,
      )
    ]

module _ (sha256_hex : Text → Text) (cfg : Configured) (sorter : Sorter) (clock : ℕ → Timestamp)
    (heap : Heap) where
  -- What each agent has planned fits the ledger's state, unless the ledger has grown since.
  record IsConsistent (w : World) (s : State) : Type 0 where
    replays : Replays sha256_hex cfg sorter clock heap w.ledger s
    planned :
        (agent : ℕ) (e : Event) (n : ℕ)
        → w.plans agent ≡ some (ok (e, n))
        → (n ≤ length w.ledger) × (n ≡ length w.ledger → Fits cfg s.heap s.nodes e)

  -- A sequence of events, each of which fits the state that it acts on, with its number.
  pub data Run (s : State) : State → Type 0 where
    start : Run s s
    act :
        {t : State} (e : Event)
        → Run s t
        → Fits cfg t.heap t.nodes e
        → Run s (after sha256_hex cfg sorter clock heap t e (suc t.latest_seq))

  numbered :
      (ledger : Ledger) (s : State)
      → Replays sha256_hex cfg sorter clock heap ledger s
      → IsNumberedFrom 1 ledger × (s.latest_seq ≡ length ledger)
  unfolding replay
  numbered ledger s r = replay_internal-numbered sha256_hex sorter clock false heap ledger s r

  planned-Fits :
      (now : Timestamp) (files : Files) (op : Operation) (ledger : Ledger) (s : State) (e : Event)
      (n : ℕ)
      → Replays sha256_hex cfg sorter clock heap ledger s
      → plan sha256_hex cfg now op (load_state sha256_hex sorter clock heap files ledger)
        ≡ ok (e, n)
      → (n ≡ length ledger) × Fits cfg s.heap s.nodes e
  planned-Fits now files op ledger s e n r p =
      elim (Result-cases (load_state sha256_hex sorter clock heap files ledger)) [
        | inl (x, bad) ↦
            let failed = subst (λ l. plan sha256_hex cfg now op l ≡ ok (e, n)) bad p in
            absurd (subst IsError failed (plan-IsError sha256_hex cfg now op x))
        | inr (st, good) ↦
            let made = subst (λ l. plan sha256_hex cfg now op l ≡ ok (e, n)) good p in
            let (fits, seq) = subst (IsSound cfg st) made (plan-IsSound sha256_hex cfg now op st) in
            let (h, m, l) =
              load_state-SameNodes sha256_hex cfg sorter clock heap files ledger s st r good in
            (
              seq ∙ l ∙ (numbered ledger s r).1,
              subst (λ nodes. Fits cfg s.heap nodes e) m
                  (subst (λ h'. Fits cfg h' st.nodes e) h fits),
            )
      ]

  -- The other agents keep their plans.
  cleared :
      (plans : Plans) (agent other : ℕ) (planned : Planned Event)
      → set_plan plans agent none other ≡ some planned
      → plans other ≡ some planned
  cleared plans agent other planned p = elim (Bool-cases (other == agent)) [
    | inl same ↦ let nothing = rw same at p in absurd (cc)
    | inr different ↦ rw different at p
  ]

  -- An event that fits the state of the ledger is appended; no other plan expects its number.
  grown-IsConsistent :
      (w : World) (s : State) (agent : ℕ) (e : Event)
      → IsConsistent w s
      → Fits cfg s.heap s.nodes e
      → IsConsistent
          (record {
            ledger = w.ledger ++ (suc (length w.ledger), some e) ∷ [];
            plans = set_plan w.plans agent none;
          })
          (after sha256_hex cfg sorter clock heap s e (suc (length w.ledger)))
  grown-IsConsistent w s agent e h fits = record {
    replays = append-Replays sha256_hex cfg sorter clock heap w.ledger s e h.replays fits;
    planned = λ other e' n p.
        let old = (h.planned other e' n (cleared w.plans agent other (ok (e', n)) p)).0 in
        let longer = length-append w.ledger ((suc (length w.ledger), some e) ∷ []) in
        (omega arith, λ same. absurd (omega arith));
  }

  -- Each step of an agent stays consistent, and it leaves the state of the ledger as it is or makes
  -- one event happen to it.
  Step-IsConsistent :
      (w v : World) (s : State)
      → Step sha256_hex cfg sorter clock heap w v
      → IsConsistent w s
      → (t : State) × IsConsistent v t × (Run s t)
  Step-IsConsistent w _ s (look agent now files op) h =
      (s, record { replays = h.replays; planned = looked }, start)
    where
      looked :
          (other : ℕ) (e : Event) (n : ℕ)
          → set_plan w.plans agent
              (some (
                plan sha256_hex cfg now op
                  (load_state sha256_hex sorter clock heap files w.ledger)))
              other
            ≡ some (ok (e, n))
          → (n ≤ length w.ledger) × (n ≡ length w.ledger → Fits cfg s.heap s.nodes e)
      looked other e n p = elim (Bool-cases (other == agent)) [
        | inl same ↦
            let (seq, fits) =
              planned-Fits now files op w.ledger s e n h.replays
                (eq_of_some-eq _ _ (rw same at p)) in
            (omega arith, λ _. fits)
        | inr different ↦ h.planned other e n (rw different at p)
      ]
  Step-IsConsistent w _ s (finish agent fault planned p) h =
      let plans = set_plan w.plans agent none in
      elim (commit-cases fault w.ledger planned (numbered w.ledger s h.replays).0) [
        | inl kept ↦ (
          s,
          subst (λ l. IsConsistent (record { ledger = l; plans = plans }) s) (sym kept)
              (record {
                replays = h.replays;
                planned =
                    λ other e n q. h.planned other e n (cleared w.plans agent other (ok (e, n)) q);
              }),
          start,
        )
        | inr (e, same, grown) ↦
            let n = length w.ledger in
            let fits = (h.planned agent e n (p ∙ ap some same)).1 refl in
            let seq = (numbered w.ledger s h.replays).1 in
            (
              after sha256_hex cfg sorter clock heap s e (suc n),
              subst
                  (λ l.
                    IsConsistent (record { ledger = l; plans = plans })
                      (after sha256_hex cfg sorter clock heap s e (suc n)))
                  (sym grown) (grown-IsConsistent w s agent e h fits),
              subst (λ k. Run s (after sha256_hex cfg sorter clock heap s e (suc k))) seq
                  (act e start fits),
            )
      ]

  Run-trans : (s t u : State) → Run s t → Run t u → Run s u
  Run-trans s t _ r start = r
  Run-trans s t _ r (act e q fits) = act e (Run-trans s t _ r q) fits

  Reach-IsConsistent :
      (w v : World) (s : State)
      → Reach sha256_hex cfg sorter clock heap w v
      → IsConsistent w s
      → (t : State) × IsConsistent v t × Run s t
  Reach-IsConsistent w _ s here h = (s, h, start)
  Reach-IsConsistent w u s (next {v} r st) h =
      let (t, ht, rt) = Reach-IsConsistent w v s r h in
      let (t', ht', rt') = Step-IsConsistent v u t st ht in (t', ht', Run-trans s t t' rt rt')

  -- However agents interleave from a ledger that can be replayed, when nothing is planned, each
  -- loading the state and planning an operation, and appending its event later, the ledger that they
  -- reach can be replayed, and its state is what a sequence of events makes of the first one, each of
  -- which fits the state that it acts on.
  pub interleaving-refines :
      (ledger : Ledger) (s : State) (w : World)
      → Replays sha256_hex cfg sorter clock heap ledger s
      → Reach sha256_hex cfg sorter clock heap (record { ledger = ledger; plans = λ _. none }) w
      → (t : State) × Replays sha256_hex cfg sorter clock heap w.ledger t × Run s t
  interleaving-refines ledger s w r reach =
      let (t, h, run) =
        Reach-IsConsistent (record { ledger = ledger; plans = λ _. none }) w s reach
          (record { replays = r; planned = λ agent e n p. absurd (cc) }) in
      (t, h.replays, run)
