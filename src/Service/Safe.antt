-- ===== src/Service/Safe.antt =====
-- However the agents' steps interleave, the ledger can be replayed: AppendIfSequence appends an event
-- only to the ledger that it was planned on (internal/service/proof.go, internal/ledger/append.go).
use vibefeld.Prelude.{
  ℕ, suc, ◌+◌, ◌≡◌, refl, ◌∙◌, ap, subst, Bool, true, false, not, Option, none, some, List, [], ◌∷◌,
  ◌++◌, Text, ==_iff, length, Result, ok, err, fail_if, ◌>>=◌, ◌>>◌, eq_of_ok-eq, arith,
}
use vibefeld.Text.{is_blank}
use vibefeld.Types.NodeId.{depth}
use vibefeld.Node.{Timestamp}
use vibefeld.Taint.{Heap, Sorter}
use vibefeld.Ledger.Event.{Event}
use vibefeld.Ledger.Store.{Ledger}
use vibefeld.State.{State, new_state, add_assumption, add_external}
use vibefeld.State.Apply.{apply}
use vibefeld.State.Replay.{
  ReplayError, replay, replay_internal, replay_from, replay_one, apply_numbered,
}
use vibefeld.State.Replay.Verify.{replay_from-append}
use vibefeld.Service.{
  not_initialized, validate_depth, ServiceError, Load, Planned, Configured, empty_input,
  invalid_timeout, is_positive, claim_node, refresh_claim, release_node,
}
use vibefeld.Service.Decisions.{
  accept_node_with_note, admit_node, refute_node, archive_node, request_refinement, amend_node,
}
use vibefeld.Service.Refine.{is_initialized, create_node, refine}
use vibefeld.Service.Commit.{
  FsError, not_exist, failed, Listing, Files, read_into, load_into, unless_failed, load_state,
  replayed, with_files,
}
use vibefeld.Service.Valid.{Fits, Fits-apply}
use vibefeld.Service.Plans.{
  IsSound, claim_node-IsSound, refresh_claim-IsSound, release_node-IsSound,
  accept_node_with_note-IsSound, admit_node-IsSound, refute_node-IsSound, archive_node-IsSound,
  request_refinement-IsSound, amend_node-IsSound,
}
use vibefeld.Service.Creates.{create_node-IsSound, refine-IsSound}
use vibefeld.Service.World.{
  Operation, create, refine_by, claim, refresh, release_by, accept, admit, refute, archive, reopen,
  amend, plan,
}

abbrev pub IsError : Planned Event → Type 0
IsError (err e) = Unit
IsError (ok p) = ⊥

bind-IsError :
    {A : Type 0} (r : Result ServiceError A) (f : A → Planned Event)
    → ((a : A) → IsError (f a))
    → IsError (r >>= f)
bind-IsError (err e) f h = tt
bind-IsError (ok a) f h = h a

fail_if-IsError :
    (b : Bool) (e : ServiceError) (k : Planned Event) → IsError k → IsError (fail_if b e >> k)
fail_if-IsError true e k h = tt
fail_if-IsError false e k h = h

module _ (sha256_hex : Text → Text) (cfg : Configured) (now : Timestamp) where
  -- No operation plans an event where LoadState fails.
  pub plan-IsError :
      (op : Operation) (e : ServiceError) → IsError (plan sha256_hex cfg now op (err e))
  unfolding plan create_node refine claim_node refresh_claim release_node accept_node_with_note
      admit_node refute_node archive_node request_refinement amend_node
  plan-IsError (create counted id node_type statement inference) e =
      bind-IsError (is_initialized counted) _ λ init.
        fail_if-IsError (not init) not_initialized _
          (bind-IsError (validate_depth cfg (depth id)) _ (λ _. tt))
  plan-IsError (refine_by spec) e =
      bind-IsError (validate_depth cfg (depth spec.child_id)) _ (λ _. tt)
  plan-IsError (claim id owner timeout) e =
      fail_if-IsError (is_blank owner) empty_input _
        (fail_if-IsError (not (is_positive timeout)) invalid_timeout _ tt)
  plan-IsError (refresh id owner timeout) e =
      fail_if-IsError (is_blank owner) empty_input _
        (fail_if-IsError (not (is_positive timeout)) invalid_timeout _ tt)
  plan-IsError (release_by id owner) e = tt
  plan-IsError (accept id note) e = tt
  plan-IsError (admit id) e = tt
  plan-IsError (refute id) e = tt
  plan-IsError (archive id) e = tt
  plan-IsError (reopen id reason requested_by) e = tt
  plan-IsError (amend id owner new_statement) e =
      fail_if-IsError (is_blank owner) empty_input _
        (fail_if-IsError (is_blank new_statement) empty_input _ tt)

  pub plan-IsSound :
      (op : Operation) (st : State) → IsSound cfg st (plan sha256_hex cfg now op (ok st))
  unfolding plan
  plan-IsSound (create counted id node_type statement inference) st =
      create_node-IsSound cfg st sha256_hex now counted id node_type statement inference
  plan-IsSound (refine_by spec) st = refine-IsSound cfg st sha256_hex now spec
  plan-IsSound (claim id owner timeout) st = claim_node-IsSound cfg now id st owner timeout
  plan-IsSound (refresh id owner timeout) st = refresh_claim-IsSound cfg now id st owner timeout
  plan-IsSound (release_by id owner) st = release_node-IsSound cfg now id st owner
  plan-IsSound (accept id note) st = accept_node_with_note-IsSound cfg now id st note
  plan-IsSound (admit id) st = admit_node-IsSound cfg now id st
  plan-IsSound (refute id) st = refute_node-IsSound cfg now id st
  plan-IsSound (archive id) st = archive_node-IsSound cfg now id st
  plan-IsSound (reopen id reason requested_by) st =
      request_refinement-IsSound cfg now id st reason requested_by
  plan-IsSound (amend id owner new_statement) st =
      amend_node-IsSound cfg now id st owner new_statement

-- The nodes and the sequence number are as before.
abbrev pub SameNodes : State → State → Type 0
SameNodes s t = (t.heap ≡ s.heap) × (t.nodes ≡ s.nodes) × (t.latest_seq ≡ s.latest_seq)

module _ {A : Type 0} (add : A → State → State)
    (keeps : (a : A) (s : State) → SameNodes s (add a s)) where
  read-SameNodes :
      (items : List (Result FsError A)) (s : State) → SameNodes s (read_into add items s).0
  unfolding read_into
  read-SameNodes [] s = (refl, refl, refl)
  read-SameNodes (err e ∷ items) s = (refl, refl, refl)
  read-SameNodes (ok a ∷ items) s =
      let (h, n, l) = keeps a s in
      let (h', n', l') = read-SameNodes items (add a s) in (h' ∙ h, n' ∙ n, l' ∙ l)

  loaded-SameNodes : (listing : Listing A) (s : State) → SameNodes s (load_into add listing s).0
  unfolding load_into
  loaded-SameNodes (err e) s = (refl, refl, refl)
  loaded-SameNodes (ok items) s = read-SameNodes items s

unless_failed-ok :
    (r : State × Option FsError) (k : State → Load) (st : State)
    → unless_failed r k ≡ ok st
    → k r.0 ≡ ok st
unless_failed-ok (s, none) k st e = e
unless_failed-ok (s, some not_exist) k st e = e
unless_failed-ok (s, some failed) k st e = absurd (cc)

module _ (sha256_hex : Text → Text) (cfg : Configured) (sorter : Sorter) (clock : ℕ → Timestamp)
    (heap : Heap) where
  abbrev pub Replays : Ledger → State → Type 0
  Replays ledger s = replay sha256_hex sorter clock heap ledger ≡ ok s

  -- The state that LoadState gives has the nodes that the replay gives.
  pub load_state-SameNodes :
      (files : Files) (ledger : Ledger) (s st : State)
      → Replays ledger s
      → load_state sha256_hex sorter clock heap files ledger ≡ ok st
      → SameNodes s st
  unfolding load_state
  load_state-SameNodes files ledger s st r e =
      let (s', none_or) = load_into add_assumption files.assumptions s in
      let same : replayed sha256_hex sorter clock heap ledger ≡ ok s = rw (r, replayed) in
      let loaded = subst (λ l. with_files sha256_hex sorter clock heap files l ≡ ok st) same e in
      let first = unless_failed-ok (load_into add_assumption files.assumptions s) _ st loaded in
      let second = unless_failed-ok (load_into add_external files.externals s') _ st first in
      let (h, n, l) =
        loaded-SameNodes add_assumption (λ a t. (refl, refl, refl)) files.assumptions s in
      let (h', n', l') =
        loaded-SameNodes add_external (λ a t. (refl, refl, refl)) files.externals s' in
      subst (SameNodes s) (eq_of_ok-eq _ st second) (h' ∙ h, n' ∙ n, l' ∙ l)

  -- The state after an event, with its number.
  abbrev pub after : State → Event → ℕ → State
  after s e seq = record ((apply sha256_hex sorter (clock seq) s e).0) { latest_seq = seq }

  one_event :
      (seq : ℕ) (s : State) (e : Event)
      → Fits cfg s.heap s.nodes e
      → replay_from sha256_hex sorter clock false seq ((seq, some e) ∷ []) s ≡ ok (after s e seq)
  unfolding replay_from replay_one apply_numbered
  one_event seq s e fits =
      let same = (==_iff seq seq).1 refl in
      let applied = Fits-apply cfg sha256_hex sorter (clock seq) s e fits in
      rw (same, replay_from, replay_one) (rw (applied, apply_numbered) refl)

  -- A ledger with an event that fits behind it replays to the state after the event.
  pub append-Replays :
      (ledger : Ledger) (s : State) (e : Event)
      → Replays ledger s
      → Fits cfg s.heap s.nodes e
      → Replays (ledger ++ (suc (length ledger), some e) ∷ []) (after s e (suc (length ledger)))
  unfolding replay replay_internal
  append-Replays ledger s e r fits =
      let n = length ledger in
      let seq : 1 + n ≡ suc n = omega arith in
      replay_from-append sha256_hex sorter clock false 1 ledger ((suc n, some e) ∷ [])
        (new_state heap)
      ∙ ap
          (λ (x : Result ReplayError State).
            x >>= λ s'. replay_from sha256_hex sorter clock false (1 + n) ((suc n, some e) ∷ []) s')
          r
      ∙ ap (λ k. replay_from sha256_hex sorter clock false k ((suc n, some e) ∷ []) s) seq
      ∙ one_event (suc n) s e fits
