-- ===== src/Service/Commit.antt =====
-- internal/service/proof.go: LoadState, and how an operation appends its events: AppendIfSequence
-- with wrapSequenceMismatch, and appendBulkIfSequence.
use vibefeld.Prelude.{ℕ, suc, Option, none, some, List, [], ◌∷◌, Text, Result, ok, err}
use vibefeld.Node.{Timestamp}
use vibefeld.Taint.{Heap, Sorter}
use vibefeld.Ledger.Event.{Event}
use vibefeld.Ledger.Store.{
  Ledger, LedgerError, io_error, sequence_mismatch, Fault, append, append_if_sequence,
}
use vibefeld.State.{State, Assumption, External, add_assumption, add_external}
use vibefeld.State.Replay.{replay}
use vibefeld.Service.{
  ServiceError, Load, Planned, load_failed, concurrent_modification, ledger_failed,
}

pub data FsError : Type 0 where
  not_exist failed : FsError

-- What listing a directory and reading its files gives.
abbrev pub Listing : Type 0 → Type 0
Listing A = Result FsError (List (Result FsError A))

pub record Files : Type 0 where
  pub assumptions : Listing Assumption
  pub externals : Listing External

-- The loop that reads the listed files into the state, up to the first error.
unfoldable pub read_into :
    {A : Type 0} → (A → State → State) → List (Result FsError A) → State → State × Option FsError
read_into add [] st = (st, none)
read_into add (err e ∷ items) st = (st, some e)
read_into add (ok a ∷ items) st = read_into add items (add a st)

-- `loadAssumptionsIntoState` and `loadExternalsIntoState`
unfoldable pub load_into :
    {A : Type 0} → (A → State → State) → Listing A → State → State × Option FsError
unfolding read_into
load_into add (err e) st = (st, some e)
load_into add (ok items) st = read_into add items st

-- An error other than that a file or directory is missing ends `LoadState`.
abbrev pub unless_failed : State × Option FsError → (State → Load) → Load
unless_failed (st, none) k = k st
unless_failed (st, some not_exist) k = k st
unless_failed (st, some failed) k = err load_failed

module _ (sha256_hex : Text → Text) (sorter : Sorter) (clock : ℕ → Timestamp) (heap : Heap) where
  abbrev pub replayed : Ledger → Load
  replayed ledger = elim (replay sha256_hex sorter clock heap ledger) [
    | err _ ↦ err load_failed
    | ok st ↦ ok st
  ]

  -- What `LoadState` adds to the state of the replay.
  abbrev pub with_files : Files → Load → Load
  with_files files (err e) = err e
  with_files files (ok st) =
      unless_failed (load_into add_assumption files.assumptions st)
        λ st'. unless_failed (load_into add_external files.externals st') λ st''. ok st''

  -- `LoadState`
  unfoldable pub load_state : Files → Ledger → Load
  unfolding load_into
  load_state files ledger = with_files files (replayed ledger)

-- `wrapSequenceMismatch`
abbrev pub wrap_sequence_mismatch :
    {A : Type 0} → Ledger × Result LedgerError A → Ledger × Result ServiceError A
wrap_sequence_mismatch (ledger, ok a) = (ledger, ok a)
wrap_sequence_mismatch (ledger, err sequence_mismatch) = (ledger, err concurrent_modification)
wrap_sequence_mismatch (ledger, err (io_error e)) = (ledger, err ledger_failed)

-- The end of an operation that appends one event.
unfoldable pub commit : Fault → Ledger → Planned Event → Ledger × Result ServiceError ℕ
commit fault ledger (err e) = (ledger, err e)
commit fault ledger (ok (event, expected_seq)) =
    wrap_sequence_mismatch (append_if_sequence fault ledger event expected_seq)

-- What follows an append that may have failed.
abbrev and_then {ℓ κ} :
    {A : Type ℓ} {B : Type κ}
    → Ledger × Result LedgerError A
    → (Ledger → A → Ledger × Result LedgerError B)
    → Ledger × Result LedgerError B
and_then (ledger, err e) k = (ledger, err e)
and_then (ledger, ok a) k = k ledger a

-- The loop of `appendBulkIfSequence` over the events behind the first: it stops at the first error and
-- leaves what it has appended.
unfoldable pub append_rest :
    (ℕ → Fault) → ℕ → Ledger → List Event → Ledger × Result LedgerError (List ℕ)
append_rest faults i ledger [] = (ledger, ok [])
append_rest faults i ledger (e ∷ es) = and_then (append (faults i) ledger e) λ ledger' seq.
    and_then (append_rest faults (suc i) ledger' es) λ ledger'' seqs. (ledger'', ok (seq ∷ seqs))

-- `appendBulkIfSequence`
unfoldable pub append_bulk_if_sequence :
    (ℕ → Fault) → Ledger → List Event → ℕ → Ledger × Result LedgerError (List ℕ)
unfolding append_rest
append_bulk_if_sequence faults ledger [] expected_seq = (ledger, ok [])
append_bulk_if_sequence faults ledger (e ∷ es) expected_seq =
    and_then (append_if_sequence (faults 0) ledger e expected_seq) λ ledger' seq.
      and_then (append_rest faults 1 ledger' es) λ ledger'' seqs. (ledger'', ok (seq ∷ seqs))

-- The end of an operation that appends several events.
unfoldable pub commit_bulk :
    (ℕ → Fault) → Ledger → Planned (List Event) → Ledger × Result ServiceError (List ℕ)
unfolding append_bulk_if_sequence
commit_bulk faults ledger (err e) = (ledger, err e)
commit_bulk faults ledger (ok (events, expected_seq)) =
    wrap_sequence_mismatch (append_bulk_if_sequence faults ledger events expected_seq)
