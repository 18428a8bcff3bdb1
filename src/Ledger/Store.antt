-- ===== src/Ledger/Store.antt =====
-- internal/ledger/append.go, filename.go and read.go: the event files of a ledger, as their sequence
-- numbers in sorted order with what they hold, `none` where it does not parse. Each call of the file
-- system or of the ledger's lock may fail: `fault` says which error ends the operation, if any.
use vibefeld.Prelude.{
  ℕ, suc, Bool, true, false, not, Option, none, some, List, [], ◌∷◌, ◌++◌, map, ltb, ◌==◌,
  if◌then◌else◌, length, filter, Result, ok, err,
}
use vibefeld.Ledger.Event.{Event}

abbrev pub Ledger : Type 0
Ledger = List (ℕ × Option Event)

pub data IoError : Type 0 where
  lock_failed io_failed : IoError

pub data LedgerError : Type 0 where
  io_error : IoError → LedgerError
  sequence_mismatch : LedgerError

abbrev pub Fault : Type 0
Fault = Option IoError

-- The loop of `NextSequence`.
unfoldable pub max_seq : ℕ → Ledger → ℕ
max_seq max [] = max
max_seq max ((seq, _) ∷ files) = max_seq (if ltb max seq then seq else max) files

-- `NextSequence`
unfoldable pub next_sequence : Ledger → ℕ
unfolding max_seq
next_sequence files = suc (max_seq 0 files)

-- `Count`
abbrev pub count : Ledger → ℕ
count files = length files

-- The loop of `HasGaps`.
unfoldable pub gaps_from : ℕ → Ledger → Bool
gaps_from expected [] = false
gaps_from expected ((seq, _) ∷ files) =
    let rest = gaps_from (suc expected) files in if not (seq == expected) then true else rest

-- `HasGaps`
unfoldable pub has_gaps : Ledger → Bool
unfolding gaps_from
has_gaps files = gaps_from 1 files

-- The file that the rename puts behind the others, or nothing where a call fails.
abbrev write_event : Fault → Ledger → Event → ℕ → Ledger × Result LedgerError ℕ
write_event none files event seq = (files ++ (seq, some event) ∷ [], ok seq)
write_event (some e) files event seq = (files, err (io_error e))

-- `Append`
unfoldable pub append : Fault → Ledger → Event → Ledger × Result LedgerError ℕ
unfolding next_sequence
append fault files event = write_event fault files event (next_sequence files)

-- `AppendIfSequence`; the lock may fail before the comparison, a write after it.
unfoldable pub append_if_sequence : Fault → Ledger → Event → ℕ → Ledger × Result LedgerError ℕ
unfolding next_sequence
append_if_sequence (some lock_failed) files event expected_seq = (files, err (io_error lock_failed))
append_if_sequence fault files event expected_seq =
    let current_seq = next_sequence files in
    if not (max_seq 0 files == expected_seq)
    then (files, err sequence_mismatch)
    else write_event fault files event current_seq

-- The files of a batch.
unfoldable pub number_from : ℕ → List Event → Ledger
number_from seq [] = []
number_from seq (e ∷ es) = (seq, some e) ∷ number_from (suc seq) es

-- What may fail in `AppendBatch`: something before the renames, the rename to the file of a sequence
-- number, and the removal of that file by the rollback.
pub record BatchFault : Type 0 where
  pub early : Fault
  pub rename_fails : ℕ → Bool
  pub remove_fails : ℕ → Bool

-- The loop of renames. Where one fails, the files that were renamed are removed again, and the error of
-- a removal is ignored.
unfoldable pub rename_files : BatchFault → Ledger → Ledger → Ledger → Ledger × Bool
rename_files fault files renamed [] = (files ++ renamed, true)
rename_files fault files renamed ((seq, event) ∷ temps) =
    let rest = rename_files fault files (renamed ++ (seq, event) ∷ []) temps in
    if fault.rename_fails seq
    then (files ++ filter (λ file. fault.remove_fails file.0) renamed, false)
    else rest

abbrev pub write_batch : BatchFault → Ledger → Ledger → Ledger × Result LedgerError (List ℕ)
write_batch fault files temps = elim fault.early [
  | some e ↦ (files, err (io_error e))
  | none ↦
      let (left, done) = rename_files fault files [] temps in
      (left, if done then ok (map (λ file. file.0) temps) else err (io_error io_failed))
]

-- `AppendBatch`
unfoldable pub append_batch :
    BatchFault → Ledger → List Event → Ledger × Result LedgerError (List ℕ)
unfolding next_sequence number_from rename_files
append_batch fault files [] = (files, ok [])
append_batch fault files (e ∷ es) =
    write_batch fault files (number_from (next_sequence files) (e ∷ es))
