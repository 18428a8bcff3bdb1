-- ===== src/Lock.antt =====
-- internal/lock/lock.go and manager.go: the locks that agents hold on nodes, and the manager that hands
-- them out. A `*ClaimLock` is a pointer into `heap`, since a lock that was handed out is shared with the
-- manager's map; the mutexes make each operation one step. An instant is a number of nanoseconds, and
-- each reading of the clock is an argument.
pub mod Exclusion
pub mod Entries
pub mod Kept
use vibefeld.Prelude.{
  ℕ, zero, suc, ◌+◌, ◌*◌, ◌≡◌, Bool, true, false, not, ◌||◌, Option, none, some, List, [], ◌∷◌,
  Text, text_eq, ltb, ◌==◌, if◌then◌else◌, Map, lookup, insert, delete, eq_text, Result, ok, err,
  fail_if, ◌>>=◌, ◌>>◌,
}
use vibefeld.Text.{ℤ, pos, negsuc, is_blank}
use vibefeld.Types.NodeId.{NodeId, to_string}
use vibefeld.Node.{Timestamp}

-- `ClockSkewTolerance`, 5 seconds
abbrev pub clock_skew_tolerance : ℕ
clock_skew_tolerance = 5000000000

pub record ClaimLock : Type 0 where
  pub node_id : NodeId
  pub owner : Text
  pub acquired_at : Timestamp
  pub expires_at : Timestamp
  pub released : Bool

pub data LockError : Type 0 where
  empty_node_id bad_owner bad_timeout already_locked not_locked other_owner is_gone : LockError

-- A positive duration, or none.
abbrev pub positive : ℤ → Option ℕ
positive (pos zero) = none
positive (pos (suc n)) = some (suc n)
positive (negsuc n) = none

-- `NewClaimLock`
unfoldable pub new_claim_lock : Timestamp → NodeId → Text → ℤ → Result LockError ClaimLock
new_claim_lock now node_id owner timeout = do
  fail_if (text_eq (to_string node_id) []) empty_node_id
  fail_if (text_eq owner [] || is_blank owner) bad_owner
  elim (positive timeout) [
    | none ↦ err bad_timeout
    | some d ↦ ok (record {
      node_id = node_id;
      owner = owner;
      acquired_at = now;
      expires_at = now + d;
      released = false;
    })
  ]

-- `IsExpired`
unfoldable pub is_expired : Timestamp → ClaimLock → Bool
is_expired now l = if l.released then true else ltb (l.expires_at + clock_skew_tolerance) now

-- `IsOwnedBy`
abbrev pub is_owned_by : Text → ClaimLock → Bool
is_owned_by owner l = text_eq l.owner owner

-- `MarkReleased`
abbrev pub mark_released : ClaimLock → ClaimLock
mark_released l = record l { released = true }

-- `Refresh`
unfoldable pub refresh : Timestamp → ℤ → ClaimLock → Result LockError ClaimLock
refresh now timeout l = elim (positive timeout) [
  | none ↦ err bad_timeout
  | some d ↦ (if l.released then err is_gone else ok (record l { expires_at = now + d }))
]

-- `Manager`, with the locks that were ever handed out.
pub record Manager : Type 0 where
  pub heap : ℕ → ClaimLock
  pub fresh : ℕ
  pub locks : Map Text ℕ

unfoldable pub store : (ℕ → ClaimLock) → ℕ → ClaimLock → ℕ → ClaimLock
store h p l q = if q == p then l else h q

-- `m.locks[key]` holds a lock that is not expired.
unfoldable pub is_locked : Timestamp → NodeId → Manager → Bool
unfolding is_expired
is_locked now node_id m = elim (lookup m.locks (to_string node_id)) [
  | none ↦ false
  | some p ↦ not (is_expired now (m.heap p))
]

-- `Acquire`, which reads the clock for the new lock and once more for the one that is there.
unfoldable pub acquire :
    Timestamp → Timestamp → NodeId → Text → ℤ → Manager → Result LockError (Manager × ℕ)
unfolding new_claim_lock is_locked store
acquire now later node_id owner timeout m = do
  lk ← new_claim_lock now node_id owner timeout
  fail_if (is_locked later node_id m) already_locked
  ok (
    record m {
      heap = store m.heap m.fresh lk;
      fresh = suc m.fresh;
      locks = insert m.locks (to_string node_id) m.fresh;
    },
    m.fresh,
  )

-- `Release`
unfoldable pub release : NodeId → Text → Manager → Result LockError Manager
unfolding store
release node_id owner m = do
  fail_if (text_eq owner []) bad_owner
  elim (lookup m.locks (to_string node_id)) [
    | none ↦ err not_locked
    | some p ↦ (do
      fail_if (not (is_owned_by owner (m.heap p))) other_owner
      ok (record m {
        heap = store m.heap p (mark_released (m.heap p));
        locks = delete m.locks (to_string node_id);
      }))
  ]

-- `Info`
unfoldable pub info : Timestamp → NodeId → Manager → Option ℕ
unfolding is_expired
info now node_id m = elim (lookup m.locks (to_string node_id)) [
  | none ↦ none
  | some p ↦ (if is_expired now (m.heap p) then none else some p)
]

-- The loop of `ReapExpired`: the locks that stay and those that are reaped. `clock` gives the reading
-- of the clock when the loop looks at the lock of a pointer.
unfoldable pub reap : (ℕ → Timestamp) → (ℕ → ClaimLock) → Map Text ℕ → Map Text ℕ × List ℕ
unfolding is_expired
reap clock h [] = ([], [])
reap clock h ((k, p) ∷ ls) =
    let (kept, reaped) = reap clock h ls in
    if is_expired (clock p) (h p) then (kept, p ∷ reaped) else ((k, p) ∷ kept, reaped)

-- `ReapExpired`
unfoldable pub reap_expired : (ℕ → Timestamp) → Manager → Manager × List ℕ
unfolding reap
reap_expired clock m =
    let (kept, reaped) = reap clock m.heap m.locks in (record m { locks = kept }, reaped)

-- The loop of `ListAll`, with the readings of the clock as above.
unfoldable pub list_unexpired : (ℕ → Timestamp) → (ℕ → ClaimLock) → Map Text ℕ → List ℕ
unfolding is_expired
list_unexpired clock h [] = []
list_unexpired clock h ((k, p) ∷ ls) =
    let rest = list_unexpired clock h ls in
    if not (is_expired (clock p) (h p)) then p ∷ rest else rest

-- `ListAll`
unfoldable pub list_all : (ℕ → Timestamp) → Manager → List ℕ
unfolding list_unexpired
list_all clock m = list_unexpired clock m.heap m.locks
