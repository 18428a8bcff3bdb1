-- ===== src/Lock/Exclusion.antt =====
-- Who can hold a lock, and when (internal/lock/manager.go).
use vibefeld.Prelude.{
  ℕ, suc, ◌+◌, ◌≤◌, ◌≡◌, ◌≢◌, refl, sym, ◌∙◌, ap, true, false, not, ◌||◌, some, [], arith, Text,
  text_eq, text_eq_iff, ==_iff, lookup, insert, delete, lookup-delete, eq_text, ok, Option-cases,
  inl, inr, fail_if-eq_ok, bind-eq_ok, eq_of_ok-eq,
}
use vibefeld.Text.{ℤ, pos, is_blank}
use vibefeld.Types.NodeId.{NodeId, to_string}
use vibefeld.Node.{Timestamp}
use vibefeld.Lock.{
  ClaimLock, Manager, clock_skew_tolerance, new_claim_lock, is_expired, is_owned_by, mark_released,
  store, is_locked, acquire, release, empty_node_id, bad_owner, already_locked, other_owner,
}

-- What `NewClaimLock` returns.
pub new_claim_lock-made :
    (now : Timestamp) (id : NodeId) (owner : Text) (d : ℕ) (lk : ClaimLock)
    → new_claim_lock now id owner (pos (suc d)) ≡ ok lk
    → (lk.owner ≡ owner) × (lk.expires_at ≡ now + suc d) × (lk.released ≡ false)
unfolding new_claim_lock
new_claim_lock-made now id owner d lk h =
    let (_, h1) = fail_if-eq_ok (text_eq (to_string id) []) empty_node_id _ lk h in
    let (_, h2) = fail_if-eq_ok (text_eq owner [] || is_blank owner) bad_owner _ lk h1 in
    let made = eq_of_ok-eq _ lk h2 in
    (
      sym (ap (λ (l : ClaimLock). l.owner) made),
      sym (ap (λ (l : ClaimLock). l.expires_at) made),
      sym (ap (λ (l : ClaimLock). l.released) made),
    )

pub not_expired :
    (t : Timestamp) (l : ClaimLock)
    → l.released ≡ false
    → t ≤ l.expires_at + clock_skew_tolerance
    → is_expired t l ≡ false
unfolding is_expired
not_expired t l r le = rw r (ground arith)

abbrev pub with_lock : Manager → NodeId → ClaimLock → Manager
with_lock m id lk = record m {
  heap = store m.heap m.fresh lk;
  fresh = suc m.fresh;
  locks = insert m.locks (to_string id) m.fresh;
}

-- What `Acquire` leaves where it succeeds.
pub acquire-made :
    (now later : Timestamp) (id : NodeId) (owner : Text) (timeout : ℤ) (m m' : Manager) (p : ℕ)
    → acquire now later id owner timeout m ≡ ok (m', p)
    → (lk : ClaimLock) × (new_claim_lock now id owner timeout ≡ ok lk)
      × (is_locked later id m ≡ false)
      × ◌≡◌ {A = Manager × ℕ} (with_lock m id lk, m.fresh) (m', p)
unfolding acquire
acquire-made now later id owner timeout m m' p acquired =
    let (lk, made, h1) = bind-eq_ok (new_claim_lock now id owner timeout) _ (m', p) acquired in
    let (free, h2) = fail_if-eq_ok (is_locked later id m) already_locked _ (m', p) h1 in
    (lk, made, free, eq_of_ok-eq _ (m', p) h2)

pub is_locked-acquire :
    (t0 t : Timestamp) (id : NodeId) (owner : Text) (timeout : ℤ) (m : Manager) (r : Manager × ℕ)
    → is_locked t id m ≡ true
    → acquire t0 t id owner timeout m ≢ ok r
is_locked-acquire t0 t id owner timeout m (m', p) held h =
    let (_, _, free, _) = acquire-made t0 t id owner timeout m m' p h in cc (held, free)

-- What a release leaves.
abbrev pub without : Manager → NodeId → ℕ → Manager
without m id p = record m {
  heap = store m.heap p (mark_released (m.heap p));
  locks = delete m.locks (to_string id);
}

delete-is_locked :
    (t : Timestamp) (m : Manager) (id : NodeId) (h : ℕ → ClaimLock)
    → is_locked t id (record m { heap = h; locks = delete m.locks (to_string id) }) ≡ false
unfolding is_locked
delete-is_locked t m id h =
    rw (lookup-delete m.locks (to_string id) (to_string id), is_locked)
      (rw ((text_eq_iff (to_string id) (to_string id)).1 refl) refl)

store_released :
    (m : Manager) (p : ℕ) → (store m.heap p (mark_released (m.heap p)) p).released ≡ true
unfolding store
store_released m p = rw ((==_iff p p).1 refl, store) refl

-- What a release that succeeds was given and leaves.
pub release-made :
    (id : NodeId) (owner : Text) (m m' : Manager)
    → release id owner m ≡ ok m'
    → (p : ℕ) × (lookup m.locks (to_string id) ≡ some p)
      × ((m.heap p).owner ≡ owner)
      × (without m id p ≡ m')
unfolding release
release-made id owner m m' h =
    let (_, h1) = fail_if-eq_ok (text_eq owner []) bad_owner _ m' h in
    elim (Option-cases (lookup m.locks (to_string id))) [
      | inl missing ↦ absurd (cc (rw (missing, release) at h1))
      | inr (p, found) ↦
          let (mine, h2) =
            fail_if-eq_ok (not (is_owned_by owner (m.heap p))) other_owner _ m'
              (rw (found, release) at h1) in
          let is_mine = (text_eq_iff (m.heap p).owner owner).0 (ground (arith, mine)) in
          (p, found, is_mine, eq_of_ok-eq _ m' h2)
    ]

-- A release that succeeds is the owner's: the manager held a lock of the caller for the node, whoever
-- still points to the lock sees it released, and the manager that it leaves says at every time that the
-- node is not locked.
pub release-is_locked :
    (id : NodeId) (owner : Text) (m m' : Manager) (t : Timestamp)
    → release id owner m ≡ ok m'
    → (p : ℕ) × (lookup m.locks (to_string id) ≡ some p)
      × ((m.heap p).owner ≡ owner)
      × ((m'.heap p).released ≡ true)
      × (is_locked t id m' ≡ false)
release-is_locked id owner m m' t h =
    let (p, found, mine, left) = release-made id owner m m' h in
    (
      p,
      found,
      mine,
      sym (ap (λ (x : Manager). (x.heap p).released) left) ∙ store_released m p,
      sym (ap (is_locked t id) left)
          ∙ delete-is_locked t m id (store m.heap p (mark_released (m.heap p))),
    )
