-- ===== src/Lock/Kept.antt =====
-- How long a lock keeps a node, whatever else is done with the manager (internal/lock/manager.go).
use mathlib.Core.List.{Memᴰ}
use vibefeld.Prelude.{
  ℕ, suc, ◌+◌, ◌≤◌, ◌<◌, ◌≡◌, ◌≢◌, refl, sym, ◌∙◌, ap, subst, true, false, some, arith, Text,
  text_eq, text_eq_iff, ◌==◌, ==_iff, lookup, lookup-insert, lookup-delete, eq_text, ok, Bool-cases,
  inl, inr, eq_of_some-eq,
}
use vibefeld.Text.{ℤ, pos}
use vibefeld.Types.NodeId.{NodeId, to_string}
use vibefeld.Node.{Timestamp}
use vibefeld.Lock.{
  ClaimLock, Manager, clock_skew_tolerance, is_expired, mark_released, store, is_locked, acquire,
  release, refresh, reap_expired,
}
use vibefeld.Lock.Exclusion.{
  with_lock, without, new_claim_lock-made, not_expired, acquire-made, is_locked-acquire,
  release-made,
}
use vibefeld.Lock.Entries.{lookup-found, mem-insert, mem-delete, mem-reap, lookup-reap}

-- Every lock of the manager was handed out.
abbrev pub IsAllocated : Manager → Type 0
IsAllocated m = (k : Text) (q : ℕ) → Memᴰ (k, q) m.locks → q < m.fresh

-- A step by whoever does not give the lock at `p` back and does not refresh it, the clock reading
-- `limit` at most. An operation that fails, and one that reads, leaves the manager as it is.
pub data OtherUse (limit : Timestamp) (id : NodeId) (owner : Text) (p : ℕ)
    : Manager → Manager → Type 0 where
  acquires :
      {m m' : Manager} (now later : Timestamp) (j : NodeId) (who : Text) (timeout : ℤ) (q : ℕ)
      → later ≤ limit
      → acquire now later j who timeout m ≡ ok (m', q)
      → OtherUse limit id owner p m m'
  releases :
      {m m' : Manager} (j : NodeId) (who : Text)
      → ¬ ((to_string j ≡ to_string id) × (who ≡ owner))
      → release j who m ≡ ok m'
      → OtherUse limit id owner p m m'
  reaps :
      {m : Manager} (clock : ℕ → Timestamp)
      → ((q : ℕ) → clock q ≤ limit)
      → OtherUse limit id owner p m (reap_expired clock m).0
  refreshes :
      {m : Manager} (now : Timestamp) (timeout : ℤ) (q : ℕ) (lk : ClaimLock)
      → q ≢ p
      → refresh now timeout (m.heap q) ≡ ok lk
      → OtherUse limit id owner p m (record m { heap = store m.heap q lk })

pub data OtherUses (limit : Timestamp) (id : NodeId) (owner : Text) (p : ℕ)
    : Manager → Manager → Type 0 where
  none_more : {m : Manager} → OtherUses limit id owner p m m
  one_more :
      {m m' m'' : Manager}
      → OtherUse limit id owner p m m'
      → OtherUses limit id owner p m' m''
      → OtherUses limit id owner p m m''

-- No use of a manager puts a lock into its map that was not handed out.
pub use-IsAllocated :
    (limit : Timestamp) (id : NodeId) (owner : Text) (p : ℕ) (m m' : Manager)
    → OtherUse limit id owner p m m'
    → IsAllocated m
    → IsAllocated m'
unfolding reap_expired
use-IsAllocated limit id owner p m m' (OtherUse.acquires now later j who timeout q le done) h =
    let (new, _, _, left) = acquire-made now later j who timeout m m' q done in
    subst (λ (r : Manager × ℕ). IsAllocated r.0) left
      (λ k r here. elim (mem-insert m.locks (to_string j) m.fresh (k, r) here) [
        | inl old ↦ let below = h k r old in omega (arith, below)
        | inr (_, new_one) ↦ omega (arith, new_one)
      ])
use-IsAllocated limit id owner p m m' (OtherUse.releases j who others done) h =
    let (q, _, _, left) = release-made j who m m' done in
    subst IsAllocated left (λ k r here. h k r (mem-delete m.locks (to_string j) (k, r) here))
use-IsAllocated limit id owner p m _ (OtherUse.reaps clock le) h =
    λ k r here. h k r (mem-reap clock m.heap m.locks (k, r) here)
use-IsAllocated limit id owner p m _ (OtherUse.refreshes now timeout q new other done) h = h

store-same : (h : ℕ → ClaimLock) (q p : ℕ) (lk : ClaimLock) → q ≢ p → store h q lk p ≡ h p
unfolding store
store-same h q p lk other = elim (Bool-cases (p == q)) [
  | inl same ↦ absurd (other (sym ((==_iff p q).0 same)))
  | inr differs ↦ rw (differs, store) refl
]

is_locked-there :
    (t : Timestamp) (j : NodeId) (m : Manager) (p : ℕ)
    → lookup m.locks (to_string j) ≡ some p
    → is_expired t (m.heap p) ≡ false
    → is_locked t j m ≡ true
unfolding is_locked
is_locked-there t j m p there fresh = rw (there, is_locked) (rw (fresh, is_locked) refl)

module _ (limit : Timestamp) (id : NodeId) (owner : Text) (p : ℕ) (lk : ClaimLock)
    (mine : lk.owner ≡ owner) (unreleased : lk.released ≡ false)
    (within : limit ≤ lk.expires_at + clock_skew_tolerance) where
  -- The manager holds the lock for the node and for nothing else.
  record Holds (m : Manager) : Type 0 where
    there : lookup m.locks (to_string id) ≡ some p
    lock : m.heap p ≡ lk
    allocated : p < m.fresh
    only : (k : Text) → Memᴰ (k, p) m.locks → k ≡ to_string id

  unexpired : (m : Manager) (t : Timestamp) → Holds m → t ≤ limit → is_expired t (m.heap p) ≡ false
  unexpired m t h le =
      subst (λ l. is_expired t l ≡ false) (sym h.lock)
        (not_expired t lk unreleased (omega (arith, within)))

  with_lock-Holds :
      (m : Manager) (j : NodeId) (new : ClaimLock)
      → Holds m
      → text_eq (to_string j) (to_string id) ≡ false
      → Holds (with_lock m j new)
  with_lock-Holds m j new h differs = record {
    there = lookup-insert m.locks (to_string j) m.fresh (to_string id) ∙ rw differs h.there;
    lock = store-same m.heap m.fresh p new (λ e. omega (arith, e, h.allocated)) ∙ h.lock;
    allocated = omega (arith, h.allocated);
    only = λ k here. elim (mem-insert m.locks (to_string j) m.fresh (k, p) here) [
      | inl old ↦ h.only k old
      | inr (_, new_one) ↦ absurd (omega (arith, new_one, h.allocated))
    ];
  }

  without-Holds :
      (m : Manager) (j : NodeId) (q : ℕ)
      → Holds m
      → text_eq (to_string j) (to_string id) ≡ false
      → q ≢ p
      → Holds (without m j q)
  without-Holds m j q h differs other = record {
    there = lookup-delete m.locks (to_string j) (to_string id) ∙ rw differs h.there;
    lock = store-same m.heap q p (mark_released (m.heap q)) other ∙ h.lock;
    allocated = h.allocated;
    only = λ k here. h.only k (mem-delete m.locks (to_string j) (k, p) here);
  }

  use-Holds : (m m' : Manager) → OtherUse limit id owner p m m' → Holds m → Holds m'
  unfolding reap_expired
  use-Holds m m' (OtherUse.acquires now later j who timeout q le done) h =
      let (new, _, free, left) = acquire-made now later j who timeout m m' q done in
      elim (Bool-cases (text_eq (to_string j) (to_string id))) [
        | inl same ↦
            let there =
              ap (lookup m.locks) ((text_eq_iff (to_string j) (to_string id)).0 same) ∙ h.there in
            absurd (cc (is_locked-there later j m p there (unexpired m later h le), free))
        | inr differs ↦
            subst (λ (r : Manager × ℕ). Holds r.0) left (with_lock-Holds m j new h differs)
      ]
  use-Holds m m' (OtherUse.releases j who others done) h =
      let (q, found, whose, left) = release-made j who m m' done in
      elim (Bool-cases (text_eq (to_string j) (to_string id))) [
        | inl same ↦
            let e = (text_eq_iff (to_string j) (to_string id)).0 same in
            let is_p : q ≡ p = eq_of_some-eq q p (sym found ∙ ap (lookup m.locks) e ∙ h.there) in
            absurd (
              others (
                e,
                sym whose
                    ∙ ap (λ (x : ℕ). (m.heap x).owner) is_p
                    ∙ ap (λ (l : ClaimLock). l.owner) h.lock
                    ∙ mine,
              ))
        | inr differs ↦
            let other : q ≢ p = λ is_p.
              let named =
                h.only (to_string j)
                  (lookup-found m.locks (to_string j) p (found ∙ ap some is_p)) in
              absurd (cc ((text_eq_iff (to_string j) (to_string id)).1 named, differs)) in
            subst Holds left (without-Holds m j q h differs other)
      ]
  use-Holds m _ (OtherUse.reaps clock le) h = record {
    there =
        lookup-reap clock m.heap m.locks (to_string id) p (unexpired m (clock p) h (le p)) h.there;
    lock = h.lock;
    allocated = h.allocated;
    only = λ k here. h.only k (mem-reap clock m.heap m.locks (k, p) here);
  }
  use-Holds m _ (OtherUse.refreshes now timeout q new other done) h = record {
    there = h.there;
    lock = store-same m.heap q p new other ∙ h.lock;
    allocated = h.allocated;
    only = h.only;
  }

  uses-Holds : (m m' : Manager) → OtherUses limit id owner p m m' → Holds m → Holds m'
  uses-Holds m _ OtherUses.none_more h = h
  uses-Holds m m' (OtherUses.one_more {m' = mid} step rest) h =
      uses-Holds mid m' rest (use-Holds m mid step h)

acquired-Holds :
    (m : Manager) (id : NodeId) (owner : Text) (lk : ClaimLock) (limit : Timestamp)
    → IsAllocated m
    → (mine : lk.owner ≡ owner) (unreleased : lk.released ≡ false)
      (within : limit ≤ lk.expires_at + clock_skew_tolerance)
    → Holds limit id owner m.fresh lk mine unreleased within (with_lock m id lk)
unfolding store
acquired-Holds m id owner lk limit allocated mine unreleased within = record {
  there =
      lookup-insert m.locks (to_string id) m.fresh (to_string id)
      ∙ rw ((text_eq_iff (to_string id) (to_string id)).1 refl) refl;
  lock = stored;
  allocated = omega arith;
  only = λ k here. elim (mem-insert m.locks (to_string id) m.fresh (k, m.fresh) here) [
    | inl old ↦ absurd (omega (arith, allocated k m.fresh old))
    | inr (named, _) ↦ named
  ];
}
  where
    stored : store m.heap m.fresh lk m.fresh ≡ lk
    stored = rw ((==_iff m.fresh m.fresh).1 refl, store) refl

-- An acquired lock keeps its node until it expires, with the tolerance for clock skew: if every lock of
-- the manager was handed out before, then after any acquiring, releasing and refreshing of locks and
-- reaping, except that the owner releases the node or the lock is refreshed, with the clock read up to
-- then, the node is locked and acquiring it fails for everyone.
pub acquire-excludes :
    (now later : Timestamp) (id : NodeId) (owner : Text) (d : ℕ) (m m' m'' : Manager) (p : ℕ)
    (t0 t : Timestamp) (who : Text) (timeout : ℤ) (r : Manager × ℕ)
    → IsAllocated m
    → acquire now later id owner (pos (suc d)) m ≡ ok (m', p)
    → OtherUses (now + suc d + clock_skew_tolerance) id owner p m' m''
    → t ≤ now + suc d + clock_skew_tolerance
    → (is_locked t id m'' ≡ true) × (acquire t0 t id who timeout m'' ≢ ok r)
acquire-excludes now later id owner d m m' m'' p t0 t who timeout r allocated acquired uses le =
    let limit = now + suc d + clock_skew_tolerance in
    let (lk, made, _, same) = acquire-made now later id owner (pos (suc d)) m m' p acquired in
    let (mine, expires, unreleased) = new_claim_lock-made now id owner d lk made in
    let within : limit ≤ lk.expires_at + clock_skew_tolerance = omega (arith, expires) in
    let start = acquired-Holds m id owner lk limit allocated mine unreleased within in
    let at_start =
      subst (λ (x : Manager × ℕ). Holds limit id owner x.1 lk mine unreleased within x.0) same
        start in
    let at_end = uses-Holds limit id owner p lk mine unreleased within m' m'' uses at_start in
    let held =
      is_locked-there t id m'' p at_end.there
        (unexpired limit id owner p lk mine unreleased within m'' t at_end le) in
    (held, is_locked-acquire t0 t id who timeout m'' r held)
