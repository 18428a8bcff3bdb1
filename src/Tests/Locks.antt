-- ===== src/Tests/Locks.antt =====
-- Examples for the locks.
use vibefeld.Prelude.{
  ℕ, ◌≡◌, ◌≢◌, refl, true, false, some, [], codes, ok, lookup, insert, delete, eq_text, arith,
}
use vibefeld.Text.{pos, is_blank}
use vibefeld.Types.NodeId.{to_string}
use vibefeld.Lock.{
  ClaimLock, Manager, new_claim_lock, acquire, release, is_locked, is_expired, store, reap,
  reap_expired,
}
use vibefeld.Lock.Exclusion.{release-is_locked}
use vibefeld.Lock.Kept.{OtherUse, OtherUses, acquire-excludes}
use vibefeld.Tests.Sample.{id1, id11}

abbrev no_lock : ClaimLock
no_lock = record { node_id = id1; owner = []; acquired_at = 0; expires_at = 0; released = true }

abbrev no_locks : Manager
no_locks = record { heap = λ _. no_lock; fresh = 0; locks = [] }

abbrev my_lock : ClaimLock
my_lock = record {
  node_id = id1;
  owner = codes "me";
  acquired_at = 10;
  expires_at = 15;
  released = false;
}

abbrev one_lock : Manager
unfolding store
one_lock = record {
  heap = store (λ _. no_lock) 0 my_lock;
  fresh = 1;
  locks = insert [] (codes "1") 0;
}

acquired_one : acquire 10 11 id1 (codes "me") (pos 5) no_locks ≡ ok (one_lock, 0)
unfolding acquire new_claim_lock is_locked is_blank lookup to_string
acquired_one = refl

-- Everything that is expired is reaped, and another node is acquired.
abbrev reaped : Manager
reaped = (reap_expired (λ _. 20) one_lock).0

abbrev your_lock : ClaimLock
your_lock = record {
  node_id = id11;
  owner = codes "you";
  acquired_at = 21;
  expires_at = 26;
  released = false;
}

abbrev two_locks : Manager
unfolding store
two_locks = record {
  heap = store one_lock.heap 1 your_lock;
  fresh = 2;
  locks = insert one_lock.locks (codes "1.1") 1;
}

acquired_two : acquire 21 22 id11 (codes "you") (pos 5) reaped ≡ ok (two_locks, 1)
unfolding acquire new_claim_lock is_locked is_blank lookup to_string reap_expired reap is_expired
    insert store
acquired_two = refl

acquire-excludes_example :
    (is_locked 40 id1 two_locks ≡ true)
    × (acquire 39 40 id1 (codes "you") (pos 5) two_locks ≢ ok (two_locks, 2))
acquire-excludes_example =
    acquire-excludes 10 11 id1 (codes "me") 4 no_locks one_lock two_locks 0 39 40 (codes "you")
      (pos 5) (two_locks, 2) (λ k q here. elim here [ ]) acquired_one
      (OtherUses.one_more (OtherUse.reaps (λ _. 20) (λ _. omega arith)) (
        OtherUses.one_more
          (OtherUse.acquires 21 22 id11 (codes "you") (pos 5) 1 (omega arith) acquired_two)
          OtherUses.none_more))
      (omega arith)

abbrev given_back : Manager
unfolding store
given_back = record {
  heap = store one_lock.heap 0 (record my_lock { released = true });
  fresh = 1;
  locks = delete one_lock.locks (codes "1");
}

released_one : release id1 (codes "me") one_lock ≡ ok given_back
unfolding release lookup to_string store insert
released_one = refl

release-is_locked_example :
    (p : ℕ) × (lookup one_lock.locks (to_string id1) ≡ some p)
    × ((one_lock.heap p).owner ≡ codes "me")
    × ((given_back.heap p).released ≡ true)
    × (is_locked 12 id1 given_back ≡ false)
release-is_locked_example = release-is_locked id1 (codes "me") one_lock given_back 12 released_one
