-- ===== src/State/Replay/Verify.antt =====
-- Verified and incremental replays, and ledgers that cannot be replayed (internal/state/replay.go).
use mathlib.Core.List.{Memᴰ}
use vibefeld.Prelude.{
  bind-eq_ok, ℕ, suc, ◌+◌, ◌≡◌, ◌≢◌, refl, sym, ◌∙◌, ap, subst, Bool, true, false, Option, some,
  List, [], ◌∷◌, ◌++◌, Text, ==_iff, length, arith, Result, ok, err, ◌>>=◌, eq_of_some-eq,
}
use vibefeld.Types.NodeId.{NodeId}
use vibefeld.Node.{Timestamp}
use vibefeld.Taint.{Heap, Sorter}
use vibefeld.Ledger.Event.{Event, lock_reaped}
use vibefeld.State.{State}
use vibefeld.State.Apply.{apply}
use vibefeld.State.Replay.{ReplayError, apply_numbered, replay_one, replay_from, replay_internal}
use vibefeld.State.Replay.Sequence.{replay_one-ok, apply_numbered-ok}

module _ (sha256_hex : Text → Text) (sorter : Sorter) (now : ℕ → Timestamp) where
  pub one-unverified :
      (expected : ℕ) (s : State) (seq : ℕ) (event : Option Event) (s' : State)
      → replay_one sha256_hex sorter now true expected s seq event ≡ ok s'
      → replay_one sha256_hex sorter now false expected s seq event ≡ ok s'
  unfolding replay_one apply_numbered
  one-unverified expected s seq event s' h =
      let (numbered, (e, parsed, applied)) =
        replay_one-ok sha256_hex sorter now true expected s seq event s' h in
      let (out, made, _) = apply_numbered-ok sha256_hex sorter now true seq s e s' applied in
      rw ((==_iff seq expected).1 numbered, replay_one)
        (rw parsed (rw (out, apply_numbered) (ap ok (sym made))))

  -- Replaying a ledger is replaying its beginning and then the rest from the state this gives, with
  -- the sequence numbers going on.
  pub replay_from-append :
      (verify : Bool) (n : ℕ) (xs ys : List (ℕ × Option Event)) (s : State)
      → replay_from sha256_hex sorter now verify n (xs ++ ys) s ≡ (
          replay_from sha256_hex sorter now verify n xs s >>= λ s'.
          replay_from sha256_hex sorter now verify (n + length xs) ys s')
  unfolding replay_from
  replay_from-append verify n [] ys s =
      ap (λ k. replay_from sha256_hex sorter now verify k ys s) (omega arith)
  replay_from-append verify n ((seq, event) ∷ xs) ys s =
      step (replay_one sha256_hex sorter now verify n s seq event)
        (λ t. replay_from-append verify (suc n) xs ys t)
    where
      step :
          (r : Result ReplayError State)
          → ((t : State)
              → replay_from sha256_hex sorter now verify (suc n) (xs ++ ys) t ≡ (
                  replay_from sha256_hex sorter now verify (suc n) xs t >>= λ s'.
                  replay_from sha256_hex sorter now verify (suc n + length xs) ys s'))
          → (r >>= λ t. replay_from sha256_hex sorter now verify (suc n) (xs ++ ys) t) ≡ (
              (r >>= λ t. replay_from sha256_hex sorter now verify (suc n) xs t) >>= λ s'.
              replay_from sha256_hex sorter now verify (n + suc (length xs)) ys s')
      step (err e) ih = refl
      step (ok t) ih =
          ih t
          ∙ ap
              (λ k. replay_from sha256_hex sorter now verify (suc n) xs t >>= λ s'.
                replay_from sha256_hex sorter now verify k ys s')
              (omega arith)

  from-lock_reaped :
      (verify : Bool) (seq : ℕ) (at : Timestamp) (id : NodeId) (owner : Text) (n : ℕ)
      (events : List (ℕ × Option Event)) (s s' : State)
      → Memᴰ (seq, some (lock_reaped at id owner)) events
      → replay_from sha256_hex sorter now verify n events s ≢ ok s'
  unfolding replay_from apply
  from-lock_reaped verify seq at id owner n _ s s' (Memᴰ.head {x = (k, event)} {xs = events} e) h =
      let (mid, one, _) = bind-eq_ok (replay_one sha256_hex sorter now verify n s k event) _ s' h in
      let (_, (x, parsed, applied)) =
        replay_one-ok sha256_hex sorter now verify n s k event mid one in
      let (out, _, _) = apply_numbered-ok sha256_hex sorter now verify k s x mid applied in
      let same : some x ≡ some (lock_reaped at id owner) =
        sym parsed ∙ sym (ap (λ (q : ℕ × Option Event). q.1) e) in
      cc (subst (λ y. (apply sha256_hex sorter (now k) s y).1 ≡ ok tt) (eq_of_some-eq _ _ same) out)
  from-lock_reaped verify seq at id owner n _ s s' (Memᴰ.tail {x = (k, event)} {xs = events} m) h =
      let (mid, _, rest) =
        bind-eq_ok (replay_one sha256_hex sorter now verify n s k event) _ s' h in
      from-lock_reaped verify seq at id owner (suc n) events mid s' m rest

  -- A ledger that records the reaping of a lock anywhere cannot be replayed, verifying or not.
  pub replay_internal-lock_reaped :
      (verify : Bool) (seq : ℕ) (at : Timestamp) (id : NodeId) (owner : Text) (heap : Heap)
      (events : List (ℕ × Option Event)) (s : State)
      → Memᴰ (seq, some (lock_reaped at id owner)) events
      → replay_internal sha256_hex sorter now verify heap events ≢ ok s
  unfolding replay_internal
  replay_internal-lock_reaped verify seq at id owner heap events s here =
      from-lock_reaped verify seq at id owner 1 events _ s here
