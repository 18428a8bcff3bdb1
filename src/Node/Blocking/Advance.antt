-- ===== src/Node/Blocking/Advance.antt =====
-- A round of the loop over the queue in ComputeBlockedSet of internal/node/blocking.go.
use vibefeld.Prelude.{
  ℕ, ◌+◌, ◌≤◌, ◌<◌, ◌≡◌, refl, sym, subst, ◌⊎◌, inl, inr, false, ◌||◌, Bool-cases, List, [], ◌∷◌,
  ◌++◌, Text, text_eq, text_eq_iff, if◌then◌else◌, length, length-append, mem-append_left,
  mem-append, mem-append_right, arith,
}
use mathlib.Core.List.{Memᴰ}
use vibefeld.Node.Blocking.{is_key, Frontier, block_dependents}
use vibefeld.Node.Blocking.Requests.{is_key-mem}

is_key-append :
    (ss : List Text) (d k : Text) → is_key (ss ++ d ∷ []) k ≡ (is_key ss k || text_eq d k)
is_key-append [] d k = ground arith
is_key-append (s ∷ ss) d k = ground (arith, is_key-append ss d k)

-- How many of the nodes are not blocked.
pub unblocked : List Text → List Text → ℕ
unblocked blocked [] = 0
unblocked blocked (k ∷ ks) = (if is_key blocked k then 0 else 1) + unblocked blocked ks

pub unblocked-le-length : (blocked ks : List Text) → unblocked blocked ks ≤ length ks
unfolding unblocked
unblocked-le-length blocked [] = omega arith
unblocked-le-length blocked (k ∷ ks) = ground (arith, unblocked-le-length blocked ks)

module _ (blocked : List Text) (d : Text) where
  unblocked-append_le : (ks : List Text) → unblocked (blocked ++ d ∷ []) ks ≤ unblocked blocked ks
  unfolding unblocked
  unblocked-append_le [] = omega arith
  unblocked-append_le (k ∷ ks) = ground (arith, unblocked-append_le ks, is_key-append blocked d k)

  unblocked-append_lt :
      (ks : List Text)
      → is_key blocked d ≡ false
      → Memᴰ d ks
      → unblocked (blocked ++ d ∷ []) ks < unblocked blocked ks
  unfolding unblocked
  unblocked-append_lt _ new (Memᴰ.head {x} {xs} e) =
      ground (arith, unblocked-append_le xs, is_key-append blocked d x, text_eq_iff d x)
  unblocked-append_lt _ new (Memᴰ.tail {x} {xs} m) =
      ground (arith, unblocked-append_lt xs new m, is_key-append blocked d x)

-- What remains to be done.
abbrev pub work : List Text → Frontier → ℕ
work ks f = length f.queue + unblocked f.blocked ks

-- What the loop over the dependents of a node leaves.
pub record Advances (ks ds : List Text) (f f' : Frontier) : Type 0 where
  pub kept : (s : Text) → Memᴰ s f.blocked → Memᴰ s f'.blocked
  pub queued : (s : Text) → Memᴰ s f.queue → Memᴰ s f'.queue
  pub all_blocked : (s : Text) → Memᴰ s ds → Memᴰ s f'.blocked
  pub from : (s : Text) → Memᴰ s f'.blocked → Memᴰ s f.blocked ⊎ (Memᴰ s ds × Memᴰ s f'.queue)
  pub from_queue : (s : Text) → Memᴰ s f'.queue → Memᴰ s f.queue ⊎ Memᴰ s f'.blocked
  pub less_work : work ks f' ≤ work ks f

module _ (ks : List Text) where
  Advances-cons_key :
      (d : Text) (ds : List Text) (f f' : Frontier)
      → Memᴰ d f.blocked
      → Advances ks ds f f'
      → Advances ks (d ∷ ds) f f'
  Advances-cons_key d ds f f' here a = record {
    kept = a.kept;
    queued = a.queued;
    all_blocked = λ s m. elim m [
      | Memᴰ.head e ↦ subst (λ k. Memᴰ k f'.blocked) (sym e) (a.kept d here)
      | Memᴰ.tail later ↦ a.all_blocked s later
    ];
    from = λ s m. elim (a.from s m) [
      | inl old ↦ inl old
      | inr (new, waits) ↦ inr (Memᴰ.tail new, waits)
    ];
    from_queue = a.from_queue;
    less_work = a.less_work;
  }

  abbrev put : Text → Frontier → Frontier
  put d f = record { blocked = f.blocked ++ d ∷ []; queue = f.queue ++ d ∷ [] }

  Advances-cons_new :
      (d : Text) (ds : List Text) (f f' : Frontier)
      → is_key f.blocked d ≡ false
      → Memᴰ d ks
      → Advances ks ds (put d f) f'
      → Advances ks (d ∷ ds) f f'
  Advances-cons_new d ds f f' new known a = record {
    kept = λ s m. a.kept s (mem-append_left s f.blocked (d ∷ []) m);
    queued = λ s m. a.queued s (mem-append_left s f.queue (d ∷ []) m);
    all_blocked = λ s m. elim m [
      | Memᴰ.head e ↦ a.kept s (mem-append_right s f.blocked (d ∷ []) (Memᴰ.head e))
      | Memᴰ.tail later ↦ a.all_blocked s later
    ];
    from = λ s m. elim (a.from s m) [
      | inl before ↦ elim (mem-append s f.blocked (d ∷ []) before) [
        | inl old ↦ inl old
        | inr (Memᴰ.head e) ↦
            inr (Memᴰ.head e, a.queued s (mem-append_right s f.queue (d ∷ []) (Memᴰ.head e)))
        | inr (Memᴰ.tail nothing) ↦ elim nothing [ ]
      ]
      | inr (later, waits) ↦ inr (Memᴰ.tail later, waits)
    ];
    from_queue = λ s m. elim (a.from_queue s m) [
      | inl before ↦ elim (mem-append s f.queue (d ∷ []) before) [
        | inl old ↦ inl old
        | inr added ↦ inr (a.kept s (mem-append_right s f.blocked (d ∷ []) added))
      ]
      | inr here ↦ inr here
    ];
    less_work = omega (
      arith,
      a.less_work,
      length-append f.queue (d ∷ []),
      unblocked-append_lt f.blocked d ks new known,
    );
  }

  pub Advances-block_dependents :
      (ds : List Text) (f : Frontier)
      → ((s : Text) → Memᴰ s ds → Memᴰ s ks)
      → Advances ks ds f (block_dependents ds f)
  unfolding block_dependents
  Advances-block_dependents [] f known = record {
    kept = λ s m. m;
    queued = λ s m. m;
    all_blocked = λ s m. elim m [ ];
    from = λ s m. inl m;
    from_queue = λ s m. inl m;
    less_work = omega arith;
  }
  Advances-block_dependents (d ∷ ds) f known = elim (Bool-cases (is_key f.blocked d)) [
    | inl e ↦ rw e (
        Advances-cons_key d ds f (block_dependents ds f) (is_key-mem f.blocked d e)
          (Advances-block_dependents ds f (λ s m. known s (Memᴰ.tail m))))
    | inr e ↦ rw e (
        Advances-cons_new d ds f (block_dependents ds (put d f)) e (known d (Memᴰ.head refl))
          (Advances-block_dependents ds (put d f) (λ s m. known s (Memᴰ.tail m))))
  ]
