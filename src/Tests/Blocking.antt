-- ===== src/Tests/Blocking.antt =====
-- Examples for the nodes that wait for a definition.
use vibefeld.Prelude.{
  ◌≡◌, refl, ◌↔◌, true, false, Option, none, some, List, [], ◌∷◌, Text, Map, codes, lookup, insert,
  eq_text, err,
}
use mathlib.Core.List.{Memᴰ}
use vibefeld.Types.NodeId.{to_string}
use vibefeld.Node.Pending.{PendingDef, pending, resolved, not_pending, cancel}
use vibefeld.Node.Blocking.{compute_blocked_set, is_blocked, get_blocked_nodes}
use vibefeld.Node.Blocking.Reach.{Blocked}
use vibefeld.Node.Blocking.Correct.{compute_blocked_set_decides}
use vibefeld.Tests.Sample.{id1, id11, id111}

abbrev waiting : PendingDef
waiting = record {
  id = codes "d1";
  term = codes "group";
  requested_by = id11;
  created = 1;
  resolved_by = [];
  status = pending;
}

abbrev requests : List (Option PendingDef)
requests =
    none ∷ some (record waiting { requested_by = id111; status = resolved }) ∷ some waiting ∷ []

-- 1.2 depends on 1.1, 1.3 on 1.2, and 1.4 on 1.1.1, which waits no longer.
abbrev dependencies : Map Text (List Text)
dependencies =
    (codes "1.3", codes "1.2" ∷ [])
    ∷ (codes "1.4", codes "1.1.1" ∷ [])
    ∷ (codes "1.2", codes "1" ∷ codes "1.1" ∷ [])
    ∷ []

compute_blocked_set_decides_example :
    (blocked : List Text) × (compute_blocked_set requests dependencies ≡ some blocked)
    × ((s : Text) → Memᴰ s blocked ↔ Blocked requests dependencies s)
compute_blocked_set_decides_example = compute_blocked_set_decides requests dependencies

blocked_three :
    compute_blocked_set requests dependencies ≡ some (codes "1.1" ∷ codes "1.2" ∷ codes "1.3" ∷ [])
unfolding compute_blocked_set lookup insert to_string
blocked_three = refl

asked_only : is_blocked id11 requests ≡ true
unfolding is_blocked to_string
asked_only = refl

asked_no_more : is_blocked id111 requests ≡ false
unfolding is_blocked to_string
asked_no_more = refl

resolved_once : cancel (record waiting { status = resolved }) ≡ err not_pending
unfolding cancel
resolved_once = refl

its_node : get_blocked_nodes (some waiting) (id1 ∷ id11 ∷ []) ≡ id11 ∷ []
unfolding get_blocked_nodes to_string
its_node = refl
