-- ===== src/State/Challenges.antt =====
-- The cache of the challenges by node, and the superseding of the open ones (internal/state/state.go,
-- internal/state/apply.go).
use mathlib.Core.List.{Memᴰ}
use vibefeld.Prelude.{
  mem-append_left, mem-append_right, ◌≡◌, refl, sym, ◌∙◌, ap, subst, false, some, List, [], ◌∷◌,
  ◌++◌, Text, Map, lookup, insert, lookup-insert, eq_text, text_eq, text_eq_iff, if◌then◌else◌,
  Bool-cases, Option-cases, inl, inr, ◌⊎◌, eq_of_some-eq,
}
use vibefeld.Types.NodeId.{to_string}
use vibefeld.Node.Challenge.{superseded, is_opened}
use vibefeld.State.{State, Challenge, list_at, group_by_node, challenges_by_node_id}
use vibefeld.State.Handlers.{supersede_all}

-- Every challenge of the map is listed under its node.
abbrev pub Lists : Map Text (List Text) → Map Text Challenge → Type 0
Lists cache m =
    (k : Text) (c : Challenge) → lookup m k ≡ some c → Memᴰ k (list_at cache (to_string c.node_id))

-- The cache is empty or lists every challenge.
abbrev pub IsCoherent : State → Type 0
IsCoherent s =
    (cache : Map Text (List Text)) → s.challenges_by_node ≡ some cache → Lists cache s.challenges

-- Adding a key to the list at `j` keeps what is listed at `i`.
list_at-insert :
    (m : Map Text (List Text)) (j i k : Text)
    → list_at (insert m j (list_at m j ++ k ∷ [])) i
      ≡ (if text_eq j i then list_at m i ++ k ∷ [] else list_at m i)
list_at-insert m j i k = elim (Bool-cases (text_eq j i)) [
  | inl e ↦
      rw (lookup-insert m j (list_at m j ++ k ∷ []) i, list_at)
        (rw e (ap (λ x. list_at m x ++ k ∷ []) ((text_eq_iff j i).0 e)))
  | inr e ↦ rw (lookup-insert m j (list_at m j ++ k ∷ []) i, list_at) (rw e refl)
]

-- What is listed stays listed, and the new key is.
listed-insert :
    (m : Map Text (List Text)) (j i new k : Text)
    → Memᴰ k (list_at m i) ⊎ ((j ≡ i) × (k ≡ new))
    → Memᴰ k (list_at (insert m j (list_at m j ++ new ∷ [])) i)
listed-insert m j i new k why =
    subst (Memᴰ k) (sym (list_at-insert m j i new)) (elim (Bool-cases (text_eq j i)) [
      | inl e ↦ rw e (elim why [
        | inl old ↦ mem-append_left k (list_at m i) (new ∷ []) old
        | inr (_, here) ↦ mem-append_right k (list_at m i) (new ∷ []) (Memᴰ.head here)
      ])
      | inr e ↦
          rw e
            (elim why [ inl old ↦ old | inr (same, _) ↦ absurd (cc (e, (text_eq_iff j i).1 same)) ])
    ])

group-keeps :
    (cs : Map Text Challenge) (m : Map Text (List Text)) (k i : Text)
    → Memᴰ k (list_at m i)
    → Memᴰ k (list_at (group_by_node cs m) i)
unfolding group_by_node
group-keeps [] m k i here = here
group-keeps ((j, c) ∷ cs) m k i here =
    group-keeps cs (insert m (to_string c.node_id) (list_at m (to_string c.node_id) ++ j ∷ [])) k i
      (listed-insert m (to_string c.node_id) i j k (inl here))

group-Lists : (cs : Map Text Challenge) (m : Map Text (List Text)) → Lists (group_by_node cs m) cs
unfolding group_by_node lookup
group-Lists [] m k c e = absurd (cc)
group-Lists ((j, d) ∷ cs) m k c e =
    let added = insert m (to_string d.node_id) (list_at m (to_string d.node_id) ++ j ∷ []) in
    elim (Bool-cases (text_eq j k)) [
      | inl here ↦
          let same : d ≡ c = eq_of_some-eq d c (rw (here, lookup) at e) in
          group-keeps cs added k (to_string c.node_id) (
            listed-insert m (to_string d.node_id) (to_string c.node_id) j k (
              inr
                (ap (λ (x : Challenge). to_string x.node_id) same, sym ((text_eq_iff j k).0 here))))
      | inr later ↦ group-Lists cs added k c (rw (later, lookup) at e)
    ]

-- What `ChallengesByNodeID` returns lists every challenge.
pub challenges_by_node_id-Lists :
    (s : State) → IsCoherent s → Lists (challenges_by_node_id s).1 s.challenges
unfolding challenges_by_node_id
challenges_by_node_id-Lists s coherent = elim (Option-cases s.challenges_by_node) [
  | inl none_yet ↦ rw (none_yet, challenges_by_node_id) (group-Lists s.challenges [])
  | inr (cache, there) ↦ rw (there, challenges_by_node_id) (coherent cache there)
]

-- A later map has no challenge that the earlier one has not, on the same node; one that was not open
-- is not open again, and none with a key in `P` is open.
abbrev pub Superseded {ℓ} : Map Text Challenge → Map Text Challenge → (Text → Type ℓ) → Type ℓ
Superseded before after P =
    (k : Text) (c : Challenge)
    → lookup after k ≡ some c
    → (d : Challenge) × (lookup before k ≡ some d)
      × (c.node_id ≡ d.node_id)
      × (is_opened d.status ≡ false → is_opened c.status ≡ false)
      × (P k → is_opened c.status ≡ false)

insert-Superseded :
    (m : Map Text Challenge) (j : Text) (d : Challenge)
    → lookup m j ≡ some d
    → Superseded m (insert m j (record d { status = superseded })) (λ k. k ≡ j)
unfolding is_opened
insert-Superseded m j d there k c e = elim (Bool-cases (text_eq j k)) [
  | inl same ↦
      let marked : record d { status = superseded } ≡ c =
        eq_of_some-eq _ c
          (sym (rw same at (lookup-insert m j (record d { status = superseded }) k)) ∙ e) in
      (
        d,
        ap (lookup m) (sym ((text_eq_iff j k).0 same)) ∙ there,
        sym (ap (λ (x : Challenge). x.node_id) marked),
        λ _. sym (ap (λ (x : Challenge). is_opened x.status) marked),
        λ _. sym (ap (λ (x : Challenge). is_opened x.status) marked),
      )
  | inr other ↦ (
    c,
    sym (rw other at (lookup-insert m j (record d { status = superseded }) k)) ∙ e,
    refl,
    λ h. h,
    λ same. absurd (cc (other, (text_eq_iff j k).1 (sym same))),
  )
]

supersede_all-step :
    (j : Text) (keys : List Text) (m : Map Text Challenge)
    → (m' : Map Text Challenge) × ((supersede_all (j ∷ keys) m).0 ≡ (supersede_all keys m').0)
      × Superseded m m' (λ k. k ≡ j)
unfolding supersede_all
supersede_all-step j keys m = elim (Option-cases (lookup m j)) [
  | inl missing ↦ (
    m,
    rw (missing, supersede_all) refl,
    λ k c e. (c, e, refl, λ h. h, λ same. absurd (cc (missing, e, same))),
  )
  | inr (d, found) ↦ elim (Bool-cases (is_opened d.status)) [
    | inl open_now ↦ (
      insert m j (record d { status = superseded }),
      rw (found, supersede_all) (rw (open_now, supersede_all) refl),
      insert-Superseded m j d found,
    )
    | inr closed ↦ (
      m,
      rw (found, supersede_all) (rw (closed, supersede_all) refl),
      λ k c e. (
        c,
        e,
        refl,
        λ h. h,
        λ same.
            subst (λ (x : Challenge). is_opened x.status ≡ false)
              (eq_of_some-eq d c (sym found ∙ ap (lookup m) (sym same) ∙ e)) closed,
      ),
    )
  ]
]

pub supersede_all-Superseded :
    (keys : List Text) (m : Map Text Challenge)
    → Superseded m (supersede_all keys m).0 (λ k. Memᴰ k keys)
unfolding supersede_all
supersede_all-Superseded [] m k c e = (c, e, refl, λ h. h, λ here. elim here [ ])
supersede_all-Superseded (j ∷ keys) m k c e =
    let (m', same, step) = supersede_all-step j keys m in
    let (c1, e1, n1, closed1, listed1) =
      supersede_all-Superseded keys m' k c (subst (λ x. lookup x k ≡ some c) same e) in
    let (d, e2, n2, closed2, listed2) = step k c1 e1 in
    (
      d,
      e2,
      n1 ∙ n2,
      λ h. closed1 (closed2 h),
      λ here. elim here [
        | Memᴰ.head at_j ↦ closed1 (listed2 at_j)
        | Memᴰ.tail later ↦ listed1 later
      ],
    )
