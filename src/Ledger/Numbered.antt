-- ===== src/Ledger/Numbered.antt =====
-- Appending to a ledger whose events are numbered from 1 without a gap (internal/ledger/append.go).
use vibefeld.Prelude.{
  ℕ, suc, ◌+◌, ◌≡◌, ◌↔◌, refl, sym, ◌∙◌, ap, subst, ◌⊎◌, inl, inr, true, false, none, some, List,
  [], ◌∷◌, ◌++◌, append-nil, append_assoc, ltb, ◌==◌, ==_iff, if◌then◌else◌, length, map, filter,
  ok, err, Bool-cases, Option-cases, arith,
}
use vibefeld.Ledger.Event.{Event}
use vibefeld.Ledger.Store.{
  Ledger, LedgerError, io_error, sequence_mismatch, Fault, lock_failed, io_failed, max_seq,
  next_sequence, gaps_from, has_gaps, append, append_if_sequence, BatchFault, rename_files,
  write_batch, append_batch, number_from,
}

-- The sequence numbers are those from `n` on.
abbrev pub IsNumberedFrom : ℕ → Ledger → Type 0
IsNumberedFrom n [] = Unit
IsNumberedFrom n ((seq, _) ∷ files) = (seq ≡ n) × IsNumberedFrom (suc n) files

pub max_seq-numbered :
    (n : ℕ) (files : Ledger) → IsNumberedFrom (suc n) files → max_seq n files ≡ n + length files
unfolding max_seq
max_seq-numbered n [] h = omega arith
max_seq-numbered n ((seq, event) ∷ files) (e, h) =
    let next : (if ltb n seq then seq else n) ≡ suc n = ground arith in
    ap (λ m. max_seq m files) next ∙ max_seq-numbered (suc n) files h ∙ omega arith

pub numbered-append :
    (n k : ℕ) (xs ys : Ledger)
    → k ≡ n + length xs
    → IsNumberedFrom n xs
    → IsNumberedFrom k ys
    → IsNumberedFrom n (xs ++ ys)
numbered-append n k [] ys e hx hy =
    let same : k ≡ n = omega arith in subst (λ j. IsNumberedFrom j ys) same hy
numbered-append n k ((seq, event) ∷ xs) ys e (here, hx) hy =
    (here, numbered-append (suc n) k xs ys (omega arith) hx hy)

numbered-number_from : (n : ℕ) (es : List Event) → IsNumberedFrom n (number_from n es)
unfolding number_from
numbered-number_from n [] = tt
numbered-number_from n (e ∷ es) = (refl, numbered-number_from (suc n) es)

module _ (files : Ledger) (numbered : IsNumberedFrom 1 files) where
  pub next_sequence-numbered : next_sequence files ≡ suc (length files)
  unfolding next_sequence
  next_sequence-numbered = omega (arith, max_seq-numbered 0 files numbered)

  -- The ledger with an event behind the others.
  pub numbered-snoc : (e : Event) → IsNumberedFrom 1 (files ++ (next_sequence files, some e) ∷ [])
  numbered-snoc e =
      numbered-append 1 (suc (length files)) files _ (omega arith) numbered
        (next_sequence-numbered, tt)

  -- What `Append` leaves is numbered, whatever fails.
  pub append-IsNumbered : (fault : Fault) (e : Event) → IsNumberedFrom 1 (append fault files e).0
  unfolding append
  append-IsNumbered none e = numbered-snoc e
  append-IsNumbered (some x) e = numbered

  module _ (fault : BatchFault) (removes : (seq : ℕ) → fault.remove_fails seq ≡ false) where
    none_left : (renamed : Ledger) → filter (λ file. fault.remove_fails file.0) renamed ≡ []
    none_left [] = refl
    none_left ((seq, e) ∷ renamed) = rw (removes seq) (none_left renamed)

    rename_files-cases :
        (renamed temps : Ledger)
        → (rename_files fault files renamed temps ≡ (files ++ (renamed ++ temps), true))
          ⊎ (rename_files fault files renamed temps ≡ (files, false))
    unfolding rename_files
    rename_files-cases renamed [] =
        inl (ap (λ (l : Ledger). (files ++ l, true)) (sym (append-nil renamed)))
    rename_files-cases renamed ((seq, e) ∷ temps) = elim (Bool-cases (fault.rename_fails seq)) [
      | inl fails ↦ inr (
          rw fails (
            ap (λ (l : Ledger). (l, false))
              (ap (λ (l : Ledger). files ++ l) (none_left renamed) ∙ append-nil files)))
      | inr works ↦ elim (rename_files-cases (renamed ++ (seq, e) ∷ []) temps) [
        | inl all ↦ inl (
            rw works (
              all
              ∙ ap (λ (l : Ledger). (files ++ l, true))
                  (append_assoc renamed ((seq, e) ∷ []) temps)))
        | inr nothing ↦ inr (rw works nothing)
      ]
    ]

    write_batch-cases :
        (temps : Ledger)
        → ((x : LedgerError) × (write_batch fault files temps ≡ (files, err x)))
          ⊎ (write_batch fault files temps ≡ (files ++ temps, ok (map (λ file. file.0) temps)))
    unfolding rename_files
    write_batch-cases temps = elim (Option-cases fault.early) [
      | inr (x, e) ↦ inl (io_error x, rw e refl)
      | inl e ↦ elim (rename_files-cases [] temps) [
        | inl all ↦ inr (rw e (rw all refl))
        | inr nothing ↦ inl (io_error io_failed, rw e (rw nothing refl))
      ]
    ]

    all_or_nothing :
        (es : List Event)
        → ((x : LedgerError) × (append_batch fault files es ≡ (files, err x)))
          ⊎ (append_batch fault files es ≡ (
            files ++ number_from (suc (length files)) es,
            ok (map (λ file. file.0) (number_from (suc (length files)) es)),
          ))
    unfolding append_batch
    all_or_nothing [] = inr (ap (λ (l : Ledger). (l, ok [])) (sym (append-nil files)))
    all_or_nothing (e ∷ es) =
        subst
          (λ n.
            ((x : LedgerError) × (append_batch fault files (e ∷ es) ≡ (files, err x)))
            ⊎ (append_batch fault files (e ∷ es) ≡ (
              files ++ number_from n (e ∷ es),
              ok (map (λ file. file.0) (number_from n (e ∷ es))),
            )))
          next_sequence-numbered (write_batch-cases (number_from (next_sequence files) (e ∷ es)))

    -- On a ledger numbered from 1, if no removal of the rollback fails, `AppendBatch` fails and leaves
    -- the ledger alone, or it returns the next sequence numbers and the events are behind the others
    -- under them; what it leaves is numbered from 1.
    pub append_batch-cases :
        (es : List Event)
        → IsNumberedFrom 1 (append_batch fault files es).0
          × (((x : LedgerError) × (append_batch fault files es ≡ (files, err x)))
              ⊎ (append_batch fault files es ≡ (
                files ++ number_from (suc (length files)) es,
                ok (map (λ file. file.0) (number_from (suc (length files)) es)),
              )))
    append_batch-cases es = elim (all_or_nothing es) [
      | inl (x, e) ↦
          (subst (λ (l : Ledger). IsNumberedFrom 1 l) (sym (ap (λ r. r.0) e)) numbered, inl (x, e))
      | inr e ↦ (
        subst (λ (l : Ledger). IsNumberedFrom 1 l) (sym (ap (λ r. r.0) e))
            (numbered-append 1 (suc (length files)) files (number_from (suc (length files)) es)
              (omega arith) numbered (numbered-number_from (suc (length files)) es)),
        inr e,
      )
    ]

  -- On a ledger numbered from 1, `AppendIfSequence` leaves the ledger alone and fails, or it appends
  -- the event as the next one and the expected number is that of the events.
  pub append_if_sequence-cases :
      (fault : Fault) (e : Event) (expected : ℕ)
      → ((x : LedgerError) × (append_if_sequence fault files e expected ≡ (files, err x)))
        ⊎ ((expected ≡ length files)
            × (append_if_sequence fault files e expected
                ≡ (files ++ (suc (length files), some e) ∷ [], ok (suc (length files)))))
  unfolding append_if_sequence
  append_if_sequence-cases (some lock_failed) e expected = inl (io_error lock_failed, refl)
  append_if_sequence-cases (some io_failed) e expected =
      elim (Bool-cases (max_seq 0 files == expected)) [
        | inl same ↦ inl (io_error io_failed, rw same)
        | inr other ↦ inl (sequence_mismatch, rw other)
      ]
  append_if_sequence-cases none e expected = elim (Bool-cases (max_seq 0 files == expected)) [
    | inl same ↦ inr (
      sym ((==_iff (max_seq 0 files) expected).0 same)
          ∙ max_seq-numbered 0 files numbered
          ∙ omega arith,
      rw (same, next_sequence-numbered),
    )
    | inr other ↦ inl (sequence_mismatch, rw other)
  ]

-- `HasGaps` says no exactly for a ledger that is numbered from 1.
gaps_from_iff : (n : ℕ) (files : Ledger) → (gaps_from n files ≡ false) ↔ IsNumberedFrom n files
unfolding gaps_from
gaps_from_iff n [] = (λ _. tt, λ _. refl)
gaps_from_iff n ((seq, event) ∷ files) = elim (Bool-cases (seq == n)) [
  | inl same ↦
      let here = (==_iff seq n).0 same in
      let (sound, full) = gaps_from_iff (suc n) files in
      rw same (λ h. (here, sound h), λ h. full h.1)
  | inr other ↦ rw other (λ h. absurd (cc), λ h. let same = (==_iff seq n).1 h.0 in absurd (cc))
]

pub has_gaps_iff : (files : Ledger) → (has_gaps files ≡ false) ↔ IsNumberedFrom 1 files
unfolding has_gaps
has_gaps_iff files = gaps_from_iff 1 files
