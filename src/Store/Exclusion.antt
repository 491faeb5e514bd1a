-- ===== src/Store/Exclusion.antt =====
-- Proofs about validateChanges of internal/store/change.go and what it excludes.
use scp_harness.Base.{
  ◌≡◌, ap, sym, ◌∙◌, true, false, some, List, [], ◌∷◌, Map, lookup, contains, Result, ok, arith,
  ◌==◌, ==_iff, Bool-cases, inl, inr,
}
use scp_harness.Model.{Key, State, Change, terminal}
use scp_harness.Ledger.Soundness.{refresh-frame}
use scp_harness.Store.ChangeChecks.{changes_valid, changes_distinct}
use scp_harness.Store.Validation.{consistent}
use scp_harness.Store.Transaction.{Disk, update, upserted}
use scp_harness.Store.Commits.{update-ok, validate-ok}

contains-cons :
    (k j : Key) (seen : List Key)
    → contains k (j ∷ seen) ≡ false
    → (contains k seen ≡ false) × ((k == j) ≡ false)
contains-cons k j seen h = (ground arith, ground arith)

-- The loop over the changes has not seen the option of a nonterminal one before.
changes_distinct-fresh :
    (seen : List Key) (m : Map Change) (k : Key) {ch : Change}
    → changes_distinct seen m ≡ true
    → lookup k m ≡ some ch
    → terminal ch ≡ false
    → contains ch.option_id seen ≡ false
unfolding changes_distinct lookup
changes_distinct-fresh seen [] k h e lives = absurd (ground arith)
changes_distinct-fresh seen ((i, x) ∷ m) k {ch} h e lives = elim (Bool-cases (terminal x)) [
  | inl ended ↦ ground (arith, changes_distinct-fresh seen m k {ch = ch})
  | inr open_ended ↦ ground (
    arith,
    changes_distinct-fresh (x.option_id ∷ seen) m k {ch = ch},
    contains-cons ch.option_id x.option_id seen,
  )
]

changes_distinct_unique :
    (seen : List Key) (m : Map Change) (k j : Key) {a b : Change}
    → changes_distinct seen m ≡ true
    → lookup k m ≡ some a
    → lookup j m ≡ some b
    → terminal a ≡ false
    → terminal b ≡ false
    → a.option_id ≡ b.option_id
    → k ≡ j
unfolding changes_distinct lookup
changes_distinct_unique seen [] k j h ea eb la lb same = absurd (ground arith)
changes_distinct_unique seen ((i, x) ∷ m) k j {a} {b} h ea eb la lb same =
    elim (Bool-cases (terminal x)) [
      | inl ended ↦
          ground (arith, ==_iff k i, ==_iff j i, changes_distinct_unique seen m k j {a = a} {b = b})
      | inr open_ended ↦ ground (
        arith,
        ==_iff k i,
        ==_iff j i,
        ==_iff a.option_id x.option_id,
        ==_iff b.option_id x.option_id,
        changes_distinct_unique (x.option_id ∷ seen) m k j {a = a} {b = b},
        changes_distinct-fresh (x.option_id ∷ seen) m k {ch = a},
        changes_distinct-fresh (x.option_id ∷ seen) m j {ch = b},
        contains-cons a.option_id x.option_id seen,
        contains-cons b.option_id x.option_id seen,
      )
    ]

consistent-distinct : (s : State) → consistent s ≡ true → changes_distinct [] s.changes ≡ true
unfolding consistent changes_valid
consistent-distinct s h = ground arith

-- When a call of Update succeeds, two Changes of the state that it commits that are for the same
-- Option and both not terminal are the same Change: they stand under one key. This holds whatever
-- the call does and however the disk answers it.
pub committed_unique :
    {A : Type 0} (disk : Disk) (fn : State → Result (A × State)) (db : State) {a : A}
    {after : State} (k j : Key) {x y : Change}
    → update disk fn db ≡ (ok a, after)
    → lookup k after.changes ≡ some x
    → lookup j after.changes ≡ some y
    → terminal x ≡ false
    → terminal y ≡ false
    → x.option_id ≡ y.option_id
    → k ≡ j
committed_unique disk fn db {a} {after} k j {x} {y} e ex ey lx ly same =
    let c = update-ok disk fn db e in
    let (good, refreshed, _) = validate-ok c.refreshed c.valid_after in
    let (ts, frame) = refresh-frame c.refreshed refreshed in
    let at : after.changes ≡ c.refreshed.changes =
      ap (λ (s : State). s.changes) (c.stored ∙ ap (upserted c.loaded) frame) in
    changes_distinct_unique [] c.refreshed.changes k j {a = x} {b = y}
      (consistent-distinct c.refreshed good) (ap (lookup k) (sym at) ∙ ex)
      (ap (lookup j) (sym at) ∙ ey) lx ly same
