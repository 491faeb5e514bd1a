-- ===== src/Scheduler/Retirement.antt =====
-- Proofs about the transactions of Recover, internal/scheduler/recover.go: what they leave of
-- Attempts, leases and running Changes.
use scp_harness.Base.{
  ◌+◌, ℕ, pos, ◌≡◌, ◌≢◌, refl, ap, ◌∙◌, subst, none, some, true, false, [], ◌∷◌, Map, IsMap, lookup,
  erase, erase_absent, any_entry, lookup-erase, ok, ==_refl, if◌then◌else◌, arith,
}
use scp_harness.Model.{Key, Time, State, Change, Lease, is_running, set_change, touch}
use scp_harness.Ledger.Settlement.{settle-IsLedger}
use scp_harness.Core.{set_changes, stamp_changes}
use scp_harness.Core.Books.{Books, Served, Served-trans, Served-frame, touch-Served}
use scp_harness.Core.Settling.{Settled, settle-Books}
use scp_harness.Core.Serving.{set_changes-Served}
use scp_harness.Scheduler.Reconciliation.{retire_run, retire_leases, restart_change, retire_in}

retire_run-Served : (id task : Key) (s : State) → Books s → Served s (retire_run id task s)
unfolding retire_run
retire_run-Served id task s h =
    Served-frame s (retire_run id task s) (ground arith) (ground arith) (ground arith)
      (ground arith) (ground arith) (ground arith) h

erased_head :
    (id : Key) (l : Lease) (m : Map Lease) → lookup id m ≡ none → erase id ((id, l) ∷ m) ≡ m
unfolding erase
erased_head id l m absent = ground (arith, ==_refl id, erase_absent id m)

-- One lease after the other is settled, until there is none.
retire_leases_total :
    (m : Map Lease) (s : State)
    → s.leases ≡ m
    → Books s
    → ((k : Key) → lookup k s.leases ≢ none → lookup k s.attempts ≡ none)
    → (s' : State) × (retire_leases m s ≡ ok s')
      × (s'.leases ≡ [])
      × Books s'
      × (s'.attempts ≡ s.attempts)
unfolding retire_leases lookup
retire_leases_total [] s e h free = (s, refl, e, h, refl)
retire_leases_total ((id, l) ∷ m) s e h free =
    let here : lookup id s.leases ≡ some l = rw e (ground (arith, ==_refl id)) in
    let map : IsMap s.leases = h.ledger.lease_map in
    let absent : lookup id m ≡ none = (subst IsMap e map).0 in
    let no_attempt : lookup id s.attempts ≡ none = free id (λ gone. ground arith) in
    let (s1, e1, good) = settle-IsLedger id (pos 0) true s l h.ledger here (omega arith) in
    let x : Settled id s s1 = settle-Books id (pos 0) true s h s1 e1 in
    let run : State = retire_run id l.task_id s1 in
    let y : Served s1 run = retire_run-Served id l.task_id s1 x.books in
    let s2 : State = touch l.task_id run in
    let z : Served s1 s2 = Served-trans s1 run s2 y (touch-Served l.task_id run y.books) in
    let left : s2.leases ≡ m = z.leases ∙ x.leases ∙ ap (erase id) e ∙ erased_head id l m absent in
    let free' : (k : Key) → lookup k s2.leases ≢ none → lookup k s2.attempts ≡ none = λ k there.
      rw (z.attempts, x.attempts)
        (free k
          (λ gone. there (rw (z.leases, x.leases) (ground (arith, lookup-erase id k s.leases))))) in
    let (s', e', nothing, books, kept) = retire_leases_total m s2 left z.books free' in
    (s', rw (no_attempt, e1) e', nothing, books, kept ∙ z.attempts ∙ x.attempts)

-- No Change that ran when the core stopped is left running.
restarted-idle :
    (times : ℕ → Time) (n : ℕ) (m : Map Change)
    → any_entry
        (λ _ ch. is_running ch.state)
        (stamp_changes (λ ch. is_running ch.state) restart_change times n m).0
      ≡ false
unfolding stamp_changes any_entry set_change
restarted-idle times n [] = refl
restarted-idle times n ((k, ch) ∷ m) =
    ground (arith, restarted-idle times (if is_running ch.state then n + 1 else n) m)

-- What the retirement of the leases leaves.
pub record Retired (s s' : State) : Type 0 where
  pub leases : s'.leases ≡ []
  pub attempts : s'.attempts ≡ s.attempts
  pub idle : any_entry (λ _ ch. is_running ch.state) s'.changes ≡ false
  pub books : Books s'

-- In a state whose books are in order and in which no lease is one of an Attempt, the transaction
-- of Recover that retires the leases succeeds; no lease is left, no Change is running, the
-- Attempts are as they were, and the books are in order.
pub retire_in_total :
    (s : State)
    → Books s
    → ((k : Key) → lookup k s.leases ≢ none → lookup k s.attempts ≡ none)
    → (s' : State) × (retire_in s ≡ ok (tt, s')) × Retired s s'
unfolding retire_in set_changes
retire_in_total s h free =
    let (s1, e1, nothing, books, kept) = retire_leases_total s.leases s refl h free in
    let s2 : State = set_changes (λ ch. is_running ch.state) restart_change s1 in
    let x : Served s1 s2 = set_changes-Served (λ ch. is_running ch.state) restart_change s1 books in
    (
      s2,
      rw e1 refl,
      record {
        leases = x.leases ∙ nothing;
        attempts = x.attempts ∙ kept;
        idle = restarted-idle s1.times s1.draws s1.changes;
        books = x.books;
      },
    )
