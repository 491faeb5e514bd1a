-- ===== src/Core/Leases.antt =====
-- Proofs about PrepareAttempt of internal/core/runtime.go: the lease that it takes.
use scp_harness.Base.{
  Yields, Yields-ok, Yields-bind, ℤ, pos, ◌≤ℤ◌, ◌≡◌, refl, true, false, some, lookup, insert, ok,
  Code, fail_if, deref, deref-ok, fail_if-ok, Result-cases, inl, inr, arith, le_ℤ, min_ℤ, any_entry,
}
use scp_harness.Model.{
  Key, State, Account, Config, Profile, Card, Step, Attempt, touch, fresh_id, drawn, active_attempt,
}
use scp_harness.Ledger.{reserve}
use scp_harness.Ledger.Invariant.{IsLedger}
use scp_harness.Ledger.Preservation.{reserve-IsLedger}
use scp_harness.Ledger.Frame.{IsLedger-frame, touch-IsLedger}
use scp_harness.Core.Attempts.{attempt_admits, prepare_attempt_in, bind_review, new_attempt, attach}
use scp_harness.Core.Steps.{anchor, runnable}

bind_review-frame : (p : Step) (id : Key) (s : State) → IsLedger s → IsLedger (bind_review p id s)
unfolding lookup
bind_review-frame p id s h =
    IsLedger-frame s (bind_review p id s) (ground arith) (ground arith) (ground arith) h

-- What an Attempt's preparation leaves behind: a lease that is positive and within all its bounds,
-- out of the account that the step is anchored at, in a state that satisfies the invariant. The
-- step could run, and no other Attempt was active.
pub record Prepared (cfg : Config) (profile : Profile) (card : Card) (p : Step) (s : State)
    (a : Attempt) (s' : State) : Type 0 where
  pub account : Account
  pub anchored : anchor p s ≡ ok a.anchor_id
  pub found : lookup a.anchor_id s.accounts ≡ some account
  pub positive : pos 1 ≤ℤ a.lease
  pub covered : a.lease ≤ℤ account.remaining
  pub within_profile : a.lease ≤ℤ profile.timeout
  pub within_card : a.lease ≤ℤ card.lease
  pub could_run : runnable cfg p s ≡ ok true
  pub alone : any_entry (λ _ other. active_attempt other) s.attempts ≡ false
  pub ledger : IsLedger s'

attempt_admits-ok :
    (cfg : Config) (p : Step) (owner : Key) (s : State) {u : Unit {0}}
    → attempt_admits cfg p owner s ≡ ok u
    → (runnable cfg p s ≡ ok true)
      × (any_entry (λ _ other. active_attempt other) s.attempts ≡ false)
unfolding attempt_admits
attempt_admits-ok cfg p owner s h = elim (Result-cases (runnable cfg p s)) [
  | inl (true, e) ↦ (e, ground arith)
  | inl (false, e) ↦ absurd (ground arith)
  | inr fails ↦ absurd (ground arith)
]

min_bounds :
    (a b c : ℤ)
    → (min_ℤ (min_ℤ a b) c ≤ℤ a) × (min_ℤ (min_ℤ a b) c ≤ℤ b) × (min_ℤ (min_ℤ a b) c ≤ℤ c)
min_bounds a b c = (ground arith, ground arith, ground arith)

le-positive : (n : ℤ) → le_ℤ n (pos 0) ≡ false → pos 1 ≤ℤ n
le-positive n h = ground arith

attach-IsLedger :
    (p : Step) (id : Key) (a : Attempt) (s : State) → IsLedger s → IsLedger (attach p id a s)
unfolding attach
attach-IsLedger p id a s h =
    let written : State = record s { attempts = insert id a s.attempts } in
    IsLedger-frame (bind_review p id written) (attach p id a s) refl refl refl
      (bind_review-frame p id written (IsLedger-frame s written refl refl refl h))

prepare_attempt_in-Yields :
    (cfg : Config) (profile : Profile) (card : Card) (p : Step) (owner : Key) (s : State)
    → IsLedger s
    → Yields
        (λ r. Prepared cfg profile card p s r.0 r.1)
        (prepare_attempt_in cfg profile card p owner s)
unfolding prepare_attempt_in new_attempt
prepare_attempt_in-Yields cfg profile card p owner s h =
    let P : Attempt × State → Type 0 = λ r. Prepared cfg profile card p s r.0 r.1 in
    Yields-bind P (attempt_admits cfg p owner s) _ λ u eu. Yields-bind P (anchor p s) _ λ k ek.
      Yields-bind P (deref (lookup k s.accounts)) _ λ account ea.
        let lease : ℤ = min_ℤ (min_ℤ account.remaining profile.timeout) card.lease in
        Yields-bind P (fail_if (le_ℤ lease (pos 0)) Code.insufficient_resource) _ λ v ev.
          Yields-bind P (deref (lookup p.task_id s.tasks)) _ λ t et.
            let a : Attempt = new_attempt profile card p k lease t s in
            let before : State = drawn (drawn s) in
            Yields-bind P (reserve (fresh_id s) k lease before) _ λ s1 e1.
              let (fit, alone) = attempt_admits-ok cfg p owner s eu in
              let (b1, b2, b3) = min_bounds account.remaining profile.timeout card.lease in
              let h1 : IsLedger s1 =
                reserve-IsLedger (fresh_id s) k lease before
                  (IsLedger-frame s before refl refl refl h) e1 in
              let s2 : State = attach p (fresh_id s) a s1 in
              Yields-ok P (a, touch t.id s2)
                (record {
                  account = account;
                  anchored = ek;
                  found = deref-ok (lookup k s.accounts) ea;
                  positive = le-positive lease (fail_if-ok (le_ℤ lease (pos 0)) _ ev);
                  covered = b1;
                  within_profile = b2;
                  within_card = b3;
                  could_run = fit;
                  alone = alone;
                  ledger = touch-IsLedger t.id s2 (attach-IsLedger p (fresh_id s) a s1 h1);
                })

-- When the transaction of PrepareAttempt succeeds on a state that satisfies the invariant of the
-- ledger, the Attempt is anchored at the account that Anchor names, its lease is positive and at
-- most that account's balance, the profile's timeout and the card's limit; the step was runnable,
-- no Attempt was active before, and the invariant holds afterwards.
pub prepare_attempt_in-Prepared :
    (cfg : Config) (profile : Profile) (card : Card) (p : Step) (owner : Key) (s : State)
    {a : Attempt} {s' : State}
    → IsLedger s
    → prepare_attempt_in cfg profile card p owner s ≡ ok (a, s')
    → Prepared cfg profile card p s a s'
prepare_attempt_in-Prepared cfg profile card p owner s h e =
    prepare_attempt_in-Yields cfg profile card p owner s h _ e
