-- ===== src/Core/Bearings.antt =====
-- Proofs about the parts of Complete of internal/core/runtime.go, and of Settle of
-- internal/ledger/ledger.go, that leave a task's status and its exploration as they are.
use scp_harness.Base.{
  ◌≡◌, refl, ap, ◌∙◌, lt_ℤ, Bool, true, false, some, ℤ, pos, lookup, insert, Map, lookup-insert,
  Code, ◌==◌, ==_iff, fail_if, or_fail, deref, deref-ok, Yields, Yields-ok, Yields-bind, arith,
  Option-cases, Bool-cases, inl, inr, add64,
}
use scp_harness.Model.{
  Key, State, Task, TaskStatus, Attempt, Step, flagged, is_active, is_closed, now, touch,
}
use scp_harness.Ledger.{settle, charge_of}
use scp_harness.Core.Common.{set_change_now}
use scp_harness.Core.Slots.{finish_activity, release, requeue}
use scp_harness.Core.Completions.{Completion}
use scp_harness.Core.Completing.{leave, pause_closed}
use scp_harness.Core.Serving.{Yields-after}

abbrev pub IsClosedTask : Key → State → Type 0
IsClosedTask k s = (t : Task) × (lookup k s.tasks ≡ some t) × (is_closed t.status ≡ true)

-- What the selection and the end of an activity read of a task.
abbrev pub bearing : Task → TaskStatus × Key
bearing t = (t.status, t.id)

-- The exploration of a task is as it was, and so are its status and its cancellation.
pub record Unmoved (k : Key) (s s' : State) : Type 0 where
  pub exploration : lookup k s'.exploration ≡ lookup k s.exploration
  pub cancelled : flagged k s'.cancellations ≡ flagged k s.cancellations
  pub status :
      (t : Task)
      → lookup k s.tasks ≡ some t
      → (t' : Task) × (lookup k s'.tasks ≡ some t') × (bearing t' ≡ bearing t)

-- A change of any other part of the state.
pub Unmoved-frame :
    (k : Key) (s s' : State)
    → s'.exploration ≡ s.exploration
    → s'.cancellations ≡ s.cancellations
    → s'.tasks ≡ s.tasks
    → Unmoved k s s'
Unmoved-frame k s s' ex ec et = record {
  exploration = ap (lookup k) ex;
  cancelled = ap (flagged k) ec;
  status = λ t e. (t, ap (lookup k) et ∙ e, refl);
}

pub Unmoved-trans : (k : Key) (a b c : State) → Unmoved k a b → Unmoved k b c → Unmoved k a c
Unmoved-trans k a b c f g = record {
  exploration = g.exploration ∙ f.exploration;
  cancelled = g.cancelled ∙ f.cancelled;
  status = λ t e.
      let (t1, e1, q1) = f.status t e in let (t2, e2, q2) = g.status t1 e1 in (t2, e2, q2 ∙ q1);
}

pub still-IsClosedTask :
    (k : Key) (s s' : State) → Unmoved k s s' → IsClosedTask k s → IsClosedTask k s'
still-IsClosedTask k s s' f (t, e, c) =
    let (t', e', q) = f.status t e in (t', e', ap (λ (r : TaskStatus × Key). is_closed r.0) q ∙ c)

written-status :
    (k id : Key) (t t' : Task) (m : Map Task)
    → lookup id m ≡ some t
    → bearing t' ≡ bearing t
    → (w : Task) → lookup k m ≡ some w
    → (w' : Task) × (lookup k (insert id t' m) ≡ some w') × (bearing w' ≡ bearing w)
written-status k id t t' m et same w e = elim (Bool-cases (k == id)) [
  | inl here ↦
      let is : t ≡ w = ground (arith, ==_iff k id) in
      (t', ground (arith, lookup-insert id k t' m), same ∙ ap bearing is)
  | inr other ↦ (w, ground (arith, lookup-insert id k t' m), refl)
]

pub touch-Unmoved : (k task : Key) (s : State) → Unmoved k s (touch task s)
unfolding touch
touch-Unmoved k task s = elim (Option-cases (lookup task s.tasks)) [
  | inl missing ↦ rw (touch, missing) (Unmoved-frame k s s refl refl refl)
  | inr (u, eu) ↦
      let u' : Task = record u { revision = add64 u.revision (pos 1); updated = now s } in
      rw (touch, eu)
        (record {
          exploration = refl;
          cancelled = refl;
          status = written-status k task u u' s.tasks eu refl;
        })
]

pub finish_activity-Unmoved : (k : Key) (p : Step) (s : State) → Unmoved k s (finish_activity p s)
unfolding finish_activity release requeue set_change_now
finish_activity-Unmoved k p s =
    Unmoved-frame k s (finish_activity p s) (ground arith) (ground arith) (ground arith)

pub leave-Unmoved : (k : Key) (v : Completion) (a : Attempt) (s : State) → Unmoved k s (leave v a s)
unfolding leave
leave-Unmoved k v a s =
    Unmoved-trans k s (finish_activity v.step s) _ (finish_activity-Unmoved k v.step s)
      (touch-Unmoved k a.task_id (finish_activity v.step s))

pub pause_closed-Unmoved : (k : Key) (a : Attempt) (s : State) → Unmoved k s (pause_closed a s)
unfolding pause_closed set_change_now
pause_closed-Unmoved k a s =
    Unmoved-frame k s (pause_closed a s) (ground arith) (ground arith) (ground arith)

pub settle-Unmoved :
    (k id : Key) (elapsed : ℤ) (uncertain : Bool) (s : State)
    → Yields (λ s'. Unmoved k s s' × (s'.changes ≡ s.changes)) (settle id elapsed uncertain s)
unfolding settle
settle-Unmoved k id elapsed uncertain s =
    let P : State → Type 0 = λ s'. Unmoved k s s' × (s'.changes ≡ s.changes) in
    Yields-after P (or_fail (lookup id s.leases) Code.core_inconsistent) _ λ l.
      Yields-after P (fail_if (lt_ℤ elapsed (pos 0)) Code.core_inconsistent) _ λ u.
        Yields-after P (deref (lookup l.anchor s.accounts)) _ λ a.
          Yields-bind P (deref (lookup l.task_id s.tasks)) _ λ t et.
            let t' : Task = record t {
              resources = record t.resources {
                charged = add64 t.resources.charged (charge_of elapsed uncertain l);
              };
            } in
            Yields-ok P _ (
              record {
                exploration = refl;
                cancelled = refl;
                status =
                    written-status k l.task_id t t' s.tasks (deref-ok (lookup l.task_id s.tasks) et)
                      refl;
              },
              refl,
            )

-- The task is open, and nobody has cancelled it.
pub record Continues (task : Key) (s : State) : Type 0 where
  pub owner : Task
  pub owned : lookup task s.tasks ≡ some owner
  pub keyed : owner.id ≡ task
  pub active : is_active owner.status ≡ true
  pub wanted : flagged task s.cancellations ≡ false

pub still-Continues :
    (task : Key) (s s' : State) → Unmoved task s s' → Continues task s → Continues task s'
still-Continues task s s' f h =
    let (t, e, same) = f.status h.owner h.owned in
    record {
      owner = t;
      owned = e;
      keyed = ap (λ (r : TaskStatus × Key). r.1) same ∙ h.keyed;
      active = ap (λ (r : TaskStatus × Key). is_active r.0) same ∙ h.active;
      wanted = f.cancelled ∙ h.wanted;
    }
