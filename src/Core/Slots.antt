-- ===== src/Core/Slots.antt =====
-- The one execution slot: Next, release, finishActivity, Release, MarkRunning and EndPromotion of
-- internal/core/runtime.go, and SortedTasks of internal/core/core.go.
use scp_harness.Base.{
  ℕ, pos, Bool, true, not, ◌&&◌, ◌||◌, Option, none, some, List, [], ◌∷◌, Map, lookup, insert,
  erase, map, Result, ok, err, panic, Code, ◌>>=◌, ◌>>◌, fail_if, deref, ◌==◌, ltb, if◌then◌else◌,
  le_ℤ, keep,
}
use scp_harness.Model.{
  Key, State, Task, Attempt, AttemptStatus, Step, Change, ChangeState, Operation, Slot, SlotState,
  Config, Message, is_queued, is_running, is_await_promotion, is_active, is_idle, flagged, audit,
  touch,
}
use scp_harness.Store.{Disk, update}
use scp_harness.Core.Common.{core_update, set_change_now}
use scp_harness.Core.Steps.{anchor, runnable, change_step, exploration_step}
use Prim.Native.String.{String}

abbrev pub operation_name : Operation → String
operation_name Operation.mutation = "mutation"
operation_name Operation.ci = "ci"
operation_name Operation.review = "review"
operation_name Operation.promotion = "promotion"
operation_name Operation.discussion = "discussion"
operation_name Operation.option_generation = "option_generation"
operation_name Operation.merge_judge = "merge_judge"
operation_name Operation.merge_synth = "merge_synth"
operation_name Operation.recovery = "recovery"
operation_name Operation.other = ""

-- sort.Slice by a strict order.
unfoldable pub place : {A : Type 0} → (A → A → Bool) → A → List A → List A
place less x [] = x ∷ []
place less x (y ∷ ys) = let rest = place less x ys in if less y x then y ∷ rest else x ∷ y ∷ ys

unfoldable pub sort : {A : Type 0} → (A → A → Bool) → List A → List A
sort less [] = []
sort less (x ∷ xs) = place less x (sort less xs)

abbrev pub values : {A : Type 0} → Map A → List A
values = map (λ e. e.1)

-- The order of Next on Changes: those that have started, then by age, then by id.
abbrev pub change_before : Change → Change → Bool
change_before a b =
    if a.started
    then not b.started
      || (if a.created == b.created then ltb a.id b.id else ltb a.created b.created)
    else not b.started
      && (if a.created == b.created then ltb a.id b.id else ltb a.created b.created)

abbrev pub task_before : Task → Task → Bool
task_before a b = if a.created == b.created then ltb a.id b.id else ltb a.created b.created

unfoldable pub sorted_tasks : State → List Task
sorted_tasks s = sort task_before (values s.tasks)

abbrev pub is_candidate : Change → Bool
is_candidate ch = is_queued ch.state && not (is_await_promotion ch.stage)

-- The loop of Next over the requests.
unfoldable pub next_request : Config → List Step → State → Result (Option Step)
next_request cfg [] s = ok none
next_request cfg (p ∷ ps) s = do
  fit ← runnable cfg p s
  if fit then ok (some p) else next_request cfg ps s

-- What Next does to a Change whose activity cannot run: without resource at its anchor it blocks.
unfoldable pub hold_change : Change → Step → State → Result State
hold_change ch p s = elim (anchor p s) [
  | ok k ↦ do
    a ← deref (lookup k s.accounts)
    ok (
        if le_ℤ a.remaining (pos 0)
        then set_change_now ch.id ch ch.stage ChangeState.blocked "INSUFFICIENT_RESOURCE" s
        else s)
  | err _ ↦ ok s
  | panic ↦ panic
]

-- The loop of Next over the sorted Changes. A Change stands under its id, as Validate checks.
unfoldable pub next_change : Config → List Change → State → Result (Option Step × State)
next_change cfg [] s = ok (none, s)
next_change cfg (ch ∷ chs) s = do
  t ← deref (lookup ch.task_id s.tasks)
  if not (ch.base_sha == t.sha)
      then next_change cfg chs (set_change_now ch.id ch ch.stage ChangeState.stale "BASE_CHANGED" s)
      else elim (change_step ch) [
        | none ↦ next_change cfg chs s
        | some p ↦ do
          fit ← runnable cfg p s
          if fit
              then ok (
                some p,
                set_change_now ch.id (record ch { started = true }) ch.stage ChangeState.running ""
                    s,
              )
              else (do s' ← hold_change ch p s; next_change cfg chs s')
      ]

-- One round of the loop of Next over the tasks.
unfoldable pub explore : Config → Task → State → Result (Option Step × State)
explore cfg t s =
    if not (is_active t.status) || flagged t.id s.cancellations
    then ok (none, s)
    else elim (lookup t.id s.exploration) [
      | none ↦ ok (none, s)
      | some x ↦ if x.done then ok (none, s) else do
        (p, x') ← exploration_step t.id x cfg.exploration_n
        elim p [
          | none ↦
              let ended : State = record s {
                exploration = insert t.id (record x' { done = true }) s.exploration;
              } in
              ok (none, touch t.id ended)
          | some step ↦ do
            let moved : State = record s { exploration = insert t.id x' s.exploration }
            fit ← runnable cfg step moved
            ok (if fit then some step else none, moved)
        ]
    ]

unfoldable pub next_exploration : Config → List Task → State → Result (Option Step × State)
next_exploration cfg [] s = ok (none, s)
next_exploration cfg (t ∷ ts) s = do
  (p, s') ← explore cfg t s
  elim p [ some step ↦ ok (some step, s') | none ↦ next_exploration cfg ts s' ]

unfoldable pub acquire : Key → ℕ → Step → State → State
acquire owner pid p s =
    let slot : Slot = record { kind = p.operation; state = SlotState.busy; owner = none } in
    audit p.task_id "SLOT_ACQUIRED" (Message.words (operation_name p.operation)) (record s {
      pending = insert p.task_id p s.pending;
      slot = slot;
      slot_task = p.task_id;
      slot_owner = owner;
      slot_pid = pid;
    })

unfoldable pub or_else :
    Option Step → State → Result (Option Step × State) → Result (Option Step × State)
or_else none s later = later
or_else (some p) s later = ok (some p, s)

-- The transaction of Next, in the process `pid`.
unfoldable pub next_in : Config → Key → ℕ → State → Result (Option Step × State)
next_in cfg owner pid s = do
  fail_if (not (is_idle s.slot.state)) Code.blocked
  requested ← next_request cfg s.requests s
  (changed, s1) ←
      or_else requested s
        (next_change cfg (sort change_before (keep is_candidate (values s.changes))) s)
  (chosen, s2) ← or_else changed s1 (next_exploration cfg (sorted_tasks s1) s1)
  elim chosen [ none ↦ ok (none, s2) | some p ↦ ok (some p, acquire owner pid p s2) ]

unfoldable pub next : Config → Disk → Key → ℕ → State → Result (Option Step) × State
next cfg disk owner pid db = core_update disk (next_in cfg owner pid) db

-- The Change of the activity that held the slot goes back to the queue.
unfoldable pub requeue : Step → State → State
requeue p s = elim (lookup p.change_id s.changes) [
  | none ↦ s
  | some ch ↦
      if is_running ch.state
      then set_change_now p.change_id ch ch.stage ChangeState.queued ch.reason s
      else s
]

abbrev pub idle_slot : Slot
idle_slot = record { kind = Operation.other; state = SlotState.idle; owner = none }

-- release
unfoldable pub release : State → State
release s =
    let dropped : State = elim (lookup s.slot_task s.pending) [
      | none ↦ s
      | some p ↦
          let s' : State = requeue p s in record s' { pending = erase s.slot_task s'.pending }
    ] in
    record dropped { slot = idle_slot; slot_task = 0; slot_owner = 0; slot_pid = 0 }

-- The loop of finishActivity: the first request of an id goes.
unfoldable pub drop_request : Key → List Step → List Step
drop_request id [] = []
drop_request id (p ∷ ps) =
    let rest = drop_request id ps in if p.request_id == id then ps else p ∷ rest

-- finishActivity
unfoldable pub finish_activity : Step → State → State
finish_activity p s = release (record s {
  requests = if p.request_id == 0 then s.requests else drop_request p.request_id s.requests;
  pending = erase p.task_id s.pending;
})

-- (*Core).Release
unfoldable pub release_owned : Disk → Key → State → Result (Unit {0}) × State
release_owned disk owner db =
    update disk (λ s. ok (tt, if s.slot_owner == owner then release s else s)) db

-- The transaction of MarkRunning.
unfoldable pub mark_running_in : Key → State → Result (Unit {0} × State)
mark_running_in id s = elim (lookup id s.attempts) [
  | none ↦ err Code.core_inconsistent
  | some a ↦ elim a.status [
    | AttemptStatus.preparing ↦
        let a' : Attempt = record a { status = AttemptStatus.running } in
        ok (tt, touch a.task_id (record s { attempts = insert id a' s.attempts }))
    | _ ↦ err Code.core_inconsistent
  ]
]

unfoldable pub mark_running : Disk → Key → State → Result (Unit {0}) × State
mark_running disk id db = core_update disk (mark_running_in id) db

-- `if sha != "" { s.Tasks[p.TaskID].SHA = sha }`
unfoldable pub rebase : Key → Key → State → Result State
rebase task ℕ.zero s = ok s
rebase task (ℕ.suc n) s = do
  t ← deref (lookup task s.tasks)
  let t' : Task = record t { sha = ℕ.suc n }
  ok (record s { tasks = insert task t' s.tasks })

-- The transaction of EndPromotion, where `reason` is the code of the event.
unfoldable pub end_promotion_in : Step → Key → String → State → Result (Unit {0} × State)
end_promotion_in p sha reason s = do
  based ← rebase p.task_id sha s
  let staled : State = elim (lookup p.change_id based.changes) [
    | none ↦ based
    | some ch ↦ set_change_now p.change_id ch ch.stage ChangeState.stale reason based
  ]
  ok (
    tt,
    touch p.task_id (finish_activity p (audit p.task_id reason (Message.about p.change_id) staled)),
  )

unfoldable pub end_promotion : Disk → Step → Key → String → State → Result (Unit {0}) × State
end_promotion disk p sha reason db = update disk (end_promotion_in p sha reason) db
