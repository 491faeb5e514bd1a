-- ===== src/Scheduler/Explorations.antt =====
-- Proofs that an exploration ends, by Complete of internal/core/runtime.go and by the crashes that
-- internal/scheduler/recover.go counts.
use scp_harness.Base.{
  lookup, ℕ, suc, ◌+◌, ◌≤◌, ◌<◌, ℤ, pos, ◌+ℤ◌, ◌≡◌, refl, ap, sym, ◌∙◌, Option, none, some, Bool,
  true, false, List, [], ◌∷◌, length, ok, ok-inj, arith, int_laws, Bool-cases, inl, inr, ◌⊎◌, lt_ℤ,
  add64, add64-id, IsInt64, Yields, Yields-ok, Yields-bind, ◌&&◌,
}
use scp_harness.Model.{Config, Artifact, Key, State, Card, Attempt, Exploration, Step, Operation}
use scp_harness.Core.{
  succeeds, Completion, explored, generated, judge, synthesised, exploration_step, from_index,
}
use scp_harness.Worker.{partition}
use scp_harness.Core.{complete_in, is_terminated, is_fatal}
use scp_harness.Core.Bearings.{IsClosedTask}
use scp_harness.Core.Advancing.{Exploring, Explored}
use scp_harness.Core.Progress.{complete_in-Progressed}
use scp_harness.Scheduler.Counting.{crash_attempt_in-Counted}
use scp_harness.Scheduler.Reconciliation.{crash_attempt_in, crash_exploration, explores}
use scp_harness.Scheduler.Exploring.{
  from_index-next, add_one, stages_left, groups_left, Chosen, exploration_step-Chosen,
  exploration_step-keeps,
}

-- One activity of an exploration, with the exploration `x` before it and `z` after it: Complete ends
-- an Attempt of the step that explorationStep has found, and the task is still open, or Recover ends
-- such an Attempt as crashed.
pub data Round (cfg : Config) (task : Key) (x z : Exploration) : Type 0 where
  completes :
      {p : Step} {x' : Exploration}
      → exploration_step task x cfg.exploration_n ≡ ok (some p, x')
      → (locked : Bool) (v : Completion) (a : Attempt) (s : State) {s' : State}
      → lookup v.attempt_id s.attempts ≡ some a
      → a.operation ≡ p.operation
      → Exploring task a v.step s
      → (is_terminated v.status && is_fatal v.reason) ≡ false
      → lookup task s.exploration ≡ some x'
      → complete_in cfg locked v s ≡ ok (tt, s')
      → ¬ IsClosedTask task s'
      → lookup task s'.exploration ≡ some z
      → Round cfg task x z
  crashes :
      {p : Step} {x' : Exploration}
      → exploration_step task x cfg.exploration_n ≡ ok (some p, x')
      → (a : Attempt) (q : Step) (captured : Option Artifact) (s : State) {s' : State}
      → a.task_id ≡ task
      → a.operation ≡ p.operation
      → lookup task s.exploration ≡ some x'
      → crash_attempt_in a q captured s ≡ ok (tt, s')
      → lookup task s'.exploration ≡ some z
      → Round cfg task x z

pub record Over (cfg : Config) (task : Key) (x : Exploration) : Type 0 where
  pub last : Exploration
  pub none_left : exploration_step task x cfg.exploration_n ≡ ok (none, last)

-- A stage less, or as many stages and a group less.
data Less (n : ℤ) (y x : Exploration) : Type 0 where
  stage : stages_left n y < stages_left n x → Less n y x
  group : stages_left n y ≡ stages_left n x → groups_left y < groups_left x → Less n y x

generated-Less :
    (n : ℤ) (ids : List Key) (x : Exploration)
    → IsInt64 x.count
    → IsInt64 n
    → lt_ℤ x.count n ≡ true
    → stages_left n (generated ids x) < stages_left n x
unfolding stages_left
generated-Less n ids x fx fn more =
    let fits : IsInt64 (x.count +ℤ pos 1) = record {
      upper = grind (int_laws, fn.upper);
      lower = grind (int_laws, fx.lower);
    } in
    grind (int_laws, add64-id x.count (pos 1) fits)

crashed_generation :
    (n : ℤ) (x : Exploration)
    → IsInt64 x.count
    → IsInt64 n
    → lt_ℤ x.count n ≡ true
    → stages_left n (record x { count = add64 x.count (pos 1) }) < stages_left n x
unfolding stages_left
crashed_generation n x fx fn more = generated-Less n [] x fx fn more

judged-Less :
    (n : ℤ) (gs : List (List Key)) (x x' : Exploration)
    → x' ≡ x
    → x.judged ≡ false
    → stages_left n (record x' { judged = true; groups = gs }) < stages_left n x
unfolding stages_left
judged-Less n gs x x' is waits = rw is (ground arith)

judge-is :
    (task : Key) (valid : Bool) (groups : List (List Key)) (ids : List Key) (x : Exploration)
    (s : State)
    → (gs : List (List Key)) × ((judge task valid groups ids x s).0
        ≡ record x { judged = true; groups = gs })
unfolding judge
judge-is task valid groups ids x s = elim (Bool-cases (valid && succeeds (partition groups ids))) [
  | inl sound ↦ (groups, rw (judge, sound) refl)
  | inr unsound ↦ ([], rw (judge, unsound) refl)
]

from_index-shorter :
    {A : Type 0} (i : ℕ) (xs : List A)
    → 1 ≤ length (from_index i xs)
    → length (from_index (i + 1) xs) < length (from_index i xs)
from_index-shorter i xs some_left = shorter i xs (from_index i xs) refl some_left
  where
    shorter :
        {A : Type 0} (i : ℕ) (xs ys : List A)
        → from_index i xs ≡ ys
        → 1 ≤ length ys
        → length (from_index (i + 1) xs) < length (from_index i xs)
    shorter i xs [] e h = absurd (omega arith)
    shorter i xs (y ∷ ys) e h =
        let rest : from_index (suc i) xs ≡ ys = from_index-next i xs e in
        rw (add_one i, rest, e) (omega arith)

merged-Less :
    (n : ℤ) (x y : Exploration)
    → y.count ≡ x.count
    → y.judged ≡ x.judged
    → 1 ≤ groups_left y
    → groups_left y ≤ groups_left x
    → Less n (record y { group_index = y.group_index + 1 }) x
unfolding groups_left stages_left
merged-Less n x y ec ej some_left fewer =
    Less.group (rw (ec, ej) refl)
      (let less = from_index-shorter y.group_index y.groups some_left in omega arith)

synthesised-is :
    (v : Completion) (card : Card) (a : Attempt) (valid : Bool) (x : Exploration) (s : State)
    → Yields
        (λ r. r.0 ≡ record x { group_index = x.group_index + 1 })
        (synthesised v card a valid x s)
unfolding synthesised
synthesised-is v card a valid x s =
    let P : Exploration × State → Type 0 =
      λ r. r.0 ≡ record x { group_index = x.group_index + 1 } in
    Yields-bind P _ _ λ s1 e1. Yields-ok P (record x { group_index = x.group_index + 1 }, s1) refl

-- An activity that completes leaves less to explore.
explored-Less :
    (n : ℤ) (x x' y : Exploration) (op : Operation) (v : Completion) (card : Card) (a : Attempt)
    (valid : Bool) (ids : List Key) (s s' : State)
    → IsInt64 x.count
    → IsInt64 n
    → Chosen n x x' op
    → explored op v card a valid ids x' s ≡ ok (y, s')
    → Less n y x
unfolding explored
explored-Less n x x' y op v card a valid ids s s' fx fn (Chosen.generates more is) e =
    let first : y ≡ generated ids x' = sym (ap (λ (r : Exploration × State). r.0) (ok-inj e)) in
    Less.stage (rw (first, is) (generated-Less n ids x fx fn more))
explored-Less n x x' y op v card a valid ids s s' fx fn (Chosen.judges enough waits is) e =
    let first : y ≡ (judge a.task_id valid v.answer.groups v.step.participants x' s).0 =
      sym (ap (λ (r : Exploration × State). r.0) (ok-inj e)) in
    let (gs, judged) = judge-is a.task_id valid v.answer.groups v.step.participants x' s in
    Less.stage (rw (first ∙ judged) (judged-Less n gs x x' is waits))
explored-Less n x x' y op v card a valid ids s s' fx fn (Chosen.merges ec ej some_left fewer) e =
    let first : y ≡ record x' { group_index = x'.group_index + 1 } =
      synthesised-is v card a valid x' s (y, s') e in
    rw first (merged-Less n x x' ec ej some_left fewer)

crashed-Less :
    (n : ℤ) (x x' : Exploration) (op : Operation)
    → IsInt64 x.count
    → IsInt64 n
    → Chosen n x x' op
    → Less n (crash_exploration op x') x
crashed-Less n x x' op fx fn (Chosen.generates more is) =
    rw is (Less.stage (crashed_generation n x fx fn more))
crashed-Less n x x' op fx fn (Chosen.judges enough waits is) =
    Less.stage (judged-Less n [] x x' is waits)
crashed-Less n x x' op fx fn (Chosen.merges ec ej some_left fewer) =
    merged-Less n x x' ec ej some_left fewer

Less-after :
    (n : ℤ) (x y z : Exploration)
    → Less n y x
    → (stages_left n z ≡ stages_left n y) × (groups_left z ≤ groups_left y)
    → Less n z x
Less-after n x y z (Less.stage h) (same, fewer) = Less.stage (omega arith)
Less-after n x y z (Less.group e h) (same, fewer) = Less.group (same ∙ e) (omega arith)

-- What Complete stores leaves less to explore.
moved-Less :
    (n : ℤ) (task : Key) (x x' z : Exploration) (op : Operation)
    → IsInt64 x.count
    → IsInt64 n
    → Chosen n x x' op
    → Explored n task op x' z
    → Less n z x
unfolding stages_left groups_left
moved-Less n task x x' z op fx fn chosen h =
    let less : Less n h.left x =
      explored-Less n x x' h.left op h.completion h.card h.attempt h.valid h.ids h.state
        h.state_after fx fn chosen h.was_explored in
    let found : Less n h.found x =
      Less-after n x h.left h.found less
        (exploration_step-keeps task n h.left {q = h.next} {y = h.found} h.stepped) in
    elim h.is_found [
      | inl is ↦ rw is found
      | inr is ↦
          rw is (Less-after n x h.found (record h.found { done = true }) found (refl, omega arith))
    ]

Chosen-explores :
    (n : ℤ) (x x' : Exploration) {op : Operation} → Chosen n x x' op → explores op ≡ true
Chosen-explores n x x' (Chosen.generates more is) = refl
Chosen-explores n x x' (Chosen.judges enough waits is) = refl
Chosen-explores n x x' (Chosen.merges ec ej some_left fewer) = refl

Round-Less :
    (cfg : Config) (task : Key) (x z : Exploration)
    → IsInt64 x.count
    → IsInt64 cfg.exploration_n
    → Round cfg task x z
    → Less cfg.exploration_n z x
Round-Less cfg task x z fx fn
      (Round.completes {p} {x'} e locked v a s {s'} ea same exploring survives ex done unclosed
        ez) =
    let n : ℤ = cfg.exploration_n in
    let chosen : Chosen n x x' a.operation =
      rw same (exploration_step-Chosen task n x {p = p} {y = x'} e) in
    elim (complete_in-Progressed cfg locked v task a x' s ea exploring survives ex (tt, s') done) [
      | inl closed ↦ absurd (unclosed closed)
      | inr (y, ey, h) ↦
          let is : z ≡ y = ground arith in
          rw is (moved-Less n task x x' y a.operation fx fn chosen h)
    ]
Round-Less cfg task x z fx fn
      (Round.crashes {p} {x'} e a q captured s {s'} of_task same ex done ez) =
    let n : ℤ = cfg.exploration_n in
    let chosen : Chosen n x x' a.operation =
      rw same (exploration_step-Chosen task n x {p = p} {y = x'} e) in
    let counted : lookup a.task_id s'.exploration ≡ some (crash_exploration a.operation x') =
      crash_attempt_in-Counted a q captured x' s (Chosen-explores n x x' chosen)
        (ap (λ k. lookup k s.exploration) of_task ∙ ex) (tt, s') done in
    let is : z ≡ crash_exploration a.operation x' =
      let there : lookup task s'.exploration ≡ some (crash_exploration a.operation x') =
        ap (λ k. lookup k s'.exploration) (sym of_task) ∙ counted in
      ground arith in
    rw is (crashed-Less n x x' a.operation fx fn chosen)

module _ (cfg : Config) (task : Key) (run : ℕ → Exploration) (fn : IsInt64 cfg.exploration_n)
    (fits : (k : ℕ) → IsInt64 (run k).count)
    (rounds : (k : ℕ) → Over cfg task (run k) ⊎ Round cfg task (run k) (run (k + 1))) where
  ends_within :
      (stages groups k : ℕ)
      → stages_left cfg.exploration_n (run k) < stages
      → groups_left (run k) < groups
      → (j : ℕ) × Over cfg task (run j)
  ends_within ℕ.zero groups k hs hg = absurd (omega arith)
  ends_within (ℕ.suc stages) ℕ.zero k hs hg = absurd (omega arith)
  ends_within (ℕ.suc stages) (ℕ.suc groups) k hs hg = elim (rounds k) [
    | inl over ↦ (k, over)
    | inr round ↦ elim (Round-Less cfg task (run k) (run (k + 1)) (fits k) fn round) [
      | Less.stage fewer ↦
          ends_within stages (suc (groups_left (run (k + 1)))) (k + 1) (omega arith) (omega arith)
      | Less.group same fewer ↦ ends_within (suc stages) groups (k + 1) (omega arith) (omega arith)
    ]
  ]

  -- An exploration ends: in every sequence of explorations of a task in which each is either over,
  -- that is explorationStep finds no activity for it, or is followed by what Complete or Recover
  -- stores when it ends an Attempt of the activity that explorationStep has found, one is over,
  -- whatever the workers answer. An Attempt that Complete ends is one of an open task that is not
  -- cancelled, does not end TERMINATED by a reason of exit status 4 or more, which would leave the
  -- exploration as it was, and does not close the task, which would end the exploration; the Attempt
  -- has no Change and its step no option. The counts and the number of generations are int64.
  pub exploration_ends : (k : ℕ) × Over cfg task (run k)
  exploration_ends =
      ends_within (suc (stages_left cfg.exploration_n (run 0))) (suc (groups_left (run 0))) 0
        (omega arith) (omega arith)
