-- ===== src/Core/Selecting.antt =====
-- Proofs about the three ways in which Next of internal/core/runtime.go selects a step.
use scp_harness.Base.{
  Yields, Yields-ok, ◌≡◌, refl, ◌∙◌, subst, true, false, not, ◌||◌, Option, none, some, List, [],
  ◌∷◌, lookup, insert, ok, ◌>>=◌, Result-cases, Option-cases, Bool-cases, inl, inr, arith, ◌==◌,
  if◌then◌else◌, le_ℤ, pos,
}
use scp_harness.Model.{
  Key, State, Task, Step, Config, Change, ChangeState, Stage, Exploration, is_active, touch,
  flagged,
}
use Prim.Native.String.{String}
use scp_harness.Core.Common.{set_change_now}
use scp_harness.Core.Steps.{anchor, runnable, change_step, exploration_step}
use scp_harness.Core.Slots.{next_request, next_change, next_exploration, explore, hold_change}

-- What the selection leaves alone: the accounts, the options, the cancellations and the blockers.
pub record Alike (s s' : State) : Type 0 where
  pub accounts : s'.accounts ≡ s.accounts
  pub options : s'.options ≡ s.options
  pub cancellations : s'.cancellations ≡ s.cancellations
  pub blockers : s'.blockers ≡ s.blockers

pub Alike-refl : (s : State) → Alike s s
Alike-refl s = record { accounts = refl; options = refl; cancellations = refl; blockers = refl }

Alike-trans : (a b c : State) → Alike a b → Alike b c → Alike a c
Alike-trans a b c f g = record {
  accounts = g.accounts ∙ f.accounts;
  options = g.options ∙ f.options;
  cancellations = g.cancellations ∙ f.cancellations;
  blockers = g.blockers ∙ f.blockers;
}

-- The step could run in a state that is alike.
abbrev pub CouldRun : Config → State → Step → Type 0
CouldRun cfg s p = (s0 : State) × Alike s s0 × (runnable cfg p s0 ≡ ok true)

-- One of the three ways to select: no step, or one that could run.
abbrev pub Selected : Config → State → Option Step × State → Type 0
Selected cfg s (none, s') = Alike s s'
Selected cfg s (some p, s') = Alike s s' × CouldRun cfg s p

pub Selected-after :
    (cfg : Config) (s mid : State) (r : Option Step × State)
    → Alike s mid
    → Selected cfg mid r
    → Selected cfg s r
Selected-after cfg s mid (none, s') f h = Alike-trans s mid s' f h
Selected-after cfg s mid (some p, s') f (h, (s0, g, run)) =
    (Alike-trans s mid s' f h, (s0, Alike-trans s mid s0 f g, run))

set_change_now-Alike :
    (id : Key) (ch : Change) (stage : Stage) (st : ChangeState) (reason : String) (s : State)
    → Alike s (set_change_now id ch stage st reason s)
unfolding set_change_now
set_change_now-Alike id ch stage st reason s = record {
  accounts = refl;
  options = refl;
  cancellations = refl;
  blockers = refl;
}

touch-Alike : (k : Key) (s : State) → Alike s (touch k s)
unfolding touch
touch-Alike k s = record {
  accounts = ground arith;
  options = ground arith;
  cancellations = ground arith;
  blockers = ground arith;
}

pub next_request-CouldRun :
    (cfg : Config) (ps : List Step) (s : State) (p : Step)
    → next_request cfg ps s ≡ ok (some p)
    → runnable cfg p s ≡ ok true
unfolding next_request
next_request-CouldRun cfg [] s p h = absurd (ground arith)
next_request-CouldRun cfg (q ∷ ps) s p h = elim (Result-cases (runnable cfg q s)) [
  | inl (true, e) ↦ ground arith
  | inl (false, e) ↦ next_request-CouldRun cfg ps s p (ground arith)
  | inr fails ↦ absurd (ground arith)
]

hold_change-Alike : (ch : Change) (p : Step) (s : State) → Yields (Alike s) (hold_change ch p s)
unfolding hold_change set_change_now
hold_change-Alike ch p s s' h = elim (Result-cases (anchor p s)) [
  | inl (k, e) ↦ elim (Option-cases (lookup k s.accounts)) [
    | inl missing ↦ absurd (ground arith)
    | inr (a, ea) ↦ elim (Bool-cases (le_ℤ a.remaining (pos 0))) [
      | inl poor ↦
          let same : set_change_now ch.id ch ch.stage ChangeState.blocked "INSUFFICIENT_RESOURCE" s
              ≡ s' =
            ground arith in
          subst (Alike s) same
            (set_change_now-Alike ch.id ch ch.stage ChangeState.blocked "INSUFFICIENT_RESOURCE" s)
      | inr rich ↦ let same : s ≡ s' = ground arith in subst (Alike s) same (Alike-refl s)
    ]
  ]
  | inr (inl (c, e)) ↦ let same : s ≡ s' = ground arith in subst (Alike s) same (Alike-refl s)
  | inr (inr e) ↦ absurd (ground arith)
]

pub next_change-Selected :
    (cfg : Config) (chs : List Change) (s : State) → Yields (Selected cfg s) (next_change cfg chs s)
unfolding next_change
next_change-Selected cfg [] s r h = Yields-ok (Selected cfg s) (none, s) (Alike-refl s) r h
next_change-Selected cfg (ch ∷ chs) s r h = elim (Option-cases (lookup ch.task_id s.tasks)) [
  | inl missing ↦ absurd (ground arith)
  | inr (t, et) ↦ elim (Bool-cases (not (ch.base_sha == t.sha))) [
    | inl moved ↦
        let s1 : State = set_change_now ch.id ch ch.stage ChangeState.stale "BASE_CHANGED" s in
        Selected-after cfg s s1 r
          (set_change_now-Alike ch.id ch ch.stage ChangeState.stale "BASE_CHANGED" s)
          (next_change-Selected cfg chs s1 r (ground arith))
    | inr based ↦ elim (Option-cases (change_step ch)) [
      | inl idle ↦ next_change-Selected cfg chs s r (ground arith)
      | inr (p, ep) ↦ elim (Result-cases (runnable cfg p s)) [
        | inr fails ↦ absurd (ground arith)
        | inl (true, fit) ↦
            let s1 : State =
              set_change_now ch.id (record ch { started = true }) ch.stage ChangeState.running ""
                s in
            let same : ◌≡◌ {A = Option Step × State} (some p, s1) r = ground arith in
            subst (Selected cfg s) same (
              set_change_now-Alike ch.id (record ch { started = true }) ch.stage ChangeState.running
                  "" s,
              (s, Alike-refl s, fit),
            )
        | inl (false, fit) ↦ elim (Result-cases (hold_change ch p s)) [
          | inl (s1, held) ↦
              Selected-after cfg s s1 r (hold_change-Alike ch p s s1 held)
                (next_change-Selected cfg chs s1 r (ground arith))
          | inr fails ↦ absurd (ground arith)
        ]
      ]
    ]
  ]
]

moved-Alike :
    (k : Key) (x : Exploration) (s : State)
    → Alike s (record s { exploration = insert k x s.exploration })
moved-Alike k x s = record {
  accounts = refl;
  options = refl;
  cancellations = refl;
  blockers = refl;
}

-- The end of one round, on the step that the exploration names.
unfold_step :
    (cfg : Config) (s moved : State) (step : Step) (r : Option Step × State)
    → Alike s moved
    → (do fit ← runnable cfg step moved; ok (if fit then some step else none, moved)) ≡ ok r
    → Selected cfg s r
unfold_step cfg s moved step r f h = elim (Result-cases (runnable cfg step moved)) [
  | inr fails ↦ absurd (ground arith)
  | inl (true, fit) ↦
      let same : ◌≡◌ {A = Option Step × State} (some step, moved) r = ground arith in
      subst (Selected cfg s) same (f, (moved, f, fit))
  | inl (false, fit) ↦
      let same : ◌≡◌ {A = Option Step × State} (none, moved) r = ground arith in
      subst (Selected cfg s) same f
]

explore-Selected : (cfg : Config) (t : Task) (s : State) → Yields (Selected cfg s) (explore cfg t s)
unfolding explore
explore-Selected cfg t s r h =
    let idle : ◌≡◌ {A = Option Step × State} (none, s) r → Selected cfg s r =
      λ same. subst (Selected cfg s) same (Alike-refl s) in
    elim (Bool-cases (not (is_active t.status) || flagged t.id s.cancellations)) [
      | inl passed ↦ idle (ground arith)
      | inr admitted ↦ elim (Option-cases (lookup t.id s.exploration)) [
        | inl missing ↦ idle (ground arith)
        | inr (x, ex) ↦ elim (Bool-cases x.done) [
          | inl done ↦ idle (ground arith)
          | inr goes ↦ elim (Result-cases (exploration_step t.id x cfg.exploration_n)) [
            | inl ((none, x'), e) ↦
                let ended : State = record s {
                  exploration = insert t.id (record x' { done = true }) s.exploration;
                } in
                let same : ◌≡◌ {A = Option Step × State} (none, touch t.id ended) r =
                  ground arith in
                subst (Selected cfg s) same (
                  Alike-trans s ended (touch t.id ended)
                    (moved-Alike t.id (record x' { done = true }) s) (touch-Alike t.id ended))
            | inl ((some step, x'), e) ↦
                let moved : State = record s { exploration = insert t.id x' s.exploration } in
                unfold_step cfg s moved step r (moved-Alike t.id x' s) (ground arith)
            | inr fails ↦ absurd (ground arith)
          ]
        ]
      ]
    ]

pub next_exploration-Selected :
    (cfg : Config) (ts : List Task) (s : State)
    → Yields (Selected cfg s) (next_exploration cfg ts s)
unfolding next_exploration
next_exploration-Selected cfg [] s r h = Yields-ok (Selected cfg s) (none, s) (Alike-refl s) r h
next_exploration-Selected cfg (t ∷ ts) s r h = elim (Result-cases (explore cfg t s)) [
  | inl ((some step, s1), e) ↦
      let same : ◌≡◌ {A = Option Step × State} (some step, s1) r = ground arith in
      subst (Selected cfg s) same (explore-Selected cfg t s (some step, s1) e)
  | inl ((none, s1), e) ↦
      Selected-after cfg s s1 r (explore-Selected cfg t s (none, s1) e)
        (next_exploration-Selected cfg ts s1 r (ground arith))
  | inr fails ↦ absurd (ground arith)
]
