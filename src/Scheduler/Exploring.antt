-- ===== src/Scheduler/Exploring.antt =====
-- Proofs about explorationStep of internal/core/runtime.go: what it picks, and what is left then.
use scp_harness.Base.{
  ℕ, suc, ◌+◌, ◌≤◌, ℤ, ◌≡◌, refl, ap, sym, ◌∙◌, Option, some, true, false, List, [], ◌∷◌, length,
  Result, ok, ok-inj, >>=-eq-ok, if◌then◌else◌, arith, Bool-cases, inl, inr, ◌⊎◌, lt_ℤ, pos_part,
  ◌-ℤ◌,
}
use scp_harness.Model.{Key, Exploration, Step, Operation}
use scp_harness.Core.{exploration_step, merging_step, skip_singles, from_index, synthesis}

from_index-zero : {A : Type 0} (xs : List A) → from_index 0 xs ≡ xs
from_index-zero [] = refl
from_index-zero (x ∷ xs) = refl

pub from_index-next :
    {A : Type 0} (i : ℕ) (xs : List A) {y : A} {ys : List A}
    → from_index i xs ≡ y ∷ ys
    → from_index (suc i) xs ≡ ys
from_index-next i [] h = ground arith
from_index-next ℕ.zero (x ∷ xs) h = from_index-zero xs ∙ ground arith
from_index-next (ℕ.suc i) (x ∷ xs) h = from_index-next i xs h

pub add_one : (i : ℕ) → i + 1 ≡ suc i
add_one i = omega arith

-- The groups that skip_singles leaves are those from its index on, and it adds none.
skip_singles-from_index :
    (i : ℕ) (gs groups : List (List Key))
    → from_index i groups ≡ gs
    → (from_index (skip_singles i gs).0 groups ≡ (skip_singles i gs).1)
      × (length (skip_singles i gs).1 ≤ length gs)
unfolding skip_singles
skip_singles-from_index i [] groups h = (h, omega arith)
skip_singles-from_index i (g ∷ gs) groups h =
    let (a, b) =
      skip_singles-from_index (i + 1) gs groups (rw (add_one i) (from_index-next i groups h)) in
    (ground arith, ground arith)

-- How many generations and judgements are left, and how many groups.
unfoldable pub stages_left : ℤ → Exploration → ℕ
stages_left n x = pos_part (n -ℤ x.count) + (if x.judged then 0 else 1)

unfoldable pub groups_left : Exploration → ℕ
groups_left x = length (from_index x.group_index x.groups)

-- What the next activity of an exploration is, and the exploration that it starts from.
pub data Chosen (n : ℤ) (x y : Exploration) : Operation → Type 0 where
  generates : lt_ℤ x.count n ≡ true → y ≡ x → Chosen n x y Operation.option_generation
  judges : lt_ℤ x.count n ≡ false → x.judged ≡ false → y ≡ x → Chosen n x y Operation.merge_judge
  merges :
      (y.count ≡ x.count)
      → y.judged ≡ x.judged
      → 1 ≤ groups_left y
      → groups_left y ≤ groups_left x
      → Chosen n x y Operation.merge_synth

synthesis-Chosen :
    (task : Key) (groups : List (List Key)) {p : Step}
    → synthesis task groups ≡ ok (some p)
    → (p.operation ≡ Operation.merge_synth) × (1 ≤ length groups)
unfolding synthesis
synthesis-Chosen task [] h = absurd (ground arith)
synthesis-Chosen task ([] ∷ groups) h = absurd (ground arith)
synthesis-Chosen task ((k ∷ ks) ∷ groups) h = (ground arith, ground arith)

-- The exploration with its index moved past the groups of one.
abbrev skipped : Exploration → Exploration
skipped x = record x {
  group_index = (skip_singles x.group_index (from_index x.group_index x.groups)).0;
}

pub skipped-groups_left :
    (x : Exploration)
    → (groups_left (skipped x)
        ≡ length (skip_singles x.group_index (from_index x.group_index x.groups)).1)
      × (groups_left (skipped x) ≤ groups_left x)
unfolding groups_left
skipped-groups_left x =
    let (same, fewer) =
      skip_singles-from_index x.group_index (from_index x.group_index x.groups) x.groups refl in
    (ap length same, rw same fewer)

-- A batch of two options or more is merged, another is not.
batch-cases :
    (b : List Key)
    → ((b ≡ []) ⊎ ((k : Key) × (b ≡ k ∷ [])))
      ⊎ ((k : Key) × (j : Key) × (rest : List Key) × (b ≡ k ∷ j ∷ rest))
batch-cases [] = inl (inl refl)
batch-cases (k ∷ []) = inl (inr (k, refl))
batch-cases (k ∷ j ∷ rest) = inr (k, j, rest, refl)

merging_step-Chosen :
    (task : Key) (n : ℤ) (x : Exploration) {p : Step} {y : Exploration}
    → merging_step task x ≡ ok (some p, y)
    → Chosen n x y p.operation
unfolding merging_step
merging_step-Chosen task n x {p} {y} h =
    let groups : List (List Key) =
      (skip_singles x.group_index (from_index x.group_index x.groups)).1 in
    let next : Option Step → Result (Option Step × Exploration) = λ q. ok (q, skipped x) in
    let (q, eq, last) = >>=-eq-ok (synthesis task groups) next (sym h) in
    let pair : (q, skipped x) ≡ (some p, y) = ok-inj last in
    let found : q ≡ some p = ap (λ (r : Option Step × Exploration). r.0) pair in
    let is_y : y ≡ skipped x = sym (ap (λ (r : Option Step × Exploration). r.1) pair) in
    let (is, some_left) = synthesis-Chosen task groups {p = p} (eq ∙ ap ok found) in
    let (same, fewer) = skipped-groups_left x in
    rw (is, is_y) (Chosen.merges refl refl (rw same some_left) fewer)

pub exploration_step-Chosen :
    (task : Key) (n : ℤ) (x : Exploration) {p : Step} {y : Exploration}
    → exploration_step task x n ≡ ok (some p, y)
    → Chosen n x y p.operation
unfolding exploration_step
exploration_step-Chosen task n x {p} {y} h = elim (Bool-cases (lt_ℤ x.count n)) [
  | inl more ↦
      let is : p.operation ≡ Operation.option_generation = ground arith in
      rw is (Chosen.generates more (ground arith))
  | inr enough ↦ elim (batch-cases x.batch) [
    | inl (inl none_in) ↦ absurd (ground arith)
    | inl (inr (k, one)) ↦ absurd (ground arith)
    | inr (k, j, rest, two) ↦ elim (Bool-cases x.judged) [
      | inr waits ↦
          let is : p.operation ≡ Operation.merge_judge = ground arith in
          rw is (Chosen.judges enough waits (ground arith))
      | inl judged ↦ merging_step-Chosen task n x {p = p} {y = y} (ground arith)
    ]
  ]
]

merging_step-keeps :
    (task : Key) (x : Exploration) {q : Option Step} {y : Exploration}
    → merging_step task x ≡ ok (q, y)
    → y ≡ skipped x
unfolding merging_step
merging_step-keeps task x {q} {y} h =
    let groups : List (List Key) =
      (skip_singles x.group_index (from_index x.group_index x.groups)).1 in
    let next : Option Step → Result (Option Step × Exploration) = λ q. ok (q, skipped x) in
    let (r, er, last) = >>=-eq-ok (synthesis task groups) next (sym h) in
    sym (ap (λ (r : Option Step × Exploration). r.1) (ok-inj last))

-- Looking for the next activity leaves no stage and no group more than there were.
pub exploration_step-keeps :
    (task : Key) (n : ℤ) (x : Exploration) {q : Option Step} {y : Exploration}
    → exploration_step task x n ≡ ok (q, y)
    → (stages_left n y ≡ stages_left n x) × (groups_left y ≤ groups_left x)
unfolding exploration_step stages_left
exploration_step-keeps task n x {q} {y} h =
    let (same, fewer) = skipped-groups_left x in
    elim (Bool-cases (lt_ℤ x.count n)) [
      | inl more ↦ let is : y ≡ x = ground arith in rw is (refl, omega arith)
      | inr enough ↦ elim (batch-cases x.batch) [
        | inl (inl none_in) ↦ let is : y ≡ x = ground arith in rw is (refl, omega arith)
        | inl (inr (k, one)) ↦ let is : y ≡ x = ground arith in rw is (refl, omega arith)
        | inr (k, j, rest, two) ↦ elim (Bool-cases x.judged) [
          | inr waits ↦ let is : y ≡ x = ground arith in rw is (refl, omega arith)
          | inl judged ↦
              let is : y ≡ skipped x = merging_step-keeps task x {q = q} {y = y} (ground arith) in
              rw is (refl, fewer)
        ]
      ]
    ]
