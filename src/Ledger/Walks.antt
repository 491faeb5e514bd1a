-- ===== src/Ledger/Walks.antt =====
-- Proofs about the walks along resource parents, in LCA of internal/ledger/ledger.go.
use scp_harness.Base.{
  ℕ, zero, suc, ◌+◌, ◌≤◌, ◌<◌, ◌≡◌, refl, ◌≢◌, sym, subst, true, false, none, some, List, [], ◌∷◌,
  Map, lookup, ok, panic, ◌==◌, contains, length, if◌then◌else◌, arith, Bool-cases, Option-cases,
  inl, inr, ==_iff, ◌⊎◌,
}
use scp_harness.Model.{Key, Account}
use scp_harness.Ledger.Ancestry.{ancestors, walk_fuel}

-- How many keys of the map the walk has not seen yet.
abbrev unseen {ℓ} : {V : Type ℓ} → List Key → Map V → ℕ
unseen seen [] = 0
unseen seen ((k, _) ∷ m) = (if contains k seen then 0 else 1) + unseen seen m

unseen-le-length {ℓ} : {V : Type ℓ} (seen : List Key) (m : Map V) → unseen seen m ≤ length m
unseen-le-length seen [] = omega arith
unseen-le-length seen ((k, v) ∷ m) = ground (arith, unseen-le-length seen m)

unseen-grow {ℓ} :
    {V : Type ℓ} (id : Key) (seen : List Key) (m : Map V) → unseen (id ∷ seen) m ≤ unseen seen m
unseen-grow id seen [] = omega arith
unseen-grow id seen ((k, v) ∷ m) = ground (arith, unseen-grow id seen m)

-- A key of the map that is seen for the first time is one fewer.
unseen-lt {ℓ} :
    {V : Type ℓ} (id : Key) (seen : List Key) (m : Map V)
    → contains id seen ≡ false
    → lookup id m ≢ none
    → unseen (id ∷ seen) m < unseen seen m
unfolding lookup
unseen-lt id seen [] h p = absurd (p refl)
unseen-lt id seen ((k, v) ∷ m) h p = elim (Bool-cases (id == k)) [
  | inl here ↦
      let same : id ≡ k = (==_iff id k).0 here in ground (arith, unseen-grow id seen m, ==_iff k id)
  | inr other ↦ ground (arith, unseen-lt id seen m h, ==_iff k id)
]

-- With as much fuel as there are unseen keys the walk ends by itself.
pub ancestors_ends :
    (fuel : ℕ) (seen : List Key) (id : Key) (m : Map Account)
    → unseen seen m < fuel
    → ancestors fuel seen id m ≢ panic
unfolding ancestors
ancestors_ends zero seen id m h = elim h [ ]
ancestors_ends (suc fuel) seen id m h = elim (Option-cases (lookup id m)) [
  | inl missing ↦ ground arith
  | inr (a, ea) ↦ elim (Bool-cases (contains id seen)) [
    | inl again ↦ ground arith
    | inr first ↦
        ground (arith, ancestors_ends fuel (id ∷ seen) a.parent m, unseen-lt id seen m first)
  ]
]

-- The walk from any account along its parents ends within one step more than there are accounts,
-- whatever the parents are: it stops at a root, at a missing account or at one that it has met.
pub ancestors-ne-panic : (id : Key) (m : Map Account) → ancestors (walk_fuel m) [] id m ≢ panic
ancestors-ne-panic id m =
    ancestors_ends (walk_fuel m) [] id m (omega (arith, unseen-le-length [] m))

-- `y` is `x` or an ancestor of `x`, by parents that are there.
pub data Above (m : Map Account) : Key → Key → Type 0 where
  self : {x y : Key} (a : Account) → (x == 0) ≡ false → lookup x m ≡ some a → x ≡ y → Above m x y
  up :
      {x y : Key} (a : Account)
      → (x == 0) ≡ false
      → lookup x m ≡ some a
      → Above m a.parent y
      → Above m x y

-- Only accounts that are there are above anything.
pub Above-inv :
    (m : Map Account) {x y : Key}
    → Above m x y
    → (a : Account) × ((x == 0) ≡ false) × (lookup x m ≡ some a) × ((x ≡ y) ⊎ Above m a.parent y)
Above-inv m (self a p e q) = (a, p, e, inl q)
Above-inv m (up a p e h) = (a, p, e, inr h)

-- One step of a walk that succeeds.
pub ancestors-step :
    (fuel : ℕ) (seen : List Key) (id : Key) (m : Map Account) {out : List Key}
    → ancestors (suc fuel) seen id m ≡ ok out
    → (((id == 0) ≡ true) × (seen ≡ out))
      ⊎ ((a : Account) × ((id == 0) ≡ false)
          × (contains id seen ≡ false)
          × (lookup id m ≡ some a)
          × (ancestors fuel (id ∷ seen) a.parent m ≡ ok out))
unfolding ancestors
ancestors-step fuel seen id m {out} h = elim (Bool-cases (id == 0)) [
  | inl stop ↦ inl (stop, ground arith)
  | inr more ↦ elim (Option-cases (lookup id m)) [
    | inl missing ↦ absurd (ground arith)
    | inr (a, ea) ↦ inr (a, more, ground arith, ea, ground arith)
  ]
]

-- The walk returns what it had seen and the ancestors, and nothing else.
pub ancestors_sound :
    (fuel : ℕ) (seen : List Key) (id y : Key) (m : Map Account) {out : List Key}
    → ancestors fuel seen id m ≡ ok out
    → contains y out ≡ true
    → (contains y seen ≡ true) ⊎ Above m id y
ancestors_sound zero seen id y m h c = absurd (unfold ancestors in ground arith)
ancestors_sound (suc fuel) seen id y m h c = elim (ancestors-step fuel seen id m h) [
  | inl (stop, same) ↦ inl (ground arith)
  | inr (a, more, first, ea, rest) ↦ elim (ancestors_sound fuel (id ∷ seen) a.parent y m rest c) [
    | inl old ↦ elim (Bool-cases (y == id)) [
      | inl here ↦ inr (self a more ea (sym ((==_iff y id).0 here)))
      | inr other ↦ inl (ground arith)
    ]
    | inr above ↦ inr (up a more ea above)
  ]
]

pub ancestors-keeps :
    (fuel : ℕ) (seen : List Key) (id y : Key) (m : Map Account) {out : List Key}
    → ancestors fuel seen id m ≡ ok out
    → contains y seen ≡ true
    → contains y out ≡ true
ancestors-keeps zero seen id y m h c = absurd (unfold ancestors in ground arith)
ancestors-keeps (suc fuel) seen id y m {out} h c = elim (ancestors-step fuel seen id m h) [
  | inl (stop, same) ↦ ground arith
  | inr (a, more, first, ea, rest) ↦
      ancestors-keeps fuel (id ∷ seen) a.parent y m rest (ground arith)
]

pub ancestors_complete :
    (fuel : ℕ) (seen : List Key) (id y : Key) (m : Map Account) {out : List Key}
    → ancestors fuel seen id m ≡ ok out
    → Above m id y
    → contains y out ≡ true
ancestors_complete zero seen id y m h c = absurd (unfold ancestors in ground arith)
ancestors_complete (suc fuel) seen id y m {out} h c = elim (ancestors-step fuel seen id m h) [
  | inl (stop, same) ↦ absurd (ground (arith, (Above-inv m c).1))
  | inr (a, more, first, ea, rest) ↦
      let (b, _, eb, next) = Above-inv m c in
      let same : a.parent ≡ b.parent = ground arith in
      elim next [
        | inl here ↦
            ancestors-keeps fuel (id ∷ seen) a.parent y m rest (ground (arith, ==_iff y id))
        | inr above ↦
            ancestors_complete fuel (id ∷ seen) a.parent y m rest
              (subst (λ z. Above m z y) (sym same) above)
      ]
]
