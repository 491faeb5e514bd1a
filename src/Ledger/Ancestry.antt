-- ===== src/Ledger/Ancestry.antt =====
-- The walks along resource parents: LCA and Allocate of internal/ledger/ledger.go, and the loop
-- that store.Validate makes for each account. A walk gets fuel; where it runs out the model
-- panics, as the program does when a recursion never ends.
use scp_harness.Base.{
  ℕ, zero, suc, ℤ, not, ◌&&◌, none, some, List, [], ◌∷◌, Map, lookup, Result, ok, err, panic, Code,
  ◌>>=◌, ◌>>◌, fail_if, or_fail, deref, ◌==◌, all, contains, length, if◌then◌else◌, lt_ℤ, sub64,
}
use scp_harness.Model.{Key, State, Account}
use scp_harness.Ledger.Transfer.{move}

-- `for id != "" { if seen[id] || accounts[id] == nil { … }; seen[id] = true; id = parent }`
-- The result is the set of the ids that were seen.
unfoldable pub ancestors : ℕ → List Key → Key → Map Account → Result (List Key)
ancestors zero seen id m = panic
ancestors (suc fuel) seen id m =
    let step : Result (List Key) = elim (lookup id m) [
      | none ↦ err Code.core_inconsistent
      | some a ↦ ancestors fuel (id ∷ seen) a.parent m
    ] in
    if id == 0 then ok seen else if contains id seen then err Code.core_inconsistent else step

-- One more than the accounts: no walk without a repetition is longer.
abbrev pub walk_fuel {ℓ} : {V : Type ℓ} → Map V → ℕ
walk_fuel m = suc (length m)

-- The first loop of LCA: the ancestors of each participant.
unfoldable pub chains : Key → List Key → Map Account → Result (List (List Key))
chains task [] m = ok []
chains task (id ∷ ids) m = do
  a ← or_fail (lookup id m) Code.precondition_failed
  fail_if (not (a.task_id == task)) Code.precondition_failed
  seen ← ancestors (walk_fuel m) [] id m
  rest ← chains task ids m
  ok (seen ∷ rest)

-- The second loop: the first ancestor that is in every chain.
unfoldable pub first_common : ℕ → List (List Key) → Key → Map Account → Result Key
first_common zero cs id m = panic
first_common (suc fuel) cs id m =
    let step : Result Key = elim (lookup id m) [
      | none ↦ panic
      | some a ↦ first_common fuel cs a.parent m
    ] in
    if id == 0
    then err Code.core_inconsistent
    else if all (λ c. contains id c) cs
    then ok id
    else step

unfoldable pub lca : List Key → Map Account → Result Key
lca [] m = err Code.precondition_failed
lca (id ∷ ids) m = do
  first ← or_fail (lookup id m) Code.not_found
  cs ← chains first.task_id (id ∷ ids) m
  first_common (walk_fuel m) cs id m

unfoldable pub allocate_fuel : ℕ → Key → ℤ → State → Result State
allocate_fuel zero to n s = panic
allocate_fuel (suc fuel) to n s = do
  a ← or_fail (lookup to s.accounts) Code.precondition_failed
  fail_if (a.parent == 0) Code.precondition_failed
  p ← deref (lookup a.parent s.accounts)
  let above = allocate_fuel fuel a.parent (sub64 n p.remaining) s
  s' ← if lt_ℤ p.remaining n && not (p.parent == 0) then above else ok s
  move a.parent to n s'

unfoldable pub allocate : Key → ℤ → State → Result State
unfolding allocate_fuel
allocate to n s = allocate_fuel (walk_fuel s.accounts) to n s
