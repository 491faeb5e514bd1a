-- ===== src/Worker/Partitions.antt =====
-- Partition of internal/worker/protocol.go: whether groups split a list of ids.
use scp_harness.Base.{
  Bool, true, false, not, List, [], ◌∷◌, contains, Result, ok, Code, ◌>>=◌, ◌>>◌, fail_if, ◌==◌,
  if◌then◌else◌,
}
use scp_harness.Model.{Key}

abbrev pub empty : {A : Type 0} → List A → Bool
empty [] = true
empty (x ∷ xs) = false

-- The first loop: the set of the ids, which are to differ.
unfoldable pub mark : List Key → List Key → Result (List Key)
mark remaining [] = ok remaining
mark remaining (id ∷ ids) = do
  fail_if (contains id remaining) Code.schema_invalid
  mark (id ∷ remaining) ids

-- `delete(remaining, id)`
unfoldable pub discard : Key → List Key → List Key
discard id [] = []
discard id (x ∷ xs) = let rest = discard id xs in if id == x then rest else x ∷ rest

-- The loop over one group.
unfoldable pub take_group : List Key → List Key → Result (List Key)
take_group [] remaining = ok remaining
take_group (id ∷ ids) remaining = do
  fail_if (not (contains id remaining)) Code.schema_invalid
  take_group ids (discard id remaining)

-- The loop over the groups.
unfoldable pub take_groups : List (List Key) → List Key → Result (List Key)
take_groups [] remaining = ok remaining
take_groups (g ∷ groups) remaining = do
  fail_if (empty g) Code.schema_invalid
  rest ← take_group g remaining
  take_groups groups rest

unfoldable pub partition : List (List Key) → List Key → Result (Unit {0})
partition groups ids = do
  remaining ← mark [] ids
  rest ← take_groups groups remaining
  fail_if (not (empty rest)) Code.schema_invalid
