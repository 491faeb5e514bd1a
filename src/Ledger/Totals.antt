-- ===== src/Ledger/Totals.antt =====
-- Sums over a map, and what an update of the map does to them.
use scp_harness.Base.{
  ℕ, ℤ, pos, ◌+ℤ◌, ◌≤ℤ◌, int_laws, ◌≡◌, none, some, [], ◌∷◌, Map, lookup, insert, erase, IsMap,
  arith, ◌==◌, if◌then◌else◌, erase_absent,
}
use scp_harness.Model.{Key, Account, Lease}

module _ {ℓ} {V : Type ℓ} (weight : V → ℤ) where
  unfoldable pub total : Map V → ℤ
  total [] = pos 0
  total ((_, v) ∷ m) = weight v +ℤ total m

  pub total-insert :
      (k : ℕ) (v old : V) (m : Map V)
      → lookup k m ≡ some old
      → total (insert k v m) +ℤ weight old ≡ total m +ℤ weight v
  unfolding total lookup insert
  total-insert k v old [] e = cc
  total-insert k v old ((j, w) ∷ m) e = grind (int_laws, total-insert k v old m)

  pub total-insert_new :
      (k : ℕ) (v : V) (m : Map V) → lookup k m ≡ none → total (insert k v m) ≡ total m +ℤ weight v
  unfolding total lookup insert
  total-insert_new k v [] e = omega int_laws
  total-insert_new k v ((j, w) ∷ m) e = grind (int_laws, total-insert_new k v m)

  pub total-erase :
      (k : ℕ) (old : V) (m : Map V)
      → IsMap m
      → lookup k m ≡ some old
      → total (erase k m) +ℤ weight old ≡ total m
  unfolding total lookup erase
  total-erase k old [] h e = cc
  total-erase k old ((j, w) ∷ m) h e = grind (int_laws, total-erase k old m h.1, erase_absent k m)

  -- Where every weight is at least 0, no single one is more than the sum.
  pub total-nonneg : ((v : V) → pos 0 ≤ℤ weight v) → (m : Map V) → pos 0 ≤ℤ total m
  unfolding total
  total-nonneg h [] = omega arith
  total-nonneg h ((j, w) ∷ m) = omega (int_laws, h w, total-nonneg h m)

-- What an account adds to the balance of a task, and a lease to what the task has leased.
abbrev pub share : Key → Account → ℤ
share t a = if a.task_id == t then a.remaining else pos 0

abbrev pub lease_share : Key → Lease → ℤ
lease_share t l = if l.task_id == t then l.amount else pos 0

-- The wall time that a task's accounts hold, and that its leases hold.
abbrev pub balance : Key → Map Account → ℤ
balance t m = total (share t) m

abbrev pub leased : Key → Map Lease → ℤ
leased t m = total (lease_share t) m
