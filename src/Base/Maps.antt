-- ===== src/Base/Maps.antt =====
-- A Go map as an association list. Keys are ids, which the program only compares and orders; 0 is
-- the empty string, which is no key. A map is ranged over in the order of the list.
use Prim.Native.Nat.{ℕ, suc}
use mathlib.Core.Path.{◌≡◌, refl, sym, ap, subst₂, ◌∙◌}
use mathlib.Core.Logic.{◌≢◌, inl, inr}
use mathlib.Core.Bool.{Bool, true, false, ◌&&◌, ◌||◌}
use mathlib.Core.Option
use mathlib.Core.Option.{Option, none, some}
use mathlib.Core.List.{List, [], ◌∷◌}
use native.Mathlib.Omega.{arith}
use scp_harness.Base.Tests.{◌==◌, if◌then◌else◌, Bool-cases, ==_iff}

abbrev pub Map {ℓ} : Type ℓ → Type ℓ
Map V = List (ℕ × V)

module _ {ℓ} {V : Type ℓ} where
  unfoldable pub lookup : ℕ → Map V → Option V
  lookup k [] = none
  lookup k ((j, v) ∷ m) = if k == j then some v else lookup k m

  -- `m[k] = v`
  unfoldable pub insert : ℕ → V → Map V → Map V
  insert k v [] = (k, v) ∷ []
  insert k v ((j, w) ∷ m) = if k == j then (k, v) ∷ m else (j, w) ∷ insert k v m

  -- `delete(m, k)`
  unfoldable pub erase : ℕ → Map V → Map V
  erase k [] = []
  erase k ((j, w) ∷ m) = if k == j then erase k m else (j, w) ∷ erase k m

  -- `for k, v := range m { if p(k, v) { return true } }; return false`
  unfoldable pub any_entry : (ℕ → V → Bool) → Map V → Bool
  any_entry p [] = false
  any_entry p ((k, v) ∷ m) = p k v || any_entry p m

  unfoldable pub all_entries : (ℕ → V → Bool) → Map V → Bool
  all_entries p [] = true
  all_entries p ((k, v) ∷ m) = p k v && all_entries p m

  -- A loop that mutates the record behind each key.
  unfoldable pub map_values : (ℕ → V → V) → Map V → Map V
  map_values f [] = []
  map_values f ((k, v) ∷ m) = (k, f k v) ∷ map_values f m

  -- A loop that counts the entries that pass a test.
  unfoldable pub count_entries : (V → Bool) → Map V → ℕ
  count_entries p [] = 0
  count_entries p ((_, v) ∷ m) = if p v then suc (count_entries p m) else count_entries p m

  pub lookup-insert :
      (k j : ℕ) (v : V) (m : Map V)
      → lookup j (insert k v m) ≡ (if j == k then some v else lookup j m)
  unfolding lookup insert
  lookup-insert k j v [] = refl
  lookup-insert k j v ((i, w) ∷ m) = ground (arith, lookup-insert k j v m)

  pub lookup-insert_self : (k : ℕ) (v : V) (m : Map V) → lookup k (insert k v m) ≡ some v
  lookup-insert_self k v m = ground (arith, lookup-insert k k v m)

  pub lookup-insert_ne :
      (k j : ℕ) (v : V) (m : Map V) → j ≢ k → lookup j (insert k v m) ≡ lookup j m
  lookup-insert_ne k j v m h = ground (arith, lookup-insert k j v m)

  pub lookup-erase :
      (k j : ℕ) (m : Map V) → lookup j (erase k m) ≡ (if j == k then none else lookup j m)
  unfolding lookup erase
  lookup-erase k j [] = ground arith
  lookup-erase k j ((i, w) ∷ m) = ground (arith, lookup-erase k j m)

  -- A map of the program has each key once.
  abbrev pub IsMap : Map V → Type ℓ
  IsMap [] = Unit
  IsMap ((k, v) ∷ m) = (lookup k m ≡ none) × IsMap m

  pub insert-IsMap : (k : ℕ) (v : V) (m : Map V) → IsMap m → IsMap (insert k v m)
  unfolding lookup insert
  insert-IsMap k v [] h = (refl, tt)
  insert-IsMap k v ((j, w) ∷ m) h = ground (arith, insert-IsMap k v m h.1, lookup-insert k j v m)

  pub erase_absent : (k : ℕ) (m : Map V) → lookup k m ≡ none → erase k m ≡ m
  unfolding lookup erase
  erase_absent k [] h = refl
  erase_absent k ((j, w) ∷ m) h = ground (arith, erase_absent k m)

  pub erase-IsMap : (k : ℕ) (m : Map V) → IsMap m → IsMap (erase k m)
  unfolding lookup erase
  erase-IsMap k [] h = tt
  erase-IsMap k ((j, w) ∷ m) h = ground (arith, erase-IsMap k m h.1, lookup-erase k j m)

  pub lookup-map_values :
      (f : ℕ → V → V) (j : ℕ) (m : Map V)
      → lookup j (map_values f m) ≡ Option.map (f j) (lookup j m)
  unfolding lookup map_values
  lookup-map_values f j [] = refl
  lookup-map_values f j ((i, w) ∷ m) = ground (arith, lookup-map_values f j m)

  -- What a loop that found nothing says of an entry.
  pub any_entry-lookup :
      (p : ℕ → V → Bool) (k : ℕ) {v : V} (m : Map V)
      → any_entry p m ≡ false
      → lookup k m ≡ some v
      → p k v ≡ false
  unfolding lookup any_entry
  any_entry-lookup p k [] h e = ground arith
  any_entry-lookup p k {v} ((j, w) ∷ m) h e = ground (arith, any_entry-lookup p k {v = v} m)

  pub all_entries-lookup :
      (p : ℕ → V → Bool) (k : ℕ) {v : V} (m : Map V)
      → all_entries p m ≡ true
      → lookup k m ≡ some v
      → p k v ≡ true
  unfolding lookup all_entries
  all_entries-lookup p k [] h e = ground arith
  all_entries-lookup p k {v} ((j, w) ∷ m) h e = ground (arith, all_entries-lookup p k {v = v} m)

-- A predicate on every entry.
module _ {ℓ κ} {V : Type ℓ} where
  abbrev pub Every : (ℕ → V → Type κ) → Map V → Type κ
  Every P [] = Unit
  Every P ((k, v) ∷ m) = P k v × Every P m

  pub Every-lookup :
      (P : ℕ → V → Type κ) (k : ℕ) {v : V} (m : Map V) → Every P m → lookup k m ≡ some v → P k v
  unfolding lookup
  Every-lookup P k [] h e = absurd (ground arith)
  Every-lookup P k {v} ((j, w) ∷ m) h e = elim (Bool-cases (k == j)) [
    | inl here ↦
        let same : k ≡ j = (==_iff k j).0 here in
        let value : w ≡ v = ground arith in subst₂ P (sym same) value h.0
    | inr later ↦ Every-lookup P k m h.1 (ground arith)
  ]

  pub insert-Every :
      (P : ℕ → V → Type κ) (k : ℕ) (v : V) (m : Map V) → P k v → Every P m → Every P (insert k v m)
  unfolding insert
  insert-Every P k v [] p h = (p, tt)
  insert-Every P k v ((j, w) ∷ m) p h = elim (Bool-cases (k == j)) [
    | inl here ↦ rw here (p, h.1)
    | inr later ↦ rw later (h.0, insert-Every P k v m p h.1)
  ]

  pub erase-Every : (P : ℕ → V → Type κ) (k : ℕ) (m : Map V) → Every P m → Every P (erase k m)
  unfolding erase
  erase-Every P k [] h = tt
  erase-Every P k ((j, w) ∷ m) h = elim (Bool-cases (k == j)) [
    | inl here ↦ rw here (erase-Every P k m h.1)
    | inr later ↦ rw later (h.0, erase-Every P k m h.1)
  ]

  pub Every-map :
      (P Q : ℕ → V → Type κ) (m : Map V) → ((k : ℕ) (v : V) → P k v → Q k v) → Every P m → Every Q m
  Every-map P Q [] f h = tt
  Every-map P Q ((k, v) ∷ m) f h = (f k v h.0, Every-map P Q m f h.1)

  -- What holds at each key that is found holds of each entry.
  pub Every-of_lookup :
      (P : ℕ → V → Type κ) (m : Map V)
      → IsMap m
      → ((k : ℕ) (v : V) → lookup k m ≡ some v → P k v)
      → Every P m
  unfolding lookup
  Every-of_lookup P [] h f = tt
  Every-of_lookup P ((k, v) ∷ m) h f =
      (f k v (ground arith), Every-of_lookup P m h.1 (λ j w e. f j w (ground (arith, ==_iff j k))))

module _ {ℓ} {V : Type ℓ} where
  pub all_entries-Every :
      (p : ℕ → V → Bool) (m : Map V) → Every (λ k v. p k v ≡ true) m → all_entries p m ≡ true
  unfolding all_entries
  all_entries-Every p [] h = refl
  all_entries-Every p ((k, v) ∷ m) h = ground (arith, all_entries-Every p m h.1)

  pub map_values-IsMap : (f : ℕ → V → V) (m : Map V) → IsMap m → IsMap (map_values f m)
  unfolding map_values
  map_values-IsMap f [] h = tt
  map_values-IsMap f ((k, v) ∷ m) h =
      (lookup-map_values f k m ∙ ap (Option.map (f k)) h.0, map_values-IsMap f m h.1)

module _ {ℓ κ μ} {V : Type ℓ} (P : ℕ → V → Type κ) (Q : ℕ → V → Type μ) where
  -- One entry is replaced, and what is said of the others follows from what was said of them.
  pub update-Every :
      (k : ℕ) (v : V) (m : Map V)
      → IsMap m
      → Q k v
      → ((j : ℕ) (w : V) → j ≢ k → P j w → Q j w)
      → Every P m
      → Every Q (insert k v m)
  update-Every k v m hm q f h = Every-of_lookup Q (insert k v m) (insert-IsMap k v m hm) λ j w e.
      elim (Bool-cases (j == k)) [
        | inl here ↦
            let same : j ≡ k = (==_iff j k).0 here in
            let value : v ≡ w = ground (arith, lookup-insert k j v m) in subst₂ Q (sym same) value q
        | inr other ↦
            let ne : j ≢ k = ground (arith, ==_iff j k) in
            f j w ne (Every-lookup P j m h (sym (lookup-insert_ne k j v m ne) ∙ e))
      ]
