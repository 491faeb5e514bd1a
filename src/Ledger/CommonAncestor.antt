-- ===== src/Ledger/CommonAncestor.antt =====
-- Proofs about LCA of internal/ledger/ledger.go.
use scp_harness.Base.{
  ℕ, zero, suc, ◌≡◌, refl, subst, Bool, true, some, List, [], ◌∷◌, Map, lookup, ok, contains, all,
  arith, Bool-cases, Option-cases, Result-cases, inl, inr, ==_iff,
}
use scp_harness.Model.{Key, Account}
use scp_harness.Ledger.Ancestry.{ancestors, walk_fuel, chains, first_common, lca}
use scp_harness.Ledger.Walks.{Above, Above-inv, ancestors-step, ancestors_sound, ancestors_complete}

-- `y` is above each of the ids.
abbrev pub AboveAll : Map Account → List Key → Key → Type 0
AboveAll m [] y = Unit
AboveAll m (x ∷ xs) y = Above m x y × AboveAll m xs y

abbrev in_all : Key → List (List Key) → Bool
in_all y cs = all (λ c. contains y c) cs

-- How the first loop goes on.
chains-step :
    (task id : Key) (ids : List Key) (m : Map Account) {cs : List (List Key)}
    → chains task (id ∷ ids) m ≡ ok cs
    → (seen : List Key) × (rest : List (List Key)) × (ancestors (walk_fuel m) [] id m ≡ ok seen)
      × (chains task ids m ≡ ok rest)
      × (cs ≡ seen ∷ rest)
unfolding chains
chains-step task id ids m h = elim (Option-cases (lookup id m)) [
  | inl missing ↦ absurd (ground arith)
  | inr (a, ea) ↦ elim (Result-cases (ancestors (walk_fuel m) [] id m)) [
    | inl (seen, e1) ↦ elim (Result-cases (chains task ids m)) [
      | inl (rest, e2) ↦ (seen, rest, e1, e2, ground arith)
      | inr fails ↦ absurd (ground arith)
    ]
    | inr fails ↦ absurd (ground arith)
  ]
]

in_all-AboveAll :
    (task : Key) (ids : List Key) (m : Map Account) (y : Key) {cs : List (List Key)}
    → chains task ids m ≡ ok cs
    → in_all y cs ≡ true
    → AboveAll m ids y
in_all-AboveAll task [] m y h e = tt
in_all-AboveAll task (id ∷ ids) m y {cs} h e =
    let (seen, rest, e1, e2, same) = chains-step task id ids m h in
    let here : contains y seen ≡ true = ground arith in
    let later : in_all y rest ≡ true = ground arith in
    (
      elim (ancestors_sound (walk_fuel m) [] id y m e1 here) [
        | inl no_seen ↦ cc
        | inr above ↦ above
      ],
      in_all-AboveAll task ids m y e2 later,
    )

AboveAll-in_all :
    (task : Key) (ids : List Key) (m : Map Account) (y : Key) {cs : List (List Key)}
    → chains task ids m ≡ ok cs
    → AboveAll m ids y
    → in_all y cs ≡ true
unfolding chains
AboveAll-in_all task [] m y h e = ground arith
AboveAll-in_all task (id ∷ ids) m y {cs} h e =
    let (seen, rest, e1, e2, same) = chains-step task id ids m h in
    let here : contains y seen ≡ true = ancestors_complete (walk_fuel m) [] id y m e1 e.0 in
    let later : in_all y rest ≡ true = AboveAll-in_all task ids m y e2 e.1 in ground arith

-- The second loop: what it finds is in every chain, and below whatever else is.
first_common-lowest :
    (fuel : ℕ) (cs : List (List Key)) (id : Key) (m : Map Account) {r : Key}
    → first_common fuel cs id m ≡ ok r
    → (in_all r cs ≡ true) × ((y : Key) → Above m id y → in_all y cs ≡ true → Above m r y)
unfolding first_common
first_common-lowest zero cs id m h = absurd (ground arith)
first_common-lowest (suc fuel) cs id m {r} h = elim (Bool-cases (in_all id cs)) [
  | inl found ↦ (ground arith, λ y above e. subst (λ z. Above m z y) (ground arith) above)
  | inr more ↦ elim (Option-cases (lookup id m)) [
    | inl missing ↦ absurd (ground arith)
    | inr (a, ea) ↦
        let (common, lowest) = first_common-lowest fuel cs a.parent m {r = r} (ground arith) in
        (
          common,
          λ y above e.
              let (b, _, eb, next) = Above-inv m above in
              elim next [
                | inl here ↦ absurd (ground arith)
                | inr rest ↦
                    let same : b.parent ≡ a.parent = ground arith in
                    lowest y (subst (λ z. Above m z y) same rest) e
              ],
        )
  ]
]

-- When LCA returns an account for its participants, that account is each participant or above it,
-- and every account that is so for all of them is the returned one or above it.
pub lca_lowest :
    (id : Key) (ids : List Key) (m : Map Account) {r : Key}
    → lca (id ∷ ids) m ≡ ok r
    → AboveAll m (id ∷ ids) r × ((y : Key) → AboveAll m (id ∷ ids) y → Above m r y)
unfolding lca
lca_lowest id ids m {r} h = elim (Option-cases (lookup id m)) [
  | inl missing ↦ absurd (ground arith)
  | inr (a, ea) ↦ elim (Result-cases (chains a.task_id (id ∷ ids) m)) [
    | inl (cs, e1) ↦
        let (common, lowest) = first_common-lowest (walk_fuel m) cs id m {r = r} (ground arith) in
        (
          in_all-AboveAll a.task_id (id ∷ ids) m r e1 common,
          λ y e. lowest y e.0 (AboveAll-in_all a.task_id (id ∷ ids) m y e1 e),
        )
    | inr fails ↦ absurd (ground arith)
  ]
]

-- Where the walk from the first participant ends and something is above all, the loop finds it.
first_common_total :
    (fuel : ℕ) (seen : List Key) (cs : List (List Key)) (id y : Key) (m : Map Account)
    {out : List Key}
    → ancestors fuel seen id m ≡ ok out
    → Above m id y
    → in_all y cs ≡ true
    → (r : Key) × (first_common fuel cs id m ≡ ok r)
unfolding first_common
first_common_total zero seen cs id y m h above e = absurd (unfold ancestors in ground arith)
first_common_total (suc fuel) seen cs id y m h above e =
    let (b, present, eb, next) = Above-inv m above in
    elim (Bool-cases (in_all id cs)) [
      | inl found ↦ (id, ground arith)
      | inr more ↦ elim (ancestors-step fuel seen id m h) [
        | inl (stop, same) ↦ absurd (ground arith)
        | inr (a, _, first, ea, rest) ↦ elim next [
          | inl here ↦ absurd (ground arith)
          | inr higher ↦
              let same : b.parent ≡ a.parent = ground arith in
              let (r, found) =
                first_common_total fuel (id ∷ seen) cs a.parent y m rest
                  (subst (λ z. Above m z y) same higher) e in
              (r, ground arith)
        ]
      ]
    ]

-- The participants of a call that gets past the first loop.
abbrev pub AllWalk : Map Account → Key → List Key → Type 0
AllWalk m task [] = Unit
AllWalk m task (x ∷ xs) =
    ((a : Account) × (lookup x m ≡ some a) × (a.task_id ≡ task))
    × ((out : List Key) × (ancestors (walk_fuel m) [] x m ≡ ok out))
    × AllWalk m task xs

chains_total :
    (task : Key) (ids : List Key) (m : Map Account)
    → AllWalk m task ids
    → (cs : List (List Key)) × (chains task ids m ≡ ok cs)
unfolding chains
chains_total task [] m h = ([], refl)
chains_total task (x ∷ xs) m h =
    let (a, ea, same) = h.0 in
    let (out, walk) = h.1 in
    let (cs, rest) = chains_total task xs m h.2 in (out ∷ cs, ground (arith, ==_iff a.task_id task))

-- For participants that are accounts of one task, whose walks to the root end and who have a
-- common ancestor, LCA returns an account.
pub lca_total :
    (id : Key) (ids : List Key) (m : Map Account) (task y : Key)
    → AllWalk m task (id ∷ ids)
    → AboveAll m (id ∷ ids) y
    → (r : Key) × (lca (id ∷ ids) m ≡ ok r)
unfolding lca
lca_total id ids m task y h above =
    let (cs, e1) = chains_total task (id ∷ ids) m h in
    let (out, walk) = h.1 in
    let (a, ea, same) = h.0 in
    let common = AboveAll-in_all task (id ∷ ids) m y e1 above in
    let (r, found) = first_common_total (walk_fuel m) [] cs id y m walk above.0 common in
    (r, ground (arith, e1))
