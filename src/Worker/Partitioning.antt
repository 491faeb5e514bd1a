-- ===== src/Worker/Partitioning.antt =====
-- What Partition accepts, by how often each id occurs.
use scp_harness.Base.{
  ℕ, ◌+◌, true, false, not, List, [], ◌∷◌, contains, Result, ok, Code, ◌>>=◌, fail_if, ◌==◌,
  if◌then◌else◌, ◌≡◌, refl, sym, arith, Bool-cases, inl, inr, ==_iff, suc, >>=-eq-ok, fail_if-ok,
  ltb, ◌↔◌, ok-inj, ◌≤◌,
}
use scp_harness.Model.{Key}
use scp_harness.Worker.Partitions.{empty, mark, discard, take_group, take_groups, partition}

-- How often an id stands in a list, and in a list of groups.
unfoldable pub count : Key → List Key → ℕ
count k [] = 0
count k (x ∷ xs) = let rest = count k xs in if k == x then suc rest else rest

unfoldable pub count_groups : Key → List (List Key) → ℕ
count_groups k [] = 0
count_groups k (g ∷ groups) = count k g + count_groups k groups

abbrev pub NonEmpty : List (List Key) → Type 0
NonEmpty [] = Unit
NonEmpty (g ∷ groups) = (empty g ≡ false) × NonEmpty groups

-- The groups are not empty, the ids differ, and each is in exactly one group, once.
pub record IsPartition (groups : List (List Key)) (ids : List Key) : Type 0 where
  pub nonempty : NonEmpty groups
  pub distinct : (k : Key) → count k ids ≤ 1
  pub covered : (k : Key) → count_groups k groups ≡ count k ids

contains-count : (k : Key) (xs : List Key) → contains k xs ≡ ltb 0 (count k xs)
unfolding count
contains-count k [] = refl
contains-count k (x ∷ xs) = ground (arith, contains-count k xs)

count-discard :
    (k j : Key) (xs : List Key) → count j (discard k xs) ≡ (if j == k then 0 else count j xs)
unfolding count discard
count-discard k j [] = ground arith
count-discard k j (x ∷ xs) = ground (arith, count-discard k j xs)

-- The first loop adds the ids to the set, and refuses one that is there.
mark_counts :
    (remaining ids : List Key) {set : List Key}
    → mark remaining ids ≡ ok set
    → ((k : Key) → count k remaining ≤ 1)
    → (k : Key) → (count k set ≡ count k remaining + count k ids) × (count k set ≤ 1)
unfolding mark count
mark_counts remaining [] e h k = ground (arith, h k, ok-inj e)
mark_counts remaining (id ∷ ids) {set} e h k = elim (Bool-cases (contains id remaining)) [
  | inl seen ↦ absurd (ground arith)
  | inr fresh ↦
      let later : mark (id ∷ remaining) ids ≡ ok set = ground arith in
      let once : (j : Key) → count j (id ∷ remaining) ≤ 1 =
        λ j. ground (arith, h j, contains-count j remaining) in
      ground (arith, mark_counts (id ∷ remaining) ids later once k)
]

mark_ends :
    (remaining ids : List Key)
    → ((k : Key) → count k remaining + count k ids ≤ 1)
    → (set : List Key) × (mark remaining ids ≡ ok set)
unfolding mark count
mark_ends remaining [] h = (remaining, refl)
mark_ends remaining (id ∷ ids) h =
    let fresh : contains id remaining ≡ false = ground (arith, h id, contains-count id remaining) in
    rw fresh (mark_ends (id ∷ remaining) ids (λ k. ground (arith, h k)))

-- A group takes each of its ids once.
take_group_counts :
    (ids remaining : List Key) {rest : List Key}
    → take_group ids remaining ≡ ok rest
    → ((k : Key) → count k remaining ≤ 1)
    → (k : Key) → count k ids + count k rest ≡ count k remaining
unfolding take_group count
take_group_counts [] remaining e h k = ground (arith, ok-inj e)
take_group_counts (id ∷ ids) remaining {rest} e h k = elim (Bool-cases (contains id remaining)) [
  | inr absent ↦ absurd (ground arith)
  | inl there ↦
      let later : take_group ids (discard id remaining) ≡ ok rest = ground arith in
      let once : (j : Key) → count j (discard id remaining) ≤ 1 =
        λ j. ground (arith, h j, count-discard id j remaining) in
      ground (
        arith,
        take_group_counts ids (discard id remaining) later once k,
        count-discard id k remaining,
        contains-count id remaining,
        h k,
        h id,
        ==_iff k id,
      )
]

take_group_ends :
    (ids remaining : List Key)
    → ((k : Key) → count k remaining ≤ 1)
    → ((k : Key) → count k ids ≤ count k remaining)
    → (rest : List Key) × (take_group ids remaining ≡ ok rest)
unfolding take_group count
take_group_ends [] remaining once h = (remaining, refl)
take_group_ends (id ∷ ids) remaining once h =
    let there : contains id remaining ≡ true =
      ground (arith, h id, contains-count id remaining, ==_iff id id) in
    rw there (
      take_group_ends ids (discard id remaining)
        (λ k. ground (arith, once k, count-discard id k remaining))
        (λ k.
          ground (arith, h k, h id, once k, once id, count-discard id k remaining, ==_iff k id)))

take_groups_counts :
    (groups : List (List Key)) (remaining : List Key) {rest : List Key}
    → take_groups groups remaining ≡ ok rest
    → ((k : Key) → count k remaining ≤ 1)
    → NonEmpty groups × ((k : Key) → count_groups k groups + count k rest ≡ count k remaining)
unfolding take_groups count_groups
take_groups_counts [] remaining e once = (tt, λ k. ground (arith, ok-inj e))
take_groups_counts (g ∷ groups) remaining {rest} e once = elim (Bool-cases (empty g)) [
  | inl none_in ↦ absurd (ground arith)
  | inr some_in ↦
      let passed : ok rest ≡ (take_group g remaining >>= take_groups groups) = ground arith in
      let (left, taken, later) = >>=-eq-ok (take_group g remaining) (take_groups groups) passed in
      let first : (k : Key) → count k g + count k left ≡ count k remaining =
        take_group_counts g remaining taken once in
      let once' : (k : Key) → count k left ≤ 1 = λ k. ground (arith, first k, once k) in
      let (full, sums) = take_groups_counts groups left later once' in
      ((some_in, full), λ k. ground (arith, first k, sums k))
]

take_groups_ends :
    (groups : List (List Key)) (remaining : List Key)
    → NonEmpty groups
    → ((k : Key) → count k remaining ≤ 1)
    → ((k : Key) → count_groups k groups ≤ count k remaining)
    → (rest : List Key) × (take_groups groups remaining ≡ ok rest)
unfolding take_groups count_groups
take_groups_ends [] remaining full once h = (remaining, refl)
take_groups_ends (g ∷ groups) remaining full once h =
    let (left, taken) = take_group_ends g remaining once (λ k. ground (arith, h k)) in
    let first : (k : Key) → count k g + count k left ≡ count k remaining =
      take_group_counts g remaining taken once in
    rw (full.0, taken)
      (take_groups_ends groups left full.1 (λ k. ground (arith, first k, once k))
        (λ k. ground (arith, first k, h k)))

no_entry : (xs : List Key) → empty xs ≡ true → (k : Key) → count k xs ≡ 0
unfolding count
no_entry [] h k = refl
no_entry (x ∷ xs) h k = absurd (ground arith)

no_count : (xs : List Key) → ((k : Key) → count k xs ≡ 0) → empty xs ≡ true
unfolding count
no_count [] h = refl
no_count (x ∷ xs) h = absurd (ground (arith, h x))

partition_sound :
    (groups : List (List Key)) (ids : List Key)
    → partition groups ids ≡ ok tt
    → IsPartition groups ids
unfolding partition count
partition_sound groups ids e =
    let after : List Key → Result (Unit {0}) =
      λ rest. fail_if (not (empty rest)) Code.schema_invalid in
    let (set, marked, later) =
      >>=-eq-ok (mark [] ids) (λ set. take_groups groups set >>= after) (sym e) in
    let (rest, taken, last) = >>=-eq-ok (take_groups groups set) after (sym later) in
    let counts : (k : Key) → (count k set ≡ count k [] + count k ids) × (count k set ≤ 1) =
      mark_counts [] ids marked (λ k. ground arith) in
    let (full, sums) = take_groups_counts groups set taken (λ k. (counts k).1) in
    let ended : empty rest ≡ true =
      ground (arith, fail_if-ok (not (empty rest)) Code.schema_invalid) in
    record {
      nonempty = full;
      distinct = λ k. ground (arith, counts k);
      covered = λ k. ground (arith, counts k, sums k, no_entry rest ended k);
    }

partition_complete :
    (groups : List (List Key)) (ids : List Key)
    → IsPartition groups ids
    → partition groups ids ≡ ok tt
unfolding partition count
partition_complete groups ids h =
    let (set, marked) = mark_ends [] ids (λ k. ground (arith, h.distinct k)) in
    let counts : (k : Key) → (count k set ≡ count k [] + count k ids) × (count k set ≤ 1) =
      mark_counts [] ids marked (λ k. ground arith) in
    let once : (k : Key) → count k set ≤ 1 = λ k. (counts k).1 in
    let (rest, taken) =
      take_groups_ends groups set h.nonempty once (λ k. ground (arith, counts k, h.covered k)) in
    let sums : (k : Key) → count_groups k groups + count k rest ≡ count k set =
      (take_groups_counts groups set taken once).1 in
    let ended : empty rest ≡ true =
      no_count rest (λ k. ground (arith, counts k, sums k, h.covered k)) in
    rw (marked, taken, ended) refl

-- Partition accepts groups for a list of ids exactly when no group is empty, the ids differ, and
-- every id occurs in all groups together as often as in the list.
pub partition_iff :
    (groups : List (List Key)) (ids : List Key)
    → (partition groups ids ≡ ok tt) ↔ IsPartition groups ids
partition_iff groups ids = (partition_sound groups ids, partition_complete groups ids)
