-- ===== src/Ledger/Allocation.antt =====
-- Proofs about Allocate of internal/ledger/ledger.go.
use scp_harness.Base.{
  ℕ, zero, suc, ℤ, ◌+ℤ◌, ◌-ℤ◌, ◌≡◌, refl, ◌≢◌, ap, sym, ◌∙◌, subst, true, false, not, ◌&&◌, some,
  List, [], ◌∷◌, Map, length, lookup, insert, lookup-insert_ne, lookup-insert_self, ok, panic, ◌==◌,
  contains, arith, Bool-cases, Option-cases, Result-cases, inl, inr, ==_iff, ◌⊎◌, sub64, lt_ℤ,
}
use scp_harness.Model.{Key, State, Account}
use scp_harness.Ledger.Transfer.{transfer, move}
use scp_harness.Ledger.Ancestry.{ancestors, walk_fuel, allocate_fuel, allocate}
use scp_harness.Ledger.Conservation.{move_lem, add_lem}
use scp_harness.Ledger.Invariant.{IsLedger}
use scp_harness.Ledger.Bounds.{IsLedger-Fits}
use scp_harness.Ledger.Preservation.{move-IsLedger}
use scp_harness.Ledger.Walks.{Above, self, up, Above-inv, ancestors-step}

pub move-ne-panic : (from to : Key) (n : ℤ) (s : State) → move from to n s ≢ panic
unfolding move transfer
move-ne-panic from to n s = elim (Option-cases (lookup from s.accounts)) [
  | inl missing ↦ ground arith
  | inr (a, ea) ↦ elim (Option-cases (lookup to s.accounts)) [
    | inl missing ↦ ground arith
    | inr (b, eb) ↦ ground (arith, add_lem b.remaining n)
  ]
]

-- How one round of an allocation succeeds.
pub allocate_fuel-ok :
    (fuel : ℕ) (to : Key) (n : ℤ) (s : State) {s' : State}
    → allocate_fuel (suc fuel) to n s ≡ ok s'
    → (a p : Account) × (mid : State) × (lookup to s.accounts ≡ some a)
      × ((a.parent == 0) ≡ false)
      × (lookup a.parent s.accounts ≡ some p)
      × ((s ≡ mid) ⊎ (allocate_fuel fuel a.parent (sub64 n p.remaining) s ≡ ok mid))
      × (move a.parent to n mid ≡ ok s')
unfolding allocate_fuel
allocate_fuel-ok fuel to n s {s'} e = elim (Option-cases (lookup to s.accounts)) [
  | inl missing ↦ absurd (ground arith)
  | inr (a, ea) ↦ elim (Option-cases (lookup a.parent s.accounts)) [
    | inl missing ↦ absurd (ground arith)
    | inr (p, ep) ↦ elim (Bool-cases (lt_ℤ p.remaining n && not (p.parent == 0))) [
      | inl deficit ↦ elim (Result-cases (allocate_fuel fuel a.parent (sub64 n p.remaining) s)) [
        | inl (mid, em) ↦ (a, p, mid, ea, ground arith, ep, inr em, ground arith)
        | inr fails ↦ absurd (ground arith)
      ]
      | inr funded ↦ (a, p, s, ea, ground arith, ep, inl refl, ground arith)
    ]
  ]
]

-- A walk that succeeds has found the account that it starts from.
walk-present :
    (fuel : ℕ) (seen : List Key) (id : Key) (m : Map Account) {out : List Key}
    → ancestors fuel seen id m ≡ ok out
    → (id == 0) ≡ false
    → (a : Account) × (lookup id m ≡ some a)
walk-present zero seen id m h e = absurd (unfold ancestors in ground arith)
walk-present (suc fuel) seen id m h e = elim (ancestors-step fuel seen id m h) [
  | inl (stop, same) ↦ absurd (ground arith)
  | inr (a, _, first, ea, rest) ↦ (a, ea)
]

allocate_fuel_ends :
    (fuel : ℕ) (seen : List Key) (to : Key) (n : ℤ) (s : State) {out : List Key}
    → (to == 0) ≡ false
    → ancestors fuel seen to s.accounts ≡ ok out
    → allocate_fuel fuel to n s ≢ panic
unfolding allocate_fuel
allocate_fuel_ends zero seen to n s present h = absurd (unfold ancestors in ground arith)
allocate_fuel_ends (suc fuel) seen to n s {out} present h =
    elim (ancestors-step fuel seen to s.accounts h) [
      | inl (stop, same) ↦ absurd (ground arith)
      | inr (a, _, first, ea, rest) ↦ elim (Bool-cases (a.parent == 0)) [
        | inl root ↦ ground arith
        | inr below ↦
            let (p, ep) = walk-present fuel (to ∷ seen) a.parent s.accounts rest below in
            let higher =
              allocate_fuel_ends fuel (to ∷ seen) a.parent (sub64 n p.remaining) s below rest in
            elim (Result-cases (allocate_fuel fuel a.parent (sub64 n p.remaining) s)) [
              | inl (mid, em) ↦
                  ground (arith, move-ne-panic a.parent to n s, move-ne-panic a.parent to n mid)
              | inr fails ↦ ground (arith, move-ne-panic a.parent to n s)
            ]
      ]
    ]

-- For a target whose walk to its root ends, the fuel of the modelled recursion of Allocate is
-- enough and no parent that it follows is missing: it never panics.
pub allocate-ne-panic :
    (to : Key) (n : ℤ) (s : State) {out : List Key}
    → (to == 0) ≡ false
    → ancestors (walk_fuel s.accounts) [] to s.accounts ≡ ok out
    → allocate to n s ≢ panic
unfolding allocate
allocate-ne-panic to n s p h = allocate_fuel_ends (walk_fuel s.accounts) [] to n s p h

allocate_fuel-IsLedger :
    (fuel : ℕ) (to : Key) (n : ℤ) (s : State) {s' : State}
    → IsLedger s
    → allocate_fuel fuel to n s ≡ ok s'
    → IsLedger s'
allocate_fuel-IsLedger zero to n s h e = absurd (unfold allocate_fuel in ground arith)
allocate_fuel-IsLedger (suc fuel) to n s {s'} h e =
    let (a, p, mid, ea, below, ep, first, last) = allocate_fuel-ok fuel to n s e in
    let h' : IsLedger mid = elim first [
      | inl same ↦ subst IsLedger same h
      | inr above ↦ allocate_fuel-IsLedger fuel a.parent (sub64 n p.remaining) s h above
    ] in
    move-IsLedger a.parent to n mid h' last

-- When Allocate succeeds on a state that satisfies the invariant of the ledger, the state that it
-- returns satisfies it.
pub allocate-IsLedger :
    (to : Key) (n : ℤ) (s : State) {s' : State} → IsLedger s → allocate to n s ≡ ok s' → IsLedger s'
unfolding allocate
allocate-IsLedger to n s h e = allocate_fuel-IsLedger (walk_fuel s.accounts) to n s h e

-- A walk that succeeds meets nothing that it has seen already.
ancestors-fresh :
    (fuel : ℕ) (seen : List Key) (id y : Key) (m : Map Account) {out : List Key}
    → ancestors fuel seen id m ≡ ok out
    → contains y seen ≡ true
    → ¬ Above m id y
ancestors-fresh zero seen id y m h c above = absurd (unfold ancestors in ground arith)
ancestors-fresh (suc fuel) seen id y m h c above = elim (ancestors-step fuel seen id m h) [
  | inl (stop, same) ↦ let (b, present, _, _) = Above-inv m above in cc
  | inr (a, _, first, ea, rest) ↦
      let (b, _, eb, next) = Above-inv m above in
      let same : b.parent ≡ a.parent = ground arith in
      elim next [
        | inl here ↦ let seen_here : contains id seen ≡ true = rw here c in cc
        | inr higher ↦
            ancestors-fresh fuel (id ∷ seen) a.parent y m rest (ground arith)
              (subst (λ z. Above m z y) same higher)
      ]
]

-- An account that is neither the target nor above it is not touched.
allocate_fuel-others :
    (fuel : ℕ) (to y : Key) (n : ℤ) (s : State) {s' : State}
    → IsLedger s
    → (to == 0) ≡ false
    → allocate_fuel fuel to n s ≡ ok s'
    → ¬ Above s.accounts to y
    → lookup y s'.accounts ≡ lookup y s.accounts
allocate_fuel-others zero to y n s h present e out = absurd (unfold allocate_fuel in ground arith)
allocate_fuel-others (suc fuel) to y n s {s'} h present e out =
    let (a, p, mid, ea, below, ep, first, last) = allocate_fuel-ok fuel to n s e in
    let h' : IsLedger mid = elim first [
      | inl same ↦ subst IsLedger same h
      | inr above ↦ allocate_fuel-IsLedger fuel a.parent (sub64 n p.remaining) s h above
    ] in
    let (pa, b, epa, eb, m) = move_lem a.parent to n mid (IsLedger-Fits mid h') last in
    let not_to : y ≢ to = λ q. out (self a present ea (sym q)) in
    let not_parent : y ≢ a.parent = λ q. out (up a present ea (self p below ep (sym q))) in
    let before : lookup y mid.accounts ≡ lookup y s.accounts = elim first [
      | inl same ↦ ap (λ (x : State). lookup y x.accounts) (sym same)
      | inr above ↦
          allocate_fuel-others fuel a.parent y (sub64 n p.remaining) s h below above
            (λ z. out (up a present ea z))
    ] in
    let pa' : Account = record pa { remaining = pa.remaining -ℤ n } in
    ap (λ (x : State). lookup y x.accounts) m.after
    ∙ lookup-insert_ne to y (record b { remaining = b.remaining +ℤ n })
        (insert a.parent pa' mid.accounts) not_to
    ∙ lookup-insert_ne a.parent y pa' mid.accounts not_parent
    ∙ before

-- When Allocate succeeds on a state that satisfies the invariant of the ledger, for a target whose
-- walk to its root ends, the target's account has exactly the amount more than before, and every
-- account that is neither the target nor above it is unchanged.
pub allocate_lem :
    (to : Key) (n : ℤ) (s : State) {s' : State} {out : List Key}
    → IsLedger s
    → (to == 0) ≡ false
    → ancestors (walk_fuel s.accounts) [] to s.accounts ≡ ok out
    → allocate to n s ≡ ok s'
    → ((a : Account) × (lookup to s.accounts ≡ some a)
        × (lookup to s'.accounts ≡ some (record a { remaining = a.remaining +ℤ n })))
      × ((y : Key) → ¬ Above s.accounts to y → lookup y s'.accounts ≡ lookup y s.accounts)
unfolding allocate
allocate_lem to n s {s'} {out} h present walk e =
    let (a, p, mid, ea, below, ep, first, last) = allocate_fuel-ok (length s.accounts) to n s e in
    let h' : IsLedger mid = elim first [
      | inl same ↦ subst IsLedger same h
      | inr above ↦
          allocate_fuel-IsLedger (length s.accounts) a.parent (sub64 n p.remaining) s h above
    ] in
    let (pa, b, epa, eb, m) = move_lem a.parent to n mid (IsLedger-Fits mid h') last in
    let rest : ancestors (length s.accounts) (to ∷ []) a.parent s.accounts ≡ ok out =
      elim (ancestors-step (length s.accounts) [] to s.accounts walk) [
        | inl (stop, same) ↦ absurd (ground arith)
        | inr (c, _, fresh, ec, rest) ↦
            let same : c.parent ≡ a.parent = ground arith in
            subst (λ z. ancestors (length s.accounts) (to ∷ []) z s.accounts ≡ ok out) same rest
      ] in
    let before : lookup to mid.accounts ≡ lookup to s.accounts = elim first [
      | inl same ↦ ap (λ (x : State). lookup to x.accounts) (sym same)
      | inr above ↦
          allocate_fuel-others (length s.accounts) a.parent to (sub64 n p.remaining) s h below above
            (ancestors-fresh (length s.accounts) (to ∷ []) a.parent to s.accounts rest
              (ground (arith, ==_iff to to)))
    ] in
    let same : b ≡ a = ground arith in
    (
      (
        a,
        ea,
        ap (λ (x : State). lookup to x.accounts) m.after
            ∙ lookup-insert_self to (record b { remaining = b.remaining +ℤ n }) _
            ∙ ap (λ (x : Account). some (record x { remaining = x.remaining +ℤ n })) same,
      ),
      λ y apart. allocate_fuel-others (walk_fuel s.accounts) to y n s h present e apart,
    )
