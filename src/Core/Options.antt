-- ===== src/Core/Options.antt =====
-- The operations on options and claims of internal/core/core.go.
use scp_harness.Base.{
  ℕ, ℤ, pos, Bool, not, ◌&&◌, ◌||◌, List, [], ◌∷◌, lookup, map, contains, length, ltb, insert,
  erase, Result, ok, Code, ◌>>=◌, ◌>>◌, fail_if, deref, ◌==◌, if◌then◌else◌, Text, blank, lt_ℤ,
  le_ℤ,
}
use scp_harness.Model.{
  Key, State, Task, Proposal, Claim, CloseReason, Relation, Config, Capability, Card, Kind,
  ClaimType, Payload, empty_object, is_active, is_closed, require, operator_card, touch,
}
use scp_harness.Ledger.{add, move, lca, allocate}
use scp_harness.Store.{Disk, task_quiescent}
use scp_harness.Core.Common.{
  find_task, open_option, core_update, after_tests, create_option, close_proposal,
}
use scp_harness.Core.Claims.{add_claim, close_option, qualifying_claim}

-- Where the new option of Propose hangs: under the task, or under an open option of it.
unfoldable pub propose_parent : Key → Key → State → Result (Key × List Key)
propose_parent task source s = if source == 0 then ok (task, []) else do
  o ← open_option source s
  fail_if (not (o.task_id == task)) Code.precondition_failed
  ok (source, source ∷ [])

-- The transaction of Propose.
unfoldable pub propose_in : Key → Key → Text → Key → State → Result (Proposal × State)
propose_in operator task text source s = do
  t ← find_task task s
  fail_if (not (is_active t.status)) Code.invalid_state
  (parent, parents) ← propose_parent task source s
  let (o, s') = create_option t text parent operator t.sha t.revision parents Relation.propose s
  ok (o, touch task s')

unfoldable pub propose : Config → Disk → Key → Text → Key → State → Result Proposal × State
propose cfg disk task text source db =
    after_tests
      (do
        require (Capability.option_propose ∷ []) (operator_card cfg)
        fail_if (blank text) Code.schema_invalid)
      db (core_update disk (propose_in (operator_card cfg).id task text source) db)

pub record Child : Type 0 where
  pub text : Text
  pub wall : ℤ

-- The first loop of Split.
unfoldable pub child_total : List Child → ℤ → Result ℤ
child_total [] total = ok total
child_total (c ∷ cs) total = do
  fail_if (blank c.text) Code.schema_invalid
  total' ← add total c.wall
  child_total cs total'

-- The second loop of Split: an option for each child, with its share of the parent's balance.
unfoldable pub split_children :
    Task → Key → Key → Relation → List Child → State → Result (List Proposal × State)
split_children t id operator relation [] s = ok ([], s)
split_children t id operator relation (c ∷ cs) s = do
  let (n, made) = create_option t c.text id operator t.sha t.revision (id ∷ []) relation s
  moved ← move id n.id c.wall made
  (rest, s') ← split_children t id operator relation cs moved
  ok (n ∷ rest, s')

-- The transaction of Split; a refinement also closes its parent.
unfoldable pub split_in :
    Key → Key → List Child → Bool → State → Result ((Proposal × List Proposal) × State)
split_in operator id children refine s = do
  o ← open_option id s
  total ← child_total children (pos 0)
  a ← deref (lookup id s.accounts)
  fail_if (lt_ℤ a.remaining total) Code.insufficient_resource
  t ← deref (lookup o.task_id s.tasks)
  let relation : Relation = if refine then Relation.refine else Relation.split
  (kids, s') ← split_children t id operator relation children s
  let o' : Proposal = if refine then close_proposal CloseReason.superseded o else o
  ok ((o', kids), touch t.id (record s' { options = insert id o' s'.options }))

unfoldable pub split :
    Config → Disk → Key → List Child → Bool → State → Result (Proposal × List Proposal) × State
split cfg disk id children refine db =
    let cap : Capability = if refine then Capability.option_refine else Capability.option_split in
    let minimum : ℕ = if refine then 1 else 2 in
    after_tests
      (do
        require (cap ∷ []) (operator_card cfg)
        fail_if (ltb (length children) minimum) Code.schema_invalid)
      db (core_update disk (split_in (operator_card cfg).id id children refine) db)

pub record Participant : Type 0 where
  pub id : Key
  pub wall : ℤ

-- The first loop of Merge.
unfoldable pub check_participants : Key → List Key → ℤ → List Participant → State → Result ℤ
check_participants task seen total [] s = ok total
check_participants task seen total (p ∷ ps) s = do
  o ← open_option p.id s
  fail_if (not (o.task_id == task) || contains p.id seen) Code.precondition_failed
  total' ← add total p.wall
  a ← deref (lookup p.id s.accounts)
  fail_if (lt_ℤ a.remaining p.wall) Code.insufficient_resource
  check_participants task (p.id ∷ seen) total' ps s

-- The second: what the participants give to the merged option.
unfoldable pub collect : Key → List Participant → State → Result State
collect result [] s = ok s
collect result (p ∷ ps) s = do s' ← move p.id result p.wall s; collect result ps s'

-- The third: the participants are superseded.
unfoldable pub supersede : List Key → State → Result State
supersede [] s = ok s
supersede (id ∷ ids) s = do
  o ← deref (lookup id s.options)
  supersede ids
      (record s { options = insert id (close_proposal CloseReason.superseded o) s.options })

abbrev pub participant_ids : List Participant → List Key
participant_ids = map (λ p. p.id)

-- The transaction of Merge.
unfoldable pub merge_in : Key → Key → Text → List Participant → State → Result (Proposal × State)
merge_in operator task text participants s = do
  t ← find_task task s
  total ← check_participants task [] (pos 0) participants s
  parent ← lca (participant_ids participants) s.accounts
  let (o, made) =
      create_option t text parent operator t.sha t.revision (participant_ids participants)
        Relation.merge s
  paid ← collect o.id participants made
  closed ← supersede (participant_ids participants) paid
  ok (o, touch task closed)

unfoldable pub merge :
    Config → Disk → Key → Text → List Participant → State → Result Proposal × State
merge cfg disk task text participants db =
    after_tests
      (do
        require (Capability.option_merge ∷ []) (operator_card cfg)
        fail_if (ltb (length participants) 2 || blank text) Code.schema_invalid)
      db (core_update disk (merge_in (operator_card cfg).id task text participants) db)

-- The transaction of (*Core).Allocate.
unfoldable pub allocate_in : Key → ℤ → State → Result (Proposal × State)
allocate_in id n s = do o ← open_option id s; s' ← allocate id n s; ok (o, touch o.task_id s')

unfoldable pub allocate_option : Config → Disk → Key → ℤ → State → Result Proposal × State
allocate_option cfg disk id n db =
    after_tests
      (do
        require (Capability.option_allocate ∷ []) (operator_card cfg)
        fail_if (le_ℤ n (pos 0)) Code.precondition_failed)
      db (core_update disk (allocate_in id n) db)

-- Its two ways of closing: by a claim, or in a state of its own with the reason.
unfoldable pub end_option : Config → Key → CloseReason → Proposal → Task → State → Result State
end_option cfg id CloseReason.fulfilled o t s = do
  (_, s') ←
      add_claim t (operator_card cfg) Kind.option id ClaimType.fulfilled empty_object t.sha
        t.revision s
  ok s'
end_option cfg id reason o t s = do
  s' ← close_option id s
  o' ← deref (lookup id s'.options)
  ok (record s' { options = insert id (close_proposal reason o') s'.options })

-- The transaction of CloseOptionReason. `cancelled` tells that the option's own activity was
-- cancelled before.
unfoldable pub close_option_in :
    Config → Key → CloseReason → Bool → State → Result (Proposal × State)
close_option_in cfg id reason cancelled s = do
  o ← open_option id s
  t ← deref (lookup o.task_id s.tasks)
  fail_if (cancelled && not (task_quiescent t.id s)) Code.blocked
  s' ← end_option cfg id reason o t s
  o' ← deref (lookup id s'.options)
  ok (o', touch t.id (record s' { cancellations = erase t.id s'.cancellations }))

-- The transaction of CreateClaim.
unfoldable pub create_claim_in :
    Card → Key → Kind → Key → ClaimType → Payload → State → Result (Claim × State)
create_claim_in card task kind id typ payload s = do
  t ← find_task task s
  fail_if (is_closed t.status) Code.invalid_state
  let qualifying : Bool = qualifying_claim card kind typ
  fail_if (qualifying && not (task_quiescent task s)) Code.blocked
  (claim, s') ← add_claim t card kind id typ payload t.sha t.revision s
  let cleared : State =
      if qualifying then record s' { cancellations = erase task s'.cancellations } else s'
  ok (claim, touch task cleared)
