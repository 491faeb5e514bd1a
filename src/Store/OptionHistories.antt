-- ===== src/Store/OptionHistories.antt =====
-- Proofs about sequences of calls of Update of internal/store/store.go: options.
use scp_harness.Base.{
  ◌≡◌, refl, ap, sym, ◌∙◌, true, none, some, Map, lookup, ok, Option-cases, inl, inr, arith,
  &&-split, lookup-map_values,
}
use mathlib.Core.Option
use scp_harness.Model.{
  Key, State, Account, Proposal-discrete, Proposal, same, same-eq, option_closed,
}
use scp_harness.Ledger.{refresh, mirror_accounts}
use scp_harness.Ledger.Soundness.{refresh-frame}
use scp_harness.Store.Immutability.{option_kept}
use scp_harness.Store.Histories.{
  Reach, Persist, Reach-Persist, compared_entry, immutable-parts, unblocked_part,
}

-- What may not change of an Option: its text, its origin, and that it is closed.
pub record ProposalKept (old n : Proposal) : Type 0 where
  pub id : n.id ≡ old.id
  pub task_id : n.task_id ≡ old.task_id
  pub text : n.text ≡ old.text
  pub parent : n.parent ≡ old.parent
  pub actor : n.actor ≡ old.actor
  pub closed : option_closed old.status ≡ true → option_closed n.status ≡ true

option_kept-ProposalKept : (old n : Proposal) → option_kept old n ≡ true → ProposalKept old n
unfolding option_kept
option_kept-ProposalKept old n h =
    let mixed : Proposal = record old {
      status = n.status;
      close_reason = n.close_reason;
      remaining = n.remaining;
    } in
    let both = &&-split (same Proposal-discrete mixed n) _ h in
    let eq : mixed ≡ n = same-eq Proposal-discrete mixed n both.0 in
    record {
      id = sym (ap (λ (o : Proposal). o.id) eq);
      task_id = sym (ap (λ (o : Proposal). o.task_id) eq);
      text = sym (ap (λ (o : Proposal). o.text) eq);
      parent = sym (ap (λ (o : Proposal). o.parent) eq);
      actor = sym (ap (λ (o : Proposal). o.actor) eq);
      closed = λ c. ground (arith, both.1);
    }

ProposalKept-refl : (o : Proposal) → ProposalKept o o
ProposalKept-refl o = record {
  id = refl;
  task_id = refl;
  text = refl;
  parent = refl;
  actor = refl;
  closed = λ c. c;
}

ProposalKept-trans : (a b c : Proposal) → ProposalKept a b → ProposalKept b c → ProposalKept a c
ProposalKept-trans a b c f g = record {
  id = g.id ∙ f.id;
  task_id = g.task_id ∙ f.task_id;
  text = g.text ∙ f.text;
  parent = g.parent ∙ f.parent;
  actor = g.actor ∙ f.actor;
  closed = λ x. g.closed (f.closed x);
}

-- A refresh only mirrors an account's balance into its option.
mirrored :
    (m : Map Account) (k : Key) (o : Proposal)
    → ProposalKept o
        (elim (lookup k m) [ none ↦ o | some a ↦ record o { remaining = a.remaining } ])
mirrored m k o = elim (Option-cases (lookup k m)) [
  | inl missing ↦ rw missing (ProposalKept-refl o)
  | inr (a, e) ↦ rw e (record {
    id = refl;
    task_id = refl;
    text = refl;
    parent = refl;
    actor = refl;
    closed = λ c. c;
  })
]

refresh-mirrors :
    (s s' : State) → refresh s ≡ ok s' → Persist (λ (x : State). x.options) ProposalKept s s'
unfolding mirror_accounts
refresh-mirrors s s' e k o el =
    let (ts, frame) = refresh-frame s e in
    (
      _,
      ap (λ (x : State). lookup k x.options) frame
          ∙ lookup-map_values _ k s.options
          ∙ ap (Option.map _) el,
      mirrored s.accounts k o,
    )

-- Through any sequence of calls of Update, whatever each does and however the disk answers, an
-- Option is never lost and keeps its id, task, text, parent and actor; once it is closed it stays
-- closed.
pub options_persist :
    (db : State) {db' : State} (k : Key) (o : Proposal)
    → Reach db db'
    → lookup k db.options ≡ some o
    → (o' : Proposal) × (lookup k db'.options ≡ some o') × ProposalKept o o'
options_persist db k o h e =
    Reach-Persist (λ (s : State). s.options) ProposalKept ProposalKept-refl ProposalKept-trans
      refresh-mirrors
      (λ s s' kept k v el.
        let (w, ew, eq) =
          compared_entry option_kept k v s.options s'.options (immutable-parts s s' kept).1 el in
        (w, ew, option_kept-ProposalKept v w eq))
      (unblocked_part (λ (s : State). s.options) (λ s bs n. refl)) (λ l s. refl) db h k o e
