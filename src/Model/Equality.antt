-- ===== src/Model/Equality.antt =====
-- `==` and reflect.DeepEqual on the records that the store compares.
use scp_harness.Base.{ℕ, Bool, true, false, ◌≡◌, List, arith, Code}
use scp_harness.Model.Enums.{Stage, ChangeState, Kind, Operation, Scope}
use scp_harness.Model.Names.{LogPath}
use scp_harness.Model.Records.{Resources, Proposal, Claim, Artifact, CiRun, ObjectiveRevision}
use native.Mathlib.Decide.{ℕ_discrete}

-- A comparison by a decision procedure.
abbrev pub same {ℓ} : {A : Type ℓ} → Discrete A → A → A → Bool
same dec a b = elim (dec a b) [ yes _ ↦ true | no _ ↦ false ]

pub same-eq {ℓ} : {A : Type ℓ} (dec : Discrete A) (a b : A) → same dec a b ≡ true → a ≡ b
same-eq dec a b h = ground arith

pub same_refl {ℓ} : {A : Type ℓ} (dec : Discrete A) (a : A) → same dec a a ≡ true
same_refl dec a = ground arith

unfoldable pub ids_discrete : Discrete (List ℕ)
unfolding ℕ_discrete
ids_discrete = hlevel ℕ_discrete

unfoldable pub Resources-discrete : Discrete Resources
unfolding ℕ_discrete
Resources-discrete = hlevel ℕ_discrete

unfoldable pub Proposal-discrete : Discrete Proposal
unfolding ℕ_discrete
Proposal-discrete = hlevel ℕ_discrete

unfoldable pub Claim-discrete : Discrete Claim
unfolding ℕ_discrete
Claim-discrete = hlevel ℕ_discrete

unfoldable pub Artifact-discrete : Discrete Artifact
unfolding ℕ_discrete
Artifact-discrete = hlevel ℕ_discrete

unfoldable pub CiRun-discrete : Discrete CiRun
unfolding ℕ_discrete
CiRun-discrete = hlevel ℕ_discrete

unfoldable pub revisions_discrete : Discrete (List ObjectiveRevision)
unfolding ℕ_discrete
revisions_discrete = hlevel ℕ_discrete

unfoldable pub Stage-discrete : Discrete Stage
Stage-discrete = hlevel

unfoldable pub ChangeState-discrete : Discrete ChangeState
ChangeState-discrete = hlevel

unfoldable pub Kind-discrete : Discrete Kind
Kind-discrete = hlevel

unfoldable pub Operation-discrete : Discrete Operation
Operation-discrete = hlevel

unfoldable pub LogPath-discrete : Discrete LogPath
unfolding ℕ_discrete
LogPath-discrete = hlevel ℕ_discrete

unfoldable pub Code-discrete : Discrete Code
Code-discrete = hlevel

unfoldable pub Scope-discrete : Discrete Scope
Scope-discrete = hlevel
