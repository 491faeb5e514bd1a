-- ===== src/Config/Loaded.antt =====
-- Proofs about Load of internal/config/config.go: what the operations of internal/core may rely on.
use scp_harness.Base.{
  pos, ◌≤ℤ◌, ◌≡◌, ◌≢◌, refl, true, not, ◌&&◌, ◌||◌, Option, none, List, [], ◌∷◌, Map, lookup, any,
  Result, ok, err, panic, Code, subst, &&-split, fail_if, fail_if-ok, or_fail, ◌==◌, present,
  Yields, Yields-ok, Yields-bind, arith, Bool-cases, inl, inr, eq_ℤ, le_ℤ, length, blank,
}
use scp_harness.Model.{Key, Card, Config, Profile, Workspace, Operation, profile_of, find_profile}
use scp_harness.Config.Cards.{RawCard}
use scp_harness.Config.Loading.{
  RawProfile, RawConfig, out_of_bounds, bounded_limits, is_command, read_cards, read_profile,
  read_profiles, modes, mode_fits, modes_fit, profile_id, exit_codes_fit, no_workspace,
  workspace_allowed, load,
}

-- A profile as the rest of the program takes it: its card is there and its time positive.
pub record GoodProfile (cards : Map Card) (p : Profile) : Type 0 where
  pub named : p.id ≢ 0
  pub carded : lookup p.card cards ≢ none
  pub timed : pos 1 ≤ℤ p.timeout

abbrev pub AllGood : Map Card → List Profile → Type 0
AllGood cards [] = Unit
AllGood cards (p ∷ ps) = GoodProfile cards p × AllGood cards ps

read_profile-good :
    (cards : Map Card) (earlier : List Profile) (p : RawProfile)
    → Yields (GoodProfile cards) (read_profile cards earlier p)
unfolding read_profile
read_profile-good cards earlier p =
    let P : Profile → Type 0 = GoodProfile cards in
    Yields-bind P
      (fail_if ((p.id == 0) || not (is_command p.command) || out_of_bounds p.timeout)
        Code.invalid_config)
      _
      λ u eu. Yields-bind P (or_fail p.workspace Code.invalid_config) _ λ workspace ew.
        Yields-bind P (fail_if (any (λ q. q.id == p.id) earlier) Code.invalid_config) _ λ v ev.
          Yields-bind P (fail_if (not (present (lookup p.card cards))) Code.invalid_config) _
            λ w ec.
              Yields-bind P (fail_if (not (exit_codes_fit p.unavailable)) Code.invalid_config) _
                λ x ex.
                  Yields-bind P
                    (fail_if (p.synthetic && no_workspace workspace) Code.invalid_config) _
                    λ y ey.
                      let fine =
                        fail_if-ok
                          ((p.id == 0) || not (is_command p.command) || out_of_bounds p.timeout)
                          Code.invalid_config eu in
                      let there =
                        fail_if-ok (not (present (lookup p.card cards))) Code.invalid_config ec in
                      Yields-ok P _ (record {
                        named = λ zero. ground arith;
                        carded = λ missing. ground arith;
                        timed = ground arith;
                      })

read_profiles-good :
    (cards : Map Card) (earlier : List Profile) (ps : List RawProfile)
    → Yields (AllGood cards) (read_profiles cards earlier ps)
unfolding read_profiles
read_profiles-good cards earlier [] = Yields-ok (AllGood cards) [] tt
read_profiles-good cards earlier (p ∷ ps) =
    let P : List Profile → Type 0 = AllGood cards in
    Yields-bind P (read_profile cards earlier p) _ λ profile e.
      Yields-bind P (read_profiles cards (profile ∷ earlier) ps) _ λ rest er.
        Yields-ok P (profile ∷ rest) (
          read_profile-good cards earlier p profile e,
          read_profiles-good cards (profile ∷ earlier) ps rest er,
        )

find_profile-good :
    (cards : Map Card) (id : Key) (ps : List Profile)
    → AllGood cards ps
    → Yields (GoodProfile cards) (find_profile id ps)
unfolding find_profile
find_profile-good cards id [] h p e = absurd (ground arith)
find_profile-good cards id (q ∷ ps) h p e = elim (Bool-cases (q.id == id)) [
  | inl here ↦ subst (GoodProfile cards) (ground arith) h.0
  | inr later ↦ find_profile-good cards id ps h.1 p (ground arith)
]

-- An operation is served by a good profile, in a workspace that it may have.
pub record Serves (c : Config) (op : Operation) (mode : Workspace) : Type 0 where
  pub profile : Profile
  pub found : profile_of op c ≡ ok profile
  pub good : GoodProfile c.cards profile
  pub allowed : workspace_allowed op mode profile.workspace ≡ true

abbrev pub AllServed : Config → List (Operation × Workspace) → Type 0
AllServed c [] = Unit
AllServed c ((op, mode) ∷ rest) = Serves c op mode × AllServed c rest

mode_fits-ok :
    (op : Operation) (mode : Workspace) (call : Result Profile)
    → mode_fits op mode call ≡ true
    → (p : Profile) × (call ≡ ok p) × (workspace_allowed op mode p.workspace ≡ true)
mode_fits-ok op mode (ok p) h = (p, refl, (&&-split _ _ h).0)
mode_fits-ok op mode (err e) h = absurd (ground arith)
mode_fits-ok op mode panic h = absurd (ground arith)

modes_fit-served :
    (ms : List (Operation × Workspace)) (c : Config)
    → AllGood c.cards c.workers
    → modes_fit ms c ≡ true
    → AllServed c ms
unfolding modes_fit profile_of
modes_fit-served [] c h e = tt
modes_fit-served ((op, mode) ∷ rest) c h e =
    let (first, later) = &&-split (mode_fits op mode (profile_of op c)) (modes_fit rest c) e in
    let (p, found, allowed) = mode_fits-ok op mode (profile_of op c) first in
    (
      record {
        profile = p;
        found = found;
        good = find_profile-good c.cards (c.operations op) c.workers h p found;
        allowed = allowed;
      },
      modes_fit-served rest c h later,
    )

pub record Loaded (c : Config) : Type 0 where
  pub operator : lookup c.operator c.cards ≢ none
  pub explores : pos 1 ≤ℤ c.exploration_n
  pub workers : AllGood c.cards c.workers
  pub served : AllServed c modes

load-Yields : (files : Key → Option RawCard) (raw : RawConfig) → Yields Loaded (load files raw)
unfolding load
load-Yields files raw =
    Yields-bind Loaded
      (fail_if
        (not (eq_ℤ raw.version (pos 0))
          || blank raw.database
          || blank raw.artifacts
          || not raw.named
          || le_ℤ raw.exploration_n (pos 0))
        Code.invalid_config)
      _
      λ u eu.
        Yields-bind Loaded (fail_if (any out_of_bounds (bounded_limits raw)) Code.invalid_config) _
          λ v ev.
            Yields-bind Loaded (fail_if (not (is_command raw.test_command)) Code.invalid_config) _
              λ w ew. Yields-bind Loaded (read_cards files raw.role_cards) _ λ cards ec.
                Yields-bind Loaded
                  (fail_if (not (present (lookup raw.operator cards))) Code.invalid_config) _
                  λ x ex. Yields-bind Loaded (read_profiles cards [] raw.workers) _ λ workers ek.
                    let c : Config = record {
                      operator = raw.operator;
                      cards = cards;
                      workers = workers;
                      operations = λ op. profile_id op raw.operations;
                      distro = raw.distro;
                      test_distro = raw.test_distro;
                      exploration_n = raw.exploration_n;
                      result_max = raw.result_max;
                      test_timeout = raw.test_timeout;
                      test_command = raw.test_command;
                      hash = raw.hash;
                    } in
                    Yields-bind Loaded
                      (fail_if (not (length raw.operations == 6)) Code.invalid_config) _
                      λ y ey.
                        Yields-bind Loaded (fail_if (not (modes_fit modes c)) Code.invalid_config) _
                          λ z ez.
                            let first =
                              fail_if-ok
                                (not (eq_ℤ raw.version (pos 0))
                                  || blank raw.database
                                  || blank raw.artifacts
                                  || not raw.named
                                  || le_ℤ raw.exploration_n (pos 0))
                                Code.invalid_config eu in
                            let there =
                              fail_if-ok (not (present (lookup raw.operator cards))) _ ex in
                            let fits = fail_if-ok (not (modes_fit modes c)) _ ez in
                            let good : AllGood cards workers =
                              read_profiles-good cards [] raw.workers workers ek in
                            Yields-ok Loaded c (record {
                              operator = λ missing. ground arith;
                              explores = ground arith;
                              workers = good;
                              served = modes_fit-served modes c good (ground arith);
                            })

-- When Load returns a configuration, the card of its operator is there, the number of generations
-- is positive, every worker profile has a name, a card that is there and a positive timeout, and
-- each of the six operations has such a profile, whose workspace is one that the operation may
-- have: the lookups that would panic are defined.
pub load-Loaded :
    (files : Key → Option RawCard) (raw : RawConfig) {c : Config} → load files raw ≡ ok c → Loaded c
load-Loaded files raw e = load-Yields files raw _ e
