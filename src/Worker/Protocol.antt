-- ===== src/Worker/Protocol.antt =====
-- Parse of internal/worker/protocol.go, on a document by what config.Strict reads it as.
use scp_harness.Base.{
  ℤ, pos, Bool, true, false, not, ◌||◌, Option, List, [], any, Result, ok, err, Code, ◌>>=◌, ◌>>◌,
  fail_if, or_fail, ◌==◌, lt_ℤ, eq_ℤ, Text, blank,
}
use scp_harness.Model.{
  Key, Kind, ClaimType, Payload, Operation, Verdict, blank_type, same, Operation-discrete,
}

pub record ClaimRequest : Type 0 where
  pub subject_type : Kind
  pub subject_id : Key
  pub type : ClaimType
  pub payload : Payload

pub data Disposition : Type 0 where
  unset promote_final continue_final drop_final other : Disposition

-- worker.Result: what Core reads of an answer. An OptionRequest is its text.
pub record Answer : Type 0 where
  pub disposition : Disposition
  pub verdict : Verdict
  pub text : Text
  pub findings : List Text
  pub claims : List ClaimRequest
  pub options : List Text
  pub groups : List (List Key)

-- `Result{}`, with a verdict that is no verdict.
abbrev pub no_answer : Answer
no_answer = record {
  disposition = Disposition.unset;
  verdict = Verdict.other;
  text = [];
  findings = [];
  claims = [];
  options = [];
  groups = [];
}

-- The two fields that every output has.
pub record Heading : Type 0 where
  pub version : ℤ
  pub operation : Operation

pub record MutationOutput : Type 0 where
  pub heading : Heading
  pub disposition : Disposition
  pub claims : List ClaimRequest
  pub options : List Text

pub record ReviewOutput : Type 0 where
  pub heading : Heading
  pub verdict : Verdict
  pub findings : List Text
  pub claims : List ClaimRequest

pub record GenerationOutput : Type 0 where
  pub heading : Heading
  pub options : List Text

pub record JudgeOutput : Type 0 where
  pub heading : Heading
  pub groups : List (List Key)

-- Synth and Discussion have the same fields.
pub record TextOutput : Type 0 where
  pub heading : Heading
  pub text : Text

-- The bytes of an answer: how many, and what config.Strict reads them as for each type of output,
-- if it does.
pub record Document : Type 0 where
  pub size : ℤ
  pub mutation : Option MutationOutput
  pub review : Option ReviewOutput
  pub generation : Option GenerationOutput
  pub judge : Option JudgeOutput
  pub synth : Option TextOutput
  pub discussion : Option TextOutput

abbrev pub is_final : Disposition → Bool
is_final Disposition.promote_final = true
is_final Disposition.continue_final = true
is_final Disposition.drop_final = true
is_final _ = false

abbrev pub is_verdict : Verdict → Bool
is_verdict Verdict.other = false
is_verdict _ = true

-- An output with a text of its own, which may not be blank.
unfoldable pub read_text : Option TextOutput → Result (Answer × Heading)
read_text output = do
  v ← or_fail output Code.schema_invalid
  fail_if (blank v.text) Code.schema_invalid
  ok (record no_answer { text = v.text }, v.heading)

-- The switch of Parse.
unfoldable pub read_output : Document → Operation → Result (Answer × Heading)
read_output d Operation.mutation = do
  v ← or_fail d.mutation Code.schema_invalid
  fail_if (not (is_final v.disposition)) Code.schema_invalid
  let r : Answer = record no_answer {
    disposition = v.disposition;
    claims = v.claims;
    options = v.options;
  }
  ok (r, v.heading)
read_output d Operation.review = do
  v ← or_fail d.review Code.schema_invalid
  fail_if (not (is_verdict v.verdict)) Code.schema_invalid
  let r : Answer = record no_answer {
    verdict = v.verdict;
    findings = v.findings;
    claims = v.claims;
  }
  ok (r, v.heading)
read_output d Operation.option_generation = do
  v ← or_fail d.generation Code.schema_invalid
  ok (record no_answer { options = v.options }, v.heading)
read_output d Operation.merge_judge = do
  v ← or_fail d.judge Code.schema_invalid
  ok (record no_answer { groups = v.groups }, v.heading)
read_output d Operation.discussion = read_text d.discussion
read_output d Operation.merge_synth = read_text d.synth
read_output d _ = err Code.schema_invalid

abbrev pub is_object : Payload → Bool
is_object (Payload.malformed _) = false
is_object _ = true

abbrev pub known_kind : Kind → Bool
known_kind Kind.other = false
known_kind _ = true

-- A subject id of blanks reads as 0, as the empty one does.
abbrev pub claim_misshapen : ClaimRequest → Bool
claim_misshapen c =
    not (known_kind c.subject_type)
    || (c.subject_id == 0)
    || blank_type c.type
    || not (is_object c.payload)

unfoldable pub parse : Document → Operation → ℤ → Result Answer
parse d operation cap = do
  fail_if (lt_ℤ cap d.size) Code.schema_invalid
  (r, heading) ← read_output d operation
  fail_if
      (not (eq_ℤ heading.version (pos 0))
        || not (same Operation-discrete heading.operation operation))
      Code.schema_invalid
  fail_if (any blank r.options) Code.schema_invalid
  fail_if (any blank r.findings) Code.schema_invalid
  fail_if (any claim_misshapen r.claims) Code.schema_invalid
  ok r
