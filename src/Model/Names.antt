-- ===== src/Model/Names.antt =====
-- Ids, times and the other texts that the program stores, compares and orders, but never reads.
use scp_harness.Base.{ℕ, ℤ, Option, none, some, Text, Code}
use Prim.Native.String.{String}

-- An id, a SHA, a repository identity or a name; 0 is "".
abbrev pub Key : Type 0
Key = ℕ

-- A UTC time in the fixed format of model.Now, whose texts are ordered as the times are; 0 is "".
abbrev pub Time : Type 0
Time = ℕ

-- A claim's payload, by how config.Strict reads it: as an object with one text, as one with a
-- review's finding, as another object, or not at all. The number tells two payloads of a kind apart.
pub data Payload : Type 0 where
  text_object finding_object : Text → Payload
  object : ℕ → Payload
  malformed : ℕ → Payload

-- `json.RawMessage("{}")`
abbrev pub empty_object : Payload
empty_object = Payload.object 0

abbrev pub discussion_text : Payload → Option Text
discussion_text (Payload.text_object t) = some t
discussion_text _ = none

-- An event's message: fixed words, an id, an amount, the two ends of a promotion, or the text of
-- an error of a code.
pub data Message : Type 0 where
  words : String → Message
  about : Key → Message
  amount : ℤ → Message
  from_to : Key → Key → Message
  error_text : Code → Message

-- Where a log is kept: nowhere yet, under an activity's id, or where its executor says.
pub data LogPath : Type 0 where
  unset : LogPath
  stdout_of stderr_of given : Key → LogPath
