-- ===== src/Agent/Qmp.antt =====
-- The dialogue with a QEMU process over its QMP socket: sendQMPCommandWithReturn of
-- services/nodeagent/qemu/manager.go. A dialogue is what the socket does: whether it answers the
-- dial, takes what is sent, and the JSON objects that arrive, up to the first that does not decode.
use rymevisor.Common.{Bool, Option, none, some, List, [], ◌∷◌, if◌then◌else◌, String, str_eq}
use rymevisor.Common.Effect.{Result, ok, err}

pub record QmpError : Type 0 where
  pub class_name : String
  pub description : String

-- qmpResponse; the returned JSON is its text.
pub record QmpResponse : Type 0 where
  pub returned : Option String
  pub error : Option QmpError
  pub event : String

-- The members of an object that arrives, each of which may be missing; `error` may also be null.
pub record QmpMessage : Type 0 where
  pub returned : Option String
  pub error : Option (Option QmpError)
  pub event : Option String

pub data QmpFailure : Type 0 where
  dial_failed deadline_failed read_greeting send_capabilities : QmpFailure
  read_capabilities send_command read_response : QmpFailure
  qmp_error : QmpError → QmpFailure

pub record Dialogue : Type 0 where
  pub dials : Bool
  pub sets_deadline : Bool
  pub sends_capabilities : Bool
  pub sends_command : Bool
  pub received : List QmpMessage

-- `decoder.Decode(&resp)`: the members that the object lacks keep their value.
unfoldable pub decode_into : QmpMessage → QmpResponse → QmpResponse
decode_into m resp = record {
  returned = elim m.returned [ none ↦ resp.returned | some r ↦ some r ];
  error = elim m.error [ none ↦ resp.error | some e ↦ e ];
  event = elim m.event [ none ↦ resp.event | some e ↦ e ];
}

abbrev pub blank : QmpResponse
blank = record { returned = none; error = none; event = "" }

-- The loop that skips events; `resp` is declared before it.
unfoldable pub read_reply : QmpResponse → List QmpMessage → Result QmpFailure QmpResponse
unfolding decode_into
read_reply resp [] = err read_response
read_reply resp (m ∷ ms) =
    let rest = read_reply (decode_into m resp) ms in
    if str_eq (QmpResponse.event (decode_into m resp)) "" then ok (decode_into m resp) else rest

abbrev pub returned_of : Result QmpFailure QmpResponse → Result QmpFailure (Option String)
returned_of (err e) = err e
returned_of (ok resp) = elim resp.error [ none ↦ ok resp.returned | some e ↦ err (qmp_error e) ]

-- After the greeting.
unfoldable pub negotiate : Dialogue → List QmpMessage → Result QmpFailure (Option String)
unfolding read_reply
negotiate d ms =
    if d.sends_capabilities
    then (elim ms [
      | [] ↦ err read_capabilities
      | m ∷ rest ↦ if d.sends_command then returned_of (read_reply blank rest) else err send_command
    ])
    else err send_capabilities

unfoldable pub converse : Dialogue → Result QmpFailure (Option String)
unfolding negotiate
converse d =
    if d.dials
    then (if d.sets_deadline
        then (elim d.received [ [] ↦ err read_greeting | m ∷ rest ↦ negotiate d rest ])
        else err deadline_failed)
    else err dial_failed
