-- ===== src/Agent/Replies.antt =====
-- Which answer a QMP dialogue gives.
use rymevisor.Common.{
  ◌≡◌, ◌≢◌, ◌∙◌, refl, true, Option, none, some, List, [], ◌∷◌, String, ap, inl, inr, Option-cases,
  ◌&&◌, eq_iff, arith, All,
}
use rymevisor.Common.Effect.{Result, ok, err}
use rymevisor.Agent.Qmp.{
  QmpResponse, QmpMessage, QmpFailure, read_response, Dialogue, decode_into, blank, read_reply,
  returned_of, negotiate, converse,
}

-- An event has a name.
abbrev pub HasNamedEvent : QmpMessage → Type 0
HasNamedEvent m = m.event ≢ some ""

-- The answer: that of the first message, unless it is an event.
abbrev pub answer : List QmpMessage → Result QmpFailure (Option String)
answer [] = err read_response
answer (m ∷ ms) = elim m.event [
  | none ↦ returned_of (ok (decode_into m blank))
  | some e ↦ err read_response
]

-- Once an event is read, its name stays in the response.
decode_into-busy :
    (m : QmpMessage) (resp : QmpResponse)
    → QmpResponse.event resp ≢ ""
    → HasNamedEvent m
    → QmpResponse.event (decode_into m resp) ≢ ""
unfolding decode_into
decode_into-busy m resp busy named = kept m.event named
  where
    kept : (o : Option String) → o ≢ some "" → elim o [ none ↦ resp.event | some e ↦ e ] ≢ ""
    kept none n = busy
    kept (some e) n = λ h. n (ap some h)

read_reply_stuck :
    (resp : QmpResponse) (ms : List QmpMessage)
    → QmpResponse.event resp ≢ ""
    → All HasNamedEvent ms
    → read_reply resp ms ≡ err read_response
unfolding read_reply
read_reply_stuck resp [] busy named = refl
read_reply_stuck resp (m ∷ ms) busy named =
    let still = decode_into-busy m resp busy named.0 in
    let rest = read_reply_stuck (decode_into m resp) ms still named.1 in
    ground (arith, eq_iff (QmpResponse.event (decode_into m resp)) "", still, rest)

read_reply_first :
    (ms : List QmpMessage) → All HasNamedEvent ms → returned_of (read_reply blank ms) ≡ answer ms
read_reply_first [] named = unfold read_reply in refl
read_reply_first (m ∷ ms) named = elim (Option-cases m.event) [
  | inl reply ↦ unfold read_reply decode_into in rw reply refl
  | inr (e, event) ↦
      let busy : QmpResponse.event (decode_into m blank) ≢ "" =
        unfold decode_into in rw event (λ h. named.0 (event ∙ ap some h)) in
      let stuck = read_reply_stuck (decode_into m blank) ms busy named.1 in
      unfold read_reply in
      ground (arith, event, busy, stuck, eq_iff (QmpResponse.event (decode_into m blank)) "")
]

-- A dialogue that is not cut off answers by the first message after the greeting and the
-- capabilities: by its result or its error, and with a failure to read where it is an event,
-- whatever comes after it.
pub converse_answers :
    (d : Dialogue) (greeting capabilities : QmpMessage) (ms : List QmpMessage)
    → (d.dials && d.sets_deadline && d.sends_capabilities && d.sends_command) ≡ true
    → d.received ≡ greeting ∷ capabilities ∷ ms
    → All HasNamedEvent ms
    → converse d ≡ answer ms
unfolding converse negotiate
converse_answers d greeting capabilities ms open_ all named =
    ground (arith, read_reply_first ms named)
