-- ===== src/Agent/Answered.antt =====
-- What the sender of the commands is told, as a specification, and that the agent implements it.
use rymevisor.Common.{
  ◌≡◌, refl, ◌⊎◌, inl, inr, Bool, true, false, Option, none, some, List, [], ◌∷◌, arith,
  if◌then◌else◌, String,
}
use rymevisor.Common.Effect.{Result, ok, err}
use rymevisor.Common.Triple.{Ends-ignore}
use rymevisor.Agent.{VmCommand, VmCommandResult}
use rymevisor.Agent.Host.{Platform, Host, AgentError, publish_failed, advance, os_call}
use rymevisor.Agent.Service.{dispatch, result_of, is_ok, publish_result, handle_command, handle_all}
use rymevisor.Agent.Frames.{Answered}
use rymevisor.Agent.Frames.Start.{dispatch-IsSilent}

abbrev pub told : VmCommand → Bool → VmCommandResult
told cmd true = record {
  vm_id = cmd.vm_id;
  action = cmd.action;
  status = "success";
  failed = false;
}
told cmd false = record { vm_id = cmd.vm_id; action = cmd.action; status = "error"; failed = true }

-- The contract, over the messages, the acknowledgements and the published results, the newest first.
-- A message that does not decode is refused. A command is acknowledged or refused, and its result is
-- published in the same words, or lost.
pub data Follows (acks : List Bool) (es : List VmCommandResult)
    : List (Option VmCommand) → List Bool → List VmCommandResult → Type 0 where
  start : Follows acks es [] acks es
  undecoded :
      {ms : List (Option VmCommand)} {bs : List Bool} {rs : List VmCommandResult}
      → Follows acks es ms bs rs
      → Follows acks es (none ∷ ms) (false ∷ bs) rs
  answered :
      {ms : List (Option VmCommand)} {bs : List Bool} {rs : List VmCommandResult} (cmd : VmCommand)
      (success : Bool)
      → Follows acks es ms bs rs
      → Follows acks es (some cmd ∷ ms) (success ∷ bs) (told cmd success ∷ rs)
  lost :
      {ms : List (Option VmCommand)} {bs : List Bool} {rs : List VmCommandResult} (cmd : VmCommand)
      (success : Bool)
      → Follows acks es ms bs rs
      → Follows acks es (some cmd ∷ ms) (success ∷ bs) rs

result_of-told :
    (cmd : VmCommand) (r : Result AgentError (Unit {0})) → result_of cmd r ≡ told cmd (is_ok r)
result_of-told cmd (ok u) = refl
result_of-told cmd (err e) = refl

module _ (os : Platform) (base images : String) where
  dispatch-Answered :
      (cmd : VmCommand) (h : Host) → Answered h.acked h.events (dispatch os base images cmd h).1
  dispatch-Answered cmd h =
      Ends-ignore (Answered h.acked h.events) (dispatch os base images cmd h)
        ((dispatch-IsSilent os h.acked h.events base images cmd).run h (refl, refl))

  published :
      (r : VmCommandResult) (h : Host)
      → (Host.acked (publish_result os r h).1 ≡ h.acked)
        × ((Host.events (publish_result os r h).1 ≡ h.events)
            ⊎ (Host.events (publish_result os r h).1 ≡ r ∷ h.events))
  unfolding publish_result os_call advance
  published r h = sent (os.fails h.calls)
    where
      outcome : Bool → Result AgentError (Unit {0})
      outcome b = if b then err publish_failed else ok tt

      write : Host → Result AgentError (Unit {0}) × Host
      write s = (ok tt, record s { events = r ∷ s.events })

      after : Bool → Host
      after b =
          (elim (outcome b) as (λ _. Result AgentError (Unit {0}) × Host) [
            | ok u ↦ write (advance os h)
            | err e ↦ (err e, advance os h)
          ]).1

      sent :
          (b : Bool)
          → (Host.acked (after b) ≡ h.acked)
            × ((Host.events (after b) ≡ h.events) ⊎ (Host.events (after b) ≡ r ∷ h.events))
      sent true = (refl, inl refl)
      sent false = (refl, inr refl)

  module _ (acks : List Bool) (es : List VmCommandResult) (ms : List (Option VmCommand)) where
    abbrev Told : Option VmCommand → Host → Type 0
    Told m h = Follows acks es (m ∷ ms) h.acked h.events

    abbrev Well : Option VmCommand → Result AgentError (Unit {0}) × Host → Type 0
    Well m o = (o.0 ≡ ok tt) × Told m o.1

    command-Told :
        (cmd : VmCommand) (h : Host)
        → Follows acks es ms h.acked h.events
        → Well (some cmd) (handle_command os base images (some cmd) h)
    unfolding handle_command
    command-Told cmd h so_far = (refl, written report.1)
      where
        done : Result AgentError (Unit {0}) × Host
        done = dispatch os base images cmd h

        after : Host
        after = (publish_result os (result_of cmd done.0) done.1).1

        kept : Answered h.acked h.events done.1
        kept = dispatch-Answered cmd h

        report :
            (Host.acked after ≡ done.1.acked)
            × ((Host.events after ≡ done.1.events)
                ⊎ (Host.events after ≡ result_of cmd done.0 ∷ done.1.events))
        report = published (result_of cmd done.0) done.1

        written :
            (Host.events after ≡ done.1.events)
              ⊎ (Host.events after ≡ result_of cmd done.0 ∷ done.1.events)
            → Follows acks es (some cmd ∷ ms) (is_ok done.0 ∷ Host.acked after) (Host.events after)
        written (inl quiet) = rw (report.0, quiet, kept.0, kept.1) (lost cmd (is_ok done.0) so_far)
        written (inr sent) =
            rw (report.0, sent, kept.0, kept.1, result_of-told cmd done.0)
              (answered cmd (is_ok done.0) so_far)

    message-Told :
        (m : Option VmCommand) (h : Host)
        → Follows acks es ms h.acked h.events
        → Well m (handle_command os base images m h)
    message-Told none h so_far = unfold handle_command in (refl, undecoded so_far)
    message-Told (some cmd) h so_far = command-Told cmd h so_far

    next-Told :
        (m : Option VmCommand) (o : Result AgentError (Unit {0}) × Host)
        → o.0 ≡ ok tt
        → Follows acks es ms o.1.acked o.1.events
        → Well m (
            let (r, h) = o in
            elim r [ ok u ↦ handle_command os base images m h | err e ↦ (err e, h) ])
    next-Told m (ok u, h) good so_far = message-Told m h so_far
    next-Told m (err e, h) bad so_far = absurd (ground (arith, bad))

-- The agent, over any sequence of messages and whichever system calls fail, implements the contract:
-- it handles every message, acknowledges or refuses each once, and publishes for a command one result
-- of the same success, or none.
pub handle_all_refines :
    (os : Platform) (base images : String) (ms : List (Option VmCommand)) (h : Host)
    → ((handle_all os base images ms h).0 ≡ ok tt)
      × Follows h.acked h.events ms
          (Host.acked (handle_all os base images ms h).1)
          (Host.events (handle_all os base images ms h).1)
unfolding handle_all
handle_all_refines os base images [] h = (refl, start)
handle_all_refines os base images (m ∷ ms) h =
    let before = handle_all_refines os base images ms h in
    next-Told os base images h.acked h.events ms m (handle_all os base images ms h) before.0
      before.1
