-- ===== src/Executor.antt =====
-- src/core/orchestration/src/instance_manager/protocol_executor.rs: the loop that runs a protocol on
-- the messages of its instance. Sends to the channels of events and of outgoing messages, whose
-- receivers the server keeps open, succeed; they are listed in order.
pub mod Refine
pub mod Trace
pub mod Shares
pub mod Safety
pub mod Assembled
pub mod Progress
pub mod Returns
pub mod Waits
pub mod Quorum
pub mod Panic
pub mod Answers
use quorumcrypt.Base.{
  String, Bool, true, false, Option, none, some, List, [], ◌∷◌, ◌++◌, if◌then◌else◌,
}
use quorumcrypt.Errors.{Result, ok, err, ProtocolError, not_finished}
use quorumcrypt.Instance.{Outcome}
use quorumcrypt.Keys.{Bytes}
use quorumcrypt.Message.{NetMessage}
use quorumcrypt.Protocols.{RoundProtocol, MessageWrapper}

-- Where the error message of a `FailedInstance` event says that the error came from.
pub data Phase : Type 0 where
  initial_round update_phase round_phase finalization channel_closed : Phase

pub data Output : Type 0 where
  started finished : Output
  failed : Phase → ProtocolError → Output
  out : NetMessage → Output

-- How a run ends, if it does: at the end of its messages it waits for the next.
pub data Verdict : Type 0 where
  waiting panicked : Verdict
  returned : Outcome → Verdict

pub record Run (P : Type 0) : Type 0 where
  pub outputs : List Output
  pub protocol : P
  pub verdict : Verdict

-- What the loop does after a message.
pub data Flow (P : Type 0) : Type 0 where
  continue : List Output → P → Flow P
  stop : List Output → P → Verdict → Flow P

abbrev pub fail : {P : Type 0} → Phase → P → ProtocolError → Flow P
fail phase p e = stop (failed phase e ∷ []) p (returned (err e))

abbrev pub prepend : {P : Type 0} → List Output → Run P → Run P
prepend outputs r = record r { outputs = outputs ++ r.outputs }

module _ {P : Type 0} where
  -- The `match` on the result of `finalize`.
  abbrev pub on_finalize : P → Option (P × Result ProtocolError Bytes) → Flow P
  on_finalize p none = stop [] p panicked
  on_finalize p (some (q, ok value)) = stop (finished ∷ []) q (returned (ok value))
  on_finalize p (some (q, err e)) = fail finalization q e

  -- The end of one turn of the loop: out of it, or into the next turn.
  abbrev pub follow : Flow P → (P → Run P) → Run P
  follow (stop outputs q v) next = record { outputs = outputs; protocol = q; verdict = v }
  follow (continue outputs q) next = prepend outputs (next q)

module _ {P Message : Type 0} (R : RoundProtocol P Message) (w : MessageWrapper Message) where
  -- The `match` on the result of `do_round`: the message is sent unless it is the default one.
  abbrev pub on_round : String → Phase → P → Option (P × Result ProtocolError Message) → Flow P
  on_round instance_id phase p none = stop [] p panicked
  on_round instance_id phase p (some (q, err e)) = fail phase q e
  on_round instance_id phase p (some (q, ok message)) =
      if w.is_default message
      then continue [] q
      else continue (out (w.wrap message instance_id) ∷ []) q

  -- After a successful `update`.
  unfoldable pub advance : String → P → Flow P
  advance instance_id p =
      if R.is_ready_to_finalize p
      then on_finalize p (R.finalize p)
      else if R.is_ready_for_next_round p
      then on_round instance_id round_phase p (R.do_round p)
      else continue [] p

  -- The `match` on the result of `update`.
  abbrev pub on_update : String → P → Option (P × Result ProtocolError (Unit {0})) → Flow P
  on_update instance_id p none = stop [] p panicked
  on_update instance_id p (some (q, err e)) = fail update_phase q e
  on_update instance_id p (some (q, ok u)) = advance instance_id q

  -- `ProtocolMessageWrapper::unwrap(net_message).unwrap()` panics on a message that is not
  -- well-formed.
  abbrev pub on_unwrap : String → P → Option (Result ProtocolError Message) → Flow P
  on_unwrap instance_id p none = stop [] p panicked
  on_unwrap instance_id p (some (err e)) = stop [] p panicked
  on_unwrap instance_id p (some (ok message)) = on_update instance_id p (R.update p message)

  -- What `recv` returns; `none` is the closed channel.
  abbrev pub on_receive : String → P → Option NetMessage → Flow P
  on_receive instance_id p none = fail channel_closed p not_finished
  on_receive instance_id p (some net_message) = on_unwrap instance_id p (w.unwrap net_message)

  -- The loop on the values that `recv` returns.
  unfoldable pub loop : String → P → List (Option NetMessage) → Run P
  loop instance_id p [] = record { outputs = []; protocol = p; verdict = waiting }
  loop instance_id p (m ∷ inbox) =
      follow (on_receive instance_id p m) (λ q. loop instance_id q inbox)

  unfoldable pub run : String → P → List (Option NetMessage) → Run P
  run instance_id p inbox =
      prepend (started ∷ []) (
        follow (on_round instance_id initial_round p (R.do_round p))
          (λ q. loop instance_id q inbox))
