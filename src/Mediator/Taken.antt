-- ===== src/Mediator/Taken.antt =====
-- The messages that the processor takes in a run of the goroutines.
use simple_blockchain_client.Text.{Bytes}
use simple_blockchain_client.Platform.{Json, Crypto, LevelDb}
use simple_blockchain_client.Mediator.{
  Steps, Step, System, here, after, submit, take_message, processor_sends, tick, creator_sends,
  forward,
}
use simple_blockchain_client.Prelude.{◌++◌, List, ◌∷◌, []}

module _ ⦃L : LevelDb⦄ ⦃C : Crypto⦄ ⦃J : Json⦄ where
  -- The message that a step gives to the processor.
  unfoldable pub processed_by : {s t : System} → Step s t → List Bytes
  processed_by (submit message m sent) = []
  processed_by (take_message message rest idle first) = message ∷ []
  processed_by (processor_sends message rest m waits sent) = []
  processed_by (tick now node_account order idle) = []
  processed_by (creator_sends message rest m waits sent) = []
  processed_by (forward message rest first) = []

  unfoldable pub processed_in : {s t : System} → Steps s t → List Bytes
  processed_in here = []
  processed_in (after steps step) = processed_in steps ++ processed_by step
