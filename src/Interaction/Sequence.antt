-- ===== src/Interaction/Sequence.antt =====
-- Several interactions through one stream, sent by `<<` one behind the other and taken out by as many
-- calls of `>>` into the same variable.
use libkzr.Prelude.{ℕ, zero, suc, ◌≡◌, [], ◌∷◌, List, length, map, All}
use libkzr.Outcome.{returns, pure, continue, ◌>>=◌}
use libkzr.StringStream.{StringStream}
use libkzr.StringStream.Frame.{Writes, Reads, IsWritable, Reads->>=, Reads-pure, Reads-returns}
use libkzr.MessageStream.{OnStream, ArgumentOrder, encode_elements}
use libkzr.MessageStream.Wire.{elements_bytes}
use libkzr.MessageStream.Encode.{encode_elements-Writes}
use libkzr.MessageStream.RoundTrip.{passed, round_trip}
use libkzr.Interaction.{Interaction, encode_interaction, decode_interaction}
use libkzr.Interaction.Wire.{IsInteraction, interaction_bytes, received_interaction}
use libkzr.Interaction.Encode.{encode_interaction-Writes}
use libkzr.Interaction.RoundTrip.{decode_interaction-Reads}

-- `>>` into a variable that holds `held`, and what the variable holds behind it.
unfoldable pub take_one : ArgumentOrder → Interaction → OnStream Interaction
unfolding decode_interaction
take_one order held s =
    let (r, (x, s')) = decode_interaction order (held, s) in continue r (λ _. pure x) s'

-- `n` times `>>`, with what the variable held behind each.
unfoldable pub take_each : ArgumentOrder → Interaction → ℕ → OnStream (List Interaction)
unfolding take_one
take_each order held zero = pure []
take_each order held (suc n) = do x ← take_one order held; xs ← take_each order x n; pure (x ∷ xs)

take_one-Reads :
    (order : ArgumentOrder) (held x : Interaction)
    → IsInteraction x
    → Reads (take_one order held) (interaction_bytes x) (received_interaction order x)
unfolding take_one
take_one-Reads order held x w = record {
  at = λ s rest g e. rw (decode_interaction-Reads order held x w s rest g e);
}

take_each-Reads :
    (order : ArgumentOrder) (held : Interaction) (xs : List Interaction)
    → All IsInteraction xs
    → Reads
        (take_each order held (length xs))
        (elements_bytes interaction_bytes xs)
        (map (received_interaction order) xs)
unfolding take_each
take_each-Reads order held [] w = Reads-returns []
take_each-Reads order held (x ∷ xs) (w, ws) = Reads->>= _ (take_one-Reads order held x w) (
    Reads-pure (λ ys. received_interaction order x ∷ ys)
      (take_each-Reads order (received_interaction order x) xs ws))

pub interactions-Writes :
    (xs : List Interaction)
    → All IsInteraction xs
    → All (λ x. Writes (encode_interaction x) (interaction_bytes x)) xs
interactions-Writes [] w = w
interactions-Writes (x ∷ xs) (w, ws) = (encode_interaction-Writes x w, interactions-Writes xs ws)

-- Interactions that fit the wire, sent one behind the other into a writable stream whose input is used
-- up, are taken out by as many calls of `>>` in the order in which they were sent, each as it is
-- received alone, whatever the variable held at first. The bytes of all of them are then used up.
pub take_each-encode_elements :
    (order : ArgumentOrder) (held : Interaction) (xs : List Interaction) (s : StringStream)
    → All IsInteraction xs
    → IsWritable s
    → s.unread ≡ []
    → take_each order held (length xs) (encode_elements encode_interaction xs s).1 ≡ (
      returns (map (received_interaction order) xs),
      passed s (elements_bytes interaction_bytes xs),
    )
take_each-encode_elements order held xs s w =
    round_trip
      (encode_elements-Writes encode_interaction interaction_bytes xs (interactions-Writes xs w))
      (take_each-Reads order held xs w) s
