-- ===== src/Examples/Transport.antt =====
-- Interactions over a channel, walk requests of a client, and a message that is cut off.
use libkzr.Prelude.{◌≡◌, refl, some, List, [], ◌∷◌, ◌++◌, map, All, length, arith}
use mathlib.Core.Option
use libkzr.Outcome.{returns, undefined}
use libkzr.StringStream.{StringStream}
use libkzr.MessageStream.{Text, left_to_right, right_to_left, str}
use libkzr.Message.File.Wire.{walk_request_bytes, walk_response_bytes}
use libkzr.Connection.{RawConnection}
use libkzr.Operations.{convert}
use libkzr.MessageStream.Wire.{vector_bytes, string_bytes}
use libkzr.Message.Parts.Wire.{header_bytes, qid_bytes}
use libkzr.Connection.Channel.{Channel, frames, unframe, write_all, Fits, sent-write_all}
use libkzr.Interaction.{decode_interaction}
use libkzr.Interaction.Wire.{request_bytes, response_bytes, interaction_bytes, received_interaction}
use libkzr.Interaction.Transport.{send_all, deliver, deliver-send_all}
use libkzr.Interaction.CutOff.{decode_interaction_cut}
use libkzr.Examples.Messages.{holding, held, both, both-IsInteraction}

-- A connection that keeps what it is handed.
abbrev keeping : RawConnection Text
keeping = record {
  raw_write = λ text log. (returns (length text), log ++ text);
  raw_read = λ text log. (returns (0, text), log);
}

abbrev channel : Channel Text
channel = record {
  raw = keeping;
  sent = λ log. log;
  takes = λ text log h. refl;
  sent-raw_write = λ text log h. refl;
}

abbrev two_streams : List StringStream
two_streams = holding (1 ∷ 2 ∷ []) ∷ holding (3 ∷ []) ∷ []

two_streams-Fits : All (λ m. Fits (str m)) two_streams
unfolding str
two_streams-Fits = omega arith

sent-write_all_example :
    ((write_all channel two_streams (9 ∷ [])).0 ≡ returns tt)
    × ((write_all channel two_streams (9 ∷ [])).1 ≡ (9 ∷ []) ++ frames (map str two_streams))
sent-write_all_example = sent-write_all channel two_streams (9 ∷ []) two_streams-Fits

both-Fits : All (λ x. Fits (interaction_bytes x)) both
unfolding interaction_bytes request_bytes response_bytes walk_request_bytes walk_response_bytes
    header_bytes vector_bytes string_bytes qid_bytes
both-Fits = omega arith

deliver-send_all_example :
    Option.map
      (map (deliver left_to_right held))
      (unframe (length (send_all channel both []).1) (send_all channel both []).1)
    ≡ some (map (λ x. returns (received_interaction left_to_right x)) both)
deliver-send_all_example =
    deliver-send_all channel left_to_right held both [] both-IsInteraction both-Fits refl

decode_interaction_cut_example :
    (decode_interaction right_to_left (held, holding (111 ∷ 7 ∷ []))).0 ≡ undefined
unfolding convert
decode_interaction_cut_example =
    decode_interaction_cut right_to_left held (holding (111 ∷ 7 ∷ [])) 111 (7 ∷ []) refl refl
      (omega arith) (omega arith) (λ p. cc)
