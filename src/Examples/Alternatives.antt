-- ===== src/Examples/Alternatives.antt =====
-- Alternatives of the variants, and the operations of decoded interactions.
use libkzr.Prelude.{arith, ◌≡◌, refl, ap, [], ◌∷◌}
use libkzr.Outcome.{returns, ◌>>=◌}
use libkzr.Operations.{is_request, convert}
use libkzr.StringStream
use libkzr.MessageStream.{left_to_right, peek, decode_u8, decode_u16, decode_u32}
use libkzr.Message.Parts.{decode_header}
use libkzr.Message.File.{FidRequest, decode_fid_request}
use libkzr.Request.{clunk_request, decode_request}
use libkzr.Interaction.{of_request, decode_interaction}
use libkzr.Interaction.Tagged.{IsTagged}
use libkzr.Interaction.Tagged.Decode.{decode_interaction-IsTagged}
use libkzr.StringStream.{empty_stream}
use libkzr.StringStream.Frame.{append}
use libkzr.Interaction.{encode_interaction}
use libkzr.Interaction.Wire.{IsInteraction, interaction_bytes}
use libkzr.Interaction.Forward.{encode-decode_interaction}
use libkzr.Examples.Messages.{holding, held, empty-IsWritable}

abbrev clunked : FidRequest
clunked = record { header = record { op = 120; tag = 3 }; fid = 9 }

clunk_decoded :
    decode_interaction left_to_right (held, holding (120 ∷ 3 ∷ 0 ∷ 9 ∷ 0 ∷ 0 ∷ 0 ∷ [])) ≡ (
      returns tt,
      (
        of_request (clunk_request clunked),
        record (holding []) { taken = 120 ∷ 3 ∷ 0 ∷ 9 ∷ 0 ∷ 0 ∷ 0 ∷ []; put_position = 7 },
      ),
    )
unfolding decode_interaction peek ◌>>=◌ StringStream.peek is_request decode_request convert
    decode_fid_request decode_header decode_u8 StringStream.get decode_u16 StringStream.read
    decode_u32
clunk_decoded = refl

decode_interaction-IsTagged_example :
    IsTagged
      (decode_interaction left_to_right (held, holding (120 ∷ 3 ∷ 0 ∷ 9 ∷ 0 ∷ 0 ∷ 0 ∷ []))).1.0
decode_interaction-IsTagged_example =
    decode_interaction-IsTagged left_to_right held (holding (120 ∷ 3 ∷ 0 ∷ 9 ∷ 0 ∷ 0 ∷ 0 ∷ []))
      (ap (λ r. r.0) clunk_decoded)

encode-decode_interaction_example :
    IsInteraction
      (decode_interaction left_to_right (held, holding (120 ∷ 3 ∷ 0 ∷ 9 ∷ 0 ∷ 0 ∷ 0 ∷ []))).1.0
    × (encode_interaction
          (decode_interaction left_to_right (held, holding (120 ∷ 3 ∷ 0 ∷ 9 ∷ 0 ∷ 0 ∷ 0 ∷ []))).1.0
          empty_stream
        ≡ (
          returns tt,
          append empty_stream (
              interaction_bytes
                (decode_interaction left_to_right
                  (held, holding (120 ∷ 3 ∷ 0 ∷ 9 ∷ 0 ∷ 0 ∷ 0 ∷ []))).1.0),
        ))
encode-decode_interaction_example =
    encode-decode_interaction left_to_right held (holding (120 ∷ 3 ∷ 0 ∷ 9 ∷ 0 ∷ 0 ∷ 0 ∷ []))
      empty_stream (omega arith) (ap (λ r. r.0) clunk_decoded) empty-IsWritable
