-- ===== src/Interaction/Arrival.antt =====
-- What an interaction sent by `<<` is when `>>` has read it back.
use libkzr.Prelude.{◌≡◌, ◌↔◌, sym, ap, ◌∙◌, [], map, All}
use libkzr.StringStream.{StringStream}
use libkzr.StringStream.Frame.{IsWritable}
use libkzr.MessageStream.{ArgumentOrder, left_to_right}
use libkzr.MessageStream.Wire.{overlay-nil}
use libkzr.Interaction.{Interaction, encode_interaction, decode_interaction}
use libkzr.Interaction.Wire.{IsInteraction, received_interaction}
use libkzr.Interaction.RoundTrip.{decode-encode_interaction}
use libkzr.Interaction.Texts.{texts, texts-received_interaction, received_interaction-eq_iff}

arrives :
    (order : ArgumentOrder) (held x : Interaction) (s : StringStream)
    → IsInteraction x
    → IsWritable s
    → s.unread ≡ []
    → (decode_interaction order (held, (encode_interaction x s).1)).1.0
      ≡ received_interaction order x
arrives order held x s w ws used =
    ap (λ p. p.1.0) (decode-encode_interaction order held x s w ws used).1

-- For an interaction that fits the wire, sent into a writable stream whose input is used up and decoded
-- from there, with arguments evaluated from left to right: it arrives as it was sent exactly when all
-- of its texts are empty.
pub decode-encode_interaction-eq_iff :
    (held x : Interaction) (s : StringStream)
    → IsInteraction x
    → IsWritable s
    → s.unread ≡ []
    → ((decode_interaction left_to_right (held, (encode_interaction x s).1)).1.0 ≡ x)
      ↔ All (λ t. t ≡ []) (texts x)
decode-encode_interaction-eq_iff held x s w ws used =
    let arrived = arrives left_to_right held x s w ws used in
    (
      λ same. (received_interaction-eq_iff x).0 (sym arrived ∙ same),
      λ empty. arrived ∙ (received_interaction-eq_iff x).1 empty,
    )

-- For an interaction that fits the wire, sent into a writable stream whose input is used up and decoded
-- from there: as many texts arrive as were sent, and each is empty.
pub texts-decode-encode_interaction :
    (order : ArgumentOrder) (held x : Interaction) (s : StringStream)
    → IsInteraction x
    → IsWritable s
    → s.unread ≡ []
    → texts (decode_interaction order (held, (encode_interaction x s).1)).1.0
      ≡ map (λ _. []) (texts x)
texts-decode-encode_interaction order held x s w ws used =
    ap texts (arrives order held x s w ws used)
    ∙ (texts-received_interaction order x ∙ λ i. map (λ t. overlay-nil t i) (texts x))
