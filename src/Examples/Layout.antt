-- ===== src/Examples/Layout.antt =====
-- Layouts, exceptions of the decoder, and messages in the hands of a client.
use libkzr.Prelude.{◌≡◌, ◌↔◌, refl, false, All, none, some, List, [], ◌∷◌, arith}
use libkzr.Outcome.{returns, throws, illegal_type}
use libkzr.StringStream.{empty_stream}
use libkzr.StringStream.Frame.{append}
use libkzr.MessageStream.{left_to_right}
use libkzr.MessageStream.Layout.{refusal, written, first_refusal, ended}
use libkzr.MessageStream.Wire.{string_bytes}
use libkzr.Operations.{request}
use libkzr.Message.Fresh.{fresh_walk_request}
use libkzr.Message.Session.{encode_version_message}
use libkzr.Message.File.{WalkRequest, encode_walk_request, decode_walk_request}
use libkzr.Message.Accessors.{is_fid_clone}
use libkzr.Message.Accessors.Version
use libkzr.Message.Accessors.Version.{
  VersionCall, sets_msize, sets_version, after_version_calls, new_version_message,
  encode_version_message-after_version_calls,
}
use libkzr.Message.Accessors.Walk
use libkzr.Message.Accessors.Walk.{WalkCall, sets_newfid, pushes_name, after_walk_calls}
use libkzr.Message.Accessors.Sent.{new_walk_request, is_fid_clone-after_walk_calls}
use libkzr.Response.{error_response}
use libkzr.Interaction.{Interaction, of_response, encode_interaction, decode_interaction}
use libkzr.Interaction.Layout.{
  interaction_parts, encode_interaction_layout, encode_interaction-returns_iff,
}
use libkzr.Interaction.Errors.{stream_error, decode_interaction-throws_iff}
use libkzr.Interaction.Unambiguous.{encode_elements-eq}
use libkzr.Examples.Many.{many}
use libkzr.Examples.Messages.{sent, both, both-IsInteraction, held, holding, empty-IsWritable}

-- An error whose text is too long.
abbrev long_error : Interaction
long_error =
    of_response
      (error_response (record { header = record { op = 107; tag = 7 }; ename = many 70000 }))

encode_interaction_layout_example : encode_interaction long_error empty_stream ≡ (
  ended (first_refusal (interaction_parts long_error)),
  append empty_stream (written (interaction_parts long_error)),
)
encode_interaction_layout_example =
    encode_interaction_layout long_error empty_stream empty-IsWritable

encode_interaction-returns_iff_example :
    ((encode_interaction sent empty_stream).0 ≡ returns tt)
    ↔ All (λ p. refusal p ≡ none) (interaction_parts sent)
encode_interaction-returns_iff_example =
    encode_interaction-returns_iff sent empty_stream empty-IsWritable

decode_interaction-throws_iff_example :
    ((decode_interaction left_to_right (held, holding (90 ∷ 1 ∷ []))).0 ≡ throws illegal_type)
    ↔ (stream_error (holding (90 ∷ 1 ∷ [])) ≡ some illegal_type)
decode_interaction-throws_iff_example =
    decode_interaction-throws_iff left_to_right held (holding (90 ∷ 1 ∷ [])) illegal_type

-- A client that sets the tag of a version message, and its msize twice.
abbrev version_calls : List VersionCall
version_calls = Version.sets_tag 7 ∷ sets_msize 9 ∷ sets_version (b'9' ∷ []) ∷ sets_msize 65537 ∷ []

encode_version_message-after_version_calls_example :
    encode_version_message
      (after_version_calls version_calls (new_version_message request 0))
      empty_stream
    ≡ (returns tt, append empty_stream (100 ∷ 0xff ∷ 0xff ∷ 1 ∷ 0 ∷ string_bytes (b'9' ∷ [])))
encode_version_message-after_version_calls_example =
    encode_version_message-after_version_calls version_calls request 0 empty_stream (omega arith)
      (omega arith) empty-IsWritable

abbrev walk_calls : List WalkCall
walk_calls = Walk.sets_tag 65543 ∷ sets_newfid 5 ∷ pushes_name (b'd' ∷ []) ∷ []

is_fid_clone-after_walk_calls_example :
    (got : WalkRequest) × ((decode_walk_request fresh_walk_request
        (encode_walk_request (after_walk_calls walk_calls (new_walk_request 3 4)) empty_stream).1).0
      ≡ returns got)
    × (got.header ≡ record { op = 110; tag = 7 })
    × (got.fid ≡ 3)
    × (got.newfid ≡ 5)
    × (is_fid_clone got ≡ false)
unfolding fresh_walk_request
is_fid_clone-after_walk_calls_example =
    is_fid_clone-after_walk_calls walk_calls 3 4 fresh_walk_request empty_stream (omega arith)
      (omega arith) (omega arith) (omega arith) empty-IsWritable refl refl

encode_elements-eq_example : both ≡ both
encode_elements-eq_example =
    encode_elements-eq both both empty_stream both-IsInteraction both-IsInteraction empty-IsWritable
      refl
