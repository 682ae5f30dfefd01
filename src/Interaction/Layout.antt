-- ===== src/Interaction/Layout.antt =====
-- How the encoders of Interaction.cc end, and what they write, for every value of the variant.
use libkzr.Prelude.{◌≡◌, ◌↔◌, refl, sym, ap, ◌∙◌, Option, none, some, List, [], ◌∷◌, All}
use libkzr.Outcome.{Exception, returns, undefined_request, undefined_response}
use libkzr.StringStream.{StringStream}
use libkzr.StringStream.Frame.{IsWritable, append, throw-Throws}
use libkzr.MessageStream.Layout.{
  Part, refused, refusal, written, first_refusal, or_else, ended, Emits, Emits-Refused,
}
use libkzr.Message.Layout.{
  header_parts, error_response_parts, version_message_parts, authentication_request_parts,
  authentication_response_parts, flush_request_parts, attach_request_parts, attach_response_parts,
  walk_request_parts, walk_response_parts, open_request_parts, open_or_create_response_parts,
  create_request_parts, fid_request_parts, read_request_parts, read_response_parts,
  write_request_parts, write_response_parts, stat_response_parts, wstat_request_parts,
}
use libkzr.Message.Layout.Parts.{encode_header-Emits}
use libkzr.Message.Layout.Encode.{
  encode_error_response-Emits, encode_version_message-Emits, encode_authentication_request-Emits,
  encode_authentication_response-Emits, encode_flush_request-Emits, encode_attach_request-Emits,
  encode_attach_response-Emits, encode_walk_request-Emits, encode_walk_response-Emits,
  encode_open_request-Emits, encode_open_or_create_response-Emits, encode_create_request-Emits,
  encode_fid_request-Emits, encode_read_request-Emits, encode_read_response-Emits,
  encode_write_request-Emits, encode_write_response-Emits, encode_stat_response-Emits,
  encode_wstat_request-Emits,
}
use libkzr.Request.{
  Request, blank_request, encode_request, version_request, auth_request, attach_request,
  error_request, flush_request, walk_request, open_request, create_request, read_request,
  write_request, clunk_request, remove_request, stat_request, wstat_request,
}
use libkzr.Response.{
  Response, blank_response, encode_response, version_response, auth_response, attach_response,
  error_response, flush_response, walk_response, open_response, create_response, read_response,
  write_response, clunk_response, remove_response, stat_response, wstat_response,
}
use libkzr.Interaction.{Interaction, of_request, of_response, encode_interaction}

unfoldable pub request_parts : Request → List Part
request_parts (blank_request h) = refused undefined_request ∷ []
request_parts (version_request m) = version_message_parts m
request_parts (auth_request m) = authentication_request_parts m
request_parts (attach_request m) = attach_request_parts m
request_parts (error_request m) = header_parts m
request_parts (flush_request m) = flush_request_parts m
request_parts (walk_request m) = walk_request_parts m
request_parts (open_request m) = open_request_parts m
request_parts (create_request m) = create_request_parts m
request_parts (read_request m) = read_request_parts m
request_parts (write_request m) = write_request_parts m
request_parts (clunk_request m) = fid_request_parts m
request_parts (remove_request m) = fid_request_parts m
request_parts (stat_request m) = fid_request_parts m
request_parts (wstat_request m) = wstat_request_parts m

unfoldable pub response_parts : Response → List Part
response_parts (blank_response h) = refused undefined_response ∷ []
response_parts (version_response m) = version_message_parts m
response_parts (auth_response m) = authentication_response_parts m
response_parts (attach_response m) = attach_response_parts m
response_parts (error_response m) = error_response_parts m
response_parts (flush_response m) = header_parts m
response_parts (walk_response m) = walk_response_parts m
response_parts (open_response m) = open_or_create_response_parts m
response_parts (create_response m) = open_or_create_response_parts m
response_parts (read_response m) = read_response_parts m
response_parts (write_response m) = write_response_parts m
response_parts (clunk_response m) = header_parts m
response_parts (remove_response m) = header_parts m
response_parts (stat_response m) = stat_response_parts m
response_parts (wstat_response m) = header_parts m

abbrev pub interaction_parts : Interaction → List Part
interaction_parts (of_request r) = request_parts r
interaction_parts (of_response r) = response_parts r

encode_request-Emits : (r : Request) → Emits (encode_request r) (request_parts r)
unfolding encode_request request_parts refusal
encode_request-Emits (blank_request h) =
    Emits-Refused (refused undefined_request) [] undefined_request refl
      (throw-Throws undefined_request)
encode_request-Emits (version_request m) = encode_version_message-Emits m
encode_request-Emits (auth_request m) = encode_authentication_request-Emits m
encode_request-Emits (attach_request m) = encode_attach_request-Emits m
encode_request-Emits (error_request m) = encode_header-Emits m
encode_request-Emits (flush_request m) = encode_flush_request-Emits m
encode_request-Emits (walk_request m) = encode_walk_request-Emits m
encode_request-Emits (open_request m) = encode_open_request-Emits m
encode_request-Emits (create_request m) = encode_create_request-Emits m
encode_request-Emits (read_request m) = encode_read_request-Emits m
encode_request-Emits (write_request m) = encode_write_request-Emits m
encode_request-Emits (clunk_request m) = encode_fid_request-Emits m
encode_request-Emits (remove_request m) = encode_fid_request-Emits m
encode_request-Emits (stat_request m) = encode_fid_request-Emits m
encode_request-Emits (wstat_request m) = encode_wstat_request-Emits m

encode_response-Emits : (r : Response) → Emits (encode_response r) (response_parts r)
unfolding encode_response response_parts refusal
encode_response-Emits (blank_response h) =
    Emits-Refused (refused undefined_response) [] undefined_response refl
      (throw-Throws undefined_response)
encode_response-Emits (version_response m) = encode_version_message-Emits m
encode_response-Emits (auth_response m) = encode_authentication_response-Emits m
encode_response-Emits (attach_response m) = encode_attach_response-Emits m
encode_response-Emits (error_response m) = encode_error_response-Emits m
encode_response-Emits (flush_response m) = encode_header-Emits m
encode_response-Emits (walk_response m) = encode_walk_response-Emits m
encode_response-Emits (open_response m) = encode_open_or_create_response-Emits m
encode_response-Emits (create_response m) = encode_open_or_create_response-Emits m
encode_response-Emits (read_response m) = encode_read_response-Emits m
encode_response-Emits (write_response m) = encode_write_response-Emits m
encode_response-Emits (clunk_response m) = encode_header-Emits m
encode_response-Emits (remove_response m) = encode_header-Emits m
encode_response-Emits (stat_response m) = encode_stat_response-Emits m
encode_response-Emits (wstat_response m) = encode_header-Emits m

encode_interaction-Emits : (x : Interaction) → Emits (encode_interaction x) (interaction_parts x)
unfolding encode_interaction
encode_interaction-Emits (of_request r) = encode_request-Emits r
encode_interaction-Emits (of_response r) = encode_response-Emits r

-- Encoding any interaction onto a writable stream appends the parts of its layout that stand in front of
-- the first one that is refused, and throws the exception of that one; if none is refused, it appends all
-- parts and returns. Refused are a part over its limit, a Stat with such a member, and an undefined message.
pub encode_interaction_layout :
    (x : Interaction) (s : StringStream)
    → IsWritable s
    → encode_interaction x s
      ≡ (ended (first_refusal (interaction_parts x)), append s (written (interaction_parts x)))
encode_interaction_layout x s w = (encode_interaction-Emits x).at s w

ended_returns : (r : Option Exception) → ended r ≡ returns tt → r ≡ none
ended_returns none h = refl
ended_returns (some e) h = absurd (cc h)

or_else-none : (r q : Option Exception) → or_else r q ≡ none → (r ≡ none) × (q ≡ none)
or_else-none none q h = (refl, h)
or_else-none (some e) q h = absurd (cc h)

no_refusal : (ps : List Part) → (first_refusal ps ≡ none) ↔ All (λ p. refusal p ≡ none) ps
unfolding first_refusal
no_refusal [] = ((λ h. tt), λ h. refl)
no_refusal (p ∷ ps) = (
  (λ h. let (a, b) = or_else-none (refusal p) (first_refusal ps) h in (a, (no_refusal ps).0 b)),
  λ (a, b). rw a ((no_refusal ps).1 b),
)

-- Onto a writable stream, encoding an interaction returns exactly if no part of its layout is refused: its
-- texts and vectors are below 2 ^ 16, the data of a read or a write below 2 ^ 32, the members of a Stat are
-- not refused and together below 2 ^ 16 bytes, and it is no undefined message.
pub encode_interaction-returns_iff :
    (x : Interaction) (s : StringStream)
    → IsWritable s
    → ((encode_interaction x s).0 ≡ returns tt) ↔ All (λ p. refusal p ≡ none) (interaction_parts x)
encode_interaction-returns_iff x s w = (
  (λ h.
      (no_refusal (interaction_parts x)).0
        (ended_returns _ (sym (ap (λ p. p.0) ((encode_interaction-Emits x).at s w)) ∙ h))),
  λ h.
      ap (λ p. p.0) ((encode_interaction-Emits x).at s w)
      ∙ ap ended ((no_refusal (interaction_parts x)).1 h),
)
