-- ===== src/Interaction/Quiet.antt =====
-- No case of the two switches of Interaction.cc throws, but those for the undefined kind.
use libkzr.Prelude.{◌≡◌, false}
use libkzr.Outcome.NeverThrows.{NeverThrows, NeverThrows-pure, NeverThrows->>=}
use libkzr.Operations
use libkzr.Operations.{
  ConceptualOperation, Operation, MessageDirection, convert, is_request, translate_concept, request,
  response, version, auth, attach, error, flush, walk, open_, create, read, write, clunk, remove,
  stat, wstat,
}
use libkzr.Operations.Codes.{is_undefined}
use libkzr.MessageStream.{ArgumentOrder}
use libkzr.Message.Parts.{fresh_header}
use libkzr.Message.Fresh.{
  fresh_attach_request, fresh_attach_response, fresh_authentication_request,
  fresh_authentication_response, fresh_create_request, fresh_error_response, fresh_fid_request,
  fresh_flush_request, fresh_open_or_create_response, fresh_open_request, fresh_read_request,
  fresh_read_response, fresh_stat_response, fresh_version_message, fresh_wstat_request,
  fresh_walk_request, fresh_walk_response, fresh_write_request, fresh_write_response,
}
use libkzr.Request.{decode_request_kind}
use libkzr.Response.{decode_response_kind}
use libkzr.Message.Parts.Quiet.{decode_header-NeverThrows}
use libkzr.Message.Session.Quiet.{
  decode_error_response-NeverThrows, decode_version_message-NeverThrows,
  decode_authentication_request-NeverThrows, decode_authentication_response-NeverThrows,
  decode_flush_request-NeverThrows, decode_attach_request-NeverThrows,
  decode_attach_response-NeverThrows,
}
use libkzr.Message.File.Quiet.{
  decode_walk_request-NeverThrows, decode_walk_response-NeverThrows,
  decode_open_request-NeverThrows, decode_open_or_create_response-NeverThrows,
  decode_create_request-NeverThrows, decode_fid_request-NeverThrows,
  decode_read_request-NeverThrows, decode_read_response-NeverThrows,
  decode_write_request-NeverThrows, decode_write_response-NeverThrows,
}
use libkzr.Message.Metadata.Quiet.{
  decode_stat_response-NeverThrows, decode_wstat_request-NeverThrows,
}

pub request_kind-NeverThrows :
    (order : ArgumentOrder) (kind : ConceptualOperation)
    → is_undefined kind ≡ false
    → NeverThrows (decode_request_kind order kind)
unfolding decode_request_kind
request_kind-NeverThrows order Operations.undefined h = absurd (cc h)
request_kind-NeverThrows order version h =
    NeverThrows->>= (λ m. NeverThrows-pure _)
      (decode_version_message-NeverThrows (fresh_version_message version request))
request_kind-NeverThrows order auth h =
    NeverThrows->>= (λ m. NeverThrows-pure _)
      (decode_authentication_request-NeverThrows fresh_authentication_request)
request_kind-NeverThrows order attach h =
    NeverThrows->>= (λ m. NeverThrows-pure _)
      (decode_attach_request-NeverThrows fresh_attach_request)
request_kind-NeverThrows order error h =
    NeverThrows->>= (λ m. NeverThrows-pure _)
      (decode_header-NeverThrows (fresh_header error request))
request_kind-NeverThrows order flush h =
    NeverThrows->>= (λ m. NeverThrows-pure _) (decode_flush_request-NeverThrows fresh_flush_request)
request_kind-NeverThrows order walk h =
    NeverThrows->>= (λ m. NeverThrows-pure _) (decode_walk_request-NeverThrows fresh_walk_request)
request_kind-NeverThrows order open_ h =
    NeverThrows->>= (λ m. NeverThrows-pure _) (decode_open_request-NeverThrows fresh_open_request)
request_kind-NeverThrows order create h =
    NeverThrows->>= (λ m. NeverThrows-pure _)
      (decode_create_request-NeverThrows fresh_create_request)
request_kind-NeverThrows order read h =
    NeverThrows->>= (λ m. NeverThrows-pure _)
      (decode_read_request-NeverThrows order fresh_read_request)
request_kind-NeverThrows order write h =
    NeverThrows->>= (λ m. NeverThrows-pure _)
      (decode_write_request-NeverThrows order fresh_write_request)
request_kind-NeverThrows order clunk h =
    NeverThrows->>= (λ m. NeverThrows-pure _)
      (decode_fid_request-NeverThrows (fresh_fid_request clunk request))
request_kind-NeverThrows order remove h =
    NeverThrows->>= (λ m. NeverThrows-pure _)
      (decode_fid_request-NeverThrows (fresh_fid_request remove request))
request_kind-NeverThrows order stat h =
    NeverThrows->>= (λ m. NeverThrows-pure _)
      (decode_fid_request-NeverThrows (fresh_fid_request stat request))
request_kind-NeverThrows order wstat h =
    NeverThrows->>= (λ m. NeverThrows-pure _)
      (decode_wstat_request-NeverThrows order fresh_wstat_request)

pub response_kind-NeverThrows :
    (order : ArgumentOrder) (kind : ConceptualOperation)
    → is_undefined kind ≡ false
    → NeverThrows (decode_response_kind order kind)
unfolding decode_response_kind
response_kind-NeverThrows order Operations.undefined h = absurd (cc h)
response_kind-NeverThrows order version h =
    NeverThrows->>= (λ m. NeverThrows-pure _)
      (decode_version_message-NeverThrows (fresh_version_message version response))
response_kind-NeverThrows order auth h =
    NeverThrows->>= (λ m. NeverThrows-pure _)
      (decode_authentication_response-NeverThrows order fresh_authentication_response)
response_kind-NeverThrows order attach h =
    NeverThrows->>= (λ m. NeverThrows-pure _)
      (decode_attach_response-NeverThrows order fresh_attach_response)
response_kind-NeverThrows order error h =
    NeverThrows->>= (λ m. NeverThrows-pure _)
      (decode_error_response-NeverThrows fresh_error_response)
response_kind-NeverThrows order flush h =
    NeverThrows->>= (λ m. NeverThrows-pure _)
      (decode_header-NeverThrows (fresh_header flush response))
response_kind-NeverThrows order walk h =
    NeverThrows->>= (λ m. NeverThrows-pure _)
      (decode_walk_response-NeverThrows order fresh_walk_response)
response_kind-NeverThrows order open_ h =
    NeverThrows->>= (λ m. NeverThrows-pure _)
      (decode_open_or_create_response-NeverThrows order
        (fresh_open_or_create_response open_ response))
response_kind-NeverThrows order create h =
    NeverThrows->>= (λ m. NeverThrows-pure _)
      (decode_open_or_create_response-NeverThrows order
        (fresh_open_or_create_response create response))
response_kind-NeverThrows order read h =
    NeverThrows->>= (λ m. NeverThrows-pure _) (decode_read_response-NeverThrows fresh_read_response)
response_kind-NeverThrows order write h =
    NeverThrows->>= (λ m. NeverThrows-pure _)
      (decode_write_response-NeverThrows fresh_write_response)
response_kind-NeverThrows order clunk h =
    NeverThrows->>= (λ m. NeverThrows-pure _)
      (decode_header-NeverThrows (fresh_header clunk response))
response_kind-NeverThrows order remove h =
    NeverThrows->>= (λ m. NeverThrows-pure _)
      (decode_header-NeverThrows (fresh_header remove response))
response_kind-NeverThrows order stat h =
    NeverThrows->>= (λ m. NeverThrows-pure _) (decode_stat_response-NeverThrows fresh_stat_response)
response_kind-NeverThrows order wstat h =
    NeverThrows->>= (λ m. NeverThrows-pure _)
      (decode_header-NeverThrows (fresh_header wstat response))
