-- ===== src/Interaction/Bounded.antt =====
-- What was decoded from bytes has members that fit their widths, whatever kind it is.
use libkzr.Prelude.{Option, none, some}
use libkzr.Outcome.{illegal_type, bad_state}
use libkzr.Operations
use libkzr.Operations.{
  ConceptualOperation, Operation, MessageDirection, convert, is_request, translate_concept, request,
  response, version, auth, attach, error, flush, walk, open_, create, read, write, clunk, remove,
  stat, wstat,
}
use libkzr.StringStream.Bounded.{Bounded, Bounded-pure, Bounded-throw, Bounded->>=}
use libkzr.MessageStream.{ArgumentOrder}
use libkzr.MessageStream.Bounded.{peek_message-Bounded}
use libkzr.Message.Parts.{fresh_header}
use libkzr.Message.Parts.Wire.{IsHeader}
use libkzr.Message.Parts.Bounded.{decode_header-Bounded}
use libkzr.Message.Session.Wire.{
  IsErrorResponse, IsVersionMessage, IsAuthenticationRequest, IsAuthenticationResponse,
  IsFlushRequest, IsAttachRequest, IsAttachResponse,
}
use libkzr.Message.Session.Bounded.{
  decode_error_response-Bounded, decode_version_message-Bounded,
  decode_authentication_request-Bounded, decode_authentication_response-Bounded,
  decode_flush_request-Bounded, decode_attach_request-Bounded, decode_attach_response-Bounded,
}
use libkzr.Message.File.Wire.{
  IsCreateRequest, IsFidRequest, IsOpenOrCreateResponse, IsOpenRequest, IsReadRequest,
  IsReadResponse, IsWalkRequest, IsWalkResponse, IsWriteRequest, IsWriteResponse,
}
use libkzr.Message.File.Bounded.{
  decode_create_request-Bounded, decode_fid_request-Bounded, decode_open_or_create_response-Bounded,
  decode_open_request-Bounded, decode_read_request-Bounded, decode_read_response-Bounded,
  decode_walk_request-Bounded, decode_walk_response-Bounded, decode_write_request-Bounded,
  decode_write_response-Bounded,
}
use libkzr.Message.Metadata.Wire.{IsStatResponse, IsWStatRequest}
use libkzr.Message.Metadata.Bounded.{decode_stat_response-Bounded, decode_wstat_request-Bounded}
use libkzr.Request.{
  Request, blank_request, decode_request_kind, decode_request_after, decode_request,
  version_request, auth_request, attach_request, error_request, flush_request, walk_request,
  open_request, create_request, read_request, write_request, clunk_request, remove_request,
  stat_request, wstat_request,
}
use libkzr.Response.{
  Response, blank_response, decode_response_kind, decode_response_after, decode_response,
  version_response, auth_response, attach_response, error_response, flush_response, walk_response,
  open_response, create_response, read_response, write_response, clunk_response, remove_response,
  stat_response, wstat_response,
}

-- The members of a message that is not undefined fit the wire.
unfoldable pub RequestFits : Request → Type 0
RequestFits (blank_request h) = ⊥
RequestFits (version_request m) = IsVersionMessage m
RequestFits (auth_request m) = IsAuthenticationRequest m
RequestFits (attach_request m) = IsAttachRequest m
RequestFits (error_request m) = IsHeader m
RequestFits (flush_request m) = IsFlushRequest m
RequestFits (walk_request m) = IsWalkRequest m
RequestFits (open_request m) = IsOpenRequest m
RequestFits (create_request m) = IsCreateRequest m
RequestFits (read_request m) = IsReadRequest m
RequestFits (write_request m) = IsWriteRequest m
RequestFits (clunk_request m) = IsFidRequest m
RequestFits (remove_request m) = IsFidRequest m
RequestFits (stat_request m) = IsFidRequest m
RequestFits (wstat_request m) = IsWStatRequest m

unfoldable pub ResponseFits : Response → Type 0
ResponseFits (blank_response h) = ⊥
ResponseFits (version_response m) = IsVersionMessage m
ResponseFits (auth_response m) = IsAuthenticationResponse m
ResponseFits (attach_response m) = IsAttachResponse m
ResponseFits (error_response m) = IsErrorResponse m
ResponseFits (flush_response m) = IsHeader m
ResponseFits (walk_response m) = IsWalkResponse m
ResponseFits (open_response m) = IsOpenOrCreateResponse m
ResponseFits (create_response m) = IsOpenOrCreateResponse m
ResponseFits (read_response m) = IsReadResponse m
ResponseFits (write_response m) = IsWriteResponse m
ResponseFits (clunk_response m) = IsHeader m
ResponseFits (remove_response m) = IsHeader m
ResponseFits (stat_response m) = IsStatResponse m
ResponseFits (wstat_response m) = IsHeader m

request_kind-Bounded :
    (order : ArgumentOrder) (kind : ConceptualOperation)
    → Bounded RequestFits (decode_request_kind order kind)
unfolding decode_request_kind RequestFits
request_kind-Bounded order Operations.undefined = Bounded-throw illegal_type
request_kind-Bounded order version =
    Bounded->>= (decode_version_message-Bounded version request) (λ m h. Bounded-pure _ h)
request_kind-Bounded order auth =
    Bounded->>= (decode_authentication_request-Bounded) (λ m h. Bounded-pure _ h)
request_kind-Bounded order attach =
    Bounded->>= (decode_attach_request-Bounded) (λ m h. Bounded-pure _ h)
request_kind-Bounded order error =
    Bounded->>= (decode_header-Bounded (fresh_header error request)) (λ m h. Bounded-pure _ h)
request_kind-Bounded order flush =
    Bounded->>= (decode_flush_request-Bounded) (λ m h. Bounded-pure _ h)
request_kind-Bounded order walk =
    Bounded->>= (decode_walk_request-Bounded) (λ m h. Bounded-pure _ h)
request_kind-Bounded order open_ =
    Bounded->>= (decode_open_request-Bounded) (λ m h. Bounded-pure _ h)
request_kind-Bounded order create =
    Bounded->>= (decode_create_request-Bounded) (λ m h. Bounded-pure _ h)
request_kind-Bounded order read =
    Bounded->>= (decode_read_request-Bounded order) (λ m h. Bounded-pure _ h)
request_kind-Bounded order write =
    Bounded->>= (decode_write_request-Bounded order) (λ m h. Bounded-pure _ h)
request_kind-Bounded order clunk =
    Bounded->>= (decode_fid_request-Bounded clunk request) (λ m h. Bounded-pure _ h)
request_kind-Bounded order remove =
    Bounded->>= (decode_fid_request-Bounded remove request) (λ m h. Bounded-pure _ h)
request_kind-Bounded order stat =
    Bounded->>= (decode_fid_request-Bounded stat request) (λ m h. Bounded-pure _ h)
request_kind-Bounded order wstat =
    Bounded->>= (decode_wstat_request-Bounded order) (λ m h. Bounded-pure _ h)

request_after-Bounded :
    (order : ArgumentOrder) (op : Option Operation)
    → Bounded RequestFits (decode_request_after order op)
unfolding decode_request_after
request_after-Bounded order none = Bounded-throw bad_state
request_after-Bounded order (some op) = request_kind-Bounded order (convert op)

pub decode_request-Bounded : (order : ArgumentOrder) → Bounded RequestFits (decode_request order)
unfolding decode_request
decode_request-Bounded order =
    Bounded->>= peek_message-Bounded (λ op _. request_after-Bounded order op)

response_kind-Bounded :
    (order : ArgumentOrder) (kind : ConceptualOperation)
    → Bounded ResponseFits (decode_response_kind order kind)
unfolding decode_response_kind ResponseFits
response_kind-Bounded order Operations.undefined = Bounded-throw illegal_type
response_kind-Bounded order version =
    Bounded->>= (decode_version_message-Bounded version response) (λ m h. Bounded-pure _ h)
response_kind-Bounded order auth =
    Bounded->>= (decode_authentication_response-Bounded order) (λ m h. Bounded-pure _ h)
response_kind-Bounded order attach =
    Bounded->>= (decode_attach_response-Bounded order) (λ m h. Bounded-pure _ h)
response_kind-Bounded order error =
    Bounded->>= (decode_error_response-Bounded) (λ m h. Bounded-pure _ h)
response_kind-Bounded order flush =
    Bounded->>= (decode_header-Bounded (fresh_header flush response)) (λ m h. Bounded-pure _ h)
response_kind-Bounded order walk =
    Bounded->>= (decode_walk_response-Bounded order) (λ m h. Bounded-pure _ h)
response_kind-Bounded order open_ =
    Bounded->>= (decode_open_or_create_response-Bounded order open_ response)
      (λ m h. Bounded-pure _ h)
response_kind-Bounded order create =
    Bounded->>= (decode_open_or_create_response-Bounded order create response)
      (λ m h. Bounded-pure _ h)
response_kind-Bounded order read =
    Bounded->>= (decode_read_response-Bounded) (λ m h. Bounded-pure _ h)
response_kind-Bounded order write =
    Bounded->>= (decode_write_response-Bounded) (λ m h. Bounded-pure _ h)
response_kind-Bounded order clunk =
    Bounded->>= (decode_header-Bounded (fresh_header clunk response)) (λ m h. Bounded-pure _ h)
response_kind-Bounded order remove =
    Bounded->>= (decode_header-Bounded (fresh_header remove response)) (λ m h. Bounded-pure _ h)
response_kind-Bounded order stat =
    Bounded->>= (decode_stat_response-Bounded) (λ m h. Bounded-pure _ h)
response_kind-Bounded order wstat =
    Bounded->>= (decode_header-Bounded (fresh_header wstat response)) (λ m h. Bounded-pure _ h)

response_after-Bounded :
    (order : ArgumentOrder) (op : Option Operation)
    → Bounded ResponseFits (decode_response_after order op)
unfolding decode_response_after
response_after-Bounded order none = Bounded-throw bad_state
response_after-Bounded order (some op) = response_kind-Bounded order (convert op)

pub decode_response-Bounded : (order : ArgumentOrder) → Bounded ResponseFits (decode_response order)
unfolding decode_response
decode_response-Bounded order =
    Bounded->>= peek_message-Bounded (λ op _. response_after-Bounded order op)
