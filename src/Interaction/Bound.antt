-- ===== src/Interaction/Bound.antt =====
-- The types that Message.h binds to the kinds, and the alternatives of the variants that are made from
-- them.
pub mod Laws
use libkzr.Prelude.{◌≡◌, ◌⊎◌, inl, inr, refl}
use libkzr.Operations
use libkzr.Operations.{
  ConceptualOperation, version, auth, attach, error, flush, walk, open_, create, read, write, clunk,
  remove, stat, wstat,
}
use libkzr.Message.Parts.{MessageHeader}
use libkzr.Message.Session.{
  ErrorResponse, VersionMessage, AuthenticationRequest, AuthenticationResponse, FlushRequest,
  AttachRequest, AttachResponse,
}
use libkzr.Message.File.{
  WalkRequest, WalkResponse, OpenRequest, OpenOrCreateResponse, CreateRequest, FidRequest,
  ReadRequest, ReadResponse, WriteRequest, WriteResponse,
}
use libkzr.Message.Metadata.{StatResponse, WStatRequest}
use libkzr.Request.{
  Request, blank_request, version_request, auth_request, attach_request, error_request,
  flush_request, walk_request, open_request, create_request, read_request, write_request,
  clunk_request, remove_request, stat_request, wstat_request,
}
use libkzr.Response.{
  Response, blank_response, version_response, auth_response, attach_response, error_response,
  flush_response, walk_response, open_response, create_response, read_response, write_response,
  clunk_response, remove_response, stat_response, wstat_response,
}
use libkzr.Interaction.Decode.{request_kind, response_kind}

-- No type is bound to the undefined kind.
unfoldable pub BoundRequestType : ConceptualOperation → Type 0
BoundRequestType Operations.undefined = ⊥
BoundRequestType version = VersionMessage
BoundRequestType auth = AuthenticationRequest
BoundRequestType attach = AttachRequest
BoundRequestType error = MessageHeader
BoundRequestType flush = FlushRequest
BoundRequestType walk = WalkRequest
BoundRequestType open_ = OpenRequest
BoundRequestType create = CreateRequest
BoundRequestType read = ReadRequest
BoundRequestType write = WriteRequest
BoundRequestType clunk = FidRequest
BoundRequestType remove = FidRequest
BoundRequestType stat = FidRequest
BoundRequestType wstat = WStatRequest

unfoldable pub BoundResponseType : ConceptualOperation → Type 0
BoundResponseType Operations.undefined = ⊥
BoundResponseType version = VersionMessage
BoundResponseType auth = AuthenticationResponse
BoundResponseType attach = AttachResponse
BoundResponseType error = ErrorResponse
BoundResponseType flush = MessageHeader
BoundResponseType walk = WalkResponse
BoundResponseType open_ = OpenOrCreateResponse
BoundResponseType create = OpenOrCreateResponse
BoundResponseType read = ReadResponse
BoundResponseType write = WriteResponse
BoundResponseType clunk = MessageHeader
BoundResponseType remove = MessageHeader
BoundResponseType stat = StatResponse
BoundResponseType wstat = MessageHeader

-- The alternative that stands for a kind, with a value of the type bound to it.
unfoldable pub emplace_request : (kind : ConceptualOperation) → BoundRequestType kind → Request
unfolding BoundRequestType
emplace_request Operations.undefined m = absurd m
emplace_request version m = version_request m
emplace_request auth m = auth_request m
emplace_request attach m = attach_request m
emplace_request error m = error_request m
emplace_request flush m = flush_request m
emplace_request walk m = walk_request m
emplace_request open_ m = open_request m
emplace_request create m = create_request m
emplace_request read m = read_request m
emplace_request write m = write_request m
emplace_request clunk m = clunk_request m
emplace_request remove m = remove_request m
emplace_request stat m = stat_request m
emplace_request wstat m = wstat_request m

unfoldable pub emplace_response : (kind : ConceptualOperation) → BoundResponseType kind → Response
unfolding BoundResponseType
emplace_response Operations.undefined m = absurd m
emplace_response version m = version_response m
emplace_response auth m = auth_response m
emplace_response attach m = attach_response m
emplace_response error m = error_response m
emplace_response flush m = flush_response m
emplace_response walk m = walk_response m
emplace_response open_ m = open_response m
emplace_response create m = create_response m
emplace_response read m = read_response m
emplace_response write m = write_response m
emplace_response clunk m = clunk_response m
emplace_response remove m = remove_response m
emplace_response stat m = stat_response m
emplace_response wstat m = wstat_response m

-- An alternative of the variant: UndefinedRequest, or a kind with a value of the type bound to it.
abbrev pub RequestAlternative : Type 0
RequestAlternative = MessageHeader ⊎ ((kind : ConceptualOperation) × BoundRequestType kind)

unfoldable pub hold_request : RequestAlternative → Request
unfolding emplace_request
hold_request (inl h) = blank_request h
hold_request (inr (kind, m)) = emplace_request kind m

unfoldable pub held_request : Request → RequestAlternative
unfolding BoundRequestType
held_request (blank_request h) = inl h
held_request (version_request m) = inr (version, m)
held_request (auth_request m) = inr (auth, m)
held_request (attach_request m) = inr (attach, m)
held_request (error_request m) = inr (error, m)
held_request (flush_request m) = inr (flush, m)
held_request (walk_request m) = inr (walk, m)
held_request (open_request m) = inr (open_, m)
held_request (create_request m) = inr (create, m)
held_request (read_request m) = inr (read, m)
held_request (write_request m) = inr (write, m)
held_request (clunk_request m) = inr (clunk, m)
held_request (remove_request m) = inr (remove, m)
held_request (stat_request m) = inr (stat, m)
held_request (wstat_request m) = inr (wstat, m)

abbrev pub ResponseAlternative : Type 0
ResponseAlternative = MessageHeader ⊎ ((kind : ConceptualOperation) × BoundResponseType kind)

unfoldable pub hold_response : ResponseAlternative → Response
unfolding emplace_response
hold_response (inl h) = blank_response h
hold_response (inr (kind, m)) = emplace_response kind m

unfoldable pub held_response : Response → ResponseAlternative
unfolding BoundResponseType
held_response (blank_response h) = inl h
held_response (version_response m) = inr (version, m)
held_response (auth_response m) = inr (auth, m)
held_response (attach_response m) = inr (attach, m)
held_response (error_response m) = inr (error, m)
held_response (flush_response m) = inr (flush, m)
held_response (walk_response m) = inr (walk, m)
held_response (open_response m) = inr (open_, m)
held_response (create_response m) = inr (create, m)
held_response (read_response m) = inr (read, m)
held_response (write_response m) = inr (write, m)
held_response (clunk_response m) = inr (clunk, m)
held_response (remove_response m) = inr (remove, m)
held_response (stat_response m) = inr (stat, m)
held_response (wstat_response m) = inr (wstat, m)
