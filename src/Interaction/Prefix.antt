-- ===== src/Interaction/Prefix.antt =====
-- Requests of one kind, and responses of one kind, have encodings of which none begins another; the first
-- byte tells the kind.
use libkzr.Prelude.{◌%◌, ◌≡◌, ap, List, [], ◌∷◌, ◌++◌, arith}
use libkzr.Prelude.Bytes.{Byte}
use libkzr.Operations
use libkzr.Operations.{
  ConceptualOperation, Operation, MessageDirection, convert, is_request, translate_concept, request,
  response, version, auth, attach, error, flush, walk, open_, create, read, write, clunk, remove,
  stat, wstat,
}
use libkzr.Operations.Codes.{translate_concept-bounds}
use libkzr.Message.Parts.Wire.{header_bytes}
use libkzr.Message.Parts.Prefix.{IsHeader-PrefixFree}
use libkzr.Message.Session.Wire.{
  error_response_bytes, version_message_bytes, authentication_request_bytes,
  authentication_response_bytes, flush_request_bytes, attach_request_bytes, attach_response_bytes,
}
use libkzr.Message.Session.Prefix.{
  IsErrorResponse-PrefixFree, IsVersionMessage-PrefixFree, IsAuthenticationRequest-PrefixFree,
  IsAuthenticationResponse-PrefixFree, IsFlushRequest-PrefixFree, IsAttachRequest-PrefixFree,
  IsAttachResponse-PrefixFree,
}
use libkzr.Message.File.Wire.{
  walk_request_bytes, walk_response_bytes, open_request_bytes, open_or_create_response_bytes,
  create_request_bytes, fid_request_bytes, read_request_bytes, read_response_bytes,
  write_request_bytes, write_response_bytes,
}
use libkzr.Message.File.Prefix.{
  IsWalkRequest-PrefixFree, IsWalkResponse-PrefixFree, IsOpenRequest-PrefixFree,
  IsOpenOrCreateResponse-PrefixFree, IsCreateRequest-PrefixFree, IsFidRequest-PrefixFree,
  IsReadRequest-PrefixFree, IsReadResponse-PrefixFree, IsWriteRequest-PrefixFree,
  IsWriteResponse-PrefixFree,
}
use libkzr.Message.Metadata.Wire.{stat_response_bytes, wstat_request_bytes}
use libkzr.Message.Metadata.Prefix.{IsStatResponse-PrefixFree, wstat_request-PrefixFree}
use libkzr.Interaction.Wire.{IsRequest, IsResponse, request_bytes, response_bytes}
use libkzr.Interaction.Bound.{
  BoundRequestType, BoundResponseType, emplace_request, emplace_response,
}

abbrev pub first_byte : List Byte → Byte
first_byte [] = 0
first_byte (b ∷ bs) = b

operation_byte :
    (op : Operation) (kind : ConceptualOperation) (dir : MessageDirection)
    → op ≡ translate_concept kind dir
    → op % 256 ≡ translate_concept kind dir
operation_byte op kind dir e = omega (arith, translate_concept-bounds kind dir)

-- What holds of the values holds under a constructor.
pub under :
    {A B : Type 0} (g : A → B) {a b : A} {r t : List Byte}
    → (a ≡ b) × (r ≡ t)
    → (g a ≡ g b) × (r ≡ t)
under g (same, rest) = (ap g same, rest)

pub request_first :
    (kind : ConceptualOperation) (m : BoundRequestType kind) (r : List Byte)
    → IsRequest (emplace_request kind m)
    → first_byte (request_bytes (emplace_request kind m) ++ r) ≡ translate_concept kind request
unfolding header_bytes BoundRequestType emplace_request request_bytes attach_request_bytes
    authentication_request_bytes create_request_bytes fid_request_bytes flush_request_bytes
    open_request_bytes read_request_bytes version_message_bytes walk_request_bytes
    write_request_bytes wstat_request_bytes
request_first Operations.undefined m r w = absurd m
request_first version m r w = operation_byte m.header.op version request w.1
request_first auth m r w = operation_byte m.header.op auth request w.1
request_first attach m r w = operation_byte m.header.op attach request w.1
request_first error m r w = operation_byte m.op error request w.1
request_first flush m r w = operation_byte m.header.op flush request w.1
request_first walk m r w = operation_byte m.header.op walk request w.1
request_first open_ m r w = operation_byte m.header.op open_ request w.1
request_first create m r w = operation_byte m.header.op create request w.1
request_first read m r w = operation_byte m.header.op read request w.1
request_first write m r w = operation_byte m.header.op write request w.1
request_first clunk m r w = operation_byte m.header.op clunk request w.1
request_first remove m r w = operation_byte m.header.op remove request w.1
request_first stat m r w = operation_byte m.header.op stat request w.1
request_first wstat m r w = operation_byte m.header.op wstat request w.1

pub request_of_kind :
    (kind : ConceptualOperation) (m n : BoundRequestType kind) (r t : List Byte)
    → IsRequest (emplace_request kind m)
    → IsRequest (emplace_request kind n)
    → request_bytes (emplace_request kind m) ++ r ≡ request_bytes (emplace_request kind n) ++ t
    → (emplace_request kind m ≡ emplace_request kind n) × (r ≡ t)
unfolding BoundRequestType emplace_request request_bytes
request_of_kind Operations.undefined m n r t v w e = absurd m
request_of_kind version m n r t v w e =
    under (emplace_request version) (IsVersionMessage-PrefixFree.at m n r t v.0 w.0 e)
request_of_kind auth m n r t v w e =
    under (emplace_request auth) (IsAuthenticationRequest-PrefixFree.at m n r t v.0 w.0 e)
request_of_kind attach m n r t v w e =
    under (emplace_request attach) (IsAttachRequest-PrefixFree.at m n r t v.0 w.0 e)
request_of_kind error m n r t v w e =
    under (emplace_request error) (IsHeader-PrefixFree.at m n r t v.0 w.0 e)
request_of_kind flush m n r t v w e =
    under (emplace_request flush) (IsFlushRequest-PrefixFree.at m n r t v.0 w.0 e)
request_of_kind walk m n r t v w e =
    under (emplace_request walk) (IsWalkRequest-PrefixFree.at m n r t v.0 w.0 e)
request_of_kind open_ m n r t v w e =
    under (emplace_request open_) (IsOpenRequest-PrefixFree.at m n r t v.0 w.0 e)
request_of_kind create m n r t v w e =
    under (emplace_request create) (IsCreateRequest-PrefixFree.at m n r t v.0 w.0 e)
request_of_kind read m n r t v w e =
    under (emplace_request read) (IsReadRequest-PrefixFree.at m n r t v.0 w.0 e)
request_of_kind write m n r t v w e =
    under (emplace_request write) (IsWriteRequest-PrefixFree.at m n r t v.0 w.0 e)
request_of_kind clunk m n r t v w e =
    under (emplace_request clunk) (IsFidRequest-PrefixFree.at m n r t v.0 w.0 e)
request_of_kind remove m n r t v w e =
    under (emplace_request remove) (IsFidRequest-PrefixFree.at m n r t v.0 w.0 e)
request_of_kind stat m n r t v w e =
    under (emplace_request stat) (IsFidRequest-PrefixFree.at m n r t v.0 w.0 e)
request_of_kind wstat m n r t v w e =
    under (emplace_request wstat) (wstat_request-PrefixFree.at m n r t v.0 w.0 e)

pub response_first :
    (kind : ConceptualOperation) (m : BoundResponseType kind) (r : List Byte)
    → IsResponse (emplace_response kind m)
    → first_byte (response_bytes (emplace_response kind m) ++ r) ≡ translate_concept kind response
unfolding header_bytes BoundResponseType emplace_response response_bytes attach_response_bytes
    authentication_response_bytes error_response_bytes open_or_create_response_bytes
    read_response_bytes stat_response_bytes version_message_bytes walk_response_bytes
    write_response_bytes
response_first Operations.undefined m r w = absurd m
response_first version m r w = operation_byte m.header.op version response w.1
response_first auth m r w = operation_byte m.header.op auth response w.1
response_first attach m r w = operation_byte m.header.op attach response w.1
response_first error m r w = operation_byte m.header.op error response w.1
response_first flush m r w = operation_byte m.op flush response w.1
response_first walk m r w = operation_byte m.header.op walk response w.1
response_first open_ m r w = operation_byte m.header.op open_ response w.1
response_first create m r w = operation_byte m.header.op create response w.1
response_first read m r w = operation_byte m.header.op read response w.1
response_first write m r w = operation_byte m.header.op write response w.1
response_first clunk m r w = operation_byte m.op clunk response w.1
response_first remove m r w = operation_byte m.op remove response w.1
response_first stat m r w = operation_byte m.header.op stat response w.1
response_first wstat m r w = operation_byte m.op wstat response w.1

pub response_of_kind :
    (kind : ConceptualOperation) (m n : BoundResponseType kind) (r t : List Byte)
    → IsResponse (emplace_response kind m)
    → IsResponse (emplace_response kind n)
    → response_bytes (emplace_response kind m) ++ r ≡ response_bytes (emplace_response kind n) ++ t
    → (emplace_response kind m ≡ emplace_response kind n) × (r ≡ t)
unfolding BoundResponseType emplace_response response_bytes
response_of_kind Operations.undefined m n r t v w e = absurd m
response_of_kind version m n r t v w e =
    under (emplace_response version) (IsVersionMessage-PrefixFree.at m n r t v.0 w.0 e)
response_of_kind auth m n r t v w e =
    under (emplace_response auth) (IsAuthenticationResponse-PrefixFree.at m n r t v.0 w.0 e)
response_of_kind attach m n r t v w e =
    under (emplace_response attach) (IsAttachResponse-PrefixFree.at m n r t v.0 w.0 e)
response_of_kind error m n r t v w e =
    under (emplace_response error) (IsErrorResponse-PrefixFree.at m n r t v.0 w.0 e)
response_of_kind flush m n r t v w e =
    under (emplace_response flush) (IsHeader-PrefixFree.at m n r t v.0 w.0 e)
response_of_kind walk m n r t v w e =
    under (emplace_response walk) (IsWalkResponse-PrefixFree.at m n r t v.0 w.0 e)
response_of_kind open_ m n r t v w e =
    under (emplace_response open_) (IsOpenOrCreateResponse-PrefixFree.at m n r t v.0 w.0 e)
response_of_kind create m n r t v w e =
    under (emplace_response create) (IsOpenOrCreateResponse-PrefixFree.at m n r t v.0 w.0 e)
response_of_kind read m n r t v w e =
    under (emplace_response read) (IsReadResponse-PrefixFree.at m n r t v.0 w.0 e)
response_of_kind write m n r t v w e =
    under (emplace_response write) (IsWriteResponse-PrefixFree.at m n r t v.0 w.0 e)
response_of_kind clunk m n r t v w e =
    under (emplace_response clunk) (IsHeader-PrefixFree.at m n r t v.0 w.0 e)
response_of_kind remove m n r t v w e =
    under (emplace_response remove) (IsHeader-PrefixFree.at m n r t v.0 w.0 e)
response_of_kind stat m n r t v w e =
    under (emplace_response stat) (IsStatResponse-PrefixFree.at m n r t v.0 w.0 e)
response_of_kind wstat m n r t v w e =
    under (emplace_response wstat) (IsHeader-PrefixFree.at m n r t v.0 w.0 e)
