-- ===== src/Message/Layout/Encode.antt =====
-- Each encoder emits the parts of its message.
use libkzr.MessageStream.Layout.{
  Emits, Emits->>, encode_u8-Emits, encode_u16-Emits, encode_u32-Emits, encode_u64-Emits,
  encode_string-Emits,
}
use libkzr.Message.Session.{
  ErrorResponse, encode_error_response, VersionMessage, encode_version_message,
  AuthenticationRequest, encode_authentication_request, AuthenticationResponse,
  encode_authentication_response, FlushRequest, encode_flush_request, AttachRequest,
  encode_attach_request, AttachResponse, encode_attach_response,
}
use libkzr.Message.File.{
  WalkRequest, encode_walk_request, WalkResponse, encode_walk_response, OpenRequest,
  encode_open_request, OpenOrCreateResponse, encode_open_or_create_response, CreateRequest,
  encode_create_request, FidRequest, encode_fid_request, ReadRequest, encode_read_request,
  ReadResponse, encode_read_response, WriteRequest, encode_write_request, WriteResponse,
  encode_write_response,
}
use libkzr.Message.Metadata.{StatResponse, encode_stat_response, WStatRequest, encode_wstat_request}
use libkzr.Message.Layout.{
  error_response_parts, version_message_parts, authentication_request_parts,
  authentication_response_parts, flush_request_parts, attach_request_parts, attach_response_parts,
  walk_request_parts, walk_response_parts, open_request_parts, open_or_create_response_parts,
  create_request_parts, fid_request_parts, read_request_parts, read_response_parts,
  write_request_parts, write_response_parts, stat_response_parts, wstat_request_parts,
}
use libkzr.Message.Layout.Parts.{
  encode_header-Emits, encode_qid-Emits, encode_names-Emits, encode_qids-Emits,
  encode_storage-Emits, encode_stat-Emits,
}

pub encode_error_response-Emits :
    (m : ErrorResponse) → Emits (encode_error_response m) (error_response_parts m)
unfolding encode_error_response error_response_parts
encode_error_response-Emits m =
    Emits->> (encode_header-Emits m.header) (encode_string-Emits m.ename)

pub encode_version_message-Emits :
    (m : VersionMessage) → Emits (encode_version_message m) (version_message_parts m)
unfolding encode_version_message version_message_parts
encode_version_message-Emits m =
    Emits->> (encode_header-Emits m.header)
      (Emits->> (encode_u16-Emits m.msize) (encode_string-Emits m.version))

pub encode_authentication_request-Emits :
    (m : AuthenticationRequest)
    → Emits (encode_authentication_request m) (authentication_request_parts m)
unfolding encode_authentication_request authentication_request_parts
encode_authentication_request-Emits m = Emits->> (encode_header-Emits m.header) (
    Emits->> (encode_u32-Emits m.afid)
      (Emits->> (encode_string-Emits m.uname) (encode_string-Emits m.aname)))

pub encode_authentication_response-Emits :
    (m : AuthenticationResponse)
    → Emits (encode_authentication_response m) (authentication_response_parts m)
unfolding encode_authentication_response authentication_response_parts
encode_authentication_response-Emits m =
    Emits->> (encode_header-Emits m.header) (encode_qid-Emits m.qid)

pub encode_flush_request-Emits :
    (m : FlushRequest) → Emits (encode_flush_request m) (flush_request_parts m)
unfolding encode_flush_request flush_request_parts
encode_flush_request-Emits m = Emits->> (encode_header-Emits m.header) (encode_u16-Emits m.oldtag)

pub encode_attach_request-Emits :
    (m : AttachRequest) → Emits (encode_attach_request m) (attach_request_parts m)
unfolding encode_attach_request attach_request_parts
encode_attach_request-Emits m = Emits->> (encode_header-Emits m.header) (
    Emits->> (encode_u32-Emits m.fid) (
      Emits->> (encode_u32-Emits m.afid)
        (Emits->> (encode_string-Emits m.uname) (encode_string-Emits m.aname))))

pub encode_attach_response-Emits :
    (m : AttachResponse) → Emits (encode_attach_response m) (attach_response_parts m)
unfolding encode_attach_response attach_response_parts
encode_attach_response-Emits m = Emits->> (encode_header-Emits m.header) (encode_qid-Emits m.qid)

pub encode_walk_request-Emits :
    (m : WalkRequest) → Emits (encode_walk_request m) (walk_request_parts m)
unfolding encode_walk_request walk_request_parts
encode_walk_request-Emits m = Emits->> (encode_header-Emits m.header) (
    Emits->> (encode_u32-Emits m.fid)
      (Emits->> (encode_u32-Emits m.newfid) (encode_names-Emits m.wname)))

pub encode_walk_response-Emits :
    (m : WalkResponse) → Emits (encode_walk_response m) (walk_response_parts m)
unfolding encode_walk_response walk_response_parts
encode_walk_response-Emits m = Emits->> (encode_header-Emits m.header) (encode_qids-Emits m.wqid)

pub encode_open_request-Emits :
    (m : OpenRequest) → Emits (encode_open_request m) (open_request_parts m)
unfolding encode_open_request open_request_parts
encode_open_request-Emits m =
    Emits->> (encode_header-Emits m.header)
      (Emits->> (encode_u32-Emits m.fid) (encode_u8-Emits m.mode))

pub encode_open_or_create_response-Emits :
    (m : OpenOrCreateResponse)
    → Emits (encode_open_or_create_response m) (open_or_create_response_parts m)
unfolding encode_open_or_create_response open_or_create_response_parts
encode_open_or_create_response-Emits m =
    Emits->> (encode_header-Emits m.header)
      (Emits->> (encode_qid-Emits m.qid) (encode_u32-Emits m.iounit))

pub encode_create_request-Emits :
    (m : CreateRequest) → Emits (encode_create_request m) (create_request_parts m)
unfolding encode_create_request create_request_parts
encode_create_request-Emits m = Emits->> (encode_header-Emits m.header) (
    Emits->> (encode_u32-Emits m.fid) (
      Emits->> (encode_string-Emits m.name)
        (Emits->> (encode_u32-Emits m.perm) (encode_u8-Emits m.mode))))

pub encode_fid_request-Emits : (m : FidRequest) → Emits (encode_fid_request m) (fid_request_parts m)
unfolding encode_fid_request fid_request_parts
encode_fid_request-Emits m = Emits->> (encode_header-Emits m.header) (encode_u32-Emits m.fid)

pub encode_read_request-Emits :
    (m : ReadRequest) → Emits (encode_read_request m) (read_request_parts m)
unfolding encode_read_request read_request_parts
encode_read_request-Emits m = Emits->> (encode_header-Emits m.header) (
    Emits->> (encode_u32-Emits m.fid)
      (Emits->> (encode_u64-Emits m.offset) (encode_u32-Emits m.count)))

pub encode_read_response-Emits :
    (m : ReadResponse) → Emits (encode_read_response m) (read_response_parts m)
unfolding encode_read_response read_response_parts
encode_read_response-Emits m =
    Emits->> (encode_header-Emits m.header) (encode_storage-Emits m.stored)

pub encode_write_request-Emits :
    (m : WriteRequest) → Emits (encode_write_request m) (write_request_parts m)
unfolding encode_write_request write_request_parts
encode_write_request-Emits m = Emits->> (encode_header-Emits m.header) (
    Emits->> (encode_u32-Emits m.fid)
      (Emits->> (encode_u64-Emits m.offset) (encode_storage-Emits m.stored)))

pub encode_write_response-Emits :
    (m : WriteResponse) → Emits (encode_write_response m) (write_response_parts m)
unfolding encode_write_response write_response_parts
encode_write_response-Emits m = Emits->> (encode_header-Emits m.header) (encode_u32-Emits m.count)

pub encode_stat_response-Emits :
    (m : StatResponse) → Emits (encode_stat_response m) (stat_response_parts m)
unfolding encode_stat_response stat_response_parts
encode_stat_response-Emits m =
    Emits->> (encode_header-Emits m.header) (encode_string-Emits m.stat_text)

pub encode_wstat_request-Emits :
    (m : WStatRequest) → Emits (encode_wstat_request m) (wstat_request_parts m)
unfolding encode_wstat_request wstat_request_parts
encode_wstat_request-Emits m =
    Emits->> (encode_header-Emits m.header)
      (Emits->> (encode_u32-Emits m.fid) (encode_stat-Emits m.stat))
