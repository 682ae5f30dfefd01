-- ===== src/Message/File/Preserves.antt =====
-- The decoders of the messages about files: Walk, Open, Create, Read, Write, and FidRequest change no byte of the stream.
use libkzr.Prelude.{[]}
use libkzr.StringStream.Preserves.{Preserves, Preserves-pure, Preserves->>=}
use libkzr.MessageStream.{ArgumentOrder, decode_string}
use libkzr.MessageStream.Preserves.{
  decode_u8-Preserves, decode_u32-Preserves, decode_u64-Preserves, decode_string-Preserves,
  decode_vector-Preserves,
}
use libkzr.Message.Parts.{fresh_qid, decode_qid}
use libkzr.Message.Parts.Preserves.{
  decode_qid-Preserves, decode_header-Preserves, decode_storage-Preserves,
}
use libkzr.Message.File.{
  WalkRequest, decode_walk_request, WalkResponse, decode_walk_response, OpenRequest,
  decode_open_request, OpenOrCreateResponse, decode_open_or_create_response, CreateRequest,
  decode_create_request, FidRequest, decode_fid_request, ReadRequest, decode_read_request,
  ReadResponse, decode_read_response, WriteRequest, decode_write_request, WriteResponse,
  decode_write_response,
}

pub decode_walk_request-Preserves : (m : WalkRequest) → Preserves (decode_walk_request m)
unfolding decode_walk_request
decode_walk_request-Preserves m =
    Preserves->>=
      (λ header.
        Preserves->>=
          (λ fid.
            Preserves->>=
              (λ newfid.
                Preserves->>= (λ wname. Preserves-pure _)
                  (decode_vector-Preserves decode_string [] (decode_string-Preserves []) m.wname))
              decode_u32-Preserves)
          decode_u32-Preserves)
      (decode_header-Preserves m.header)

pub decode_walk_response-Preserves :
    (order : ArgumentOrder) (m : WalkResponse) → Preserves (decode_walk_response order m)
unfolding decode_walk_response
decode_walk_response-Preserves order m =
    Preserves->>=
      (λ header.
        Preserves->>= (λ wqid. Preserves-pure _)
          (decode_vector-Preserves (decode_qid order) fresh_qid
            (decode_qid-Preserves order fresh_qid) m.wqid))
      (decode_header-Preserves m.header)

pub decode_open_request-Preserves : (m : OpenRequest) → Preserves (decode_open_request m)
unfolding decode_open_request
decode_open_request-Preserves m =
    Preserves->>=
      (λ header.
        Preserves->>= (λ fid. Preserves->>= (λ mode. Preserves-pure _) decode_u8-Preserves)
          decode_u32-Preserves)
      (decode_header-Preserves m.header)

pub decode_open_or_create_response-Preserves :
    (order : ArgumentOrder) (m : OpenOrCreateResponse)
    → Preserves (decode_open_or_create_response order m)
unfolding decode_open_or_create_response
decode_open_or_create_response-Preserves order m =
    Preserves->>=
      (λ header.
        Preserves->>= (λ qid. Preserves->>= (λ iounit. Preserves-pure _) decode_u32-Preserves)
          (decode_qid-Preserves order m.qid))
      (decode_header-Preserves m.header)

pub decode_create_request-Preserves : (m : CreateRequest) → Preserves (decode_create_request m)
unfolding decode_create_request
decode_create_request-Preserves m =
    Preserves->>=
      (λ header.
        Preserves->>=
          (λ fid.
            Preserves->>=
              (λ name.
                Preserves->>= (λ perm. Preserves->>= (λ mode. Preserves-pure _) decode_u8-Preserves)
                  decode_u32-Preserves)
              (decode_string-Preserves m.name))
          decode_u32-Preserves)
      (decode_header-Preserves m.header)

pub decode_fid_request-Preserves : (m : FidRequest) → Preserves (decode_fid_request m)
unfolding decode_fid_request
decode_fid_request-Preserves m =
    Preserves->>= (λ header. Preserves->>= (λ fid. Preserves-pure _) decode_u32-Preserves)
      (decode_header-Preserves m.header)

pub decode_read_request-Preserves :
    (order : ArgumentOrder) (m : ReadRequest) → Preserves (decode_read_request order m)
unfolding decode_read_request
decode_read_request-Preserves order m =
    Preserves->>=
      (λ header.
        Preserves->>=
          (λ fid.
            Preserves->>= (λ offset. Preserves->>= (λ count. Preserves-pure _) decode_u32-Preserves)
              (decode_u64-Preserves order))
          decode_u32-Preserves)
      (decode_header-Preserves m.header)

pub decode_read_response-Preserves : (m : ReadResponse) → Preserves (decode_read_response m)
unfolding decode_read_response
decode_read_response-Preserves m =
    Preserves->>=
      (λ header. Preserves->>= (λ stored. Preserves-pure _) (decode_storage-Preserves m.stored))
      (decode_header-Preserves m.header)

pub decode_write_request-Preserves :
    (order : ArgumentOrder) (m : WriteRequest) → Preserves (decode_write_request order m)
unfolding decode_write_request
decode_write_request-Preserves order m =
    Preserves->>=
      (λ header.
        Preserves->>=
          (λ fid.
            Preserves->>=
              (λ offset.
                Preserves->>= (λ stored. Preserves-pure _) (decode_storage-Preserves m.stored))
              (decode_u64-Preserves order))
          decode_u32-Preserves)
      (decode_header-Preserves m.header)

pub decode_write_response-Preserves : (m : WriteResponse) → Preserves (decode_write_response m)
unfolding decode_write_response
decode_write_response-Preserves m =
    Preserves->>= (λ header. Preserves->>= (λ count. Preserves-pure _) decode_u32-Preserves)
      (decode_header-Preserves m.header)
