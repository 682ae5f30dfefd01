-- ===== src/Message/File/Quiet.antt =====
-- No decoder of the messages of File.antt throws.
use libkzr.Prelude.{[]}
use libkzr.Outcome.NeverThrows.{NeverThrows, NeverThrows-pure, NeverThrows->>=}
use libkzr.MessageStream.{ArgumentOrder, decode_string}
use libkzr.MessageStream.Quiet.{
  decode_u8-NeverThrows, decode_u32-NeverThrows, decode_u64-NeverThrows, decode_string-NeverThrows,
  decode_vector-NeverThrows,
}
use libkzr.Message.Parts.{fresh_qid, decode_qid}
use libkzr.Message.File.{
  WalkRequest, decode_walk_request, WalkResponse, decode_walk_response, OpenRequest,
  decode_open_request, OpenOrCreateResponse, decode_open_or_create_response, CreateRequest,
  decode_create_request, FidRequest, decode_fid_request, ReadRequest, decode_read_request,
  ReadResponse, decode_read_response, WriteRequest, decode_write_request, WriteResponse,
  decode_write_response,
}
use libkzr.Message.Parts.Quiet.{
  decode_header-NeverThrows, decode_qid-NeverThrows, decode_storage-NeverThrows,
}

pub decode_walk_request-NeverThrows : (m : WalkRequest) → NeverThrows (decode_walk_request m)
unfolding decode_walk_request
decode_walk_request-NeverThrows m =
    NeverThrows->>=
      (λ _.
        NeverThrows->>=
          (λ _.
            NeverThrows->>=
              (λ _.
                NeverThrows->>= (λ _. NeverThrows-pure _)
                  (decode_vector-NeverThrows decode_string [] (decode_string-NeverThrows [])
                    m.wname))
              decode_u32-NeverThrows)
          decode_u32-NeverThrows)
      (decode_header-NeverThrows m.header)

pub decode_walk_response-NeverThrows :
    (order : ArgumentOrder) (m : WalkResponse) → NeverThrows (decode_walk_response order m)
unfolding decode_walk_response
decode_walk_response-NeverThrows order m =
    NeverThrows->>=
      (λ _.
        NeverThrows->>= (λ _. NeverThrows-pure _)
          (decode_vector-NeverThrows (decode_qid order) fresh_qid
            (decode_qid-NeverThrows order fresh_qid) m.wqid))
      (decode_header-NeverThrows m.header)

pub decode_open_request-NeverThrows : (m : OpenRequest) → NeverThrows (decode_open_request m)
unfolding decode_open_request
decode_open_request-NeverThrows m =
    NeverThrows->>=
      (λ _.
        NeverThrows->>= (λ _. NeverThrows->>= (λ _. NeverThrows-pure _) decode_u8-NeverThrows)
          decode_u32-NeverThrows)
      (decode_header-NeverThrows m.header)

pub decode_open_or_create_response-NeverThrows :
    (order : ArgumentOrder) (m : OpenOrCreateResponse)
    → NeverThrows (decode_open_or_create_response order m)
unfolding decode_open_or_create_response
decode_open_or_create_response-NeverThrows order m =
    NeverThrows->>=
      (λ _.
        NeverThrows->>= (λ _. NeverThrows->>= (λ _. NeverThrows-pure _) decode_u32-NeverThrows)
          (decode_qid-NeverThrows order m.qid))
      (decode_header-NeverThrows m.header)

pub decode_create_request-NeverThrows : (m : CreateRequest) → NeverThrows (decode_create_request m)
unfolding decode_create_request
decode_create_request-NeverThrows m =
    NeverThrows->>=
      (λ _.
        NeverThrows->>=
          (λ _.
            NeverThrows->>=
              (λ _.
                NeverThrows->>=
                  (λ _. NeverThrows->>= (λ _. NeverThrows-pure _) decode_u8-NeverThrows)
                  decode_u32-NeverThrows)
              (decode_string-NeverThrows m.name))
          decode_u32-NeverThrows)
      (decode_header-NeverThrows m.header)

pub decode_fid_request-NeverThrows : (m : FidRequest) → NeverThrows (decode_fid_request m)
unfolding decode_fid_request
decode_fid_request-NeverThrows m =
    NeverThrows->>= (λ _. NeverThrows->>= (λ _. NeverThrows-pure _) decode_u32-NeverThrows)
      (decode_header-NeverThrows m.header)

pub decode_read_request-NeverThrows :
    (order : ArgumentOrder) (m : ReadRequest) → NeverThrows (decode_read_request order m)
unfolding decode_read_request
decode_read_request-NeverThrows order m =
    NeverThrows->>=
      (λ _.
        NeverThrows->>=
          (λ _.
            NeverThrows->>= (λ _. NeverThrows->>= (λ _. NeverThrows-pure _) decode_u32-NeverThrows)
              (decode_u64-NeverThrows order))
          decode_u32-NeverThrows)
      (decode_header-NeverThrows m.header)

pub decode_read_response-NeverThrows : (m : ReadResponse) → NeverThrows (decode_read_response m)
unfolding decode_read_response
decode_read_response-NeverThrows m =
    NeverThrows->>=
      (λ _. NeverThrows->>= (λ _. NeverThrows-pure _) (decode_storage-NeverThrows m.stored))
      (decode_header-NeverThrows m.header)

pub decode_write_request-NeverThrows :
    (order : ArgumentOrder) (m : WriteRequest) → NeverThrows (decode_write_request order m)
unfolding decode_write_request
decode_write_request-NeverThrows order m =
    NeverThrows->>=
      (λ _.
        NeverThrows->>=
          (λ _.
            NeverThrows->>=
              (λ _. NeverThrows->>= (λ _. NeverThrows-pure _) (decode_storage-NeverThrows m.stored))
              (decode_u64-NeverThrows order))
          decode_u32-NeverThrows)
      (decode_header-NeverThrows m.header)

pub decode_write_response-NeverThrows : (m : WriteResponse) → NeverThrows (decode_write_response m)
unfolding decode_write_response
decode_write_response-NeverThrows m =
    NeverThrows->>= (λ _. NeverThrows->>= (λ _. NeverThrows-pure _) decode_u32-NeverThrows)
      (decode_header-NeverThrows m.header)
