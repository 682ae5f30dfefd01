-- ===== src/Message/File/Codec.antt =====
-- Each encoder writes the bytes of its message, and each decoder reads them back: the messages about files: Walk, Open, Create, Read, Write, and FidRequest.
use libkzr.StringStream.Frame.{Writes, Reads, Writes->>, Reads->>=, Reads-pure}
use libkzr.MessageStream.{ArgumentOrder}
use libkzr.MessageStream.Encode.{
  encode_u8-Writes, encode_u32-Writes, encode_u64-Writes, encode_string-Writes,
}
use libkzr.MessageStream.Decode.{
  decode_u8-Reads, decode_u32-Reads, decode_u64-Reads, decode_string-Reads,
}
use libkzr.Message.Parts.Codec.{
  encode_header-Writes, decode_header-Reads, encode_qid-Writes, decode_qid-Reads,
  encode_storage-Writes, decode_storage-Reads,
}
use libkzr.Message.Parts.Vectors.{
  encode_texts-Writes, decode_texts-Reads, encode_qids-Writes, decode_qids-Reads,
}
use libkzr.Message.File.{
  WalkRequest, encode_walk_request, decode_walk_request, WalkResponse, encode_walk_response,
  decode_walk_response, OpenRequest, encode_open_request, decode_open_request, OpenOrCreateResponse,
  encode_open_or_create_response, decode_open_or_create_response, CreateRequest,
  encode_create_request, decode_create_request, FidRequest, encode_fid_request, decode_fid_request,
  ReadRequest, encode_read_request, decode_read_request, ReadResponse, encode_read_response,
  decode_read_response, WriteRequest, encode_write_request, decode_write_request, WriteResponse,
  encode_write_response, decode_write_response,
}
use libkzr.Message.File.Wire.{
  IsWalkRequest, walk_request_bytes, received_walk_request, IsWalkResponse, walk_response_bytes,
  received_walk_response, IsOpenRequest, open_request_bytes, IsOpenOrCreateResponse,
  open_or_create_response_bytes, received_open_or_create_response, IsCreateRequest,
  create_request_bytes, received_create_request, IsFidRequest, fid_request_bytes, IsReadRequest,
  read_request_bytes, received_read_request, IsReadResponse, read_response_bytes,
  received_read_response, IsWriteRequest, write_request_bytes, received_write_request,
  IsWriteResponse, write_response_bytes,
}

pub encode_walk_request-Writes :
    (m : WalkRequest) → IsWalkRequest m → Writes (encode_walk_request m) (walk_request_bytes m)
unfolding encode_walk_request walk_request_bytes
encode_walk_request-Writes m w = Writes->> (encode_header-Writes m.header) (
    Writes->> (encode_u32-Writes m.fid)
      (Writes->> (encode_u32-Writes m.newfid) (encode_texts-Writes m.wname w.wname_fits)))

pub decode_walk_request-Reads :
    (target m : WalkRequest)
    → IsWalkRequest m
    → Reads (decode_walk_request target) (walk_request_bytes m) (received_walk_request target m)
unfolding decode_walk_request walk_request_bytes received_walk_request
decode_walk_request-Reads target m w =
    Reads->>= _ (decode_header-Reads target.header m.header w.header_fits) (
      Reads->>= _ (decode_u32-Reads m.fid w.fid_fits) (
        Reads->>= _ (decode_u32-Reads m.newfid w.newfid_fits)
          (Reads-pure _ (decode_texts-Reads target.wname m.wname w.wname_fits))))

pub encode_walk_response-Writes :
    (m : WalkResponse) → IsWalkResponse m → Writes (encode_walk_response m) (walk_response_bytes m)
unfolding encode_walk_response walk_response_bytes
encode_walk_response-Writes m w =
    Writes->> (encode_header-Writes m.header) (encode_qids-Writes m.wqid w.wqid_fits)

pub decode_walk_response-Reads :
    (order : ArgumentOrder) (target m : WalkResponse)
    → IsWalkResponse m
    → Reads
        (decode_walk_response order target)
        (walk_response_bytes m)
        (received_walk_response order target m)
unfolding decode_walk_response walk_response_bytes received_walk_response
decode_walk_response-Reads order target m w =
    Reads->>= _ (decode_header-Reads target.header m.header w.header_fits)
      (Reads-pure _ (decode_qids-Reads order target.wqid m.wqid w.wqid_fits))

pub encode_open_request-Writes :
    (m : OpenRequest) → IsOpenRequest m → Writes (encode_open_request m) (open_request_bytes m)
unfolding encode_open_request open_request_bytes
encode_open_request-Writes m w =
    Writes->> (encode_header-Writes m.header)
      (Writes->> (encode_u32-Writes m.fid) (encode_u8-Writes m.mode))

pub decode_open_request-Reads :
    (target m : OpenRequest)
    → IsOpenRequest m
    → Reads (decode_open_request target) (open_request_bytes m) m
unfolding decode_open_request open_request_bytes
decode_open_request-Reads target m w =
    Reads->>= _ (decode_header-Reads target.header m.header w.header_fits) (
      Reads->>= _ (decode_u32-Reads m.fid w.fid_fits)
        (Reads-pure _ (decode_u8-Reads m.mode w.mode_fits)))

pub encode_open_or_create_response-Writes :
    (m : OpenOrCreateResponse)
    → IsOpenOrCreateResponse m
    → Writes (encode_open_or_create_response m) (open_or_create_response_bytes m)
unfolding encode_open_or_create_response open_or_create_response_bytes
encode_open_or_create_response-Writes m w =
    Writes->> (encode_header-Writes m.header)
      (Writes->> (encode_qid-Writes m.qid) (encode_u32-Writes m.iounit))

pub decode_open_or_create_response-Reads :
    (order : ArgumentOrder) (target m : OpenOrCreateResponse)
    → IsOpenOrCreateResponse m
    → Reads
        (decode_open_or_create_response order target)
        (open_or_create_response_bytes m)
        (received_open_or_create_response order m)
unfolding decode_open_or_create_response open_or_create_response_bytes
    received_open_or_create_response
decode_open_or_create_response-Reads order target m w =
    Reads->>= _ (decode_header-Reads target.header m.header w.header_fits) (
      Reads->>= _ (decode_qid-Reads order target.qid m.qid w.qid_fits)
        (Reads-pure _ (decode_u32-Reads m.iounit w.iounit_fits)))

pub encode_create_request-Writes :
    (m : CreateRequest)
    → IsCreateRequest m
    → Writes (encode_create_request m) (create_request_bytes m)
unfolding encode_create_request create_request_bytes
encode_create_request-Writes m w = Writes->> (encode_header-Writes m.header) (
    Writes->> (encode_u32-Writes m.fid) (
      Writes->> (encode_string-Writes m.name w.name_fits.1)
        (Writes->> (encode_u32-Writes m.perm) (encode_u8-Writes m.mode))))

pub decode_create_request-Reads :
    (target m : CreateRequest)
    → IsCreateRequest m
    → Reads
        (decode_create_request target)
        (create_request_bytes m)
        (received_create_request target m)
unfolding decode_create_request create_request_bytes received_create_request
decode_create_request-Reads target m w =
    Reads->>= _ (decode_header-Reads target.header m.header w.header_fits) (
      Reads->>= _ (decode_u32-Reads m.fid w.fid_fits) (
        Reads->>= _ (decode_string-Reads target.name m.name w.name_fits) (
          Reads->>= _ (decode_u32-Reads m.perm w.perm_fits)
            (Reads-pure _ (decode_u8-Reads m.mode w.mode_fits)))))

pub encode_fid_request-Writes :
    (m : FidRequest) → IsFidRequest m → Writes (encode_fid_request m) (fid_request_bytes m)
unfolding encode_fid_request fid_request_bytes
encode_fid_request-Writes m w = Writes->> (encode_header-Writes m.header) (encode_u32-Writes m.fid)

pub decode_fid_request-Reads :
    (target m : FidRequest)
    → IsFidRequest m
    → Reads (decode_fid_request target) (fid_request_bytes m) m
unfolding decode_fid_request fid_request_bytes
decode_fid_request-Reads target m w =
    Reads->>= _ (decode_header-Reads target.header m.header w.header_fits)
      (Reads-pure _ (decode_u32-Reads m.fid w.fid_fits))

pub encode_read_request-Writes :
    (m : ReadRequest) → IsReadRequest m → Writes (encode_read_request m) (read_request_bytes m)
unfolding encode_read_request read_request_bytes
encode_read_request-Writes m w = Writes->> (encode_header-Writes m.header) (
    Writes->> (encode_u32-Writes m.fid)
      (Writes->> (encode_u64-Writes m.offset) (encode_u32-Writes m.count)))

pub decode_read_request-Reads :
    (order : ArgumentOrder) (target m : ReadRequest)
    → IsReadRequest m
    → Reads
        (decode_read_request order target)
        (read_request_bytes m)
        (received_read_request order m)
unfolding decode_read_request read_request_bytes received_read_request
decode_read_request-Reads order target m w =
    Reads->>= _ (decode_header-Reads target.header m.header w.header_fits) (
      Reads->>= _ (decode_u32-Reads m.fid w.fid_fits) (
        Reads->>= _ (decode_u64-Reads order m.offset w.offset_fits)
          (Reads-pure _ (decode_u32-Reads m.count w.count_fits))))

pub encode_read_response-Writes :
    (m : ReadResponse) → IsReadResponse m → Writes (encode_read_response m) (read_response_bytes m)
unfolding encode_read_response read_response_bytes
encode_read_response-Writes m w =
    Writes->> (encode_header-Writes m.header) (encode_storage-Writes m.stored w.stored_fits)

pub decode_read_response-Reads :
    (target m : ReadResponse)
    → IsReadResponse m
    → Reads (decode_read_response target) (read_response_bytes m) (received_read_response target m)
unfolding decode_read_response read_response_bytes received_read_response
decode_read_response-Reads target m w =
    Reads->>= _ (decode_header-Reads target.header m.header w.header_fits)
      (Reads-pure _ (decode_storage-Reads target.stored m.stored w.stored_fits))

pub encode_write_request-Writes :
    (m : WriteRequest) → IsWriteRequest m → Writes (encode_write_request m) (write_request_bytes m)
unfolding encode_write_request write_request_bytes
encode_write_request-Writes m w = Writes->> (encode_header-Writes m.header) (
    Writes->> (encode_u32-Writes m.fid)
      (Writes->> (encode_u64-Writes m.offset) (encode_storage-Writes m.stored w.stored_fits)))

pub decode_write_request-Reads :
    (order : ArgumentOrder) (target m : WriteRequest)
    → IsWriteRequest m
    → Reads
        (decode_write_request order target)
        (write_request_bytes m)
        (received_write_request order target m)
unfolding decode_write_request write_request_bytes received_write_request
decode_write_request-Reads order target m w =
    Reads->>= _ (decode_header-Reads target.header m.header w.header_fits) (
      Reads->>= _ (decode_u32-Reads m.fid w.fid_fits) (
        Reads->>= _ (decode_u64-Reads order m.offset w.offset_fits)
          (Reads-pure _ (decode_storage-Reads target.stored m.stored w.stored_fits))))

pub encode_write_response-Writes :
    (m : WriteResponse)
    → IsWriteResponse m
    → Writes (encode_write_response m) (write_response_bytes m)
unfolding encode_write_response write_response_bytes
encode_write_response-Writes m w =
    Writes->> (encode_header-Writes m.header) (encode_u32-Writes m.count)

pub decode_write_response-Reads :
    (target m : WriteResponse)
    → IsWriteResponse m
    → Reads (decode_write_response target) (write_response_bytes m) m
unfolding decode_write_response write_response_bytes
decode_write_response-Reads target m w =
    Reads->>= _ (decode_header-Reads target.header m.header w.header_fits)
      (Reads-pure _ (decode_u32-Reads m.count w.count_fits))
