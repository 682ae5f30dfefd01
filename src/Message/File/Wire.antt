-- ===== src/Message/File/Wire.antt =====
-- The bytes of the messages about files: Walk, Open, Create, Read, Write, and FidRequest;
-- the ranges of their members, and what decoding them into an object gives.
use libkzr.Prelude.{◌^◌, ◌<◌, List, [], ◌++◌, map}
use libkzr.Prelude.Bytes.{Byte, little_endian}
use libkzr.MessageStream.{ArgumentOrder, overlay}
use libkzr.MessageStream.Wire.{IsText, string_bytes, vector_bytes, u64_as_read}
use libkzr.Message.Parts.Wire.{
  IsHeader, header_bytes, IsQid, qid_bytes, received_qid, IsStorage, storage_bytes, IsVector,
}
use libkzr.Message.File.{
  WalkRequest, WalkResponse, OpenRequest, OpenOrCreateResponse, CreateRequest, FidRequest,
  ReadRequest, ReadResponse, WriteRequest, WriteResponse,
}

unfoldable pub walk_request_bytes : WalkRequest → List Byte
walk_request_bytes m =
    header_bytes m.header
    ++ (little_endian 4 m.fid ++ (little_endian 4 m.newfid ++ (vector_bytes string_bytes m.wname)))

pub record IsWalkRequest (m : WalkRequest) : Type 0 where
  pub header_fits : IsHeader m.header
  pub fid_fits : m.fid < 2 ^ 32
  pub newfid_fits : m.newfid < 2 ^ 32
  pub wname_fits : IsVector IsText m.wname

unfoldable pub received_walk_request : WalkRequest → WalkRequest → WalkRequest
received_walk_request target m = record m {
  wname = target.wname ++ map (λ s. overlay s []) m.wname;
}

unfoldable pub walk_response_bytes : WalkResponse → List Byte
walk_response_bytes m = header_bytes m.header ++ (vector_bytes qid_bytes m.wqid)

pub record IsWalkResponse (m : WalkResponse) : Type 0 where
  pub header_fits : IsHeader m.header
  pub wqid_fits : IsVector IsQid m.wqid

unfoldable pub received_walk_response : ArgumentOrder → WalkResponse → WalkResponse → WalkResponse
received_walk_response order target m = record m {
  wqid = target.wqid ++ map (received_qid order) m.wqid;
}

unfoldable pub open_request_bytes : OpenRequest → List Byte
open_request_bytes m = header_bytes m.header ++ (little_endian 4 m.fid ++ (little_endian 1 m.mode))

pub record IsOpenRequest (m : OpenRequest) : Type 0 where
  pub header_fits : IsHeader m.header
  pub fid_fits : m.fid < 2 ^ 32
  pub mode_fits : m.mode < 2 ^ 8

unfoldable pub open_or_create_response_bytes : OpenOrCreateResponse → List Byte
open_or_create_response_bytes m =
    header_bytes m.header ++ (qid_bytes m.qid ++ (little_endian 4 m.iounit))

pub record IsOpenOrCreateResponse (m : OpenOrCreateResponse) : Type 0 where
  pub header_fits : IsHeader m.header
  pub qid_fits : IsQid m.qid
  pub iounit_fits : m.iounit < 2 ^ 32

unfoldable pub received_open_or_create_response :
    ArgumentOrder → OpenOrCreateResponse → OpenOrCreateResponse
received_open_or_create_response order m = record m { qid = received_qid order m.qid }

unfoldable pub create_request_bytes : CreateRequest → List Byte
create_request_bytes m =
    header_bytes m.header
    ++ (little_endian 4 m.fid
        ++ (string_bytes m.name ++ (little_endian 4 m.perm ++ (little_endian 1 m.mode))))

pub record IsCreateRequest (m : CreateRequest) : Type 0 where
  pub header_fits : IsHeader m.header
  pub fid_fits : m.fid < 2 ^ 32
  pub name_fits : IsText m.name
  pub perm_fits : m.perm < 2 ^ 32
  pub mode_fits : m.mode < 2 ^ 8

unfoldable pub received_create_request : CreateRequest → CreateRequest → CreateRequest
received_create_request target m = record m { name = overlay m.name target.name }

unfoldable pub fid_request_bytes : FidRequest → List Byte
fid_request_bytes m = header_bytes m.header ++ (little_endian 4 m.fid)

pub record IsFidRequest (m : FidRequest) : Type 0 where
  pub header_fits : IsHeader m.header
  pub fid_fits : m.fid < 2 ^ 32

unfoldable pub read_request_bytes : ReadRequest → List Byte
read_request_bytes m =
    header_bytes m.header
    ++ (little_endian 4 m.fid ++ (little_endian 8 m.offset ++ (little_endian 4 m.count)))

pub record IsReadRequest (m : ReadRequest) : Type 0 where
  pub header_fits : IsHeader m.header
  pub fid_fits : m.fid < 2 ^ 32
  pub offset_fits : m.offset < 2 ^ 64
  pub count_fits : m.count < 2 ^ 32

unfoldable pub received_read_request : ArgumentOrder → ReadRequest → ReadRequest
received_read_request order m = record m { offset = u64_as_read order m.offset }

unfoldable pub read_response_bytes : ReadResponse → List Byte
read_response_bytes m = header_bytes m.header ++ (storage_bytes m.stored)

pub record IsReadResponse (m : ReadResponse) : Type 0 where
  pub header_fits : IsHeader m.header
  pub stored_fits : IsStorage m.stored

unfoldable pub received_read_response : ReadResponse → ReadResponse → ReadResponse
received_read_response target m = record m { stored = target.stored ++ m.stored }

unfoldable pub write_request_bytes : WriteRequest → List Byte
write_request_bytes m =
    header_bytes m.header
    ++ (little_endian 4 m.fid ++ (little_endian 8 m.offset ++ (storage_bytes m.stored)))

pub record IsWriteRequest (m : WriteRequest) : Type 0 where
  pub header_fits : IsHeader m.header
  pub fid_fits : m.fid < 2 ^ 32
  pub offset_fits : m.offset < 2 ^ 64
  pub stored_fits : IsStorage m.stored

unfoldable pub received_write_request : ArgumentOrder → WriteRequest → WriteRequest → WriteRequest
received_write_request order target m = record m {
  offset = u64_as_read order m.offset;
  stored = target.stored ++ m.stored;
}

unfoldable pub write_response_bytes : WriteResponse → List Byte
write_response_bytes m = header_bytes m.header ++ (little_endian 4 m.count)

pub record IsWriteResponse (m : WriteResponse) : Type 0 where
  pub header_fits : IsHeader m.header
  pub count_fits : m.count < 2 ^ 32
