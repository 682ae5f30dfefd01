-- ===== src/Message/File/Build.antt =====
-- The messages of File.antt that fit the wire can be built by constructors and setters.
pub mod Walk
use libkzr.Prelude.{◌%◌, ◌^◌, ◌≡◌, sym, ◌∙◌, List, [], ◌∷◌, ◌++◌, append-nil, append_assoc, arith}
use libkzr.Operations.{
  ConceptualOperation, translate_concept, request, response, walk, open_, create, read, write,
}
use libkzr.MessageStream.{Text}
use libkzr.Message.Parts.{Qid}
use libkzr.Message.Parts.Build.{build_qid, build_qid_lem, build_header, build_header_lem}
use libkzr.Message.Fresh.{
  fresh_walk_request, fresh_walk_response, fresh_open_request, fresh_open_or_create_response,
  fresh_create_request, fresh_fid_request, fresh_read_request, fresh_read_response,
  fresh_write_request, fresh_write_response,
}
use libkzr.Message.File.{
  WalkRequest, WalkResponse, OpenRequest, OpenOrCreateResponse, CreateRequest, FidRequest,
  ReadRequest, ReadResponse, WriteRequest, WriteResponse,
}
use libkzr.Message.File.Wire.{
  IsWalkRequest, IsWalkResponse, IsOpenRequest, IsOpenOrCreateResponse, IsCreateRequest,
  IsFidRequest, IsReadRequest, IsReadResponse, IsWriteRequest, IsWriteResponse,
}
use libkzr.Message.Accessors.{set_fid, set_newfid, push_name}
use libkzr.Message.File.Setters.{
  walk_response_push_qid, open_request_set_fid, open_request_set_mode,
  open_or_create_response_set_qid, open_or_create_response_set_iounit, create_request_set_fid,
  create_request_set_name, create_request_set_permissions, create_request_set_mode,
  fid_request_set_fid, read_request_set_fid, read_request_set_offset, read_request_set_count,
  read_response_assign_data, write_request_set_fid, write_request_set_offset,
  write_request_assign_data, write_response_set_count,
}

unfoldable pub build_open_request : OpenRequest → OpenRequest
build_open_request m = open_request_set_mode m.mode (
    open_request_set_fid m.fid
      (record (fresh_open_request) { header = build_header open_ request m.header }))

pub build_open_request_lem :
    (m : OpenRequest)
    → IsOpenRequest m
    → translate_concept open_ request ≡ m.header.op
    → build_open_request m ≡ m
unfolding build_open_request fresh_open_request open_request_set_fid open_request_set_mode
build_open_request_lem m w e =
    let p_fid : m.fid % 2 ^ 32 ≡ m.fid = omega (arith, w.fid_fits) in
    let p_mode : m.mode % 2 ^ 8 ≡ m.mode = omega (arith, w.mode_fits) in
    let p_header = build_header_lem open_ request m.header w.header_fits e in
    λ i. record { header = p_header i; fid = p_fid i; mode = p_mode i }

unfoldable pub build_open_or_create_response :
    ConceptualOperation → OpenOrCreateResponse → OpenOrCreateResponse
build_open_or_create_response op m = open_or_create_response_set_iounit m.iounit (
    open_or_create_response_set_qid (build_qid m.qid)
      (record (fresh_open_or_create_response op response) {
        header = build_header op response m.header;
      }))

pub build_open_or_create_response_lem :
    (op : ConceptualOperation) (m : OpenOrCreateResponse)
    → IsOpenOrCreateResponse m
    → translate_concept op response ≡ m.header.op
    → build_open_or_create_response op m ≡ m
unfolding build_open_or_create_response fresh_open_or_create_response
    open_or_create_response_set_qid open_or_create_response_set_iounit
build_open_or_create_response_lem op m w e =
    let p_qid = build_qid_lem m.qid w.qid_fits in
    let p_iounit : m.iounit % 2 ^ 32 ≡ m.iounit = omega (arith, w.iounit_fits) in
    let p_header = build_header_lem op response m.header w.header_fits e in
    λ i. record { header = p_header i; qid = p_qid i; iounit = p_iounit i }

unfoldable pub build_create_request : CreateRequest → CreateRequest
build_create_request m = create_request_set_mode m.mode (
    create_request_set_permissions m.perm (
      create_request_set_name m.name (
        create_request_set_fid m.fid
          (record (fresh_create_request) { header = build_header create request m.header }))))

pub build_create_request_lem :
    (m : CreateRequest)
    → IsCreateRequest m
    → translate_concept create request ≡ m.header.op
    → build_create_request m ≡ m
unfolding build_create_request fresh_create_request create_request_set_fid create_request_set_name
    create_request_set_permissions create_request_set_mode
build_create_request_lem m w e =
    let p_fid : m.fid % 2 ^ 32 ≡ m.fid = omega (arith, w.fid_fits) in
    let p_perm : m.perm % 2 ^ 32 ≡ m.perm = omega (arith, w.perm_fits) in
    let p_mode : m.mode % 2 ^ 8 ≡ m.mode = omega (arith, w.mode_fits) in
    let p_header = build_header_lem create request m.header w.header_fits e in
    λ i. record {
      header = p_header i;
      fid = p_fid i;
      name = m.name;
      perm = p_perm i;
      mode = p_mode i;
    }

unfoldable pub build_fid_request : ConceptualOperation → FidRequest → FidRequest
build_fid_request op m =
    fid_request_set_fid m.fid
      (record (fresh_fid_request op request) { header = build_header op request m.header })

pub build_fid_request_lem :
    (op : ConceptualOperation) (m : FidRequest)
    → IsFidRequest m
    → translate_concept op request ≡ m.header.op
    → build_fid_request op m ≡ m
unfolding build_fid_request fresh_fid_request fid_request_set_fid
build_fid_request_lem op m w e =
    let p_fid : m.fid % 2 ^ 32 ≡ m.fid = omega (arith, w.fid_fits) in
    let p_header = build_header_lem op request m.header w.header_fits e in
    λ i. record { header = p_header i; fid = p_fid i }

unfoldable pub build_read_request : ReadRequest → ReadRequest
build_read_request m = read_request_set_count m.count (
    read_request_set_offset m.offset (
      read_request_set_fid m.fid
        (record (fresh_read_request) { header = build_header read request m.header })))

pub build_read_request_lem :
    (m : ReadRequest)
    → IsReadRequest m
    → translate_concept read request ≡ m.header.op
    → build_read_request m ≡ m
unfolding build_read_request fresh_read_request read_request_set_fid read_request_set_offset
    read_request_set_count
build_read_request_lem m w e =
    let p_fid : m.fid % 2 ^ 32 ≡ m.fid = omega (arith, w.fid_fits) in
    let p_offset : m.offset % 2 ^ 64 ≡ m.offset = omega (arith, w.offset_fits) in
    let p_count : m.count % 2 ^ 32 ≡ m.count = omega (arith, w.count_fits) in
    let p_header = build_header_lem read request m.header w.header_fits e in
    λ i. record { header = p_header i; fid = p_fid i; offset = p_offset i; count = p_count i }

unfoldable pub build_read_response : ReadResponse → ReadResponse
build_read_response m =
    read_response_assign_data m.stored
      (record (fresh_read_response) { header = build_header read response m.header })

pub build_read_response_lem :
    (m : ReadResponse)
    → IsReadResponse m
    → translate_concept read response ≡ m.header.op
    → build_read_response m ≡ m
unfolding build_read_response fresh_read_response read_response_assign_data
build_read_response_lem m w e =
    let p_header = build_header_lem read response m.header w.header_fits e in
    λ i. record { header = p_header i; stored = m.stored }

unfoldable pub build_write_request : WriteRequest → WriteRequest
build_write_request m = write_request_assign_data m.stored (
    write_request_set_offset m.offset (
      write_request_set_fid m.fid
        (record (fresh_write_request) { header = build_header write request m.header })))

pub build_write_request_lem :
    (m : WriteRequest)
    → IsWriteRequest m
    → translate_concept write request ≡ m.header.op
    → build_write_request m ≡ m
unfolding build_write_request fresh_write_request write_request_set_fid write_request_set_offset
    write_request_assign_data
build_write_request_lem m w e =
    let p_fid : m.fid % 2 ^ 32 ≡ m.fid = omega (arith, w.fid_fits) in
    let p_offset : m.offset % 2 ^ 64 ≡ m.offset = omega (arith, w.offset_fits) in
    let p_header = build_header_lem write request m.header w.header_fits e in
    λ i. record { header = p_header i; fid = p_fid i; offset = p_offset i; stored = m.stored }

unfoldable pub build_write_response : WriteResponse → WriteResponse
build_write_response m =
    write_response_set_count m.count
      (record (fresh_write_response) { header = build_header write response m.header })

pub build_write_response_lem :
    (m : WriteResponse)
    → IsWriteResponse m
    → translate_concept write response ≡ m.header.op
    → build_write_response m ≡ m
unfolding build_write_response fresh_write_response write_response_set_count
build_write_response_lem m w e =
    let p_count : m.count % 2 ^ 32 ≡ m.count = omega (arith, w.count_fits) in
    let p_header = build_header_lem write response m.header w.header_fits e in
    λ i. record { header = p_header i; count = p_count i }
