-- ===== src/Message/File/Prefix.antt =====
-- No encoding of a message of File.antt is the beginning of another of the same class.
use libkzr.Prelude.{refl}
use libkzr.MessageStream.Prefix.{
  PrefixFree, part, both, whole, number-PrefixFree, string-PrefixFree,
}
use libkzr.Message.Parts.Prefix.{
  IsHeader-PrefixFree, IsQid-PrefixFree, IsStorage-PrefixFree, names-PrefixFree, qids-PrefixFree,
}
use libkzr.Message.File.Wire.{
  IsWalkRequest, walk_request_bytes, IsWalkResponse, walk_response_bytes, IsOpenRequest,
  open_request_bytes, IsOpenOrCreateResponse, open_or_create_response_bytes, IsCreateRequest,
  create_request_bytes, IsFidRequest, fid_request_bytes, IsReadRequest, read_request_bytes,
  IsReadResponse, read_response_bytes, IsWriteRequest, write_request_bytes, IsWriteResponse,
  write_response_bytes,
}
use libkzr.Message.File.{
  WalkRequest, WalkResponse, OpenRequest, OpenOrCreateResponse, CreateRequest, FidRequest,
  ReadRequest, ReadResponse, WriteRequest, WriteResponse,
}

pub IsWalkRequest-PrefixFree : PrefixFree IsWalkRequest walk_request_bytes
unfolding walk_request_bytes
IsWalkRequest-PrefixFree =
    whole
      (both (part IsHeader-PrefixFree (λ (m : WalkRequest). m.header) (λ m w. w.header_fits)) (
        both (part (number-PrefixFree 4) (λ (m : WalkRequest). m.fid) (λ m w. w.fid_fits)) (
          both (part (number-PrefixFree 4) (λ (m : WalkRequest). m.newfid) (λ m w. w.newfid_fits))
            (part names-PrefixFree (λ (m : WalkRequest). m.wname) (λ m w. w.wname_fits)))))
      (λ (x_header, (x_fid, (x_newfid, x_wname))). record {
        header = x_header;
        fid = x_fid;
        newfid = x_newfid;
        wname = x_wname;
      })
      (λ m. refl)

pub IsWalkResponse-PrefixFree : PrefixFree IsWalkResponse walk_response_bytes
unfolding walk_response_bytes
IsWalkResponse-PrefixFree =
    whole
      (both (part IsHeader-PrefixFree (λ (m : WalkResponse). m.header) (λ m w. w.header_fits))
        (part qids-PrefixFree (λ (m : WalkResponse). m.wqid) (λ m w. w.wqid_fits)))
      (λ (x_header, x_wqid). record { header = x_header; wqid = x_wqid }) (λ m. refl)

pub IsOpenRequest-PrefixFree : PrefixFree IsOpenRequest open_request_bytes
unfolding open_request_bytes
IsOpenRequest-PrefixFree =
    whole
      (both (part IsHeader-PrefixFree (λ (m : OpenRequest). m.header) (λ m w. w.header_fits)) (
        both (part (number-PrefixFree 4) (λ (m : OpenRequest). m.fid) (λ m w. w.fid_fits))
          (part (number-PrefixFree 1) (λ (m : OpenRequest). m.mode) (λ m w. w.mode_fits))))
      (λ (x_header, (x_fid, x_mode)). record { header = x_header; fid = x_fid; mode = x_mode })
      (λ m. refl)

pub IsOpenOrCreateResponse-PrefixFree :
    PrefixFree IsOpenOrCreateResponse open_or_create_response_bytes
unfolding open_or_create_response_bytes
IsOpenOrCreateResponse-PrefixFree =
    whole
      (both
        (part IsHeader-PrefixFree (λ (m : OpenOrCreateResponse). m.header) (λ m w. w.header_fits))
        (both (part IsQid-PrefixFree (λ (m : OpenOrCreateResponse). m.qid) (λ m w. w.qid_fits)) (
          part (number-PrefixFree 4) (λ (m : OpenOrCreateResponse). m.iounit)
            (λ m w. w.iounit_fits))))
      (λ (x_header, (x_qid, x_iounit)). record {
        header = x_header;
        qid = x_qid;
        iounit = x_iounit;
      })
      (λ m. refl)

pub IsCreateRequest-PrefixFree : PrefixFree IsCreateRequest create_request_bytes
unfolding create_request_bytes
IsCreateRequest-PrefixFree =
    whole
      (both (part IsHeader-PrefixFree (λ (m : CreateRequest). m.header) (λ m w. w.header_fits)) (
        both (part (number-PrefixFree 4) (λ (m : CreateRequest). m.fid) (λ m w. w.fid_fits)) (
          both (part string-PrefixFree (λ (m : CreateRequest). m.name) (λ m w. w.name_fits)) (
            both (part (number-PrefixFree 4) (λ (m : CreateRequest). m.perm) (λ m w. w.perm_fits))
              (part (number-PrefixFree 1) (λ (m : CreateRequest). m.mode) (λ m w. w.mode_fits))))))
      (λ (x_header, (x_fid, (x_name, (x_perm, x_mode)))). record {
        header = x_header;
        fid = x_fid;
        name = x_name;
        perm = x_perm;
        mode = x_mode;
      })
      (λ m. refl)

pub IsFidRequest-PrefixFree : PrefixFree IsFidRequest fid_request_bytes
unfolding fid_request_bytes
IsFidRequest-PrefixFree =
    whole
      (both (part IsHeader-PrefixFree (λ (m : FidRequest). m.header) (λ m w. w.header_fits))
        (part (number-PrefixFree 4) (λ (m : FidRequest). m.fid) (λ m w. w.fid_fits)))
      (λ (x_header, x_fid). record { header = x_header; fid = x_fid }) (λ m. refl)

pub IsReadRequest-PrefixFree : PrefixFree IsReadRequest read_request_bytes
unfolding read_request_bytes
IsReadRequest-PrefixFree =
    whole
      (both (part IsHeader-PrefixFree (λ (m : ReadRequest). m.header) (λ m w. w.header_fits)) (
        both (part (number-PrefixFree 4) (λ (m : ReadRequest). m.fid) (λ m w. w.fid_fits)) (
          both (part (number-PrefixFree 8) (λ (m : ReadRequest). m.offset) (λ m w. w.offset_fits))
            (part (number-PrefixFree 4) (λ (m : ReadRequest). m.count) (λ m w. w.count_fits)))))
      (λ (x_header, (x_fid, (x_offset, x_count))). record {
        header = x_header;
        fid = x_fid;
        offset = x_offset;
        count = x_count;
      })
      (λ m. refl)

pub IsReadResponse-PrefixFree : PrefixFree IsReadResponse read_response_bytes
unfolding read_response_bytes
IsReadResponse-PrefixFree =
    whole
      (both (part IsHeader-PrefixFree (λ (m : ReadResponse). m.header) (λ m w. w.header_fits))
        (part IsStorage-PrefixFree (λ (m : ReadResponse). m.stored) (λ m w. w.stored_fits)))
      (λ (x_header, x_stored). record { header = x_header; stored = x_stored }) (λ m. refl)

pub IsWriteRequest-PrefixFree : PrefixFree IsWriteRequest write_request_bytes
unfolding write_request_bytes
IsWriteRequest-PrefixFree =
    whole
      (both (part IsHeader-PrefixFree (λ (m : WriteRequest). m.header) (λ m w. w.header_fits)) (
        both (part (number-PrefixFree 4) (λ (m : WriteRequest). m.fid) (λ m w. w.fid_fits)) (
          both (part (number-PrefixFree 8) (λ (m : WriteRequest). m.offset) (λ m w. w.offset_fits))
            (part IsStorage-PrefixFree (λ (m : WriteRequest). m.stored) (λ m w. w.stored_fits)))))
      (λ (x_header, (x_fid, (x_offset, x_stored))). record {
        header = x_header;
        fid = x_fid;
        offset = x_offset;
        stored = x_stored;
      })
      (λ m. refl)

pub IsWriteResponse-PrefixFree : PrefixFree IsWriteResponse write_response_bytes
unfolding write_response_bytes
IsWriteResponse-PrefixFree =
    whole
      (both (part IsHeader-PrefixFree (λ (m : WriteResponse). m.header) (λ m w. w.header_fits))
        (part (number-PrefixFree 4) (λ (m : WriteResponse). m.count) (λ m w. w.count_fits)))
      (λ (x_header, x_count). record { header = x_header; count = x_count }) (λ m. refl)
