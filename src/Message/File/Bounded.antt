-- ===== src/Message/File/Bounded.antt =====
-- The messages of File.antt that are decoded from bytes fit the wire.
use libkzr.Prelude.{[]}
use libkzr.Operations.{ConceptualOperation, MessageDirection}
use libkzr.StringStream.Bounded.{Bounded, Bounded-pure, Bounded->>=}
use libkzr.MessageStream.{ArgumentOrder, decode_string}
use libkzr.MessageStream.Bounded.{
  decode_u8-Bounded, decode_u32-Bounded, decode_u64-Bounded, decode_string-IsText,
  decode_vector-Bounded,
}
use libkzr.Message.Parts.{decode_qid, fresh_qid}
use libkzr.Message.Parts.Bounded.{
  decode_header-Bounded, decode_qid-Bounded, decode_storage-Bounded, IsVector-Bounded,
}
use libkzr.Message.Fresh.{
  fresh_walk_request, fresh_walk_response, fresh_open_request, fresh_open_or_create_response,
  fresh_create_request, fresh_fid_request, fresh_read_request, fresh_read_response,
  fresh_write_request, fresh_write_response,
}
use libkzr.Message.File.{
  decode_walk_request, decode_walk_response, decode_open_request, decode_open_or_create_response,
  decode_create_request, decode_fid_request, decode_read_request, decode_read_response,
  decode_write_request, decode_write_response,
}
use libkzr.Message.File.Wire.{
  IsWalkRequest, IsWalkResponse, IsOpenRequest, IsOpenOrCreateResponse, IsCreateRequest,
  IsFidRequest, IsReadRequest, IsReadResponse, IsWriteRequest, IsWriteResponse,
}

pub decode_walk_request-Bounded : Bounded IsWalkRequest (decode_walk_request fresh_walk_request)
unfolding decode_walk_request fresh_walk_request
decode_walk_request-Bounded = Bounded->>= (decode_header-Bounded _) (λ x_header h.
    Bounded->>= decode_u32-Bounded (λ x_fid fid_ok.
      Bounded->>= decode_u32-Bounded (λ x_newfid newfid_ok.
        Bounded->>= (IsVector-Bounded (decode_vector-Bounded decode_string [] decode_string-IsText))
          (λ x_wname wname_ok. Bounded-pure _ (record {
            header_fits = h;
            fid_fits = fid_ok;
            newfid_fits = newfid_ok;
            wname_fits = wname_ok;
          })))))

pub decode_walk_response-Bounded :
    (order : ArgumentOrder)
    → Bounded IsWalkResponse (decode_walk_response order fresh_walk_response)
unfolding decode_walk_response fresh_walk_response
decode_walk_response-Bounded order = Bounded->>= (decode_header-Bounded _) (λ x_header h.
    Bounded->>=
      (IsVector-Bounded
        (decode_vector-Bounded (decode_qid order) fresh_qid (decode_qid-Bounded order fresh_qid)))
      (λ x_wqid wqid_ok. Bounded-pure _ (record { header_fits = h; wqid_fits = wqid_ok })))

pub decode_open_request-Bounded : Bounded IsOpenRequest (decode_open_request fresh_open_request)
unfolding decode_open_request fresh_open_request
decode_open_request-Bounded = Bounded->>= (decode_header-Bounded _) (λ x_header h.
    Bounded->>= decode_u32-Bounded (λ x_fid fid_ok. Bounded->>= decode_u8-Bounded (λ x_mode mode_ok.
      Bounded-pure _ (record { header_fits = h; fid_fits = fid_ok; mode_fits = mode_ok }))))

pub decode_open_or_create_response-Bounded :
    (order : ArgumentOrder) (op : ConceptualOperation) (dir : MessageDirection)
    → Bounded IsOpenOrCreateResponse
        (decode_open_or_create_response order (fresh_open_or_create_response op dir))
unfolding decode_open_or_create_response fresh_open_or_create_response
decode_open_or_create_response-Bounded order op dir =
    Bounded->>= (decode_header-Bounded _) (λ x_header h.
      Bounded->>= (decode_qid-Bounded order _) (λ x_qid qid_ok.
        Bounded->>= decode_u32-Bounded (λ x_iounit iounit_ok.
          Bounded-pure _ (record { header_fits = h; qid_fits = qid_ok; iounit_fits = iounit_ok }))))

pub decode_create_request-Bounded :
    Bounded IsCreateRequest (decode_create_request fresh_create_request)
unfolding decode_create_request fresh_create_request
decode_create_request-Bounded = Bounded->>= (decode_header-Bounded _) (λ x_header h.
    Bounded->>= decode_u32-Bounded (λ x_fid fid_ok.
      Bounded->>= decode_string-IsText (λ x_name name_ok.
        Bounded->>= decode_u32-Bounded (λ x_perm perm_ok.
          Bounded->>= decode_u8-Bounded (λ x_mode mode_ok. Bounded-pure _ (record {
            header_fits = h;
            fid_fits = fid_ok;
            name_fits = name_ok;
            perm_fits = perm_ok;
            mode_fits = mode_ok;
          }))))))

pub decode_fid_request-Bounded :
    (op : ConceptualOperation) (dir : MessageDirection)
    → Bounded IsFidRequest (decode_fid_request (fresh_fid_request op dir))
unfolding decode_fid_request fresh_fid_request
decode_fid_request-Bounded op dir = Bounded->>= (decode_header-Bounded _) (λ x_header h.
    Bounded->>= decode_u32-Bounded
      (λ x_fid fid_ok. Bounded-pure _ (record { header_fits = h; fid_fits = fid_ok })))

pub decode_read_request-Bounded :
    (order : ArgumentOrder) → Bounded IsReadRequest (decode_read_request order fresh_read_request)
unfolding decode_read_request fresh_read_request
decode_read_request-Bounded order = Bounded->>= (decode_header-Bounded _) (λ x_header h.
    Bounded->>= decode_u32-Bounded (λ x_fid fid_ok.
      Bounded->>= (decode_u64-Bounded order) (λ x_offset offset_ok.
        Bounded->>= decode_u32-Bounded (λ x_count count_ok. Bounded-pure _ (record {
          header_fits = h;
          fid_fits = fid_ok;
          offset_fits = offset_ok;
          count_fits = count_ok;
        })))))

pub decode_read_response-Bounded : Bounded IsReadResponse (decode_read_response fresh_read_response)
unfolding decode_read_response fresh_read_response
decode_read_response-Bounded = Bounded->>= (decode_header-Bounded _) (λ x_header h.
    Bounded->>= decode_storage-Bounded
      (λ x_stored stored_ok. Bounded-pure _ (record { header_fits = h; stored_fits = stored_ok })))

pub decode_write_request-Bounded :
    (order : ArgumentOrder)
    → Bounded IsWriteRequest (decode_write_request order fresh_write_request)
unfolding decode_write_request fresh_write_request
decode_write_request-Bounded order = Bounded->>= (decode_header-Bounded _) (λ x_header h.
    Bounded->>= decode_u32-Bounded (λ x_fid fid_ok.
      Bounded->>= (decode_u64-Bounded order) (λ x_offset offset_ok.
        Bounded->>= decode_storage-Bounded (λ x_stored stored_ok. Bounded-pure _ (record {
          header_fits = h;
          fid_fits = fid_ok;
          offset_fits = offset_ok;
          stored_fits = stored_ok;
        })))))

pub decode_write_response-Bounded :
    Bounded IsWriteResponse (decode_write_response fresh_write_response)
unfolding decode_write_response fresh_write_response
decode_write_response-Bounded = Bounded->>= (decode_header-Bounded _) (λ x_header h.
    Bounded->>= decode_u32-Bounded
      (λ x_count count_ok. Bounded-pure _ (record { header_fits = h; count_fits = count_ok })))
