-- ===== src/Message/Session/Bounded.antt =====
-- The messages of Session.antt that are decoded from bytes fit the wire.
use libkzr.Operations.{ConceptualOperation, MessageDirection}
use libkzr.StringStream.Bounded.{Bounded, Bounded-pure, Bounded->>=}
use libkzr.MessageStream.{ArgumentOrder}
use libkzr.MessageStream.Bounded.{decode_u16-Bounded, decode_u32-Bounded, decode_string-IsText}
use libkzr.Message.Parts.Bounded.{decode_header-Bounded, decode_qid-Bounded}
use libkzr.Message.Fresh.{
  fresh_error_response, fresh_version_message, fresh_authentication_request,
  fresh_authentication_response, fresh_flush_request, fresh_attach_request, fresh_attach_response,
}
use libkzr.Message.Session.{
  decode_error_response, decode_version_message, decode_authentication_request,
  decode_authentication_response, decode_flush_request, decode_attach_request,
  decode_attach_response,
}
use libkzr.Message.Session.Wire.{
  IsErrorResponse, IsVersionMessage, IsAuthenticationRequest, IsAuthenticationResponse,
  IsFlushRequest, IsAttachRequest, IsAttachResponse,
}

pub decode_error_response-Bounded :
    Bounded IsErrorResponse (decode_error_response fresh_error_response)
unfolding decode_error_response fresh_error_response
decode_error_response-Bounded = Bounded->>= (decode_header-Bounded _) (λ x_header h.
    Bounded->>= decode_string-IsText
      (λ x_ename ename_ok. Bounded-pure _ (record { header_fits = h; ename_fits = ename_ok })))

pub decode_version_message-Bounded :
    (op : ConceptualOperation) (dir : MessageDirection)
    → Bounded IsVersionMessage (decode_version_message (fresh_version_message op dir))
unfolding decode_version_message fresh_version_message
decode_version_message-Bounded op dir = Bounded->>= (decode_header-Bounded _) (λ x_header h.
    Bounded->>= decode_u16-Bounded (λ x_msize msize_ok.
      Bounded->>= decode_string-IsText (λ x_version version_ok.
        Bounded-pure _
          (record { header_fits = h; msize_fits = msize_ok; version_fits = version_ok }))))

pub decode_authentication_request-Bounded :
    Bounded IsAuthenticationRequest (decode_authentication_request fresh_authentication_request)
unfolding decode_authentication_request fresh_authentication_request
decode_authentication_request-Bounded = Bounded->>= (decode_header-Bounded _) (λ x_header h.
    Bounded->>= decode_u32-Bounded (λ x_afid afid_ok.
      Bounded->>= decode_string-IsText (λ x_uname uname_ok.
        Bounded->>= decode_string-IsText (λ x_aname aname_ok. Bounded-pure _ (record {
          header_fits = h;
          afid_fits = afid_ok;
          uname_fits = uname_ok;
          aname_fits = aname_ok;
        })))))

pub decode_authentication_response-Bounded :
    (order : ArgumentOrder)
    → Bounded IsAuthenticationResponse
        (decode_authentication_response order fresh_authentication_response)
unfolding decode_authentication_response fresh_authentication_response
decode_authentication_response-Bounded order = Bounded->>= (decode_header-Bounded _) (λ x_header h.
    Bounded->>= (decode_qid-Bounded order _)
      (λ x_qid qid_ok. Bounded-pure _ (record { header_fits = h; qid_fits = qid_ok })))

pub decode_flush_request-Bounded : Bounded IsFlushRequest (decode_flush_request fresh_flush_request)
unfolding decode_flush_request fresh_flush_request
decode_flush_request-Bounded = Bounded->>= (decode_header-Bounded _) (λ x_header h.
    Bounded->>= decode_u16-Bounded
      (λ x_oldtag oldtag_ok. Bounded-pure _ (record { header_fits = h; oldtag_fits = oldtag_ok })))

pub decode_attach_request-Bounded :
    Bounded IsAttachRequest (decode_attach_request fresh_attach_request)
unfolding decode_attach_request fresh_attach_request
decode_attach_request-Bounded = Bounded->>= (decode_header-Bounded _) (λ x_header h.
    Bounded->>= decode_u32-Bounded (λ x_fid fid_ok.
      Bounded->>= decode_u32-Bounded (λ x_afid afid_ok.
        Bounded->>= decode_string-IsText (λ x_uname uname_ok.
          Bounded->>= decode_string-IsText (λ x_aname aname_ok. Bounded-pure _ (record {
            header_fits = h;
            fid_fits = fid_ok;
            afid_fits = afid_ok;
            uname_fits = uname_ok;
            aname_fits = aname_ok;
          }))))))

pub decode_attach_response-Bounded :
    (order : ArgumentOrder)
    → Bounded IsAttachResponse (decode_attach_response order fresh_attach_response)
unfolding decode_attach_response fresh_attach_response
decode_attach_response-Bounded order = Bounded->>= (decode_header-Bounded _) (λ x_header h.
    Bounded->>= (decode_qid-Bounded order _)
      (λ x_qid qid_ok. Bounded-pure _ (record { header_fits = h; qid_fits = qid_ok })))
