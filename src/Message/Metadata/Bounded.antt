-- ===== src/Message/Metadata/Bounded.antt =====
-- The messages of Metadata.antt that are decoded from bytes fit the wire.
use libkzr.StringStream.Bounded.{Bounded, Bounded-pure, Bounded->>=}
use libkzr.MessageStream.{ArgumentOrder}
use libkzr.MessageStream.Bounded.{decode_u32-Bounded, decode_string-IsText}
use libkzr.Message.Parts.Bounded.{decode_header-Bounded, decode_stat-Bounded}
use libkzr.Message.Fresh.{fresh_stat_response, fresh_wstat_request}
use libkzr.Message.Metadata.{decode_stat_response, decode_wstat_request}
use libkzr.Message.Metadata.Wire.{IsStatResponse, IsWStatRequest}

pub decode_stat_response-Bounded : Bounded IsStatResponse (decode_stat_response fresh_stat_response)
unfolding decode_stat_response fresh_stat_response
decode_stat_response-Bounded = Bounded->>= (decode_header-Bounded _) (λ x_header h.
    Bounded->>= decode_string-IsText (λ x_stat_text stat_text_ok.
      Bounded-pure _ (record { header_fits = h; stat_text_fits = stat_text_ok })))

pub decode_wstat_request-Bounded :
    (order : ArgumentOrder)
    → Bounded IsWStatRequest (decode_wstat_request order fresh_wstat_request)
unfolding decode_wstat_request fresh_wstat_request
decode_wstat_request-Bounded order = Bounded->>= (decode_header-Bounded _) (λ x_header h.
    Bounded->>= decode_u32-Bounded (λ x_fid fid_ok.
      Bounded->>= (decode_stat-Bounded order) (λ x_stat stat_ok.
        Bounded-pure _ (record { header_fits = h; fid_fits = fid_ok; stat_fits = stat_ok }))))
