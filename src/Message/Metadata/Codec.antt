-- ===== src/Message/Metadata/Codec.antt =====
-- Each encoder writes the bytes of its message, and each decoder reads them back: the messages about metadata: Stat and WStat.
use libkzr.StringStream.Frame.{Writes, Reads, Writes->>, Reads->>=, Reads-pure}
use libkzr.MessageStream.{ArgumentOrder}
use libkzr.MessageStream.Encode.{encode_u32-Writes, encode_string-Writes}
use libkzr.MessageStream.Decode.{decode_u32-Reads, decode_string-Reads}
use libkzr.Message.Parts.Codec.{encode_header-Writes, decode_header-Reads}
use libkzr.Message.Parts.StatCodec.{encode_stat-Writes, decode_stat-Reads}
use libkzr.Message.Metadata.{
  StatResponse, encode_stat_response, decode_stat_response, WStatRequest, encode_wstat_request,
  decode_wstat_request,
}
use libkzr.Message.Metadata.Wire.{
  IsStatResponse, stat_response_bytes, received_stat_response, IsWStatRequest, wstat_request_bytes,
  received_wstat_request,
}

pub encode_stat_response-Writes :
    (m : StatResponse) → IsStatResponse m → Writes (encode_stat_response m) (stat_response_bytes m)
unfolding encode_stat_response stat_response_bytes
encode_stat_response-Writes m w =
    Writes->> (encode_header-Writes m.header) (encode_string-Writes m.stat_text w.stat_text_fits.1)

pub decode_stat_response-Reads :
    (target m : StatResponse)
    → IsStatResponse m
    → Reads (decode_stat_response target) (stat_response_bytes m) (received_stat_response target m)
unfolding decode_stat_response stat_response_bytes received_stat_response
decode_stat_response-Reads target m w =
    Reads->>= _ (decode_header-Reads target.header m.header w.header_fits)
      (Reads-pure _ (decode_string-Reads target.stat_text m.stat_text w.stat_text_fits))

pub encode_wstat_request-Writes :
    (m : WStatRequest) → IsWStatRequest m → Writes (encode_wstat_request m) (wstat_request_bytes m)
unfolding encode_wstat_request wstat_request_bytes
encode_wstat_request-Writes m w =
    Writes->> (encode_header-Writes m.header)
      (Writes->> (encode_u32-Writes m.fid) (encode_stat-Writes m.stat w.stat_fits))

pub decode_wstat_request-Reads :
    (order : ArgumentOrder) (target m : WStatRequest)
    → IsWStatRequest m
    → Reads
        (decode_wstat_request order target)
        (wstat_request_bytes m)
        (received_wstat_request order target m)
unfolding decode_wstat_request wstat_request_bytes received_wstat_request
decode_wstat_request-Reads order target m w =
    Reads->>= _ (decode_header-Reads target.header m.header w.header_fits) (
      Reads->>= _ (decode_u32-Reads m.fid w.fid_fits)
        (Reads-pure _ (decode_stat-Reads order target.stat m.stat w.stat_fits)))
