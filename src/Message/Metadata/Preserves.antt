-- ===== src/Message/Metadata/Preserves.antt =====
-- The decoders of the messages about metadata: Stat and WStat change no byte of the stream.
use libkzr.StringStream.Preserves.{Preserves, Preserves-pure, Preserves->>=}
use libkzr.MessageStream.{ArgumentOrder}
use libkzr.MessageStream.Preserves.{decode_u32-Preserves, decode_string-Preserves}
use libkzr.Message.Parts.Preserves.{decode_header-Preserves, decode_stat-Preserves}
use libkzr.Message.Metadata.{StatResponse, decode_stat_response, WStatRequest, decode_wstat_request}

pub decode_stat_response-Preserves : (m : StatResponse) → Preserves (decode_stat_response m)
unfolding decode_stat_response
decode_stat_response-Preserves m =
    Preserves->>=
      (λ header.
        Preserves->>= (λ stat_text. Preserves-pure _) (decode_string-Preserves m.stat_text))
      (decode_header-Preserves m.header)

pub decode_wstat_request-Preserves :
    (order : ArgumentOrder) (m : WStatRequest) → Preserves (decode_wstat_request order m)
unfolding decode_wstat_request
decode_wstat_request-Preserves order m =
    Preserves->>=
      (λ header.
        Preserves->>=
          (λ fid. Preserves->>= (λ stat. Preserves-pure _) (decode_stat-Preserves order m.stat))
          decode_u32-Preserves)
      (decode_header-Preserves m.header)
