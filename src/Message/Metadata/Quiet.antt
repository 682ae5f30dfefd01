-- ===== src/Message/Metadata/Quiet.antt =====
-- No decoder of the messages of Metadata.antt throws.
use libkzr.Outcome.NeverThrows.{NeverThrows, NeverThrows-pure, NeverThrows->>=}
use libkzr.MessageStream.{ArgumentOrder}
use libkzr.MessageStream.Quiet.{decode_u32-NeverThrows, decode_string-NeverThrows}
use libkzr.Message.Metadata.{StatResponse, decode_stat_response, WStatRequest, decode_wstat_request}
use libkzr.Message.Parts.Quiet.{decode_header-NeverThrows, decode_stat-NeverThrows}

pub decode_stat_response-NeverThrows : (m : StatResponse) → NeverThrows (decode_stat_response m)
unfolding decode_stat_response
decode_stat_response-NeverThrows m =
    NeverThrows->>=
      (λ _. NeverThrows->>= (λ _. NeverThrows-pure _) (decode_string-NeverThrows m.stat_text))
      (decode_header-NeverThrows m.header)

pub decode_wstat_request-NeverThrows :
    (order : ArgumentOrder) (m : WStatRequest) → NeverThrows (decode_wstat_request order m)
unfolding decode_wstat_request
decode_wstat_request-NeverThrows order m =
    NeverThrows->>=
      (λ _.
        NeverThrows->>=
          (λ _. NeverThrows->>= (λ _. NeverThrows-pure _) (decode_stat-NeverThrows order m.stat))
          decode_u32-NeverThrows)
      (decode_header-NeverThrows m.header)
