-- ===== src/Message/Metadata/Wire.antt =====
-- The bytes of the messages about metadata: Stat and WStat;
-- the ranges of their members, and what decoding them into an object gives.
use libkzr.Prelude.{◌^◌, ◌<◌, List, ◌++◌}
use libkzr.Prelude.Bytes.{Byte, little_endian}
use libkzr.MessageStream.{ArgumentOrder, overlay}
use libkzr.MessageStream.Wire.{IsText, string_bytes}
use libkzr.Message.Parts.Wire.{IsHeader, header_bytes, IsStat, stat_bytes, received_stat}
use libkzr.Message.Metadata.{StatResponse, WStatRequest}

unfoldable pub stat_response_bytes : StatResponse → List Byte
stat_response_bytes m = header_bytes m.header ++ (string_bytes m.stat_text)

pub record IsStatResponse (m : StatResponse) : Type 0 where
  pub header_fits : IsHeader m.header
  pub stat_text_fits : IsText m.stat_text

unfoldable pub received_stat_response : StatResponse → StatResponse → StatResponse
received_stat_response target m = record m { stat_text = overlay m.stat_text target.stat_text }

unfoldable pub wstat_request_bytes : WStatRequest → List Byte
wstat_request_bytes m = header_bytes m.header ++ (little_endian 4 m.fid ++ (stat_bytes m.stat))

pub record IsWStatRequest (m : WStatRequest) : Type 0 where
  pub header_fits : IsHeader m.header
  pub fid_fits : m.fid < 2 ^ 32
  pub stat_fits : IsStat m.stat

unfoldable pub received_wstat_request : ArgumentOrder → WStatRequest → WStatRequest → WStatRequest
received_wstat_request order target m = record m { stat = received_stat order target.stat m.stat }
