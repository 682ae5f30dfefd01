-- ===== src/Message/Metadata/Setters.antt =====
-- The setters of the messages of Metadata.antt. A number is converted to the width of the parameter that
-- takes it.
use libkzr.Prelude.{ℕ, ◌%◌, ◌^◌}
use libkzr.MessageStream.{Text}
use libkzr.Message.Parts.{Stat}
use libkzr.Message.Metadata.{StatResponse, WStatRequest}

unfoldable pub stat_response_set_data : Text → StatResponse → StatResponse
stat_response_set_data value m = record m { stat_text = value }

unfoldable pub wstat_request_set_fid : ℕ → WStatRequest → WStatRequest
wstat_request_set_fid value m = record m { fid = value % 2 ^ 32 }

unfoldable pub wstat_request_set_stat : Stat → WStatRequest → WStatRequest
wstat_request_set_stat value m = record m { stat = value }
