-- ===== src/Message/Metadata/Prefix.antt =====
-- No encoding of a message of Metadata.antt is the beginning of another of the same class.
use libkzr.Prelude.{refl}
use libkzr.MessageStream.Prefix.{
  PrefixFree, part, both, whole, number-PrefixFree, string-PrefixFree,
}
use libkzr.Message.Parts.Prefix.{IsHeader-PrefixFree, IsStat-PrefixFree}
use libkzr.Message.Metadata.Wire.{
  IsStatResponse, stat_response_bytes, IsWStatRequest, wstat_request_bytes,
}
use libkzr.Message.Metadata.{StatResponse, WStatRequest}

pub IsStatResponse-PrefixFree : PrefixFree IsStatResponse stat_response_bytes
unfolding stat_response_bytes
IsStatResponse-PrefixFree =
    whole
      (both (part IsHeader-PrefixFree (λ (m : StatResponse). m.header) (λ m w. w.header_fits))
        (part string-PrefixFree (λ (m : StatResponse). m.stat_text) (λ m w. w.stat_text_fits)))
      (λ (x_header, x_stat_text). record { header = x_header; stat_text = x_stat_text }) (λ m. refl)

pub wstat_request-PrefixFree : PrefixFree IsWStatRequest wstat_request_bytes
unfolding wstat_request_bytes
wstat_request-PrefixFree =
    whole
      (both (part IsHeader-PrefixFree (λ (m : WStatRequest). m.header) (λ m w. w.header_fits)) (
        both (part (number-PrefixFree 4) (λ (m : WStatRequest). m.fid) (λ m w. w.fid_fits))
          (part IsStat-PrefixFree (λ (m : WStatRequest). m.stat) (λ m w. w.stat_fits))))
      (λ (x_header, (x_fid, x_stat)). record { header = x_header; fid = x_fid; stat = x_stat })
      (λ m. refl)
