-- ===== src/Message/Metadata/Build.antt =====
-- The messages of Metadata.antt that fit the wire can be built by constructors and setters.
use libkzr.Prelude.{◌%◌, ◌^◌, ◌≡◌, arith}
use libkzr.Operations.{translate_concept, request, response, stat, wstat}
use libkzr.Message.Parts.Build.{build_stat, build_stat_lem, build_header, build_header_lem}
use libkzr.Message.Fresh.{fresh_stat_response, fresh_wstat_request}
use libkzr.Message.Metadata.{StatResponse, WStatRequest}
use libkzr.Message.Metadata.Wire.{IsStatResponse, IsWStatRequest}
use libkzr.Message.Metadata.Setters.{
  stat_response_set_data, wstat_request_set_fid, wstat_request_set_stat,
}

unfoldable pub build_stat_response : StatResponse → StatResponse
build_stat_response m =
    stat_response_set_data m.stat_text
      (record (fresh_stat_response) { header = build_header stat response m.header })

pub build_stat_response_lem :
    (m : StatResponse)
    → IsStatResponse m
    → translate_concept stat response ≡ m.header.op
    → build_stat_response m ≡ m
unfolding build_stat_response fresh_stat_response stat_response_set_data
build_stat_response_lem m w e =
    let p_header = build_header_lem stat response m.header w.header_fits e in
    λ i. record { header = p_header i; stat_text = m.stat_text }

unfoldable pub build_wstat_request : WStatRequest → WStatRequest
build_wstat_request m = wstat_request_set_stat (build_stat m.stat) (
    wstat_request_set_fid m.fid
      (record (fresh_wstat_request) { header = build_header wstat request m.header }))

pub build_wstat_request_lem :
    (m : WStatRequest)
    → IsWStatRequest m
    → translate_concept wstat request ≡ m.header.op
    → build_wstat_request m ≡ m
unfolding build_wstat_request fresh_wstat_request wstat_request_set_fid wstat_request_set_stat
build_wstat_request_lem m w e =
    let p_fid : m.fid % 2 ^ 32 ≡ m.fid = omega (arith, w.fid_fits) in
    let p_stat = build_stat_lem m.stat w.stat_fits in
    let p_header = build_header_lem wstat request m.header w.header_fits e in
    λ i. record { header = p_header i; fid = p_fid i; stat = p_stat i }
