-- ===== src/Message/File/Build/Walk.antt =====
-- The walk messages that fit the wire can be built by constructors, setters and `push_back`.
use libkzr.Prelude.{◌%◌, ◌^◌, ◌≡◌, sym, ◌∙◌, List, [], ◌∷◌, ◌++◌, append-nil, append_assoc, arith}
use libkzr.Operations.{translate_concept, request, response, walk}
use libkzr.MessageStream.{Text}
use libkzr.Message.Parts.{Qid}
use libkzr.Message.Parts.Build.{build_header, build_header_lem}
use libkzr.Message.Fresh.{fresh_walk_request, fresh_walk_response}
use libkzr.Message.File.{WalkRequest, WalkResponse}
use libkzr.Message.File.Wire.{IsWalkRequest, IsWalkResponse}
use libkzr.Message.Accessors.{set_fid, set_newfid, push_name}
use libkzr.Message.File.Setters.{walk_response_push_qid}

-- One call of `push_back` for each name.
unfoldable pub push_names : List Text → WalkRequest → WalkRequest
push_names [] m = m
push_names (t ∷ ts) m = push_names ts (push_name t m)

push_names_lem :
    (ts : List Text) (m : WalkRequest) → push_names ts m ≡ record m { wname = m.wname ++ ts }
unfolding push_names push_name
push_names_lem [] m = λ i. record m { wname = sym (append-nil m.wname) i }
push_names_lem (t ∷ ts) m =
    push_names_lem ts (record m { wname = m.wname ++ t ∷ [] })
    ∙ (λ i. record m { wname = append_assoc m.wname (t ∷ []) ts i })

unfoldable pub build_walk_request : WalkRequest → WalkRequest
build_walk_request m = push_names m.wname (
    set_newfid m.newfid
      (set_fid m.fid (record (fresh_walk_request) { header = build_header walk request m.header })))

pub build_walk_request_lem :
    (m : WalkRequest)
    → IsWalkRequest m
    → translate_concept walk request ≡ m.header.op
    → build_walk_request m ≡ m
unfolding build_walk_request fresh_walk_request set_fid set_newfid
build_walk_request_lem m w e =
    let p_fid : m.fid % 2 ^ 32 ≡ m.fid = omega (arith, w.fid_fits) in
    let p_newfid : m.newfid % 2 ^ 32 ≡ m.newfid = omega (arith, w.newfid_fits) in
    let p_header = build_header_lem walk request m.header w.header_fits e in
    push_names_lem m.wname _
    ∙ (λ i. record { header = p_header i; fid = p_fid i; newfid = p_newfid i; wname = m.wname })

unfoldable pub push_qids : List Qid → WalkResponse → WalkResponse
push_qids [] m = m
push_qids (q ∷ qs) m = push_qids qs (walk_response_push_qid q m)

push_qids_lem :
    (qs : List Qid) (m : WalkResponse) → push_qids qs m ≡ record m { wqid = m.wqid ++ qs }
unfolding push_qids walk_response_push_qid
push_qids_lem [] m = λ i. record m { wqid = sym (append-nil m.wqid) i }
push_qids_lem (q ∷ qs) m =
    push_qids_lem qs (record m { wqid = m.wqid ++ q ∷ [] })
    ∙ (λ i. record m { wqid = append_assoc m.wqid (q ∷ []) qs i })

unfoldable pub build_walk_response : WalkResponse → WalkResponse
build_walk_response m =
    push_qids m.wqid (record (fresh_walk_response) { header = build_header walk response m.header })

pub build_walk_response_lem :
    (m : WalkResponse)
    → IsWalkResponse m
    → translate_concept walk response ≡ m.header.op
    → build_walk_response m ≡ m
unfolding build_walk_response fresh_walk_response
build_walk_response_lem m w e =
    let p_header = build_header_lem walk response m.header w.header_fits e in
    push_qids_lem m.wqid _ ∙ (λ i. record { header = p_header i; wqid = m.wqid })
