-- ===== src/Message/Layout.antt =====
-- The layout of every message of Message.h, as the parts that it is made of.
pub mod Parts
pub mod Encode
use libkzr.Prelude.{Option, none, some, List, [], ◌∷◌, ◌++◌, length}
use libkzr.Prelude.Bytes.{Byte}
use libkzr.Outcome.{Exception}
use libkzr.MessageStream.{Text}
use libkzr.MessageStream.Layout.{
  Part, number, text, count, size, refused, concat_map, written, first_refusal,
}
use libkzr.Message.Parts.{MessageHeader, Qid, Stat}
use libkzr.Message.Session.{
  ErrorResponse, VersionMessage, AuthenticationRequest, AuthenticationResponse, FlushRequest,
  AttachRequest, AttachResponse,
}
use libkzr.Message.File.{
  WalkRequest, WalkResponse, OpenRequest, OpenOrCreateResponse, CreateRequest, FidRequest,
  ReadRequest, ReadResponse, WriteRequest, WriteResponse,
}
use libkzr.Message.Metadata.{StatResponse, WStatRequest}

abbrev pub header_parts : MessageHeader → List Part
header_parts h = number 1 h.op ∷ number 2 h.tag ∷ []

abbrev pub qid_parts : Qid → List Part
qid_parts q = number 1 q.type ∷ number 4 q.version ∷ number 8 q.path ∷ []

abbrev pub text_parts : Text → List Part
text_parts t = text t ∷ []

abbrev pub byte_parts : Byte → List Part
byte_parts b = number 1 b ∷ []

abbrev pub vector_parts : {A : Type 0} → (A → List Part) → List A → List Part
vector_parts f xs = count (length xs) ∷ concat_map f xs

abbrev pub storage_parts : List Byte → List Part
storage_parts bs = size (length bs) ∷ concat_map byte_parts bs

unfoldable pub stat_member_parts : Stat → List Part
stat_member_parts m =
    number 2 m.type
    ∷ number 4 m.dev
    ∷ (qid_parts m.qid
        ++ (number 4 m.mode
            ∷ number 4 m.atime
            ∷ number 4 m.mtime
            ∷ number 8 m.length
            ∷ text m.name
            ∷ text m.uid
            ∷ text m.gid
            ∷ text m.muid
            ∷ []))

abbrev pub unless_members_refused : Option Exception → List Byte → List Part
unless_members_refused none bs = text bs ∷ []
unless_members_refused (some e) bs = refused e ∷ []

-- The members of a Stat are one text; where a member is refused, nothing of the Stat is written.
unfoldable pub stat_parts : Stat → List Part
unfolding stat_member_parts written first_refusal
stat_parts m =
    unless_members_refused (first_refusal (stat_member_parts m)) (written (stat_member_parts m))

unfoldable pub error_response_parts : ErrorResponse → List Part
error_response_parts m = header_parts m.header ++ (text m.ename ∷ [])

unfoldable pub version_message_parts : VersionMessage → List Part
version_message_parts m = header_parts m.header ++ (number 2 m.msize ∷ text m.version ∷ [])

unfoldable pub authentication_request_parts : AuthenticationRequest → List Part
authentication_request_parts m =
    header_parts m.header ++ (number 4 m.afid ∷ text m.uname ∷ text m.aname ∷ [])

unfoldable pub authentication_response_parts : AuthenticationResponse → List Part
authentication_response_parts m = header_parts m.header ++ (qid_parts m.qid)

unfoldable pub flush_request_parts : FlushRequest → List Part
flush_request_parts m = header_parts m.header ++ (number 2 m.oldtag ∷ [])

unfoldable pub attach_request_parts : AttachRequest → List Part
attach_request_parts m =
    header_parts m.header ++ (number 4 m.fid ∷ number 4 m.afid ∷ text m.uname ∷ text m.aname ∷ [])

unfoldable pub attach_response_parts : AttachResponse → List Part
attach_response_parts m = header_parts m.header ++ (qid_parts m.qid)

unfoldable pub walk_request_parts : WalkRequest → List Part
walk_request_parts m =
    header_parts m.header
    ++ (number 4 m.fid ∷ number 4 m.newfid ∷ (vector_parts text_parts m.wname))

unfoldable pub walk_response_parts : WalkResponse → List Part
walk_response_parts m = header_parts m.header ++ (vector_parts qid_parts m.wqid)

unfoldable pub open_request_parts : OpenRequest → List Part
open_request_parts m = header_parts m.header ++ (number 4 m.fid ∷ number 1 m.mode ∷ [])

unfoldable pub open_or_create_response_parts : OpenOrCreateResponse → List Part
open_or_create_response_parts m =
    header_parts m.header ++ (qid_parts m.qid ++ (number 4 m.iounit ∷ []))

unfoldable pub create_request_parts : CreateRequest → List Part
create_request_parts m =
    header_parts m.header ++ (number 4 m.fid ∷ text m.name ∷ number 4 m.perm ∷ number 1 m.mode ∷ [])

unfoldable pub fid_request_parts : FidRequest → List Part
fid_request_parts m = header_parts m.header ++ (number 4 m.fid ∷ [])

unfoldable pub read_request_parts : ReadRequest → List Part
read_request_parts m =
    header_parts m.header ++ (number 4 m.fid ∷ number 8 m.offset ∷ number 4 m.count ∷ [])

unfoldable pub read_response_parts : ReadResponse → List Part
read_response_parts m = header_parts m.header ++ (storage_parts m.stored)

unfoldable pub write_request_parts : WriteRequest → List Part
write_request_parts m =
    header_parts m.header ++ (number 4 m.fid ∷ number 8 m.offset ∷ (storage_parts m.stored))

unfoldable pub write_response_parts : WriteResponse → List Part
write_response_parts m = header_parts m.header ++ (number 4 m.count ∷ [])

unfoldable pub stat_response_parts : StatResponse → List Part
stat_response_parts m = header_parts m.header ++ (text m.stat_text ∷ [])

unfoldable pub wstat_request_parts : WStatRequest → List Part
unfolding stat_parts
wstat_request_parts m = header_parts m.header ++ (number 4 m.fid ∷ (stat_parts m.stat))
