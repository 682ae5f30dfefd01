-- ===== src/Message/Fresh.antt =====
-- The objects that `emplace<T>()` makes: numbers are 0, texts and vectors empty, and the header is that
-- of the class's kind and direction, without a tag.
use libkzr.Prelude.{[]}
use libkzr.Operations.{
  ConceptualOperation, MessageDirection, auth, attach, error, flush, walk, read, write, create,
  stat, wstat, open_, request, response,
}
use libkzr.Message.Parts.{fresh_header, fresh_qid, fresh_stat}
use libkzr.Message.Session.{
  ErrorResponse, VersionMessage, AuthenticationRequest, AuthenticationResponse, FlushRequest,
  AttachRequest, AttachResponse,
}
use libkzr.Message.File.{
  WalkRequest, WalkResponse, OpenRequest, OpenOrCreateResponse, CreateRequest, FidRequest,
  ReadRequest, ReadResponse, WriteRequest, WriteResponse,
}
use libkzr.Message.Metadata.{StatResponse, WStatRequest}

unfoldable pub fresh_error_response : ErrorResponse
unfolding fresh_header
fresh_error_response = record { header = fresh_header error response; ename = [] }

unfoldable pub fresh_version_message : ConceptualOperation → MessageDirection → VersionMessage
unfolding fresh_header
fresh_version_message op dir = record { header = fresh_header op dir; msize = 0; version = [] }

unfoldable pub fresh_authentication_request : AuthenticationRequest
unfolding fresh_header
fresh_authentication_request = record {
  header = fresh_header auth request;
  afid = 0;
  uname = [];
  aname = [];
}

unfoldable pub fresh_authentication_response : AuthenticationResponse
unfolding fresh_header
fresh_authentication_response = record { header = fresh_header auth response; qid = fresh_qid }

unfoldable pub fresh_flush_request : FlushRequest
unfolding fresh_header
fresh_flush_request = record { header = fresh_header flush request; oldtag = 0 }

unfoldable pub fresh_attach_request : AttachRequest
unfolding fresh_header
fresh_attach_request = record {
  header = fresh_header attach request;
  fid = 0;
  afid = 0;
  uname = [];
  aname = [];
}

unfoldable pub fresh_attach_response : AttachResponse
unfolding fresh_header
fresh_attach_response = record { header = fresh_header attach response; qid = fresh_qid }

unfoldable pub fresh_walk_request : WalkRequest
unfolding fresh_header
fresh_walk_request = record { header = fresh_header walk request; fid = 0; newfid = 0; wname = [] }

unfoldable pub fresh_walk_response : WalkResponse
unfolding fresh_header
fresh_walk_response = record { header = fresh_header walk response; wqid = [] }

unfoldable pub fresh_open_request : OpenRequest
unfolding fresh_header
fresh_open_request = record { header = fresh_header open_ request; fid = 0; mode = 0 }

unfoldable pub fresh_open_or_create_response :
    ConceptualOperation → MessageDirection → OpenOrCreateResponse
unfolding fresh_header
fresh_open_or_create_response op dir = record {
  header = fresh_header op dir;
  qid = fresh_qid;
  iounit = 0;
}

unfoldable pub fresh_create_request : CreateRequest
unfolding fresh_header
fresh_create_request = record {
  header = fresh_header create request;
  fid = 0;
  name = [];
  perm = 0;
  mode = 0;
}

unfoldable pub fresh_fid_request : ConceptualOperation → MessageDirection → FidRequest
unfolding fresh_header
fresh_fid_request op dir = record { header = fresh_header op dir; fid = 0 }

unfoldable pub fresh_read_request : ReadRequest
unfolding fresh_header
fresh_read_request = record { header = fresh_header read request; fid = 0; offset = 0; count = 0 }

unfoldable pub fresh_read_response : ReadResponse
unfolding fresh_header
fresh_read_response = record { header = fresh_header read response; stored = [] }

unfoldable pub fresh_write_request : WriteRequest
unfolding fresh_header
fresh_write_request = record {
  header = fresh_header write request;
  fid = 0;
  offset = 0;
  stored = [];
}

unfoldable pub fresh_write_response : WriteResponse
unfolding fresh_header
fresh_write_response = record { header = fresh_header write response; count = 0 }

unfoldable pub fresh_stat_response : StatResponse
unfolding fresh_header
fresh_stat_response = record { header = fresh_header stat response; stat_text = [] }

unfoldable pub fresh_wstat_request : WStatRequest
unfolding fresh_header
fresh_wstat_request = record { header = fresh_header wstat request; fid = 0; stat = fresh_stat }
