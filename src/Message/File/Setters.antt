-- ===== src/Message/File/Setters.antt =====
-- The setters of the messages of File.antt. A number is converted to the width of the parameter that
-- takes it.
use libkzr.Prelude.{ℕ, ◌%◌, ◌^◌, List, [], ◌∷◌, ◌++◌}
use libkzr.Prelude.Bytes.{Byte}
use libkzr.MessageStream.{Text}
use libkzr.Message.Parts.{Qid}
use libkzr.Message.File.{
  WalkResponse, OpenRequest, OpenOrCreateResponse, CreateRequest, FidRequest, ReadRequest,
  ReadResponse, WriteRequest, WriteResponse,
}

-- `getWqid().push_back(qid)`
unfoldable pub walk_response_push_qid : Qid → WalkResponse → WalkResponse
walk_response_push_qid qid m = record m { wqid = m.wqid ++ qid ∷ [] }

unfoldable pub open_request_set_fid : ℕ → OpenRequest → OpenRequest
open_request_set_fid value m = record m { fid = value % 2 ^ 32 }

unfoldable pub open_request_set_mode : ℕ → OpenRequest → OpenRequest
open_request_set_mode value m = record m { mode = value % 2 ^ 8 }

unfoldable pub open_or_create_response_set_qid : Qid → OpenOrCreateResponse → OpenOrCreateResponse
open_or_create_response_set_qid value m = record m { qid = value }

unfoldable pub open_or_create_response_set_iounit : ℕ → OpenOrCreateResponse → OpenOrCreateResponse
open_or_create_response_set_iounit value m = record m { iounit = value % 2 ^ 32 }

unfoldable pub create_request_set_fid : ℕ → CreateRequest → CreateRequest
create_request_set_fid value m = record m { fid = value % 2 ^ 32 }

unfoldable pub create_request_set_name : Text → CreateRequest → CreateRequest
create_request_set_name value m = record m { name = value }

unfoldable pub create_request_set_permissions : ℕ → CreateRequest → CreateRequest
create_request_set_permissions value m = record m { perm = value % 2 ^ 32 }

unfoldable pub create_request_set_mode : ℕ → CreateRequest → CreateRequest
create_request_set_mode value m = record m { mode = value % 2 ^ 8 }

unfoldable pub fid_request_set_fid : ℕ → FidRequest → FidRequest
fid_request_set_fid value m = record m { fid = value % 2 ^ 32 }

unfoldable pub read_request_set_fid : ℕ → ReadRequest → ReadRequest
read_request_set_fid value m = record m { fid = value % 2 ^ 32 }

unfoldable pub read_request_set_offset : ℕ → ReadRequest → ReadRequest
read_request_set_offset value m = record m { offset = value % 2 ^ 64 }

unfoldable pub read_request_set_count : ℕ → ReadRequest → ReadRequest
read_request_set_count value m = record m { count = value % 2 ^ 32 }

-- `getData() = bytes`
unfoldable pub read_response_assign_data : List Byte → ReadResponse → ReadResponse
read_response_assign_data bytes m = record m { stored = bytes }

unfoldable pub write_request_set_fid : ℕ → WriteRequest → WriteRequest
write_request_set_fid value m = record m { fid = value % 2 ^ 32 }

unfoldable pub write_request_set_offset : ℕ → WriteRequest → WriteRequest
write_request_set_offset value m = record m { offset = value % 2 ^ 64 }

-- `getData() = bytes`
unfoldable pub write_request_assign_data : List Byte → WriteRequest → WriteRequest
write_request_assign_data bytes m = record m { stored = bytes }

unfoldable pub write_response_set_count : ℕ → WriteResponse → WriteResponse
write_response_set_count value m = record m { count = value % 2 ^ 32 }
