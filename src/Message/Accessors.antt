-- ===== src/Message/Accessors.antt =====
-- The setters and tests of Message.h that a client builds and inspects messages with. A value is converted
-- to the width of the parameter that takes it. VersionMessage overrides setTag, and keeps its tag.
pub mod Header
pub mod Version
pub mod Walk
pub mod Sent
use libkzr.Prelude.{ℕ, ◌%◌, ◌^◌, Bool, true, false, not, List, [], ◌∷◌, ◌++◌, length, ◌==◌}
use libkzr.Operations
use libkzr.Operations.{
  ConceptualOperation, Operation, MessageDirection, is_request, is_response, convert,
  is_session_class, is_file_class, is_metadata_class,
}
use libkzr.MessageStream.{Text}
use libkzr.Message.Parts.{Qid, Stat, MessageHeader, set_tag}
use libkzr.Message.Session.{VersionMessage}
use libkzr.Message.File.{WalkRequest}

-- MessageHeader
unfoldable pub header_is_request : MessageHeader → Bool
header_is_request h = is_request h.op

unfoldable pub header_is_response : MessageHeader → Bool
header_is_response h = is_response h.op

unfoldable pub conceptual_operation : MessageHeader → ConceptualOperation
conceptual_operation h = convert h.op

abbrev pub is_error_kind : ConceptualOperation → Bool
is_error_kind Operations.error = true
is_error_kind _ = false

unfoldable pub is_error : MessageHeader → Bool
unfolding conceptual_operation
is_error h = is_error_kind (conceptual_operation h)

-- The overloads of the classes on an Operation.
unfoldable pub is_session_class_of : Operation → Bool
is_session_class_of op = is_session_class (convert op)

unfoldable pub is_file_class_of : Operation → Bool
is_file_class_of op = is_file_class (convert op)

unfoldable pub is_metadata_class_of : Operation → Bool
is_metadata_class_of op = is_metadata_class (convert op)

-- VersionMessage
unfoldable pub version_set_tag : ℕ → VersionMessage → VersionMessage
version_set_tag value m = m

unfoldable pub set_msize : ℕ → VersionMessage → VersionMessage
set_msize value m = record m { msize = value % 2 ^ 16 }

unfoldable pub set_version : Text → VersionMessage → VersionMessage
set_version value m = record m { version = value }

-- WalkRequest
unfoldable pub walk_set_tag : ℕ → WalkRequest → WalkRequest
unfolding set_tag
walk_set_tag value m = record m { header = set_tag value m.header }

unfoldable pub set_fid : ℕ → WalkRequest → WalkRequest
set_fid value m = record m { fid = value % 2 ^ 32 }

unfoldable pub set_newfid : ℕ → WalkRequest → WalkRequest
set_newfid value m = record m { newfid = value % 2 ^ 32 }

-- `getWname().push_back(name)`
unfoldable pub push_name : Text → WalkRequest → WalkRequest
push_name name m = record m { wname = m.wname ++ name ∷ [] }

unfoldable pub is_directory_traversal : WalkRequest → Bool
is_directory_traversal m = not (length m.wname == 0)

unfoldable pub is_fid_clone : WalkRequest → Bool
unfolding is_directory_traversal
is_fid_clone m = not (is_directory_traversal m)
