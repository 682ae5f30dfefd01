-- ===== src/Message/Session/Setters.antt =====
-- The setters of the messages of Session.antt. A number is converted to the width of the parameter that
-- takes it.
use libkzr.Prelude.{ℕ, ◌%◌, ◌^◌}
use libkzr.MessageStream.{Text}
use libkzr.Message.Parts.{Qid}
use libkzr.Message.Session.{
  ErrorResponse, AuthenticationRequest, AuthenticationResponse, FlushRequest, AttachRequest,
  AttachResponse,
}

unfoldable pub error_response_set_error_name : Text → ErrorResponse → ErrorResponse
error_response_set_error_name value m = record m { ename = value }

unfoldable pub authentication_request_set_authentication_handle :
    ℕ → AuthenticationRequest → AuthenticationRequest
authentication_request_set_authentication_handle value m = record m { afid = value % 2 ^ 32 }

unfoldable pub authentication_request_set_user_name :
    Text → AuthenticationRequest → AuthenticationRequest
authentication_request_set_user_name value m = record m { uname = value }

unfoldable pub authentication_request_set_attach_name :
    Text → AuthenticationRequest → AuthenticationRequest
authentication_request_set_attach_name value m = record m { aname = value }

unfoldable pub authentication_response_set_qid :
    Qid → AuthenticationResponse → AuthenticationResponse
authentication_response_set_qid value m = record m { qid = value }

unfoldable pub flush_request_set_old_tag : ℕ → FlushRequest → FlushRequest
flush_request_set_old_tag value m = record m { oldtag = value % 2 ^ 16 }

unfoldable pub attach_request_set_fid : ℕ → AttachRequest → AttachRequest
attach_request_set_fid value m = record m { fid = value % 2 ^ 32 }

unfoldable pub attach_request_set_authentication_handle : ℕ → AttachRequest → AttachRequest
attach_request_set_authentication_handle value m = record m { afid = value % 2 ^ 32 }

unfoldable pub attach_request_set_user_name : Text → AttachRequest → AttachRequest
attach_request_set_user_name value m = record m { uname = value }

unfoldable pub attach_request_set_attach_name : Text → AttachRequest → AttachRequest
attach_request_set_attach_name value m = record m { aname = value }

unfoldable pub attach_response_set_qid : Qid → AttachResponse → AttachResponse
attach_response_set_qid value m = record m { qid = value }
