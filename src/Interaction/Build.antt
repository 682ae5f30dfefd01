-- ===== src/Interaction/Build.antt =====
-- Every interaction that fits the wire can be built with the constructors and setters of Message.h, but for
-- version messages with a tag of their own.
use libkzr.Prelude.{◌≡◌, refl, sym, ap}
use libkzr.Operations.{request, response, error, flush, open_, create, clunk, remove, stat, wstat}
use libkzr.MessageStream.{notag}
use libkzr.Message.Parts.Build.{build_header, build_header_lem}
use libkzr.Message.Session.Build.{
  build_error_response, build_error_response_lem, build_version_message, build_version_message_lem,
  build_authentication_request, build_authentication_request_lem, build_authentication_response,
  build_authentication_response_lem, build_flush_request, build_flush_request_lem,
  build_attach_request, build_attach_request_lem, build_attach_response, build_attach_response_lem,
}
use libkzr.Message.File.Build.Walk.{
  build_walk_request, build_walk_request_lem, build_walk_response, build_walk_response_lem,
}
use libkzr.Message.File.Build.{
  build_open_request, build_open_request_lem, build_open_or_create_response,
  build_open_or_create_response_lem, build_create_request, build_create_request_lem,
  build_fid_request, build_fid_request_lem, build_read_request, build_read_request_lem,
  build_read_response, build_read_response_lem, build_write_request, build_write_request_lem,
  build_write_response, build_write_response_lem,
}
use libkzr.Message.Metadata.Build.{
  build_stat_response, build_stat_response_lem, build_wstat_request, build_wstat_request_lem,
}
use libkzr.Request.{
  Request, blank_request, version_request, auth_request, attach_request, error_request,
  flush_request, walk_request, open_request, create_request, read_request, write_request,
  clunk_request, remove_request, stat_request, wstat_request,
}
use libkzr.Response.{
  Response, blank_response, version_response, auth_response, attach_response, error_response,
  flush_response, walk_response, open_response, create_response, read_response, write_response,
  clunk_response, remove_response, stat_response, wstat_response,
}
use libkzr.Interaction.{Interaction, of_request, of_response}
use libkzr.Interaction.Wire.{IsRequest, IsResponse, IsInteraction}

unfoldable pub build_request : Request → Request
build_request (blank_request h) = blank_request h
build_request (version_request m) = version_request (build_version_message request m)
build_request (auth_request m) = auth_request (build_authentication_request m)
build_request (attach_request m) = attach_request (build_attach_request m)
build_request (error_request m) = error_request (build_header error request m)
build_request (flush_request m) = flush_request (build_flush_request m)
build_request (walk_request m) = walk_request (build_walk_request m)
build_request (open_request m) = open_request (build_open_request m)
build_request (create_request m) = create_request (build_create_request m)
build_request (read_request m) = read_request (build_read_request m)
build_request (write_request m) = write_request (build_write_request m)
build_request (clunk_request m) = clunk_request (build_fid_request clunk m)
build_request (remove_request m) = remove_request (build_fid_request remove m)
build_request (stat_request m) = stat_request (build_fid_request stat m)
build_request (wstat_request m) = wstat_request (build_wstat_request m)

unfoldable pub build_response : Response → Response
build_response (blank_response h) = blank_response h
build_response (version_response m) = version_response (build_version_message response m)
build_response (auth_response m) = auth_response (build_authentication_response m)
build_response (attach_response m) = attach_response (build_attach_response m)
build_response (error_response m) = error_response (build_error_response m)
build_response (flush_response m) = flush_response (build_header flush response m)
build_response (walk_response m) = walk_response (build_walk_response m)
build_response (open_response m) = open_response (build_open_or_create_response open_ m)
build_response (create_response m) = create_response (build_open_or_create_response create m)
build_response (read_response m) = read_response (build_read_response m)
build_response (write_response m) = write_response (build_write_response m)
build_response (clunk_response m) = clunk_response (build_header clunk response m)
build_response (remove_response m) = remove_response (build_header remove response m)
build_response (stat_response m) = stat_response (build_stat_response m)
build_response (wstat_response m) = wstat_response (build_header wstat response m)

unfoldable pub build_interaction : Interaction → Interaction
unfolding build_request build_response
build_interaction (of_request r) = of_request (build_request r)
build_interaction (of_response r) = of_response (build_response r)

-- `VersionMessage::setTag` does nothing, so that the tag is the one of the constructor.
unfoldable pub HasOwnTag : Interaction → Type 0
HasOwnTag (of_request (version_request m)) = notag ≡ m.header.tag
HasOwnTag (of_response (version_response m)) = notag ≡ m.header.tag
HasOwnTag _ = Unit {0}

build_request_lem : (r : Request) → IsRequest r → HasOwnTag (of_request r) → build_request r ≡ r
unfolding build_request HasOwnTag
build_request_lem (blank_request h) w t = refl
build_request_lem (version_request m) w t =
    ap version_request (build_version_message_lem request m w.0 (sym w.1) t)
build_request_lem (auth_request m) w t =
    ap auth_request (build_authentication_request_lem m w.0 (sym w.1))
build_request_lem (attach_request m) w t =
    ap attach_request (build_attach_request_lem m w.0 (sym w.1))
build_request_lem (error_request m) w t =
    ap error_request (build_header_lem error request m w.0 (sym w.1))
build_request_lem (flush_request m) w t = ap flush_request (build_flush_request_lem m w.0 (sym w.1))
build_request_lem (walk_request m) w t = ap walk_request (build_walk_request_lem m w.0 (sym w.1))
build_request_lem (open_request m) w t = ap open_request (build_open_request_lem m w.0 (sym w.1))
build_request_lem (create_request m) w t =
    ap create_request (build_create_request_lem m w.0 (sym w.1))
build_request_lem (read_request m) w t = ap read_request (build_read_request_lem m w.0 (sym w.1))
build_request_lem (write_request m) w t = ap write_request (build_write_request_lem m w.0 (sym w.1))
build_request_lem (clunk_request m) w t =
    ap clunk_request (build_fid_request_lem clunk m w.0 (sym w.1))
build_request_lem (remove_request m) w t =
    ap remove_request (build_fid_request_lem remove m w.0 (sym w.1))
build_request_lem (stat_request m) w t =
    ap stat_request (build_fid_request_lem stat m w.0 (sym w.1))
build_request_lem (wstat_request m) w t = ap wstat_request (build_wstat_request_lem m w.0 (sym w.1))

build_response_lem :
    (r : Response) → IsResponse r → HasOwnTag (of_response r) → build_response r ≡ r
unfolding build_response HasOwnTag
build_response_lem (blank_response h) w t = refl
build_response_lem (version_response m) w t =
    ap version_response (build_version_message_lem response m w.0 (sym w.1) t)
build_response_lem (auth_response m) w t =
    ap auth_response (build_authentication_response_lem m w.0 (sym w.1))
build_response_lem (attach_response m) w t =
    ap attach_response (build_attach_response_lem m w.0 (sym w.1))
build_response_lem (error_response m) w t =
    ap error_response (build_error_response_lem m w.0 (sym w.1))
build_response_lem (flush_response m) w t =
    ap flush_response (build_header_lem flush response m w.0 (sym w.1))
build_response_lem (walk_response m) w t =
    ap walk_response (build_walk_response_lem m w.0 (sym w.1))
build_response_lem (open_response m) w t =
    ap open_response (build_open_or_create_response_lem open_ m w.0 (sym w.1))
build_response_lem (create_response m) w t =
    ap create_response (build_open_or_create_response_lem create m w.0 (sym w.1))
build_response_lem (read_response m) w t =
    ap read_response (build_read_response_lem m w.0 (sym w.1))
build_response_lem (write_response m) w t =
    ap write_response (build_write_response_lem m w.0 (sym w.1))
build_response_lem (clunk_response m) w t =
    ap clunk_response (build_header_lem clunk response m w.0 (sym w.1))
build_response_lem (remove_response m) w t =
    ap remove_response (build_header_lem remove response m w.0 (sym w.1))
build_response_lem (stat_response m) w t =
    ap stat_response (build_stat_response_lem m w.0 (sym w.1))
build_response_lem (wstat_response m) w t =
    ap wstat_response (build_header_lem wstat response m w.0 (sym w.1))

-- Every interaction that fits the wire, and is no version message with a tag other than NOTAG, is what
-- the constructor of its class makes once the setters of its members have been called with its values.
pub build_interaction_lem :
    (x : Interaction) → IsInteraction x → HasOwnTag x → build_interaction x ≡ x
unfolding build_interaction
build_interaction_lem (of_request r) w t = ap of_request (build_request_lem r w t)
build_interaction_lem (of_response r) w t = ap of_response (build_response_lem r w t)
