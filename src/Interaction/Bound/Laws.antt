-- ===== src/Interaction/Bound/Laws.antt =====
-- Every request and every response is an alternative.
use libkzr.Prelude.{◌≡◌, refl}
use libkzr.Request.{Request, blank_request, version_request}
use libkzr.Response.{Response, blank_response, version_response}
use libkzr.Interaction.Bound.{hold_request, held_request, hold_response, held_response}

pub hold-held_request : (r : Request) → hold_request (held_request r) ≡ r
unfolding hold_request held_request
hold-held_request (blank_request h) = refl
hold-held_request (version_request m) = refl
hold-held_request _ = refl

pub hold-held_response : (r : Response) → hold_response (held_response r) ≡ r
unfolding hold_response held_response
hold-held_response (blank_response h) = refl
hold-held_response (version_response m) = refl
hold-held_response _ = refl
