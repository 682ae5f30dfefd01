-- ===== src/Interaction/Texts.antt =====
-- Which interactions survive the wire: the texts never do, and all else does if the compiler evaluates
-- arguments from left to right.
use libkzr.Prelude.{◌≡◌, ◌↔◌, refl, sym, ap, ap₂, ◌∙◌, List, [], ◌∷◌, map, All}
use libkzr.MessageStream.{Text, ArgumentOrder, left_to_right, overlay}
use libkzr.MessageStream.Wire.{u64_as_read}
use libkzr.Message.Parts.{Qid}
use libkzr.Message.Parts.Wire.{received_qid, received_stat}
use libkzr.Message.Fresh.{
  fresh_attach_request, fresh_authentication_request, fresh_create_request, fresh_error_response,
  fresh_read_response, fresh_stat_response, fresh_version_message, fresh_wstat_request,
  fresh_walk_request, fresh_walk_response, fresh_write_request,
}
use libkzr.Message.Session.Wire.{
  received_error_response, received_version_message, received_authentication_request,
  received_authentication_response, received_attach_request, received_attach_response,
}
use libkzr.Message.File.Wire.{
  received_walk_request, received_walk_response, received_open_or_create_response,
  received_create_request, received_read_request, received_read_response, received_write_request,
}
use libkzr.Message.Metadata.Wire.{received_stat_response, received_wstat_request}
use libkzr.Request.{
  Request, blank_request, version_request, auth_request, attach_request, error_request,
  flush_request, walk_request, open_request, create_request, read_request, write_request,
  clunk_request, remove_request, stat_request, wstat_request,
}
use libkzr.Response.{
  Response, blank_response, version_response, auth_response, attach_response, error_response,
  flush_response, walk_response, open_response, create_response, read_response, write_response,
  clunk_response, remove_response, stat_response, wstat_response,
}
use libkzr.Interaction.{Interaction, of_request, of_response}
use libkzr.Interaction.Wire.{received_request, received_response, received_interaction}

-- The texts that a request holds.
unfoldable pub request_texts : Request → List Text
request_texts (blank_request h) = []
request_texts (version_request m) = m.version ∷ []
request_texts (auth_request m) = m.uname ∷ m.aname ∷ []
request_texts (attach_request m) = m.uname ∷ m.aname ∷ []
request_texts (error_request m) = []
request_texts (flush_request m) = []
request_texts (walk_request m) = m.wname
request_texts (open_request m) = []
request_texts (create_request m) = m.name ∷ []
request_texts (read_request m) = []
request_texts (write_request m) = []
request_texts (clunk_request m) = []
request_texts (remove_request m) = []
request_texts (stat_request m) = []
request_texts (wstat_request m) = m.stat.name ∷ m.stat.uid ∷ m.stat.gid ∷ m.stat.muid ∷ []

-- The texts that a response holds.
unfoldable pub response_texts : Response → List Text
response_texts (blank_response h) = []
response_texts (version_response m) = m.version ∷ []
response_texts (auth_response m) = []
response_texts (attach_response m) = []
response_texts (error_response m) = m.ename ∷ []
response_texts (flush_response m) = []
response_texts (walk_response m) = []
response_texts (open_response m) = []
response_texts (create_response m) = []
response_texts (read_response m) = []
response_texts (write_response m) = []
response_texts (clunk_response m) = []
response_texts (remove_response m) = []
response_texts (stat_response m) = m.stat_text ∷ []
response_texts (wstat_response m) = []

unfoldable pub texts : Interaction → List Text
texts (of_request r) = request_texts r
texts (of_response r) = response_texts r

All-empty : (xs : List Text) → All (λ t. t ≡ []) xs → map (λ s. overlay s []) xs ≡ xs
All-empty [] h = refl
All-empty (x ∷ xs) (hx, h) = ap₂ (λ y ys. y ∷ ys) (sym hx) (All-empty xs h)

empty_map : (xs : List Text) → map (λ s. overlay s []) xs ≡ xs → All (λ t. t ≡ []) xs
empty_map [] h = tt
empty_map (x ∷ xs) h = (sym (cc h), empty_map xs (cc h))

same_qids : (xs : List Qid) → map (received_qid left_to_right) xs ≡ xs
unfolding received_qid u64_as_read
same_qids [] = refl
same_qids (q ∷ xs) = ap (λ qs. q ∷ qs) (same_qids xs)

request_texts-received_request :
    (order : ArgumentOrder) (r : Request)
    → request_texts (received_request order r) ≡ map (λ s. overlay s []) (request_texts r)
unfolding request_texts received_request received_stat received_attach_request
    received_authentication_request received_create_request received_read_request
    received_version_message received_walk_request received_write_request received_wstat_request
    fresh_attach_request fresh_authentication_request fresh_create_request fresh_version_message
    fresh_walk_request fresh_write_request fresh_wstat_request
request_texts-received_request order (blank_request h) = refl
request_texts-received_request order (version_request m) = refl
request_texts-received_request order (auth_request m) = refl
request_texts-received_request order (attach_request m) = refl
request_texts-received_request order (error_request m) = refl
request_texts-received_request order (flush_request m) = refl
request_texts-received_request order (walk_request m) = refl
request_texts-received_request order (open_request m) = refl
request_texts-received_request order (create_request m) = refl
request_texts-received_request order (read_request m) = refl
request_texts-received_request order (write_request m) = refl
request_texts-received_request order (clunk_request m) = refl
request_texts-received_request order (remove_request m) = refl
request_texts-received_request order (stat_request m) = refl
request_texts-received_request order (wstat_request m) = refl

received_request_same :
    (r : Request) → All (λ t. t ≡ []) (request_texts r) → received_request left_to_right r ≡ r
unfolding request_texts received_request received_stat received_qid u64_as_read
    received_attach_request received_authentication_request received_create_request
    received_read_request received_version_message received_walk_request received_write_request
    received_wstat_request fresh_attach_request fresh_authentication_request fresh_create_request
    fresh_version_message fresh_walk_request fresh_write_request fresh_wstat_request
received_request_same (blank_request h) e = refl
received_request_same (version_request m) e =
    λ i. version_request (record m { version = sym e.0 i })
received_request_same (auth_request m) e =
    λ i. auth_request (record m { uname = sym e.0 i; aname = sym e.1.0 i })
received_request_same (attach_request m) e =
    λ i. attach_request (record m { uname = sym e.0 i; aname = sym e.1.0 i })
received_request_same (error_request m) e = refl
received_request_same (flush_request m) e = refl
received_request_same (walk_request m) e =
    λ i. walk_request (record m { wname = All-empty m.wname e i })
received_request_same (open_request m) e = refl
received_request_same (create_request m) e = λ i. create_request (record m { name = sym e.0 i })
received_request_same (read_request m) e = refl
received_request_same (write_request m) e = refl
received_request_same (clunk_request m) e = refl
received_request_same (remove_request m) e = refl
received_request_same (stat_request m) e = refl
received_request_same (wstat_request m) e = λ i. wstat_request (record m {
  stat = record m.stat {
    name = sym e.0 i;
    uid = sym e.1.0 i;
    gid = sym e.1.1.0 i;
    muid = sym e.1.1.1.0 i;
  };
})

response_texts-received_response :
    (order : ArgumentOrder) (r : Response)
    → response_texts (received_response order r) ≡ map (λ s. overlay s []) (response_texts r)
unfolding response_texts received_response received_stat received_attach_response
    received_authentication_response received_error_response received_open_or_create_response
    received_read_response received_stat_response received_version_message received_walk_response
    fresh_error_response fresh_read_response fresh_stat_response fresh_version_message
    fresh_walk_response
response_texts-received_response order (blank_response h) = refl
response_texts-received_response order (version_response m) = refl
response_texts-received_response order (auth_response m) = refl
response_texts-received_response order (attach_response m) = refl
response_texts-received_response order (error_response m) = refl
response_texts-received_response order (flush_response m) = refl
response_texts-received_response order (walk_response m) = refl
response_texts-received_response order (open_response m) = refl
response_texts-received_response order (create_response m) = refl
response_texts-received_response order (read_response m) = refl
response_texts-received_response order (write_response m) = refl
response_texts-received_response order (clunk_response m) = refl
response_texts-received_response order (remove_response m) = refl
response_texts-received_response order (stat_response m) = refl
response_texts-received_response order (wstat_response m) = refl

received_response_same :
    (r : Response) → All (λ t. t ≡ []) (response_texts r) → received_response left_to_right r ≡ r
unfolding response_texts received_response received_stat received_qid u64_as_read
    received_attach_response received_authentication_response received_error_response
    received_open_or_create_response received_read_response received_stat_response
    received_version_message received_walk_response fresh_error_response fresh_read_response
    fresh_stat_response fresh_version_message fresh_walk_response
received_response_same (blank_response h) e = refl
received_response_same (version_response m) e =
    λ i. version_response (record m { version = sym e.0 i })
received_response_same (auth_response m) e = refl
received_response_same (attach_response m) e = refl
received_response_same (error_response m) e = λ i. error_response (record m { ename = sym e.0 i })
received_response_same (flush_response m) e = refl
received_response_same (walk_response m) e =
    λ i. walk_response (record m { wqid = same_qids m.wqid i })
received_response_same (open_response m) e = refl
received_response_same (create_response m) e = refl
received_response_same (read_response m) e = refl
received_response_same (write_response m) e = refl
received_response_same (clunk_response m) e = refl
received_response_same (remove_response m) e = refl
received_response_same (stat_response m) e = λ i. stat_response (record m { stat_text = sym e.0 i })
received_response_same (wstat_response m) e = refl

-- Whatever was sent, every text arrives empty: as many texts, and none with a character.
pub texts-received_interaction :
    (order : ArgumentOrder) (x : Interaction)
    → texts (received_interaction order x) ≡ map (λ s. overlay s []) (texts x)
unfolding texts received_interaction
texts-received_interaction order (of_request r) = request_texts-received_request order r
texts-received_interaction order (of_response r) = response_texts-received_response order r

received_interaction_same :
    (x : Interaction) → All (λ t. t ≡ []) (texts x) → received_interaction left_to_right x ≡ x
unfolding texts received_interaction
received_interaction_same (of_request r) e = ap of_request (received_request_same r e)
received_interaction_same (of_response r) e = ap of_response (received_response_same r e)

-- With arguments evaluated from left to right, an interaction arrives as it was sent exactly when all
-- its texts are empty.
pub received_interaction-eq_iff :
    (x : Interaction) → (received_interaction left_to_right x ≡ x) ↔ All (λ t. t ≡ []) (texts x)
received_interaction-eq_iff x = (
  λ same. empty_map (texts x) (sym (texts-received_interaction left_to_right x) ∙ ap texts same),
  received_interaction_same x,
)
