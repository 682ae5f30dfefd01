-- ===== src/Interaction/CutOff.antt =====
-- Decoding an interaction of which the stream holds no more than a part of the header.
use libkzr.Prelude.{◌≡◌, ◌≢◌, ◌<◌, refl, true, Bool-cases, inl, inr, List, [], ◌∷◌, length, arith}
use libkzr.Prelude.Bytes.{Byte}
use libkzr.Outcome.{Outcome, returns, throws, undefined, ◌>>=◌}
use libkzr.Operations
use libkzr.Operations.{ConceptualOperation, Operation, convert, is_request}
use libkzr.StringStream.{StringStream, good}
use libkzr.MessageStream.{ArgumentOrder, OnStream, decode_u8, decode_u16}
use libkzr.StringStream.Frame.{advance, get-Reads}
use libkzr.MessageStream.Storage.{peek_front, read_short}
use libkzr.Message.Parts.{MessageHeader, decode_header}
use libkzr.Message.Session.{
  decode_error_response, decode_version_message, decode_authentication_request,
  decode_authentication_response, decode_flush_request, decode_attach_request,
  decode_attach_response,
}
use libkzr.Message.File.{
  decode_walk_request, decode_walk_response, decode_open_request, decode_open_or_create_response,
  decode_create_request, decode_fid_request, decode_read_request, decode_read_response,
  decode_write_request, decode_write_response,
}
use libkzr.Message.Metadata.{decode_stat_response, decode_wstat_request}
use libkzr.Request.{fresh_request, decode_request_kind, decode_request}
use libkzr.Response.{fresh_response, decode_response_kind, decode_response}
use libkzr.Interaction.{Interaction, of_request, of_response, emplace, decode_interaction}

record UndefinedAt {A : Type 0} (p : OnStream A) (s : StringStream) : Type 0 where
  at : (p s).0 ≡ undefined

module _ {A B : Type 0} {p : OnStream A} {s : StringStream} where
  then_undefined : (f : A → OnStream B) → UndefinedAt p s → UndefinedAt (p >>= f) s
  unfolding ◌>>=◌
  then_undefined f u = record { at = rw (u.at) }

module _ (s : StringStream) (cut : (h : MessageHeader) → UndefinedAt (decode_header h) s) where
  request_kind_cut :
      (order : ArgumentOrder) (op : ConceptualOperation)
      → op ≢ Operations.undefined
      → UndefinedAt (decode_request_kind order op) s
  unfolding decode_request_kind decode_version_message decode_authentication_request
      decode_flush_request decode_attach_request decode_walk_request decode_open_request
      decode_create_request decode_fid_request decode_read_request decode_write_request
      decode_wstat_request
  request_kind_cut order Operations.undefined known = absurd (known refl)
  request_kind_cut order Operations.error known = then_undefined _ (cut _)
  request_kind_cut order _ known = then_undefined _ (then_undefined _ (cut _))

  response_kind_cut :
      (order : ArgumentOrder) (op : ConceptualOperation)
      → op ≢ Operations.undefined
      → UndefinedAt (decode_response_kind order op) s
  unfolding decode_response_kind decode_version_message decode_authentication_response
      decode_attach_response decode_error_response decode_walk_response
      decode_open_or_create_response decode_read_response decode_write_response decode_stat_response
  response_kind_cut order Operations.undefined known = absurd (known refl)
  response_kind_cut order Operations.flush known = then_undefined _ (cut _)
  response_kind_cut order Operations.clunk known = then_undefined _ (cut _)
  response_kind_cut order Operations.remove known = then_undefined _ (cut _)
  response_kind_cut order Operations.wstat known = then_undefined _ (cut _)
  response_kind_cut order _ known = then_undefined _ (then_undefined _ (cut _))

decode_u8_front :
    (s : StringStream) (c : Byte) (rest : List Byte)
    → good s ≡ true
    → s.unread ≡ c ∷ rest
    → decode_u8 s ≡ (returns c, advance s (c ∷ []) rest)
unfolding decode_u8 ◌>>=◌
decode_u8_front s c rest g e = rw ((get-Reads c).at s rest g e)

decode_u16_cut :
    (s : StringStream) (bs : List Byte)
    → good s ≡ true
    → s.unread ≡ bs
    → length bs < 2
    → UndefinedAt decode_u16 s
unfolding decode_u16 ◌>>=◌
decode_u16_cut s [] g e short = record { at = rw (read_short 2 s g (rw e)) (rw e) }
decode_u16_cut s (b ∷ []) g e short = record { at = rw (read_short 2 s g (rw e)) (rw e) }
decode_u16_cut s (b ∷ c ∷ bs) g e short = absurd (omega arith)

-- With fewer than two bytes behind the operation, a header has no value.
decode_header_cut :
    (s : StringStream) (op : Operation) (bs : List Byte)
    → good s ≡ true
    → s.unread ≡ op ∷ bs
    → length bs < 2
    → (h : MessageHeader) → UndefinedAt (decode_header h) s
unfolding decode_header ◌>>=◌
decode_header_cut s op bs g e short h = record {
  at =
      rw (decode_u8_front s op bs g e)
        (rw ((decode_u16_cut (advance s (op ∷ []) bs) bs g refl short).at));
}

emplace_undefined :
    {A : Type 0} (wrap : A → Interaction) (fresh : A) (p : Outcome A × StringStream)
    → p.0 ≡ undefined
    → (emplace wrap fresh p).0 ≡ undefined
unfolding emplace
emplace_undefined wrap fresh (returns a, s) e = absurd (cc e)
emplace_undefined wrap fresh (throws x, s) e = absurd (cc e)
emplace_undefined wrap fresh (undefined, s) e = refl

-- A good stream that holds the operation of a known kind and fewer than two bytes behind it, so that the
-- tag is cut off: decoding an interaction is undefined behaviour, whatever the kind.
pub decode_interaction_cut :
    (order : ArgumentOrder) (held : Interaction) (s : StringStream) (op : Operation)
    (bs : List Byte)
    → good s ≡ true
    → s.unread ≡ op ∷ bs
    → length bs < 2
    → 0 < op
    → convert op ≢ Operations.undefined
    → (decode_interaction order (held, s)).0 ≡ undefined
unfolding decode_interaction decode_request decode_response ◌>>=◌
decode_interaction_cut order held s op bs g e short pos known =
    let cut = decode_header_cut s op bs g e short in
    rw (peek_front s op bs g e pos) (elim (Bool-cases (is_request op)) [
      | inl even ↦ rw even (
          rw (peek_front s op bs g e pos) (
            emplace_undefined of_request fresh_request (decode_request_kind order (convert op) s)
              ((request_kind_cut s cut order (convert op) known).at)))
      | inr odd ↦ rw odd (
          rw (peek_front s op bs g e pos) (
            emplace_undefined of_response fresh_response (decode_response_kind order (convert op) s)
              ((response_kind_cut s cut order (convert op) known).at)))
    ])
