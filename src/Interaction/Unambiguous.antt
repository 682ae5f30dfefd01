-- ===== src/Interaction/Unambiguous.antt =====
-- The encoding of interactions is unambiguous.
use mathlib.Core.Path.{subst}
use libkzr.StringStream.{StringStream}
use libkzr.StringStream.Frame.{IsWritable}
use libkzr.MessageStream.{str, encode_elements}
use libkzr.MessageStream.Wire.{elements_bytes}
use libkzr.MessageStream.Encode.{encode_elements-Writes}
use libkzr.Interaction.{encode_interaction}
use libkzr.Interaction.Sequence.{interactions-Writes}
use libkzr.Prelude.{
  refl, [], ◌∷◌, All, ◌<◌, ap₂, arith, ◌≡◌, sym, ap, ◌∙◌, true, false, inl, inr, List, ◌++◌,
}
use libkzr.Prelude.Bytes.{Byte}
use libkzr.Operations.{
  ConceptualOperation, convert, is_request, translate_concept, request, response,
}
use libkzr.Operations.Codes.{
  translate_concept-bounds, convert-translate_concept, is_request-translate_concept,
}
use libkzr.MessageStream.Prefix.{head_tail, PrefixFree}
use libkzr.Request.{Request}
use libkzr.Response.{Response}
use libkzr.Interaction.{Interaction, of_request, of_response}
use libkzr.Interaction.Wire.{
  IsRequest, IsResponse, IsInteraction, request_bytes, response_bytes, interaction_bytes,
}
use libkzr.Interaction.Bound.{
  BoundRequestType, BoundResponseType, RequestAlternative, ResponseAlternative, emplace_request,
  emplace_response, hold_request, hold_response, held_request, held_response,
}
use libkzr.Interaction.Bound.Laws.{hold-held_request, hold-held_response}
use libkzr.Interaction.Prefix.{
  first_byte, under, request_first, response_first, request_of_kind, response_of_kind,
}

request_alternatives :
    (x y : RequestAlternative) (r t : List Byte)
    → IsRequest (hold_request x)
    → IsRequest (hold_request y)
    → request_bytes (hold_request x) ++ r ≡ request_bytes (hold_request y) ++ t
    → (hold_request x ≡ hold_request y) × (r ≡ t)
unfolding hold_request
request_alternatives (inl h) y r t v w e = absurd v
request_alternatives (inr (kind, m)) (inl h) r t v w e = absurd w
request_alternatives (inr (kind, m)) (inr (other, n)) r t v w e =
    let codes : translate_concept kind request ≡ translate_concept other request =
      sym (request_first kind m r v) ∙ (ap first_byte e ∙ request_first other n t w) in
    let same : kind ≡ other =
      sym (convert-translate_concept kind request)
      ∙ (ap convert codes ∙ convert-translate_concept other request) in
    subst
      (λ (k : ConceptualOperation).
        (n : BoundRequestType k)
        → IsRequest (emplace_request k n)
        → request_bytes (emplace_request kind m) ++ r ≡ request_bytes (emplace_request k n) ++ t
        → (emplace_request kind m ≡ emplace_request k n) × (r ≡ t))
      same (λ n w e. request_of_kind kind m n r t v w e) n w e

IsRequest-PrefixFree : PrefixFree IsRequest request_bytes
IsRequest-PrefixFree = record {
  at = λ x y r t v w e.
      rw (hold-held_request x, hold-held_request y) at
        (request_alternatives (held_request x) (held_request y) r t (rw (hold-held_request x) v)
          (rw (hold-held_request y) w) (rw (hold-held_request x, hold-held_request y) e));
}

-- The parity of the first byte.
request_parity :
    (x : RequestAlternative) (r : List Byte)
    → IsRequest (hold_request x)
    → is_request (first_byte (request_bytes (hold_request x) ++ r)) ≡ true
unfolding hold_request
request_parity (inl h) r w = absurd w
request_parity (inr (kind, m)) r w =
    rw (request_first kind m r w) (is_request-translate_concept kind).0

response_alternatives :
    (x y : ResponseAlternative) (r t : List Byte)
    → IsResponse (hold_response x)
    → IsResponse (hold_response y)
    → response_bytes (hold_response x) ++ r ≡ response_bytes (hold_response y) ++ t
    → (hold_response x ≡ hold_response y) × (r ≡ t)
unfolding hold_response
response_alternatives (inl h) y r t v w e = absurd v
response_alternatives (inr (kind, m)) (inl h) r t v w e = absurd w
response_alternatives (inr (kind, m)) (inr (other, n)) r t v w e =
    let codes : translate_concept kind response ≡ translate_concept other response =
      sym (response_first kind m r v) ∙ (ap first_byte e ∙ response_first other n t w) in
    let same : kind ≡ other =
      sym (convert-translate_concept kind response)
      ∙ (ap convert codes ∙ convert-translate_concept other response) in
    subst
      (λ (k : ConceptualOperation).
        (n : BoundResponseType k)
        → IsResponse (emplace_response k n)
        → response_bytes (emplace_response kind m) ++ r ≡ response_bytes (emplace_response k n) ++ t
        → (emplace_response kind m ≡ emplace_response k n) × (r ≡ t))
      same (λ n w e. response_of_kind kind m n r t v w e) n w e

IsResponse-PrefixFree : PrefixFree IsResponse response_bytes
IsResponse-PrefixFree = record {
  at = λ x y r t v w e.
      rw (hold-held_response x, hold-held_response y) at
        (response_alternatives (held_response x) (held_response y) r t (rw (hold-held_response x) v)
          (rw (hold-held_response y) w) (rw (hold-held_response x, hold-held_response y) e));
}

-- The parity of the first byte.
response_parity :
    (x : ResponseAlternative) (r : List Byte)
    → IsResponse (hold_response x)
    → is_request (first_byte (response_bytes (hold_response x) ++ r)) ≡ false
unfolding hold_response
response_parity (inl h) r w = absurd w
response_parity (inr (kind, m)) r w =
    rw (response_first kind m r w) (is_request-translate_concept kind).1

request_positive :
    (x : RequestAlternative) (r : List Byte)
    → IsRequest (hold_request x)
    → 0 < first_byte (request_bytes (hold_request x) ++ r)
unfolding hold_request
request_positive (inl h) r w = absurd w
request_positive (inr (kind, m)) r w =
    rw (request_first kind m r w) (translate_concept-bounds kind request).0

response_positive :
    (x : ResponseAlternative) (r : List Byte)
    → IsResponse (hold_response x)
    → 0 < first_byte (response_bytes (hold_response x) ++ r)
unfolding hold_response
response_positive (inl h) r w = absurd w
response_positive (inr (kind, m)) r w =
    rw (response_first kind m r w) (translate_concept-bounds kind response).0

directions_differ :
    (x : Request) (y : Response) (r t : List Byte)
    → IsRequest x
    → IsResponse y
    → ¬ (request_bytes x ++ r ≡ response_bytes y ++ t)
directions_differ x y r t v w e =
    let even = request_parity (held_request x) r (rw (hold-held_request x) v) in
    let odd = response_parity (held_response y) t (rw (hold-held_response y) w) in
    cc (
      rw (hold-held_request x) at even,
      rw (hold-held_response y) at odd,
      ap (λ bs. is_request (first_byte bs)) e,
    )

-- Two interactions that fit the wire, each with any bytes behind it: if these are the same bytes, the
-- interactions are the same, and so is what is behind them. So no two interactions have one encoding, and
-- the encoding of none is the beginning of that of another.
pub interaction_bytes_unambiguous :
    (x y : Interaction) (r t : List Byte)
    → IsInteraction x
    → IsInteraction y
    → interaction_bytes x ++ r ≡ interaction_bytes y ++ t
    → (x ≡ y) × (r ≡ t)
unfolding interaction_bytes
interaction_bytes_unambiguous (of_request x) (of_request y) r t v w e =
    under of_request (IsRequest-PrefixFree.at x y r t v w e)
interaction_bytes_unambiguous (of_request x) (of_response y) r t v w e =
    absurd (directions_differ x y r t v w e)
interaction_bytes_unambiguous (of_response x) (of_request y) r t v w e =
    absurd (directions_differ y x t r w v (sym e))
interaction_bytes_unambiguous (of_response x) (of_response y) r t v w e =
    under of_response (IsResponse-PrefixFree.at x y r t v w e)

interaction_first :
    (x : Interaction) (r : List Byte) → IsInteraction x → 0 < first_byte (interaction_bytes x ++ r)
unfolding interaction_bytes
interaction_first (of_request x) r w =
    rw (hold-held_request x) at (request_positive (held_request x) r (rw (hold-held_request x) w))
interaction_first (of_response x) r w =
    rw (hold-held_response x) at
      (response_positive (held_response x) r (rw (hold-held_response x) w))

elements_unambiguous :
    (xs ys : List Interaction)
    → All IsInteraction xs
    → All IsInteraction ys
    → elements_bytes interaction_bytes xs ≡ elements_bytes interaction_bytes ys
    → xs ≡ ys
elements_unambiguous [] [] v w e = refl
elements_unambiguous [] (y ∷ ys) v (w, ws) e =
    absurd
      (omega (arith, interaction_first y (elements_bytes interaction_bytes ys) w, ap first_byte e))
elements_unambiguous (x ∷ xs) [] (v, vs) w e =
    absurd
      (omega (arith, interaction_first x (elements_bytes interaction_bytes xs) v, ap first_byte e))
elements_unambiguous (x ∷ xs) (y ∷ ys) (v, vs) (w, ws) e =
    let (same, rest) = interaction_bytes_unambiguous x y _ _ v w e in
    ap₂ (λ (z : Interaction) (zs : List Interaction). z ∷ zs) same
      (elements_unambiguous xs ys vs ws rest)

append_cancel : (cs : List Byte) {xs ys : List Byte} → cs ++ xs ≡ cs ++ ys → xs ≡ ys
append_cancel [] e = e
append_cancel (c ∷ cs) e = append_cancel cs (head_tail e).1

-- Two sequences of interactions that fit the wire, each encoded onto the same writable stream one behind
-- the other: if the streams then hold the same bytes, the sequences are the same, message by message.
pub encode_elements-eq :
    (xs ys : List Interaction) (s : StringStream)
    → All IsInteraction xs
    → All IsInteraction ys
    → IsWritable s
    → str (encode_elements encode_interaction xs s).1
      ≡ str (encode_elements encode_interaction ys s).1
    → xs ≡ ys
unfolding str
encode_elements-eq xs ys s v w ws e =
    let ex =
      (encode_elements-Writes encode_interaction interaction_bytes xs (interactions-Writes xs v)).at
        s ws in
    let ey =
      (encode_elements-Writes encode_interaction interaction_bytes ys (interactions-Writes ys w)).at
        s ws in
    elements_unambiguous xs ys v w
      (append_cancel s.unread (append_cancel s.taken (rw (ex, ey) at e)))
