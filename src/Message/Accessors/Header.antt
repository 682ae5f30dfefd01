-- ===== src/Message/Accessors/Header.antt =====
-- What the tests on a header say of a message that its constructor has made.
use libkzr.Prelude.{◌≡◌, refl, Bool, true, false, not, ap}
use libkzr.Operations
use libkzr.Operations.{
  ConceptualOperation, MessageDirection, request, response, convert, is_request, is_response,
  translate_concept,
}
use libkzr.Operations.Codes.{convert-translate_concept}
use libkzr.Message.Parts.{fresh_header}
use libkzr.Message.Accessors.{
  header_is_request, header_is_response, conceptual_operation, is_error, is_error_kind,
}

abbrev pub is_requesting : MessageDirection → Bool
is_requesting request = true
is_requesting response = false

requests :
    (op : ConceptualOperation) (dir : MessageDirection)
    → is_request (translate_concept op dir) ≡ is_requesting dir
unfolding is_request translate_concept
requests Operations.undefined request = refl
requests Operations.undefined response = refl
requests _ request = refl
requests _ response = refl

responses :
    (op : ConceptualOperation) (dir : MessageDirection)
    → is_response (translate_concept op dir) ≡ not (is_requesting dir)
unfolding is_response translate_concept
responses Operations.undefined request = refl
responses Operations.undefined response = refl
responses _ request = refl
responses _ response = refl

-- A header as a constructor makes it tells the kind of its class, is a request or a response, and not
-- both, by the direction of its class, and is an error exactly for the kind of errors.
pub tests-fresh_header :
    (op : ConceptualOperation) (dir : MessageDirection)
    → (conceptual_operation (fresh_header op dir) ≡ op)
      × (header_is_request (fresh_header op dir) ≡ is_requesting dir)
      × (header_is_response (fresh_header op dir) ≡ not (is_requesting dir))
      × (is_error (fresh_header op dir) ≡ is_error_kind op)
unfolding conceptual_operation header_is_request header_is_response is_error fresh_header
tests-fresh_header op dir = (
  convert-translate_concept op dir,
  requests op dir,
  responses op dir,
  ap is_error_kind (convert-translate_concept op dir),
)
