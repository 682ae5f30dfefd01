-- ===== src/Operations/Codes.antt =====
-- The codes and the kinds determine one another.
use libkzr.Prelude.{
  ℕ, ◌+◌, ◌<◌, ◌≡◌, ◌≢◌, inl, inr, refl, sym, Bool, true, false, ◌||◌, ◌==◌, ==_iff, if◌then◌else◌,
  Bool-cases, arith,
}
use libkzr.Prelude.Tables.{holds_below, holds_below_at}
use libkzr.Operations.{
  ConceptualOperation, Operation, MessageDirection, undefined, version, remove, request, response,
  r_bad, convert, is_request, is_session_class, is_file_class, is_metadata_class,
  expected_response_kind, translate_concept,
}

-- The code of a kind, in either direction, is converted back to the kind.
pub convert-translate_concept :
    (op : ConceptualOperation) (dir : MessageDirection) → convert (translate_concept op dir) ≡ op
unfolding convert translate_concept
convert-translate_concept undefined request = refl
convert-translate_concept undefined response = refl
convert-translate_concept version request = refl
convert-translate_concept version response = refl
convert-translate_concept _ request = refl
convert-translate_concept _ response = refl

-- No kind has a zero code, and all codes are bytes.
pub translate_concept-bounds :
    (op : ConceptualOperation) (dir : MessageDirection)
    → (0 < translate_concept op dir) × (translate_concept op dir < 256)
unfolding translate_concept
translate_concept-bounds undefined request = omega arith
translate_concept-bounds undefined response = omega arith
translate_concept-bounds version request = omega arith
translate_concept-bounds version response = omega arith
translate_concept-bounds _ request = omega arith
translate_concept-bounds _ response = omega arith

-- The direction of a code is its parity.
pub is_request-translate_concept :
    (op : ConceptualOperation)
    → (is_request (translate_concept op request) ≡ true)
      × (is_request (translate_concept op response) ≡ false)
unfolding translate_concept is_request
is_request-translate_concept undefined = (refl, refl)
is_request-translate_concept version = (refl, refl)
is_request-translate_concept _ = (refl, refl)

-- The direction that the parity of a code tells.
unfoldable pub direction : Operation → MessageDirection
direction op = if is_request op then request else response

abbrev pub is_undefined : ConceptualOperation → Bool
is_undefined undefined = true
is_undefined _ = false

pub is_undefined→eq : (op : ConceptualOperation) → is_undefined op ≡ true → op ≡ undefined
is_undefined→eq undefined h = refl
is_undefined→eq version h = cc
is_undefined→eq _ h = cc

abbrev has_own_code : Operation → Bool
has_own_code op = is_undefined (convert op) || op == translate_concept (convert op) (direction op)

own_code_table : holds_below 256 has_own_code ≡ true
unfolding holds_below convert translate_concept direction is_request
own_code_table = refl

-- The byte of a known kind is the code of that kind in the direction of its parity: no two bytes
-- stand for one message.
pub translate_concept-convert :
    (op : Operation)
    → op < 256
    → convert op ≢ undefined
    → translate_concept (convert op) (direction op) ≡ op
translate_concept-convert op h known = elim (Bool-cases (is_undefined (convert op))) [
  | inl u ↦ absurd (known (is_undefined→eq (convert op) u))
  | inr k ↦ sym ((==_iff op _).0 (rw k at (holds_below_at 256 has_own_code op own_code_table h)))
]

expected_table :
    holds_below 256 (λ op. expected_response_kind op == (
      if is_undefined (convert op)
      then r_bad
      else if is_request op
      then translate_concept (convert op) response
      else r_bad))
    ≡ true
unfolding holds_below convert translate_concept is_request expected_response_kind
expected_table = refl

-- Of the bytes, exactly the requests of known kinds expect a response, and it is the response of
-- their own kind.
pub expected_response_kind_lem :
    (op : Operation)
    → op < 256
    → expected_response_kind op ≡ (
        if is_undefined (convert op)
        then r_bad
        else if is_request op
        then translate_concept (convert op) response
        else r_bad)
expected_response_kind_lem op h = (==_iff _ _).0 (holds_below_at 256 _ op expected_table h)

abbrev pub is_remove : ConceptualOperation → Bool
is_remove remove = true
is_remove _ = false

abbrev pub in_class : ConceptualOperation → ℕ
in_class op =
    (if is_session_class op then 1 else 0)
    + ((if is_file_class op then 1 else 0) + (if is_metadata_class op then 1 else 0))

-- Every known kind but `remove` is in exactly one of the three classes; `remove` is in none.
pub class_count :
    (op : ConceptualOperation)
    → in_class op ≡ (if is_undefined op then 0 else if is_remove op then 0 else 1)
unfolding is_session_class is_file_class is_metadata_class
class_count undefined = refl
class_count version = refl
class_count _ = refl
