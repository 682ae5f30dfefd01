-- ===== src/Message/Accessors/Sent.antt =====
-- A walk request that is made by a client with its setters, sent, and tested at the other end.
use libkzr.Prelude.{
  ℕ, ◌%◌, ◌^◌, ◌<◌, ◌≡◌, refl, ap, ◌∙◌, Bool, true, false, not, List, [], ◌∷◌, All, length, ◌==◌,
  arith,
}
use libkzr.Outcome.{returns}
use libkzr.StringStream.{StringStream}
use libkzr.StringStream.Frame.{IsWritable}
use libkzr.MessageStream.Wire.{IsText}
use libkzr.Message.Fresh.{fresh_walk_request}
use libkzr.Message.File.{WalkRequest, encode_walk_request, decode_walk_request}
use libkzr.Message.File.Wire.{IsWalkRequest, received_walk_request}
use libkzr.Message.RoundTrip.{decode-encode_walk_request}
use libkzr.Message.Accessors.{
  walk_set_tag, set_fid, set_newfid, push_name, is_fid_clone, is_directory_traversal,
}
use libkzr.Message.Accessors.Walk.{
  WalkCall, sets_tag, sets_fid, sets_newfid, pushes_name, after_walk_calls, pushed,
  after_walk_calls-IsWalkRequest, same_count,
}

-- The last value that the calls give to a member, and the first where there is none.
abbrev pub last_tag : ℕ → List WalkCall → ℕ
last_tag n [] = n
last_tag n (sets_tag v ∷ calls) = last_tag (v % 2 ^ 16) calls
last_tag n (sets_fid v ∷ calls) = last_tag n calls
last_tag n (sets_newfid v ∷ calls) = last_tag n calls
last_tag n (pushes_name t ∷ calls) = last_tag n calls

abbrev pub last_fid : ℕ → List WalkCall → ℕ
last_fid n [] = n
last_fid n (sets_tag v ∷ calls) = last_fid n calls
last_fid n (sets_fid v ∷ calls) = last_fid (v % 2 ^ 32) calls
last_fid n (sets_newfid v ∷ calls) = last_fid n calls
last_fid n (pushes_name t ∷ calls) = last_fid n calls

abbrev pub last_newfid : ℕ → List WalkCall → ℕ
last_newfid n [] = n
last_newfid n (sets_tag v ∷ calls) = last_newfid n calls
last_newfid n (sets_fid v ∷ calls) = last_newfid n calls
last_newfid n (sets_newfid v ∷ calls) = last_newfid (v % 2 ^ 32) calls
last_newfid n (pushes_name t ∷ calls) = last_newfid n calls

-- The numbers of a request behind the calls.
abbrev HasLast : List WalkCall → WalkRequest → WalkRequest → Type 0
HasLast calls m got =
    (got.header ≡ record m.header { tag = last_tag m.header.tag calls })
    × (got.fid ≡ last_fid m.fid calls)
    × (got.newfid ≡ last_newfid m.newfid calls)

after_walk_calls-HasLast :
    (calls : List WalkCall) (m : WalkRequest) → HasLast calls m (after_walk_calls calls m)
unfolding after_walk_calls walk_set_tag set_fid set_newfid push_name
after_walk_calls-HasLast [] m = (refl, refl, refl)
after_walk_calls-HasLast (sets_tag v ∷ calls) m = after_walk_calls-HasLast calls (walk_set_tag v m)
after_walk_calls-HasLast (sets_fid v ∷ calls) m = after_walk_calls-HasLast calls (set_fid v m)
after_walk_calls-HasLast (sets_newfid v ∷ calls) m = after_walk_calls-HasLast calls (set_newfid v m)
after_walk_calls-HasLast (pushes_name t ∷ calls) m = after_walk_calls-HasLast calls (push_name t m)

-- A new walk request, with any values in the members that have none yet.
abbrev pub new_walk_request : ℕ → ℕ → WalkRequest
new_walk_request f g = record fresh_walk_request { fid = f; newfid = g }

new_walk_request-IsWalkRequest :
    (f g : ℕ) → f < 2 ^ 32 → g < 2 ^ 32 → IsWalkRequest (new_walk_request f g)
unfolding fresh_walk_request
new_walk_request-IsWalkRequest f g hf hg = record {
  header_fits = record { op_fits = omega arith; tag_fits = omega arith };
  fid_fits = hf;
  newfid_fits = hg;
  wname_fits = record { elements_fit = tt; count_fits = omega arith };
}

not-not : (b : Bool) → not (not b) ≡ b
not-not true = refl
not-not false = refl

is_fid_clone-received :
    (target m : WalkRequest)
    → target.wname ≡ []
    → is_fid_clone (received_walk_request target m) ≡ (length m.wname == 0)
unfolding is_fid_clone is_directory_traversal received_walk_request
is_fid_clone-received target m fresh =
    rw fresh (rw (same_count m.wname) (not-not (length m.wname == 0)))

-- A new walk request on which setters are called and names pushed, in any order and with any numbers, the
-- names fitting the wire and fewer than 2 ^ 16, arrives through a writable stream whose input is used up,
-- in a request without names: with the code 110, with the tag, fid and newfid that were set last, modulo
-- 2 ^ 16 and 2 ^ 32, and as a fid clone exactly if no name was pushed.
pub is_fid_clone-after_walk_calls :
    (calls : List WalkCall) (f g : ℕ) (target : WalkRequest) (s : StringStream)
    → All IsText (pushed calls)
    → length (pushed calls) < 2 ^ 16
    → f < 2 ^ 32
    → g < 2 ^ 32
    → IsWritable s
    → s.unread ≡ []
    → target.wname ≡ []
    → (got : WalkRequest) × ((decode_walk_request target
          (encode_walk_request (after_walk_calls calls (new_walk_request f g)) s).1).0
        ≡ returns got)
      × (got.header ≡ record { op = 110; tag = last_tag 0xffff calls })
      × (got.fid ≡ last_fid f calls)
      × (got.newfid ≡ last_newfid g calls)
      × (is_fid_clone got ≡ (length (pushed calls) == 0))
unfolding fresh_walk_request received_walk_request
is_fid_clone-after_walk_calls calls f g target s texts few hf hg ws used fresh =
    let m = after_walk_calls calls (new_walk_request f g) in
    let (fits, names) =
      after_walk_calls-IsWalkRequest calls (new_walk_request f g) texts (omega arith)
        (new_walk_request-IsWalkRequest f g hf hg) in
    let (tagged, at_fid, at_newfid) = after_walk_calls-HasLast calls (new_walk_request f g) in
    (
      received_walk_request target m,
      ap (λ p. p.0) (decode-encode_walk_request target m s fits ws used),
      tagged,
      at_fid,
      at_newfid,
      is_fid_clone-received target m fresh ∙ ap (λ names. length names == 0) names,
    )
