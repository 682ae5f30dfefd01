-- ===== src/Message/Accessors/Walk.antt =====
-- A walk request in the hands of a client, and at the other end.
use libkzr.Prelude.{
  ℕ, suc, ◌+◌, ◌^◌, ◌<◌, ◌≡◌, refl, not, ap, ◌∙◌, List, [], ◌∷◌, ◌++◌, append-nil, append_assoc,
  map, All, length, length-append, arith,
}
use libkzr.Outcome.{returns}
use libkzr.StringStream.{StringStream}
use libkzr.StringStream.Frame.{IsWritable}
use libkzr.MessageStream.{Text, overlay}
use libkzr.MessageStream.Wire.{IsText}
use libkzr.Message.File.{WalkRequest, encode_walk_request, decode_walk_request}
use libkzr.Message.File.Wire.{IsWalkRequest, received_walk_request}
use libkzr.Message.RoundTrip.{decode-encode_walk_request}
use libkzr.Message.Accessors.{
  walk_set_tag, set_fid, set_newfid, push_name, is_fid_clone, is_directory_traversal,
}

pub data WalkCall : Type 0 where
  sets_tag : ℕ → WalkCall
  sets_fid : ℕ → WalkCall
  sets_newfid : ℕ → WalkCall
  pushes_name : Text → WalkCall

unfoldable pub after_walk_calls : List WalkCall → WalkRequest → WalkRequest
after_walk_calls [] m = m
after_walk_calls (sets_tag v ∷ calls) m = after_walk_calls calls (walk_set_tag v m)
after_walk_calls (sets_fid v ∷ calls) m = after_walk_calls calls (set_fid v m)
after_walk_calls (sets_newfid v ∷ calls) m = after_walk_calls calls (set_newfid v m)
after_walk_calls (pushes_name t ∷ calls) m = after_walk_calls calls (push_name t m)

-- The names that the calls push.
abbrev pub pushed : List WalkCall → List Text
pushed [] = []
pushed (sets_tag v ∷ calls) = pushed calls
pushed (sets_fid v ∷ calls) = pushed calls
pushed (sets_newfid v ∷ calls) = pushed calls
pushed (pushes_name t ∷ calls) = t ∷ pushed calls

texts_fit : (ts us : List Text) → All IsText ts → All IsText us → All IsText (ts ++ us)
texts_fit [] us h k = k
texts_fit (t ∷ ts) us (h, hs) k = (h, texts_fit ts us hs k)

-- Whatever setters are called on a walk request that fits the wire, and whatever names are pushed, if
-- these fit the wire and are together with those in it fewer than 2 ^ 16: the request still fits the
-- wire, and has the pushed names behind its own, in the order of the calls.
pub after_walk_calls-IsWalkRequest :
    (calls : List WalkCall) (m : WalkRequest)
    → All IsText (pushed calls)
    → length m.wname + length (pushed calls) < 2 ^ 16
    → IsWalkRequest m
    → IsWalkRequest (after_walk_calls calls m)
      × ((after_walk_calls calls m).wname ≡ m.wname ++ pushed calls)
unfolding after_walk_calls walk_set_tag set_fid set_newfid push_name
after_walk_calls-IsWalkRequest [] m h few w = (w, rw append-nil)
after_walk_calls-IsWalkRequest (sets_tag v ∷ calls) m h few w =
    after_walk_calls-IsWalkRequest calls (walk_set_tag v m) h few (record {
      header_fits = record { op_fits = w.header_fits.op_fits; tag_fits = omega arith };
      fid_fits = w.fid_fits;
      newfid_fits = w.newfid_fits;
      wname_fits = w.wname_fits;
    })
after_walk_calls-IsWalkRequest (sets_fid v ∷ calls) m h few w =
    after_walk_calls-IsWalkRequest calls (set_fid v m) h few (record {
      header_fits = w.header_fits;
      fid_fits = omega arith;
      newfid_fits = w.newfid_fits;
      wname_fits = w.wname_fits;
    })
after_walk_calls-IsWalkRequest (sets_newfid v ∷ calls) m h few w =
    after_walk_calls-IsWalkRequest calls (set_newfid v m) h few (record {
      header_fits = w.header_fits;
      fid_fits = w.fid_fits;
      newfid_fits = omega arith;
      wname_fits = w.wname_fits;
    })
after_walk_calls-IsWalkRequest (pushes_name t ∷ calls) m (h, hs) few w =
    let longer = length-append m.wname (t ∷ []) in
    let (fits, names) =
      after_walk_calls-IsWalkRequest calls (push_name t m) hs (omega (arith, longer)) (record {
        header_fits = w.header_fits;
        fid_fits = w.fid_fits;
        newfid_fits = w.newfid_fits;
        wname_fits = record {
          elements_fit = texts_fit m.wname (t ∷ []) w.wname_fits.elements_fit (h, tt);
          count_fits = omega (arith, longer);
        };
      }) in
    (fits, names ∙ append_assoc m.wname (t ∷ []) (pushed calls))

pub same_count : (ts : List Text) → length (map (λ s. overlay s []) ts) ≡ length ts
same_count [] = refl
same_count (t ∷ ts) = ap suc (same_count ts)

received_traversal :
    (target m : WalkRequest)
    → target.wname ≡ []
    → is_directory_traversal (received_walk_request target m) ≡ is_directory_traversal m
unfolding is_directory_traversal received_walk_request
received_traversal target m fresh = rw fresh (rw (same_count m.wname))

-- Through a writable stream whose input is used up, and into a request without names, a walk request that
-- fits the wire arrives as a fid clone if it was sent as one, and as a directory traversal if it was one.
pub is_fid_clone-decode_walk_request :
    (target m : WalkRequest) (s : StringStream)
    → IsWalkRequest m
    → IsWritable s
    → s.unread ≡ []
    → target.wname ≡ []
    → (got : WalkRequest) × ((decode_walk_request target (encode_walk_request m s).1).0
        ≡ returns got)
      × (is_fid_clone got ≡ is_fid_clone m)
      × (is_directory_traversal got ≡ is_directory_traversal m)
unfolding is_fid_clone
is_fid_clone-decode_walk_request target m s w ws used fresh = (
  received_walk_request target m,
  ap (λ p. p.0) (decode-encode_walk_request target m s w ws used),
  ap not (received_traversal target m fresh),
  received_traversal target m fresh,
)
