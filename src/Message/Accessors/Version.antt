-- ===== src/Message/Accessors/Version.antt =====
-- A version message in the hands of a client.
use libkzr.Prelude.{ℕ, ◌%◌, ◌^◌, ◌<◌, ◌≡◌, refl, ap, ◌∙◌, List, [], ◌∷◌, ◌++◌, All, arith}
use libkzr.Prelude.Bytes.{little_endian}
use libkzr.Outcome.{returns}
use libkzr.StringStream.{StringStream}
use libkzr.StringStream.Frame.{IsWritable, append}
use libkzr.Operations.{version, MessageDirection, request, response}
use libkzr.MessageStream.{Text}
use libkzr.MessageStream.Wire.{IsText, string_bytes}
use libkzr.Message.Session.{VersionMessage, encode_version_message}
use libkzr.Message.Session.Codec.{encode_version_message-Writes}
use libkzr.Message.Parts.Wire.{header_bytes}
use libkzr.Message.Fresh.{fresh_version_message}
use libkzr.Message.Session.Wire.{IsVersionMessage, version_message_bytes}
use libkzr.Message.Accessors.{version_set_tag, set_msize, set_version}

pub data VersionCall : Type 0 where
  sets_tag : ℕ → VersionCall
  sets_msize : ℕ → VersionCall
  sets_version : Text → VersionCall

unfoldable pub after_version_calls : List VersionCall → VersionMessage → VersionMessage
after_version_calls [] m = m
after_version_calls (sets_tag v ∷ calls) m = after_version_calls calls (version_set_tag v m)
after_version_calls (sets_msize v ∷ calls) m = after_version_calls calls (set_msize v m)
after_version_calls (sets_version t ∷ calls) m = after_version_calls calls (set_version t m)

-- A text that is set is bytes, and its length fits 16 bits.
abbrev pub IsVersionCall : VersionCall → Type 0
IsVersionCall (sets_tag v) = Unit {0}
IsVersionCall (sets_msize v) = Unit {0}
IsVersionCall (sets_version t) = IsText t

-- Whatever setters are called on a version message that fits the wire, with texts that fit it: the
-- message still fits the wire, and its operation and its tag are what they were.
pub after_version_calls-IsVersionMessage :
    (calls : List VersionCall) (m : VersionMessage)
    → All IsVersionCall calls
    → IsVersionMessage m
    → IsVersionMessage (after_version_calls calls m)
      × ((after_version_calls calls m).header ≡ m.header)
unfolding after_version_calls version_set_tag set_msize set_version
after_version_calls-IsVersionMessage [] m h w = (w, refl)
after_version_calls-IsVersionMessage (sets_tag v ∷ calls) m (_, h) w =
    after_version_calls-IsVersionMessage calls m h w
after_version_calls-IsVersionMessage (sets_msize v ∷ calls) m (_, h) w =
    after_version_calls-IsVersionMessage calls (record m { msize = v % 2 ^ 16 }) h
      (record {
        header_fits = w.header_fits;
        msize_fits = omega arith;
        version_fits = w.version_fits;
      })
after_version_calls-IsVersionMessage (sets_version t ∷ calls) m (fits, h) w =
    after_version_calls-IsVersionMessage calls (record m { version = t }) h
      (record { header_fits = w.header_fits; msize_fits = w.msize_fits; version_fits = fits })

-- What the calls leave: the last value of each setter, and the first where there is none.
abbrev pub last_msize : ℕ → List VersionCall → ℕ
last_msize n [] = n
last_msize n (sets_tag v ∷ calls) = last_msize n calls
last_msize n (sets_msize v ∷ calls) = last_msize (v % 2 ^ 16) calls
last_msize n (sets_version t ∷ calls) = last_msize n calls

abbrev pub last_version : Text → List VersionCall → Text
last_version u [] = u
last_version u (sets_tag v ∷ calls) = last_version u calls
last_version u (sets_msize v ∷ calls) = last_version u calls
last_version u (sets_version t ∷ calls) = last_version t calls

after_version_calls_lem :
    (calls : List VersionCall) (m : VersionMessage)
    → after_version_calls calls m
      ≡ record m { msize = last_msize m.msize calls; version = last_version m.version calls }
unfolding after_version_calls version_set_tag set_msize set_version
after_version_calls_lem [] m = refl
after_version_calls_lem (sets_tag v ∷ calls) m = after_version_calls_lem calls m
after_version_calls_lem (sets_msize v ∷ calls) m =
    after_version_calls_lem calls (record m { msize = v % 2 ^ 16 })
after_version_calls_lem (sets_version t ∷ calls) m =
    after_version_calls_lem calls (record m { version = t })

abbrev pub version_code : MessageDirection → ℕ
version_code request = 100
version_code response = 101

-- A new version message, with any value in the member that has none yet.
abbrev pub new_version_message : MessageDirection → ℕ → VersionMessage
new_version_message dir n = record (fresh_version_message version dir) { msize = n }

new_version_message-IsVersionMessage :
    (dir : MessageDirection) (n : ℕ) → n < 2 ^ 16 → IsVersionMessage (new_version_message dir n)
unfolding fresh_version_message
new_version_message-IsVersionMessage request n h = record {
  header_fits = record { op_fits = omega arith; tag_fits = omega arith };
  msize_fits = h;
  version_fits = omega arith;
}
new_version_message-IsVersionMessage response n h = record {
  header_fits = record { op_fits = omega arith; tag_fits = omega arith };
  msize_fits = h;
  version_fits = omega arith;
}

new_header_bytes :
    (dir : MessageDirection) (n : ℕ)
    → header_bytes (new_version_message dir n).header ≡ version_code dir ∷ 0xff ∷ 0xff ∷ []
unfolding fresh_version_message header_bytes
new_header_bytes request n = refl
new_header_bytes response n = refl

-- Whatever setters are called on a new version message, in any order and with any numbers, and with texts
-- that fit the wire: encoding it onto a writable stream returns, and writes the code of its direction, the
-- tag 0xffff also where a tag was set, the last msize that was set, modulo 2 ^ 16, and the last text that was set.
pub encode_version_message-after_version_calls :
    (calls : List VersionCall) (dir : MessageDirection) (n : ℕ) (s : StringStream)
    → All IsVersionCall calls
    → n < 2 ^ 16
    → IsWritable s
    → encode_version_message (after_version_calls calls (new_version_message dir n)) s ≡ (
      returns tt,
      append s (
          (version_code dir ∷ 0xff ∷ 0xff ∷ [])
          ++ (little_endian 2 (last_msize n calls) ++ string_bytes (last_version [] calls))),
    )
unfolding fresh_version_message version_message_bytes
encode_version_message-after_version_calls calls dir n s h small w =
    let m = new_version_message dir n in
    let fits =
      after_version_calls-IsVersionMessage calls m h
        (new_version_message-IsVersionMessage dir n small) in
    (encode_version_message-Writes (after_version_calls calls m) fits.0).at s w
    ∙ ap (λ m. (returns tt, append s (version_message_bytes m))) (after_version_calls_lem calls m)
    ∙ ap
        (λ front. (
          returns tt,
          append s (
              front
              ++ (little_endian 2 (last_msize n calls) ++ string_bytes (last_version [] calls))),
        ))
        (new_header_bytes dir n)
