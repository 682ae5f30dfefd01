-- ===== src/Operations.antt =====
-- Operations.h and Operations.cc: the message kinds, and the operation codes that go over the wire.
pub mod Codes
use libkzr.Prelude.{ℕ, ◌+◌, ◌%◌, Bool, true, false, not, List, [], ◌∷◌, ◌==◌, ◌||◌, if◌then◌else◌}
use libkzr.Prelude.Bytes.{Byte}

pub data ConceptualOperation : Type 0 where
  undefined version auth attach error flush walk open_ create read write clunk remove stat wstat :
      ConceptualOperation

-- enum class Operation has the fixed underlying type uint8_t, so every byte is one of its values.
abbrev pub Operation : Type 0
Operation = Byte

-- KZR_PROTOCOL_KINDS: each kind with the code of its T message. The code of its R message is the next.
abbrev pub protocol_kinds : List (ConceptualOperation × Operation)
protocol_kinds =
    (version, 100)
    ∷ (auth, 102)
    ∷ (attach, 104)
    ∷ (error, 106)
    ∷ (flush, 108)
    ∷ (walk, 110)
    ∷ (open_, 112)
    ∷ (create, 114)
    ∷ (read, 116)
    ∷ (write, 118)
    ∷ (clunk, 120)
    ∷ (remove, 122)
    ∷ (stat, 124)
    ∷ (wstat, 126)
    ∷ []

abbrev pub t_bad : Operation
t_bad = 0xfe

abbrev pub r_bad : Operation
r_bad = 0xff

-- The switch that X(name, _) expands to: its cases are tried along the table.
unfoldable pub kind_among : List (ConceptualOperation × Operation) → Operation → ConceptualOperation
kind_among [] op = undefined
kind_among ((kind, code) ∷ kinds) op =
    if op == code || op == code + 1 then kind else kind_among kinds op

unfoldable pub convert : Operation → ConceptualOperation
unfolding kind_among
convert = kind_among protocol_kinds

unfoldable pub get_t_message_form : ConceptualOperation → Operation
get_t_message_form undefined = t_bad
get_t_message_form version = 100
get_t_message_form auth = 102
get_t_message_form attach = 104
get_t_message_form error = 106
get_t_message_form flush = 108
get_t_message_form walk = 110
get_t_message_form open_ = 112
get_t_message_form create = 114
get_t_message_form read = 116
get_t_message_form write = 118
get_t_message_form clunk = 120
get_t_message_form remove = 122
get_t_message_form stat = 124
get_t_message_form wstat = 126

unfoldable pub get_r_message_form : ConceptualOperation → Operation
get_r_message_form undefined = r_bad
get_r_message_form version = 101
get_r_message_form auth = 103
get_r_message_form attach = 105
get_r_message_form error = 107
get_r_message_form flush = 109
get_r_message_form walk = 111
get_r_message_form open_ = 113
get_r_message_form create = 115
get_r_message_form read = 117
get_r_message_form write = 119
get_r_message_form clunk = 121
get_r_message_form remove = 123
get_r_message_form stat = 125
get_r_message_form wstat = 127

-- value & 1
abbrev pub is_even : ℕ → Bool
is_even value = value % 2 == 0

abbrev pub is_odd : ℕ → Bool
is_odd value = not (value % 2 == 0)

unfoldable pub is_request : Operation → Bool
is_request op = is_even op

unfoldable pub is_response : Operation → Bool
is_response op = is_odd op

unfoldable pub is_session_class : ConceptualOperation → Bool
is_session_class version = true
is_session_class auth = true
is_session_class attach = true
is_session_class flush = true
is_session_class error = true
is_session_class _ = false

unfoldable pub is_file_class : ConceptualOperation → Bool
is_file_class walk = true
is_file_class open_ = true
is_file_class create = true
is_file_class read = true
is_file_class write = true
is_file_class clunk = true
is_file_class _ = false

unfoldable pub is_metadata_class : ConceptualOperation → Bool
is_metadata_class stat = true
is_metadata_class wstat = true
is_metadata_class _ = false

-- The switch over the T codes in `expectedResponseKind`.
unfoldable pub response_among : List (ConceptualOperation × Operation) → Operation → Operation
response_among [] op = r_bad
response_among ((kind, code) ∷ kinds) op = if op == code then code + 1 else response_among kinds op

unfoldable pub expected_response_kind : Operation → Operation
unfolding is_response response_among
expected_response_kind op = if is_response op then r_bad else response_among protocol_kinds op

pub data MessageDirection : Type 0 where
  request response : MessageDirection

-- Message.h
unfoldable pub translate_concept : ConceptualOperation → MessageDirection → Operation
unfolding get_t_message_form get_r_message_form
translate_concept undefined request = t_bad
translate_concept undefined response = r_bad
translate_concept op request = get_t_message_form op
translate_concept op response = get_r_message_form op
