-- ===== src/Exception.antt =====
-- Exception.h and Exception.cc: the text of an exception, from the arguments of its throw. An
-- ostringstream writes a text as it is and a number in decimal.
pub mod Decimal
pub mod What
use Prim.Native.Char.{code}
use Prim.Native.String.{String}
use libkzr.Prelude.{ℕ, zero, suc, ◌+◌, ◌/◌, ◌%◌, ltb, ◌==◌, if◌then◌else◌, List, [], ◌∷◌, ◌++◌}
use libkzr.Outcome.{
  Exception, string_too_long, vector_too_long, bad_bit_during_write, undefined_request,
  undefined_response, storage_too_large, illegal_type, bad_state, message_too_long, only_wrote,
  expected_four_bytes, size_below_four, only_read, not_enough_bytes, mode_already_set,
  invalid_socket_dial, invalid_socket_announce, no_connect, no_socket_options, no_bind, no_listen,
}
use libkzr.MessageStream.{Text}

-- The characters of a literal.
abbrev pub codes : String → Text
codes String.[] = []
codes (String.◌∷◌ c s) = code c ∷ codes s

-- Decimal digits, highest first; every round but the last divides by 10, so the number itself is more
-- than enough fuel.
unfoldable pub digits_of : ℕ → ℕ → Text
digits_of zero n = (n % 10 + b'0') ∷ []
digits_of (suc fuel) n =
    let rest = digits_of fuel (n / 10) in
    if ltb n 10 then (n + b'0') ∷ [] else rest ++ (n % 10 + b'0') ∷ []

unfoldable pub decimal : ℕ → Text
unfolding digits_of
decimal n = digits_of n n

-- An argument of the constructor.
pub data Argument : Type 0 where
  text : String → Argument
  number : ℕ → Argument

unfoldable pub shown : Argument → Text
unfolding decimal
shown (text s) = codes s
shown (number n) = decimal n

-- `(os << ... << args)`
unfoldable pub streamed : List Argument → Text
unfolding shown
streamed [] = []
streamed (a ∷ rest) = shown a ++ streamed rest

-- The arguments of each throw, as they stand where it is thrown.
abbrev string_too_long_arguments : ℕ → List Argument
string_too_long_arguments n =
    text "Attempted to encode a string of "
    ∷ number n
    ∷ text " characters when "
    ∷ number 65535
    ∷ text " is the maximum allowed!"
    ∷ []

abbrev vector_too_long_arguments : ℕ → List Argument
vector_too_long_arguments n =
    text "Attempted to encode a std::vector<T> of "
    ∷ number n
    ∷ text " elements when "
    ∷ number 65535
    ∷ text " is the maximum allowed!"
    ∷ []

abbrev bad_bit_during_write_arguments : List Argument
bad_bit_during_write_arguments = text "bad bit set during write!" ∷ []

abbrev undefined_request_arguments : List Argument
undefined_request_arguments = text "Undefined request!" ∷ []

abbrev undefined_response_arguments : List Argument
undefined_response_arguments = text "Undefined response!" ∷ []

abbrev storage_too_large_arguments : List Argument
storage_too_large_arguments = text "data storage too large for transmission" ∷ []

abbrev illegal_type_arguments : List Argument
illegal_type_arguments = text "Illegal type found!" ∷ []

abbrev bad_state_arguments : List Argument
bad_state_arguments = text "Cannot deduce type because message is not in a good state!" ∷ []

abbrev message_too_long_arguments : List Argument
message_too_long_arguments = text "length of the message is too long to write out!" ∷ []

abbrev only_wrote_arguments : ℕ → ℕ → List Argument
only_wrote_arguments n m =
    text "Only wrote " ∷ number n ∷ text "bytes of a " ∷ number m ∷ text " bytes long message!" ∷ []

abbrev expected_four_bytes_arguments : ℕ → List Argument
expected_four_bytes_arguments n =
    text "Expected to read 4 bytes but only read " ∷ number n ∷ text "!" ∷ []

abbrev size_below_four_arguments : List Argument
size_below_four_arguments = text "Expected at least 4 bytes as the size of the message!" ∷ []

abbrev only_read_arguments : ℕ → ℕ → List Argument
only_read_arguments n m =
    text "only able to read " ∷ number n ∷ text "/" ∷ number m ∷ text " bytes!" ∷ []

abbrev not_enough_bytes_arguments : List Argument
not_enough_bytes_arguments = text "Not enough bytes read!" ∷ []

abbrev mode_already_set_arguments : List Argument
mode_already_set_arguments = text "SocketConnection's mode is already set" ∷ []

abbrev invalid_socket_dial_arguments : List Argument
invalid_socket_dial_arguments = text "Provided socket is not valid! Cannot dial!" ∷ []

abbrev invalid_socket_announce_arguments : List Argument
invalid_socket_announce_arguments = text "Provided socket is not valid! Cannot announce!" ∷ []

abbrev no_connect_arguments : List Argument
no_connect_arguments = text "Could not connect to unix domain socket" ∷ []

abbrev no_socket_options_arguments : List Argument
no_socket_options_arguments = text "Could not set socket options!" ∷ []

abbrev no_bind_arguments : List Argument
no_bind_arguments = text "Could not bind socket!" ∷ []

abbrev no_listen_arguments : List Argument
no_listen_arguments = text "Could not listen on socket!" ∷ []

unfoldable pub arguments : Exception → List Argument
arguments (string_too_long n) = string_too_long_arguments n
arguments (vector_too_long n) = vector_too_long_arguments n
arguments bad_bit_during_write = bad_bit_during_write_arguments
arguments undefined_request = undefined_request_arguments
arguments undefined_response = undefined_response_arguments
arguments storage_too_large = storage_too_large_arguments
arguments illegal_type = illegal_type_arguments
arguments bad_state = bad_state_arguments
arguments message_too_long = message_too_long_arguments
arguments (only_wrote n m) = only_wrote_arguments n m
arguments (expected_four_bytes n) = expected_four_bytes_arguments n
arguments size_below_four = size_below_four_arguments
arguments (only_read n m) = only_read_arguments n m
arguments not_enough_bytes = not_enough_bytes_arguments
arguments mode_already_set = mode_already_set_arguments
arguments invalid_socket_dial = invalid_socket_dial_arguments
arguments invalid_socket_announce = invalid_socket_announce_arguments
arguments no_connect = no_connect_arguments
arguments no_socket_options = no_socket_options_arguments
arguments no_bind = no_bind_arguments
arguments no_listen = no_listen_arguments

-- `_message`
unfoldable pub message : Exception → Text
unfolding streamed arguments
message e = streamed (arguments e)

-- What a caller of `what()` sees: the characters of `c_str()` in front of the first NUL.
unfoldable pub c_string : Text → Text
c_string [] = []
c_string (c ∷ cs) = let rest = c_string cs in if c == 0 then [] else c ∷ rest

unfoldable pub what : Exception → Text
unfolding c_string message
what e = c_string (message e)
