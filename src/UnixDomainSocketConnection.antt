-- ===== src/UnixDomainSocketConnection.antt =====
-- UnixDomainSocketConnection.h and UnixDomainSocketConnection.cc: the address of a Unix domain socket,
-- and the system calls that connect to it or listen on it. The calls are a parameter.
pub mod Address
pub mod Announce
pub mod Lifetime
use libkzr.Prelude.{
  ℕ, zero, suc, ◌+◌, ◌-◌, Bool, true, false, Option, none, some, List, [], ◌∷◌, ◌++◌, length, take,
  replicate, ◌==◌, if◌then◌else◌,
}
use libkzr.Prelude.Int.{ℤ, pos, negsuc, is_negative}
use libkzr.Outcome.{
  Outcome, returns, throws, Action, pure, throw, undefined_behaviour, ◌>>=◌, ◌>>◌, no_connect,
  no_socket_options, no_bind, no_listen,
}
use libkzr.MessageStream.{Text}
use libkzr.SocketConnection.Kinds.{SocketConstants, domain_value, type_value, unix, plain, stream}
use libkzr.SocketConnection.{SocketConnection, dial, announce, new_socket}

-- sizeof(sun_path) on Linux, and the bytes in front of it.
abbrev pub path_size : ℕ
path_size = 108

abbrev pub path_offset : ℕ
path_offset = 2

-- sockaddr_un behind its family, which is always AF_UNIX.
abbrev pub SunPath : Type 0
SunPath = List ℕ

-- The address copied over `n` zero bytes; `copy` writes `n` characters at most, and no terminator.
unfoldable pub copied : ℕ → Text → SunPath
copied zero address = []
copied (suc n) [] = 0 ∷ copied n []
copied (suc n) (c ∷ address) = c ∷ copied n address

-- `strlen`: none if it runs over the end of the array.
unfoldable pub strlen : SunPath → Option ℕ
strlen [] = none
strlen (c ∷ path) =
    let rest = strlen path in
    if c == 0 then some 0 else elim rest [ none ↦ none | some n ↦ some (suc n) ]

unfoldable pub sun_len : Option ℕ → Option ℕ
sun_len none = none
sun_len (some n) = some (path_offset + n)

-- The structure and its length; the length is undefined if the path has no terminator.
unfoldable pub setup_structures : Text → SunPath × Option ℕ
unfolding copied strlen sun_len
setup_structures address = let path = copied path_size address in (path, sun_len (strlen path))

-- The system calls, with their results; the descriptor comes first, and socket(2) returns it.
pub record SocketSystem (W : Type 0) : Type 0 where
  pub sys_socket : ℤ → ℤ → ℤ → W → ℤ × W
  pub sys_connect : ℤ → SunPath → ℕ → W → ℤ × W
  pub sys_ignore_sigpipe : W → W
  pub sys_reuse_address : ℤ → W → ℤ × W
  pub sys_unlink : Text → W → W
  pub sys_bind : ℤ → SunPath → ℕ → W → ℤ × W
  pub sys_chmod_user : Text → W → W
  pub sys_listen : ℤ → ℕ → W → ℤ × W

abbrev pub is_zero : ℤ → Bool
is_zero (pos zero) = true
is_zero (pos (suc n)) = false
is_zero (negsuc n) = false

abbrev pub maximum_cache_size : ℕ
maximum_cache_size = 32

module _ {W : Type 0} where
  abbrev pub system : (W → ℤ × W) → Action W ℤ
  system f w = let (n, w') = f w in (returns n, w')

  abbrev pub effect : (W → W) → Action W (Unit {0})
  effect f w = (returns tt, f w)

  abbrev pub defined : Option ℕ → Action W ℕ
  defined none = undefined_behaviour
  defined (some n) = pure n

  abbrev pub require : Bool → Action W (Unit {0}) → Action W (Unit {0})
  require true failure = pure tt
  require false failure = failure

module _ {W : Type 0} (sys : SocketSystem W) where
  unfoldable pub perform_dial : SocketConnection → Action W (Unit {0})
  unfolding setup_structures
  perform_dial s = do
    let sa = setup_structures s.address
    salen ← defined sa.1
    result ← system (sys.sys_connect s.file.handle sa.0 salen)
    require (is_zero result) (throw no_connect)

  unfoldable pub perform_announce : SocketConnection → Action W (Unit {0})
  unfolding setup_structures
  perform_announce s = do
    effect sys.sys_ignore_sigpipe
    let sa = setup_structures s.address
    salen ← defined sa.1
    options ← system (sys.sys_reuse_address s.file.handle)
    if is_negative options then throw no_socket_options else pure tt
    effect (sys.sys_unlink s.address)
    bound ← system (sys.sys_bind s.file.handle sa.0 salen)
    if is_negative bound then throw no_bind else pure tt
    effect (sys.sys_chmod_user s.address)
    listening ← system (sys.sys_listen s.file.handle maximum_cache_size)
    if is_negative listening then throw no_listen else pure tt

  -- The constructor: a socket of the domain Unix and the type Stream, with protocol 0.
  unfoldable pub new_unix_domain_socket : SocketConstants → W → SocketConnection × W
  unfolding new_socket domain_value type_value
  new_unix_domain_socket c w =
      let domain = pos (domain_value c unix) in
      let type = pos (type_value c (plain stream)) in
      let (descriptor, w') = sys.sys_socket domain type (pos 0) w in
      (new_socket descriptor domain type (pos 0), w')
