-- ===== src/SocketConnection/Kinds.antt =====
-- SocketDomain and SocketType of SocketConnection.h. Their values are constants of <sys/socket.h>, which
-- are a parameter.
pub mod Flags
use libkzr.Prelude.{ℕ, ◌≡◌, ◌≢◌, Bool, not, bit_and, bit_or, ◌==◌}

-- One for each family that the header names.
pub data SocketDomain : Type 0 where
  unix local ipv4 ipv6 ipx netlink x25 ax25 atmpvc apple_talk low_level_packet : SocketDomain
  kernel_crypto_api : SocketDomain

-- The aliases of the macro `X`.
pub data SocketKind : Type 0 where
  stream datagram sequenced_packet raw reliable_datagram : SocketKind

-- The four names that `X` makes of an alias.
pub data SocketType : Type 0 where
  plain non_blocking close_on_exec non_blocking_close_on_exec : SocketKind → SocketType

pub record SocketConstants : Type 0 where
  pub family : SocketDomain → ℕ
  pub kind : SocketKind → ℕ
  pub sock_nonblock : ℕ
  pub sock_cloexec : ℕ

-- socket(2): the flags are or-ed to a kind, so they are not 0 and share no bit with each other or with
-- a kind.
pub record IsSocketConstants (c : SocketConstants) : Type 0 where
  pub nonblock_set : c.sock_nonblock ≢ 0
  pub cloexec_set : c.sock_cloexec ≢ 0
  pub flags_apart : bit_and c.sock_nonblock c.sock_cloexec ≡ 0
  pub kind-nonblock : (k : SocketKind) → bit_and (c.kind k) c.sock_nonblock ≡ 0
  pub kind-cloexec : (k : SocketKind) → bit_and (c.kind k) c.sock_cloexec ≡ 0

module _ (c : SocketConstants) where
  unfoldable pub domain_value : SocketDomain → ℕ
  domain_value d = c.family d

  unfoldable pub type_value : SocketType → ℕ
  type_value (plain k) = c.kind k
  type_value (non_blocking k) = bit_or (c.kind k) c.sock_nonblock
  type_value (close_on_exec k) = bit_or (c.kind k) c.sock_cloexec
  type_value (non_blocking_close_on_exec k) =
      bit_or (bit_or (c.kind k) c.sock_nonblock) c.sock_cloexec

  unfoldable pub is_non_blocking : SocketType → Bool
  unfolding type_value
  is_non_blocking t = not (bit_and (type_value t) c.sock_nonblock == 0)

  unfoldable pub is_close_on_exec : SocketType → Bool
  unfolding type_value
  is_close_on_exec t = not (bit_and (type_value t) c.sock_cloexec == 0)
