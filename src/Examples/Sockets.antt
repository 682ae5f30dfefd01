-- ===== src/Examples/Sockets.antt =====
-- The types of sockets with the constants of Linux, and the lifetime of a Unix domain socket.
use libkzr.Prelude.{ℕ, ◌+◌, ◌≡◌, refl, true, false, [], ◌∷◌, bit_and, arith}
use libkzr.Prelude.Int.{negsuc}
use libkzr.SocketConnection.Kinds
use libkzr.SocketConnection.Kinds.{
  SocketConstants, IsSocketConstants, SocketDomain, SocketKind, SocketType, is_non_blocking,
  is_close_on_exec,
}
use libkzr.SocketConnection.Kinds.Flags.{flags-type_value}
use libkzr.Outcome.{returns, ◌>>=◌}
use libkzr.FileHandleConnection.{is_valid_handle}
use libkzr.SocketConnection.{dial}
use libkzr.SocketConnection.Modes.{dials, announces, call}
use libkzr.UnixDomainSocketConnection.{SocketSystem, new_unix_domain_socket, perform_dial}
use libkzr.UnixDomainSocketConnection.Lifetime.{FirstFits, lifetime, lifetime_closes}
use libkzr.Examples.Connections.{sockets, tmp, taking}

abbrev linux_family : SocketDomain → ℕ
linux_family Kinds.unix = 1
linux_family Kinds.local = 1
linux_family Kinds.ipv4 = 2
linux_family Kinds.ax25 = 3
linux_family Kinds.ipx = 4
linux_family Kinds.apple_talk = 5
linux_family Kinds.atmpvc = 8
linux_family Kinds.x25 = 9
linux_family Kinds.ipv6 = 10
linux_family Kinds.netlink = 16
linux_family Kinds.low_level_packet = 17
linux_family Kinds.kernel_crypto_api = 38

abbrev linux_kind : SocketKind → ℕ
linux_kind Kinds.stream = 1
linux_kind Kinds.datagram = 2
linux_kind Kinds.raw = 3
linux_kind Kinds.reliable_datagram = 4
linux_kind Kinds.sequenced_packet = 5

abbrev linux : SocketConstants
linux = record {
  family = linux_family;
  kind = linux_kind;
  sock_nonblock = 0x800;
  sock_cloexec = 0x80000;
}

nonblock_apart : (k : SocketKind) → bit_and (linux_kind k) 0x800 ≡ 0
nonblock_apart Kinds.stream = refl
nonblock_apart Kinds.datagram = refl
nonblock_apart Kinds.raw = refl
nonblock_apart Kinds.reliable_datagram = refl
nonblock_apart Kinds.sequenced_packet = refl

cloexec_apart : (k : SocketKind) → bit_and (linux_kind k) 0x80000 ≡ 0
cloexec_apart Kinds.stream = refl
cloexec_apart Kinds.datagram = refl
cloexec_apart Kinds.raw = refl
cloexec_apart Kinds.reliable_datagram = refl
cloexec_apart Kinds.sequenced_packet = refl

linux-IsSocketConstants : IsSocketConstants linux
linux-IsSocketConstants = record {
  nonblock_set = λ e. omega arith;
  cloexec_set = λ e. omega arith;
  flags_apart = refl;
  kind-nonblock = nonblock_apart;
  kind-cloexec = cloexec_apart;
}

flags-type_value_example :
    (is_non_blocking linux (Kinds.non_blocking Kinds.stream) ≡ true)
    × (is_close_on_exec linux (Kinds.non_blocking Kinds.stream) ≡ false)
flags-type_value_example =
    flags-type_value linux linux-IsSocketConstants (Kinds.non_blocking Kinds.stream)

-- socket(2), connect(2) and close(2) are three calls.
lifetime_closes_example :
    lifetime taking sockets linux (dials tmp ∷ announces tmp ∷ []) 0 ≡ (returns tt, 3)
unfolding call dial new_unix_domain_socket is_valid_handle perform_dial ◌>>=◌ FirstFits
lifetime_closes_example =
    lifetime_closes taking sockets linux (dials tmp ∷ announces tmp ∷ []) 0 3 refl (omega arith)

-- A system without sockets.
abbrev no_sockets : SocketSystem ℕ
no_sockets = record sockets { sys_socket = λ domain type protocol calls. (negsuc 0, calls + 1) }
