-- ===== src/UnixDomainSocketConnection/Lifetime.antt =====
-- A Unix domain socket from its constructor, over the calls of its user, to its destructor.
use libkzr.Prelude.{ℕ, ◌<◌, ◌≡◌, ◌≢◌, refl, ap, ◌∙◌, true, false, List, [], ◌∷◌, length}
use libkzr.Outcome.{Outcome, Action, returns, throws}
use libkzr.Prelude.Int.{ℤ, pos, negsuc}
use libkzr.FileHandleConnection.{System, FileHandle, is_valid_handle, destruct}
use libkzr.SocketConnection.{SocketConnection, undefined}
use libkzr.SocketConnection.Kinds.{SocketConstants, domain_value, type_value, unix, plain, stream}
use libkzr.SocketConnection.Modes.{
  Call, dials, announces, call, settled, run, run-first, run-invalid, dial_fresh, announce_fresh,
}
use libkzr.UnixDomainSocketConnection.{
  SocketSystem, new_unix_domain_socket, perform_dial, perform_announce,
}
use libkzr.UnixDomainSocketConnection.Address.{IsPlain, dial_defined}
use libkzr.UnixDomainSocketConnection.Announce.{announce_defined}

module _ {W : Type 0} (files : System W) (sys : SocketSystem W) (c : SocketConstants) where
  -- What socket(2) returns to the constructor.
  abbrev pub descriptor : W → ℤ × W
  descriptor w =
      sys.sys_socket (pos (domain_value c unix)) (pos (type_value c (plain stream))) (pos 0) w

  abbrev pub used : List Call → Action (SocketConnection × W) (Unit {0})
  used calls p = run (perform_dial sys) (perform_announce sys) calls p

  -- The destructor at the end of the scope, which is reached unless the calls are undefined behaviour.
  abbrev pub destroyed : Outcome (Unit {0}) × (SocketConnection × W) → Outcome (Unit {0}) × W
  destroyed (Outcome.undefined, (s, w)) = (Outcome.undefined, w)
  destroyed (r, (s, w)) = (r, destruct files s.file w)

  -- A user who catches the exceptions of the calls: how it ends, and the system then.
  unfoldable pub lifetime : List Call → Action W (Unit {0})
  lifetime calls w = destroyed (used calls (new_unix_domain_socket sys c w))

  -- The address of the first call has no NULs and is shorter than sun_path.
  unfoldable pub FirstFits : List Call → Type 0
  FirstFits [] = Unit {0}
  FirstFits (dials address ∷ calls) = IsPlain address × (length address < 108)
  FirstFits (announces address ∷ calls) = IsPlain address × (length address < 108)

  -- The system in front of the destructor, if the descriptor is valid.
  abbrev pub left_by : List Call → W → W
  left_by [] w = (new_unix_domain_socket sys c w).1
  left_by (first ∷ calls) w =
      (call (perform_dial sys) (perform_announce sys) first (new_unix_domain_socket sys c w)).1.1

  call-file :
      (first : Call) (s : SocketConnection) (w : W)
      → s.mode ≡ undefined
      → is_valid_handle s.file ≡ true
      → (call (perform_dial sys) (perform_announce sys) first (s, w)).1.0.file ≡ s.file
  call-file (dials addr) s w e v =
      rw (dial_fresh (perform_dial sys) (perform_announce sys) addr s w e v)
  call-file (announces addr) s w e v =
      rw (announce_fresh (perform_dial sys) (perform_announce sys) addr s w e v)

  opened_mode : (w : W) → (new_unix_domain_socket sys c w).0.mode ≡ undefined
  unfolding new_unix_domain_socket
  opened_mode w = refl

  opened_file :
      (w : W)
      → (new_unix_domain_socket sys c w).0.file
        ≡ record { handle = (descriptor w).0; destroy = true }
  unfolding new_unix_domain_socket
  opened_file w = refl

  opened_system : (w : W) → (new_unix_domain_socket sys c w).1 ≡ (descriptor w).1
  unfolding new_unix_domain_socket
  opened_system w = refl

  valid_opened :
      (w : W) (fd : ℕ)
      → (descriptor w).0 ≡ pos fd
      → is_valid_handle (new_unix_domain_socket sys c w).0.file ≡ true
  unfolding is_valid_handle
  valid_opened w fd e = rw (opened_file w, e)

  closes :
      (w w' : W) (fd : ℕ) (file : FileHandle)
      → (descriptor w).0 ≡ pos fd
      → file ≡ (new_unix_domain_socket sys c w).0.file
      → destruct files file w' ≡ files.sys_close (pos fd) w'
  unfolding destruct
  closes w w' fd file e same = rw (same, opened_file w, e)

  -- If socket(2) fails, whatever the user calls, there is no other system call, also not in the
  -- destructor.
  pub lifetime_invalid :
      (calls : List Call) (w : W) (n : ℕ)
      → (descriptor w).0 ≡ negsuc n
      → lifetime calls w ≡ (returns tt, (descriptor w).1)
  unfolding lifetime is_valid_handle destruct
  lifetime_invalid calls w n e =
      let (s, w') = new_unix_domain_socket sys c w in
      let invalid : is_valid_handle s.file ≡ false = rw (opened_file w, e) in
      rw (run-invalid (perform_dial sys) (perform_announce sys) calls s w' (opened_mode w) invalid)
        (rw (opened_file w, e, opened_system w))

  settled_defined : (r : Outcome (Unit {0})) → r ≢ Outcome.undefined → settled r ≡ returns tt
  unfolding settled
  settled_defined (returns a) h = refl
  settled_defined (throws e) h = refl
  settled_defined Outcome.undefined h = absurd (h refl)

  first_defined :
      (first : Call) (calls : List Call) (s : SocketConnection) (w : W)
      → FirstFits (first ∷ calls)
      → s.mode ≡ undefined
      → is_valid_handle s.file ≡ true
      → (call (perform_dial sys) (perform_announce sys) first (s, w)).0 ≢ Outcome.undefined
  unfolding FirstFits call
  first_defined (dials address) calls s w (no_nuls, short) e v =
      dial_defined sys address s w no_nuls short e v
  first_defined (announces address) calls s w (no_nuls, short) e v =
      announce_defined sys address s w no_nuls short e v

  -- If socket(2) returns a descriptor, and the address of the first call of the user has no NULs and
  -- less than 108 characters, the lifetime of the socket ends without undefined behaviour: the first
  -- call takes place, if there is one, no later one does, and the destructor closes that descriptor.
  pub lifetime_closes :
      (calls : List Call) (w : W) (fd : ℕ)
      → (descriptor w).0 ≡ pos fd
      → FirstFits calls
      → lifetime calls w ≡ (returns tt, files.sys_close (pos fd) (left_by calls w))
  unfolding lifetime run
  lifetime_closes [] w fd e fits =
      ap (λ w. (returns tt, w))
        (closes w (new_unix_domain_socket sys c w).1 fd (new_unix_domain_socket sys c w).0.file e
          refl)
  lifetime_closes (first ∷ calls) w fd e fits =
      let (s, w') = new_unix_domain_socket sys c w in
      let valid = valid_opened w fd e in
      let done = call (perform_dial sys) (perform_announce sys) first (s, w') in
      let settles =
        settled_defined done.0 (first_defined first calls s w' fits (opened_mode w) valid) in
      ap destroyed (
        run-first (perform_dial sys) (perform_announce sys) first calls s w' (opened_mode w) valid
        ∙ ap (λ r. (r, done.1)) settles)
      ∙ ap (λ w. (returns tt, w))
          (closes w done.1.1 fd done.1.0.file e (call-file first s w' (opened_mode w) valid))
