-- ===== src/UnixDomainSocketConnection/Announce.antt =====
-- The system calls of `performAnnounce` as data, and how far a call of `announce` gets in them.
use libkzr.Prelude.{
  ℕ, ◌+◌, ◌-◌, ◌≤◌, ◌<◌, lt_or_le, true, ◌≡◌, ◌≢◌, sym, ap, ◌∙◌, Bool-cases, inl, inr, List, [],
  ◌∷◌, ◌++◌, length, replicate, ltb, lt→ltb, le→ltb, Option, none, some, if◌then◌else◌,
}
use libkzr.Prelude.Int.{ℤ, is_negative}
use libkzr.Outcome.{
  Outcome, Exception, returns, throws, undefined, Action, ◌>>=◌, no_socket_options, no_bind,
  no_listen,
}
use libkzr.MessageStream.{Text}
use libkzr.FileHandleConnection.{is_valid_handle}
use libkzr.SocketConnection.{SocketConnection, announce, listen}
use libkzr.SocketConnection
use libkzr.UnixDomainSocketConnection.{SunPath, SocketSystem, perform_announce}
use libkzr.UnixDomainSocketConnection.Address.{
  IsPlain, terminated, copied-fits, sun_len-terminated, sun_len-copied_long,
}

-- A call on the descriptor of the socket; the kernel's answer is looked at for three of them.
pub data SystemCall : Type 0 where
  ignores_sigpipe reuses_address : SystemCall
  unlinks : Text → SystemCall
  binds : SunPath → ℕ → SystemCall
  permits_user : Text → SystemCall
  listens : ℕ → SystemCall

module _ {W : Type 0} (sys : SocketSystem W) where
  -- A call, with the exception for a negative answer.
  abbrev pub carry_out : ℤ → SystemCall → W → Option Exception × W
  carry_out fd ignores_sigpipe w = (none, sys.sys_ignore_sigpipe w)
  carry_out fd reuses_address w =
      let (n, w') = sys.sys_reuse_address fd w in
      ((if is_negative n then some no_socket_options else none), w')
  carry_out fd (unlinks path) w = (none, sys.sys_unlink path w)
  carry_out fd (binds path len) w =
      let (n, w') = sys.sys_bind fd path len w in
      ((if is_negative n then some no_bind else none), w')
  carry_out fd (permits_user path) w = (none, sys.sys_chmod_user path w)
  carry_out fd (listens backlog) w =
      let (n, w') = sys.sys_listen fd backlog w in
      ((if is_negative n then some no_listen else none), w')

  abbrev pub stop_or : Option Exception → Action W (Unit {0}) → Action W (Unit {0})
  stop_or none next w = next w
  stop_or (some e) next w = (throws e, w)

  -- The calls in turn up to the first that fails, and `last` once all are made.
  abbrev pub carry_out_all : ℤ → List SystemCall → Outcome (Unit {0}) → W → Outcome (Unit {0}) × W
  carry_out_all fd [] last w = (last, w)
  carry_out_all fd (c ∷ cs) last w =
      let (failed, w') = carry_out fd c w in stop_or failed (carry_out_all fd cs last) w'

-- What announcing an address comes to: six calls, or, if the address fills sun_path, the first of them
-- and then undefined behaviour.
abbrev pub announce_calls : Text → List SystemCall
announce_calls address =
    if ltb (length address) 108
    then (ignores_sigpipe
        ∷ reuses_address
        ∷ unlinks address
        ∷ binds (address ++ replicate (108 - length address) 0) (2 + length address)
        ∷ permits_user address
        ∷ listens 32
        ∷ [])
    else ignores_sigpipe ∷ []

abbrev pub announce_end : Text → Outcome (Unit {0})
announce_end address = if ltb (length address) 108 then returns tt else undefined

module _ {W : Type 0} (sys : SocketSystem W) where
  -- The calls that are made where the address fits.
  perform_short :
      (s : SocketConnection) (w : W)
      → IsPlain s.address
      → length s.address < 108
      → perform_announce sys s w
        ≡ carry_out_all sys s.file.handle (announce_calls s.address) (returns tt) w
  unfolding perform_announce ◌>>=◌
  perform_short s w plain short =
      let path = terminated s.address in
      let (options, w1) = sys.sys_reuse_address s.file.handle (sys.sys_ignore_sigpipe w) in
      let (bound, w2) =
        sys.sys_bind s.file.handle path (2 + length s.address) (sys.sys_unlink s.address w1) in
      let (listening, w3) = sys.sys_listen s.file.handle 32 (sys.sys_chmod_user s.address w2) in
      simp
        (
          copied-fits s.address short,
          sun_len-terminated s.address plain short,
          lt→ltb (length s.address) 108 short,
        )
        (elim (Bool-cases (is_negative options)) [
          | inl failed ↦ rw failed
          | inr set ↦ rw set (elim (Bool-cases (is_negative bound)) [
            | inl failed ↦ rw failed
            | inr done ↦ rw done (elim (Bool-cases (is_negative listening)) [
              | inl failed ↦ rw failed
              | inr ready ↦ rw ready
            ])
          ])
        ])

  perform_long :
      (s : SocketConnection) (w : W)
      → IsPlain s.address
      → 108 ≤ length s.address
      → perform_announce sys s w
        ≡ carry_out_all sys s.file.handle (announce_calls s.address) undefined w
  unfolding perform_announce ◌>>=◌
  perform_long s w plain long =
      simp (sun_len-copied_long s.address plain long, le→ltb (length s.address) 108 long)

  perform_any :
      (s : SocketConnection) (w : W)
      → IsPlain s.address
      → perform_announce sys s w
        ≡ carry_out_all sys s.file.handle (announce_calls s.address) (announce_end s.address) w
  perform_any s w plain = elim (lt_or_le (length s.address) 108) [
    | inl short ↦
        perform_short s w plain short
        ∙ ap
            (λ b.
              carry_out_all sys s.file.handle (announce_calls s.address)
                (if b then returns tt else undefined) w)
            (sym (lt→ltb (length s.address) 108 short))
    | inr long ↦
        perform_long s w plain long
        ∙ ap
            (λ b.
              carry_out_all sys s.file.handle (announce_calls s.address)
                (if b then returns tt else undefined) w)
            (sym (le→ltb (length s.address) 108 long))
  ]

  -- Announcing an address without NULs on a fresh valid socket sets the mode and the address, and makes
  -- the calls for it in turn up to the first that fails, whose exception it throws. With less than 108
  -- characters these are: ignore SIGPIPE, reuse the address, unlink the path, bind it (its characters,
  -- NULs up to the end of sun_path, and a length of two bytes more), restrict it to the user, and listen
  -- with a backlog of 32, and then it returns. Otherwise it is the first of them, and then undefined
  -- behaviour.
  pub announce-carry_out_all :
      (address : Text) (s : SocketConnection) (w : W)
      → IsPlain address
      → s.mode ≡ SocketConnection.undefined
      → is_valid_handle s.file ≡ true
      → let ended =
          carry_out_all sys s.file.handle (announce_calls address) (announce_end address) w in
        announce (perform_announce sys) address (s, w)
        ≡ (ended.0, (record s { mode = listen; address = address }, ended.1))
  unfolding announce
  announce-carry_out_all address s w plain e v =
      let s' = record s { mode = listen; address = address } in simp (e, v, perform_any s' w plain)

  stop_or_defined :
      (failed : Option Exception) (next : Action W (Unit {0})) (w : W)
      → (next w).0 ≢ undefined
      → (stop_or sys failed next w).0 ≢ undefined
  stop_or_defined none next w h = h
  stop_or_defined (some e) next w h = λ p. cc

  -- Calls that fail throw, so a sequence that ends by returning is defined.
  carry_out_all_defined :
      (fd : ℤ) (cs : List SystemCall) (w : W)
      → (carry_out_all sys fd cs (returns tt) w).0 ≢ undefined
  carry_out_all_defined fd [] w = λ p. cc
  carry_out_all_defined fd (c ∷ cs) w =
      stop_or_defined (carry_out sys fd c w).0 (carry_out_all sys fd cs (returns tt))
        (carry_out sys fd c w).1 (carry_out_all_defined fd cs (carry_out sys fd c w).1)

  pub announce_defined :
      (address : Text) (s : SocketConnection) (w : W)
      → IsPlain address
      → length address < 108
      → s.mode ≡ SocketConnection.undefined
      → is_valid_handle s.file ≡ true
      → (announce (perform_announce sys) address (s, w)).0 ≢ undefined
  announce_defined address s w plain short e v =
      let ends : announce_end address ≡ returns tt = rw (lt→ltb (length address) 108 short) in
      λ p. carry_out_all_defined s.file.handle (announce_calls address) w (
        ap (λ last. (carry_out_all sys s.file.handle (announce_calls address) last w).0) (sym ends)
        ∙ ap (λ r. r.0) (sym (announce-carry_out_all address s w plain e v))
        ∙ p)
