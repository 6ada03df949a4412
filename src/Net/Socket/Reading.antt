-- ===== src/Net/Socket/Reading.antt =====
-- How much `SocketEvent::read_data` of src/net/socket_event.rs reads at a time.
use tunm.Prelude.{
  ℕ, ◌+◌, ◌≤◌, ◌≡◌, refl, sym, subst, ap, ◌∙◌, Bool, true, false, List, [], ◌∷◌, ◌++◌, length, take,
  drop, min, length-append, length-take, take-append-drop, append-nil, append_assoc, arith, ltb,
  ◌==◌, if◌then◌else◌, Bool-cases, inl, inr,
}
use tunm.Net.Buffer.{ProtoBuffer, BufferLaws}
use tunm.Net.Msg.Laws.{take-append}
use tunm.Net.Socket.{
  SocketEvent, ReadResult, ready, would_block, interrupted, other_error, read_rounds, read_data,
}

module _ (B : ProtoBuffer) (laws : BufferLaws B) where
  open B use {Buffer, val, get_wpos, get_read_array, fill_read_array, write_offset}

  -- The bytes up to the position to write at; behind it stands what was lent and not filled.
  pub record Front (b : Buffer) (v : List ℕ) : Type 0 where
    pub fits : get_wpos b ≤ length (val b)
    pub bytes : take (get_wpos b) (val b) ≡ v
    pub wpos : get_wpos b ≡ length v

  -- How much the reads can give: each what is ready, but no more than 2048 bytes, up to the first that
  -- would block.
  pub offered : List (ReadResult B) → ℕ
  offered [] = 0
  offered (ready k ∷ more) = min k 2048 + offered more
  offered (would_block ∷ more) = 0
  offered (interrupted ∷ more) = offered more
  offered (other_error ∷ more) = 0

  -- What was read after `n` bytes: the first of what the connection has to give, not much over the limit,
  -- and all that the reads can give unless the connection is to be closed.
  pub record WasRead (n : ℕ) (old pending : List ℕ) (results : List (ReadResult B))
      (r : Buffer × Bool) : Type 0 where
    pub got : List ℕ
    pub left : List ℕ
    pub all : pending ≡ got ++ left
    pub held : Front r.0 (old ++ got)
    pub bounded : n + length got ≤ 657408
    pub complete : r.1 ≡ false → length got ≡ min (offered results) (length pending)

  lent-Front : (b : Buffer) (v : List ℕ) → Front b v → Front (get_read_array 2048 b).0 v
  lent-Front b v f =
      let (same, front, room) = laws.get_read_array_keeps 2048 b f.fits in
      record {
        fits = omega (arith, same, room);
        bytes = ap (λ p. take p (val (get_read_array 2048 b).0)) same ∙ front ∙ f.bytes;
        wpos = same ∙ f.wpos;
      }

  moved-Front :
      (d : List ℕ) (b : Buffer) (v : List ℕ)
      → Front b v
      → get_wpos b + length d ≤ length (val b)
      → Front (write_offset (length d) (fill_read_array d b)) (v ++ d)
  moved-Front d b v f h =
      let tail = drop (get_wpos b + length d) (val b) in
      let (filled, kept) = laws.fill_read_array_bytes d b h in
      let held : val (fill_read_array d b) ≡ (v ++ d) ++ tail =
        filled ∙ ap (λ x. x ++ d ++ tail) f.bytes in
      let size = ap length held ∙ length-append (v ++ d) tail in
      let enough : get_wpos (fill_read_array d b) + length d ≤ length (val (fill_read_array d b)) =
        omega (arith, kept, size, length-append v d, f.wpos) in
      let (moved, same) = laws.write_offset_moves (length d) (fill_read_array d b) enough in
      let at_end : get_wpos (write_offset (length d) (fill_read_array d b)) ≡ length (v ++ d) =
        omega (arith, moved, kept, length-append v d, f.wpos) in
      record {
        fits = omega (arith, at_end, ap length same, size);
        bytes =
            ap (λ x. take x (val (write_offset (length d) (fill_read_array d b)))) at_end
            ∙ ap (take (length (v ++ d))) (same ∙ held)
            ∙ take-append (v ++ d) tail;
        wpos = at_end;
      }

  nothing_read :
      (n : ℕ) (old pending : List ℕ) (results : List (ReadResult B)) (closed : Bool) (b : Buffer)
      → n ≤ 655360
      → Front b old
      → (closed ≡ false → offered results ≡ 0)
      → WasRead n old pending results ((get_read_array 2048 b).0, closed)
  nothing_read n old pending results closed b h f none_offered = record {
    got = [];
    left = pending;
    all = refl;
    held = subst (Front _) (sym (append-nil old)) (lent-Front b old f);
    bounded = omega arith;
    complete = λ open_. omega (arith, none_offered open_);
  }

  read_rounds_lem :
      (n : ℕ) (old pending : List ℕ) (results : List (ReadResult B)) (b : Buffer)
      → n ≤ 655360
      → Front b old
      → WasRead n old pending results (read_rounds B n pending results b)
  unfolding read_rounds offered
  read_rounds_lem n old pending [] b h f = nothing_read n old pending [] false b h f (λ _. refl)
  read_rounds_lem n old pending (ready k ∷ more) b h f =
      let lent = (get_read_array 2048 b).0 in
      let c = min k (get_read_array 2048 b).1 in
      let d = take c pending in
      let m = n + length d in
      let short : length d ≤ 2048 =
        omega (arith, length-take c pending, laws.get_read_array_length 2048 b) in
      let (same, _, room) = laws.get_read_array_keeps 2048 b f.fits in
      let moved = write_offset (length d) (fill_read_array d lent) in
      let f' : Front moved (old ++ d) =
        moved-Front d lent old (lent-Front b old f) (omega (arith, same, room, short)) in
      let chosen : Bool → Bool → Type 0 = λ none_ big. WasRead n old pending (ready k ∷ more) (
        if none_
        then (lent, true)
        else if big
        then (moved, true)
        else read_rounds B m (drop c pending) more moved) in
      elim (Bool-cases (length d == 0)) [
        | inl end ↦
            subst (λ x. chosen x (ltb 655360 m)) (sym end)
              (nothing_read n old pending (ready k ∷ more) true b h f (λ e. absurd (cc e)))
        | inr some_ ↦
            subst (λ x. chosen x (ltb 655360 m)) (sym some_)
              (elim (Bool-cases (ltb 655360 m)) [
                | inl big ↦ subst (chosen false) (sym big) (record {
                  got = d;
                  left = drop c pending;
                  all = sym (take-append-drop c pending);
                  held = f';
                  bounded = omega (arith, short, h);
                  complete = λ e. absurd (cc e);
                })
                | inr small ↦
                    let r =
                      read_rounds_lem m (old ++ d) (drop c pending) more moved (ground arith) f' in
                    subst (chosen false) (sym small) (record {
                      got = d ++ r.got;
                      left = r.left;
                      all =
                          sym (take-append-drop c pending)
                          ∙ ap (λ x. d ++ x) r.all
                          ∙ sym (append_assoc d r.got r.left);
                      held = subst (Front _) (append_assoc old d r.got) r.held;
                      bounded = omega (arith, r.bounded, length-append d r.got);
                      complete = λ open_. omega (
                        arith,
                        r.complete open_,
                        length-append d r.got,
                        length-take c pending,
                        ap length (take-append-drop c pending),
                        length-append d (drop c pending),
                        laws.get_read_array_length 2048 b,
                      );
                    })
              ])
      ]
  read_rounds_lem n old pending (would_block ∷ more) b h f =
      nothing_read n old pending (would_block ∷ more) false b h f (λ _. refl)
  read_rounds_lem n old pending (interrupted ∷ more) b h f =
      let r = read_rounds_lem n old pending more (get_read_array 2048 b).0 h (lent-Front b old f) in
      record {
        got = r.got;
        left = r.left;
        all = r.all;
        held = r.held;
        bounded = r.bounded;
        complete = r.complete;
      }
  read_rounds_lem n old pending (other_error ∷ more) b h f =
      nothing_read n old pending (other_error ∷ more) true b h f (λ e. absurd (cc e))

  -- However the reads go, one call of `read_data` adds to what was written into the socket's buffer the first
  -- bytes of what the connection has to give, in their order, and at most 657408 of them. Unless it says that
  -- the connection is to be closed, these are as many as all its reads can give, each at most 2048, up to the
  -- first that would block.
  pub read_data-WasRead :
      (pending : List ℕ) (results : List (ReadResult B)) (old : List ℕ) (ev : SocketEvent B)
      → Front ev.in_buffer old
      → WasRead 0 old pending results
          ((read_data B pending results ev).0.in_buffer, (read_data B pending results ev).1)
  unfolding read_data
  read_data-WasRead pending results old ev f =
      read_rounds_lem 0 old pending results ev.in_buffer (omega arith) f
