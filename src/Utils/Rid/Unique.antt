-- ===== src/Utils/Rid/Unique.antt =====
-- Role ids of src/lua_custom/lua_util.rs that are made one after another differ.
use tunm.Prelude.{
  ℕ, ◌+◌, ◌-◌, ◌*◌, ◌%◌, ◌^◌, ◌≤◌, ◌<◌, ◌≡◌, refl, ap, ◌∙◌, ◌==◌, ==_iff, true, Bool-cases, inl,
  inr, ltb, arith, max, ok, ◌>>=◌,
}
use tunm.Utils.Rid.{RidState, encode, next_sequence, get_rid, carried, at_time, rid_of}
use tunm.Utils.Rid.Decode.{all_below, all_below_sound}

-- The sequence counts to 4096, though the mask has 2^15 as well.
next_sequence-table : all_below 4096 (λ n. next_sequence n == ((n + 1) % 4096)) ≡ true
unfolding next_sequence
next_sequence-table = refl

next_sequence_lem : (n : ℕ) → n < 4096 → next_sequence n ≡ (n + 1) % 4096
next_sequence_lem n h =
    (==_iff _ ((n + 1) % 4096)).0
      (all_below_sound 4096 (λ k. next_sequence k == ((k + 1) % 4096)) n next_sequence-table h)

-- The time and the sequence as one number.
abbrev pub stamp : RidState → ℕ
stamp s = s.last_time * 4096 + s.sequence

-- What a call leaves, from a state.
pub record Later (now : ℕ) (s s' : RidState) : Type 0 where
  pub small : s'.sequence < 4096
  pub later : stamp s < stamp s'
  pub not_before : now ≤ s'.last_time
  pub soon : s'.last_time ≤ max now (s.last_time + 1)

carried_lem :
    (n last : ℕ)
    → n < 4096
    → last + 1 < 2 ^ 64
    → (last' : ℕ) × (carried (next_sequence n) last ≡ ok last')
      × (last * 4096 + n < last' * 4096 + next_sequence n)
      × (last' ≤ last + 1)
carried_lem n last h small =
    let e : next_sequence n ≡ (n + 1) % 4096 = next_sequence_lem n h in
    elim (Bool-cases (next_sequence n == 0)) [
      | inl over ↦ (last + 1, ground arith, ground arith, omega arith)
      | inr within ↦ (last, ground arith, ground arith, omega arith)
    ]

at_time-Later :
    (now n : ℕ) (s : RidState) (last' : ℕ)
    → n < 4096
    → stamp s < last' * 4096 + n
    → last' ≤ s.last_time + 1
    → Later now s (at_time now n last')
at_time-Later now n s last' h later soon = elim (Bool-cases (ltb last' now)) [
  | inl new ↦ rw new (record {
    small = omega arith;
    later = ground arith;
    not_before = omega arith;
    soon = omega arith;
  })
  | inr same ↦
      rw same (record { small = h; later = later; not_before = ground arith; soon = omega arith })
]

after_epoch :
    (server_id flag : ℕ) (s : RidState)
    → 1639497600 ≤ s.last_time
    → rid_of server_id flag s ≡ ok (s, encode (s.last_time - 1639497600) server_id flag s.sequence)
after_epoch server_id flag s h = ground arith

-- A call returns: the id shows the new state, less the epoch.
pub get_rid_lem :
    (now server_id flag : ℕ) (s : RidState)
    → s.sequence < 4096
    → 1639497600 ≤ now
    → s.last_time + 1 < 2 ^ 64
    → (s' : RidState) × (get_rid now server_id flag s
        ≡ ok (s', encode (s'.last_time - 1639497600) server_id flag s'.sequence))
      × Later now s s'
unfolding get_rid
get_rid_lem now server_id flag s h new small =
    let n : ℕ = next_sequence s.sequence in
    let (last', e, later, soon) = carried_lem s.sequence s.last_time h small in
    let l =
      at_time-Later now n s last' (omega (arith, next_sequence_lem s.sequence h)) later soon in
    (
      at_time now n last',
      ap (λ o. o >>= λ k. rid_of server_id flag (at_time now n k)) e
          ∙ after_epoch server_id flag (at_time now n last') (omega (arith, l.not_before)),
      l,
    )
