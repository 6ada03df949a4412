-- ===== src/Telnet/KeySafety.antt =====
-- The keys of src/utils/telnet_utils.rs keep the invariant of `Invariant` and do not panic.
use tunm.Prelude.{
  ℕ, zero, suc, ◌+◌, ◌-◌, ◌≤◌, ◌<◌, ◌≡◌, refl, Bool, true, false, not, List, [], ◌∷◌, ◌++◌, arith,
  length, length-append, length-pop, length-drop, length-take, length-set, ok, Returns, Returns-if,
  index_total, drop, take, Bool-cases, inl, inr, ltb, ◌==◌, ◌&&◌,
}
use tunm.Prelude.Int.{ℤ, pos, negsuc, ◌+ℤ◌, ltb_ℤ}
use tunm.Telnet.Client.{Term, send_client_msg, send_backspaces, erase, backspace}
use tunm.Telnet.Keys.{
  is_empty, byte_is, show_line, key_up, key_down, key_down_from, key_right, key_left, key_home,
  key_insert, key_end, key_escape, key_delete, key_put, key_replace,
}
use tunm.Telnet.Invariant.{
  InHistory, IsEditing, Editing, client-send_backspaces, erase-Leaves, IsEditing-of_Leaves, erased,
  backspace-Leaves, erased-IsEditing,
}

next_line : (z : ℤ) (records : List (List ℕ)) → InHistory z records → (m : ℕ) × (z +ℤ pos 1 ≡ pos m)
unfolding ◌+ℤ◌
next_line (pos n) records h = (n + 1, ground arith)
next_line (negsuc zero) records h = (0, refl)
next_line (negsuc (suc n)) records h = elim h [ ]

length_insert :
    (xs : List ℕ) (i b : ℕ) → i ≤ length xs → length (take i xs ++ b ∷ drop i xs) ≡ length xs + 1
length_insert xs i b h =
    omega (arith, length-append (take i xs) (b ∷ drop i xs), length-take i xs, length-drop i xs)

right_guard : (b : Bool) (i n : ℕ) → (b && ltb i n) ≡ true → i < n
right_guard b i n h = ground arith

module _ (t : Term) (v : IsEditing t.client) where
  pub backspace-IsEditing : Editing (backspace t)
  backspace-IsEditing =
      IsEditing-of_Leaves (erased t.client) (backspace t) (backspace-Leaves t v.cursor)
        (erased-IsEditing t.client v)

  client-show_line :
      (num : ℤ) (line : List ℕ) (s : Term)
      → s.client ≡ t.client
      → (show_line num line s).client
        ≡ record t.client { ircdnum = num; text = line; ipos = length line }
  unfolding show_line send_client_msg
  client-show_line num line s e = rw e

  show_line-IsEditing :
      (num : ℤ) (line : List ℕ) (n : ℕ)
      → InHistory num t.client.records
      → IsEditing (show_line num line (send_backspaces n t)).client
  show_line-IsEditing num line n h =
      rw (client-show_line num line (send_backspaces n t) (client-send_backspaces n t))
        (record { cursor = omega arith; kept = v.kept; browsing = h })

  key_up_to : (m : ℕ) → t.client.ircdnum +ℤ pos 1 ≡ pos m → Editing (key_up t)
  unfolding key_up
  key_up_to m e = elim (Bool-cases (ltb_ℤ (pos m) (pos (length t.client.records)))) [
    | inl h ↦
        let inside : m < length t.client.records = ground arith in
        let (line, found) = index_total t.client.records m inside in
        rw (e, h, found) (show_line-IsEditing (pos m) line (length t.client.text) inside)
    | inr h ↦ rw (e, h) v
  ]

  key_up-IsEditing : Editing (key_up t)
  key_up-IsEditing =
      let (m, e) = next_line t.client.ircdnum t.client.records v.browsing in key_up_to m e

  key_down_from-IsEditing : (z : ℤ) → InHistory z t.client.records → Editing (key_down_from z t)
  unfolding key_down_from
  key_down_from-IsEditing (negsuc zero) h = v
  key_down_from-IsEditing (negsuc (suc n)) h = elim h [ ]
  key_down_from-IsEditing (pos zero) h = show_line-IsEditing (negsuc 0) [] (length t.client.text) tt
  key_down_from-IsEditing (pos (suc n)) h =
      let (line, found) = index_total t.client.records n (omega (arith, h)) in
      rw found (show_line-IsEditing (pos n) line (length t.client.text) (omega (arith, h)))

  key_down-IsEditing : Editing (key_down t)
  unfolding key_down
  key_down-IsEditing = key_down_from-IsEditing t.client.ircdnum v.browsing

  key_home-IsEditing : Editing (ok (key_home t))
  unfolding key_home
  key_home-IsEditing = record { cursor = omega arith; kept = v.kept; browsing = v.browsing }

  key_left-IsEditing : Editing (ok (key_left t))
  unfolding key_left send_client_msg
  key_left-IsEditing = record {
    cursor = omega (arith, v.cursor);
    kept = v.kept;
    browsing = v.browsing;
  }

  key_insert-IsEditing : Editing (ok (key_insert t))
  unfolding key_insert
  key_insert-IsEditing = record { cursor = v.cursor; kept = v.kept; browsing = v.browsing }

  key_end-IsEditing : Editing (key_end t)
  unfolding key_end
  key_end-IsEditing = ground arith

  key_right-IsEditing : t.client.ipos < length t.client.text → Editing (key_right t)
  unfolding key_right
  key_right-IsEditing h =
      let (b, e) = index_total t.client.text t.client.ipos h in ground (arith, e)

  pub key_delete-IsEditing : 0 < t.client.ipos → Editing (key_delete t)
  unfolding key_delete
  key_delete-IsEditing h =
      let some_left : ltb t.client.ipos 1 ≡ false = ground arith in
      rw some_left (
        IsEditing-of_Leaves _ (erase (t.client.ipos - 1) t)
          (erase-Leaves (t.client.ipos - 1) t (omega (arith, v.cursor)))
          (record {
            cursor = omega (arith, v.cursor, length-pop t.client.text);
            kept = v.kept;
            browsing = v.browsing;
          }))

  pub key_put-IsEditing : (b : ℕ) → Editing (key_put b t)
  unfolding key_put
  key_put-IsEditing b =
      let text = take t.client.ipos t.client.text ++ b ∷ drop t.client.ipos t.client.text in
      ground (
        arith,
        v.cursor,
        v.kept,
        v.browsing,
        length_insert t.client.text t.client.ipos b,
        length-drop t.client.ipos text,
      )

  pub key_replace-IsEditing : (b : ℕ) → Editing (ok (key_replace b t))
  unfolding key_replace
  key_replace-IsEditing b = record {
    cursor = ground (
      arith,
      v.cursor,
      length-set t.client.text t.client.ipos b,
      length-append t.client.text (b ∷ []),
    );
    kept = v.kept;
    browsing = v.browsing;
  }

  -- The arrows, Home, Insert and End, and bytes that name none of these.
  pub key_escape-IsEditing :
      (bytes : List ℕ) (i : ℕ) → Returns (λ s. IsEditing s.client) (key_escape bytes i t)
  unfolding key_escape
  key_escape-IsEditing bytes i =
      let c = t.client in
      let two = λ (b : ℕ). byte_is bytes (i + 2) b in
      let tilde = byte_is bytes (i + 3) 126 in
      let past = not (is_empty c.records) in
      let before_end = ltb c.ipos (length c.text) in
      Returns-if (two 65 && past) (key_up t) _ (λ _. record { ensures = key_up-IsEditing })
        λ _.
          Returns-if (two 66 && past) (key_down t) _ (λ _. record { ensures = key_down-IsEditing })
            λ _.
              Returns-if (two 67 && before_end) (key_right t) _
                (λ h. record {
                  ensures = key_right-IsEditing (right_guard (two 67) c.ipos (length c.text) h);
                })
                λ _.
                  Returns-if (two 68 && not (c.ipos == 0)) (ok (key_left t)) _
                    (λ _. record { ensures = key_left-IsEditing })
                    λ _.
                      Returns-if (two 49 && tilde) (ok (key_home t)) _
                        (λ _. record { ensures = key_home-IsEditing })
                        λ _.
                          Returns-if (two 50 && tilde) (ok (key_insert t)) _
                            (λ _. record { ensures = key_insert-IsEditing })
                            λ _.
                              Returns-if (two 52 && tilde) (key_end t) (ok t)
                                (λ _. record { ensures = key_end-IsEditing })
                                (λ _. record { ensures = v })
