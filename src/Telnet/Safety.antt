-- ===== src/Telnet/Safety.antt =====
-- `TelnetUtils::update_data` of src/utils/telnet_utils.rs, for a client that is logged in, keeps the
-- invariant and does not panic unless the delete key comes.
use tunm.Prelude.{
  ℕ, ◌+◌, ◌≢◌, List, [], ◌∷◌, arith, length, ok, ◌>>=◌, Ensures, Returns, Returns-if, Returns-bind,
  All, ltb, ◌==◌, ◌&&◌, ==_iff,
}
use tunm.Telnet.Client.{Term, backspace}
use tunm.Telnet.Keys.{byte_is, key_escape, key_delete, key_replace, key_put, key_char}
use tunm.Telnet.Editor.{key_enter, update_loop}
use tunm.Telnet.Invariant.{IsEditing, length-push_record-le}
use tunm.Telnet.KeySafety.{
  backspace-IsEditing, key_put-IsEditing, key_replace-IsEditing, key_escape-IsEditing,
}

key_char-IsEditing :
    (b : ℕ) (t : Term) → IsEditing t.client → Returns (λ s. IsEditing s.client) (key_char b t)
unfolding key_char
key_char-IsEditing b t v =
    Returns-if t.client.binsert (ok (key_replace b t)) (key_put b t)
      (λ _. record { ensures = key_replace-IsEditing t v b })
      (λ _. record { ensures = key_put-IsEditing t v b })

module _ (lossy : List ℕ → List ℕ) (prompt bytes : List ℕ) where
  key_enter-IsEditing :
      (t : Term) → IsEditing t.client → IsEditing (key_enter lossy prompt t).client
  unfolding key_enter
  key_enter-IsEditing t v = record {
    cursor = omega arith;
    kept = ground (arith, v.kept, length-push_record-le t.client.text t.client.records);
    browsing = tt;
  }

  update_loop-Returns :
      (i : ℕ) (rest : List ℕ) (t : Term)
      → IsEditing t.client
      → All (λ b. b ≢ 127) rest
      → Returns (λ s. IsEditing s.client) (update_loop lossy prompt bytes i rest t)
  unfolding update_loop
  update_loop-Returns i [] t v h = record { ensures = v }
  update_loop-Returns i (b ∷ rest) t v h =
      let continue = update_loop lossy prompt bytes (i + 1) rest in
      let later = λ (s : Term) (w : IsEditing s.client). update_loop-Returns (i + 1) rest s w h.1 in
      let escape = b == 27 && byte_is bytes (i + 1) 91 && ltb (i + 2) (length bytes) in
      Returns-if (b == 255) (ok t) _ (λ _. record { ensures = v })
        λ _.
          Returns-if (b == 13) (ok (key_enter lossy prompt t)) _
            (λ _. record { ensures = key_enter-IsEditing t v })
            λ _.
              Returns-if (b == 8) (backspace t >>= continue) _
                (λ _.
                  Returns-bind (backspace t) continue (record { ensures = backspace-IsEditing t v })
                    later)
                λ _.
                  Returns-if (b == 9) (continue t) _ (λ _. later t v)
                    λ _.
                      Returns-if (b == 127) (key_delete t >>= continue) _
                        (λ e. absurd (h.0 ((==_iff b 127).0 e)))
                        λ _.
                          Returns-if escape (key_escape bytes i t) (key_char b t >>= continue)
                            (λ _. key_escape-IsEditing t v bytes i)
                            (λ _.
                              Returns-bind (key_char b t) continue (key_char-IsEditing b t v) later)

  -- A client in the editor, sent any bytes but the delete key: the handler returns, and the cursor is
  -- still in the line, the history holds at most ten lines, and the line shown of it exists.
  pub update_loop-IsEditing :
      (rest : List ℕ) (i : ℕ) (t : Term)
      → IsEditing t.client
      → All (λ b. b ≢ 127) rest
      → Ensures (λ s. IsEditing s.client) (update_loop lossy prompt bytes i rest t)
  update_loop-IsEditing rest i t v h = (update_loop-Returns i rest t v h).ensures
