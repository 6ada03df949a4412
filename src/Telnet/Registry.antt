-- ===== src/Telnet/Registry.antt =====
-- The table of clients of src/utils/telnet_utils.rs: every client in it satisfies the invariant, and
-- what one client sends changes no other.
use tunm.Prelude.{
  ℕ, String, ◌≡◌, ◌≢◌, true, List, [], arith, ok, >>=-eq-ok, ok-injective, Ensures, Returns,
  Returns-if, Returns-bind, Returns-mono, All, Option-cases, inl, inr,
}
use tunm.Prelude.Maps as Maps
use tunm.Prelude.Maps.{HashMap, string_eq, Every, Every-insert, Every-remove, get-insert_ne}
use tunm.Telnet.Client.{ClientInfo, new_client, Effect, Term}
use tunm.Telnet.Login.{login}
use tunm.Telnet.Editor.{update_loop, update_client}
use tunm.Telnet.Invariant.{IsEditing, IsValid}
use tunm.Telnet.Safety.{update_loop-IsEditing}
use tunm.Telnet.LoginSafety.{login-IsValid}
use tunm.Telnet.Server.{TelnetUtils, remove_client, put_back, update_data, accept_callback}

-- Every client in the table satisfies the invariant.
abbrev pub IsWellFormed : TelnetUtils → Type 0
IsWellFormed s = Every IsValid s.clients

IsEditing-of_IsValid : (c : ClientInfo) → c.blogin ≡ true → IsValid c → IsEditing c
IsEditing-of_IsValid c h v = record { cursor = v.cursor; kept = v.kept; browsing = v.browsing h }

IsValid-of_IsEditing : (c : ClientInfo) → IsEditing c → IsValid c
IsValid-of_IsEditing c v = record { cursor = v.cursor; kept = v.kept; browsing = λ _. v.browsing }

module _ (lossy : List ℕ → List ℕ) where
  update_client-IsValid :
      (prompt bytes : List ℕ) (t : Term)
      → IsValid t.client
      → All (λ b. b ≢ 127) bytes
      → Returns (λ s. IsValid s.client) (update_client lossy prompt bytes t)
  unfolding update_client
  update_client-IsValid prompt bytes t v h =
      Returns-if t.client.blogin (update_loop lossy prompt bytes 0 bytes t) (login prompt bytes t)
        (λ e.
          Returns-mono _
            (record {
              ensures =
                  update_loop-IsEditing lossy prompt bytes bytes 0 t
                    (IsEditing-of_IsValid t.client e v) h;
            })
            (λ s w. IsValid-of_IsEditing s.client w))
        (λ _. record { ensures = login-IsValid prompt bytes t v })

  update_data-Returns :
      (unique : String) (bytes : List ℕ) (s : TelnetUtils)
      → IsWellFormed s
      → All (λ b. b ≢ 127) bytes
      → Returns (λ r. IsWellFormed r.0) (update_data lossy unique bytes s)
  unfolding update_data
  update_data-Returns unique bytes s w h = elim (Option-cases (Maps.get unique s.clients)) [
    | inl e ↦ rw (e, update_data) (record { ensures = w })
    | inr (c, e) ↦
        rw (e, update_data)
          (Returns-bind (update_client lossy s.prompt bytes (record { client = c; effects = [] })) _
            (update_client-IsValid s.prompt bytes _ (w.at unique c e) h)
            (λ t v. record { ensures = Every-insert IsValid unique t.client s.clients v w }))
  ]

  -- From a table whose clients satisfy the invariant, bytes for any socket, but for the delete key: the
  -- handler returns, and every client of the table satisfies the invariant again.
  pub update_data-IsWellFormed :
      (unique : String) (bytes : List ℕ) (s : TelnetUtils)
      → IsWellFormed s
      → All (λ b. b ≢ 127) bytes
      → Ensures (λ r. IsWellFormed r.0) (update_data lossy unique bytes s)
  update_data-IsWellFormed unique bytes s w h = (update_data-Returns unique bytes s w h).ensures

  -- What one socket sends changes no other client.
  pub update_data_frame :
      (unique other : String) (bytes : List ℕ) (s : TelnetUtils) {r : TelnetUtils × List Effect}
      → unique ≢ other
      → update_data lossy unique bytes s ≡ ok r
      → Maps.get other r.0.clients ≡ Maps.get other s.clients
  unfolding update_data
  update_data_frame unique other bytes s h e = elim (Option-cases (Maps.get unique s.clients)) [
    | inl missing ↦ ground (arith, rw (missing, update_data) at e)
    | inr (c, found) ↦
        let (t, _, put) =
          >>=-eq-ok (update_client lossy s.prompt bytes (record { client = c; effects = [] }))
            (λ t. ok (put_back unique s t)) (rw (found, update_data) at e) in
        rw (← ok-injective put) (get-insert_ne unique other t.client s.clients h)
  ]

pub accept_callback-IsWellFormed :
    (banner : List ℕ) (unique : String) (s : TelnetUtils)
    → IsWellFormed s
    → IsWellFormed (accept_callback banner unique s).0
unfolding accept_callback
accept_callback-IsWellFormed banner unique s w =
    Every-insert IsValid unique (new_client unique) s.clients
      (record { cursor = omega arith; kept = omega arith; browsing = λ e. cc }) w

pub remove_client-IsWellFormed :
    (unique : String) (s : TelnetUtils) → IsWellFormed s → IsWellFormed (remove_client unique s)
unfolding remove_client
remove_client-IsWellFormed unique s w = Every-remove IsValid unique s.clients w
