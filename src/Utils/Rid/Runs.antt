-- ===== src/Utils/Rid/Runs.antt =====
-- Any number of calls of `get_rid` of src/lua_custom/lua_util.rs, one after another.
use tunm.Prelude.{
  ℕ, ◌+◌, ◌-◌, ◌*◌, ◌%◌, ◌^◌, ◌≤◌, ◌<◌, ◌≡◌, ◌≢◌, refl, sym, ap, ◌∙◌, List, [], ◌∷◌, length, arith,
  All, Outcome, ok, ◌>>=◌,
}
use tunm.Utils.Rid.{RidState, encode, get_rid}
use tunm.Utils.Rid.Decode.{decode-encode, rid_time, rid_server, rid_flag, rid_sequence}
use tunm.Utils.Rid.Unique.{stamp, get_rid_lem}

-- What a script asks for, and the clock at that moment.
pub record RidCall : Type 0 where
  pub now : ℕ
  pub server_id : ℕ
  pub flag : ℕ

abbrev pub Run : Type 0
Run = Outcome (RidState × List (List ℕ))

abbrev pub with_rid : List ℕ → RidState × List (List ℕ) → Run
with_rid rid (s, rids) = ok (s, rid ∷ rids)

unfoldable pub get_rids : List RidCall → RidState → Run
get_rids [] s = ok (s, [])
get_rids (c ∷ calls) s =
    get_rid c.now c.server_id c.flag s >>= λ p. get_rids calls p.0 >>= with_rid p.1

-- No two are the same.
abbrev pub AreDistinct : List (List ℕ) → Type 0
AreDistinct [] = Unit
AreDistinct (r ∷ rs) = All (λ r'. r' ≢ r) rs × AreDistinct rs

-- Each id belongs to its call: it tells the server, and the flag up to 2^15.
abbrev pub AreFor : List RidCall → List (List ℕ) → Type 0
AreFor [] [] = Unit
AreFor [] (r ∷ rs) = ⊥
AreFor (c ∷ calls) [] = ⊥
AreFor (c ∷ calls) (r ∷ rs) =
    (rid_server r ≡ c.server_id) × (rid_flag r ≡ c.flag % 2 ^ 15) × AreFor calls rs

-- An id that a state later than a stamp shows, in the 2^40 milliseconds from `t`.
record Shows (t p : ℕ) (rid : List ℕ) : Type 0 where
  pub last : ℕ
  pub sequence : ℕ
  pub server_id : ℕ
  pub flag : ℕ
  pub shown : rid ≡ encode (last - 1639497600) server_id flag sequence
  pub small : sequence < 4096
  pub server : server_id < 2 ^ 16
  pub since : t ≤ last
  pub until : last < t + 2 ^ 40
  pub later : p < last * 4096 + sequence

-- Two ids of that span that are the same show the same stamp.
same_stamp :
    (t a b m n : ℕ) (server_id flag server_id' flag' : ℕ)
    → 1639497600 ≤ t
    → t ≤ a
    → a < t + 2 ^ 40
    → t ≤ b
    → b < t + 2 ^ 40
    → m < 4096
    → n < 4096
    → server_id < 2 ^ 16
    → server_id' < 2 ^ 16
    → encode (a - 1639497600) server_id flag m ≡ encode (b - 1639497600) server_id' flag' n
    → a * 4096 + m ≡ b * 4096 + n
same_stamp t a b m n sv fl sv' fl' ht ha ha' hb hb' hm hn hs hs' e =
    let (times, _, _, seqs) = decode-encode (a - 1639497600) sv fl m hs in
    let (times', _, _, seqs') = decode-encode (b - 1639497600) sv' fl' n hs' in
    omega (arith, sym times ∙ ap rid_time e ∙ times', sym seqs ∙ ap rid_sequence e ∙ seqs')

Shows-earlier : {t p q : ℕ} {rid : List ℕ} → q ≤ p → Shows t p rid → Shows t q rid
Shows-earlier h x = record {
  last = x.last;
  sequence = x.sequence;
  server_id = x.server_id;
  flag = x.flag;
  shown = x.shown;
  small = x.small;
  server = x.server;
  since = x.since;
  until = x.until;
  later = omega (arith, x.later, h);
}

-- The id of a state differs from those of later ones.
Shows-differs :
    (t : ℕ) (s : RidState) (server_id flag : ℕ) (rid : List ℕ)
    → 1639497600 ≤ t
    → t ≤ s.last_time
    → s.last_time < t + 2 ^ 40
    → s.sequence < 4096
    → server_id < 2 ^ 16
    → Shows t (stamp s) rid
    → rid ≢ encode (s.last_time - 1639497600) server_id flag s.sequence
Shows-differs t s server_id flag rid ht since until small server x e =
    let same =
      same_stamp t x.last s.last_time x.sequence s.sequence x.server_id x.flag server_id flag ht
        x.since x.until since until x.small small x.server server (sym x.shown ∙ e) in
    absurd (omega (arith, same, x.later))

All-map :
    {P Q : List ℕ → Type 0} (rids : List (List ℕ))
    → ((r : List ℕ) → P r → Q r)
    → All P rids
    → All Q rids
All-map [] f h = h
All-map (r ∷ rs) f (h, hs) = (f r h, All-map rs f hs)

-- The clock shows a time between `t` and `until`, and the server has an id of 16 bits.
abbrev pub IsBetween : ℕ → ℕ → RidCall → Type 0
IsBetween t until c = (t ≤ c.now) × (c.now ≤ until) × (c.server_id < 2 ^ 16)

get_rids-Shows :
    (t until : ℕ) (calls : List RidCall) (s : RidState)
    → 1639497600 ≤ t
    → t + 2 ^ 40 ≤ 2 ^ 64
    → s.sequence < 4096
    → s.last_time + length calls < t + 2 ^ 40
    → until + length calls < t + 2 ^ 40
    → All (IsBetween t until) calls
    → (s' : RidState) × (rids : List (List ℕ)) × (get_rids calls s ≡ ok (s', rids))
      × AreFor calls rids
      × All (Shows t (stamp s)) rids
      × AreDistinct rids
unfolding get_rids
get_rids-Shows t until [] s ht top small room clock h = (s, [], refl, _, _, _)
get_rids-Shows t until (c ∷ calls) s ht top small room clock ((since, before, server), h) =
    let (s1, made, l) = get_rid_lem c.now c.server_id c.flag s small (omega arith) (omega arith) in
    let (s', rids, rest, len, shows, distinct) =
      get_rids-Shows t until calls s1 ht top l.small (omega (arith, l.soon)) (omega arith) h in
    let fits : s1.last_time < t + 2 ^ 40 = omega (arith, l.soon) in
    let at : t ≤ s1.last_time = omega (arith, l.not_before) in
    let rid : List ℕ = encode (s1.last_time - 1639497600) c.server_id c.flag s1.sequence in
    let (_, for_server, for_flag, _) =
      decode-encode (s1.last_time - 1639497600) c.server_id c.flag s1.sequence server in
    let shown : Shows t (stamp s) rid = record {
      last = s1.last_time;
      sequence = s1.sequence;
      server_id = c.server_id;
      flag = c.flag;
      shown = refl;
      small = l.small;
      server = server;
      since = at;
      until = fits;
      later = l.later;
    } in
    (
      s',
      rid ∷ rids,
      ap (λ o. o >>= λ p. get_rids calls p.0 >>= with_rid p.1) made
          ∙ ap (λ o. o >>= with_rid rid) rest,
      (for_server, for_flag, len),
      (shown, All-map rids (λ r x. Shows-earlier (omega (arith, l.later)) x) shows),
      (
        All-map rids (λ r x. Shows-differs t s1 c.server_id c.flag r ht at fits l.small server x)
            shows,
        distinct,
      ),
    )

-- Calls whose clock stays within 2^40 milliseconds, from the epoch of the ids on, return one id each. An id
-- tells the server and the flag up to 2^15 of its call, and all of them differ, whatever servers and flags
-- are asked for: however many there are in a millisecond, and if the clock goes back. The state at first is not ahead of that span, of which as many
-- milliseconds as there are calls are left at the end.
pub get_rids-AreDistinct :
    (t until : ℕ) (calls : List RidCall) (s : RidState)
    → 1639497600 ≤ t
    → t + 2 ^ 40 ≤ 2 ^ 64
    → s.sequence < 4096
    → s.last_time + length calls < t + 2 ^ 40
    → until + length calls < t + 2 ^ 40
    → All (IsBetween t until) calls
    → (s' : RidState) × (rids : List (List ℕ)) × (get_rids calls s ≡ ok (s', rids))
      × AreFor calls rids
      × AreDistinct rids
get_rids-AreDistinct t until calls s ht top small room clock h =
    let (s', rids, e, len, _, distinct) =
      get_rids-Shows t until calls s ht top small room clock h in
    (s', rids, e, len, distinct)
