-- ===== src/Playback/Proxy/Sessions/Room.antt =====
-- The table of sessions when entries leave it: what holds of all of them still holds, and there is
-- room for one more.
use hummtube.Base.{
  ℕ, zero, suc, ◌≡◌, ◌≤◌, ◌<◌, refl, Bool, true, false, ◌||◌, ℤ, pos, String, [], ◌∷◌, Option, ◌⊎◌,
  inl, inr, All, arith, Bool-cases, is_empty, str_eq, str_eq_refl, length, ltb,
}
use hummtube.Domain.Vocabulary.{Time, before}
use hummtube.Playback.Proxy.Sessions.{
  Session, Table, MediaProxy, is_open, delete_session, put_session, drop_closed, oldest_token,
  make_room, limit_of, prune_locked,
}

module _ (P : String × Session → Type 0) where
  pub All-delete_session :
      (token : String) (table : Table) → All P table → All P (delete_session token table)
  unfolding delete_session
  All-delete_session token [] h = tt
  All-delete_session token ((t, s) ∷ table) (p, h) = elim (Bool-cases (str_eq t token)) [
    | inl y ↦ rw y (All-delete_session token table h)
    | inr n ↦ rw n (p, All-delete_session token table h)
  ]

  pub All-put_session :
      (token : String) (s : Session) (table : Table)
      → P (token, s)
      → All P table
      → All P (put_session token s table)
  unfolding put_session
  All-put_session token s table p h = (p, All-delete_session token table h)

  All-drop_closed :
      (now : Time) (current : Option ℕ) (table : Table)
      → All P table
      → All P (drop_closed now current table)
  unfolding drop_closed
  All-drop_closed now current [] h = tt
  All-drop_closed now current ((t, s) ∷ table) (p, h) = elim (Bool-cases (is_open now current s)) [
    | inl y ↦ rw y (p, All-drop_closed now current table h)
    | inr n ↦ rw n (All-drop_closed now current table h)
  ]

  All-make_room :
      (fuel limit : ℕ) (table : Table) → All P table → All P (make_room fuel limit table)
  unfolding make_room
  All-make_room zero limit table h = h
  All-make_room (suc fuel) limit table h =
      let token = oldest_token "" (pos 0) table in
      elim (Bool-cases (ltb (length table) limit || is_empty token)) [
        | inl y ↦ rw y h
        | inr n ↦ rw n (
            All-make_room fuel limit (delete_session token table)
              (All-delete_session token table h))
      ]

  pub All-prune_locked :
      (now : Time) (p : MediaProxy) → All P p.sessions → All P (prune_locked now p).sessions
  unfolding prune_locked
  All-prune_locked now p h =
      All-make_room _ (limit_of p.max_sessions) (drop_closed now p.current_plan p.sessions)
        (All-drop_closed now p.current_plan p.sessions h)

unfoldable has_token : String → Table → Bool
has_token token [] = false
has_token token ((t, s) ∷ table) = str_eq t token || has_token token table

has_token-head : (t : String) (s : Session) (table : Table) → has_token t ((t, s) ∷ table) ≡ true
unfolding has_token
has_token-head t s table = rw (str_eq_refl t) refl

has_token-tail :
    (token t : String) (s : Session) (table : Table)
    → has_token token table ≡ true
    → has_token token ((t, s) ∷ table) ≡ true
unfolding has_token
has_token-tail token t s table h = ground arith

-- No token is empty.
abbrev pub IsNamed : String × Session → Type 0
IsNamed e = is_empty e.0 ≡ false

pub length-delete_session-le :
    (token : String) (table : Table) → length (delete_session token table) ≤ length table
unfolding delete_session
length-delete_session-le token [] = omega arith
length-delete_session-le token ((t, s) ∷ table) =
    ground (arith, length-delete_session-le token table)

length-delete_session-lt :
    (token : String) (table : Table)
    → has_token token table ≡ true
    → length (delete_session token table) < length table
unfolding delete_session has_token
length-delete_session-lt token [] h = cc
length-delete_session-lt token ((t, s) ∷ table) h =
    ground (arith, length-delete_session-le token table, length-delete_session-lt token table)

-- The loop ends with the token that it began with, or with one of the table.
oldest_token-found :
    (token : String) (oldest : Time) (table : Table)
    → (oldest_token token oldest table ≡ token)
      ⊎ (has_token (oldest_token token oldest table) table ≡ true)
unfolding oldest_token
oldest_token-found token oldest [] = inl refl
oldest_token-found token oldest ((t, s) ∷ table) =
    elim (Bool-cases (is_empty token || before s.last_used oldest)) [
      | inl y ↦ rw y (elim (oldest_token-found t s.last_used table) [
        | inl same ↦ inr (rw same (has_token-head t s table))
        | inr there ↦ inr (has_token-tail (oldest_token t s.last_used table) t s table there)
      ])
      | inr n ↦ rw n (elim (oldest_token-found token oldest table) [
        | inl same ↦ inl same
        | inr there ↦ inr (has_token-tail (oldest_token token oldest table) t s table there)
      ])
    ]

oldest_token-named :
    (token : String) (oldest : Time) (table : Table)
    → All IsNamed table
    → is_empty token ≡ false
    → is_empty (oldest_token token oldest table) ≡ false
unfolding oldest_token
oldest_token-named token oldest [] h n = n
oldest_token-named token oldest ((t, s) ∷ table) (named, h) n =
    elim (Bool-cases (is_empty token || before s.last_used oldest)) [
      | inl y ↦ rw y (oldest_token-named t s.last_used table h named)
      | inr o ↦ rw o (oldest_token-named token oldest table h n)
    ]

oldest_token-in :
    (t : String) (s : Session) (table : Table)
    → All IsNamed ((t, s) ∷ table)
    → (is_empty (oldest_token "" (pos 0) ((t, s) ∷ table)) ≡ false)
      × (has_token (oldest_token "" (pos 0) ((t, s) ∷ table)) ((t, s) ∷ table) ≡ true)
unfolding oldest_token
oldest_token-in t s table (named, h) = (
  oldest_token-named t s.last_used table h named,
  elim (oldest_token-found t s.last_used table) [
    | inl same ↦ rw same (has_token-head t s table)
    | inr there ↦ has_token-tail (oldest_token t s.last_used table) t s table there
  ],
)

-- The loop ends with fewer entries than the limit, if it has a turn for each entry.
make_room-bounds :
    (fuel limit : ℕ) (table : Table)
    → 1 ≤ limit
    → length table ≤ fuel
    → All IsNamed table
    → length (make_room fuel limit table) < limit
unfolding make_room
make_room-bounds zero limit [] l f h = l
make_room-bounds (suc fuel) limit [] l f h = ground arith
make_room-bounds zero limit ((t, s) ∷ table) l f h = absurd (omega arith)
make_room-bounds (suc fuel) limit ((t, s) ∷ table) l f h =
    let all = (t, s) ∷ table in
    let token = oldest_token "" (pos 0) all in
    let (named, there) = oldest_token-in t s table h in
    elim (Bool-cases (ltb (length all) limit)) [
      | inl y ↦ rw y (ground arith)
      | inr n ↦
          rw (n, named)
            (make_room-bounds fuel limit (delete_session token all) l
              (omega (arith, length-delete_session-lt token all there))
              (All-delete_session IsNamed token all h))
    ]

limit_of-positive : (max_sessions : ℤ) → 1 ≤ limit_of max_sessions
unfolding limit_of
limit_of-positive max_sessions = ground arith

-- Pruning leaves room for one more session.
pub prune_locked-room :
    (now : Time) (p : MediaProxy)
    → All IsNamed p.sessions
    → length (prune_locked now p).sessions < limit_of p.max_sessions
unfolding prune_locked
prune_locked-room now p h =
    let table = drop_closed now p.current_plan p.sessions in
    make_room-bounds (length table) (limit_of p.max_sessions) table
      (limit_of-positive p.max_sessions) (omega arith)
      (All-drop_closed IsNamed now p.current_plan p.sessions h)
