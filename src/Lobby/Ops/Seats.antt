-- ===== src/Lobby/Ops/Seats.antt =====
-- bpserver/lobby.go: who enters and who leaves the lobby by an operation.
use burnout_paradise_server.Common.{
  ◌≡◌, refl, sym, ap, ◌∙◌, inl, inr, ◌⊎◌, List, [], ◌∷◌, Bool, true, false, not, ◌||◌, Option, none,
  some, arith, Bytes, ◌==◌, if◌then◌else◌, Bool-cases, Option-cases, subst, ==_iff, leb, ltb,
  length,
}
use burnout_paradise_server.Net.{Net}
use burnout_paradise_server.Number.{has_mask}
use burnout_paradise_server.Types.{Server, LocalLobby, Ptr, nil, game_started_sys_flag}
use burnout_paradise_server.Lobby.Roster.{contains, remove_first}
use burnout_paradise_server.Lobby.Roster.Order.{IsDistinct}
use burnout_paradise_server.Lobby.Roster.Edit.{contains-append, contains-remove_first}
use burnout_paradise_server.Lobby.Ops.{
  when_lobby, create_local_lobby, join_lobby, join_local_lobby, update_local_lobby, start_lobby,
  start_local_lobby, count_report, record_result, record_local_lobby_result, kick_player, kick_from,
  kick_local_lobby_player, remove_from, remove_client_from_lobby, max_players, sys_flags,
  add_report,
}
use burnout_paradise_server.Lobby.Ops.Invariant.{
  IsLobby, HasLobby, Op, create, join, update, start, report, kick, leave, step,
}

-- Whether a client is a player of the lobby, if there is one.
abbrev pub is_seated : Ptr → Option LocalLobby → Bool
is_seated p none = false
is_seated p (some l) = contains p l.players

-- The client that makes a call.
abbrev pub actor : Op → Ptr
actor (create host _ _) = host
actor (join client _) = client
actor (update client _) = client
actor (start client) = client
actor (report client) = client
actor (kick client _) = client
actor (leave client) = client

-- Behind a call on a lobby no other client than the actor is new.
abbrev Admits : Ptr → Ptr → LocalLobby → Option LocalLobby → Type 0
Admits p client l after = is_seated p after ≡ true → (contains p l.players ≡ true) ⊎ (p ≡ client)

guard {ℓ} :
    {R : Type ℓ} (b : Bool) (s : Server) (r : Option R) (rest : Server × Option R) (l : LocalLobby)
    (p client : Ptr)
    → Admits p client l s.lobby
    → Admits p client l rest.0.lobby
    → Admits p client l (if b then (s, r) else rest).0.lobby
guard true s r rest l p client h k = h
guard false s r rest l p client h k = k

remove_first_sub :
    (p q : Ptr) (ps : List Ptr) → contains p (remove_first q ps) ≡ true → contains p ps ≡ true
remove_first_sub p q ps e = elim (Bool-cases (contains p ps)) [
  | inl c ↦ c
  | inr c ↦ absurd (ground (arith, e, contains-remove_first q p ps c))
]

gone : (q : Ptr) (ps : List Ptr) → IsDistinct ps → contains q (remove_first q ps) ≡ false
unfolding remove_first contains
gone q [] d = refl
gone q (r ∷ ps) d = elim (Bool-cases (r == q)) [
  | inl e ↦ rw e (subst (λ x. contains x ps ≡ false) ((==_iff r q).0 e) d.0)
  | inr e ↦ rw (remove_first, e) (rw (contains, e) (gone q ps d.1))
]

on_lobby-Admits {ℓ} :
    {R : Type ℓ} (s : Server) (f : LocalLobby → Server × Option R) (p client : Ptr)
    → ((l : LocalLobby) → Admits p client l s.lobby → Admits p client l (f l).0.lobby)
    → is_seated p (when_lobby s f).0.lobby ≡ true
    → (is_seated p s.lobby ≡ true) ⊎ (p ≡ client)
on_lobby-Admits s f p client k = elim (Option-cases s.lobby) [
  | inl e ↦ rw (e, when_lobby) (rw e λ absent. inl absent)
  | inr (l, e) ↦
      rw (e, when_lobby) (k l (subst (λ o. Admits p client l o) (sym e) (λ here. inl here)))
]

module _ (net : Net) where
  join-Admits :
      (s : Server) (l : LocalLobby) (client p : Ptr)
      → Admits p client l s.lobby
      → Admits p client l (join_lobby net s l client).0.lobby
  unfolding join_lobby
  join-Admits s l client p h = guard (l.host == nil) s _ _ l p client h (
      guard (contains client l.players) s _ _ l p client h (
        guard (leb (max_players l.request) (length l.players)) s _ _ l p client h
          (λ e. ground (arith, e, contains-append p client l.players))))

  start-Admits :
      (s : Server) (l : LocalLobby) (client p : Ptr)
      → Admits p client l s.lobby
      → Admits p client l (start_lobby net s l client).0.lobby
  unfolding start_lobby
  start-Admits s l client p h =
      guard (client == nil || not (l.host == client)) s _ _ l p client h (λ e. inl e)

  record-Admits :
      (s : Server) (l : LocalLobby) (client p : Ptr)
      → Admits p client l s.lobby
      → Admits p client l (record_result net s l client).0.lobby
  unfolding record_result count_report
  record-Admits s l client p h = guard (client == nil) s _ _ l p client h (
      guard (not (contains client l.players)) s _ _ l p client h (
        guard (not (has_mask (sys_flags l.request) game_started_sys_flag)) s _ _ l p client h (
          guard (ltb (length (add_report client l.result_reports)) (length l.players)) _ _ _ l p
            client (λ e. inl e) (λ e. inl e))))

  kick_player-Admits :
      (s : Server) (l : LocalLobby) (found : Option Ptr) (client p : Ptr)
      → Admits p client l s.lobby
      → Admits p client l (kick_player net s l found).0.lobby
  unfolding kick_player
  kick_player-Admits s l none client p h = h
  kick_player-Admits s l (some q) client p h = λ e. inl (remove_first_sub p q l.players e)

  kick-Admits :
      (s : Server) (l : LocalLobby) (client p : Ptr) (persona : Bytes)
      → Admits p client l s.lobby
      → Admits p client l (kick_from net s l client persona).0.lobby
  unfolding kick_from
  kick-Admits s l client p persona h =
      guard (not (l.host == client)) s _ _ l p client h (kick_player-Admits s l _ client p h)

  remove-Admits :
      (s : Server) (l : LocalLobby) (client p : Ptr)
      → Admits p client l s.lobby
      → Admits p client l (remove_from net s l client).0.lobby
  unfolding remove_from
  remove-Admits s l client p h = elim (Bool-cases (l.host == client)) [
    | inl a ↦ rw a (λ e. cc)
    | inr a ↦ elim (Bool-cases (contains client l.players)) [
      | inl b ↦ rw (a, b) (λ e. inl (remove_first_sub p client l.players e))
      | inr b ↦ rw (a, b) h
    ]
  ]

  update-seat :
      (s : Server) (client p : Ptr) (payload : Bytes)
      → is_seated p (update_local_lobby net s client payload).0.lobby ≡ is_seated p s.lobby
  unfolding update_local_lobby
  update-seat s client p payload = elim (Option-cases s.lobby) [
    | inl e ↦ rw (e, update_local_lobby) (rw e refl)
    | inr (l, e) ↦ rw (e, update_local_lobby) (ground arith)
  ]

  -- A client that is in the lobby behind a call was there before, or made the call.
  pub step-seat :
      (s : Server) (op : Op) (p : Ptr)
      → is_seated p (step net s op).lobby ≡ true
      → (is_seated p s.lobby ≡ true) ⊎ (p ≡ actor op)
  unfolding step join_local_lobby start_local_lobby record_local_lobby_result
      kick_local_lobby_player remove_client_from_lobby create_local_lobby contains
  step-seat s (create host _ request) p = λ e. inr (ground (arith, e))
  step-seat s (join client _) p =
      on_lobby-Admits s (λ l. join_lobby net s l client) p client (λ l. join-Admits s l client p)
  step-seat s (update client payload) p = λ e. inl (sym (update-seat s client p payload) ∙ e)
  step-seat s (start client) p =
      on_lobby-Admits s (λ l. start_lobby net s l client) p client (λ l. start-Admits s l client p)
  step-seat s (report client) p =
      on_lobby-Admits s (λ l. record_result net s l client) p client
        (λ l. record-Admits s l client p)
  step-seat s (kick client persona) p =
      on_lobby-Admits s (λ l. kick_from net s l client persona) p client
        (λ l. kick-Admits s l client p persona)
  step-seat s (leave client) p =
      on_lobby-Admits s (λ l. remove_from net s l client) p client (λ l. remove-Admits s l client p)

  -- Once it has left, a client has no seat.
  remove-seat :
      (s : Server) (l : LocalLobby) (client : Ptr)
      → s.lobby ≡ some l
      → IsLobby l
      → is_seated client (remove_from net s l client).0.lobby ≡ false
  unfolding remove_from
  remove-seat s l client e v = elim (Bool-cases (l.host == client)) [
    | inl a ↦ rw a refl
    | inr a ↦ elim (Bool-cases (contains client l.players)) [
      | inl b ↦ rw (a, b) (gone client l.players v.distinct)
      | inr b ↦ rw (a, b) (ap (is_seated client) e ∙ b)
    ]
  ]

  pub leave-seat :
      (s : Server) (client : Ptr)
      → HasLobby s.lobby
      → is_seated client (remove_client_from_lobby net s client).0.lobby ≡ false
  unfolding remove_client_from_lobby
  leave-seat s client h = elim (Option-cases s.lobby) [
    | inl e ↦ rw (remove_client_from_lobby, e, when_lobby) (rw e refl)
    | inr (l, e) ↦
        rw (remove_client_from_lobby, e, when_lobby) (remove-seat s l client e (subst HasLobby e h))
  ]
