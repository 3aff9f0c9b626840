-- ===== src/Lobby/Ops/Ids.antt =====
-- bpserver/lobby.go: no operation of the lobby touches the ids of personas.
use burnout_paradise_server.Common.{
  ◌≡◌, refl, Bool, true, false, not, ◌||◌, Option, none, some, Bytes, ◌==◌, if◌then◌else◌,
  Option-cases, if_both, inl, inr, leb, ltb, length,
}
use burnout_paradise_server.Net.{Net}
use burnout_paradise_server.Number.{has_mask}
use burnout_paradise_server.Types.{Server, LocalLobby, Ptr, nil, game_started_sys_flag}
use burnout_paradise_server.Lobby.Roster.{contains}
use burnout_paradise_server.Lobby.Ops.{
  set_lobby, when_lobby, create_local_lobby, join_lobby, join_local_lobby, update_local_lobby,
  update_target, start_lobby, start_local_lobby, count_report, record_result,
  record_local_lobby_result, kick_player, kick_from, kick_local_lobby_player, remove_from,
  remove_client_from_lobby, max_players, sys_flags, add_report,
}
use burnout_paradise_server.Lobby.Ops.Invariant.{
  Op, create, join, update, start, report, kick, leave, step,
}

-- The same ids, and the same next one.
pub record KeepsIds (s s' : Server) : Type 0 where
  pub same_next : s'.next_persona_id ≡ s.next_persona_id
  pub same_ids : s'.persona_ids ≡ s.persona_ids

same : (s : Server) → KeepsIds s s
same s = record { same_next = refl; same_ids = refl }

on_lobby-KeepsIds {ℓ} :
    {R : Type ℓ} (s : Server) (f : LocalLobby → Server × Option R)
    → ((l : LocalLobby) → KeepsIds s (f l).0)
    → KeepsIds s (when_lobby s f).0
on_lobby-KeepsIds s f k = elim (Option-cases s.lobby) [
  | inl e ↦ rw (e, when_lobby) (record { same_next = refl; same_ids = refl })
  | inr (l, e) ↦
      rw (e, when_lobby) (record { same_next = (k l).same_next; same_ids = (k l).same_ids })
]

guard {ℓ} :
    {R : Type ℓ} (b : Bool) (s s1 : Server) (r : Option R) (rest : Server × Option R)
    → KeepsIds s s1
    → KeepsIds s rest.0
    → KeepsIds s (if b then (s1, r) else rest).0
guard true s s1 r rest h k = h
guard false s s1 r rest h k = k

module _ (net : Net) where
  kick_player-KeepsIds :
      (s : Server) (l : LocalLobby) (found : Option Ptr) → KeepsIds s (kick_player net s l found).0
  unfolding kick_player
  kick_player-KeepsIds s l none = same s
  kick_player-KeepsIds s l (some p) = record { same_next = refl; same_ids = refl }

  update_target-KeepsIds :
      (s : Server) (target : Option Ptr) (payload : Bytes)
      → KeepsIds s (update_target net s target payload)
  unfolding update_target
  update_target-KeepsIds s none payload = same s
  update_target-KeepsIds s (some p) payload = record { same_next = refl; same_ids = refl }

  update-KeepsIds :
      (s : Server) (client : Ptr) (payload : Bytes)
      → KeepsIds s (update_local_lobby net s client payload).0
  unfolding update_local_lobby set_lobby
  update-KeepsIds s client payload = elim (Option-cases s.lobby) [
    | inl e ↦ rw (e, update_local_lobby) (record { same_next = refl; same_ids = refl })
    | inr (l, e) ↦
        rw (e, update_local_lobby)
          (record {
            same_next = (update_target-KeepsIds s _ payload).same_next;
            same_ids = (update_target-KeepsIds s _ payload).same_ids;
          })
  ]

  pub step-KeepsIds : (s : Server) (op : Op) → KeepsIds s (step net s op)
  unfolding step join_local_lobby start_local_lobby record_local_lobby_result
      kick_local_lobby_player remove_client_from_lobby create_local_lobby join_lobby start_lobby
      record_result count_report kick_from remove_from
  step-KeepsIds s (create host _ request) = record { same_next = refl; same_ids = refl }
  step-KeepsIds s (join client _) = on_lobby-KeepsIds s _ λ l.
      guard (l.host == nil) s s _ _ (same s) (
        guard (contains client l.players) s s _ _ (same s) (
          guard (leb (max_players l.request) (length l.players)) s s _ _ (same s)
            (record { same_next = refl; same_ids = refl })))
  step-KeepsIds s (update client payload) = update-KeepsIds s client payload
  step-KeepsIds s (start client) = on_lobby-KeepsIds s _ λ l.
      guard (client == nil || not (l.host == client)) s s _ _ (same s)
        (record { same_next = refl; same_ids = refl })
  step-KeepsIds s (report client) = on_lobby-KeepsIds s _ λ l.
      guard (client == nil) s s _ _ (same s) (
        guard (not (contains client l.players)) s s _ _ (same s) (
          guard (not (has_mask (sys_flags l.request) game_started_sys_flag)) s s _ _ (same s) (
            guard (ltb (length (add_report client l.result_reports)) (length l.players)) s _ _ _
              (record { same_next = refl; same_ids = refl })
              (record { same_next = refl; same_ids = refl }))))
  step-KeepsIds s (kick client persona) =
      on_lobby-KeepsIds s _
        λ l. guard (not (l.host == client)) s s _ _ (same s) (kick_player-KeepsIds s l _)
  step-KeepsIds s (leave client) = on_lobby-KeepsIds s _ λ l.
      guard (l.host == client) s _ _ _ (record { same_next = refl; same_ids = refl })
        (if_both (λ (o : Server × Option _). KeepsIds s o.0) (contains client l.players) _ _
          (record { same_next = refl; same_ids = refl }) (same s))
