-- ===== src/Lobby/Ops/Early.antt =====
-- bpserver/lobby.go: a report stays counted when its client leaves.
use burnout_paradise_server.Common.{
  ◌≡◌, ◌≢◌, refl, ap, inl, inr, List, [], ◌∷◌, true, false, none, some, arith, Bytes, length, subst,
  sym,
}
use burnout_paradise_server.Net.{Net}
use burnout_paradise_server.Number.{has_mask}
use burnout_paradise_server.Types.{Server, LocalLobby, Ptr, nil, game_started_sys_flag}
use burnout_paradise_server.Lobby.Roster.{contains, remove_first}
use burnout_paradise_server.Lobby.Roster.Order.{IsDistinct}
use burnout_paradise_server.Lobby.Ops.{
  set_lobby, add_report, count_report, record_result, record_local_lobby_result, remove_from,
  remove_client_from_lobby, sys_flags, local_lobby_snapshot_locked,
}
use burnout_paradise_server.Lobby.Ops.Race.{RaceEnds, count_lem, record_lem}

abbrev pub lobby_of : Bytes → Ptr → List Ptr → List Ptr → LocalLobby
lobby_of request host players reports = record {
  request = request;
  host = host;
  players = players;
  result_reports = reports;
}

module _ (net : Net) where
  early_steps :
      (s : Server) (request : Bytes) (host a b : Ptr)
      → has_mask (sys_flags request) game_started_sys_flag ≡ true
      → host ≢ nil
      → a ≢ nil
      → IsDistinct (host ∷ a ∷ b ∷ [])
      → let before = lobby_of request host (host ∷ a ∷ b ∷ []) [] in
        let reported = lobby_of request host (host ∷ a ∷ b ∷ []) (a ∷ []) in
        let left = lobby_of request host (host ∷ b ∷ []) (a ∷ []) in
        (record_local_lobby_result net (set_lobby s before) a ≡ (set_lobby s reported, none))
        × (remove_client_from_lobby net (set_lobby s reported) a
            ≡ (set_lobby s left, some (local_lobby_snapshot_locked net (set_lobby s left))))
        × RaceEnds net
            (set_lobby s left)
            left
            (a ∷ host ∷ [])
            (record_local_lobby_result net (set_lobby s left) host)
  unfolding record_local_lobby_result remove_client_from_lobby record_result count_report
      remove_from contains remove_first
  early_steps s request host a b m hn an d =
      let c : contains a (host ∷ a ∷ b ∷ []) ≡ true = ground arith in
      let left = lobby_of request host (host ∷ b ∷ []) (a ∷ []) in
      (
        ground arith,
        ground arith,
        (let at = set_lobby s left in
            let reached : contains host (host ∷ b ∷ []) ≡ true = ground arith in
            let awaited : contains host (a ∷ []) ≡ false = ground arith in
            let both : add_report host (a ∷ []) ≡ a ∷ host ∷ [] = rw (add_report, awaited) refl in
            subst (λ r. RaceEnds net at left (a ∷ host ∷ []) r)
              (sym (record_lem net at left host hn reached m))
              (subst (λ x. RaceEnds net at left x (count_report net at left host)) both
                (elim (count_lem net at left host) [
                  | inl (enough, ends) ↦ ends
                  | inr (few, goes) ↦ absurd (omega (arith, few, ap length both))
                ]))),
      )

  -- A report that is counted stays when its client leaves, so the race can end before all the
  -- players of the lobby have reported: here `a` reports and leaves, `host` reports, and `b` is
  -- still awaited.
  pub race_ends_early :
      (s : Server) (request : Bytes) (host a b : Ptr)
      → has_mask (sys_flags request) game_started_sys_flag ≡ true
      → host ≢ nil
      → a ≢ nil
      → IsDistinct (host ∷ a ∷ b ∷ [])
      → let before = lobby_of request host (host ∷ a ∷ b ∷ []) [] in
        let reported = (record_local_lobby_result net (set_lobby s before) a).0 in
        let left = (remove_client_from_lobby net reported a).0 in
        (left.lobby ≡ some (lobby_of request host (host ∷ b ∷ []) (a ∷ [])))
        × RaceEnds net left
            (lobby_of request host (host ∷ b ∷ []) (a ∷ []))
            (a ∷ host ∷ [])
            (record_local_lobby_result net left host)
        × (contains b (a ∷ host ∷ []) ≡ false)
  unfolding set_lobby
  race_ends_early s request host a b m hn an d =
      let (first, second, third) = early_steps s request host a b m hn an d in
      rw (first, second) (refl, third, unfold contains in ground arith)
