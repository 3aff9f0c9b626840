-- ===== src/Lobby/Ops/Invariant.antt =====
-- What every operation of the lobby keeps.
use burnout_paradise_server.Common.{
  ◌≡◌, ◌≢◌, refl, ap, ◌∙◌, inl, inr, List, [], ◌∷◌, ◌++◌, Bool, true, false, not, ◌&&◌, ◌||◌,
  Option, none, some, arith, Bytes, ◌==◌, Bool-cases, Option-cases, subst, if◌then◌else◌, leb, ltb,
  length,
}
use burnout_paradise_server.Net.{Net}
use burnout_paradise_server.Types.{Server, LocalLobby, Ptr, nil, game_started_sys_flag}
use burnout_paradise_server.Number.{has_mask}
use burnout_paradise_server.Lobby.Roster.{contains, remove_first}
use burnout_paradise_server.Lobby.Roster.Order.{IsDistinct, HasNoNil}
use burnout_paradise_server.Lobby.Roster.Edit.{
  append-IsDistinct, append-HasNoNil, remove_first-IsDistinct, remove_first-HasNoNil,
  remove_first-other,
}
use burnout_paradise_server.Lobby.Ops.{
  find_player, create_local_lobby, join_lobby, join_local_lobby, update_local_lobby, start_lobby,
  start_local_lobby, add_report, count_report, record_result, record_local_lobby_result,
  kick_player, kick_from, kick_local_lobby_player, remove_from, remove_client_from_lobby,
  when_lobby, max_players, sys_flags,
}

-- The host leads the roster, the roster has no client twice and no nil, and no report is counted
-- twice.
pub record IsLobby (l : LocalLobby) : Type 0 where
  pub others : List Ptr
  pub led : l.players ≡ l.host ∷ others
  pub present : HasNoNil l.players
  pub distinct : IsDistinct l.players
  pub counted : IsDistinct l.result_reports

-- A server without a lobby is in order.
abbrev pub HasLobby : Option LocalLobby → Type 0
HasLobby none = Unit {0}
HasLobby (some l) = IsLobby l

-- The calls that the connections make, with the client that makes each.
pub data Op : Type 0 where
  create : (host : Ptr) → host ≢ nil → Bytes → Op
  join : (client : Ptr) → client ≢ nil → Op
  update : Ptr → Bytes → Op
  start : Ptr → Op
  report : Ptr → Op
  kick : Ptr → Bytes → Op
  leave : Ptr → Op

-- A roster without a player that is not the host is still in order.
remove-IsLobby :
    (l : LocalLobby) (p : Ptr)
    → p ≢ l.host
    → IsLobby l
    → IsLobby (record l { players = remove_first p l.players })
remove-IsLobby l p n v = record {
  others = remove_first p v.others;
  led = ap (remove_first p) v.led ∙ remove_first-other p l.host v.others n;
  present = remove_first-HasNoNil p l.players v.present;
  distinct = remove_first-IsDistinct p l.players v.distinct;
  counted = v.counted;
}

-- So is one with a player behind the others that is new.
append-IsLobby :
    (l : LocalLobby) (p : Ptr)
    → p ≢ nil
    → contains p l.players ≡ false
    → IsLobby l
    → IsLobby (record l { players = l.players ++ p ∷ [] })
append-IsLobby l p n c v = record {
  others = v.others ++ p ∷ [];
  led = ap (λ ps. ps ++ p ∷ []) v.led;
  present = append-HasNoNil p l.players n v.present;
  distinct = append-IsDistinct p l.players c v.distinct;
  counted = v.counted;
}

pub add_report-IsDistinct :
    (p : Ptr) (reports : List Ptr) → IsDistinct reports → IsDistinct (add_report p reports)
unfolding add_report
add_report-IsDistinct p reports d = ground (arith, append-IsDistinct p reports)

-- A guard that fails leaves the server as it was.
keeps_if {ℓ} :
    {R : Type ℓ} (b : Bool) (s : Server) (r : Option R) (rest : Server × Option R)
    → HasLobby s.lobby
    → (b ≡ false → HasLobby rest.0.lobby)
    → HasLobby (if b then (s, r) else rest).0.lobby
keeps_if true s r rest h k = h
keeps_if false s r rest h k = k refl

-- So does a call without a lobby.
on_lobby {ℓ} :
    {R : Type ℓ} (s : Server) (f : LocalLobby → Server × Option R)
    → HasLobby s.lobby
    → ((l : LocalLobby) → IsLobby l → HasLobby (f l).0.lobby)
    → HasLobby (when_lobby s f).0.lobby
on_lobby s f h k = elim (Option-cases s.lobby) [
  | inl e ↦ rw (e, when_lobby) (rw e tt)
  | inr (l, e) ↦ rw (e, when_lobby) (k l (subst HasLobby e h))
]

find_player_eligible :
    (s : Server) (eligible : Ptr → Bool) (persona : Bytes) (ps : List Ptr) (p : Ptr)
    → find_player s eligible persona ps ≡ some p
    → eligible p ≡ true
unfolding find_player
find_player_eligible s eligible persona [] p e = cc
find_player_eligible s eligible persona (q ∷ ps) p e =
    ground (arith, find_player_eligible s eligible persona ps p)

module _ (net : Net) where
  -- The server behind a call.
  unfoldable pub step : Server → Op → Server
  step s (create host _ request) = (create_local_lobby net s host request).0
  step s (join client _) = (join_local_lobby net s client).0
  step s (update client payload) = (update_local_lobby net s client payload).0
  step s (start client) = (start_local_lobby net s client).0
  step s (report client) = (record_local_lobby_result net s client).0
  step s (kick client persona) = (kick_local_lobby_player net s client persona).0
  step s (leave client) = (remove_client_from_lobby net s client).0

  create-HasLobby :
      (s : Server) (host : Ptr) (request : Bytes)
      → host ≢ nil
      → HasLobby (create_local_lobby net s host request).0.lobby
  unfolding create_local_lobby contains
  create-HasLobby s host request n = record {
    others = [];
    led = refl;
    present = (n, tt);
    distinct = (refl, tt);
    counted = tt;
  }

  join_lobby-HasLobby :
      (s : Server) (l : LocalLobby) (client : Ptr)
      → HasLobby s.lobby
      → client ≢ nil
      → IsLobby l
      → HasLobby (join_lobby net s l client).0.lobby
  unfolding join_lobby
  join_lobby-HasLobby s l client h n v = keeps_if (l.host == nil) s _ _ h λ _.
      keeps_if (contains client l.players) s _ _ h λ new.
        keeps_if (leb (max_players l.request) (length l.players)) s _ _ h
          λ _. append-IsLobby l client n new v

  start_lobby-HasLobby :
      (s : Server) (l : LocalLobby) (client : Ptr)
      → HasLobby s.lobby
      → IsLobby l
      → HasLobby (start_lobby net s l client).0.lobby
  unfolding start_lobby
  start_lobby-HasLobby s l client h v =
      keeps_if (client == nil || not (l.host == client)) s _ _ h λ _. record {
        others = v.others;
        led = v.led;
        present = v.present;
        distinct = v.distinct;
        counted = tt;
      }

  count_report-HasLobby :
      (s : Server) (l : LocalLobby) (client : Ptr)
      → IsLobby l
      → HasLobby (count_report net s l client).0.lobby
  unfolding count_report
  count_report-HasLobby s l client v =
      let v' : IsLobby (record l { result_reports = add_report client l.result_reports }) = record {
        others = v.others;
        led = v.led;
        present = v.present;
        distinct = v.distinct;
        counted = add_report-IsDistinct client l.result_reports v.counted;
      } in
      keeps_if (ltb (length (add_report client l.result_reports)) (length l.players)) _ _ _ v' λ _.
        record {
          others = v.others;
          led = v.led;
          present = v.present;
          distinct = v.distinct;
          counted = add_report-IsDistinct client l.result_reports v.counted;
        }

  record_result-HasLobby :
      (s : Server) (l : LocalLobby) (client : Ptr)
      → HasLobby s.lobby
      → IsLobby l
      → HasLobby (record_result net s l client).0.lobby
  unfolding record_result
  record_result-HasLobby s l client h v = keeps_if (client == nil) s _ _ h λ _.
      keeps_if (not (contains client l.players)) s _ _ h λ _.
        keeps_if (not (has_mask (sys_flags l.request) game_started_sys_flag)) s _ _ h
          λ _. count_report-HasLobby s l client v

  remove_from-HasLobby :
      (s : Server) (l : LocalLobby) (client : Ptr)
      → HasLobby s.lobby
      → IsLobby l
      → HasLobby (remove_from net s l client).0.lobby
  unfolding remove_from
  remove_from-HasLobby s l client h v = elim (Bool-cases (l.host == client)) [
    | inl a ↦ rw a tt
    | inr a ↦ elim (Bool-cases (contains client l.players)) [
      | inl b ↦ rw (a, b) (remove-IsLobby l client (λ e. ground (arith, e)) v)
      | inr b ↦ rw (a, b) h
    ]
  ]

  kick_player-HasLobby :
      (s : Server) (l : LocalLobby) (found : Option Ptr)
      → HasLobby s.lobby
      → ((p : Ptr) → found ≡ some p → p ≢ l.host)
      → IsLobby l
      → HasLobby (kick_player net s l found).0.lobby
  unfolding kick_player
  kick_player-HasLobby s l none h n v = h
  kick_player-HasLobby s l (some p) h n v = remove-IsLobby l p (n p refl) v

  kick_from-HasLobby :
      (s : Server) (l : LocalLobby) (client : Ptr) (persona : Bytes)
      → HasLobby s.lobby
      → IsLobby l
      → HasLobby (kick_from net s l client persona).0.lobby
  unfolding kick_from
  kick_from-HasLobby s l client persona h v = keeps_if (not (l.host == client)) s _ _ h λ _.
      kick_player-HasLobby s l _ h
        (λ p e. ground (
          arith,
          e,
          find_player_eligible s (λ q. not (q == nil) && not (q == l.host)) persona l.players p e,
        ))
        v

  update-HasLobby :
      (s : Server) (client : Ptr) (payload : Bytes)
      → HasLobby s.lobby
      → HasLobby (update_local_lobby net s client payload).0.lobby
  unfolding update_local_lobby
  update-HasLobby s client payload h = elim (Option-cases s.lobby) [
    | inl e ↦ rw (e, update_local_lobby) (rw e tt)
    | inr (l, e) ↦
        let v : IsLobby l = subst HasLobby e h in rw (e, update_local_lobby) (ground arith)
  ]

  -- Every call leaves a lobby in order, whatever its payload says.
  pub step-HasLobby : (s : Server) (op : Op) → HasLobby s.lobby → HasLobby (step s op).lobby
  unfolding step join_local_lobby start_local_lobby record_local_lobby_result
      kick_local_lobby_player remove_client_from_lobby
  step-HasLobby s (create host n request) h = create-HasLobby s host request n
  step-HasLobby s (join client n) h =
      on_lobby s (λ l. join_lobby net s l client) h λ l v. join_lobby-HasLobby s l client h n v
  step-HasLobby s (update client payload) h = update-HasLobby s client payload h
  step-HasLobby s (start client) h =
      on_lobby s (λ l. start_lobby net s l client) h λ l v. start_lobby-HasLobby s l client h v
  step-HasLobby s (report client) h =
      on_lobby s (λ l. record_result net s l client) h λ l v. record_result-HasLobby s l client h v
  step-HasLobby s (kick client persona) h =
      on_lobby s (λ l. kick_from net s l client persona) h
        λ l v. kick_from-HasLobby s l client persona h v
  step-HasLobby s (leave client) h =
      on_lobby s (λ l. remove_from net s l client) h λ l v. remove_from-HasLobby s l client h v

  pub run : Server → List Op → Server
  run s [] = s
  run s (op ∷ ops) = run (step s op) ops

  -- So a server that starts without a lobby never has a lobby that is out of order.
  pub run-HasLobby : (s : Server) (ops : List Op) → HasLobby s.lobby → HasLobby (run s ops).lobby
  unfolding run
  run-HasLobby s [] h = h
  run-HasLobby s (op ∷ ops) h = run-HasLobby (step s op) ops (step-HasLobby s op h)
