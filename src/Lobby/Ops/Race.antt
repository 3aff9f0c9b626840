-- ===== src/Lobby/Ops/Race.antt =====
-- The end of a race: the results that are awaited.
use burnout_paradise_server.Common.{
  ◌≤◌, ◌<◌, ◌≡◌, ◌≢◌, ◌⊎◌, refl, sym, ap, subst, ◌∙◌, inl, inr, List, true, false, Option, none,
  some, arith, ==_false, ◌==◌, Bool-cases, if_both, not, length, ltb,
}
use burnout_paradise_server.Net.{Net}
use burnout_paradise_server.Number.{has_mask, and_not_mask}
use burnout_paradise_server.Types.{Server, LocalLobby, Ptr, nil, game_started_sys_flag}
use burnout_paradise_server.Lobby.Roster.{contains}
use burnout_paradise_server.Lobby.Roster.Edit.{contains-append}
use burnout_paradise_server.Lobby.Roster.Count.{Among, Among-of_length, length-le-of_Among}
use burnout_paradise_server.Lobby.Ops.{
  Snapshot, set_lobby, add_report, count_report, record_result, record_local_lobby_result,
  sys_flags, with_flags, local_lobby_snapshot_locked,
}
use burnout_paradise_server.Lobby.Ops.RaceFlag.{flag_cleared}
use burnout_paradise_server.Lobby.Ops.Invariant.{IsLobby, add_report-IsDistinct}

-- The race runs: a result of a player counts.
abbrev pub IsRunning : LocalLobby → Type 0
IsRunning l = has_mask (sys_flags l.request) game_started_sys_flag ≡ true

add_report-Among :
    (p : Ptr) (reports players : List Ptr)
    → contains p players ≡ true
    → Among reports players
    → Among (add_report p reports) players
unfolding add_report
add_report-Among p reports players c a q h =
    ground (arith, a q, contains-append q p reports, ap (λ x. contains x players) {x = p} {y = q})

-- What a call of `recordLocalLobbyResult` made of the lobby.
module _ (net : Net) (s : Server) (l : LocalLobby) where
  -- The race has ended: a reader of the request finds it not running, the host, the players and the reports are
  -- there, and the snapshot of that lobby is returned.
  abbrev pub RaceEnds : List Ptr → Server × Option Snapshot → Type 0
  RaceEnds reports r =
      (l' : LocalLobby) × (r
        ≡ (set_lobby s l', some (local_lobby_snapshot_locked net (set_lobby s l'))))
      × (has_mask (sys_flags l'.request) game_started_sys_flag ≡ false)
      × (l'.host ≡ l.host)
      × (l'.players ≡ l.players)
      × (l'.result_reports ≡ reports)

  -- The race goes on: nothing but the reports is new, and nothing is returned.
  abbrev pub RaceGoesOn : List Ptr → Server × Option Snapshot → Type 0
  RaceGoesOn reports r = r ≡ (set_lobby s (record l { result_reports = reports }), none)

module _ (net : Net) where
  -- The race ends with the report after which as many clients have reported as there are players.
  pub count_lem :
      (s : Server) (l : LocalLobby) (client : Ptr)
      → let reported = add_report client l.result_reports in
        ((length l.players ≤ length reported)
          × RaceEnds net s l reported (count_report net s l client))
        ⊎ ((length reported < length l.players)
            × RaceGoesOn net s l reported (count_report net s l client))
  unfolding count_report with_flags
  count_lem s l client =
      let reported = add_report client l.result_reports in
      elim (Bool-cases (ltb (length reported) (length l.players))) [
        | inl few ↦ inr (ground arith, rw few refl)
        | inr all ↦ inl (
          ground arith,
          (
            with_flags (record l { result_reports = reported })
                (and_not_mask (sys_flags l.request) game_started_sys_flag),
            rw all refl,
            flag_cleared l,
            refl,
            refl,
            refl,
          ),
        )
      ]

  pub record_lem :
      (s : Server) (l : LocalLobby) (client : Ptr)
      → client ≢ nil
      → contains client l.players ≡ true
      → IsRunning l
      → record_result net s l client ≡ count_report net s l client
  unfolding record_result
  record_lem s l client n c r = rw (==_false client nil n, c, r) refl

  found :
      (s : Server) (l : LocalLobby) (client : Ptr)
      → s.lobby ≡ some l
      → record_local_lobby_result net s client ≡ record_result net s l client
  unfolding record_local_lobby_result
  found s l client here =
      ap (λ o. elim o [ none ↦ (s, none) | some l' ↦ record_result net s l' client ]) here

  -- While only players have reported, a report of a player is counted; if every player of the lobby has
  -- reported with it, it ends the race, and if not, the race goes on.
  pub report_barrier :
      (s : Server) (l : LocalLobby) (client : Ptr)
      → s.lobby ≡ some l
      → IsLobby l
      → Among l.result_reports l.players
      → IsRunning l
      → client ≢ nil
      → contains client l.players ≡ true
      → let reported = add_report client l.result_reports in
        (Among l.players reported
          × RaceEnds net s l reported (record_local_lobby_result net s client))
        ⊎ ((¬ Among l.players reported)
            × RaceGoesOn net s l reported (record_local_lobby_result net s client))
  unfolding record_local_lobby_result
  report_barrier s l client here v a r n c =
      let reported = add_report client l.result_reports in
      subst
        (λ x.
          (Among l.players reported × RaceEnds net s l reported x)
          ⊎ ((¬ Among l.players reported) × RaceGoesOn net s l reported x))
        (sym (found s l client here ∙ record_lem s l client n c r))
        (elim (count_lem s l client) [
          | inl (enough, ends) ↦ inl (
            Among-of_length reported l.players
                (add_report-IsDistinct client l.result_reports v.counted)
                (add_report-Among client l.result_reports l.players c a) enough,
            ends,
          )
          | inr (few, goes) ↦ inr (
            (λ all.
                let enough = length-le-of_Among l.players reported v.distinct all in
                absurd (omega (arith, enough, few))),
            goes,
          )
        ])

  -- No result counts while the race is not running.
  not_running :
      (s : Server) (l : LocalLobby) (client : Ptr)
      → has_mask (sys_flags l.request) game_started_sys_flag ≡ false
      → record_result net s l client ≡ (s, none)
  unfolding record_result
  not_running s l client off = elim (Bool-cases (client == nil)) [
    | inl e ↦ rw e refl
    | inr e ↦ elim (Bool-cases (contains client l.players)) [
      | inl c ↦ rw (e, c, off) refl
      | inr c ↦ rw (e, c) refl
    ]
  ]

  no_end {ℓ} :
      {A : Type ℓ} (s s' : Server) (snap : Snapshot)
      → ◌≡◌ {A = Server × Option Snapshot} (s, none) (s', some snap)
      → A
  no_end s s' snap e = let f : none ≡ some snap = ap (λ r. r.1) e in cc

  count_once :
      (s : Server) (l : LocalLobby) (client other : Ptr) (s' : Server) (snap : Snapshot)
      → count_report net s l client ≡ (s', some snap)
      → record_local_lobby_result net s' other ≡ (s', none)
  unfolding record_local_lobby_result set_lobby
  count_once s l client other s' snap e = elim (count_lem s l client) [
    | inl (enough, (l', ends, off, _, _, _)) ↦
        let same : set_lobby s l' ≡ s' = ap (λ r. r.0) (sym ends ∙ e) in
        subst (λ t. record_local_lobby_result net t other ≡ (t, none)) same
          (not_running (set_lobby s l') l' other off)
    | inr (few, goes) ↦ no_end _ s' snap (sym goes ∙ e)
  ]

  record_once :
      (s : Server) (l : LocalLobby) (client other : Ptr) (s' : Server) (snap : Snapshot)
      → record_result net s l client ≡ (s', some snap)
      → record_local_lobby_result net s' other ≡ (s', none)
  unfolding record_result
  record_once s l client other s' snap =
      let P : Server × Option Snapshot → Type 0 =
        λ r. r ≡ (s', some snap) → record_local_lobby_result net s' other ≡ (s', none) in
      if_both P (client == nil) _ _ (λ e. no_end s s' snap e)
        (if_both P (not (contains client l.players)) _ _ (λ e. no_end s s' snap e)
          (if_both P (not (has_mask (sys_flags l.request) game_started_sys_flag)) _ _
            (λ e. no_end s s' snap e) (count_once s l client other s' snap)))

  -- A report that ended a race ends it once: until the next start, no report of any client changes anything or
  -- ends a race again.
  pub ends_once :
      (s : Server) (client other : Ptr) (s' : Server) (snap : Snapshot)
      → record_local_lobby_result net s client ≡ (s', some snap)
      → record_local_lobby_result net s' other ≡ (s', none)
  unfolding record_local_lobby_result
  ends_once s client other s' snap =
      elim s.lobby
        as (λ o.
          (elim o [ none ↦ (s, none) | some l ↦ record_result net s l client ]) ≡ (s', some snap)
          → record_local_lobby_result net s' other ≡ (s', none)) [
            | none ↦ λ e. no_end s s' snap e
            | some l ↦ record_once s l client other s' snap
          ]
