-- ===== src/Handlers/Cases.antt =====
-- bpserver/handlers.go: the cases of the switch over the type of a frame in `handleConnection`. `?tic` and `~png`
-- have no effect.
use burnout_paradise_server.Common.{
  ℕ, [], Option, none, some, Bytes, codes, bytes_eq, if◌then◌else◌,
}
use burnout_paradise_server.Net.{Net}
use burnout_paradise_server.Challenge.{server_challenge}
use burnout_paradise_server.Easo.Frame.{Frame}
use burnout_paradise_server.Payload.{
  get_payload_field, get_local_account_name, normalize_spam_preference,
}
use burnout_paradise_server.Payload.Address.{
  get_accepted_client_address, get_remote_client_game_port,
}
use burnout_paradise_server.Record.{
  get_local_rank_list_record, get_local_rank_results_record, get_local_road_rule_upload_record,
}
use burnout_paradise_server.Record.Game.{get_presence_record}
use burnout_paradise_server.Types.{local_persona_id}
use burnout_paradise_server.Lobby.Notify.{Wire, frame_of}
use burnout_paradise_server.Handlers.{State, panics}
use burnout_paradise_server.Handlers.Replies.{
  sealed, directory_payload, skey_payload, is_numeric, news_id, news_payload, auth_payload,
  acct_payload, pers_payload,
}
use burnout_paradise_server.Handlers.Writes.{
  Outcome, set_server, done, set_persona, start_keepalive, announce_endpoint, announce_persona,
  has_prefix, send, reply,
}
use burnout_paradise_server.Handlers.Games.{
  create_game, join_game, update_game, start_game, report_result,
}

module _ (net : Net) (wire : Wire) where
  -- `addr`.
  unfoldable pub on_addr : State → Bytes → State
  unfolding announce_endpoint
  on_addr st payload =
      let accepted =
        get_accepted_client_address net st.session.client_address
          (get_payload_field payload (codes "ADDR")) in
      record st {
        session = record st.session {
          client_address = if bytes_eq accepted [] then st.session.client_address else accepted;
        };
        server =
            announce_endpoint st.session.is_service accepted
              (get_remote_client_game_port net st.session.remote) st.session.self st.server;
      }

  -- `pers`: the persona, its id, and the two frames.
  unfoldable pub login : State → Bytes → State × ℕ
  unfolding set_persona announce_persona
  login st persona =
      let (s, id) =
        if st.session.is_service
        then announce_persona st persona
        else (st.server, local_persona_id) in
      (set_server (set_persona st persona) s, id)

  unfoldable pub send_presence : ℕ → Bytes → State → Outcome
  unfolding send
  send_presence id persona st =
      send net wire st
        (frame_of (codes "+who")
          (get_presence_record net id persona st.server.config.advertise_address 0))
        (done net wire)

  unfoldable pub on_pers : State → Frame → Outcome
  unfolding login reply send_presence
  on_pers st frame =
      let persona = get_local_account_name (get_payload_field frame.payload (codes "PERS")) in
      let (st1, id) = login st persona in
      reply net wire st1 (codes "pers") frame.id (pers_payload persona) (send_presence id persona)

  -- The reply to `rrlc`: a request for which the record panics ends the process.
  unfoldable pub reply_or_panic : State → Frame → Option Bytes → Outcome
  unfolding reply
  reply_or_panic st frame none = (st, panics)
  reply_or_panic st frame (some payload) =
      reply net wire st (codes "rrlc") frame.id payload (done net wire)

  unfoldable pub news_sent : Bytes → State → Outcome
  unfolding start_keepalive
  news_sent name st = done net wire (if is_numeric name then start_keepalive st else st)

  unfoldable pub on_offer : State → Frame → Outcome
  unfolding reply has_prefix
  on_offer st frame =
      if has_prefix (codes "RC4+MD5-V2") frame.payload
      then reply net wire st (codes "@tic") frame.id server_challenge (done net wire)
      else done net wire st

  unfoldable pub on_directory : State → Frame → Outcome
  unfolding reply
  on_directory st frame =
      reply net wire st (codes "@dir") frame.id (directory_payload st.server.config) (done net wire)

  unfoldable pub on_skey : State → Frame → Outcome
  unfolding reply
  on_skey st frame = reply net wire st (codes "skey") frame.id skey_payload (done net wire)

  unfoldable pub on_news : State → Frame → Outcome
  unfolding reply news_sent
  on_news st frame =
      let name = get_payload_field frame.payload (codes "NAME") in
      reply net wire st (codes "news") (news_id frame.id name) (news_payload name) (news_sent name)

  unfoldable pub on_sele : State → Frame → Outcome
  unfolding reply
  on_sele st frame =
      reply net wire st (codes "sele") frame.id (sealed (codes "MORE=0\nSLOTS=0\nSTATS=0\n"))
        (done net wire)

  unfoldable pub on_auth : State → Frame → Outcome
  unfolding reply
  on_auth st frame =
      reply net wire st (codes "auth") frame.id
        (auth_payload (get_local_account_name (get_payload_field frame.payload (codes "NAME")))
          st.server.config.advertise_address)
        (done net wire)

  unfoldable pub on_acct : State → Frame → Outcome
  unfolding reply
  on_acct st frame =
      reply net wire st (codes "acct") frame.id
        (acct_payload (get_local_account_name (get_payload_field frame.payload (codes "NAME")))
          (normalize_spam_preference (get_payload_field frame.payload (codes "SPAM")))
          st.server.config.advertise_address)
        (done net wire)

  unfoldable pub on_fget : State → Frame → Outcome
  unfolding reply
  on_fget st frame =
      reply net wire st (codes "fget") frame.id (sealed (codes "F=\n")) (done net wire)

  unfoldable pub on_usld : State → Frame → Outcome
  unfolding reply
  on_usld st frame = reply net wire st (codes "usld") frame.id (sealed []) (done net wire)

  unfoldable pub on_slst : State → Frame → Outcome
  unfolding reply
  on_slst st frame =
      reply net wire st (codes "slst") frame.id (sealed (codes "COUNT=0\n")) (done net wire)

  unfoldable pub on_rent : State → Frame → Outcome
  unfolding reply
  on_rent st frame =
      reply net wire st (codes "rent") frame.id (sealed (codes "GFIDS=0\n")) (done net wire)

  unfoldable pub on_rrlc : State → Frame → Outcome
  unfolding reply_or_panic
  on_rrlc st frame = reply_or_panic st frame (get_local_rank_list_record frame.payload)

  unfoldable pub on_rrgt : State → Frame → Outcome
  unfolding reply
  on_rrgt st frame =
      reply net wire st (codes "rrgt") frame.id (get_local_rank_results_record frame.payload)
        (done net wire)

  unfoldable pub on_rrup : State → Frame → Outcome
  unfolding reply
  on_rrup st frame =
      reply net wire st (codes "rrup") frame.id (get_local_road_rule_upload_record frame.payload)
        (done net wire)

  unfoldable pub on_gpsc : State → Frame → Outcome
  unfolding reply create_game
  on_gpsc st frame =
      reply net wire st (codes "gpsc") frame.id (sealed (codes "COUNT=1\n"))
        (create_game net wire frame.payload)

  -- `gqwk` and `gjoi`, whose reply has the type of the request.
  unfoldable pub on_join : Bytes → State → Frame → Outcome
  unfolding reply join_game
  on_join kind st frame =
      reply net wire st kind frame.id (sealed []) (join_game net wire frame.payload)

  unfoldable pub on_gsea : State → Frame → Outcome
  unfolding reply
  on_gsea st frame =
      if bytes_eq (get_payload_field frame.payload (codes "CANCEL")) (codes "1")
      then reply net wire st (codes "gsea") frame.id (sealed []) (done net wire)
      else done net wire st

  unfoldable pub on_fupr : State → Frame → Outcome
  unfolding reply
  on_fupr st frame = reply net wire st (codes "fupr") frame.id (sealed []) (done net wire)

  unfoldable pub on_rank : State → Frame → Outcome
  unfolding reply report_result
  on_rank st frame = reply net wire st (codes "rank") frame.id (sealed []) (report_result net wire)

  unfoldable pub on_rvup : State → Frame → Outcome
  unfolding reply
  on_rvup st frame = reply net wire st (codes "rvup") frame.id (sealed []) (done net wire)

  unfoldable pub on_gset : State → Frame → Outcome
  unfolding reply update_game
  on_gset st frame =
      reply net wire st (codes "gset") frame.id (sealed []) (update_game net wire frame.payload)

  unfoldable pub on_gsta : State → Frame → Outcome
  unfolding reply start_game
  on_gsta st frame = reply net wire st (codes "gsta") frame.id (sealed []) (start_game net wire)

  unfoldable pub on_hchk : State → Frame → Outcome
  unfolding reply
  on_hchk st frame = reply net wire st (codes "hchk") frame.id (sealed []) (done net wire)
