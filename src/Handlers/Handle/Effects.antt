-- ===== src/Handlers/Handle/Effects.antt =====
-- bpserver/handlers.go: each case acts for its own connection only.
use burnout_paradise_server.Common.{
  ℕ, ◌≡◌, refl, ap, [], ◌∷◌, Bool, true, false, Option, none, some, Bytes, bytes_eq, if_both,
  if_cases, arith, List, ◌++◌, ◌==◌, sym, ◌∙◌, codes,
}
use burnout_paradise_server.Net.{Net}
use burnout_paradise_server.Types.{Server, Ptr}
use burnout_paradise_server.Lobby.Notify.{Wire, Sent}
use burnout_paradise_server.Payload.{get_payload_field, get_local_account_name}
use burnout_paradise_server.Easo.Frame.{Frame}
use burnout_paradise_server.Handlers.{
  State, Request, offer, ticket, directory, addr, skey, news, sele, auth, acct, pers, fget, usld,
  slst, rent, rrlc, rrgt, rrup, gpsc, gqwk, gjoi, gsea, fupr, rank, rvup, gset, gsta, hchk, png,
}
use burnout_paradise_server.Handlers.Writes.{
  Outcome, done, announce_endpoint, reply, has_prefix, announce_address, announce_port,
  announce_persona, start_keepalive,
}
use burnout_paradise_server.Handlers.Games.{
  create_game, join_game, update_game, start_game, report_result,
}
use burnout_paradise_server.Handlers.Cases.{
  send_presence, news_sent, on_addr, login, on_pers, reply_or_panic,
}
use burnout_paradise_server.Handlers.Handle.{handle_request, dispatch, handle}
use burnout_paradise_server.Handlers.Handle.Actions.{
  Action, edits, names, Moves, perform, perform_all, Acts, MovesFrom, Moving, done-Moving,
  send-Moves,
}
use burnout_paradise_server.Handlers.Handle.Calls.{
  create_game-Moving, join_game-Moving, update_game-Moving, start_game-Moving, report_result-Moving,
}

module _ (net : Net) (wire : Wire) where
  send_presence-Moving :
      (id : ℕ) (persona : Bytes) → Moving net wire (send_presence net wire id persona)
  unfolding send_presence
  send_presence-Moving id persona st =
      send-Moves net wire st _ (done net wire) (done-Moving net wire)

  news_sent-Moving : (name : Bytes) → Moving net wire (news_sent net wire name)
  unfolding news_sent start_keepalive
  news_sent-Moving name st =
      if_both (λ (st' : State). MovesFrom net wire st st') _ _ _
        (done-Moving net wire (start_keepalive st)) (done-Moving net wire st)

  -- `addr` edits the client's own entry, at most twice.
  endpoint-Acts :
      (is_service : Bool) (accepted : Bytes) (port : ℕ) (self : Ptr) (s : Server)
      → Acts net self s (announce_endpoint is_service accepted port self s)
  unfolding announce_endpoint announce_address announce_port perform_all perform
  endpoint-Acts false accepted port self s = ([], refl)
  endpoint-Acts true accepted port self s =
      if_both (Acts net self s) (port == 0) _ _
        (if_both (Acts net self s) (bytes_eq accepted []) _ _ ([], refl) (edits _ ∷ [], refl))
        (if_both (λ s1. Acts net self s (announce_port port self s1)) (bytes_eq accepted []) _ _
          (edits _ ∷ [], refl) (edits _ ∷ edits _ ∷ [], refl))

  endpoint-private :
      (is_service : Bool) (accepted : Bytes) (port : ℕ) (self : Ptr) (s : Server)
      → is_service ≡ false
      → announce_endpoint is_service accepted port self s ≡ s
  unfolding announce_endpoint
  endpoint-private false accepted port self s e = refl
  endpoint-private true accepted port self s e = cc

  login-Acts :
      (st : State) (persona : Bytes)
      → Acts net st.session.self st.server (login net wire st persona).0.server
  unfolding login announce_persona perform_all perform
  login-Acts st persona =
      if_both (λ (o : Server × ℕ). Acts net st.session.self st.server o.0) st.session.is_service _ _
        (names persona ∷ edits _ ∷ [], refl) ([], refl)

  login-private :
      (st : State) (persona : Bytes)
      → st.session.is_service ≡ false
      → (login net wire st persona).0.server ≡ st.server
  unfolding login
  login-private st persona =
      if_cases (λ (o : Server × ℕ). st.session.is_service ≡ false → o.0 ≡ st.server)
        st.session.is_service _ _ (λ e n. absurd (ground (arith, e, n))) (λ e n. refl)

  perform-append :
      {self : Ptr} (s : Server) (xs ys : List (Action self))
      → perform_all net s (xs ++ ys) ≡ perform_all net (perform_all net s xs) ys
  unfolding perform_all
  perform-append s [] ys = refl
  perform-append s (x ∷ xs) ys = perform-append (perform net s x) xs ys

  -- Actions of the connection before the rest.
  Acts-before :
      (self : Ptr) (is_service : Bool) (s s1 : Server) (log : List Sent) (st : State)
      → (is_service ≡ false → s1 ≡ s)
      → Acts net self s s1
      → Moves net self is_service s1 log st
      → Moves net self is_service s log st
  Acts-before self is_service s s1 log st out (xs, e) m = record {
    same_self = m.same_self;
    same_service = m.same_service;
    keeps_out = λ f. ((m.keeps_out f).0 ∙ out f, (m.keeps_out f).1);
    acts = λ n.
        let (ys, f) = m.acts n in
        (xs ++ ys, f ∙ ap (λ t. perform_all net t ys) e ∙ sym (perform-append s xs ys));
  }

  on_addr-Moves :
      (st : State) (payload : Bytes) → MovesFrom net wire st (on_addr net wire st payload)
  unfolding on_addr
  on_addr-Moves st payload =
      Acts-before st.session.self st.session.is_service st.server _ st.log
        (on_addr net wire st payload)
        (endpoint-private st.session.is_service _ _ st.session.self st.server)
        (endpoint-Acts st.session.is_service _ _ st.session.self st.server)
        (done-Moving net wire (on_addr net wire st payload))

  reply-Moves :
      (st : State) (kind : Bytes) (id : ℕ) (payload : Bytes) (next : State → Outcome)
      → Moving net wire next
      → MovesFrom net wire st (reply net wire st kind id payload next).0
  unfolding reply
  reply-Moves st kind id payload next g = send-Moves net wire st _ next g

  on_pers-Moves : (st : State) (frame : Frame) → MovesFrom net wire st (on_pers net wire st frame).0
  unfolding on_pers login
  on_pers-Moves st frame =
      let persona = get_local_account_name (get_payload_field frame.payload (codes "PERS")) in
      Acts-before st.session.self st.session.is_service st.server
        (login net wire st persona).0.server st.log _ (login-private st persona)
        (login-Acts st persona)
        (reply-Moves (login net wire st persona).0 _ _ _ (send_presence net wire _ persona)
          (send_presence-Moving _ persona))

  rrlc-Moves :
      (st : State) (frame : Frame) (payload : Option Bytes)
      → MovesFrom net wire st (reply_or_panic net wire st frame payload).0
  unfolding reply_or_panic
  rrlc-Moves st frame none = done-Moving net wire st
  rrlc-Moves st frame (some payload) = reply-Moves st _ _ _ (done net wire) (done-Moving net wire)

  -- A reply and nothing else.
  plain-Moves :
      (st : State) (kind : Bytes) (id : ℕ) (payload : Bytes)
      → MovesFrom net wire st (reply net wire st kind id payload (done net wire)).0
  plain-Moves st kind id payload =
      reply-Moves st kind id payload (done net wire) (done-Moving net wire)

  handle_request-Moves :
      (r : Request) (st : State) (frame : Frame)
      → MovesFrom net wire st (handle_request net wire r st frame).0
  unfolding handle_request
  handle_request-Moves offer st frame =
      if_both (λ (o : Outcome). MovesFrom net wire st o.0)
        (has_prefix (codes "RC4+MD5-V2") frame.payload) _ _ (plain-Moves st _ _ _)
        (done-Moving net wire st)
  handle_request-Moves ticket st frame = done-Moving net wire st
  handle_request-Moves directory st frame = plain-Moves st _ _ _
  handle_request-Moves addr st frame = on_addr-Moves st frame.payload
  handle_request-Moves skey st frame = plain-Moves st _ _ _
  handle_request-Moves news st frame =
      reply-Moves st _ _ _ (news_sent net wire _) (news_sent-Moving _)
  handle_request-Moves sele st frame = plain-Moves st _ _ _
  handle_request-Moves auth st frame = plain-Moves st _ _ _
  handle_request-Moves acct st frame = plain-Moves st _ _ _
  handle_request-Moves pers st frame = on_pers-Moves st frame
  handle_request-Moves fget st frame = plain-Moves st _ _ _
  handle_request-Moves usld st frame = plain-Moves st _ _ _
  handle_request-Moves slst st frame = plain-Moves st _ _ _
  handle_request-Moves rent st frame = plain-Moves st _ _ _
  handle_request-Moves rrlc st frame = rrlc-Moves st frame _
  handle_request-Moves rrgt st frame = plain-Moves st _ _ _
  handle_request-Moves rrup st frame = plain-Moves st _ _ _
  handle_request-Moves gpsc st frame =
      reply-Moves st _ _ _ (create_game net wire frame.payload)
        (create_game-Moving net wire frame.payload)
  handle_request-Moves gqwk st frame =
      reply-Moves st _ _ _ (join_game net wire frame.payload)
        (join_game-Moving net wire frame.payload)
  handle_request-Moves gjoi st frame =
      reply-Moves st _ _ _ (join_game net wire frame.payload)
        (join_game-Moving net wire frame.payload)
  handle_request-Moves gsea st frame =
      if_both (λ (o : Outcome). MovesFrom net wire st o.0)
        (bytes_eq (get_payload_field frame.payload (codes "CANCEL")) (codes "1")) _ _
        (plain-Moves st _ _ _) (done-Moving net wire st)
  handle_request-Moves fupr st frame = plain-Moves st _ _ _
  handle_request-Moves rank st frame =
      reply-Moves st _ _ _ (report_result net wire) (report_result-Moving net wire)
  handle_request-Moves rvup st frame = plain-Moves st _ _ _
  handle_request-Moves gset st frame =
      reply-Moves st _ _ _ (update_game net wire frame.payload)
        (update_game-Moving net wire frame.payload)
  handle_request-Moves gsta st frame =
      reply-Moves st _ _ _ (start_game net wire) (start_game-Moving net wire)
  handle_request-Moves hchk st frame = plain-Moves st _ _ _
  handle_request-Moves png st frame = done-Moving net wire st

  dispatch-Moves :
      (r : Option Request) (st : State) (frame : Frame)
      → MovesFrom net wire st (dispatch net wire r st frame).0
  unfolding dispatch
  dispatch-Moves none st frame = done-Moving net wire st
  dispatch-Moves (some r) st frame = handle_request-Moves r st frame

  -- Whatever a frame says, it leaves the connection the client that it is. If the connection is no service,
  -- the server stays as it was and all frames that are sent are for the connection itself. Else, if its
  -- client is not nil, the server is reached by actions of that client alone: edits of its own entry, ids
  -- for personas, and operations of the lobby that it makes itself.
  pub handle-Moves :
      (st : State) (frame : Frame)
      → Moves net st.session.self st.session.is_service st.server st.log
          (handle net wire st frame).0
  unfolding handle
  handle-Moves st frame = dispatch-Moves _ st frame
