-- ===== src/Handlers/Handle/Reply.antt =====
-- bpserver/handlers.go: what a connection sends in answer to a frame.
use burnout_paradise_server.Common.{
  ℕ, ◌≡◌, refl, sym, ap, subst, inl, inr, List, [], ◌∷◌, ◌++◌, Bool, true, false, not, Option, none,
  some, Bytes, codes, some_eq, bytes_eq_sound, if_cases, bytes_eq, Bool-cases,
}
use burnout_paradise_server.Net.{Net}
use burnout_paradise_server.Easo.Frame.{Frame}
use burnout_paradise_server.Types.{Ptr}
use burnout_paradise_server.Payload.{get_payload_field}
use burnout_paradise_server.Record.{get_local_rank_list_record}
use burnout_paradise_server.Lobby.Notify.{Wire, Sent, write}
use burnout_paradise_server.Lobby.Notify.Growth.{Extends}
use burnout_paradise_server.Handlers.{
  State, goes_on, hangs_up, panics, Request, kind_of, request_of, find_request, requests, offer,
  ticket, directory, addr, skey, news, sele, auth, acct, pers, fget, usld, slst, rent, rrlc, rrgt,
  rrup, gpsc, gqwk, gjoi, gsea, fupr, rank, rvup, gset, gsta, hchk, png,
}
use burnout_paradise_server.Handlers.Replies.{news_id}
use burnout_paradise_server.Handlers.Handle.Growth.{
  Grows, done-Grows, send_presence-Grows, news_sent-Grows, create_game-Grows, join_game-Grows,
  update_game-Grows, start_game-Grows, report_result-Grows,
}
use burnout_paradise_server.Handlers.Handle.Verdicts.{
  Settles, Settling, done-Settling, send_presence-Settling, news_sent-Settling,
  create_game-Settling, join_game-Settling, update_game-Settling, start_game-Settling,
  report_result-Settling,
}
use burnout_paradise_server.Handlers.Writes.{Outcome, send, reply, done, has_prefix, set_persona}
use burnout_paradise_server.Handlers.Games.{
  create_game, join_game, update_game, start_game, report_result,
}
use burnout_paradise_server.Handlers.Cases.{
  send_presence, news_sent, on_addr, on_pers, login, reply_or_panic,
}
use burnout_paradise_server.Handlers.Handle.{dispatch, handle_request, handle}

-- The requests that no frame answers: announcements, and those that the code refuses.
abbrev pub is_silent : Request → Bytes → Bool
is_silent offer payload = not (has_prefix (codes "RC4+MD5-V2") payload)
is_silent ticket payload = true
is_silent addr payload = true
is_silent png payload = true
is_silent gsea payload = not (bytes_eq (get_payload_field payload (codes "CANCEL")) (codes "1"))
is_silent _ payload = false

-- The id of the reply: the request's, but for news of a number.
abbrev pub reply_id : Request → Frame → ℕ
reply_id news frame = news_id frame.id (get_payload_field frame.payload (codes "NAME"))
reply_id _ frame = frame.id

abbrev pub reply_to : Ptr → Bytes → ℕ → Bytes → Sent
reply_to self kind id payload = record {
  recipient = self;
  frame = record { kind = kind; id = id; payload = payload };
}

-- What comes of a frame: nothing is sent; or the reply is sent first, and the loop goes on or a later write to
-- the connection fails and ends it; or the write of the reply fails and the connection ends; or a rank list whose
-- record panics ends the process.
pub data Answer (wire : Wire) (log : List Sent) (self : Ptr) (r : Request) (frame : Frame)
    (o : Outcome) : Type 0 where
  says_nothing :
      is_silent r frame.payload ≡ true
      → o.0.log ≡ log
      → o.1 ≡ goes_on
      → Answer wire log self r frame o
  replies :
      is_silent r frame.payload ≡ false
      → (payload : Bytes)
      → Extends (log ++ reply_to self (kind_of r) (reply_id r frame) payload ∷ []) o.0.log
      → Settles wire o
      → Answer wire log self r frame o
  write_fails :
      is_silent r frame.payload ≡ false
      → (payload : Bytes) → wire log (reply_to self (kind_of r) (reply_id r frame) payload) ≡ false
      → o.0.log ≡ log
      → o.1 ≡ hangs_up
      → Answer wire log self r frame o
  crashes :
      r ≡ rrlc
      → get_local_rank_list_record frame.payload ≡ none
      → o.1 ≡ panics
      → Answer wire log self r frame o

module _ (net : Net) (wire : Wire) where
  -- A call of `reply` with the type and the id of the request.
  reply-Answer :
      (st : State) (r : Request) (frame : Frame) (payload : Bytes) (next : State → Outcome)
      → is_silent r frame.payload ≡ false
      → Grows next
      → Settling wire next
      → Answer wire st.log st.session.self r frame
          (reply net wire st (kind_of r) (reply_id r frame) payload next)
  unfolding reply send write
  reply-Answer st r frame payload next loud g settles =
      let m = reply_to st.session.self (kind_of r) (reply_id r frame) payload in
      elim (Bool-cases (wire st.log m)) [
        | inl e ↦
            rw (reply, send, write, e)
              (replies loud payload (g (record st { log = st.log ++ m ∷ [] }))
                (settles (record st { log = st.log ++ m ∷ [] })))
        | inr e ↦ rw (reply, send, write, e) (write_fails loud payload e refl refl)
      ]

  reply_or_panic-Answer :
      (st : State) (frame : Frame) (record_of : Option Bytes)
      → get_local_rank_list_record frame.payload ≡ record_of
      → Answer wire st.log st.session.self rrlc frame (reply_or_panic net wire st frame record_of)
  unfolding reply_or_panic
  reply_or_panic-Answer st frame none e = crashes refl e refl
  reply_or_panic-Answer st frame (some payload) e =
      reply-Answer st rrlc frame payload (done net wire) refl (done-Grows net wire)
        (done-Settling net wire)

  handle_request-Answer :
      (r : Request) (st : State) (frame : Frame)
      → Answer wire st.log st.session.self r frame (handle_request net wire r st frame)
  unfolding handle_request on_pers login on_addr set_persona
  handle_request-Answer offer st frame =
      if_cases (Answer wire st.log st.session.self offer frame)
        (has_prefix (codes "RC4+MD5-V2") frame.payload) _ _
        (λ e.
          reply-Answer st offer frame _ (done net wire) (ap not e) (done-Grows net wire)
            (done-Settling net wire))
        (λ e. says_nothing (ap not e) refl refl)
  handle_request-Answer ticket st frame = says_nothing refl refl refl
  handle_request-Answer directory st frame =
      reply-Answer st directory frame _ (done net wire) refl (done-Grows net wire)
        (done-Settling net wire)
  handle_request-Answer addr st frame = says_nothing refl refl refl
  handle_request-Answer skey st frame =
      reply-Answer st skey frame _ (done net wire) refl (done-Grows net wire)
        (done-Settling net wire)
  handle_request-Answer news st frame =
      reply-Answer st news frame _ (news_sent net wire _) refl (news_sent-Grows net wire _)
        (news_sent-Settling net wire _)
  handle_request-Answer sele st frame =
      reply-Answer st sele frame _ (done net wire) refl (done-Grows net wire)
        (done-Settling net wire)
  handle_request-Answer auth st frame =
      reply-Answer st auth frame _ (done net wire) refl (done-Grows net wire)
        (done-Settling net wire)
  handle_request-Answer acct st frame =
      reply-Answer st acct frame _ (done net wire) refl (done-Grows net wire)
        (done-Settling net wire)
  handle_request-Answer pers st frame =
      reply-Answer (login net wire st _).0 pers frame _ (send_presence net wire _ _) refl
        (send_presence-Grows net wire _ _) (send_presence-Settling net wire _ _)
  handle_request-Answer fget st frame =
      reply-Answer st fget frame _ (done net wire) refl (done-Grows net wire)
        (done-Settling net wire)
  handle_request-Answer usld st frame =
      reply-Answer st usld frame _ (done net wire) refl (done-Grows net wire)
        (done-Settling net wire)
  handle_request-Answer slst st frame =
      reply-Answer st slst frame _ (done net wire) refl (done-Grows net wire)
        (done-Settling net wire)
  handle_request-Answer rent st frame =
      reply-Answer st rent frame _ (done net wire) refl (done-Grows net wire)
        (done-Settling net wire)
  handle_request-Answer rrlc st frame = reply_or_panic-Answer st frame _ refl
  handle_request-Answer rrgt st frame =
      reply-Answer st rrgt frame _ (done net wire) refl (done-Grows net wire)
        (done-Settling net wire)
  handle_request-Answer rrup st frame =
      reply-Answer st rrup frame _ (done net wire) refl (done-Grows net wire)
        (done-Settling net wire)
  handle_request-Answer gpsc st frame =
      reply-Answer st gpsc frame _ (create_game net wire frame.payload) refl
        (create_game-Grows net wire frame.payload) (create_game-Settling net wire frame.payload)
  handle_request-Answer gqwk st frame =
      reply-Answer st gqwk frame _ (join_game net wire frame.payload) refl
        (join_game-Grows net wire frame.payload) (join_game-Settling net wire frame.payload)
  handle_request-Answer gjoi st frame =
      reply-Answer st gjoi frame _ (join_game net wire frame.payload) refl
        (join_game-Grows net wire frame.payload) (join_game-Settling net wire frame.payload)
  handle_request-Answer gsea st frame =
      if_cases (Answer wire st.log st.session.self gsea frame)
        (bytes_eq (get_payload_field frame.payload (codes "CANCEL")) (codes "1")) _ _
        (λ e.
          reply-Answer st gsea frame _ (done net wire) (ap not e) (done-Grows net wire)
            (done-Settling net wire))
        (λ e. says_nothing (ap not e) refl refl)
  handle_request-Answer fupr st frame =
      reply-Answer st fupr frame _ (done net wire) refl (done-Grows net wire)
        (done-Settling net wire)
  handle_request-Answer rank st frame =
      reply-Answer st rank frame _ (report_result net wire) refl (report_result-Grows net wire)
        (report_result-Settling net wire)
  handle_request-Answer rvup st frame =
      reply-Answer st rvup frame _ (done net wire) refl (done-Grows net wire)
        (done-Settling net wire)
  handle_request-Answer gset st frame =
      reply-Answer st gset frame _ (update_game net wire frame.payload) refl
        (update_game-Grows net wire frame.payload) (update_game-Settling net wire frame.payload)
  handle_request-Answer gsta st frame =
      reply-Answer st gsta frame _ (start_game net wire) refl (start_game-Grows net wire)
        (start_game-Settling net wire)
  handle_request-Answer hchk st frame =
      reply-Answer st hchk frame _ (done net wire) refl (done-Grows net wire)
        (done-Settling net wire)
  handle_request-Answer png st frame = says_nothing refl refl refl

pub find_request_sound :
    (kind : Bytes) (rs : List Request) (r : Request)
    → find_request kind rs ≡ some r
    → kind_of r ≡ kind
unfolding find_request
find_request_sound kind [] r = λ e. cc
find_request_sound kind (q ∷ rs) r =
    if_cases (λ (o : Option Request). o ≡ some r → kind_of r ≡ kind) (bytes_eq (kind_of q) kind) _ _
      (λ same e. subst (λ k. kind_of k ≡ kind) (some_eq e) (bytes_eq_sound (kind_of q) kind same))
      (λ other. find_request_sound kind rs r)

module _ (net : Net) (wire : Wire) where
  -- Every frame of a known type is answered by its case: either the case is one that sends nothing and the
  -- loop goes on; or the first frame that is sent goes to the connection itself, with the type of the
  -- request and its id (for news of a number the id of that news), everything else follows it, and the loop goes
  -- on or a later write to the connection fails and ends it; or the write of that first frame fails, nothing is
  -- sent and the connection ends; or the frame asks for a rank list whose record panics, which ends the process.
  pub handle-Answer :
      (st : State) (frame : Frame) (r : Request)
      → request_of frame.kind ≡ some r
      → (kind_of r ≡ frame.kind)
        × Answer wire st.log st.session.self r frame (handle net wire st frame)
  unfolding handle request_of
  handle-Answer st frame r e = (
    find_request_sound frame.kind requests r e,
    subst (λ o. Answer wire st.log st.session.self r frame (dispatch net wire o st frame)) (sym e)
        (handle_request-Answer net wire r st frame),
  )
