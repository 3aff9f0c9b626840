-- ===== src/Handlers/Handle/Actions.antt =====
-- bpserver/handlers.go: what a frame changes outside its own connection.
use burnout_paradise_server.Common.{
  ◌≡◌, ◌≢◌, refl, sym, ◌∙◌, inl, inr, List, [], ◌∷◌, ◌++◌, append-nil, append_assoc, All, Bool,
  false, Bytes, Bool-cases,
}
use burnout_paradise_server.Net.{Net}
use burnout_paradise_server.Easo.Frame.{Frame}
use burnout_paradise_server.Types.{Server, ServiceClient, Ptr, nil}
use burnout_paradise_server.Persona.{persona_id_for}
use burnout_paradise_server.Lobby.Notify.{Wire, Sent, write}
use burnout_paradise_server.Lobby.Ops.{set_client}
use burnout_paradise_server.Lobby.Ops.Invariant.{Op, step}
use burnout_paradise_server.Lobby.Ops.Seats.{actor}
use burnout_paradise_server.Handlers.{State}
use burnout_paradise_server.Handlers.Writes.{Outcome, send, done}

-- What a service connection does to the server: it edits its own entry, it asks for the id of a persona, and
-- it calls operations of the lobby as their actor.
pub data Action (self : Ptr) : Type 0 where
  edits : ServiceClient → Action self
  names : Bytes → Action self
  calls : (op : Op) → actor op ≡ self → Action self

-- The frames that were added are all for one client.
abbrev pub TellsOnly : Ptr → List Sent → List Sent → Type 0
TellsOnly self log log' =
    (rest : List Sent) × (log' ≡ log ++ rest) × All (λ m. m.recipient ≡ self) rest

tells_nothing : (self : Ptr) (log : List Sent) → TellsOnly self log log
tells_nothing self log = ([], sym (append-nil log), tt)

module _ (net : Net) where
  unfoldable pub perform : {self : Ptr} → Server → Action self → Server
  perform {self} s (edits c) = set_client s self c
  perform s (names persona) = (persona_id_for s persona).0
  perform s (calls op _) = step net s op

  unfoldable pub perform_all : {self : Ptr} → Server → List (Action self) → Server
  unfolding perform
  perform_all s [] = s
  perform_all s (a ∷ rest) = perform_all (perform s a) rest

  -- One server behind another by some actions of a client.
  abbrev pub Acts : Ptr → Server → Server → Type 0
  Acts self s s' = (actions : List (Action self)) × (s' ≡ perform_all s actions)

-- How the state moves: the connection stays the same client, a connection that is no service leaves the
-- server alone and tells nobody else, and a service acts by its own actions.
pub record Moves (net : Net) (self : Ptr) (is_service : Bool) (s : Server) (log : List Sent)
    (st : State) : Type 0 where
  pub same_self : st.session.self ≡ self
  pub same_service : st.session.is_service ≡ is_service
  pub keeps_out : is_service ≡ false → (st.server ≡ s) × TellsOnly self log st.log
  pub acts : self ≢ nil → Acts net self s st.server

module _ (net : Net) (wire : Wire) where
  abbrev pub MovesFrom : State → State → Type 0
  MovesFrom st st' = Moves net st.session.self st.session.is_service st.server st.log st'

  abbrev pub Moving : (State → Outcome) → Type 0
  Moving next = (st : State) → MovesFrom st (next st).0

  pub done-Moving : Moving (done net wire)
  unfolding perform_all
  done-Moving st = record {
    same_self = refl;
    same_service = refl;
    keeps_out = λ e. (refl, tells_nothing st.session.self st.log);
    acts = λ n. ([], refl);
  }

  -- A frame to the connection itself before the rest.
  tells_before :
      (st : State) (frame : Frame) (after : State)
      → Moves net st.session.self st.session.is_service st.server
          (st.log ++ record { recipient = st.session.self; frame = frame } ∷ [])
          after
      → MovesFrom st after
  tells_before st frame after m = record {
    same_self = m.same_self;
    same_service = m.same_service;
    keeps_out = λ e.
        let (same, (rest, grown, own)) = m.keeps_out e in
        (
          same,
          (
            record { recipient = st.session.self; frame = frame } ∷ rest,
            grown ∙ append_assoc st.log _ rest,
            (refl, own),
          ),
        );
    acts = m.acts;
  }

  pub send-Moves :
      (st : State) (frame : Frame) (next : State → Outcome)
      → Moving next
      → MovesFrom st (send net wire st frame next).0
  unfolding send write perform_all
  send-Moves st frame next g =
      let m : Sent = record { recipient = st.session.self; frame = frame } in
      elim (Bool-cases (wire st.log m)) [
        | inl e ↦
            rw (send, write, e) (tells_before st frame _ (g (record st { log = st.log ++ m ∷ [] })))
        | inr e ↦ rw (send, write, e) (done-Moving st)
      ]
