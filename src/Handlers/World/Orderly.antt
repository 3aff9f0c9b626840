-- ===== src/Handlers/World/Orderly.antt =====
-- bpserver/lobby.go and server.go: a server in order, and how a client's actions keep it so.
use burnout_paradise_server.Common.{
  ◌≤◌, ◌<◌, ◌≡◌, ◌≢◌, sym, ap, ◌∙◌, subst, inl, inr, ◌⊎◌, List, [], ◌∷◌, true,
}
use burnout_paradise_server.Net.{Net}
use burnout_paradise_server.Types.{Server, Ptr, nil}
use burnout_paradise_server.Persona.{AreAssigned, persona_id_for_lem, persona_id_for-lobby}
use burnout_paradise_server.Lobby.Ops.{set_client}
use burnout_paradise_server.Lobby.Ops.Invariant.{HasLobby, step, step-HasLobby}
use burnout_paradise_server.Lobby.Ops.Seats.{is_seated, step-seat}
use burnout_paradise_server.Lobby.Ops.Ids.{step-KeepsIds}
use burnout_paradise_server.Handlers.Handle.Actions.{
  Action, edits, names, calls, perform, perform_all,
}
use burnout_paradise_server.Handlers.World.{World, find_session}
use burnout_paradise_server.Handlers.World.Sessions.{serves}

-- The lobby is in order and the ids of personas are.
pub record IsOrderly (s : Server) : Type 0 where
  pub lobby : HasLobby s.lobby
  pub ids : AreAssigned s.next_persona_id s.persona_ids

-- Every player of the lobby is the client of a service connection that is open, and no such client is nil or
-- one that is still to come.
pub record IsWorld (w : World) : Type 0 where
  pub orderly : IsOrderly w.server
  pub started : 1 ≤ w.next
  pub below : (p : Ptr) → serves (find_session p w.sessions) ≡ true → (p ≢ nil) × (p < w.next)
  pub seated :
      (p : Ptr) → is_seated p w.server.lobby ≡ true → serves (find_session p w.sessions) ≡ true

module _ (net : Net) where
  pub perform-IsOrderly :
      {self : Ptr} (s : Server) (a : Action self) → IsOrderly s → IsOrderly (perform net s a)
  unfolding perform set_client
  perform-IsOrderly s (edits c) v = record { lobby = v.lobby; ids = v.ids }
  perform-IsOrderly s (names persona) v = record {
    lobby = subst HasLobby (sym (persona_id_for-lobby s persona)) v.lobby;
    ids = (persona_id_for_lem s persona v.ids).0;
  }
  perform-IsOrderly s (calls op _) v = record {
    lobby = step-HasLobby net s op v.lobby;
    ids =
        let k = step-KeepsIds net s op in
        subst (λ next. AreAssigned next (step net s op).persona_ids) (sym k.same_next)
          (subst (λ ids. AreAssigned s.next_persona_id ids) (sym k.same_ids) v.ids);
  }

  pub perform-seat :
      {self : Ptr} (s : Server) (a : Action self) (p : Ptr)
      → is_seated p (perform net s a).lobby ≡ true
      → (is_seated p s.lobby ≡ true) ⊎ (p ≡ self)
  unfolding perform set_client
  perform-seat s (edits c) p = λ e. inl e
  perform-seat s (names persona) p =
      λ e. inl (ap (is_seated p) (sym (persona_id_for-lobby s persona)) ∙ e)
  perform-seat s (calls op mine) p =
      λ e. elim (step-seat net s op p e) [ inl here ↦ inl here | inr new ↦ inr (new ∙ mine) ]

  pub perform_all-IsOrderly :
      {self : Ptr} (s : Server) (actions : List (Action self))
      → IsOrderly s
      → IsOrderly (perform_all net s actions)
  unfolding perform_all
  perform_all-IsOrderly s [] v = v
  perform_all-IsOrderly s (a ∷ rest) v =
      perform_all-IsOrderly (perform net s a) rest (perform-IsOrderly s a v)

  pub perform_all-seat :
      {self : Ptr} (s : Server) (actions : List (Action self)) (p : Ptr)
      → is_seated p (perform_all net s actions).lobby ≡ true
      → (is_seated p s.lobby ≡ true) ⊎ (p ≡ self)
  unfolding perform_all
  perform_all-seat s [] p = λ e. inl e
  perform_all-seat s (a ∷ rest) p = λ e. elim (perform_all-seat (perform net s a) rest p e) [
    | inl before ↦ perform-seat s a p before
    | inr new ↦ inr new
  ]
