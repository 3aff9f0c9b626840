-- ===== src/Lobby/Notify/Views.antt =====
-- bpserver/lobby.go: what `notifyLobby` shows to each player, if every write succeeds.
use mathlib.Core.List.{flatten}
use burnout_paradise_server.Common.{
  ◌≡◌, ◌≢◌, refl, sym, ap, ◌∙◌, List, [], ◌∷◌, ◌++◌, append_assoc, append-nil, map, map-append,
  Bool, true, false, not, ◌&&◌, ◌||◌, inl, inr, Bytes, codes, Bool-cases, if_cases, ==_false, ◌==◌,
  arith, ==_refl, if◌then◌else◌,
}
use burnout_paradise_server.Net.{Net}
use burnout_paradise_server.Record.Game.{get_presence_record}
use burnout_paradise_server.Types.{Server, Ptr, nil}
use burnout_paradise_server.Lobby.Roster.{
  contains, only_local, without_local, get_local_player_last,
}
use burnout_paradise_server.Lobby.Roster.Order.{only_present}
use burnout_paradise_server.Lobby.Notify.Own.{
  only_absent, reachable, own_record, recipient_game-own,
}
use burnout_paradise_server.Lobby.Notify.{
  Sent, Wire, send_to, recipient_game, presence_for, skips, notify_members, notify_client,
  notify_clients, notify_lobby,
}
use burnout_paradise_server.Lobby.Notify.Order.{IsReliable, write-reliable, write_each-reliable}

module _ (net : Net) (wire : Wire) (s : Server) where
  -- A presence of a player, under a name for the frame.
  abbrev pub presence_as : Bytes → Ptr → Ptr → Sent
  presence_as kind recipient p = send_to recipient kind (
      get_presence_record net (s.client p).persona_id (s.client p).persona_name (s.client p).address
        1)

  -- The others are shown by `+usr`, and then the recipient, if it plays, by `+who`.
  unfoldable pub presences : List Ptr → Ptr → List Sent
  presences players recipient =
      map (presence_as (codes "+usr") recipient) (without_local players recipient)
      ++ (if contains recipient players
          then presence_as (codes "+who") recipient recipient ∷ []
          else [])

  others-usr :
      (recipient : Ptr) (players : List Ptr)
      → map (presence_for net wire s recipient) (without_local players recipient)
        ≡ map (presence_as (codes "+usr") recipient) (without_local players recipient)
  unfolding without_local presence_for
  others-usr recipient [] = refl
  others-usr recipient (p ∷ ps) =
      if_cases
        (λ l.
          map (presence_for net wire s recipient) l ≡ map (presence_as (codes "+usr") recipient) l)
        (not (p == nil) && not (p == recipient)) _ _
        (λ e.
          let other : (p == recipient) ≡ false = ground (arith, e) in
          rw (presence_for, other)
            (ap (λ l. presence_as (codes "+usr") recipient p ∷ l) (others-usr recipient ps)))
        (λ e. others-usr recipient ps)

  own-who :
      (recipient : Ptr) (players : List Ptr)
      → map (presence_for net wire s recipient) (only_local players recipient) ≡ (
          if contains recipient players
          then presence_as (codes "+who") recipient recipient ∷ []
          else [])
  unfolding presence_for
  own-who recipient players = elim (Bool-cases (contains recipient players)) [
    | inl e ↦ rw (e, only_present players recipient e, presence_for, ==_refl recipient) refl
    | inr e ↦ rw (e, only_absent players recipient e) refl
  ]

  last-presences :
      (players : List Ptr) (recipient : Ptr)
      → map (presence_for net wire s recipient) (get_local_player_last players recipient)
        ≡ presences players recipient
  unfolding get_local_player_last presences
  last-presences players recipient =
      map-append (presence_for net wire s recipient) (without_local players recipient)
        (only_local players recipient)
      ∙ ap (λ l. l ++ map (presence_for net wire s recipient) (only_local players recipient))
          (others-usr recipient players)
      ∙ ap (λ l. map (presence_as (codes "+usr") recipient) (without_local players recipient) ++ l)
          (own-who recipient players)

  -- The frames for one player with a record of the game.
  unfoldable pub shown : Bytes → List Ptr → Bool → Bool → Ptr → List Sent
  unfolding presences
  shown game players presence collection p =
      (if collection then send_to p (codes "+gam") game ∷ [] else [])
      ++ ((if presence then presences players p else []) ++ send_to p (codes "+mgm") game ∷ [])

  -- And with its own one.
  unfoldable pub view : Bytes → Ptr → List Ptr → Bool → Bool → Ptr → List Sent
  unfolding shown
  view game host players presence collection p =
      shown (own_record net s game host players p) players presence collection p

  -- One player after the other.
  unfoldable pub views : Bytes → Ptr → List Ptr → Bool → Bool → List Ptr → List Sent
  unfolding view
  views game host players presence collection ps =
      flatten (map (view game host players presence collection) (reachable s ps))

  notify_members-reliable :
      IsReliable wire
      → (log : List Sent) (game : Bytes) (players : List Ptr) (p : Ptr) (presence : Bool)
      → notify_members net wire s log game players p presence
        ≡ log
          ++ ((if presence then presences players p else []) ++ send_to p (codes "+mgm") game ∷ [])
  unfolding notify_members
  notify_members-reliable good log game players p true =
      ap (λ r. r.0) (write-reliable wire good _ _)
      ∙ ap (λ l. l ++ send_to p (codes "+mgm") game ∷ [])
          (write_each-reliable wire good log _ ∙ ap (λ l. log ++ l) (last-presences players p))
      ∙ append_assoc log (presences players p) _
  notify_members-reliable good log game players p false =
      ap (λ r. r.0) (write-reliable wire good _ _)

  notify_client-shown :
      IsReliable wire
      → (log : List Sent) (game : Bytes) (players : List Ptr) (p : Ptr) (presence collection : Bool)
      → notify_client net wire s log game players p presence collection
        ≡ log ++ shown game players presence collection p
  unfolding notify_client shown
  notify_client-shown good log game players p presence true =
      rw (write-reliable wire good log _)
        (notify_members-reliable good _ _ players p presence ∙ append_assoc log _ _)
  notify_client-shown good log game players p presence false =
      notify_members-reliable good log _ players p presence

  notify_client-reliable :
      IsReliable wire
      → (log : List Sent) (game : Bytes) (host : Ptr) (players : List Ptr) (p : Ptr)
        (presence collection : Bool)
      → notify_client net wire s log
          (recipient_game net wire s game host players p)
          players
          p
          presence
          collection
        ≡ log ++ view game host players presence collection p
  unfolding view
  notify_client-reliable good log game host players p presence collection =
      notify_client-shown good log _ players p presence collection
      ∙ ap (λ own. log ++ shown own players presence collection p)
          (recipient_game-own net s wire game host players p)

  notify_clients-reliable :
      IsReliable wire
      → (log : List Sent) (game : Bytes) (host : Ptr) (players ps : List Ptr)
        (presence collection : Bool)
      → notify_clients net wire s log game host players ps presence collection
        ≡ log ++ views game host players presence collection ps
  unfolding notify_clients views skips flatten reachable
  notify_clients-reliable good log game host players [] presence collection = sym (append-nil log)
  notify_clients-reliable good log game host players (p ∷ ps) presence collection =
      elim (Bool-cases (p == nil || not (s.client p).can_write)) [
        | inl e ↦
            rw (notify_clients, skips, reachable, e)
              (notify_clients-reliable good log game host players ps presence collection)
        | inr e ↦
            rw (notify_clients, skips, reachable, e)
              (ap (λ l. notify_clients net wire s l game host players ps presence collection)
                  (notify_client-reliable good log game host players p presence collection)
                ∙ notify_clients-reliable good (log ++ view game host players presence collection p)
                    game host players ps presence collection
                ∙ append_assoc log _ _)
      ]

  -- If the host is not nil and every write succeeds, a change of the lobby is shown to every recipient that
  -- can be written to, in the order of the recipients, and nothing else is sent: first, if the collection is
  -- wanted, its own record as `+gam`; then, if the presences are wanted, every other player that is not nil as
  -- `+usr`, in the order of the roster, and behind them the recipient, if it plays, as `+who`; and last its
  -- own record as `+mgm`. In its own record the recipient, if it plays, comes first.
  pub notify_lobby_lem :
      (log : List Sent) (game : Bytes) (host : Ptr) (others clients : List Ptr)
      (presence collection : Bool)
      → IsReliable wire
      → host ≢ nil
      → notify_lobby net wire s log game (host ∷ others) clients presence collection
        ≡ log ++ views game host (host ∷ others) presence collection clients
  unfolding notify_lobby
  notify_lobby_lem log game host others clients presence collection good n =
      rw (==_false host nil n)
        (notify_clients-reliable good log game host (host ∷ others) clients presence collection)
