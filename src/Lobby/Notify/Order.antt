-- ===== src/Lobby/Notify/Order.antt =====
-- bpserver/lobby.go: which frames the players get, in which order, if every write succeeds.
use mathlib.Core.List.{flatten}
use burnout_paradise_server.Common.{
  ◌≡◌, ◌≢◌, refl, sym, ap, ◌∙◌, List, [], ◌∷◌, ◌++◌, append_assoc, append-nil, map, true, not, ◌||◌,
  inl, inr, Bytes, codes, Bool-cases, ==_false, ◌==◌,
}
use burnout_paradise_server.Net.{Net}
use burnout_paradise_server.Types.{Server, Ptr, nil}
use burnout_paradise_server.Lobby.Notify.Own.{reachable, own_record, recipient_game-own}
use burnout_paradise_server.Lobby.Notify.{
  Sent, Wire, send_to, write, write_each, skips, start_frames, notify_starts, notify_lobby_start,
}

-- A connection that takes every frame.
abbrev pub IsReliable : Wire → Type 0
IsReliable wire = (log : List Sent) (m : Sent) → wire log m ≡ true

pub write-reliable :
    (wire : Wire)
    → IsReliable wire
    → (log : List Sent) (m : Sent) → write wire log m ≡ (log ++ m ∷ [], true)
unfolding write
write-reliable wire good log m = rw (good log m) refl

pub write_each-reliable :
    (wire : Wire) → IsReliable wire → (log ms : List Sent) → write_each wire log ms ≡ log ++ ms
unfolding write_each
write_each-reliable wire good log [] = sym (append-nil log)
write_each-reliable wire good log (m ∷ ms) =
    rw (write-reliable wire good log m)
      (write_each-reliable wire good (log ++ m ∷ []) ms ∙ append_assoc log (m ∷ []) ms)

module _ (net : Net) (wire : Wire) (s : Server) where
  -- The three views of a race that starts, for one player.
  unfoldable pub start_views : Bytes → Ptr → List Ptr → Ptr → List Sent
  start_views game host players p =
      map (λ kind. send_to p kind (own_record net s game host players p))
        (codes "+gam" ∷ codes "+mgm" ∷ codes "+ses" ∷ [])

  -- The frames that announce a start to some recipients.
  unfoldable pub start_announcement : Bytes → Ptr → List Ptr → List Ptr → List Sent
  start_announcement game host players ps =
      flatten (map (start_views game host players) (reachable s ps))

  notify_starts-reliable :
      IsReliable wire
      → (log : List Sent) (game : Bytes) (host : Ptr) (players ps : List Ptr)
      → notify_starts net wire s log game host players ps
        ≡ log ++ start_announcement game host players ps
  unfolding notify_starts start_announcement skips start_frames flatten reachable start_views
  notify_starts-reliable good log game host players [] = sym (append-nil log)
  notify_starts-reliable good log game host players (p ∷ ps) =
      elim (Bool-cases (p == nil || not (s.client p).can_write)) [
        | inl e ↦
            rw (notify_starts, skips, reachable, e)
              (notify_starts-reliable good log game host players ps)
        | inr e ↦
            rw (notify_starts, skips, reachable, e)
              (ap (λ l. notify_starts net wire s l game host players ps)
                  (write_each-reliable wire good log _
                    ∙ ap
                        (λ own.
                          log
                          ++ send_to p (codes "+gam") own
                            ∷ send_to p (codes "+mgm") own
                            ∷ send_to p (codes "+ses") own
                            ∷ [])
                        (recipient_game-own net s wire game host players p))
                ∙ notify_starts-reliable good (log ++ start_views game host players p) game host
                    players ps
                ∙ append_assoc log _ _)
      ]

  -- If the host is not nil and every write succeeds, the start of a race is announced to every recipient
  -- that can be written to, in the order of the recipients, by `+gam`, `+mgm` and `+ses` with its own
  -- record, in which the recipient, if it plays, comes first, and nothing else is sent.
  pub notify_lobby_start_lem :
      (log : List Sent) (game : Bytes) (host : Ptr) (others clients : List Ptr)
      → IsReliable wire
      → host ≢ nil
      → notify_lobby_start net wire s log game (host ∷ others) clients
        ≡ log ++ start_announcement game host (host ∷ others) clients
  unfolding notify_lobby_start
  notify_lobby_start_lem log game host others clients good n =
      rw (==_false host nil n) (notify_starts-reliable good log game host (host ∷ others) clients)
