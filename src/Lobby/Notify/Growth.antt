-- ===== src/Lobby/Notify/Growth.antt =====
-- bpserver/lobby.go: the announcements only add frames behind those that were sent.
use burnout_paradise_server.Common.{
  ◌≡◌, refl, sym, ◌∙◌, ap, List, [], ◌∷◌, ◌++◌, append-nil, append_assoc, Bool, true, false, Bytes,
  Bool-cases, inl, inr, ◌==◌, if◌then◌else◌,
}
use burnout_paradise_server.Net.{Net}
use burnout_paradise_server.Types.{Server, Ptr, nil}
use burnout_paradise_server.Lobby.Notify.{
  Sent, Wire, write, write_each, notify_members, notify_client, notify_clients, notify_lobby,
  notify_starts, notify_lobby_start, skips, recipient_game, start_frames,
}

-- A log with some frames behind it.
abbrev pub Extends : List Sent → List Sent → Type 0
Extends log log' = (rest : List Sent) × (log' ≡ log ++ rest)

pub Extends-refl : (log : List Sent) → Extends log log
Extends-refl log = ([], sym (append-nil log))

pub Extends-trans : (a b c : List Sent) → Extends a b → Extends b c → Extends a c
Extends-trans a b c (r, e) (t, f) = (r ++ t, f ∙ ap (λ l. l ++ t) e ∙ append_assoc a r t)

-- Whichever way a test goes.
either_way :
    (b : Bool) (log x y : List Sent)
    → Extends log x
    → Extends log y
    → Extends log (if b then x else y)
either_way true log x y ex ey = ex
either_way false log x y ex ey = ey

pub write-Extends : (wire : Wire) (log : List Sent) (m : Sent) → Extends log (write wire log m).0
unfolding write
write-Extends wire log m = elim (Bool-cases (wire log m)) [
  | inl e ↦ rw (write, e) (m ∷ [], refl)
  | inr e ↦ rw (write, e) (Extends-refl log)
]

write_each-Extends : (wire : Wire) (log ms : List Sent) → Extends log (write_each wire log ms)
unfolding write_each
write_each-Extends wire log [] = Extends-refl log
write_each-Extends wire log (m ∷ ms) =
    either_way (write wire log m).1 log _ _
      (Extends-trans log (write wire log m).0 _ (write-Extends wire log m)
        (write_each-Extends wire (write wire log m).0 ms))
      (write-Extends wire log m)

module _ (net : Net) (wire : Wire) (s : Server) where
  notify_members-Extends :
      (log : List Sent) (game : Bytes) (players : List Ptr) (recipient : Ptr) (presence : Bool)
      → Extends log (notify_members net wire s log game players recipient presence)
  unfolding notify_members
  notify_members-Extends log game players recipient presence =
      Extends-trans log _ _
        (either_way presence log _ _ (write_each-Extends wire log _) (Extends-refl log))
        (write-Extends wire _ _)

  notify_client-Extends :
      (log : List Sent) (game : Bytes) (players : List Ptr) (recipient : Ptr)
      (presence collection : Bool)
      → Extends log (notify_client net wire s log game players recipient presence collection)
  unfolding notify_client
  notify_client-Extends log game players recipient presence false =
      notify_members-Extends log game players recipient presence
  notify_client-Extends log game players recipient presence true =
      Extends-trans log _ _ (write-Extends wire log _) (
        either_way _ _ _ _ (notify_members-Extends _ game players recipient presence)
          (Extends-refl _))

  notify_clients-Extends :
      (log : List Sent) (game : Bytes) (host : Ptr) (players ps : List Ptr)
      (presence collection : Bool)
      → Extends log (notify_clients net wire s log game host players ps presence collection)
  unfolding notify_clients
  notify_clients-Extends log game host players [] presence collection = Extends-refl log
  notify_clients-Extends log game host players (p ∷ ps) presence collection =
      Extends-trans log _ _
        (either_way (skips net wire s p) log _ _ (Extends-refl log)
          (notify_client-Extends log _ players p presence collection))
        (notify_clients-Extends
          (if skips net wire s p
            then log
            else notify_client net wire s log (recipient_game net wire s game host players p)
                players p presence collection)
          game host players ps presence collection)

  pub notify_lobby-Extends :
      (log : List Sent) (game : Bytes) (players clients : List Ptr) (presence collection : Bool)
      → Extends log (notify_lobby net wire s log game players clients presence collection)
  unfolding notify_lobby
  notify_lobby-Extends log game [] clients presence collection = Extends-refl log
  notify_lobby-Extends log game (host ∷ others) clients presence collection =
      either_way (host == nil) log _ _ (Extends-refl log)
        (notify_clients-Extends log game host (host ∷ others) clients presence collection)

  notify_starts-Extends :
      (log : List Sent) (game : Bytes) (host : Ptr) (players ps : List Ptr)
      → Extends log (notify_starts net wire s log game host players ps)
  unfolding notify_starts
  notify_starts-Extends log game host players [] = Extends-refl log
  notify_starts-Extends log game host players (p ∷ ps) =
      Extends-trans log _ _
        (either_way (skips net wire s p) log _ _ (Extends-refl log) (write_each-Extends wire log _))
        (notify_starts-Extends
          (if skips net wire s p
            then log
            else write_each wire log
                (start_frames net wire s p (recipient_game net wire s game host players p)))
          game host players ps)

  pub notify_lobby_start-Extends :
      (log : List Sent) (game : Bytes) (players clients : List Ptr)
      → Extends log (notify_lobby_start net wire s log game players clients)
  unfolding notify_lobby_start
  notify_lobby_start-Extends log game [] clients = Extends-refl log
  notify_lobby_start-Extends log game (host ∷ others) clients =
      either_way (host == nil) log _ _ (Extends-refl log)
        (notify_starts-Extends log game host (host ∷ others) clients)
