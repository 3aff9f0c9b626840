-- ===== src/Tls/Connection/Guarded.antt =====
-- legacytls/conn.go: no call is answered before the client has proved itself.
use burnout_paradise_server.Common.{◌≡◌, ◌⊎◌, inl, inr, refl, List, [], ◌∷◌, Bytes}
use burnout_paradise_server.Io.{Error, Result, ok, err, Sink}
use burnout_paradise_server.Tls.{Hashes, Conn, server}
use burnout_paradise_server.Tls.Handshake.{Environment, handshake}
use burnout_paradise_server.Tls.Handshake.Sound.{Authentic, handshake_lem}
use burnout_paradise_server.Tls.Connection.{
  server_connection, Call, Answer, failed, answers, settle_handshake, proceed, follow,
}

-- The only answer is an error, or the handshake has succeeded and the client is authentic.
abbrev pub Guarded : Hashes → Environment → Bytes → Sink → List Answer → Type 0
Guarded h env s w replies =
    ((failure : Error) × (replies ≡ failed failure ∷ []))
    ⊎ ((o : Conn × Bytes × Sink) × ((handshake h env server s w ≡ ok o)
          × Authentic h env server s w))

settled-Guarded :
    (h : Hashes) (env : Environment) (s : Bytes) (w : Sink) (call : Call) (calls : List Call)
    (r : Result (Conn × Bytes × Sink))
    → handshake h env server s w ≡ r
    → Guarded h env s w (
        follow
          (proceed call (settle_handshake (server_connection s w) r))
          (λ l. answers h env l calls))
unfolding settle_handshake proceed follow
settled-Guarded h env s w call calls (err failure) e = inl (failure, refl)
settled-Guarded h env s w call calls (ok o) e = inr (o, (e, handshake_lem h env server s w o e))

-- Whatever calls are made on a new connection, one at least, either the first is answered by an error and
-- nothing follows, or the handshake has succeeded, and with an authentic client: in what the connection read, the
-- next record behind the exchange was the switch to the keys, and the one behind it, under the keys that were
-- derived, was a Finished message with the value of the master secret and of all messages before.
pub answers-Guarded :
    (h : Hashes) (env : Environment) (s : Bytes) (w : Sink) (call : Call) (calls : List Call)
    → Guarded h env s w (answers h env (server_connection s w) (call ∷ calls))
unfolding answers server_connection
answers-Guarded h env s w call calls =
    settled-Guarded h env s w call calls (handshake h env server s w) refl
