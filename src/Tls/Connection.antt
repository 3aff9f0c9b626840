-- ===== src/Tls/Connection.antt =====
-- legacytls/conn.go: a connection as its caller sees it. The first call of `Read` or `Write` makes the
-- handshake, once; the caller closes the connection on the first error.
pub mod Guarded
use burnout_paradise_server.Common.{ℕ, List, [], ◌∷◌, Option, none, some, Bytes}
use burnout_paradise_server.Io.{Error, Result, ok, err, short_write, Sink}
use burnout_paradise_server.Tls.{Hashes, Conn, server}
use burnout_paradise_server.Tls.Handshake.{Environment, handshake}
use burnout_paradise_server.Tls.Stream.{Progress, read, write}

-- `shaken` is what the handshake returned, if it was made; `some none` is no error.
pub record Connection : Type 0 where
  pub conn : Conn
  pub stream : Bytes
  pub sink : Sink
  pub shaken : Option (Option Error)

unfoldable pub server_connection : Bytes → Sink → Connection
server_connection s w = record { conn = server; stream = s; sink = w; shaken = none }

-- `Accept` of the listener, for a connection that was accepted below it.
unfoldable pub accept_connection : Option (Bytes × Sink) → Option Connection
unfolding server_connection
accept_connection none = none
accept_connection (some (s, w)) = some (server_connection s w)

unfoldable pub settle_handshake :
    Connection → Result (Conn × Bytes × Sink) → Connection × Option Error
settle_handshake l (err failure) = (record l { shaken = some (some failure) }, some failure)
settle_handshake l (ok (c, s, w)) =
    (record { conn = c; stream = s; sink = w; shaken = some none }, none)

unfoldable pub shake_once :
    Hashes → Environment → Connection → Option (Option Error) → Connection × Option Error
unfolding settle_handshake
shake_once h env l (some result) = (l, result)
shake_once h env l none = settle_handshake l (handshake h env l.conn l.stream l.sink)

-- `Handshake`.
unfoldable pub shake : Hashes → Environment → Connection → Connection × Option Error
unfolding shake_once
shake h env l = shake_once h env l l.shaken

pub data Call : Type 0 where
  reads : ℕ → Call
  writes : Bytes → Call

pub data Answer : Type 0 where
  got : Bytes → Answer
  wrote : ℕ → Answer
  failed : Error → Answer

unfoldable pub took : Connection → Result (Bytes × Conn × Bytes) → Connection × Answer
took l (err failure) = (l, failed failure)
took l (ok (x, c, s)) = (record l { conn = c; stream = s }, got x)

unfoldable pub write_answer : ℕ → Option Error → Answer
write_answer written none = wrote written
write_answer written (some failure) = failed failure

-- The fuel of a write never runs out.
unfoldable pub gave : Connection → Option Progress → Connection × Answer
unfolding write_answer
gave l none = (l, failed short_write)
gave l (some r) = (record l { conn = r.conn; sink = r.sink }, write_answer r.written r.error)

unfoldable pub proceed : Call → Connection × Option Error → Connection × Answer
unfolding took gave
proceed call (l, some failure) = (l, failed failure)
proceed (reads size) (l, none) = took l (read size l.conn l.stream)
proceed (writes p) (l, none) = gave l (write l.conn l.sink p)

-- `Read` and `Write`.
unfoldable pub perform_call : Hashes → Environment → Connection → Call → Connection × Answer
unfolding proceed shake
perform_call h env l call = proceed call (shake h env l)

unfoldable pub follow : Connection × Answer → (Connection → List Answer) → List Answer
follow (l, failed failure) next = failed failure ∷ []
follow (l, got x) next = got x ∷ next l
follow (l, wrote n) next = wrote n ∷ next l

-- The calls of a caller, up to the first error.
unfoldable pub answers : Hashes → Environment → Connection → List Call → List Answer
unfolding perform_call follow
answers h env l [] = []
answers h env l (call ∷ calls) = follow (perform_call h env l call) (λ l'. answers h env l' calls)
