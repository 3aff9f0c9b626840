-- ===== src/Tls/Frames.antt =====
-- easo/frame.go over legacytls/conn.go: the frames of a directory connection. A write to a connection takes the
-- whole packet or fails, so the loop of a frame's `Write` has one round.
pub mod Delivered
pub mod Talk
use burnout_paradise_server.Common.{ℕ, zero, suc, List, [], ◌∷◌, Option, none, some, Bytes}
use burnout_paradise_server.Io.{Error, Result, ok, err, ◌>>=◌, Sink}
use burnout_paradise_server.Easo.Frame.{Frame, read_from, packet_of}
use burnout_paradise_server.Tls.{Conn}
use burnout_paradise_server.Tls.Stream.{Progress, write}
use burnout_paradise_server.Tls.Stream.Full.{Place, full}

pub read_frame : Place → Result (Frame × Place)
read_frame p = read_from full p

-- Some frames, one after the other.
pub read_frames : ℕ → Place → Result (List Frame × Place)
unfolding read_frame
read_frames zero p = ok ([], p)
read_frames (suc n) p = read_frame p >>= λ (f, q). read_frames n q >>= λ (fs, t). ok (f ∷ fs, t)

-- What follows a write without an error.
unless_failed : Option Progress → (Conn → Sink → Option (Conn × Sink)) → Option (Conn × Sink)
unless_failed none next = none
unless_failed (some r) next = elim r.error [ some failure ↦ none | none ↦ next r.conn r.sink ]

-- The writer behind some frames, if every write succeeds.
pub write_frames : Conn → Sink → List Frame → Option (Conn × Sink)
unfolding unless_failed
write_frames c w [] = some (c, w)
write_frames c w (f ∷ fs) = unless_failed (write c w (packet_of f)) (λ c1 w1. write_frames c1 w1 fs)
