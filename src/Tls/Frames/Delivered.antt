-- ===== src/Tls/Frames/Delivered.antt =====
-- easo/frame.go over legacytls/conn.go: the frames that one end writes the other end reads.
use burnout_paradise_server.Common.{
  ◌^◌, ◌<◌, ◌≡◌, refl, sym, ap, ◌∙◌, subst, List, [], ◌∷◌, ◌++◌, append_assoc, append-nil, All,
  some, Bytes, length,
}
use burnout_paradise_server.Io.{ok}
use burnout_paradise_server.Io.ReadFull.{>>=-ok}
use burnout_paradise_server.Io.Delivery.{taking}
use burnout_paradise_server.Easo.Frame.{Frame, packet_of, read as read_plain}
use burnout_paradise_server.Easo.Frame.Wire.{IsFrame, read-packet_of}
use burnout_paradise_server.Easo.Frame.Reader.{read-agrees}
use burnout_paradise_server.Tls.{Conn}
use burnout_paradise_server.Tls.Records.{InStep}
use burnout_paradise_server.Tls.Stream.Chunk.{MacFits}
use burnout_paradise_server.Tls.Stream.Full.{Place, full, Holds, Ahead, full-Holds, at_end}
use burnout_paradise_server.Tls.Stream.Sending.{write-Sends}
use burnout_paradise_server.Tls.Frames.{read_frame, read_frames, unless_failed, write_frames}

-- Two ends between two frames.
pub record Idle (c d : Conn) : Type 0 where
  pub in_step : InStep c d
  pub clear : d.read_buf ≡ []
  pub small : c.version < 2 ^ 16
  pub fits : MacFits c.outgoing

-- The packet that is ahead of a reader is read as its frame, to its end.
read_frame-Ahead :
    (end : Place) (d : Conn) (s : Bytes) (f : Frame)
    → IsFrame f
    → d.read_buf ≡ []
    → Ahead end d s (packet_of f)
    → read_frame (d, s) ≡ ok (f, end)
unfolding read_frame
read_frame-Ahead end d s f v clear ahead =
    let (t, got, held) =
      read-agrees full (Holds end) (λ n p x q at. full-Holds end n p x q at) (packet_of f) [] (d, s)
        f
        (record {
          conn = d;
          buffer = [];
          later = packet_of f;
          here = ap (λ b. record d { read_buf = b }) clear;
          ahead = ahead;
          whole = refl;
        })
        (subst (λ t. read_plain t ≡ ok (f, [])) (append-nil (packet_of f))
          (read-packet_of f [] v)) in
    got ∙ ap (λ q. ok (f, q)) (at_end end t held)

-- Where some frames are written and read.
pub record Delivered (c d : Conn) (before : Bytes) (fs : List Frame) : Type 0 where
  pub conn : Conn
  pub wire : Bytes
  pub reader : Conn
  pub written : write_frames c (taking before) fs ≡ some (conn, taking (before ++ wire))
  pub read : (rest : Bytes) → read_frames (length fs) (d, wire ++ rest) ≡ ok (fs, (reader, rest))
  pub idle : Idle conn reader

pub write_frames-Delivered :
    (c d : Conn) (before : Bytes) (fs : List Frame)
    → Idle c d
    → All IsFrame fs
    → Delivered c d before fs
unfolding write_frames read_frames unless_failed
write_frames-Delivered c d before [] v good = record {
  conn = c;
  wire = [];
  reader = d;
  written = ap (λ b. some (c, taking b)) (sym (append-nil before));
  read = λ rest. refl;
  idle = v;
}
write_frames-Delivered c d before (f ∷ fs) v good =
    let s = write-Sends c d before (packet_of f) v.in_step v.clear v.small v.fits in
    let later =
      write_frames-Delivered s.conn s.reader (before ++ s.wire) fs
        (record { in_step = s.in_step; clear = s.clear; small = s.small; fits = s.fits }) good.1 in
    record {
      conn = later.conn;
      wire = s.wire ++ later.wire;
      reader = later.reader;
      written =
          ap (λ o. unless_failed o (λ c1 w1. write_frames c1 w1 fs)) s.done
          ∙ later.written
          ∙ ap (λ b. some (later.conn, taking b)) (append_assoc before s.wire later.wire);
      read = λ rest.
          ap (λ t. read_frames (length (f ∷ fs)) (d, t)) (append_assoc s.wire later.wire rest)
          ∙ >>=-ok _ (
              read_frame-Ahead (s.reader, later.wire ++ rest) d (s.wire ++ (later.wire ++ rest)) f
                good.0 v.clear (s.ahead (later.wire ++ rest)))
          ∙ >>=-ok _ (later.read rest);
      idle = later.idle;
    }
