-- ===== src/Tls/Frames/Talk.antt =====
-- A directory connection from its first byte on: the handshake of legacytls/conn.go, and the frames of
-- easo/frame.go behind it.
use burnout_paradise_server.Common.{◌≡◌, ◌≢◌, refl, List, [], ◌++◌, All, true, some, Bytes}
use burnout_paradise_server.Io.{ok}
use burnout_paradise_server.Io.Delivery.{taking}
use burnout_paradise_server.Easo.Frame.{Frame}
use burnout_paradise_server.Easo.Frame.Wire.{IsFrame}
use burnout_paradise_server.Tls.{Hashes, Conn, server, record_handshake}
use burnout_paradise_server.Tls.Handshake.{Environment, handshake}
use burnout_paradise_server.Tls.Stream.Chunk.{seal-MacFits}
use burnout_paradise_server.Tls.Frames.Delivered.{Idle, Delivered, write_frames-Delivered}
use burnout_paradise_server.Tls.Client.{
  Client, IsProper, heard, own_random, client_records, server_records, client_keyed, server_keyed,
  client_finished, server_finished, agreed,
}
use burnout_paradise_server.Tls.Client.Writes.{derive-MacFits}
use burnout_paradise_server.Tls.Client.KeyExchange.{known_version}
use burnout_paradise_server.Tls.Client.Agreement.{handshake-proper}

-- The client's end behind the handshake: the mirror of the server's.
abbrev pub client_end : Hashes → Environment → Client → Bytes → Conn
client_end h env cl random =
    let c = agreed h env cl random in record c { incoming = c.outgoing; outgoing = c.incoming }

module _ (h : Hashes) (env : Environment) (cl : Client) (v : IsProper env cl) (bytes : Bytes)
    (drawn : env.random ≡ some bytes) where
  abbrev mine : Bytes
  mine = own_random env bytes

  client-Idle : Idle (client_end h env cl mine) (agreed h env cl mine)
  client-Idle = record {
    in_step = record { same_version = refl; same_state = refl };
    clear = refl;
    small = known_version env cl v;
    fits =
        seal-MacFits (client_keyed h env cl mine) _ record_handshake (client_finished h env cl mine)
          (derive-MacFits h (heard cl) mine cl.premaster).0;
  }

  server-Idle : Idle (agreed h env cl mine) (client_end h env cl mine)
  server-Idle = record {
    in_step = record { same_version = refl; same_state = refl };
    clear = refl;
    small = known_version env cl v;
    fits =
        seal-MacFits (server_keyed h env cl mine) _ record_handshake (server_finished h env cl mine)
          (derive-MacFits h (heard cl) mine cl.premaster).1;
  }

  -- The server takes the handshake off the stream, then reads the requests; the client reads the replies.
  pub record Talks (before : Bytes) (requests replies : List Frame) (rest : Bytes) : Type 0 where
    pub asked : Delivered (client_end h env cl mine) (agreed h env cl mine) [] requests
    pub answered :
        Delivered
          (agreed h env cl mine)
          (client_end h env cl mine)
          (before ++ server_records h env cl mine)
          replies
    pub shaken :
        handshake h env server
          (client_records h env cl mine ++ (asked.wire ++ rest))
          (taking before)
        ≡ ok (
          agreed h env cl mine,
          asked.wire ++ rest,
          taking (before ++ server_records h env cl mine),
        )

  -- With a key, a certificate and random bytes, the handshake with a proper client succeeds, whatever frames the
  -- client sends behind it; the server's own records tell the client its version, the suite that is preferred of
  -- those it offered, and the certificates, and end with the Finished value; the server then reads exactly these
  -- frames, and the client reads exactly the frames that the server writes behind its own records.
  pub talk :
      (before : Bytes) (requests replies : List Frame) (rest : Bytes)
      → env.has_key ≡ true
      → env.certificates ≢ []
      → All IsFrame requests
      → All IsFrame replies
      → Talks before requests replies rest
  talk before requests replies rest key certificate good_requests good_replies =
      let asked =
        write_frames-Delivered (client_end h env cl mine) (agreed h env cl mine) [] requests
          client-Idle good_requests in
      record {
        asked = asked;
        answered =
            write_frames-Delivered (agreed h env cl mine) (client_end h env cl mine)
              (before ++ server_records h env cl mine) replies server-Idle good_replies;
        shaken =
            handshake-proper h env cl v bytes drawn before (asked.wire ++ rest) key certificate;
      }
