-- ===== src/Examples/Talk.antt =====
-- A directory connection at a concrete client.
use burnout_paradise_server.Common.{inl, inr, refl, [], ◌∷◌, replicate, codes, arith}
use burnout_paradise_server.Io.{Sink}
use burnout_paradise_server.Easo.Frame.{Frame}
use burnout_paradise_server.Easo.Frame.Wire.{IsFrame}
use burnout_paradise_server.Tls.{tls10, ssl30}
use burnout_paradise_server.Tls.Client.{Client, IsProper}
use burnout_paradise_server.Tls.Frames.Talk.{Talks, talk}
use burnout_paradise_server.Tls.Connection.{server_connection, reads, answers}
use burnout_paradise_server.Tls.Connection.Guarded.{Guarded, answers-Guarded}
use burnout_paradise_server.Examples.Tls.{zero_hashes, environment}

-- A client of the old kind: the header of SSL 3.0 on its first record, and TLS 1.0 within.
abbrev console : Client
console = record {
  version = tls10;
  record_version = ssl30;
  random = replicate 32 0;
  session_id = [];
  suites = 10 ∷ 4 ∷ [];
  compression = 0 ∷ [];
  premaster = replicate 48 0;
  encrypted = 9 ∷ [];
}

console-IsProper : IsProper environment console
console-IsProper = record {
  version = inr refl;
  record_version = inl refl;
  random = refl;
  session_id = omega arith;
  suites = omega arith;
  known = refl;
  compression = omega arith;
  hello_fits = omega arith;
  key_fits = omega arith;
  decrypts = refl;
  premaster = refl;
  unambiguous = inl refl;
}

abbrev request : Frame
request = record { kind = codes "@dir"; id = 7; payload = 0 ∷ [] }

request-IsFrame : IsFrame request
request-IsFrame = omega arith

talk_example :
    Talks zero_hashes environment console console-IsProper
      (replicate 28 0)
      refl
      []
      (request ∷ request ∷ [])
      (request ∷ [])
      (1 ∷ [])
talk_example =
    talk zero_hashes environment console console-IsProper (replicate 28 0) refl []
      (request ∷ request ∷ []) (request ∷ []) (1 ∷ []) refl (λ e. cc)
      (request-IsFrame, (request-IsFrame, tt)) (request-IsFrame, tt)

abbrev no_bytes : Sink
no_bytes = record { sent = []; replies = [] }

answers-Guarded_example : Guarded zero_hashes environment (1 ∷ []) no_bytes (
    answers zero_hashes environment
      (server_connection (1 ∷ []) no_bytes)
      (reads 12 ∷ reads 12 ∷ []))
answers-Guarded_example =
    answers-Guarded zero_hashes environment (1 ∷ []) no_bytes (reads 12) (reads 12 ∷ [])
