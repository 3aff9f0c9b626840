-- ===== src/Examples/Wire.antt =====
-- Frames at concrete inputs.
use burnout_paradise_server.Easo
use burnout_paradise_server.Common.{
  ◌%◌, ◌<◌, ◌≡◌, refl, ◌++◌, [], ◌∷◌, Option, none, some, arith, Bytes, codes, length, take,
  AreBytes, ◌⊎◌,
}
use burnout_paradise_server.Io.{Error, ok, err, eof, invalid_frame, Sink, accepts, write_all}
use burnout_paradise_server.Io.Delivery.{Delivers}
use burnout_paradise_server.Crypto.{Md5}
use burnout_paradise_server.Crypto.Rc4.{Rc4, xor_key_stream}
use burnout_paradise_server.Crypto.Rc4.Stream.{crypt, after}
use burnout_paradise_server.Easo.Frame.{Frame, header_size, packet_of, put_u32}
use burnout_paradise_server.Easo.Frame.Wire.{IsFrame, read-packet_of, read_sound}
use burnout_paradise_server.Easo.Frame.Ends.{read_truncated, write_lem, read-write, write_willing}
use burnout_paradise_server.Easo.Secure.{SecureEaso, secure_packet_of, plain_of}
use burnout_paradise_server.Easo.Secure.Session.{
  InSync, secure_write_lem, secure_read-write, write_frames, read_frames, read_frames-write_frames,
}
use burnout_paradise_server.Easo.Secure.Authentic.{secure_read_sound}

abbrev ping : Frame
ping = record { kind = codes "~png"; id = 7; payload = codes "REF=1" }

ping-IsFrame : IsFrame ping
ping-IsFrame = record { four = refl; word = omega arith; fits = omega arith }

-- A writer that takes three bytes at first, and everything then.
abbrev slow : Sink
slow = record { sent = 9 ∷ []; replies = accepts 3 ∷ [] }

abbrev slow_behind : Sink
slow_behind = record { sent = 9 ∷ packet_of ping; replies = [] }

write_lem_example :
    (IsFrame ping
      × ((r : Sink × Option Error) × (Easo.Frame.write slow ping ≡ some r)
          × Delivers slow (packet_of ping) r))
    ⊎ ((¬ IsFrame ping) × (Easo.Frame.write slow ping ≡ some (slow, some invalid_frame)))
write_lem_example = write_lem slow ping (omega arith)

write_willing_example :
    (s : Sink) × (Easo.Frame.write slow ping ≡ some (s, none))
    × (s.sent ≡ slow.sent ++ packet_of ping)
write_willing_example = write_willing slow ping ping-IsFrame (omega arith, tt)

ping_written : Easo.Frame.write slow ping ≡ some (slow_behind, none)
unfolding Easo.Frame.write write_all packet_of put_u32
ping_written = refl

read-write_example :
    (slow_behind.sent ≡ slow.sent ++ packet_of ping)
    × (Easo.Frame.read (packet_of ping ++ 1 ∷ 2 ∷ []) ≡ ok (ping, 1 ∷ 2 ∷ []))
read-write_example = read-write slow slow_behind ping (1 ∷ 2 ∷ []) (omega arith) ping_written

packet_of-AreBytes : AreBytes (packet_of ping ++ 5 ∷ [])
unfolding packet_of put_u32
packet_of-AreBytes = omega arith

read_sound_example : (packet_of ping ++ 5 ∷ [] ≡ packet_of ping ++ 5 ∷ []) × IsFrame ping
read_sound_example =
    read_sound (packet_of ping ++ 5 ∷ []) ping (5 ∷ []) packet_of-AreBytes
      (read-packet_of ping (5 ∷ []) ping-IsFrame)

read_truncated_example : Easo.Frame.read (take 12 (packet_of ping)) ≡ err eof
read_truncated_example = read_truncated ping 12 ping-IsFrame (omega arith)

-- A digest that depends on the length only.
abbrev length_md5 : Md5
length_md5 = record {
  sum = λ b.
      let h = length b % 256 in h ∷ h ∷ h ∷ h ∷ h ∷ h ∷ h ∷ h ∷ h ∷ h ∷ h ∷ h ∷ h ∷ h ∷ h ∷ h ∷ [];
  length-sum = λ b. refl;
  sum-AreBytes = λ b.
      let p : length b % 256 < 256 = omega arith in
      (p, (p, (p, (p, (p, (p, (p, (p, (p, (p, (p, (p, (p, (p, (p, (p, tt))))))))))))))));
}

abbrev cipher : Rc4
cipher = record { table = 3 ∷ 200 ∷ 1 ∷ 77 ∷ []; i = 0; j = 0 }

abbrev sender : SecureEaso
sender = record { read_cipher = cipher; write_cipher = cipher }

abbrev sent_packet : Bytes
sent_packet = crypt cipher (secure_packet_of length_md5 ping)

abbrev sender_behind : SecureEaso
sender_behind = record {
  read_cipher = cipher;
  write_cipher = after cipher (secure_packet_of length_md5 ping);
}

abbrev secure_behind : Sink
secure_behind = record { sent = 9 ∷ sent_packet; replies = [] }

ping_sent :
    Easo.Secure.write length_md5 sender slow ping ≡ some (sender_behind, secure_behind, none)
unfolding Easo.Secure.write write_all secure_packet_of plain_of xor_key_stream put_u32
ping_sent = refl

secure_write_lem_example :
    (IsFrame ping
      × ((r : Sink × Option Error) × (Easo.Secure.write length_md5 sender slow ping
            ≡ some (sender_behind, r.0, r.1))
          × Delivers slow sent_packet r))
    ⊎ ((¬ IsFrame ping)
        × (Easo.Secure.write length_md5 sender slow ping ≡ some (sender, slow, some invalid_frame)))
secure_write_lem_example = secure_write_lem length_md5 sender slow ping (omega arith)

ping_read :
    (secure_behind.sent ≡ slow.sent ++ sent_packet)
    × (Easo.Secure.read length_md5 sender (sent_packet ++ 1 ∷ [])
        ≡ ok (ping, record sender { read_cipher = sender_behind.write_cipher }, 1 ∷ []))
ping_read =
    secure_read-write length_md5 sender sender sender_behind slow secure_behind ping (1 ∷ []) refl
      (omega arith) ping_sent

sent-AreBytes : AreBytes (sent_packet ++ 1 ∷ [])
unfolding secure_packet_of plain_of xor_key_stream put_u32
sent-AreBytes = omega arith

secure_read_sound_example :
    (sent_packet ++ 1 ∷ [] ≡ sent_packet ++ 1 ∷ [])
    × IsFrame ping
    × (◌≡◌ {A = SecureEaso}
        (record sender { read_cipher = sender_behind.write_cipher })
        (record sender { read_cipher = after cipher (secure_packet_of length_md5 ping) }))
secure_read_sound_example =
    secure_read_sound length_md5 sender (record sender { read_cipher = sender_behind.write_cipher })
      (sent_packet ++ 1 ∷ []) (1 ∷ []) ping sent-AreBytes (omega arith) ping_read.1

pings_sent :
    write_frames length_md5 sender slow (ping ∷ []) ≡ some (sender_behind, secure_behind, none)
unfolding write_frames
pings_sent = rw (write_frames, ping_sent) refl

read_frames-write_frames_example :
    (wire : Bytes) × (receiver' : SecureEaso) × (secure_behind.sent ≡ slow.sent ++ wire)
    × (read_frames length_md5 1 sender (wire ++ 1 ∷ []) ≡ ok (ping ∷ [], receiver', 1 ∷ []))
    × InSync sender_behind receiver'
read_frames-write_frames_example =
    read_frames-write_frames length_md5 (ping ∷ []) sender sender sender_behind slow secure_behind
      (1 ∷ []) (omega arith) refl pings_sent
