-- ===== src/Tls/Client/Records.antt =====
-- legacytls/conn.go: the server's checks of what a proper client sends.
use burnout_paradise_server.Common.{
  ℕ, ◌+◌, ◌-◌, ◌^◌, ◌≤◌, ◌<◌, ◌≡◌, ◌≢◌, refl, ap, ◌∙◌, inl, inr, [], ◌∷◌, ◌++◌, append-nil, true,
  not, ◌&&◌, Bytes, bytes_eq_refl, ltb, ◌==◌, ==_refl, length, arith, if_cases,
}
use burnout_paradise_server.Io.{Result, ok}
use burnout_paradise_server.Tls.{ssl30, put_u16, u16_at, record_handshake}
use burnout_paradise_server.Tls.Messages.{handshake_message, put_uint24}
use burnout_paradise_server.Tls.Messages.Split.{split_handshake_lem, handshake_message-IsMessage}
use burnout_paradise_server.Tls.Keys.{finished_length}
use burnout_paradise_server.Tls.Handshake.{
  Environment, receive_message, single_message, encrypted_premaster, checked_premaster,
  check_finished,
}
use burnout_paradise_server.Tls.Client.{Client, key_exchange, key_message, IsProper}
use burnout_paradise_server.Tls.Client.Greeting.{u16_at-put_u16}

-- A record that holds one message is received as that message.
pub receive_message-single :
    (kind : ℕ) (body : Bytes)
    → length body < 2 ^ 24
    → receive_message kind record_handshake (handshake_message kind body)
      ≡ ok (handshake_message kind body)
unfolding receive_message single_message handshake_message
receive_message-single kind body small =
    let m = handshake_message kind body in
    ap (single_message kind) (
      (split_handshake_lem m (m ∷ [])).1
        ((handshake_message-IsMessage kind body small, tt), append-nil m))
    ∙ rw (==_refl kind) refl

encrypted_premaster-prefixed :
    (enc : Bytes)
    → length enc < 2 ^ 16
    → encrypted_premaster (handshake_message 16 (put_u16 (length enc) ++ enc)) ≡ enc
unfolding encrypted_premaster handshake_message put_uint24
encrypted_premaster-prefixed enc small =
    if_cases (λ (b : Bytes). b ≡ enc)
      (not (ltb (length (put_u16 (length enc) ++ enc)) 2)
        && (u16_at (put_u16 (length enc) ++ enc) 0 == length (put_u16 (length enc) ++ enc) - 2))
      _ _ (λ e. refl) (λ e. absurd (ground (arith, e, u16_at-put_u16 (length enc) enc small)))

encrypted_premaster-bare :
    (enc : Bytes)
    → u16_at enc 0 ≢ length enc - 2
    → encrypted_premaster (handshake_message 16 enc) ≡ enc
unfolding encrypted_premaster handshake_message put_uint24
encrypted_premaster-bare enc other =
    if_cases (λ (b : Bytes). b ≡ enc) (not (ltb (length enc) 2) && (u16_at enc 0 == length enc - 2))
      _ _ (λ e. absurd (other (ground (arith, e)))) (λ e. refl)

module _ (env : Environment) (cl : Client) (v : IsProper env cl) where
  -- The ciphertext is found in both forms of the key exchange.
  pub encrypted_premaster-proper : encrypted_premaster (key_message cl) ≡ cl.encrypted
  encrypted_premaster-proper =
      if_cases (λ (b : Bytes). encrypted_premaster (handshake_message 16 b) ≡ cl.encrypted)
        (cl.version == ssl30) _ _ (λ old. encrypted_premaster-bare cl.encrypted (unmarked old))
        (λ new. encrypted_premaster-prefixed cl.encrypted (omega (arith, v.key_fits)))
    where
      unmarked : (cl.version == ssl30) ≡ true → u16_at cl.encrypted 0 ≢ length cl.encrypted - 2
      unmarked old = elim v.unambiguous [
        | inl new ↦ absurd (ground (arith, old, new))
        | inr other ↦ other
      ]

  pub checked_premaster-proper : checked_premaster (env.decrypt cl.encrypted) ≡ ok cl.premaster
  unfolding checked_premaster
  checked_premaster-proper = rw (v.decrypts, v.premaster) refl

  pub key_exchange_size : length (key_exchange cl) ≤ 2 ^ 14 + 2
  key_exchange_size =
      if_cases (λ (b : Bytes). length b ≤ 2 ^ 14 + 2) (cl.version == ssl30) _ _
        (λ e. omega (arith, v.key_fits)) (λ e. omega (arith, v.key_fits))

-- A Finished value that is as expected passes.
pub check_finished-same :
    (version : ℕ) (want : Bytes)
    → length want ≡ finished_length version
    → check_finished version want (handshake_message 20 want) ≡ ok (handshake_message 20 want)
unfolding check_finished handshake_message put_uint24
check_finished-same version want size =
    let message = handshake_message 20 want in
    if_cases (λ (r : Result Bytes). r ≡ ok message)
      (not (length message == 4 + finished_length version)) _ _
      (λ e. absurd (ground (arith, e, size))) (λ e. rw (bytes_eq_refl want) refl)
