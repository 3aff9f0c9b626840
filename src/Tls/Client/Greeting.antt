-- ===== src/Tls/Client/Greeting.antt =====
-- legacytls/conn.go: a proper ClientHello is parsed as what it says.
use burnout_paradise_server.Common.{
  ℕ, zero, suc, ◌+◌, ◌*◌, ◌/◌, ◌%◌, ◌^◌, ◌<◌, ◌≡◌, ◌≢◌, refl, ap, ◌∙◌, List, [], ◌∷◌, ◌++◌,
  append_assoc, All, false, not, ◌&&◌, Bytes, ltb-false, ◌==◌, ==_false, if◌then◌else◌, length,
  length-append, take, drop, take-append, drop-append, get_or, arith,
}
use burnout_paradise_server.Io.{ok}
use burnout_paradise_server.Tls.{ssl30, tls10, suite_rc4_md5, suite_rc4_sha, put_u16, u16_at}
use burnout_paradise_server.Tls.Messages.{handshake_message, put_uint24}
use burnout_paradise_server.Tls.Handshake.{Environment, choose_suite, hello_of, parse_hello}
use burnout_paradise_server.Tls.Client.{
  Client, suite_bytes, offers, preferred, hello_front, hello_body, hello_message, heard, IsProper,
}

get_or-append :
    (xs ys : Bytes) (j i d : ℕ) → length xs + i ≡ j → get_or (xs ++ ys) j d ≡ get_or ys i d
get_or-append [] ys j i d h = ap (λ k. get_or ys k d) (omega (arith, h))
get_or-append (x ∷ xs) ys zero i d h = absurd (omega (arith, h))
get_or-append (x ∷ xs) ys (suc j) i d h = get_or-append xs ys j i d (omega (arith, h))

u16_at-append : (xs ys : Bytes) (n : ℕ) → length xs ≡ n → u16_at (xs ++ ys) n ≡ u16_at ys 0
u16_at-append xs ys n h = omega (
  arith,
  get_or-append xs ys n 0 0 (omega (arith, h)),
  get_or-append xs ys (n + 1) 1 0 (omega (arith, h)),
)

pub u16_at-put_u16 : (n : ℕ) (rest : Bytes) → n < 2 ^ 16 → u16_at (put_u16 n ++ rest) 0 ≡ n
u16_at-put_u16 n rest h = omega (arith, h)

-- The choice of the server is the preferred suite, or the one that was chosen before.
choose_suite-offers :
    (suites : List ℕ) (suite : ℕ)
    → All (λ s. s < 2 ^ 16) suites
    → choose_suite (suite_bytes suites) suite ≡ (
        if offers suite_rc4_sha suites
        then suite_rc4_sha
        else if offers suite_rc4_md5 suites
        then suite_rc4_md5
        else suite)
unfolding choose_suite
choose_suite-offers [] suite h = refl
choose_suite-offers (s ∷ suites) suite h =
    let same : s / 256 % 256 * 256 + s % 256 ≡ s = omega (arith, h.0) in
    rw same
      (ground (arith, choose_suite-offers suites (if s == suite_rc4_md5 then s else suite) h.1))

-- Two bytes for each suite.
length-suite_bytes : (suites : List ℕ) → length (suite_bytes suites) % 2 ≡ 0
length-suite_bytes [] = omega arith
length-suite_bytes (s ∷ suites) = omega (arith, length-suite_bytes suites)

module _ (env : Environment) (cl : Client) (v : IsProper env cl) where
  front_size : length (hello_front cl) ≡ 35 + length cl.session_id
  front_size =
      omega (arith, v.random, length-append cl.random (length cl.session_id ∷ cl.session_id))

  size_of :
      length (hello_body cl)
      ≡ 37 + length cl.session_id + length (suite_bytes cl.suites) + length cl.compression
  size_of = omega (
    arith,
    front_size,
    length-append (hello_front cl) (put_u16 (length (suite_bytes cl.suites))),
    length-append (suite_bytes cl.suites) cl.compression,
    length-append (hello_front cl ++ put_u16 (length (suite_bytes cl.suites)))
        (suite_bytes cl.suites ++ cl.compression),
  )

  -- The body from its session id on.
  from_session_id :
      hello_body cl
      ≡ (put_u16 cl.version ++ cl.random)
        ++ ((length cl.session_id ∷ cl.session_id)
            ++ (put_u16 (length (suite_bytes cl.suites))
                ++ (suite_bytes cl.suites ++ cl.compression)))
  from_session_id =
      append_assoc (hello_front cl) (put_u16 (length (suite_bytes cl.suites)))
        (suite_bytes cl.suites ++ cl.compression)
      ∙ append_assoc (put_u16 cl.version ++ cl.random) (length cl.session_id ∷ cl.session_id)
          (put_u16 (length (suite_bytes cl.suites)) ++ (suite_bytes cl.suites ++ cl.compression))

  session_id_at : get_or (hello_body cl) 34 0 ≡ length cl.session_id
  session_id_at =
      ap (λ b. get_or b 34 0) from_session_id
      ∙ get_or-append (put_u16 cl.version ++ cl.random) _ 34 0 0 (omega (arith, v.random))

  suites_at : u16_at (hello_body cl) (35 + length cl.session_id) ≡ length (suite_bytes cl.suites)
  suites_at =
      ap (λ b. u16_at b (35 + length cl.session_id))
        (append_assoc (hello_front cl) (put_u16 (length (suite_bytes cl.suites)))
          (suite_bytes cl.suites ++ cl.compression))
      ∙ u16_at-append (hello_front cl) _ (35 + length cl.session_id) front_size
      ∙ u16_at-put_u16 (length (suite_bytes cl.suites)) (suite_bytes cl.suites ++ cl.compression)
          (omega (arith, size_of, v.hello_fits))

  rest_of :
      drop (37 + length cl.session_id) (hello_body cl) ≡ suite_bytes cl.suites ++ cl.compression
  rest_of =
      drop-append (37 + length cl.session_id)
        (hello_front cl ++ put_u16 (length (suite_bytes cl.suites)))
        (suite_bytes cl.suites ++ cl.compression)
        (omega (
          arith,
          front_size,
          length-append (hello_front cl) (put_u16 (length (suite_bytes cl.suites))),
        ))

  random_of : take 32 (drop 2 (hello_body cl)) ≡ cl.random
  random_of = ap (λ b. take 32 (drop 2 b)) from_session_id ∙ take-append 32 cl.random _ v.random

  known_suite : preferred cl.suites ≢ 0
  known_suite = ground (arith, v.known)

  suite_of :
      choose_suite
        (take (length (suite_bytes cl.suites)) (drop (37 + length cl.session_id) (hello_body cl)))
        0
      ≡ preferred cl.suites
  suite_of =
      ap (λ b. choose_suite (take (length (suite_bytes cl.suites)) b) 0) rest_of
      ∙ ap (λ b. choose_suite b 0)
          (take-append (length (suite_bytes cl.suites)) (suite_bytes cl.suites) cl.compression refl)
      ∙ choose_suite-offers cl.suites 0 v.suites

  hello_of-proper :
      hello_of (hello_message cl) cl.version (length cl.session_id) (length (suite_bytes cl.suites))
      ≡ ok (heard cl)
  unfolding hello_of handshake_message put_uint24
  hello_of-proper =
      rw
        (
          suite_of,
          random_of,
          length-suite_bytes cl.suites,
          ltb-false (length (hello_body cl))
              (37 + length cl.session_id + length (suite_bytes cl.suites) + 1)
              (omega (arith, size_of, v.compression)),
          ==_false (preferred cl.suites) 0 known_suite,
        )
        refl

  known_version : not (cl.version == ssl30) && not (cl.version == tls10) ≡ false
  known_version = ground (arith, v.version)

  version_of : u16_at (hello_body cl) 0 ≡ cl.version
  version_of =
      ap (λ b. u16_at b 0) from_session_id
      ∙ u16_at-put_u16 cl.version
          (cl.random
            ++ ((length cl.session_id ∷ cl.session_id)
                ++ (put_u16 (length (suite_bytes cl.suites))
                    ++ (suite_bytes cl.suites ++ cl.compression))))
          (ground (arith, v.version))

  -- A proper ClientHello is parsed as what it says, with the preferred suite.
  pub parse_hello-proper : parse_hello (hello_message cl) ≡ ok (heard cl)
  unfolding parse_hello handshake_message put_uint24
  parse_hello-proper =
      rw
        (
          version_of,
          session_id_at,
          suites_at,
          known_version,
          ltb-false (length (hello_message cl)) 39 (omega (arith, size_of)),
          ltb-false (length (hello_body cl)) (35 + length cl.session_id + 2)
              (omega (arith, size_of)),
        )
        hello_of-proper
