-- ===== src/Tls/Handshake/Checks.antt =====
-- legacytls/conn.go: the checks of single messages, and the keys.
use burnout_paradise_server.Common.{
  ℕ, ◌+◌, ◌*◌, ◌%◌, ◌≡◌, ◌⊎◌, inl, inr, refl, ap, subst, [], ◌∷◌, not, ◌&&◌, ◌||◌, Option, none,
  some, Bytes, bytes_eq, bytes_eq_sound, ltb, ◌==◌, ==_iff, if◌then◌else◌, length, take, drop,
  get_or, arith, if_cases, if_both, length-take, length-drop,
}
use burnout_paradise_server.Io.{Result, ok, err, malformed_message}
use burnout_paradise_server.Io.ReadFull.{ok_eq}
use burnout_paradise_server.Crypto.Rc4.{Rc4, new_cipher}
use burnout_paradise_server.Tls.{
  Hash, Hashes, CipherState, ssl30, tls10, suite_rc4_md5, suite_rc4_sha, u16_at,
}
use burnout_paradise_server.Tls.Keys.{master_secret, expand_keys, finished_length}
use burnout_paradise_server.Tls.Keys.Lengths.{length-expand_keys}
use burnout_paradise_server.Tls.Handshake.{
  Hello, choose_suite, hello_of, parse_hello, checked_premaster, cipher_state, make_cipher, derive,
  check_finished,
}

-- One of the two versions, and one of the two suites.
abbrev pub IsVersion : ℕ → Type 0
IsVersion version = (version ≡ ssl30) ⊎ (version ≡ tls10)

abbrev pub IsSuite : ℕ → Type 0
IsSuite suite = (suite ≡ suite_rc4_md5) ⊎ (suite ≡ suite_rc4_sha)

choose_suite_lem :
    (offers : Bytes) (suite : ℕ)
    → (suite ≡ 0) ⊎ IsSuite suite
    → (choose_suite offers suite ≡ 0) ⊎ IsSuite (choose_suite offers suite)
unfolding choose_suite
choose_suite_lem [] suite h = h
choose_suite_lem (a ∷ []) suite h = h
choose_suite_lem (a ∷ b ∷ offers) suite h =
    let s = a * 256 + b in
    let rest = choose_suite_lem offers (if s == suite_rc4_md5 then s else suite) (
      if_cases (λ (r : ℕ). (r ≡ 0) ⊎ IsSuite r) (s == suite_rc4_md5) _ _
        (λ e. inr (inl ((==_iff s suite_rc4_md5).0 e))) (λ e. h)) in
    if_cases (λ (r : ℕ). (r ≡ 0) ⊎ IsSuite r) (s == suite_rc4_sha) _ _
      (λ e. inr (inr ((==_iff s suite_rc4_sha).0 e))) (λ e. rest)

hello_of_sound :
    (message : Bytes) (version sid cs : ℕ) (hello : Hello)
    → IsVersion version
    → hello_of message version sid cs ≡ ok hello
    → IsVersion hello.version × IsSuite hello.suite
unfolding hello_of
hello_of_sound message version sid cs hello good =
    let suite = choose_suite (take cs (drop (37 + sid) (drop 4 message))) 0 in
    if_both (λ (r : Result Hello). r ≡ ok hello → IsVersion hello.version × IsSuite hello.suite)
      (not (cs % 2 == 0) || ltb (length (drop 4 message)) (37 + sid + cs + 1)) _ _ (λ e. cc)
      (if_cases (λ (r : Result Hello). r ≡ ok hello → IsVersion hello.version × IsSuite hello.suite)
        (suite == 0) _ _ (λ e f. cc)
        λ nonzero e.
          subst (λ x. IsVersion x.version × IsSuite x.suite) (ok_eq e)
            (
              good,
              elim (choose_suite_lem (take cs (drop (37 + sid) (drop 4 message))) 0 (inl refl)) [
                | inl zero ↦ absurd (ground (arith, nonzero, zero))
                | inr known ↦ known
              ],
            ))

pub parse_hello_sound :
    (message : Bytes) (hello : Hello)
    → parse_hello message ≡ ok hello
    → IsVersion hello.version × IsSuite hello.suite
unfolding parse_hello
parse_hello_sound message hello =
    let version = u16_at (drop 4 message) 0 in
    if_both (λ (r : Result Hello). r ≡ ok hello → IsVersion hello.version × IsSuite hello.suite)
      (ltb (length message) 39) _ _ (λ e. cc)
      (if_cases (λ (r : Result Hello). r ≡ ok hello → IsVersion hello.version × IsSuite hello.suite)
        (not (version == ssl30) && not (version == tls10)) _ _ (λ e f. cc)
        λ good.
          if_both
            (λ (r : Result Hello). r ≡ ok hello → IsVersion hello.version × IsSuite hello.suite)
            (ltb (length (drop 4 message)) (35 + get_or (drop 4 message) 34 0 + 2))
            (err malformed_message) _ (λ e. cc)
            (λ e. hello_of_sound message version _ _ hello (ground (arith, good)) e))

pub checked_premaster_sound :
    (o : Option Bytes) (premaster : Bytes)
    → checked_premaster o ≡ ok premaster
    → length premaster ≡ 48
unfolding checked_premaster
checked_premaster_sound none premaster = λ e. cc
checked_premaster_sound (some p) premaster =
    if_cases (λ (r : Result Bytes). r ≡ ok premaster → length premaster ≡ 48) (length p == 48) _ _
      (λ h e. subst (λ x. length x ≡ 48) (ok_eq e) ((==_iff (length p) 48).0 h)) (λ h e. cc)

pub check_finished_sound :
    (version : ℕ) (want message fin : Bytes)
    → check_finished version want message ≡ ok fin
    → (message ≡ fin) × (drop 4 message ≡ want)
unfolding check_finished
check_finished_sound version want message fin =
    if_both (λ (r : Result Bytes). r ≡ ok fin → (message ≡ fin) × (drop 4 message ≡ want))
      (not (length message == 4 + finished_length version)) _ _ (λ e. cc)
      (if_cases (λ (r : Result Bytes). r ≡ ok fin → (message ≡ fin) × (drop 4 message ≡ want))
        (not (bytes_eq (drop 4 message) want)) _ _ (λ h e. cc)
        (λ h e. (ok_eq e, bytes_eq_sound (drop 4 message) want (ground (arith, h)))))

new_cipher-some : (key : Bytes) → length key ≡ 16 → (c : Rc4) × (new_cipher key ≡ some c)
unfolding new_cipher
new_cipher-some key e =
    if_cases (λ (o : Option Rc4). (c : Rc4) × (o ≡ some c))
      (length key == 0 || ltb 256 (length key)) _ _ (λ bad. absurd (ground (arith, bad, e)))
      (λ good. (_, refl))

make_cipher-some :
    (key mac_key : Bytes) (hash : Hash) (version : ℕ)
    → length key ≡ 16
    → (k : CipherState) × (make_cipher key mac_key hash version ≡ some k)
unfolding make_cipher cipher_state
make_cipher-some key mac_key hash version e =
    let (c, f) = new_cipher-some key e in (_, ap (λ o. cipher_state o mac_key hash version) f)

-- Whatever the secrets are, both directions get a cipher.
pub derive-active :
    (h : Hashes) (hello : Hello) (random premaster : Bytes)
    → ((k : CipherState) × ((derive h hello random premaster).client ≡ some k))
      × ((k : CipherState) × ((derive h hello random premaster).server ≡ some k))
unfolding derive
derive-active h hello random premaster =
    let mac = if hello.suite == suite_rc4_md5 then 16 else 20 in
    let master = master_secret h hello.version premaster hello.random random in
    let block = expand_keys h hello.version master hello.random random (2 * mac + 32) in
    let size = length-expand_keys h hello.version master hello.random random (2 * mac + 32) in
    let tail = length-drop (2 * mac) block in
    (
      make_cipher-some (take 16 (drop (2 * mac) block)) _ _ _
          (omega (arith, size, tail, length-take 16 (drop (2 * mac) block))),
      make_cipher-some (drop (2 * mac + 16) block) _ _ _
          (omega (arith, size, length-drop (2 * mac + 16) block)),
    )
