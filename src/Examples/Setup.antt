-- ===== src/Examples/Setup.antt =====
-- Certificates and the command line at concrete inputs.
use burnout_paradise_server.Common.{
  ℕ, suc, ◌+◌, ◌*◌, ◌^◌, ◌≤◌, Bool-cases, inl, inr, ◌<◌, ◌≡◌, refl, ap, [], ◌∷◌, true, Option, none,
  some, some_eq, Bytes, bytes_eq, codes, ◌==◌, ==_iff, if◌then◌else◌, length, ltb, ◌↔◌, arith,
  if_cases, sym, ◌∙◌,
}
use burnout_paradise_server.Io.{ok}
use burnout_paradise_server.Certificate.{
  PrivateKey, AnyPublic, rsa_public, Block, X509, Clock, TlsConfig, bit_len, self_signed, certify,
  issued, validate_dirty_sdk64_certificate, load_key_pair,
}
use burnout_paradise_server.Certificate.Checks.{
  Fits, bit_len_iff, validate_dirty_sdk64_certificate_lem, self_signed-verdict,
}
use burnout_paradise_server.Certificate.Load.{Loaded, load_key_pair_lem}
use burnout_paradise_server.Command.{Host, default_flags, Running, start_command, goes}
use burnout_paradise_server.Command.Ready.{IsReady, start_command-IsReady}
use burnout_paradise_server.Command.Defaults.{default_hosts, default_state, start_command-default}
use burnout_paradise_server.Examples.Race.{one_net}

-- A key of 1024 bits.
abbrev a_key : PrivateKey
a_key = record { public = record { modulus = 2 ^ 1023; exponent = 65537 }; secret = 5 }

abbrev keys_of : ℕ → Option PrivateKey
keys_of bits = if bits == 1024 then some a_key else none

bit_len_exact : (n k : ℕ) → 2 ^ k ≤ n → n < 2 ^ suc k → bit_len n ≡ suc k
bit_len_exact n k low high =
    let most = (bit_len_iff n (suc k)).1 high in
    elim (Bool-cases (ltb k (bit_len n))) [
      | inl more ↦ ground (arith, more, most)
      | inr less ↦ absurd (omega (arith, low, (bit_len_iff n k).0 (ground (arith, less))))
    ]

a_key_size : bit_len (2 ^ 1023) ≡ 1024
a_key_size = bit_len_exact (2 ^ 1023) 1023 (omega arith) (omega arith)

keys_of_size :
    (bits : ℕ) (key : PrivateKey) → keys_of bits ≡ some key → bit_len key.public.modulus ≡ bits
keys_of_size bits key =
    if_cases (λ (o : Option PrivateKey). o ≡ some key → bit_len key.public.modulus ≡ bits)
      (bits == 1024) _ _
      (λ same e.
        ap (λ k. bit_len k.public.modulus) (sym (some_eq e))
        ∙ (a_key_size ∙ sym ((==_iff bits 1024).0 same)))
      (λ other e. cc)

-- A certificate is its modulus and its exponent, and every byte of a text is a block.
abbrev parse_pair : Bytes → Option AnyPublic
parse_pair [] = none
parse_pair (m ∷ []) = none
parse_pair (m ∷ e ∷ rest) = some (rsa_public (record { modulus = m; exponent = e }))

abbrev byte_block : Bytes → Option (Block × Bytes)
byte_block [] = none
byte_block (c ∷ rest) = some (record { kind = codes "CERTIFICATE"; content = c ∷ [] }, rest)

byte_block-lt :
    (text : Bytes) (b : Block) (rest : Bytes)
    → byte_block text ≡ some (b, rest)
    → length rest < length text
byte_block-lt [] b rest e = cc
byte_block-lt (c ∷ text) b rest e = omega (arith, ap (λ p. length p.1) (some_eq e))

abbrev x509 : X509
x509 = record {
  generate_key = keys_of;
  create_certificate = λ t public key. some (public.modulus ∷ public.exponent ∷ []);
  parse_certificate = parse_pair;
  parse_pkcs1 = λ der. some a_key;
  parse_pkcs8 = λ der. none;
  pem_decode = byte_block;
  pem_decode-lt = byte_block-lt;
  parse-create = λ t public key der e. ap parse_pair (sym (some_eq e));
  bit_len-generate_key = keys_of_size;
}

abbrev clock : Clock
clock = record { now = 5 * 10 ^ 18; ten_years_after = λ t. t + 315 * 10 ^ 15 }

abbrev generated : TlsConfig
generated = record { certificate = (2 ^ 1023 ∷ 65537 ∷ []) ∷ []; private_key = some a_key }

self_signed-verdict_example : validate_dirty_sdk64_certificate x509 (some generated) ≡ none
unfolding self_signed certify issued
self_signed-verdict_example = self_signed-verdict x509 clock 1024 default_hosts generated refl

validate_dirty_sdk64_certificate_lem_example :
    (validate_dirty_sdk64_certificate x509 (some generated) ≡ none) ↔ Fits x509 (some generated)
validate_dirty_sdk64_certificate_lem_example =
    validate_dirty_sdk64_certificate_lem x509 (some generated)

-- A file of two certificates, and a file with a key.
abbrev files : Bytes → Option Bytes
files name = some (7 ∷ 8 ∷ [])

abbrev pair : TlsConfig
pair = record { certificate = (7 ∷ []) ∷ (8 ∷ []) ∷ []; private_key = some a_key }

pair_loaded : load_key_pair x509 files (codes "cert") (codes "key") ≡ ok pair
unfolding load_key_pair bytes_eq
pair_loaded = refl

load_key_pair_lem_example : Loaded x509 files (codes "cert") (codes "key") pair
load_key_pair_lem_example =
    load_key_pair_lem x509 files (codes "cert") (codes "key") pair pair_loaded

abbrev host : Host
host = record {
  x509 = x509;
  clock = clock;
  net = record one_net { split_host_port = λ a. some (codes "127.0.0.1", codes "21842") };
  files = files;
  listen = λ opened address. true;
  decrypt = λ key b. some b;
  random = none;
}

abbrev served : Running
served = record { server = default_state; tls = generated }

start_command-default_example : start_command host default_flags ≡ goes served
start_command-default_example =
    start_command-default host a_key (2 ^ 1023 ∷ 65537 ∷ []) (codes "127.0.0.1") refl refl refl refl
      refl

start_command-IsReady_example : IsReady host default_flags served
start_command-IsReady_example =
    start_command-IsReady host default_flags served start_command-default_example
