-- ===== src/Certificate.antt =====
-- bpserver/certificate.go, legacytls/config.go and the end of legacytls/conn.go: certificates and their keys.
-- The packages crypto/rsa, crypto/x509 and encoding/pem are an interface.
pub mod Checks
pub mod Load
use burnout_paradise_server.Common.{
  ℕ, zero, suc, ◌+◌, ◌-◌, ◌*◌, ◌/◌, ◌^◌, ◌<◌, ◌≡◌, List, [], ◌∷◌, not, ◌||◌, Option, none, some,
  Bytes, codes, bytes_eq, ltb, ◌==◌, if◌then◌else◌, length,
}
use burnout_paradise_server.Io.{
  Error, Result, ok, err, ◌>>=◌, no_certificate, file_error, no_private_key, no_rsa_key,
  no_generated_key, not_created, no_leaf_certificate, key_mismatch, oversized_key,
}

-- `BitLen` of a number that is not negative: the halvings up to 0. A number is no smaller than their count.
halvings : ℕ → ℕ → ℕ
halvings zero n = 0
halvings (suc fuel) n = let rest = halvings fuel (n / 2) in if n == 0 then 0 else suc rest

unfoldable pub bit_len : ℕ → ℕ
unfolding halvings
bit_len n = halvings n n

pub record PublicKey : Type 0 where
  pub modulus : ℕ
  pub exponent : ℕ

pub record PrivateKey : Type 0 where
  pub public : PublicKey
  pub secret : ℕ

-- The dynamic types of the keys that X.509 and PKCS #8 hold.
pub data AnyPublic : Type 0 where
  rsa_public : PublicKey → AnyPublic
  other_public : AnyPublic

pub data AnyPrivate : Type 0 where
  rsa_private : PrivateKey → AnyPrivate
  other_private : AnyPrivate

pub record Block : Type 0 where
  pub kind : Bytes
  pub content : Bytes

-- The fields of the `x509.Certificate` that the code sets. Times are in nanoseconds since 1970; the key usages
-- are a word of bits.
pub data Signature : Type 0 where
  sha1_with_rsa : Signature

pub data Purpose : Type 0 where
  server_auth : Purpose

pub record Template : Type 0 where
  pub serial_number : ℕ
  pub common_name : Bytes
  pub organization : List Bytes
  pub not_before : ℕ
  pub not_after : ℕ
  pub signature_algorithm : Signature
  pub key_usage : ℕ
  pub ext_key_usage : List Purpose
  pub dns_names : List Bytes

-- What the packages do. A decoded block is taken off the front of the text, the key of a certificate that was
-- made is the one it was made for, and a generated key has the size that was asked for.
pub record X509 : Type 0 where
  pub generate_key : ℕ → Option PrivateKey
  pub create_certificate : Template → PublicKey → PrivateKey → Option Bytes
  pub parse_certificate : Bytes → Option AnyPublic
  pub parse_pkcs1 : Bytes → Option PrivateKey
  pub parse_pkcs8 : Bytes → Option AnyPrivate
  pub pem_decode : Bytes → Option (Block × Bytes)
  pub pem_decode-lt :
      (text : Bytes) (b : Block) (rest : Bytes)
      → pem_decode text ≡ some (b, rest)
      → length rest < length text
  pub parse-create :
      (t : Template) (public : PublicKey) (key : PrivateKey) (der : Bytes)
      → create_certificate t public key ≡ some der
      → parse_certificate der ≡ some (rsa_public public)
  pub bit_len-generate_key :
      (bits : ℕ) (key : PrivateKey)
      → generate_key bits ≡ some key
      → bit_len key.public.modulus ≡ bits

-- The time, and `AddDate` of ten years.
pub record Clock : Type 0 where
  pub now : ℕ
  pub ten_years_after : ℕ → ℕ

-- `legacytls.Config`.
pub record TlsConfig : Type 0 where
  pub certificate : List Bytes
  pub private_key : Option PrivateKey

abbrev pub dirty_sdk64_rsa_key_bits : ℕ
dirty_sdk64_rsa_key_bits = 1024

unfoldable pub common_name_of : List Bytes → Bytes
common_name_of [] = codes "localhost"
common_name_of (host ∷ hosts) = if bytes_eq host [] then codes "localhost" else host

-- An hour is 3600 * 10^9 nanoseconds. The two usages are key encipherment, 4, and digital signature, 1.
unfoldable pub template : Clock → List Bytes → Template
unfolding common_name_of
template clock hosts = record {
  serial_number = clock.now;
  common_name = common_name_of hosts;
  organization = codes "ReOrigin Local Emulator" ∷ [];
  not_before = clock.now - 3600 * 10 ^ 9;
  not_after = clock.ten_years_after clock.now;
  signature_algorithm = sha1_with_rsa;
  key_usage = 4 + 1;
  ext_key_usage = server_auth ∷ [];
  dns_names = hosts;
}

unfoldable pub issued : PrivateKey → Option Bytes → Result TlsConfig
issued key none = err not_created
issued key (some der) = ok (record { certificate = der ∷ []; private_key = some key })

unfoldable pub certify : X509 → Clock → List Bytes → Option PrivateKey → Result TlsConfig
unfolding template issued
certify x clock hosts none = err no_generated_key
certify x clock hosts (some key) =
    issued key (x.create_certificate (template clock hosts) key.public key)

unfoldable pub self_signed : X509 → Clock → ℕ → List Bytes → Result TlsConfig
unfolding certify
self_signed x clock bits hosts = certify x clock hosts (x.generate_key bits)

-- The certificate of this server, and the larger one of the package legacytls.
unfoldable pub generate_dirty_sdk64_self_signed : X509 → Clock → List Bytes → Result TlsConfig
unfolding self_signed
generate_dirty_sdk64_self_signed x clock hosts = self_signed x clock dirty_sdk64_rsa_key_bits hosts

unfoldable pub generate_self_signed : X509 → Clock → List Bytes → Result TlsConfig
unfolding self_signed
generate_self_signed x clock hosts = self_signed x clock 2048 hosts

-- The checks of the leaf's key; `none` is no error.
unfoldable pub check_key : PrivateKey → PublicKey → Option Error
check_key key public =
    if ltb dirty_sdk64_rsa_key_bits (bit_len public.modulus)
    then some (oversized_key (bit_len public.modulus))
    else if not (key.public.modulus == public.modulus)
        || not (key.public.exponent == public.exponent)
    then some key_mismatch
    else none

unfoldable pub check_leaf : PrivateKey → Option AnyPublic → Option Error
unfolding check_key
check_leaf key none = some no_leaf_certificate
check_leaf key (some other_public) = some no_rsa_key
check_leaf key (some (rsa_public public)) = check_key key public

unfoldable pub check_config : X509 → Option PrivateKey → List Bytes → Option Error
unfolding check_leaf
check_config x none certs = some no_certificate
check_config x (some key) [] = some no_certificate
check_config x (some key) (leaf ∷ certs) = check_leaf key (x.parse_certificate leaf)

unfoldable pub validate_dirty_sdk64_certificate : X509 → Option TlsConfig → Option Error
unfolding check_config
validate_dirty_sdk64_certificate x none = some no_certificate
validate_dirty_sdk64_certificate x (some c) = check_config x c.private_key c.certificate

-- The loop over the blocks of the certificate file. A block takes a byte at least, so the length of the text
-- is enough fuel.
unfoldable pub after_block : Option (Block × Bytes) → (Bytes → List Bytes) → List Bytes
after_block none next = []
after_block (some (b, rest)) next =
    if bytes_eq b.kind (codes "CERTIFICATE") then b.content ∷ next rest else next rest

unfoldable pub certificate_blocks : X509 → ℕ → Bytes → List Bytes
unfolding after_block
certificate_blocks x fuel [] = []
certificate_blocks x zero (c ∷ text) = []
certificate_blocks x (suc fuel) (c ∷ text) =
    after_block (x.pem_decode (c ∷ text)) (certificate_blocks x fuel)

-- PKCS #1, or else PKCS #8.
unfoldable pub rsa_key : Option PrivateKey → Option AnyPrivate → Option PrivateKey
rsa_key (some key) other = some key
rsa_key none (some (rsa_private key)) = some key
rsa_key none (some other_private) = none
rsa_key none none = none

unfoldable pub parse_key : X509 → Bytes → Option PrivateKey
unfolding rsa_key
parse_key x der = rsa_key (x.parse_pkcs1 der) (x.parse_pkcs8 der)

unfoldable pub key_pair : List Bytes → Option PrivateKey → Result TlsConfig
key_pair certs none = err no_rsa_key
key_pair certs (some key) = ok (record { certificate = certs; private_key = some key })

unfoldable pub load_key : X509 → List Bytes → Option (Block × Bytes) → Result TlsConfig
unfolding parse_key key_pair
load_key x certs none = err no_private_key
load_key x certs (some (b, rest)) = key_pair certs (parse_key x b.content)

unfoldable pub load_certificates : X509 → List Bytes → Bytes → Result TlsConfig
unfolding load_key
load_certificates x [] key_pem = err no_certificate
load_certificates x (cert ∷ certs) key_pem = load_key x (cert ∷ certs) (x.pem_decode key_pem)

unfoldable pub file_text : Option Bytes → Result Bytes
file_text none = err file_error
file_text (some text) = ok text

unfoldable pub load_key_pair : X509 → (Bytes → Option Bytes) → Bytes → Bytes → Result TlsConfig
unfolding certificate_blocks load_certificates file_text
load_key_pair x files cert_file key_file = file_text (files cert_file) >>= λ cert_pem.
    file_text (files key_file) >>= λ key_pem.
    load_certificates x (certificate_blocks x (length cert_pem) cert_pem) key_pem
