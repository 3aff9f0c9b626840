-- ===== src/Certificate/Checks.antt =====
-- bpserver/certificate.go: which certificates are accepted, and that the generated one is.
use burnout_paradise_server.Common.{
  ℕ, zero, suc, ◌/◌, ◌^◌, ◌≤◌, ◌<◌, ◌≡◌, ◌↔◌, refl, ap, ◌∙◌, subst, List, [], ◌∷◌, not, ◌||◌,
  Option, none, some, Bytes, ltb, ◌==◌, ==_refl, if◌then◌else◌, arith, if_cases, Bool-cases, inl,
  inr,
}
use native.Mathlib.Nat.{pow-suc}
use burnout_paradise_server.Io.{Error, ok, oversized_key}
use burnout_paradise_server.Io.ReadFull.{ok_eq}
use burnout_paradise_server.Certificate.{
  PublicKey, PrivateKey, AnyPublic, rsa_public, other_public, X509, Clock, TlsConfig, halvings,
  bit_len, dirty_sdk64_rsa_key_bits, check_key, check_leaf, check_config, certify, self_signed,
  issued, template, validate_dirty_sdk64_certificate,
}

pow_pos : (k : ℕ) → 0 < 2 ^ k
pow_pos zero = omega arith
pow_pos (suc k) = omega (arith, pow-suc 2 k, pow_pos k)

halvings_step :
    (bits n k : ℕ) → 0 < n → ((j : ℕ) → (bits ≤ j) ↔ (n / 2 < 2 ^ j)) → (suc bits ≤ k) ↔ (n < 2 ^ k)
halvings_step bits n zero p ih = (λ e. absurd (omega arith), λ e. absurd (omega (arith, e, p)))
halvings_step bits n (suc k) p ih = (
  λ e. omega (arith, (ih k).0 (omega (arith, e)), pow-suc 2 k),
  λ e. omega (arith, (ih k).1 (omega (arith, e, pow-suc 2 k))),
)

halvings_iff : (fuel n k : ℕ) → n ≤ fuel → (halvings fuel n ≤ k) ↔ (n < 2 ^ k)
unfolding halvings
halvings_iff zero n k h = (λ e. omega (arith, h, pow_pos k), λ e. omega arith)
halvings_iff (suc fuel) n k h = elim (Bool-cases (n == 0)) [
  | inl z ↦ rw z ((λ e. ground (arith, z, pow_pos k)), (λ e. omega arith))
  | inr p ↦ rw p (
      halvings_step (halvings fuel (n / 2)) n k (ground (arith, p))
        (λ j. halvings_iff fuel (n / 2) j (omega (arith, h))))
]

-- A number has at most `k` bits exactly if it is below 2^k.
pub bit_len_iff : (n k : ℕ) → (bit_len n ≤ k) ↔ (n < 2 ^ k)
unfolding bit_len
bit_len_iff n k = halvings_iff n n k (omega arith)

-- The leaf holds an RSA key below 2^1024, and the configured key belongs to it.
abbrev pub FitsKey : PrivateKey → Option AnyPublic → Type 0
FitsKey key none = ⊥
FitsKey key (some other_public) = ⊥
FitsKey key (some (rsa_public public)) =
    (public.modulus < 2 ^ dirty_sdk64_rsa_key_bits)
    × (key.public.modulus ≡ public.modulus)
    × (key.public.exponent ≡ public.exponent)

abbrev pub FitsCertificates : X509 → Option PrivateKey → List Bytes → Type 0
FitsCertificates x none certs = ⊥
FitsCertificates x (some key) [] = ⊥
FitsCertificates x (some key) (leaf ∷ certs) = FitsKey key (x.parse_certificate leaf)

abbrev pub Fits : X509 → Option TlsConfig → Type 0
Fits x none = ⊥
Fits x (some c) = FitsCertificates x c.private_key c.certificate

check_key_lem :
    (key : PrivateKey) (public : PublicKey)
    → (check_key key public ≡ none) ↔ FitsKey key (some (rsa_public public))
unfolding check_key
check_key_lem key public =
    let size = bit_len_iff public.modulus dirty_sdk64_rsa_key_bits in
    if_cases (λ (o : Option Error). (o ≡ none) ↔ FitsKey key (some (rsa_public public)))
      (ltb dirty_sdk64_rsa_key_bits (bit_len public.modulus)) _ _
      (λ large. (λ e. cc, λ f. absurd (ground (arith, large, size.1 f.0))))
      λ small.
        if_cases (λ (o : Option Error). (o ≡ none) ↔ FitsKey key (some (rsa_public public)))
          (not (key.public.modulus == public.modulus)
            || not (key.public.exponent == public.exponent))
          _ _ (λ other. (λ e. cc, λ f. absurd (ground (arith, other, f.1, f.2))))
          λ same. (
            λ e. (size.0 (ground (arith, small)), ground (arith, same), ground (arith, same)),
            λ f. refl,
          )

check_leaf_lem :
    (key : PrivateKey) (public : Option AnyPublic)
    → (check_leaf key public ≡ none) ↔ FitsKey key public
unfolding check_leaf
check_leaf_lem key none = (λ e. cc, λ f. absurd f)
check_leaf_lem key (some other_public) = (λ e. cc, λ f. absurd f)
check_leaf_lem key (some (rsa_public public)) = check_key_lem key public

check_config_lem :
    (x : X509) (key : Option PrivateKey) (certs : List Bytes)
    → (check_config x key certs ≡ none) ↔ FitsCertificates x key certs
unfolding check_config
check_config_lem x none certs = (λ e. cc, λ f. absurd f)
check_config_lem x (some key) [] = (λ e. cc, λ f. absurd f)
check_config_lem x (some key) (leaf ∷ certs) = check_leaf_lem key (x.parse_certificate leaf)

-- A configuration is accepted exactly if it holds a key and a certificate, its first certificate parses to an
-- RSA key with a modulus below 2^1024, and that key is the public half of the configured one.
pub validate_dirty_sdk64_certificate_lem :
    (x : X509) (c : Option TlsConfig) → (validate_dirty_sdk64_certificate x c ≡ none) ↔ Fits x c
unfolding validate_dirty_sdk64_certificate
validate_dirty_sdk64_certificate_lem x none = (λ e. cc, λ f. absurd f)
validate_dirty_sdk64_certificate_lem x (some c) = check_config_lem x c.private_key c.certificate

-- The verdict on a generated certificate.
abbrev pub size_verdict : ℕ → Option Error
size_verdict bits = if ltb dirty_sdk64_rsa_key_bits bits then some (oversized_key bits) else none

check_key_own :
    (key : PrivateKey) → check_key key key.public ≡ size_verdict (bit_len key.public.modulus)
unfolding check_key
check_key_own key = rw (==_refl key.public.modulus, ==_refl key.public.exponent) refl

issued-verdict :
    (x : X509) (clock : Clock) (hosts : List Bytes) (key : PrivateKey) (o : Option Bytes)
    (c : TlsConfig)
    → x.create_certificate (template clock hosts) key.public key ≡ o
    → issued key o ≡ ok c
    → validate_dirty_sdk64_certificate x (some c) ≡ size_verdict (bit_len key.public.modulus)
unfolding issued validate_dirty_sdk64_certificate check_config check_leaf
issued-verdict x clock hosts key none c made e = cc
issued-verdict x clock hosts key (some der) c made e =
    subst
      (λ d. validate_dirty_sdk64_certificate x (some d) ≡ size_verdict (bit_len key.public.modulus))
      (ok_eq e)
      (ap (check_leaf key) (x.parse-create (template clock hosts) key.public key der made)
        ∙ check_key_own key)

certify-verdict :
    (x : X509) (clock : Clock) (hosts : List Bytes) (bits : ℕ) (o : Option PrivateKey)
    (c : TlsConfig)
    → x.generate_key bits ≡ o
    → certify x clock hosts o ≡ ok c
    → validate_dirty_sdk64_certificate x (some c) ≡ size_verdict bits
unfolding certify
certify-verdict x clock hosts bits none c made e = cc
certify-verdict x clock hosts bits (some key) c made e =
    issued-verdict x clock hosts key _ c refl e
    ∙ ap size_verdict (x.bit_len-generate_key bits key made)

-- A certificate that was generated for a key of any size is accepted if the size is at most 1024 bits, and
-- refused for its size otherwise, whatever the hosts are.
pub self_signed-verdict :
    (x : X509) (clock : Clock) (bits : ℕ) (hosts : List Bytes) (c : TlsConfig)
    → self_signed x clock bits hosts ≡ ok c
    → validate_dirty_sdk64_certificate x (some c)
      ≡ (if ltb 1024 bits then some (oversized_key bits) else none)
unfolding self_signed
self_signed-verdict x clock bits hosts c e =
    certify-verdict x clock hosts bits (x.generate_key bits) c refl e
