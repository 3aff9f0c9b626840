-- ===== src/Certificate/Load.antt =====
-- legacytls/config.go: what is loaded from the two files.
use burnout_paradise_server.Common.{
  ℕ, zero, suc, ◌≤◌, ◌≡◌, ◌≢◌, ◌⊎◌, refl, ap, sym, ◌∙◌, List, [], ◌∷◌, Option, none, some, Bytes,
  codes, bytes_eq, if◌then◌else◌, length, arith, inl, inr, some_eq,
}
use burnout_paradise_server.Io.{ok}
use burnout_paradise_server.Io.ReadFull.{>>=-eq-ok, ok_eq}
use burnout_paradise_server.Certificate.{
  PrivateKey, AnyPrivate, rsa_private, other_private, rsa_key, Block, X509, TlsConfig, after_block,
  certificate_blocks, parse_key, key_pair, load_key, load_certificates, file_text, load_key_pair,
}

-- The blocks of a text, up to its end or the first place where none is found.
pub data HasBlocks (x : X509) : Bytes → List Block → Type 0 where
  ended : (text : Bytes) → text ≡ [] → HasBlocks x text []
  stopped : (text : Bytes) → x.pem_decode text ≡ none → HasBlocks x text []
  found :
      (text : Bytes) (b : Block) (rest : Bytes) (bs : List Block)
      → text ≢ []
      → x.pem_decode text ≡ some (b, rest)
      → HasBlocks x rest bs
      → HasBlocks x text (b ∷ bs)

-- The contents of the certificates among some blocks.
abbrev pub certificates_of : List Block → List Bytes
certificates_of [] = []
certificates_of (b ∷ bs) =
    if bytes_eq b.kind (codes "CERTIFICATE")
    then b.content ∷ certificates_of bs
    else certificates_of bs

abbrev Reads : X509 → Bytes → List Bytes → Type 0
Reads x text certs = (bs : List Block) × HasBlocks x text bs × (certs ≡ certificates_of bs)

after_block-Reads :
    (x : X509) (text : Bytes) (o : Option (Block × Bytes)) (next : Bytes → List Bytes)
    → text ≢ []
    → x.pem_decode text ≡ o
    → ((b : Block) (rest : Bytes) → o ≡ some (b, rest) → Reads x rest (next rest))
    → Reads x text (after_block o next)
unfolding after_block
after_block-Reads x text none next full e ih = ([], stopped text e, refl)
after_block-Reads x text (some (b, rest)) next full e ih =
    let (bs, blocks, same) = ih b rest refl in
    (
      b ∷ bs,
      found text b rest bs full e blocks,
      ap (λ l. if bytes_eq b.kind (codes "CERTIFICATE") then b.content ∷ l else l) same,
    )

-- The fuel suffices.
certificate_blocks-Reads :
    (x : X509) (fuel : ℕ) (text : Bytes)
    → length text ≤ fuel
    → Reads x text (certificate_blocks x fuel text)
unfolding certificate_blocks
certificate_blocks-Reads x fuel [] h = ([], ended [] refl, refl)
certificate_blocks-Reads x zero (c ∷ text) h = absurd (omega (arith, h))
certificate_blocks-Reads x (suc fuel) (c ∷ text) h =
    after_block-Reads x (c ∷ text) (x.pem_decode (c ∷ text)) (certificate_blocks x fuel) (λ e. cc)
      refl
      (λ b rest e.
        certificate_blocks-Reads x fuel rest
          (omega (arith, h, x.pem_decode-lt (c ∷ text) b rest e)))

-- The key of a block, as PKCS #1 or else as PKCS #8.
abbrev pub HasKey : X509 → Bytes → PrivateKey → Type 0
HasKey x der key =
    (x.parse_pkcs1 der ≡ some key)
    ⊎ ((x.parse_pkcs1 der ≡ none) × (x.parse_pkcs8 der ≡ some (rsa_private key)))

rsa_key_sound :
    (p : Option PrivateKey) (o : Option AnyPrivate) (key : PrivateKey)
    → rsa_key p o ≡ some key
    → (p ≡ some key) ⊎ ((p ≡ none) × (o ≡ some (rsa_private key)))
unfolding rsa_key
rsa_key_sound (some k) o key e = inl e
rsa_key_sound none (some (rsa_private k)) key e =
    inr (refl, ap (λ q. some (rsa_private q)) (some_eq e))
rsa_key_sound none (some other_private) key e = cc
rsa_key_sound none none key e = cc

-- What a configuration was loaded from: all certificates of the one file in their order, one at least, and
-- the key of the first block of the other.
pub record Loaded (x : X509) (files : Bytes → Option Bytes) (cert_file key_file : Bytes)
    (c : TlsConfig) : Type 0 where
  pub cert_pem : Bytes
  pub key_pem : Bytes
  pub blocks : List Block
  pub block : Block
  pub rest : Bytes
  pub key : PrivateKey
  pub cert_read : files cert_file ≡ some cert_pem
  pub key_read : files key_file ≡ some key_pem
  pub decoded : HasBlocks x cert_pem blocks
  pub same_certificates : c.certificate ≡ certificates_of blocks
  pub some_certificate : c.certificate ≢ []
  pub first_block : x.pem_decode key_pem ≡ some (block, rest)
  pub parsed : HasKey x block.content key
  pub same_key : c.private_key ≡ some key

file_text_sound : (o : Option Bytes) (text : Bytes) → file_text o ≡ ok text → o ≡ some text
unfolding file_text
file_text_sound none text e = cc
file_text_sound (some t) text e = ap (λ u. some u) (ok_eq e)

-- The key file, behind the certificates.
abbrev WithKey : X509 → List Bytes → Bytes → TlsConfig → Type 0
WithKey x certs key_pem c =
    (c.certificate ≡ certs)
    × (certs ≢ [])
    × ((block : Block) × (rest : Bytes) × (key : PrivateKey) × (x.pem_decode key_pem
          ≡ some (block, rest))
        × HasKey x block.content key
        × (c.private_key ≡ some key))

key_pair_sound :
    (certs : List Bytes) (o : Option PrivateKey) (c : TlsConfig)
    → key_pair certs o ≡ ok c
    → (key : PrivateKey) × (o ≡ some key) × (c.certificate ≡ certs) × (c.private_key ≡ some key)
unfolding key_pair
key_pair_sound certs none c e = cc
key_pair_sound certs (some key) c e =
    (key, refl, ap (λ d. d.certificate) (sym (ok_eq e)), ap (λ d. d.private_key) (sym (ok_eq e)))

load_key_sound :
    (x : X509) (certs : List Bytes) (key_pem : Bytes) (o : Option (Block × Bytes)) (c : TlsConfig)
    → certs ≢ []
    → x.pem_decode key_pem ≡ o
    → load_key x certs o ≡ ok c
    → WithKey x certs key_pem c
unfolding load_key parse_key
load_key_sound x certs key_pem none c full first e = cc
load_key_sound x certs key_pem (some (b, rest)) c full first e =
    let (key, parsed, same, held) = key_pair_sound certs (parse_key x b.content) c e in
    (
      same,
      full,
      (
        b,
        rest,
        key,
        first,
        rsa_key_sound (x.parse_pkcs1 b.content) (x.parse_pkcs8 b.content) key parsed,
        held,
      ),
    )

load_certificates_sound :
    (x : X509) (certs : List Bytes) (key_pem : Bytes) (c : TlsConfig)
    → load_certificates x certs key_pem ≡ ok c
    → WithKey x certs key_pem c
unfolding load_certificates
load_certificates_sound x [] key_pem c e = cc
load_certificates_sound x (cert ∷ certs) key_pem c e =
    load_key_sound x (cert ∷ certs) key_pem (x.pem_decode key_pem) c (λ f. cc) refl e

-- A configuration that is loaded holds the certificates among the blocks of the one file, up to its end or the
-- first place without a block, in their order and one at least, and the RSA key of the first block of the other
-- file, read as PKCS #1 or else as PKCS #8.
pub load_key_pair_lem :
    (x : X509) (files : Bytes → Option Bytes) (cert_file key_file : Bytes) (c : TlsConfig)
    → load_key_pair x files cert_file key_file ≡ ok c
    → Loaded x files cert_file key_file c
unfolding load_key_pair
load_key_pair_lem x files cert_file key_file c e =
    let (cert_pem, cert_read, e1) = >>=-eq-ok (file_text (files cert_file)) _ e in
    let (key_pem, key_read, e2) = >>=-eq-ok (file_text (files key_file)) _ e1 in
    let (blocks, decoded, same) =
      certificate_blocks-Reads x (length cert_pem) cert_pem (omega arith) in
    let (held, full, (block, rest, key, first, parsed, same_key)) =
      load_certificates_sound x (certificate_blocks x (length cert_pem) cert_pem) key_pem c e2 in
    record {
      cert_pem = cert_pem;
      key_pem = key_pem;
      blocks = blocks;
      block = block;
      rest = rest;
      key = key;
      cert_read = file_text_sound (files cert_file) cert_pem cert_read;
      key_read = file_text_sound (files key_file) key_pem key_read;
      decoded = decoded;
      same_certificates = held ∙ same;
      some_certificate = λ f. full (sym held ∙ f);
      first_block = first;
      parsed = parsed;
      same_key = same_key;
    }
