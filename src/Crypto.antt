-- ===== src/Crypto.antt =====
-- What the server uses of Go's cryptographic packages: the RC4 stream cipher, written out, and the
-- MD5 digest, as an interface.
pub mod Bits
pub mod Rc4
use burnout_paradise_server.Common.{ℕ, ◌≡◌, Bytes, AreBytes, length}

-- `md5.Sum`. Nothing is assumed of it but that a digest has sixteen bytes.
pub record Md5 : Type 0 where
  pub sum : Bytes → Bytes
  pub length-sum : (b : Bytes) → length (sum b) ≡ 16
  pub sum-AreBytes : (b : Bytes) → AreBytes (sum b)
