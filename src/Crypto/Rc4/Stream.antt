-- ===== src/Crypto/Rc4/Stream.antt =====
-- The key stream as a cipher.
use Prim.Native.Nat.{bit_xor}
use burnout_paradise_server.Common.{suc, [], ◌∷◌, ◌++◌, ◌≡◌, refl, ap, Bytes, length}
use burnout_paradise_server.Crypto.Bits.{bit_xor_cancel}
use burnout_paradise_server.Crypto.Rc4.{Rc4, next_key, xor_key_stream}

-- What comes out, and the cipher after `xs`.
abbrev pub crypt : Rc4 → Bytes → Bytes
crypt c xs = (xor_key_stream c xs).0

abbrev pub after : Rc4 → Bytes → Rc4
after c xs = (xor_key_stream c xs).1

pub crypt-append :
    (c : Rc4) (xs ys : Bytes) → crypt c (xs ++ ys) ≡ crypt c xs ++ crypt (after c xs) ys
unfolding xor_key_stream
crypt-append c [] ys = refl
crypt-append c (x ∷ xs) ys =
    ap (λ zs. bit_xor x (next_key c).0 ∷ zs) (crypt-append (next_key c).1 xs ys)

pub after-append : (c : Rc4) (xs ys : Bytes) → after c (xs ++ ys) ≡ after (after c xs) ys
unfolding xor_key_stream
after-append c [] ys = refl
after-append c (x ∷ xs) ys = after-append (next_key c).1 xs ys

pub length-crypt : (c : Rc4) (xs : Bytes) → length (crypt c xs) ≡ length xs
unfolding xor_key_stream
length-crypt c [] = refl
length-crypt c (x ∷ xs) = ap suc (length-crypt (next_key c).1 xs)

-- Decryption is encryption from the same state, and leaves the same state.
pub crypt-crypt : (c : Rc4) (xs : Bytes) → crypt c (crypt c xs) ≡ xs
unfolding xor_key_stream
crypt-crypt c [] = refl
crypt-crypt c (x ∷ xs) =
    rw (bit_xor_cancel x (next_key c).0) (ap (λ zs. x ∷ zs) (crypt-crypt (next_key c).1 xs))

pub after-crypt : (c : Rc4) (xs : Bytes) → after c (crypt c xs) ≡ after c xs
unfolding xor_key_stream
after-crypt c [] = refl
after-crypt c (x ∷ xs) = after-crypt (next_key c).1 xs
