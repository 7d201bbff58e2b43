-- ===== src/Auth/Sample.antt =====
-- A platform for runs: each encoding shifts the bytes, and a key is its secret. It meets the laws.
use fileflow.Common.{
  Bytes, Option, Without, [], ap, arith, bytes_beq, codes, false, if◌then◌else◌, length, negsuc,
  none, pos, refl, some, suc, true, zero, ℕ, ℤ, ◌++◌, ◌+◌, ◌-◌, ◌<◌, ◌∷◌, ◌≡◌, bytes_key,
}
use fileflow.Auth.Platform.{Claims, EcPublicJwk, Platform, PlatformLaws}

abbrev shift : Bytes → Bytes
shift [] = []
shift (b ∷ bs) = (b + 100) ∷ shift bs

abbrev unshift : Bytes → Bytes
unshift [] = []
unshift (b ∷ bs) = (b - 100) ∷ unshift bs

unshift-shift : (bs : Bytes) → unshift (shift bs) ≡ bs
unshift-shift [] = refl
unshift-shift (b ∷ bs) = ground (arith, unshift-shift bs)

shift-Without : (c : ℕ) (bs : Bytes) → c < 100 → Without c (shift bs)
shift-Without c [] h = tt
shift-Without c (b ∷ bs) h = (omega arith, shift-Without c bs h)

abbrev pad : ℕ → Bytes → Bytes
pad zero s = []
pad (suc n) [] = 0 ∷ pad n []
pad (suc n) (b ∷ s) = b ∷ pad n s

length-pad : (n : ℕ) (s : Bytes) → length (pad n s) ≡ n
length-pad zero s = refl
length-pad (suc n) [] = ap suc (length-pad n [])
length-pad (suc n) (b ∷ s) = ap suc (length-pad n s)

abbrev write_int : ℤ → Bytes → Bytes
write_int (pos n) rest = 0 ∷ n ∷ rest
write_int (negsuc n) rest = 1 ∷ n ∷ rest

abbrev read_int : ℕ → ℕ → ℤ
read_int zero n = pos n
read_int (suc k) n = negsuc n

abbrev write_claims : Claims → Bytes
write_claims c = write_int c.ver (write_int c.iat (write_int c.exp c.sid))

abbrev read_claims : Bytes → Option Claims
read_claims (a ∷ ver ∷ b ∷ iat ∷ c ∷ exp ∷ sid) =
    some (record { ver = read_int a ver; sid = sid; iat = read_int b iat; exp = read_int c exp })
read_claims _ = none

read_claims-write_claims :
    (ver iat exp : ℤ) (sid : Bytes)
    → read_claims (write_claims (record { ver = ver; sid = sid; iat = iat; exp = exp }))
      ≡ some (record { ver = ver; sid = sid; iat = iat; exp = exp })
read_claims-write_claims (pos a) (pos b) (pos c) sid = refl
read_claims-write_claims (pos a) (pos b) (negsuc c) sid = refl
read_claims-write_claims (pos a) (negsuc b) (pos c) sid = refl
read_claims-write_claims (pos a) (negsuc b) (negsuc c) sid = refl
read_claims-write_claims (negsuc a) (pos b) (pos c) sid = refl
read_claims-write_claims (negsuc a) (pos b) (negsuc c) sid = refl
read_claims-write_claims (negsuc a) (negsuc b) (pos c) sid = refl
read_claims-write_claims (negsuc a) (negsuc b) (negsuc c) sid = refl

abbrev pub sample_jwk : EcPublicJwk
sample_jwk = record { kty = codes "EC"; crv = codes "P-256"; x = codes "xx"; y = codes "yy" }

-- Every key is the sample key, and a signature is the message itself.
abbrev pub sample : Platform
sample = record {
  sha256 = λ m. m;
  hmac_sha256 = λ key m. key ++ m;
  ecdsa_verify = λ key hash r s. false;
  ecdsa_verify_asn1 = λ key hash signature. bytes_beq hash signature;
  is_on_curve = λ x y. true;
  argon2id = λ secret salt time memory threads n. pad n secret;
  url_encode = shift;
  url_decode = λ b. some (unshift b);
  std_encode = shift;
  std_decode = λ b. some (unshift b);
  marshal_claims = λ c. some (write_claims c);
  unmarshal_claims = read_claims;
  marshal_map = λ fs. some (codes "jwk");
  marshal_jwk = λ k. some (codes "jwk");
  unmarshal_jwk = λ b. some sample_jwk;
  scan_params = λ s. if bytes_beq s (codes "m=65536,t=1,p=4") then some (65536, 1, 4) else none;
}

pub sample-PlatformLaws : PlatformLaws sample
sample-PlatformLaws = record {
  url_decode-url_encode = λ b. ap some (unshift-shift b);
  url_encode_dot = λ b. shift-Without b'.' b (omega arith);
  std_decode-std_encode = λ b. ap some (unshift-shift b);
  std_encode_dollar = λ b. shift-Without b'$' b (omega arith);
  claims_json = λ c ascii. (write_claims c, refl, read_claims-write_claims c.ver c.iat c.exp c.sid);
  argon2id_length = λ secret salt time memory threads n. length-pad n secret;
  scan_printed = refl;
}
