-- ===== src/Crypto.antt =====
-- crates/common/src/crypto.rs: secrets under AES-256-GCM, with the nonce before the ciphertext.
-- The cipher (aes_gcm) is a parameter; it is given texts, so it stands for the cipher together with
-- the conversion between a text and its bytes.
use Prim.Native.Char.{code}
use Prim.Native.String.{◌++◌}
use mathlib.Core.Path.{subst}
use invokr.Base.{
  ap, ℕ, zero, suc, ◌+◌, ◌-◌, ◌*◌, ◌≤◌, ◌≡◌, refl, String, false, ◌&&◌, Option, none, some, List,
  [], ◌∷◌, ◌++◌ as append, leb, ltb, ◌==◌, length, if◌then◌else◌, arith, inl, inr,
}
use invokr.Base.Text.{count_chars}
use invokr.Base.Result.{Result-cases, Result, ok, err, ◌>>=◌, map_err, map_ok}

pub record Cipher : Type 0 where
  -- A key, a nonce and a text; the ciphertext with its tag.
  pub encrypt : List ℕ → List ℕ → String → Result String (List ℕ)
  -- A key, a nonce and a ciphertext.
  pub decrypt : List ℕ → List ℕ → List ℕ → Result String String

abbrev hex_digit : ℕ → Option ℕ
hex_digit c =
    if leb 48 c && leb c 57
    then some (c - 48)
    else if leb 97 c && leb c 102
    then some (c - 87)
    else if leb 65 c && leb c 70
    then some (c - 55)
    else none

abbrev two_digits : Option ℕ → Option ℕ → Option ℕ
two_digits (some a) (some b) = some (a * 16 + b)
two_digits _ _ = none

-- `u8::from_str_radix(_, 16)`, which lets the first character be a plus sign.
abbrev byte_of : ℕ → ℕ → Option ℕ
byte_of c d = if c == 43 then hex_digit d else two_digits (hex_digit c) (hex_digit d)

abbrev prepend : Option ℕ → Result String (List ℕ) → Result String (List ℕ)
prepend (some b) r = map_ok (◌∷◌ b) r
prepend none r = err "invalid digit found in string"

unfoldable pub hex_pairs : String → Result String (List ℕ)
hex_pairs String.[] = ok []
hex_pairs (String.◌∷◌ c String.[]) = err "invalid digit found in string"
hex_pairs (String.◌∷◌ c (String.◌∷◌ d s)) = prepend (byte_of (code c) (code d)) (hex_pairs s)

-- Keys are ASCII; another character is an invalid digit here.
unfoldable pub hex_decode : String → Result String (List ℕ)
hex_decode hex =
    if count_chars hex == 64
    then hex_pairs hex
    else err "Encryption key must be 64 hex chars (32 bytes)"

unfoldable pub split_at : {A : Type 0} → ℕ → List A → List A × List A
split_at zero t = ([], t)
split_at (suc n) [] = ([], [])
split_at (suc n) (a ∷ t) = let (front, back) = split_at n t in (a ∷ front, back)

-- `nonce` are the 12 bytes that `fill_bytes` draws.
unfoldable pub encrypt : Cipher → List ℕ → String → String → Result String (List ℕ)
encrypt cipher nonce plaintext key_hex = do
  key ← hex_decode key_hex
  text ← map_err (λ e. "Encryption failed: " ++ e) (cipher.encrypt key nonce plaintext)
  ok (append nonce text)

unfoldable pub decrypt : Cipher → List ℕ → String → Result String String
decrypt cipher encrypted key_hex =
    if ltb (length encrypted) 12
    then err "Encrypted data too short"
    else (hex_decode key_hex >>= λ key.
        let (nonce, text) = split_at 12 encrypted in
        map_err (λ e. "Decryption failed: " ++ e) (cipher.decrypt key nonce text))

split_at-append : {A : Type 0} (s t : List A) → split_at (length s) (append s t) ≡ (s, t)
unfolding split_at
split_at-append [] t = refl
split_at-append (a ∷ s) t = rw (split_at-append s t) refl

length-front : {A : Type 0} (s t : List A) → length s ≤ length (append s t)
length-front [] t = omega arith
length-front (a ∷ s) t = omega (arith, length-front s t)

-- The cipher opens what it has sealed, under the same key and nonce.
abbrev pub Inverts : Cipher → Type 0
Inverts cipher =
    (key nonce : List ℕ) (text : String) (sealed : List ℕ)
    → cipher.encrypt key nonce text ≡ ok sealed
    → cipher.decrypt key nonce sealed ≡ ok text

decrypt-append :
    (cipher : Cipher) (nonce sealed key : List ℕ) (plaintext key_hex : String)
    → length nonce ≡ 12
    → hex_decode key_hex ≡ ok key
    → cipher.decrypt key nonce sealed ≡ ok plaintext
    → decrypt cipher (append nonce sealed) key_hex ≡ ok plaintext
unfolding decrypt
decrypt-append cipher nonce sealed key plaintext key_hex size good opened =
    let long : ltb (length (append nonce sealed)) 12 ≡ false =
      ground (arith, length-front nonce sealed) in
    let parts : split_at 12 (append nonce sealed) ≡ (nonce, sealed) =
      rw (← size) (split_at-append nonce sealed) in
    rw (long, good, parts) (ap (map_err _) opened)

-- A secret that was encrypted under a key, with a nonce of 12 bytes, is decrypted to itself under
-- that key, for every cipher that opens what it seals.
pub decrypt-encrypt :
    (cipher : Cipher) (nonce : List ℕ) (plaintext key_hex : String) (encrypted : List ℕ)
    → Inverts cipher
    → length nonce ≡ 12
    → encrypt cipher nonce plaintext key_hex ≡ ok encrypted
    → decrypt cipher encrypted key_hex ≡ ok plaintext
unfolding encrypt decrypt
decrypt-encrypt cipher nonce plaintext key_hex encrypted inverts size h =
    elim (Result-cases (hex_decode key_hex)) [
      | inr (e, bad) ↦ absurd (let q : err e ≡ ok encrypted = rw bad at h in cc)
      | inl (key, good) ↦ elim (Result-cases (cipher.encrypt key nonce plaintext)) [
        | inr (e, bad) ↦
            absurd
              (let q : err ("Encryption failed: " ++ e) ≡ ok encrypted = rw (good, bad) at h in cc)
        | inl (sealed, done) ↦
            let q : ok (append nonce sealed) ≡ ok encrypted = rw (good, done) at h in
            let same : append nonce sealed ≡ encrypted = cc in
            subst (λ b. decrypt cipher b key_hex ≡ ok plaintext) same
              (decrypt-append cipher nonce sealed key plaintext key_hex size good
                (inverts key nonce plaintext sealed done))
      ]
    ]
