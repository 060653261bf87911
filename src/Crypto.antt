-- ===== src/Crypto.antt =====
-- internal/crypto/aead.go. A byte is a number, AES-GCM a parameter.
pub mod MasterKey
use kubernetes_agent.Base.{
  ℕ, Bool, ◌+◌, List, ◌++◌, Option, none, some, Result, ok, err, ◌≡◌, length, length-append, take,
  drop, take-length-append, drop-length-append, ltb, nat_eq, arith, sym, ap, ◌∙◌, if◌then◌else◌,
}

abbrev pub Bytes : Type 0
Bytes = List ℕ

-- "blob too short" and the error of Open, and what NewAEAD and rand.Read refuse
pub data CryptoError : Type 0 where
  key_size no_random too_short not_authentic : CryptoError

abbrev pub nonce_size : ℕ
nonce_size = 12

abbrev pub tag_size : ℕ
tag_size = 16

-- the check of NewAEAD
unfoldable pub check_key : Bytes → Result CryptoError Bytes
check_key key = if nat_eq (length key) 32 then ok key else err key_size

-- `seal` and `open` are GCM's Seal and Open under the key, with no additional data
pub record Gcm : Type 0 where
  pub seal : Bytes → Bytes → Bytes
  pub unseal : Bytes → Bytes → Option Bytes

-- what crypto/cipher documents: Open gives back what Seal was given, and Seal adds a tag
pub record IsGcm (g : Gcm) : Type 0 where
  pub opens : (nonce plain : Bytes) → g.unseal nonce (g.seal nonce plain) ≡ some plain
  pub tagged : (nonce plain : Bytes) → length (g.seal nonce plain) ≡ length plain + tag_size

-- Encrypt; `random` is what rand.Read fills the nonce with, if it does
unfoldable pub encrypt : Gcm → Option Bytes → Bytes → Result CryptoError Bytes
encrypt g none plain = err no_random
encrypt g (some nonce) plain = ok (nonce ++ g.seal nonce plain)

abbrev pub opened : Option Bytes → Result CryptoError Bytes
opened none = err not_authentic
opened (some plain) = ok plain

-- Decrypt
unfoldable pub decrypt : Gcm → Bytes → Result CryptoError Bytes
decrypt g blob =
    if ltb (length blob) (nonce_size + tag_size)
    then err too_short
    else opened (g.unseal (take nonce_size blob) (drop nonce_size blob))

take_nonce :
    (nonce rest : Bytes) → length nonce ≡ nonce_size → take nonce_size (nonce ++ rest) ≡ nonce
take_nonce nonce rest n = ap (λ k. take k (nonce ++ rest)) (sym n) ∙ take-length-append nonce rest

drop_nonce :
    (nonce rest : Bytes) → length nonce ≡ nonce_size → drop nonce_size (nonce ++ rest) ≡ rest
drop_nonce nonce rest n = ap (λ k. drop k (nonce ++ rest)) (sym n) ∙ drop-length-append nonce rest

-- what was encrypted decrypts
pub decrypt-encrypt :
    (g : Gcm) (nonce plain : Bytes)
    → IsGcm g
    → length nonce ≡ nonce_size
    → decrypt g (nonce ++ g.seal nonce plain) ≡ ok plain
unfolding decrypt
decrypt-encrypt g nonce plain gcm n =
    let long : ltb (length (nonce ++ g.seal nonce plain)) (nonce_size + tag_size) ≡ Bool.false =
      ground (arith, length-append nonce (g.seal nonce plain), gcm.tagged nonce plain) in
    rw (
      long,
      take_nonce nonce (g.seal nonce plain) n,
      drop_nonce nonce (g.seal nonce plain) n,
      gcm.opens nonce plain,
    )
