-- ===== src/Record/Nonce.antt =====
-- cipher.go: the nonces of `SM4GCMMode`, made of the fixed part and a sequence number.
use cnnic_gmtls.Base.{
  ℕ, ◌^◌, ◌<◌, ◌≡◌, sym, ap, ◌∙◌, arith, List, length, take, drop, All, All-drop, drop-append,
  length-drop, IsByte, put_uint64,
}
use cnnic_gmtls.Record.Xor.{xor_bytes, xor_bytes_injective}
use cnnic_gmtls.Record.Gcm.{nonce}

put_uint64_injective : (v w : ℕ) → v < 2 ^ 64 → w < 2 ^ 64 → put_uint64 v ≡ put_uint64 w → v ≡ w
put_uint64_injective v w hv hw e = ground arith

-- Under one IV of twelve bytes, two sequence numbers below 2 ^ 64 that give one nonce are the
-- same.
pub nonce_injective :
    (iv : List ℕ) (s s' : ℕ)
    → length iv ≡ 12
    → All IsByte iv
    → s < 2 ^ 64
    → s' < 2 ^ 64
    → nonce iv s ≡ nonce iv s'
    → s ≡ s'
unfolding nonce
nonce_injective iv s s' l h hs hs' e =
    let front = take 4 iv in
    let mixed = λ (k : ℕ). xor_bytes (drop 4 iv) (put_uint64 k) in
    let same : mixed s ≡ mixed s' =
      sym (drop-append front (mixed s))
      ∙ ap (drop (length front)) e
      ∙ drop-append front (mixed s') in
    put_uint64_injective s s' hs hs' (
      xor_bytes_injective (drop 4 iv) (put_uint64 s) (put_uint64 s')
        (omega (arith, length-drop 4 iv)) (omega (arith, length-drop 4 iv)) (All-drop IsByte 4 iv h)
        (omega arith) (omega arith) same)
