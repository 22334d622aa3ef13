-- ===== src/Base64/Tests.antt =====
-- Runs of the two directions.
use medusa_os.Prelude.{ℕ, Bool, ltb, ◌≡◌, refl, arith, some, [], ◌∷◌, ok, ◌>>=◌}
use medusa_os.Base64.Whole.{base64_decode-encode}
use medusa_os.Base64.{base64_encode, base64_decode}

abbrev small_heap : ℕ → Bool
small_heap n = ltb n 100

encode_run :
    base64_encode small_heap (77 ∷ 97 ∷ 110 ∷ 77 ∷ [])
    ≡ ok (84 ∷ 87 ∷ 70 ∷ 117 ∷ 84 ∷ 81 ∷ 61 ∷ 61 ∷ [])
unfolding base64_encode
encode_run = refl

decode_run :
    base64_decode small_heap (84 ∷ 87 ∷ 70 ∷ 117 ∷ 84 ∷ 81 ∷ 61 ∷ 61 ∷ [])
    ≡ ok (some (77 ∷ 97 ∷ 110 ∷ 77 ∷ []))
unfolding base64_decode
decode_run = refl

base64_decode-encode_example :
    (base64_encode small_heap (77 ∷ 97 ∷ 110 ∷ 255 ∷ []) >>= base64_decode small_heap)
    ≡ ok (some (77 ∷ 97 ∷ 110 ∷ 255 ∷ []))
base64_decode-encode_example =
    base64_decode-encode 77 (97 ∷ 110 ∷ 255 ∷ []) (omega arith) (omega arith) small_heap refl refl
