-- ===== src/Base64/Whole.antt =====
-- The round trip of whole texts, from that of one group.
use medusa_os.Prelude.{
  ℕ, zero, suc, ◌+◌, ◌-◌, ◌*◌, ◌/◌, ◌%◌, ◌^◌, ◌≤◌, ◌<◌, ◌≡◌, refl, ap, sym, ◌∙◌, subst, arith, ◌==◌,
  ltb, leb, Bool, true, false, some, List, [], ◌∷◌, ◌++◌, length, get_elem?, set, ok, ◌>>=◌, eq→==,
  lt→ltb, length-append,
}
use medusa_os.Misc.{sub32}
use medusa_os.Base64.{
  encoded_length, encode_groups, base64_encode, decode_from, base64_decode, equals_sign, pad,
  padding, is_padding,
}
use medusa_os.Base64.Round.{Group, group, byte_a, byte_b, byte_c}

abbrev pub Bytes : List ℕ → Type 0
Bytes [] = Unit {0}
Bytes (b ∷ bs) = (b < 2 ^ 8) × Bytes bs

set-append : (pre out : List ℕ) (i v : ℕ) → set (pre ++ out) (length pre + i) v ≡ pre ++ set out i v
set-append [] out i v = ap (λ k. set out k v) (omega arith)
set-append (x ∷ pre) out i v =
    let e : suc (length pre) + i ≡ suc (length pre + i) = omega arith in
    rw e (ap (λ t. x ∷ t) (set-append pre out i v))

pad-append : (p : ℕ) (pre out : List ℕ) → p ≤ length out → pad p (pre ++ out) ≡ pre ++ pad p out
pad-append zero pre out h = refl
pad-append (suc n) pre out h =
    let at : length (pre ++ out) - 1 - n ≡ length pre + (length out - 1 - n) =
      omega (arith, length-append pre out) in
    rw (pad-append n pre out (omega arith), at)
      (set-append pre (pad n out) (length out - 1 - n) equals_sign)

-- `t` is the text of the bytes: four characters for three bytes, the last ones '=' at the end.
abbrev Text : List ℕ → List ℕ → Type 0
Text [] t = t ≡ []
Text (a ∷ []) t = (g : Group a 0 0) × (t ≡ g.w.char ∷ g.x.char ∷ equals_sign ∷ equals_sign ∷ [])
Text (a ∷ b ∷ []) t = (g : Group a b 0) × (t ≡ g.w.char ∷ g.x.char ∷ g.y.char ∷ equals_sign ∷ [])
Text (a ∷ b ∷ c ∷ rest) t =
    (g : Group a b c) × (u : List ℕ) × (t ≡ g.w.char ∷ g.x.char ∷ g.y.char ∷ g.z.char ∷ u)
    × Text rest u

record Encoded (bytes : List ℕ) : Type 0 where
  out : List ℕ
  encoded : encode_groups bytes ≡ ok out
  size : length out ≡ 4 * ((length bytes + 2) / 3)
  text : Text bytes (pad (padding (length bytes % 3)) out)

padding-le : (n : ℕ) → padding (n % 3) ≤ 4 * ((n + 2) / 3)
padding-le n = ground arith

encode_groups-Encoded : (bytes : List ℕ) → Bytes bytes → Encoded bytes
unfolding encode_groups
encode_groups-Encoded [] h = record { out = []; encoded = refl; size = omega arith; text = refl }
encode_groups-Encoded (a ∷ []) h =
    let g = group a 0 0 h.0 (omega arith) (omega arith) in
    record {
      out = g.w.char ∷ g.x.char ∷ g.y.char ∷ g.z.char ∷ [];
      encoded = g.encoded;
      size = omega arith;
      text = (g, refl);
    }
encode_groups-Encoded (a ∷ b ∷ []) h =
    let g = group a b 0 h.0 h.1.0 (omega arith) in
    record {
      out = g.w.char ∷ g.x.char ∷ g.y.char ∷ g.z.char ∷ [];
      encoded = g.encoded;
      size = omega arith;
      text = (g, refl);
    }
encode_groups-Encoded (a ∷ b ∷ c ∷ rest) h =
    let g = group a b c h.0 h.1.0 h.1.1.0 in
    let r = encode_groups-Encoded rest h.1.1.1 in
    let four : List ℕ = g.w.char ∷ g.x.char ∷ g.y.char ∷ g.z.char ∷ [] in
    let same : length (a ∷ b ∷ c ∷ rest) % 3 ≡ length rest % 3 = omega arith in
    record {
      out = four ++ r.out;
      encoded = rw (g.encoded, r.encoded) refl;
      size = omega (arith, r.size);
      text = (
        g,
        pad (padding (length rest % 3)) r.out,
        ap (λ k. pad (padding k) (four ++ r.out)) same
            ∙ pad-append (padding (length rest % 3)) four r.out
                (omega (arith, r.size, padding-le (length rest))),
        r.text,
      );
    }

decode_from-Text :
    (bytes : List ℕ) (j n : ℕ) (t : List ℕ)
    → Bytes bytes
    → Text bytes t
    → n ≡ j + length bytes
    → decode_from j n t ≡ ok bytes
unfolding decode_from
decode_from-Text [] j n t h e len = rw e refl
decode_from-Text (a ∷ []) j n t h (g, e) len =
    let here : ltb j n ≡ true = lt→ltb j n (omega (arith, len)) in
    let stop : ltb (j + 1) n ≡ false = ground (arith, len) in
    rw (e, g.w.decoded, g.x.decoded, here, stop, byte_a a 0 0 h.0 (omega arith) (omega arith)) refl
decode_from-Text (a ∷ b ∷ []) j n t h (g, e) len =
    let here : ltb j n ≡ true = lt→ltb j n (omega (arith, len)) in
    let next : ltb (j + 1) n ≡ true = lt→ltb (j + 1) n (omega (arith, len)) in
    let stop : ltb (j + 1 + 1) n ≡ false = ground (arith, len) in
    rw
      (
        e,
        g.w.decoded,
        g.x.decoded,
        g.y.decoded,
        here,
        next,
        stop,
        byte_a a b 0 h.0 h.1.0 (omega arith),
        byte_b a b 0 h.0 h.1.0 (omega arith),
      )
      refl
decode_from-Text (a ∷ b ∷ c ∷ rest) j n t h (g, u, e, text) len =
    let here : ltb j n ≡ true = lt→ltb j n (omega (arith, len)) in
    let next : ltb (j + 1) n ≡ true = lt→ltb (j + 1) n (omega (arith, len)) in
    let last : ltb (j + 1 + 1) n ≡ true = lt→ltb (j + 1 + 1) n (omega (arith, len)) in
    let ih = decode_from-Text rest (j + 1 + 1 + 1) n u h.1.1.1 text (omega (arith, len)) in
    rw
      (
        e,
        g.w.decoded,
        g.x.decoded,
        g.y.decoded,
        g.z.decoded,
        here,
        next,
        last,
        ih,
        byte_a a b c h.0 h.1.0 h.1.1.0,
        byte_b a b c h.0 h.1.0 h.1.1.0,
        byte_c a b c h.0 h.1.0 h.1.1.0,
      )
      refl

-- The two last characters of a text, and the number of bytes that they leave.
record Ends (bytes t : List ℕ) : Type 0 where
  last : ℕ
  before : ℕ
  last_at : get_elem? t (length t - 1) ≡ some last
  before_at : get_elem? t (length t - 2) ≡ some before
  size : length t ≡ 4 * ((length bytes + 2) / 3)
  count : length bytes ≡ length t / 4 * 3 - is_padding last - is_padding before

Text-Ends : (b : ℕ) (bytes t : List ℕ) → Text (b ∷ bytes) t → Ends (b ∷ bytes) t
Text-Ends a [] t (g, e) = subst (Ends (a ∷ [])) (sym e) (record {
  last = equals_sign;
  before = equals_sign;
  last_at = refl;
  before_at = refl;
  size = refl;
  count = refl;
})
Text-Ends a (b ∷ []) t (g, e) = subst (Ends (a ∷ b ∷ [])) (sym e) (record {
  last = equals_sign;
  before = g.y.char;
  last_at = refl;
  before_at = refl;
  size = refl;
  count = rw g.y.visible refl;
})
Text-Ends a (b ∷ c ∷ []) t (g, u, e, text) =
    let e' : t ≡ g.w.char ∷ g.x.char ∷ g.y.char ∷ g.z.char ∷ [] = rw (e, text) refl in
    subst (Ends (a ∷ b ∷ c ∷ [])) (sym e') (record {
      last = g.z.char;
      before = g.y.char;
      last_at = refl;
      before_at = refl;
      size = refl;
      count = rw (g.z.visible, g.y.visible) refl;
    })
Text-Ends a (b ∷ c ∷ d ∷ rest) t (g, u, e, text) =
    let r = Text-Ends d rest u text in
    let four : List ℕ = g.w.char ∷ g.x.char ∷ g.y.char ∷ g.z.char ∷ [] in
    let last_index : length (four ++ u) - 1 ≡ suc (suc (suc (suc (length u - 1)))) =
      omega (arith, r.size) in
    let before_index : length (four ++ u) - 2 ≡ suc (suc (suc (suc (length u - 2)))) =
      omega (arith, r.size) in
    subst (Ends (a ∷ b ∷ c ∷ d ∷ rest)) (sym e) (record {
      last = r.last;
      before = r.before;
      last_at = ap (λ k. get_elem? (four ++ u) k) last_index ∙ r.last_at;
      before_at = ap (λ k. get_elem? (four ++ u) k) before_index ∙ r.before_at;
      size = omega (arith, r.size);
      count = ground (arith, r.size, r.count);
    })

lt→not_leb : (k n : ℕ) → n < k → leb k n ≡ false
lt→not_leb k n h = ground (arith, h)

decode-Text :
    (b : ℕ) (bytes t : List ℕ)
    → Bytes (b ∷ bytes)
    → Text (b ∷ bytes) t
    → length (b ∷ bytes) < 2 ^ 30
    → (has_room : ℕ → Bool) → has_room (length (b ∷ bytes)) ≡ true
    → base64_decode has_room t ≡ ok (some (b ∷ bytes))
unfolding base64_decode
decode-Text b bytes t h text small has_room room =
    let r = Text-Ends b bytes t text in
    let whole : (length t % 4 == 0) ≡ true = eq→== (length t % 4) 0 (omega (arith, r.size)) in
    let at_last : sub32 (length t) 1 ≡ length t - 1 = omega (arith, r.size) in
    let at_before : sub32 (length t) 2 ≡ length t - 2 = omega (arith, r.size) in
    let d =
      decode_from-Text (b ∷ bytes) 0 (length t / 4 * 3 - is_padding r.last - is_padding r.before) t
        h text (omega (arith, r.count)) in
    let room' : has_room (length t / 4 * 3 - is_padding r.last - is_padding r.before) ≡ true =
      ap has_room (sym r.count) ∙ room in
    let fits : leb (2 ^ 31) (length t) ≡ false =
      lt→not_leb (2 ^ 31) (length t) (omega (arith, r.size, small)) in
    rw (whole, at_last, r.last_at, at_before, r.before_at, room', fits, d) refl

-- For every list of bytes that is not empty and shorter than 2^30, where `kmalloc` has room for the text
-- and for the bytes, decoding its encoding succeeds and gives the bytes back.
pub base64_decode-encode :
    (b : ℕ) (bytes : List ℕ)
    → Bytes (b ∷ bytes)
    → length (b ∷ bytes) < 2 ^ 30
    → (has_room : ℕ → Bool) → has_room (4 * ((length (b ∷ bytes) + 2) / 3)) ≡ true
    → has_room (length (b ∷ bytes)) ≡ true
    → (base64_encode has_room (b ∷ bytes) >>= base64_decode has_room) ≡ ok (some (b ∷ bytes))
unfolding base64_encode
base64_decode-encode b bytes h small has_room text_room room =
    let r = encode_groups-Encoded (b ∷ bytes) h in
    let size : encoded_length (b ∷ bytes) ≡ 4 * ((length (b ∷ bytes) + 2) / 3) =
      omega (arith, small) in
    let fits : leb (2 ^ 31) (4 * ((length (b ∷ bytes) + 2) / 3)) ≡ false =
      lt→not_leb (2 ^ 31) _ (omega (arith, small)) in
    rw (size, text_room, fits, r.encoded)
      (decode-Text b bytes (pad (padding (length (b ∷ bytes) % 3)) r.out) h r.text small has_room
        room)
