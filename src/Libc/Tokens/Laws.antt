-- ===== src/Libc/Tokens/Laws.antt =====
-- The tokens of a text.
use medusa_os.Prelude.{
  ℕ, ◌+◌, ◌%◌, ◌^◌, ◌<◌, ◌≡◌, refl, ap, ap₂, arith, sym, ◌∙◌, ◌==◌, Bool, Bool-cases, ne→==_false,
  true, false, Option, Outcome, abort, fault, ◌>>=◌, inl, inr, none, some, List, [], ◌∷◌, ◌++◌,
  append_assoc, length, length-append, get_elem?, set, drop, ok, access, if◌then◌else◌,
}
use medusa_os.Libc.Strings.{strchr, later}
use medusa_os.Libc.Strings.Laws.{Characters}
use medusa_os.Libc.Numbers.Reverse.{read-append, set-append}
use medusa_os.Libc.Tokens.{is_found, is_delimiter, delimiters_from, token_from, strtok}

-- Whether a character is one of `ds`.
abbrev pub member : ℕ → List ℕ → Bool
member c [] = false
member c (d ∷ ds) = if d == c then true else member c ds

found-later :
    (r : Outcome (Option ℕ))
    → (later r >>= (λ found. ok (is_found found))) ≡ (r >>= (λ found. ok (is_found found)))
found-later (ok none) = refl
found-later (ok (some i)) = refl
found-later abort = refl
found-later fault = refl

strchr-member :
    (ds t : List ℕ) (c : ℕ)
    → Characters ds
    → 0 < c
    → c < 2 ^ 8
    → is_delimiter (ds ++ (0 ∷ t)) c ≡ ok (member c ds)
unfolding is_delimiter strchr
strchr-member [] t c hs pos small =
    let same : c % 2 ^ 8 ≡ c = omega arith in
    rw (same, ne→==_false 0 c (λ e. omega (arith, e, pos))) refl
strchr-member (d ∷ ds) t c hs pos small =
    let same : c % 2 ^ 8 ≡ c = omega arith in
    let char : (d == 0) ≡ false = ne→==_false d 0 (λ e. omega (arith, e, hs.0)) in
    elim (Bool-cases (d == c)) [
      | inl e ↦ rw (same, e) refl
      | inr e ↦
          rw (same, e, char)
            (found-later (strchr (ds ++ (0 ∷ t)) c) ∙ strchr-member ds t c hs.2 pos small)
    ]

-- Characters that all are among `ds`, or all are not.
abbrev pub Each : Bool → (ds : List ℕ) → List ℕ → Type 0
Each b ds [] = Unit {0}
Each b ds (c ∷ cs) = (0 < c) × (c < 2 ^ 8) × (member c ds ≡ b) × Each b ds cs

not_end : (c : ℕ) → 0 < c → (c == 0) ≡ false
not_end c pos = ne→==_false c 0 (λ e. omega (arith, e, pos))

module _ (ds t : List ℕ) (hs : Characters ds) where
  delimiters_from-Each :
      (seps : List ℕ) (c : ℕ) (rest : List ℕ)
      → Each true ds seps
      → Each false ds (c ∷ [])
      → delimiters_from (ds ++ (0 ∷ t)) (seps ++ (c ∷ rest)) ≡ ok (length seps)
  unfolding delimiters_from
  delimiters_from-Each [] c rest h (pos, small, other, _) =
      rw (not_end c pos, strchr-member ds t c hs pos small, other) refl
  delimiters_from-Each (s ∷ seps) c rest (pos, small, one, h) k =
      rw
        (
          not_end s pos,
          strchr-member ds t s hs pos small,
          one,
          delimiters_from-Each seps c rest h k,
        )
        refl

  token_from-delimiter :
      (cs : List ℕ) (d : ℕ) (rest : List ℕ)
      → Each false ds cs
      → Each true ds (d ∷ [])
      → token_from (ds ++ (0 ∷ t)) (cs ++ (d ∷ rest)) ≡ ok (length cs)
  unfolding token_from
  token_from-delimiter [] d rest h (pos, small, one, _) =
      rw (not_end d pos, strchr-member ds t d hs pos small, one) refl
  token_from-delimiter (c ∷ cs) d rest (pos, small, other, h) k =
      rw
        (
          not_end c pos,
          strchr-member ds t c hs pos small,
          other,
          token_from-delimiter cs d rest h k,
        )
        refl

  token_from-end :
      (cs : List ℕ) (rest : List ℕ)
      → Each false ds cs
      → token_from (ds ++ (0 ∷ t)) (cs ++ (0 ∷ rest)) ≡ ok (length cs)
  unfolding token_from
  token_from-end [] rest h = refl
  token_from-end (c ∷ cs) rest (pos, small, other, h) =
      rw (not_end c pos, strchr-member ds t c hs pos small, other, token_from-end cs rest h) refl

-- A text that is known to be split at `k`.
drop-append : (pre post : List ℕ) → drop (length pre) (pre ++ post) ≡ post
drop-append [] post = refl
drop-append (x ∷ pre) post = drop-append pre post

drop-at :
    {str : List ℕ} {k : ℕ} (pre post : List ℕ)
    → str ≡ pre ++ post
    → k ≡ length pre
    → drop k str ≡ post
drop-at pre post split at = rw (split, at) (drop-append pre post)

read-at :
    {str : List ℕ} {k : ℕ} (pre : List ℕ) (x : ℕ) (post : List ℕ)
    → str ≡ pre ++ (x ∷ post)
    → k ≡ length pre
    → access (get_elem? str k) ≡ ok x
read-at pre x post split at = rw (split, at) (read-append pre x post)

first_char :
    (ds seps : List ℕ) (c : ℕ) (rest : List ℕ)
    → Each true ds seps
    → 0 < c
    → (y : ℕ) × (ys : List ℕ) × (seps ++ (c ∷ rest) ≡ y ∷ ys) × (0 < y)
first_char ds [] c rest h pos = (c, rest, refl, pos)
first_char ds (s ∷ seps) c rest h pos = (s, seps ++ (c ∷ rest), refl, h.0)

-- A text behind which `strtok` goes on: delimiters, and a token that is not empty.
abbrev pub text_of :
    (pre seps : List ℕ) → (c : ℕ) → (cs : List ℕ) → (end : ℕ) → (rest : List ℕ) → List ℕ
text_of pre seps c cs end rest = pre ++ (seps ++ (c ∷ (cs ++ (end ∷ rest))))

-- The three places that `strtok` reads, and what it does at the end of the token.
strtok_step :
    (ds t pre seps : List ℕ) (c : ℕ) (cs : List ℕ) (end : ℕ) (rest : List ℕ)
    → Characters ds
    → Each true ds seps
    → Each false ds (c ∷ cs)
    → token_from (ds ++ (0 ∷ t)) ((c ∷ cs) ++ (end ∷ rest)) ≡ ok (length (c ∷ cs))
    → strtok (text_of pre seps c cs end rest) (ds ++ (0 ∷ t)) (length pre) ≡ (
        if end == 0
        then ok (record {
          token = none;
          str = text_of pre seps c cs end rest;
          next_start = length pre + length seps + length (c ∷ cs);
        })
        else ok (record {
          token = some (length pre + length seps);
          str = text_of pre seps c cs 0 rest;
          next_start = length pre + length seps + length (c ∷ cs) + 1;
        }))
unfolding strtok
strtok_step ds t pre seps c cs end rest hs separators others walk =
    let str : List ℕ = text_of pre seps c cs end rest in
    let one : List ℕ = pre ++ seps in
    let two : List ℕ = one ++ (c ∷ cs) in
    let (y, ys, eq, ypos) = first_char ds seps c (cs ++ (end ∷ rest)) separators others.0 in
    let split0 : str ≡ pre ++ (y ∷ ys) = ap (λ l. pre ++ l) eq in
    let split1 : str ≡ one ++ (c ∷ (cs ++ (end ∷ rest))) = sym (append_assoc pre seps _) in
    let split2 : str ≡ two ++ (end ∷ rest) =
      split1 ∙ sym (append_assoc one (c ∷ cs) (end ∷ rest)) in
    let at1 : length pre + length seps ≡ length one = omega (arith, length-append pre seps) in
    let at2 : length pre + length seps + length (c ∷ cs) ≡ length two =
      omega (arith, at1, length-append one (c ∷ cs)) in
    let cut : set str (length pre + length seps + length (c ∷ cs)) 0
        ≡ text_of pre seps c cs 0 rest =
      ap₂ (λ l k. set l k 0) split2 at2
      ∙ set-append two end 0 rest
      ∙ append_assoc one (c ∷ cs) (0 ∷ rest)
      ∙ append_assoc pre seps _ in
    rw
      (
        read-at pre y ys split0 refl,
        not_end y ypos,
        drop-append pre (seps ++ (c ∷ (cs ++ (end ∷ rest)))),
        delimiters_from-Each ds t hs seps c (cs ++ (end ∷ rest)) separators
            (others.0, others.1, others.2, tt),
        read-at one c (cs ++ (end ∷ rest)) split1 at1,
        not_end c others.0,
        drop-at one (c ∷ (cs ++ (end ∷ rest))) split1 at1,
        walk,
        read-at two end rest split2 at2,
        cut,
      )
      refl

-- `strtok` with delimiters `ds`, where `next_start` is at delimiters and then the token `c ∷ cs`: where
-- a delimiter `d` follows the token, it returns the token, puts NUL in the place of `d`, and goes on
-- behind it. Where the token ends the text, it returns NULL, and the token is passed over.
pub strtok_lem :
    (ds t pre seps : List ℕ) (c : ℕ) (cs : List ℕ) (d : ℕ) (rest : List ℕ)
    → Characters ds
    → Each true ds seps
    → Each false ds (c ∷ cs)
    → Each true ds (d ∷ [])
    → (strtok (text_of pre seps c cs d rest) (ds ++ (0 ∷ t)) (length pre)
        ≡ ok (record {
          token = some (length pre + length seps);
          str = text_of pre seps c cs 0 rest;
          next_start = length pre + length seps + length (c ∷ cs) + 1;
        }))
      × (strtok (text_of pre seps c cs 0 rest) (ds ++ (0 ∷ t)) (length pre)
          ≡ ok (record {
            token = none;
            str = text_of pre seps c cs 0 rest;
            next_start = length pre + length seps + length (c ∷ cs);
          }))
strtok_lem ds t pre seps c cs d rest hs separators others k = (
  rw
      (
        strtok_step ds t pre seps c cs d rest hs separators others
            (token_from-delimiter ds t hs (c ∷ cs) d rest others k),
        not_end d k.0,
      )
      refl,
  strtok_step ds t pre seps c cs 0 rest hs separators others
      (token_from-end ds t hs (c ∷ cs) rest others),
)
