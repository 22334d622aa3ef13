-- ===== src/Libc/Tokens.antt =====
-- libc/string/strtok.c. The text is the list of its bytes, and a pointer into it is the number of
-- bytes before; `none` is NULL.
pub mod Laws
mod Tests
use medusa_os.Prelude.{
  ℕ, ◌+◌, ◌%◌, ◌^◌, ◌==◌, if◌then◌else◌, Bool, true, false, not, Option, none, some, List, [], ◌∷◌,
  get_elem?, set, drop, Outcome, ok, fault, ◌>>=◌, access,
}
use medusa_os.Libc.Strings.{strchr, one_more, later}

abbrev pub is_found : Option ℕ → Bool
is_found none = false
is_found (some i) = true

-- `strchr(delimiters, c) != NULL`
pub is_delimiter : (delimiters : List ℕ) → (c : ℕ) → Outcome Bool
unfolding strchr
is_delimiter delimiters c = do found ← strchr delimiters c; ok (is_found found)

-- How far the first loop moves `next_start`, over the text from there.
pub delimiters_from : (delimiters : List ℕ) → List ℕ → Outcome ℕ
unfolding is_delimiter
delimiters_from delimiters [] = fault
delimiters_from delimiters (c ∷ cs) = if c == 0 then ok 0 else (do
  found ← is_delimiter delimiters c
  if found then one_more (delimiters_from delimiters cs) else ok 0)

-- The second loop: the length of the token.
pub token_from : (delimiters : List ℕ) → List ℕ → Outcome ℕ
unfolding is_delimiter
token_from delimiters [] = fault
token_from delimiters (c ∷ cs) = if c == 0 then ok 0 else (do
  found ← is_delimiter delimiters c
  if found then ok 0 else one_more (token_from delimiters cs))

-- What a call returns, and the bytes and `next_start` after it.
pub record Token : Type 0 where
  pub token : Option ℕ
  pub str : List ℕ
  pub next_start : ℕ

-- `strtok` where `next_start` is set; a call with a text sets it to the start of that text.
pub strtok : (str : List ℕ) → (delimiters : List ℕ) → (next_start : ℕ) → Outcome Token
unfolding delimiters_from token_from
strtok str delimiters next_start = do
  c ← access (get_elem? str next_start)
  if c == 0 then ok (record { token = none; str = str; next_start = next_start }) else (do
    passed ← delimiters_from delimiters (drop next_start str)
    let start = next_start + passed
    first ← access (get_elem? str start)
    if first == 0 then ok (record { token = none; str = str; next_start = start }) else (do
      length ← token_from delimiters (drop start str)
      let end = start + length
      last ← access (get_elem? str end)
      if last == 0
          then ok (record { token = none; str = str; next_start = end })
          else ok (record { token = some (start); str = set str end 0; next_start = end + 1 })))

-- The loops of `strtok_r`: the index of the delimiter.
pub find_delimiter : (delimitor : ℕ) → List ℕ → Outcome (Option ℕ)
find_delimiter delimitor [] = fault
find_delimiter delimitor (c ∷ cs) =
    if c == 0
    then ok none
    else if c == delimitor
    then ok (some 0)
    else later (find_delimiter delimitor cs)

-- What `strtok_r` returns, the bytes, and `*save_this`.
pub record SavedToken : Type 0 where
  pub token : Option ℕ
  pub str : List ℕ
  pub saved : Option ℕ

-- The token from `start` is cut off at the delimiter `i` characters behind.
abbrev pub cut_token : (str : List ℕ) → (start i : ℕ) → SavedToken
cut_token str start i = record {
  token = some start;
  str = set str (start + i) 0;
  saved = some (start + i + 1);
}

-- `strtok_r` with a `save_this` other than NULL. A new text without the delimiter has no token.
pub strtok_r :
    (str : List ℕ) → (text : Option ℕ) → (delimitor : ℕ) → (saved : Option ℕ) → Outcome SavedToken
unfolding find_delimiter
strtok_r str (some text) delimitor saved = do
  found ← find_delimiter delimitor (drop text str)
  ok (elim found [
    | none ↦ record { token = none; str = str; saved = saved }
    | some i ↦ cut_token str text i
  ])
strtok_r str none delimitor (some start) = do
  found ← find_delimiter delimitor (drop start str)
  ok (elim found [
    | none ↦ record { token = some start; str = str; saved = none }
    | some i ↦ cut_token str start i
  ])
strtok_r str none delimitor none = ok (record { token = none; str = str; saved = none })
