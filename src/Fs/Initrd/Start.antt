-- ===== src/Fs/Initrd/Start.antt =====
-- What `initialise_initrd` makes of an archive.
use medusa_os.Prelude.{
  ℕ, ◌+◌, ◌<◌, ◌≡◌, ap, sym, ◌∙◌, arith, List, [], ◌∷◌, ◌++◌, length, length-take, take, drop,
  take-append-drop, ok,
}
use medusa_os.Libc.Strings.{copy_over}
use medusa_os.Libc.Strings.Laws.{Characters, copy_over_lem}
use medusa_os.Fs.Tar.{Memory}
use medusa_os.Fs.Initrd.{bytes_from}

-- The filenames of the headers, which the arrays `name` of the nodes have room for.
abbrev pub Filenames : Memory → List ℕ → List (List ℕ) → Type 0
Filenames memory [] [] = Unit {0}
Filenames memory [] (t ∷ strings) = ⊥
Filenames memory (h ∷ headers) [] = ⊥
Filenames memory (h ∷ headers) (t ∷ strings) =
    (more : List ℕ) × (bytes_from 512 memory h ≡ t ++ (0 ∷ more))
    × Characters t
    × (length t < 128)
    × Filenames memory headers strings

-- A string goes over the front of a longer array.
pub copied :
    (array t more : List ℕ)
    → Characters t
    → length t < length array
    → (rest : List ℕ) × (copy_over array (t ++ (0 ∷ more)) ≡ ok (t ++ (0 ∷ rest)))
copied array t more h room =
    let n : ℕ = length t + 1 in
    (
      drop n array,
      ap (λ a. copy_over a (t ++ (0 ∷ more))) (sym (take-append-drop n array))
          ∙ copy_over_lem (take n array) t (drop n array) more h
              (omega (arith, length-take n array, room)),
    )
