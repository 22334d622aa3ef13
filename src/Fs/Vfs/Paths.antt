-- ===== src/Fs/Vfs/Paths.antt =====
-- What `parse_path` and `vfs_mount` make of a path.
mod Tests
use medusa_os.Prelude.{
  ℕ, zero, suc, ◌+◌, ◌^◌, ◌<◌, ◌≡◌, ◌≢◌, refl, ap, sym, ◌∙◌, arith, ◌==◌, ltb, lt→ltb, ne→==_false,
  Bool, true, false, Option, none, some, List, [], ◌∷◌, ◌++◌, append_assoc, append-nil, length,
  length-append, Outcome, ok, fault,
}
use medusa_os.Libc.Strings.Laws.{Characters}
use medusa_os.Fs.Vfs.{
  slash, append_temp, parse_from, parse_path, TreeNode, mount_root, mount_from, vfs_mount,
}

-- A name in a path: characters other than NUL and the slash.
abbrev pub Component : List ℕ → Type 0
Component [] = Unit {0}
Component (c ∷ name) = (c ≢ 0) × (c ≢ 47) × Component name

abbrev pub Components : List (List ℕ) → Type 0
Components [] = Unit {0}
Components (name ∷ names) = Component name × (length name < 4095) × Components names

-- A slash before every name.
abbrev pub joined : List (List ℕ) → List ℕ
joined [] = []
joined (name ∷ names) = 47 ∷ (name ++ joined names)

-- The characters of one name.
parse_from-name :
    (name tail before : List ℕ) (folders : List (List ℕ)) (first : Bool)
    → Component name
    → length before + length name < 4095
    → parse_from (name ++ tail) first (some before) folders
      ≡ parse_from tail first (some (before ++ name)) folders
unfolding parse_from
parse_from-name [] tail before folders first h short =
    ap (λ t. parse_from tail first (some t) folders) (sym (append-nil before))
parse_from-name (c ∷ name) tail before folders first h short =
    rw
      (
        ne→==_false c 0 h.0,
        ne→==_false c 47 h.1,
        lt→ltb (length before + 1) 4096 (omega (arith, short)),
      )
      (parse_from-name name tail (before ++ (c ∷ [])) folders first h.2
          (omega (arith, short, length-append before (c ∷ [])))
        ∙ ap (λ t. parse_from tail first (some t) folders) (append_assoc before (c ∷ []) name))

parse_from-joined :
    (names : List (List ℕ)) (last name rest : List ℕ) (folders : List (List ℕ))
    → Components names
    → Component last
    → length last < 4095
    → parse_from (joined names ++ (47 ∷ (last ++ (0 ∷ rest)))) false (some name) folders
      ≡ ok (folders ++ (name ∷ names))
unfolding parse_from
parse_from-joined [] last name rest folders h hl short =
    parse_from-name last (0 ∷ rest) [] (folders ++ (name ∷ [])) false hl (omega (arith, short))
parse_from-joined (n ∷ names) last name rest folders h hl short =
    ap (λ t. parse_from t false (some []) (folders ++ (name ∷ [])))
      (append_assoc n (joined names) (47 ∷ (last ++ (0 ∷ rest))))
    ∙ parse_from-name n (joined names ++ (47 ∷ (last ++ (0 ∷ rest)))) [] (folders ++ (name ∷ []))
        false h.0 (omega (arith, h.1))
    ∙ parse_from-joined names last n rest (folders ++ (name ∷ [])) h.2 hl short
    ∙ ap ok (append_assoc folders (name ∷ []) (n ∷ names))

-- A path of names of fewer than 4095 characters, each with a slash before it: `parse_path` returns the
-- names but the last.
pub parse_path_lem :
    (names : List (List ℕ)) (last rest : List ℕ)
    → Components names
    → Component last
    → length last < 4095
    → parse_path (joined names ++ (47 ∷ (last ++ (0 ∷ rest)))) ≡ ok names
unfolding parse_path parse_from
parse_path_lem [] last rest h hl short =
    parse_from-name last (0 ∷ rest) [] [] false hl (omega (arith, short))
parse_path_lem (n ∷ names) last rest h hl short =
    ap (λ t. parse_from t false (some []) [])
      (append_assoc n (joined names) (47 ∷ (last ++ (0 ∷ rest))))
    ∙ parse_from-name n (joined names ++ (47 ∷ (last ++ (0 ∷ rest)))) [] [] false h.0
        (omega (arith, h.1))
    ∙ parse_from-joined names last n rest [] h.2 hl short

-- Where `vfs_mount` mounts: at the root, whatever follows a slash, and for the empty path. Any other
-- path is a fault, since its first character is appended to bytes that were never written.
pub vfs_mount_lem :
    (root : TreeNode) (path : List ℕ) (local_root c : ℕ)
    → c ≢ 0
    → c ≢ 47
    → (vfs_mount root (47 ∷ path) local_root ≡ ok (mount_root root local_root))
      × (vfs_mount root (0 ∷ path) local_root ≡ ok (mount_root root local_root))
      × (vfs_mount root (c ∷ path) local_root ≡ fault)
unfolding vfs_mount parse_path parse_from mount_from
vfs_mount_lem (TreeNode.tree_node m f d name cs) path local_root c h0 h1 =
    (refl, refl, rw (ne→==_false c 47 h1, ne→==_false c 0 h0) refl)
