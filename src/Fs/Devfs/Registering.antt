-- ===== src/Fs/Devfs/Registering.antt =====
-- Registering devices.
use medusa_os.Prelude.{
  ℕ, ◌<◌, ◌≡◌, refl, ap, sym, ◌∙◌, subst, arith, Option, none, some, List, [], ◌∷◌, ◌++◌, length,
  take, length-map, length-replicate, map, Outcome, ok, ◌>>=◌,
}
use medusa_os.Libc.Strings.Laws.{Characters}
use medusa_os.Fs.Names.{find_name, find_name_lem, Hold, FirstAt}
use medusa_os.Fs.Nodes.{FsNode}
use medusa_os.Fs.Initrd.Start.{copied}
use medusa_os.Fs.Devfs.{
  Device, Devices, zero_node, device_names, device_node, add_device, devfs_register_device,
}

Hold-take :
    (names strings : List (List ℕ)) → Hold names strings → Hold (take (length names) names) strings
Hold-take [] [] h = h
Hold-take [] (s ∷ strings) h = elim h [ ]
Hold-take (n ∷ names) [] h = elim h [ ]
Hold-take (n ∷ names) (s ∷ strings) h = (h.0, h.1, h.2, Hold-take names strings h.3)

Hold-append :
    (names strings : List (List ℕ)) (s rest : List ℕ)
    → Hold names strings
    → Characters s
    → Hold (names ++ ((s ++ (0 ∷ rest)) ∷ [])) (strings ++ (s ∷ []))
Hold-append [] [] s rest h hs = (rest, refl, hs, omega arith)
Hold-append [] (t ∷ strings) s rest h hs = elim h [ ]
Hold-append (n ∷ names) [] s rest h hs = elim h [ ]
Hold-append (n ∷ names) (t ∷ strings) s rest h hs =
    (h.0, h.1, h.2, Hold-append names strings s rest h.3 hs)

map-append :
    (xs ys : List FsNode)
    → map (λ n. n.name) (xs ++ ys) ≡ map (λ n. n.name) xs ++ map (λ n. n.name) ys
map-append [] ys = refl
map-append (x ∷ xs) ys = ap (λ t. x.name ∷ t) (map-append xs ys)

-- What registering does, by whether the name is there.
abbrev pub Registered :
    List ℕ → List (List ℕ) → Devices → Outcome (Option ℕ × Devices) → Option ℕ → Type 0
Registered s strings d r (some i) = FirstAt s strings (some i) × (r ≡ ok (none, d))
Registered s strings d r none =
    FirstAt s strings none
    × ((d' : Devices) × (r ≡ ok (some (length d.device_list), d'))
        × Hold (device_names d') (strings ++ (s ∷ [])))

added :
    (device : Device) (d : Devices) (strings : List (List ℕ)) (s rest : List ℕ) (o : Option ℕ)
    → device.name ≡ s ++ (0 ∷ rest)
    → Characters s
    → length s < 16
    → Hold (device_names d) strings
    → FirstAt s strings o
    → Registered s strings d (add_device device d o) o
unfolding add_device
added device d strings s rest (some i) named hs short hold first = (first, refl)
added device d strings s rest none named hs short hold first =
    let (left, name) =
      copied zero_node.name s rest hs (omega (arith, short, length-replicate {A = ℕ} 128 0)) in
    let new : FsNode = device_node device d.dev_root (s ++ (0 ∷ left)) in
    (
      first,
      (
        record d { device_list = d.device_list ++ (new ∷ []) },
        rw (named, name) refl,
        subst (λ n. Hold n (strings ++ (s ∷ []))) (sym (map-append d.device_list (new ∷ [])))
            (Hold-append (device_names d) strings s left hold hs),
      ),
    )

-- `devfs_register_device` of a device whose name has fewer than 16 characters: where a device with that
-- name is there already it returns NULL and changes nothing, and otherwise it returns the new node, the
-- last of the list, with that name.
pub devfs_register_device_lem :
    (device : Device) (d : Devices) (strings : List (List ℕ)) (s rest : List ℕ)
    → device.name ≡ s ++ (0 ∷ rest)
    → Characters s
    → length s < 16
    → Hold (device_names d) strings
    → (o : Option ℕ) × Registered s strings d (devfs_register_device device d) o
unfolding devfs_register_device
devfs_register_device_lem device d strings s rest named hs short hold =
    let count : length (device_names d) ≡ length d.device_list =
      length-map d.device_list (λ n. n.name) in
    let (o, found, first) =
      find_name_lem s rest (length d.device_list) (device_names d) strings hs (omega (arith, count))
        (subst (λ n. Hold (take n (device_names d)) strings) count
          (Hold-take (device_names d) strings hold)) in
    let asked : devfs_register_device device d ≡ add_device device d o =
      ap (λ n. find_name (length d.device_list) n (device_names d) >>= add_device device d) named
      ∙ ap (λ r. r >>= add_device device d) found in
    (
      o,
      subst (λ r. Registered s strings d r o) (sym asked)
          (added device d strings s rest o named hs short hold first),
    )
