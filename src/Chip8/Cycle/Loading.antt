-- ===== src/Chip8/Cycle/Loading.antt =====
-- What the loads leave in the memory, and how often the main loop turns.
use medusa_os.Prelude.{
  ℕ, zero, suc, ◌+◌, ◌%◌, ◌≤◌, ◌<◌, ◌≡◌, refl, ap, sym, ◌∙◌, arith, inl, inr, ◌==◌, ltb,
  if◌then◌else◌, false, some, List, [], ◌∷◌, length, get_elem?, Bool-cases, Outcome, ok, abort,
  fault, lt→ltb, ==→eq, >>=-eq-ok, eq→==, ne→==_false,
}
use medusa_os.Chip8.{Chip8, u8, write_at}
use medusa_os.Chip8.Cycle.{
  load_bytes, chip8_load_program_into_ram, chip8_cycle, chip8_mainloop, steps,
  chip8_update_framebuffer, chip8_update_timers,
}

-- The bytes that stand at an address after a load from `a` on.
abbrev pub loaded : (ram : ℕ → ℕ) (a : ℕ) → List ℕ → ℕ → ℕ
loaded ram a [] j = ram j
loaded ram a (v ∷ vs) j = if j == a then u8 v else loaded ram (a + 1) vs j

abbrev with_ram : Chip8 → (ℕ → ℕ) → Chip8
with_ram c f = record c { ram = f }

-- Where a load has ended, an earlier address keeps its byte.
loaded-before : (ram : ℕ → ℕ) (a : ℕ) (vs : List ℕ) (j : ℕ) → j < a → loaded ram a vs j ≡ ram j
loaded-before ram a [] j h = refl
loaded-before ram a (v ∷ vs) j h =
    rw (ne→==_false j a (λ e. omega (arith, e))) (loaded-before ram (a + 1) vs j (omega arith))

loaded-behind :
    (ram : ℕ → ℕ) (a : ℕ) (vs : List ℕ) (j : ℕ) → a + length vs ≤ j → loaded ram a vs j ≡ ram j
loaded-behind ram a [] j h = refl
loaded-behind ram a (v ∷ vs) j h =
    rw (ne→==_false j a (λ e. omega (arith, e, h))) (loaded-behind ram (a + 1) vs j (omega arith))

loaded-write :
    (ram : ℕ → ℕ) (a v : ℕ) (vs : List ℕ) (j b : ℕ)
    → a < b
    → loaded (write_at ram a (u8 v)) b vs j ≡ (if j == a then u8 v else loaded ram b vs j)
loaded-write ram a v [] j b h = refl
loaded-write ram a v (w ∷ ws) j b h = elim (Bool-cases (j == b)) [
  | inl e ↦
      let ne : (j == a) ≡ false = ne→==_false j a (λ q. omega (arith, q, ==→eq j b e)) in
      rw (e, ne) refl
  | inr e ↦ rw e (loaded-write ram a v ws j (b + 1) (omega arith))
]

load_bytes-loaded :
    (a : ℕ) (vs : List ℕ) (c : Chip8)
    → a + length vs ≤ 4096
    → (c' : Chip8) × (load_bytes a vs c ≡ ok c')
      × ((j : ℕ) → c'.ram j ≡ loaded c.ram a vs j)
      × (with_ram c' c.ram ≡ c)
load_bytes-loaded a [] c h = (c, refl, λ j. refl, refl)
load_bytes-loaded a (v ∷ vs) c h =
    let (c', e, bytes, rest) =
      load_bytes-loaded (a + 1) vs (with_ram c (write_at c.ram a (u8 v))) (omega arith) in
    (
      c',
      rw (lt→ltb a 4096 (omega arith)) e,
      λ j. bytes j ∙ loaded-write c.ram a v vs j (a + 1) (omega arith),
      ap (λ d. with_ram d c.ram) rest,
    )

load_bytes-fault :
    (a : ℕ) (vs : List ℕ) (c : Chip8) → a ≤ 4096 → 4096 < a + length vs → load_bytes a vs c ≡ fault
load_bytes-fault a [] c h big = absurd (omega arith)
load_bytes-fault a (v ∷ vs) c h big = elim (Bool-cases (ltb a 4096)) [
  | inl e ↦ rw e (
      load_bytes-fault (a + 1) vs (with_ram c (write_at c.ram a (u8 v))) (ground arith)
        (omega arith))
  | inr e ↦ rw e refl
]

loaded-at :
    (ram : ℕ → ℕ) (a : ℕ) (vs : List ℕ) (k v : ℕ)
    → get_elem? vs k ≡ some v
    → loaded ram a vs (a + k) ≡ u8 v
loaded-at ram a [] k v h = cc
loaded-at ram a (w ∷ ws) zero v h =
    let e : w ≡ v = cc in rw (eq→== (a + 0) a (omega arith)) (ap u8 e)
loaded-at ram a (w ∷ ws) (suc k) v h =
    let e : a + suc k ≡ a + 1 + k = omega arith in
    rw (ne→==_false (a + suc k) a (λ q. omega (arith, q)), e) (loaded-at ram (a + 1) ws k v h)

-- `chip8_load_program_into_ram` of at most 3584 bytes puts byte `k` at the address 0x200 + k, and keeps
-- all other memory and everything else; a longer program is written past the memory.
pub chip8_load_program_into_ram_lem :
    (buf : List ℕ) (c : Chip8)
    → (length buf ≤ 3584
        → (c' : Chip8) × (chip8_load_program_into_ram buf c ≡ ok c')
          × ((k v : ℕ) → get_elem? buf k ≡ some v → c'.ram (0x200 + k) ≡ v % 256)
          × ((j : ℕ) → j < 0x200 → c'.ram j ≡ c.ram j)
          × ((j : ℕ) → 0x200 + length buf ≤ j → c'.ram j ≡ c.ram j)
          × (record c' { ram = c.ram } ≡ c))
      × (3584 < length buf → chip8_load_program_into_ram buf c ≡ fault)
unfolding chip8_load_program_into_ram
chip8_load_program_into_ram_lem buf c = (
  λ fits.
      let (c', e, bytes, rest) = load_bytes-loaded 0x200 buf c (omega arith) in
      (
        c',
        e,
        λ k v at. bytes (0x200 + k) ∙ loaded-at c.ram 0x200 buf k v at,
        λ j low. bytes j ∙ loaded-before c.ram 0x200 buf j low,
        λ j high. bytes j ∙ loaded-behind c.ram 0x200 buf j high,
        rest,
      ),
  λ big. load_bytes-fault 0x200 buf c (omega arith) (omega arith),
)

abbrev number : Outcome (ℕ × Chip8) → ℕ
number (ok p) = p.0
number abort = 0
number fault = 0

-- A `chip8_cycle` that returns, returns 0.
chip8_cycle-zero :
    (rand : ℕ → ℕ) (c c' : Chip8) (r : ℕ)
    → ◌≡◌ {A = Outcome (ℕ × Chip8)} (chip8_cycle rand c) (ok (r, c'))
    → r ≡ 0
unfolding chip8_cycle
chip8_cycle-zero rand c c' r h =
    let (c1, e, q) = >>=-eq-ok (steps c.speed 0 rand c) (λ c1. finish c1) h in sym (ap number q)
  where
    finish : Chip8 → Outcome (ℕ × Chip8)
    finish c1 = ok (0, chip8_update_framebuffer (if c1.paused then c1 else chip8_update_timers c1))

-- `chip8_mainloop` ends after one turn, with any fuel: where `chip8_cycle` returns, it returns 0, and
-- the loop goes on only for another number.
pub chip8_mainloop_lem :
    (fuel : ℕ) (rand : ℕ → ℕ → ℕ) (c c' : Chip8) (r : ℕ)
    → ◌≡◌ {A = Outcome (ℕ × Chip8)} (chip8_cycle (rand fuel) c) (ok (r, c'))
    → chip8_mainloop (suc fuel) rand c ≡ some (ok c')
unfolding chip8_mainloop
chip8_mainloop_lem fuel rand c c' r h =
    rw (chip8_mainloop, h, eq→== r 0 (chip8_cycle-zero (rand fuel) c c' r h)) refl
