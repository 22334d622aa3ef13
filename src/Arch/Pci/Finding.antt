-- ===== src/Arch/Pci/Finding.antt =====
-- What the searches of the bus find.
use medusa_os.Prelude.{
  ℕ, zero, suc, ◌+◌, ◌*◌, ◌/◌, ◌%◌, ◌^◌, ◌<◌, ◌≡◌, refl, ap, sym, ◌∙◌, arith, ◌==◌, ◌&&◌,
  if◌then◌else◌, Bool, true, false, Bool-cases, inl, inr, none, some, bit_and, bit_or, bit_and_mask,
  bit_or_fields, bit_or_high, bit_and-mul_pow, ap₂,
}
use medusa_os.Arch.Pci.{
  pci_address, pci_config_read, init_dev, is_device, or_next, find_func, find_slot, find_bus,
  pci_find, read_devid, read_vendor,
}

multiples : (p q : ℕ) → bit_or (p * 2 ^ 8) (q * 2 ^ 8) ≡ bit_or p q * 2 ^ 8
multiples p q =
    ap (λ t. bit_or t (q * 2 ^ 8)) (omega arith) ∙ bit_or_high 8 p q 0 (omega arith) ∙ omega arith

-- Of an address, only the offset is in the byte that is written.
pci_address-mod :
    (bus slot func offset : ℕ) → pci_address bus slot func offset % 2 ^ 8 ≡ bit_and offset 252
unfolding pci_address
pci_address-mod bus slot func offset =
    let b : bus * 2 ^ 16 ≡ bus * 2 ^ 8 * 2 ^ 8 = omega arith in
    let s : slot * 2 ^ 11 ≡ slot * 2 ^ 3 * 2 ^ 8 = omega arith in
    let p : ℕ = bit_or (bit_or (bus * 2 ^ 8) (slot * 2 ^ 3)) func in
    let o : ℕ = bit_and offset 252 in
    let below : o < 2 ^ 8 =
      omega (arith, bit_and-mul_pow 2 offset 63, bit_and_mask 6 (offset / 2 ^ 2)) in
    let device : bit_or (bit_or (bus * 2 ^ 16) (slot * 2 ^ 11)) (func * 2 ^ 8) ≡ p * 2 ^ 8 =
      ap (λ t. bit_or t (func * 2 ^ 8)) (ap₂ bit_or b s ∙ multiples (bus * 2 ^ 8) (slot * 2 ^ 3))
      ∙ multiples (bit_or (bus * 2 ^ 8) (slot * 2 ^ 3)) func in
    let whole : pci_address bus slot func offset ≡ bit_or p (2 ^ 23) * 2 ^ 8 + o =
      ap (λ t. bit_or (bit_or t o) (2 ^ 31)) device
      ∙ ap (λ t. bit_or t (2 ^ 31)) (bit_or_fields 8 p o below)
      ∙ bit_or_high 8 p (2 ^ 23) o below in
    omega (arith, whole, below)

-- So what is read does not depend on the device that was asked for.
pci_config_read-constant :
    (data_port : ℕ → ℕ) (bus slot func offset : ℕ)
    → pci_config_read data_port bus slot func offset ≡ pci_config_read data_port 0 0 0 offset
unfolding pci_config_read
pci_config_read-constant data_port bus slot func offset =
    ap (λ a. bit_and (data_port a % 2 ^ 8 / 2 ^ (bit_and offset 2 * 8)) 65535)
      (pci_address-mod bus slot func offset ∙ sym (pci_address-mod 0 0 0 offset))

is_device-constant :
    (data_port : ℕ → ℕ) (vendor_id device_id bus slot func : ℕ)
    → is_device data_port vendor_id device_id bus slot func
      ≡ is_device data_port vendor_id device_id 0 0 0
unfolding is_device read_devid read_vendor
is_device-constant data_port vendor_id device_id bus slot func = λ i.
    (pci_config_read-constant data_port bus slot func 2 i == device_id)
    && (pci_config_read-constant data_port bus slot func 0 i == vendor_id)

module _ (data_port : ℕ → ℕ) (test : ℕ → ℕ → ℕ → Bool)
    (never : (bus slot func : ℕ) → test bus slot func ≡ false) where
  find_func-none : (n bus slot func : ℕ) → find_func data_port test n bus slot func ≡ none
  unfolding find_func
  find_func-none zero bus slot func = refl
  find_func-none (suc n) bus slot func =
      rw (never bus slot func) (find_func-none n bus slot (func + 1))

  find_slot-none : (n bus slot : ℕ) → find_slot data_port test n bus slot ≡ none
  unfolding find_slot
  find_slot-none zero bus slot = refl
  find_slot-none (suc n) bus slot =
      ap₂ or_next (find_func-none 8 bus slot 0) (find_slot-none n bus (slot + 1))

  find_bus-none : (n bus : ℕ) → find_bus data_port test n bus ≡ none
  unfolding find_bus
  find_bus-none zero bus = refl
  find_bus-none (suc n) bus = ap₂ or_next (find_slot-none 32 bus 0) (find_bus-none n (bus + 1))

-- The first turn of each loop that finds.
found_first :
    (data_port : ℕ → ℕ) (test : ℕ → ℕ → ℕ → Bool)
    → test 0 0 0 ≡ true
    → find_bus data_port test 5 0 ≡ some (init_dev data_port 0 0 0)
unfolding find_bus find_slot find_func
found_first data_port test e =
    let here : find_func data_port test 8 0 0 0 ≡ some (init_dev data_port 0 0 0) = rw e refl in
    ap (λ f. or_next (or_next f (find_slot data_port test 31 0 1)) (find_bus data_port test 4 1))
      here

-- Whatever devices there are, and whatever the port gives for the bytes written: `pci_find` finds
-- nothing, or it returns bus 0, slot 0, function 0.
pub pci_find_lem :
    (data_port : ℕ → ℕ) (vendor_id device_id : ℕ)
    → pci_find data_port vendor_id device_id ≡ (
        if is_device data_port vendor_id device_id 0 0 0
        then some (init_dev data_port 0 0 0)
        else none)
unfolding pci_find
pci_find_lem data_port vendor_id device_id =
    elim (Bool-cases (is_device data_port vendor_id device_id 0 0 0)) [
      | inl e ↦
          found_first data_port (is_device data_port vendor_id device_id) e
          ∙ ap (λ b. if b then some (init_dev data_port 0 0 0) else none) (sym e)
      | inr e ↦
          find_bus-none data_port (is_device data_port vendor_id device_id)
            (λ bus slot func. is_device-constant data_port vendor_id device_id bus slot func ∙ e) 5
            0
          ∙ ap (λ b. if b then some (init_dev data_port 0 0 0) else none) (sym e)
    ]
