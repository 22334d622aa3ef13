-- ===== src/Arch/Pci.antt =====
-- kernel/arch/i386/pci.c: the configuration of the devices on the PCI bus. `outb` takes a byte, so of
-- the 32 bits of an address it writes the low eight; `data_port` is the byte that a read of CONFIG_DATA
-- gives when this byte was written to CONFIG_ADDR.
pub mod Finding
mod Tests
use medusa_os.Prelude.{
  ℕ, zero, suc, ◌+◌, ◌-◌, ◌*◌, ◌/◌, ◌%◌, ◌^◌, ◌==◌, if◌then◌else◌, Bool, true, false, not, ◌&&◌,
  Option, none, some, List, [], ◌∷◌, bit_and, bit_or,
}

-- `pci_device_t`; `none` from the searches is a device that is not valid.
pub record PciDevice : Type 0 where
  pub bus : ℕ
  pub slot : ℕ
  pub func : ℕ
  pub irq_line : ℕ
  pub bar0 : ℕ
  pub bar4 : ℕ
  pub bar5 : ℕ

-- `address` of `pci_config_read` and `config_write`.
pub pci_address : (bus slot func offset : ℕ) → ℕ
pci_address bus slot func offset =
    bit_or
      (bit_or (bit_or (bit_or (bus * 2 ^ 16) (slot * 2 ^ 11)) (func * 2 ^ 8)) (bit_and offset 252))
      (2 ^ 31)

-- The writes of `config_write`: port and byte.
pub config_write : (bus slot func offset value : ℕ) → List (ℕ × ℕ)
unfolding pci_address
config_write bus slot func offset value =
    (3320, pci_address bus slot func offset % 2 ^ 8) ∷ (3324, value % 2 ^ 8) ∷ []

-- `return dev;` where there is one, and the next turn otherwise.
abbrev pub or_next : Option PciDevice → Option PciDevice → Option PciDevice
or_next (some dev) rest = some dev
or_next none rest = rest

module _ (data_port : ℕ → ℕ) where
  -- The result as a 16-bit word.
  pub pci_config_read : (bus slot func offset : ℕ) → ℕ
  unfolding pci_address
  pci_config_read bus slot func offset =
      bit_and
        (data_port (pci_address bus slot func offset % 2 ^ 8) % 2 ^ 8 / 2 ^ (bit_and offset 2 * 8))
        65535

  pub enable_bus_mastering : PciDevice → List (ℕ × ℕ)
  unfolding pci_config_read config_write
  enable_bus_mastering dev =
      let val = pci_config_read dev.bus dev.slot dev.func 4 in
      config_write dev.bus dev.slot dev.func 4 (bit_or (bit_or val 4) 1)

  pub read_irq_line : (bus slot func : ℕ) → ℕ
  read_irq_line bus slot func = bit_and (pci_config_read bus slot func 60) 255

  pub read_vendor : (bus slot func : ℕ) → ℕ
  read_vendor bus slot func = pci_config_read bus slot func 0

  pub read_devid : (bus slot func : ℕ) → ℕ
  read_devid bus slot func = pci_config_read bus slot func 2

  -- `int16_t` shifted right, in a byte.
  pub read_class : (bus slot func : ℕ) → ℕ
  read_class bus slot func = pci_config_read bus slot func 10 / 2 ^ 8 % 2 ^ 8

  pub read_subclass : (bus slot func : ℕ) → ℕ
  read_subclass bus slot func = bit_and (pci_config_read bus slot func 10) 255

  pub read_prog_if : (bus slot func : ℕ) → ℕ
  read_prog_if bus slot func = pci_config_read bus slot func 8 / 2 ^ 8 % 2 ^ 8

  -- `get_bar0`, `get_bar4` and `get_bar5`, by the offset of the low half.
  pub get_bar : (offset bus slot func : ℕ) → ℕ
  get_bar offset bus slot func =
      bit_or (pci_config_read bus slot func (offset + 2) * 2 ^ 16)
        (pci_config_read bus slot func offset)

  pub init_dev : (bus slot func : ℕ) → PciDevice
  unfolding read_irq_line get_bar
  init_dev bus slot func = record {
    bus = bus;
    slot = slot;
    func = func;
    irq_line = read_irq_line bus slot func;
    bar0 = get_bar 16 bus slot func;
    bar4 = get_bar 32 bus slot func;
    bar5 = get_bar 36 bus slot func;
  }

  pub pci_read_vendorid : PciDevice → ℕ
  unfolding read_vendor
  pci_read_vendorid dev = read_vendor dev.bus dev.slot dev.func

  pub pci_read_deviceid : PciDevice → ℕ
  unfolding read_devid
  pci_read_deviceid dev = read_devid dev.bus dev.slot dev.func

  -- The test in the loops of `pci_find_any`; `interface_value` is none where it is -1.
  pub is_kind :
      (class_code subclass_code : ℕ) → (interface_value : Option ℕ) → (bus slot func : ℕ) → Bool
  unfolding read_class read_subclass read_prog_if
  is_kind class_code subclass_code interface_value bus slot func =
      (read_class bus slot func == class_code)
      && (read_subclass bus slot func == subclass_code)
      && elim interface_value [ none ↦ true | some wanted ↦ read_prog_if bus slot func == wanted ]

  -- The test in the loops of `pci_find`.
  pub is_device : (vendor_id device_id bus slot func : ℕ) → Bool
  unfolding read_devid read_vendor
  is_device vendor_id device_id bus slot func =
      (read_devid bus slot func == device_id) && (read_vendor bus slot func == vendor_id)

  -- The three loops, with `n` functions, slots or buses left.
  pub find_func : (test : ℕ → ℕ → ℕ → Bool) → (n bus slot func : ℕ) → Option PciDevice
  unfolding init_dev
  find_func test zero bus slot func = none
  find_func test (suc n) bus slot func =
      if test bus slot func
      then some (init_dev bus slot func)
      else find_func test n bus slot (func + 1)

  pub find_slot : (test : ℕ → ℕ → ℕ → Bool) → (n bus slot : ℕ) → Option PciDevice
  unfolding find_func
  find_slot test zero bus slot = none
  find_slot test (suc n) bus slot =
      or_next (find_func test 8 bus slot 0) (find_slot test n bus (slot + 1))

  pub find_bus : (test : ℕ → ℕ → ℕ → Bool) → (n bus : ℕ) → Option PciDevice
  unfolding find_slot
  find_bus test zero bus = none
  find_bus test (suc n) bus = or_next (find_slot test 32 bus 0) (find_bus test n (bus + 1))

  pub pci_find_any :
      (class_code subclass_code : ℕ) → (interface_value : Option ℕ) → Option PciDevice
  unfolding find_bus is_kind
  pci_find_any class_code subclass_code interface_value =
      find_bus (is_kind class_code subclass_code interface_value) 5 0

  pub pci_find : (vendor_id device_id : ℕ) → Option PciDevice
  unfolding find_bus is_device
  pci_find vendor_id device_id = find_bus (is_device vendor_id device_id) 5 0
