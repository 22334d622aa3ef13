-- ===== src/Arch/Pci/Tests.antt =====
-- A bus that gives the byte written back.
use medusa_os.Prelude.{◌≡◌, some}
use medusa_os.Arch.Pci.{pci_find, is_device, init_dev, pci_config_read}
use medusa_os.Arch.Pci.Finding.{pci_find_lem}

pci_find_example : pci_find (λ a. a) 0 0 ≡ some (init_dev (λ a. a) 0 0 0)
unfolding is_device pci_config_read
pci_find_example = pci_find_lem (λ a. a) 0 0
