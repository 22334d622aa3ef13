-- ===== src/Fs/Devfs/Tests.antt =====
-- A second device `a`, and a first device `b`.
use medusa_os.Prelude.{ℕ, refl, arith, Option, false, List, [], ◌∷◌}
use medusa_os.Fs.Devfs.{Device, Devices, zero_node, devfs_register_device}
use medusa_os.Fs.Devfs.Registering.{Registered, devfs_register_device_lem}

abbrev some_device : List ℕ → Device
some_device name = record {
  name = name;
  device_type = 2;
  read_block_fn = 0;
  write_block_fn = 0;
  read_fn = 0;
  write_fn = 0;
  open_fn = 0;
  close_fn = 0;
  private_data = 0;
}

abbrev devices : Devices
devices = record {
  device_list = record zero_node { name = 97 ∷ 0 ∷ [] } ∷ [];
  dev_root = 1;
  initrd_readdir_call = false;
}

devfs_register_device_example :
    (o : Option ℕ) × Registered
      (98 ∷ [])
      ((97 ∷ []) ∷ [])
      devices
      (devfs_register_device (some_device (98 ∷ 0 ∷ [])) devices)
      o
devfs_register_device_example =
    devfs_register_device_lem (some_device (98 ∷ 0 ∷ [])) devices ((97 ∷ []) ∷ []) (98 ∷ []) [] refl
      (omega arith) (omega arith) ([], refl, omega arith, omega arith)
