-- ===== src/Pci/Tests.antt =====
-- A bus with one device.
use horizon_os.Prelude.{◌≡◌, refl}
use horizon_os.Pci.{config_addr}
use horizon_os.Pci.Search.{address}

-- Function 8 of device 0 has the address of function 0 of device 1.
same_address : config_addr (address 0 0 8) 0 ≡ config_addr (address 0 1 0) 0
unfolding config_addr
same_address = refl
