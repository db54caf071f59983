-- ===== src/Pci/Tests.antt =====
-- kernel/bus/pci.c on a bus with one device, at slot 3 of bus 0.
use ulmix_i.Base.{◌/◌, ◌%◌, ◌^◌, true, [], ◌==◌, if◌then◌else◌}
use ulmix_i.Pci.{Ports, Pci, config_address}

-- Vendor 0x8086 with device 0x7010 at function 0; nothing elsewhere.
abbrev one_device : Ports
one_device config_address = if config_address / 256 % 2 ^ 16 == 24 then 0x70108086 else 0xffffffff

abbrev nothing : Pci
nothing = record { devices = []; drivers = []; probes = []; device_index = 0; in_bounds = true }
