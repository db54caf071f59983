-- ===== src/Ext2/Sample.antt =====
-- kernel/fs/ext2.c: a small disk for the tests.
use ulmix_i.Base.{ℕ, ◌+◌, List, [], ◌∷◌, ◌==◌, if◌then◌else◌}
use ulmix_i.Base.Memory.{Mem}
use ulmix_i.Devices.{Hd}
use ulmix_i.Ext2.{Memory}
use ulmix_i.Ext2.Entries.{Item}

-- The bytes of `known`, and 0 elsewhere.
abbrev pub bytes : List (ℕ × ℕ) → Mem
bytes [] a = 0
bytes ((p, b) ∷ known) a = if a == p then b else bytes known a

-- The first entry of the partition table is in use. The partition starts at sector 1. The superblock stands at 1536, the group descriptors at 2560, the inode
-- table at 5632, and the root directory at 8704.
abbrev pub disk : Mem
disk = bytes (
    (450, 0x83)
    ∷ (454, 1)
    ∷ (458, 128)
    ∷ (510, 0x55)
    ∷ (511, 0xaa)
    ∷ (1536, 16)
    ∷ (1540, 64)
    ∷ (1569, 1)
    ∷ (1576, 16)
    ∷ (1592, 0x53)
    ∷ (1593, 0xef)
    ∷ (1624, 128)
    ∷ (2568, 5)
    ∷ (5760, 0xed)
    ∷ (5761, 0x41)
    ∷ (5800, 8)
    ∷ (5888, 0xa4)
    ∷ (5889, 0x81)
    ∷ (8704, 2)
    ∷ (8708, 12)
    ∷ (8710, 1)
    ∷ (8711, 2)
    ∷ (8712, b'.')
    ∷ (8716, 3)
    ∷ (8720, 0xf4)
    ∷ (8721, 3)
    ∷ (8722, 2)
    ∷ (8723, 1)
    ∷ (8724, b'h')
    ∷ (8725, b'i')
    ∷ [])

abbrev pub partition : Hd
partition = record { bd = 0; fs_type = 0x83; sect_offset = 1; sect_count = 128 }

abbrev pub items : List Item
items =
    (record { inode = 2; rec_len = 12; file_type = 2; name = b'.' ∷ [] })
    ∷ (record { inode = 3; rec_len = 1012; file_type = 1; name = b'h' ∷ b'i' ∷ [] })
    ∷ []

abbrev pub memory : Memory
memory = record { node = λ k. 10 + k; payload = λ k. 0; garbage = λ a. 0xff }
