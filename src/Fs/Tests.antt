-- ===== src/Fs/Tests.antt =====
-- kernel/fs/mount.c with one disk of one partition, one filesystem, and the path "/m".
use ulmix_i.Base.{ℕ, ◌≡◌, refl, true, none, some, List, [], ◌∷◌, arith, get_elem?, replicate}
use ulmix_i.Base.Int.{pos}
use ulmix_i.Base.Memory.{Mem}
use ulmix_i.Base.Slots.{find}
use ulmix_i.Devices.{Hd, Gendisk, part, get_hdstruct, get_gendisk, hd_at}
use ulmix_i.Vfs.{Dirs, root_direntry, found, namei}
use ulmix_i.Vfs.Namei.{namei-expected}
use ulmix_i.Fs.{Fs, returned}

abbrev slash_m : List ℕ
slash_m = b'/' ∷ b'm' ∷ []

abbrev ram : Mem
ram a = elim (get_elem? slash_m a) [ none ↦ 0 | some b ↦ b ]

abbrev linux : Hd
linux = record { sect_offset = 2048; sect_count = 4096; fs_type = 0x83; bd = 0x9000 }

abbrev disk : Gendisk
disk = record {
  self = 0x9000;
  major = 4;
  io_size = 512;
  capacity = 8192;
  part_count = 1;
  part_list = replicate 4 linux;
  read = λ count lba. (pos count, λ a. 0);
}

abbrev with_entry : Dirs ℕ → Dirs ℕ
with_entry dirs d = record (dirs d) { entries = root_direntry ∷ [] }

-- fs_mount() of this filesystem gives the directory one entry.
abbrev ext2 : Fs ℕ
ext2 = record {
  mbr_id = 0x83;
  fs_probe = λ partition. true;
  fs_mount = λ partition mnt_point dirs. returned (pos 0) (with_entry dirs);
}

abbrev empty : Dirs ℕ
empty d = record {
  inode_no = 0;
  parent = 0;
  fs_info = none;
  mnt_point = 0;
  entry_inode_no = 0;
  entry_parent = 0;
  entries = [];
}

abbrev no_load : ℕ → Dirs ℕ → Dirs ℕ
no_load dir dirs = dirs

one_disk : get_hdstruct 4 1 (some disk ∷ []) ≡ part linux
unfolding get_hdstruct get_gendisk hd_at find
one_disk = refl

root_found : namei 10 no_load ram 0 empty ≡ found root_direntry empty
root_found =
    namei-expected slash_m 10 no_load ram 0 empty (refl, omega arith, (refl, omega arith, refl))
      (λ e. cc) (omega arith) (omega arith)
