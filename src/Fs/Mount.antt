-- ===== src/Fs/Mount.antt =====
-- kernel/fs/fs.c, kernel/fs/mount.c: a registered filesystem mounts the partitions that suit it.
use ulmix_i.Base.{ℕ, zero, suc, replicate, ◌<◌, ◌≡◌, refl, true, Option, none, some, List, arith}
use ulmix_i.Base.Int.{ℤ, pos, neg}
use ulmix_i.Base.Memory.{Mem}
use ulmix_i.Base.Slots.{claim, find, free_slots, claim-none, claim-Registered, Registered}
use ulmix_i.Errno.{eagain}
use ulmix_i.Devices.{Hd, Gendisk, part, get_hdstruct}
use ulmix_i.Vfs.{Direntry, Dirs, found, failed, namei}
use ulmix_i.Fs.{Fs, register_fs, suits, probe_fs, returned, do_mount}

-- The table after register_fs(), when a place is free: the filesystem is found for what suits it.
register_fs-probe_fs :
    {F : Type 0} (fs : Fs F) (fss : List (Option (Fs F))) (p : Hd)
    → 0 < free_slots fss
    → suits p fs ≡ true
    → probe_fs p fss ≡ none
    → ((register_fs fs fss).0 ≡ pos 0) × (probe_fs p (register_fs fs fss).1 ≡ some fs)
unfolding register_fs probe_fs
register_fs-probe_fs {F = F} fs fss p room fits new =
    go (claim fs fss) (claim-none fs fss).0 (claim-Registered fs fss)
  where
    Goal : ℤ × List (Option (Fs F)) → Type 0
    Goal (status, fss') = (status ≡ pos 0) × (find (suits p) fss' ≡ some fs)

    go :
        (r : Option (List (Option (Fs F))))
        → (r ≡ none → free_slots fss ≡ 0)
        → Registered fs fss r
        → Goal (elim r [ none ↦ (neg eagain, fss) | some fss' ↦ (pos 0, fss') ])
    go none full reg = absurd (omega (arith, full refl))
    go (some fss') full reg = (refl, reg.1 (suits p) new fits)

-- With a free place in the table, register_fs() succeeds; and do_mount() of a partition that suits the new
-- filesystem and none before it, on a path that namei() resolves, is then what the filesystem's
-- fs_mount() does with that partition and the directory of that path.
pub do_mount-register_fs :
    {F : Type 0} (fuel : ℕ) (load : ℕ → Dirs F → Dirs F) (bds : List (Option Gendisk)) (fs : Fs F)
    (fss : List (Option (Fs F))) (m : Mem) (major minor path : ℕ) (dirs dirs' : Dirs F) (p : Hd)
    (de : Direntry)
    → 0 < free_slots fss
    → suits p fs ≡ true
    → probe_fs p fss ≡ none
    → get_hdstruct major minor bds ≡ part p
    → namei fuel load m path dirs ≡ found de dirs'
    → ((register_fs fs fss).0 ≡ pos 0)
      × (do_mount fuel load bds (register_fs fs fss).1 m major minor path dirs
          ≡ fs.fs_mount p de.directory dirs')
unfolding do_mount
do_mount-register_fs fuel load bds fs fss m major minor path dirs dirs' p de room fits new at node =
    let r = register_fs-probe_fs fs fss p room fits new in (r.0, rw (at, r.1, node, do_mount))

-- No filesystem is registered.
pub probe_fs-none : {F : Type 0} (n : ℕ) (p : Hd) → probe_fs {F = F} p (replicate n none) ≡ none
unfolding probe_fs find
probe_fs-none zero p = refl
probe_fs-none {F = F} (suc n) p = unfold probe_fs in probe_fs-none {F = F} n p

-- do_mount() on a path that leads nowhere.
pub do_mount-failed :
    {F : Type 0} (fuel : ℕ) (load : ℕ → Dirs F → Dirs F) (bds : List (Option Gendisk)) (fs : Fs F)
    (fss : List (Option (Fs F))) (m : Mem) (major minor path err : ℕ) (dirs dirs' : Dirs F) (p : Hd)
    → 0 < free_slots fss
    → suits p fs ≡ true
    → probe_fs p fss ≡ none
    → get_hdstruct major minor bds ≡ part p
    → namei fuel load m path dirs ≡ failed err dirs'
    → do_mount fuel load bds (register_fs fs fss).1 m major minor path dirs
      ≡ returned (neg err) dirs'
unfolding do_mount
do_mount-failed fuel load bds fs fss m major minor path err dirs dirs' p room fits new at
      none_there =
    rw (at, (register_fs-probe_fs fs fss p room fits new).1, none_there, do_mount) refl
