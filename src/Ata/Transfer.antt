-- ===== src/Ata/Transfer.antt =====
-- drivers/ata.c: the loops of ata_read(), on a drive that conforms.
use mathlib.Core.Path.{subst}
use ulmix_i.Base.{
  ℕ, zero, suc, ◌+◌, ◌-◌, ◌*◌, ◌/◌, ◌%◌, ◌<◌, ◌≤◌, ◌≡◌, ◌∙◌, ◌⊎◌, inl, inr, refl, sym, ap, Option,
  some, arith, ltb, ◌==◌, if◌then◌else◌, Bool-cases,
}
use ulmix_i.Base.Memory.{Mem, write}
use ulmix_i.Ata.{Ports, ata_data, ata_status, wait_bsy, wait_drq, repinsw, read_loop}
use ulmix_i.Ata.Drive.{Drive, Conforms}

-- `len` bytes have been copied from the disk, and nothing else has changed.
abbrev pub Copied : (disk m m' : Mem) → (src buf len : ℕ) → Type 0
Copied disk m m' src buf len =
    ((j : ℕ) → j < len → m' (buf + j) ≡ disk (src + j))
    × ((a : ℕ) → (a < buf) ⊎ (buf + len ≤ a) → m' a ≡ m a)

pub Copied-nothing : (disk m : Mem) (src buf : ℕ) → Copied disk m m src buf 0
Copied-nothing disk m src buf = ((λ j lt. absurd (omega arith)), (λ a h. refl))

Copied-both :
    (disk m m1 m2 : Mem) (src src' buf buf' n n' len : ℕ)
    → src' ≡ src + n
    → buf' ≡ buf + n
    → len ≡ n + n'
    → Copied disk m m1 src buf n
    → Copied disk m1 m2 src' buf' n'
    → Copied disk m m2 src buf len
Copied-both disk m m1 m2 src src' buf buf' n n' len es eb el (got, kept) (got', kept') =
    (bytes, λ a h. kept' a (others' h) ∙ kept a (others h))
  where
    bytes : (j : ℕ) → j < len → m2 (buf + j) ≡ disk (src + j)
    bytes j lt = elim (Bool-cases (ltb j n)) [
      | inl t ↦ kept' (buf + j) (inl (ground arith)) ∙ got j (ground arith)
      | inr t ↦
          ap m2 {x = buf + j} {y = buf' + (j - n)} (ground arith)
          ∙ got' (j - n) (ground arith)
          ∙ ap disk {x = src' + (j - n)} {y = src + j} (ground arith)
    ]

    others : {a : ℕ} → (a < buf) ⊎ (buf + len ≤ a) → (a < buf) ⊎ (buf + n ≤ a)
    others (inl h) = inl h
    others (inr h) = inr (omega arith)

    others' : {a : ℕ} → (a < buf) ⊎ (buf + len ≤ a) → (a < buf') ⊎ (buf' + n' ≤ a)
    others' (inl h) = inl (omega arith)
    others' (inr h) = inr (omega arith)

Copied-word :
    (disk m : Mem) (src buf v : ℕ)
    → disk src < 256
    → disk (src + 1) < 256
    → v ≡ disk src + 256 * disk (src + 1)
    → Copied disk m (write (write m buf (v % 256)) (buf + 1) (v / 256 % 256)) src buf 2
Copied-word disk m src buf v b b' e = (bytes, λ a h. ground arith)
  where
    bytes :
        (j : ℕ)
        → j < 2
        → write (write m buf (v % 256)) (buf + 1) (v / 256 % 256) (buf + j) ≡ disk (src + j)
    bytes zero lt = ground (arith, b, b', e, ap disk {x = src} {y = src + 0} (omega arith))
    bytes (suc zero) lt = ground (arith, b, b', e)
    bytes (suc (suc j)) lt = absurd (omega arith)

module _ {W : Type 0} {ports : Ports W} {base : ℕ} {disk : Mem} {slow : ℕ}
    (c : Conforms ports base disk slow) where
  -- A drive that is not busy any more, in the middle of the same transfer.
  abbrev pub NotBusy : W → Option W → Type 0
  NotBusy w r = (w' : W) × (r ≡ some w') × (c.drive w' ≡ c.drive w) × (c.polls w' ≡ 0)

  pub wait_bsy-NotBusy :
      (n fuel : ℕ) (w : W) → c.polls w ≡ n → n < fuel → NotBusy w (wait_bsy ports fuel w base)
  unfolding wait_bsy
  wait_bsy-NotBusy n zero w e lt = absurd (omega arith)
  wait_bsy-NotBusy zero (suc fuel) w e lt =
      let (b, drq, same, z) = c.ready w e in
      ((ports.inb w (base + ata_status)).1, rw (b, wait_bsy) refl, same, z)
  wait_bsy-NotBusy (suc n) (suc fuel) w e lt =
      let (b, same, e') = c.busy w n e in
      let (w', eq, same', z) =
        wait_bsy-NotBusy n fuel (ports.inb w (base + ata_status)).1 e' (omega arith) in
      (w', rw (b, eq, wait_bsy) refl, same' ∙ same, z)

  wait_drq-NotBusy :
      (fuel : ℕ) (w : W)
      → c.polls w ≡ 0
      → 0 < (c.drive w).left
      → 0 < fuel
      → NotBusy w (wait_drq ports fuel w base)
  unfolding wait_drq
  wait_drq-NotBusy zero w e more lt = absurd (omega arith)
  wait_drq-NotBusy (suc fuel) w e more lt =
      let (b, drq, same, z) = c.ready w e in
      ((ports.inb w (base + ata_status)).1, rw (drq, wait_drq) (ground arith), same, z)

  -- What is left of a transfer behind some words.
  abbrev pub Words : (w : W) (m : Mem) (buf n r : ℕ) → W × Mem → Type 0
  Words w m buf n r (w', m') =
      ((c.drive w').next ≡ (c.drive w).next + n)
      × ((c.drive w').left ≡ r)
      × (c.polls w' ≤ (if r == 0 then 0 else slow))
      × Copied disk m m' (2 * (c.drive w).next) buf (2 * n)

  repinsw-Words :
      (n r : ℕ) (w : W) (m : Mem) (buf : ℕ)
      → c.polls w ≤ (if n == 0 then (if r == 0 then 0 else slow) else 0)
      → (c.drive w).left ≡ n + r
      → r % 256 ≡ 0
      → n ≤ 256
      → Words w m buf n r (repinsw ports n w m (base + ata_data) buf)
  unfolding repinsw
  repinsw-Words zero r w m buf z e whole few =
      (omega arith, omega arith, z, ((λ j lt. absurd (omega arith)), (λ a h. refl)))
  repinsw-Words (suc n) r w m buf z e whole few =
      let (v, d, p) = c.word w (n + r) (ground arith) (omega arith) in
      let (next, left, p', copied) =
        repinsw-Words n r (ports.insw w (base + ata_data)).1 _ (buf + 2) (ground arith)
          (ap (λ (d : Drive). d.left) d) whole (omega arith) in
      (
        omega (arith, ap (λ (d : Drive). d.next) d),
        left,
        p',
        Copied-both disk m _ _ (2 * (c.drive w).next) _ buf (buf + 2) 2 (2 * n) (2 * suc n)
            (omega (arith, ap (λ (d : Drive). d.next) d)) refl (omega arith)
            (Copied-word disk m (2 * (c.drive w).next) buf _ (c.byte _) (c.byte _) v) copied,
      )

  -- A whole transfer: the drive has no more to give, is not busy, and the sectors have been copied.
  abbrev pub Transferred : (src : ℕ) (m : Mem) (buffer count : ℕ) → Option (W × Mem) → Type 0
  Transferred src m buffer count r =
      (w' : W) × (m' : Mem) × (r ≡ some (w', m'))
      × (c.polls w' ≡ 0)
      × Copied disk m m' src buffer (512 * count)

  next_sector :
      (count fuel : ℕ) (w w1 w2 : W) (m : Mem) (buffer : ℕ)
      → wait_bsy ports fuel w base ≡ some w1
      → wait_drq ports fuel w1 base ≡ some w2
      → read_loop ports (suc count) fuel w m base buffer
        ≡ read_loop ports count fuel
            (repinsw ports 256 w2 m (base + ata_data) buffer).0
            (repinsw ports 256 w2 m (base + ata_data) buffer).1
            base
            (buffer + 512)
  unfolding read_loop
  next_sector count fuel w w1 w2 m buffer e e' = rw (e, e', read_loop) refl

  -- One round of the loop: a sector has been copied, and the transfer goes on behind it.
  abbrev Sector : (count fuel : ℕ) (w : W) (m : Mem) (buffer : ℕ) → Type 0
  Sector count fuel w m buffer =
      (w' : W) × (m' : Mem) × (read_loop ports (suc count) fuel w m base buffer
        ≡ read_loop ports count fuel w' m' base (buffer + 512))
      × ((c.drive w').next ≡ (c.drive w).next + 256)
      × ((c.drive w').left ≡ 256 * count)
      × (c.polls w' ≤ (if count == 0 then 0 else slow))
      × Copied disk m m' (2 * (c.drive w).next) buffer 512

  read_loop-Sector :
      (count fuel : ℕ) (w : W) (m : Mem) (buffer : ℕ)
      → slow < fuel
      → c.polls w ≤ slow
      → (c.drive w).left ≡ 256 * suc count
      → Sector count fuel w m buffer
  read_loop-Sector count fuel w m buffer enough p e =
      awake (wait_bsy-NotBusy (c.polls w) fuel w refl (omega arith))
    where
      copied :
          (w1 w2 : W)
          → wait_bsy ports fuel w base ≡ some w1
          → wait_drq ports fuel w1 base ≡ some w2
          → c.drive w2 ≡ c.drive w
          → (r : W × Mem) → r ≡ repinsw ports 256 w2 m (base + ata_data) buffer
          → Words w2 m buffer 256 (256 * count) r
          → Sector count fuel w m buffer
      copied w1 w2 e1 e2 d (w', m') er (next, left, p', bytes) = (
        w',
        m',
        next_sector count fuel w w1 w2 m buffer e1 e2
            ∙ ap (λ (r : W × Mem). read_loop ports count fuel r.0 r.1 base (buffer + 512)) (sym er),
        omega (arith, next, ap (λ (d : Drive). d.next) d),
        left,
        ground (arith, p'),
        subst (λ (d : Drive). Copied disk m m' (2 * d.next) buffer 512) d bytes,
      )

      given :
          (w1 : W)
          → wait_bsy ports fuel w base ≡ some w1
          → c.drive w1 ≡ c.drive w
          → NotBusy w1 (wait_drq ports fuel w1 base)
          → Sector count fuel w m buffer
      given w1 e1 d1 (w2, e2, d2, z2) = copied w1 w2 e1 e2 (d2 ∙ d1) _ refl (
          repinsw-Words 256 (256 * count) w2 m buffer (omega arith)
            (omega (arith, ap (λ (d : Drive). d.left) (d2 ∙ d1))) (omega arith) (omega arith))

      awake : NotBusy w (wait_bsy ports fuel w base) → Sector count fuel w m buffer
      awake (w1, e1, d1, z1) =
          given w1 e1 d1 (
            wait_drq-NotBusy fuel w1 z1 (omega (arith, ap (λ (d : Drive). d.left) d1))
              (omega arith))

  read_loop-next :
      (count fuel : ℕ) (w : W) (m : Mem) (buffer : ℕ) (w' : W) (m' : Mem)
      → read_loop ports (suc count) fuel w m base buffer
        ≡ read_loop ports count fuel w' m' base (buffer + 512)
      → (c.drive w').next ≡ (c.drive w).next + 256
      → Copied disk m m' (2 * (c.drive w).next) buffer 512
      → Transferred
          (2 * (c.drive w').next)
          m'
          (buffer + 512)
          count
          (read_loop ports count fuel w' m' base (buffer + 512))
      → Transferred
          (2 * (c.drive w).next)
          m
          buffer
          (suc count)
          (read_loop ports (suc count) fuel w m base buffer)
  read_loop-next count fuel w m buffer w' m' eq next copied (w2, m2, eq', z, copied') = (
    w2,
    m2,
    eq ∙ eq',
    z,
    Copied-both disk m m' m2 (2 * (c.drive w).next) (2 * (c.drive w').next) buffer (buffer + 512)
        512 (512 * count) (512 * suc count) (omega arith) refl (omega arith) copied copied',
  )

  pub read_loop-Transferred :
      (count fuel : ℕ) (w : W) (m : Mem) (buffer : ℕ)
      → slow < fuel
      → c.polls w ≤ (if count == 0 then 0 else slow)
      → (c.drive w).left ≡ 256 * count
      → Transferred
          (2 * (c.drive w).next)
          m
          buffer
          count
          (read_loop ports count fuel w m base buffer)
  unfolding read_loop
  read_loop-Transferred zero fuel w m buffer enough p e =
      (w, m, refl, omega arith, Copied-nothing disk m (2 * (c.drive w).next) buffer)
  read_loop-Transferred (suc count) fuel w m buffer enough p e =
      let (w', m', eq, next, left, p', copied) =
        read_loop-Sector count fuel w m buffer enough (ground arith) e in
      read_loop-next count fuel w m buffer w' m' eq next copied
        (read_loop-Transferred count fuel w' m' (buffer + 512) enough p' left)
