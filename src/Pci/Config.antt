-- ===== src/Pci/Config.antt =====
-- kernel/bus/pci_cfgspace.c: addresses and widths in the configuration space.
use Prim.Native.Nat.{bit_or}
use ulmix_i.Base.{
  ℕ, ◌+◌, ◌-◌, ◌*◌, ◌/◌, ◌%◌, ◌^◌, ◌<◌, ◌≡◌, ◌∙◌, ◌⊎◌, refl, sym, ap, arith, ◌==◌, Bool-cases, inl,
  inr,
}
use ulmix_i.Base.Bits.{u32, bit_or-eq-add, bit_or_comm}
use ulmix_i.Pci.{Ports, config_address, pci_cfg_read32, pci_cfg_read16, pci_cfg_read8}

-- Two fields joined: `x` from bit `k` on, and `y` below it.
join : (x y k q z : ℕ) → x ≡ q * 2 ^ k → y < 2 ^ k → x + y ≡ z → bit_or x y ≡ z
join x y k q z e lt sum = rw e (bit_or-eq-add k q y lt ∙ ap (λ w. w + y) (sym e) ∙ sum)

config_address-eq :
    (bus slot fnc offset : ℕ)
    → bus < 256
    → slot < 32
    → fnc < 8
    → offset < 256
    → config_address bus slot fnc offset
      ≡ 2 ^ 31 + (bus * 2 ^ 16 + slot * 2 ^ 11 + fnc * 2 ^ 8 + offset / 4 * 4)
unfolding config_address
config_address-eq bus slot fnc offset b s f o =
    bit_or_comm _ (2 ^ 31)
    ∙ ap (λ w. bit_or (2 ^ 31) (bit_or (bit_or w (u32 (fnc * 2 ^ 8))) (offset / 4 * 4)))
        (join (u32 (bus * 2 ^ 16)) (u32 (slot * 2 ^ 11)) 16 bus (bus * 2 ^ 16 + slot * 2 ^ 11)
          (omega arith) (omega arith) (omega arith))
    ∙ ap (λ w. bit_or (2 ^ 31) (bit_or w (offset / 4 * 4)))
        (join (bus * 2 ^ 16 + slot * 2 ^ 11) (u32 (fnc * 2 ^ 8)) 11 (bus * 32 + slot)
          (bus * 2 ^ 16 + slot * 2 ^ 11 + fnc * 2 ^ 8) (omega arith) (omega arith) (omega arith))
    ∙ ap (λ w. bit_or (2 ^ 31) w)
        (join (bus * 2 ^ 16 + slot * 2 ^ 11 + fnc * 2 ^ 8) (offset / 4 * 4) 8
          ((bus * 32 + slot) * 8 + fnc)
          (bus * 2 ^ 16 + slot * 2 ^ 11 + fnc * 2 ^ 8 + offset / 4 * 4) (omega arith) (omega arith)
          (omega arith))
    ∙ join (2 ^ 31) _ 31 1 _ refl (omega arith) refl

-- The address that goes to the port has bit 31 set and each number in a field of its own: the bus from
-- bit 16 on, the slot from bit 11 on, the function from bit 8 on, and below it the offset without
-- its two lowest bits.
config_address-fields :
    (bus slot fnc offset : ℕ)
    → bus < 256
    → slot < 32
    → fnc < 8
    → offset < 256
    → (config_address bus slot fnc offset / 2 ^ 31 ≡ 1)
      × (config_address bus slot fnc offset / 2 ^ 16 % 2 ^ 15 ≡ bus)
      × (config_address bus slot fnc offset / 2 ^ 11 % 32 ≡ slot)
      × (config_address bus slot fnc offset / 2 ^ 8 % 8 ≡ fnc)
      × (config_address bus slot fnc offset % 256 ≡ offset - offset % 4)
config_address-fields bus slot fnc offset b s f o =
    let e = config_address-eq bus slot fnc offset b s f o in
    (omega (arith, e), omega (arith, e), omega (arith, e), omega (arith, e), omega (arith, e))

same_word :
    (ports : Ports) (bus slot fnc offset : ℕ)
    → offset % 2 ≡ 0
    → pci_cfg_read32 ports bus slot fnc (offset + 1) ≡ pci_cfg_read32 ports bus slot fnc offset
unfolding pci_cfg_read32 config_address
same_word ports bus slot fnc offset even =
    ap
      (λ w. ports (
        bit_or
          (bit_or (bit_or (bit_or (u32 (bus * 2 ^ 16)) (u32 (slot * 2 ^ 11))) (u32 (fnc * 2 ^ 8)))
            (w * 4))
          (2 ^ 31)))
      same
  where
    same : (offset + 1) / 4 ≡ offset / 4
    same = omega arith

-- The two bytes of `word` from bit `k` on.
two_bytes :
    (word a b c : ℕ)
    → ((a ≡ 0) × (b ≡ 0) × (c ≡ 8)) ⊎ ((a ≡ 16) × (b ≡ 16) × (c ≡ 24))
    → word / 2 ^ a % 2 ^ 16 ≡ word / 2 ^ b % 2 ^ 8 + 2 ^ 8 * (word / 2 ^ c % 2 ^ 8)
two_bytes word a b c (inl (x, y, z)) = rw (x, y, z) (omega arith)
two_bytes word a b c (inr (x, y, z)) = rw (x, y, z) (omega arith)

-- A read of 16 bits at an even offset is the two bytes there, the lower one first.
pci_cfg_read16-read8 :
    (ports : Ports) (bus slot fnc offset : ℕ)
    → offset % 2 ≡ 0
    → pci_cfg_read16 ports bus slot fnc offset
      ≡ pci_cfg_read8 ports bus slot fnc offset
        + 2 ^ 8 * pci_cfg_read8 ports bus slot fnc (offset + 1)
unfolding pci_cfg_read16 pci_cfg_read8
pci_cfg_read16-read8 ports bus slot fnc offset even =
    rw (same_word ports bus slot fnc offset even) (
      two_bytes (pci_cfg_read32 ports bus slot fnc offset) (offset / 2 % 2 * 2 * 8) (offset % 4 * 8)
        ((offset + 1) % 4 * 8) shifts)
  where
    shifts :
        ((offset / 2 % 2 * 2 * 8 ≡ 0) × (offset % 4 * 8 ≡ 0) × ((offset + 1) % 4 * 8 ≡ 8))
        ⊎ ((offset / 2 % 2 * 2 * 8 ≡ 16) × (offset % 4 * 8 ≡ 16) × ((offset + 1) % 4 * 8 ≡ 24))
    shifts = elim (Bool-cases (offset % 4 == 0)) [
      | inl t ↦ inl (ground arith, ground arith, ground arith)
      | inr t ↦ inr (ground arith, ground arith, ground arith)
    ]
