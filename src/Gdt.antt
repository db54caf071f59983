-- ===== src/Gdt.antt =====
-- arch/i686/gdt.c with arch/i686/gdt.h: the segment descriptors and the task state segment.
pub mod Segments
mod Tests
use ulmix_i.Base.{
  ℕ, zero, suc, ◌+◌, ◌*◌, ◌/◌, ◌%◌, ◌^◌, List, [], ◌∷◌, ◌==◌, if◌then◌else◌, set, replicate,
}

-- struct gdte_struct.
pub record GdtEntry : Type 0 where
  pub limit : ℕ
  pub base_low : ℕ
  pub base_middle : ℕ
  pub access : ℕ
  pub flags : ℕ
  pub base_high : ℕ

-- struct tsse_struct, whose other fields stay 0.
pub record Tss : Type 0 where
  pub esp0 : ℕ
  pub ss0 : ℕ
  pub es : ℕ
  pub cs : ℕ
  pub ss : ℕ
  pub ds : ℕ
  pub fs : ℕ
  pub gs : ℕ

abbrev pub gdt_entries : ℕ
gdt_entries = 6

-- The bits of `access` and `flags`.
abbrev pub valid : ℕ
valid = 0x80

abbrev pub acc_usr : ℕ
acc_usr = 0x60

abbrev pub sys_non : ℕ
sys_non = 0x10

abbrev pub cxr : ℕ
cxr = 0x0a

abbrev pub drw : ℕ
drw = 0x02

abbrev pub gran_4k : ℕ
gran_4k = 0x80

abbrev pub off_32 : ℕ
off_32 = 0x40

-- What setup_entry() writes.
pub mk_entry : (base limit access flags : ℕ) → GdtEntry
mk_entry base limit access flags = record {
  base_low = base % 2 ^ 16;
  base_middle = base / 2 ^ 16 % 2 ^ 8;
  base_high = base / 2 ^ 24 % 2 ^ 8;
  limit = limit % 2 ^ 16;
  flags = limit / 2 ^ 16 % 2 ^ 4 + flags / 2 ^ 4 % 2 ^ 4 * 2 ^ 4;
  access = access % 2 ^ 8;
}

pub setup_entry : (id base limit access flags : ℕ) → List GdtEntry → List GdtEntry
unfolding mk_entry
setup_entry id base limit access flags gdt = set gdt id (mk_entry base limit access flags)

-- struct tsse_struct has 104 bytes.
abbrev pub tss_size : ℕ
tss_size = 104

abbrev blank : GdtEntry
blank = record { limit = 0; base_low = 0; base_middle = 0; access = 0; flags = 0; base_high = 0 }

-- The table, which is static, and the segment at address `tss`.
pub setup_gdt : (tss : ℕ) → List GdtEntry × Tss
unfolding setup_entry
setup_gdt tss = (
  setup_entry 5 tss tss_size 0xe9 0 (
      setup_entry 4 0 0xfffff (valid + acc_usr + sys_non + drw) (gran_4k + off_32) (
        setup_entry 3 0 0xfffff (valid + acc_usr + sys_non + cxr) (gran_4k + off_32) (
          setup_entry 2 0 0xfffff (valid + sys_non + drw) (gran_4k + off_32) (
            setup_entry 1 0 0xfffff (valid + sys_non + cxr) (gran_4k + off_32)
              (setup_entry 0 0 0 0 0 (replicate gdt_entries blank)))))),
  record { esp0 = 0; ss0 = 0x10; es = 0x10; cs = 0x08; ss = 0x10; ds = 0x10; fs = 0x10; gs = 0x10 },
)

pub update_tss : (sp : ℕ) → Tss → Tss
update_tss sp tss = record tss { esp0 = sp }
