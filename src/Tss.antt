-- ===== src/Tss.antt =====
-- The task state segment: kernel/modules/tss/tss.c and include/tss.h.
--
-- `gdt` holds the descriptors of the global table by their number. `tss_addr` is the address of
-- `tss_cpu0`, `data_selector` the word SELECTOR_DATA_MEM. `ltr`, the processor's instruction that loads
-- the segment, is an argument: what it makes of the descriptor.
use bhos.Common.{
  ℕ, ◌+◌, ◌-◌, ◌*◌, ◌/◌, ◌%◌, ◌^◌, ◌<◌, ◌≡◌, refl, arith, false, ◌==◌, if◌then◌else◌, shr, update,
  bit_and, bit_and_low, bit_and_high, ok, fault, Fault, Cmd, Returns,
}

-- tss_desc_t
pub record TssDesc : Type 0 where
  pub limit_low_word : ℕ
  pub base_low_word : ℕ
  pub base_mid_byte : ℕ
  pub attr_low_byte : ℕ
  pub limit_high_attr_high : ℕ
  pub base_high_byte : ℕ

-- The fields of `tss_cpu0` that are read or written, and the table of descriptors.
pub record Tss : Type 0 where
  pub esp0 : ℕ
  pub ss0 : ℕ
  pub io_base : ℕ
  pub gdt : ℕ → TssDesc

abbrev pub tss_attr_low : ℕ
tss_attr_low = 0x89

abbrev pub tss_attr_high : ℕ
tss_attr_high = 0x80

abbrev pub tss_cpu0_desc_pos_on_gdt : ℕ
tss_cpu0_desc_pos_on_gdt = 6

-- sizeof(tss_t): 27 words
abbrev pub tss_size : ℕ
tss_size = 108

unfoldable pub create_tss_desc : ℕ → ℕ → ℕ → ℕ → TssDesc
create_tss_desc desc_base limit attr_low attr_high = record {
  limit_low_word = bit_and limit 0xFFFF;
  base_low_word = bit_and desc_base 0xFFFF;
  base_mid_byte = shr (bit_and desc_base 0x00FF_0000) 16 % 2 ^ 8;
  attr_low_byte = attr_low;
  limit_high_attr_high = (shr (bit_and limit 0x000F_0000) 16 + attr_high) % 2 ^ 8;
  base_high_byte = shr desc_base 24 % 2 ^ 8;
}

-- `get_TSS_desc_high_word`: the last four bytes of the descriptor as a word.
abbrev pub desc_high_word : TssDesc → ℕ
desc_high_word d =
    d.base_mid_byte
    + d.attr_low_byte * 2 ^ 8
    + d.limit_high_attr_high * 2 ^ 16
    + d.base_high_byte * 2 ^ 24

module _ (ltr : TssDesc → TssDesc) (tss_addr data_selector : ℕ) where
  unfoldable pub tss_init : Cmd Tss (Unit {0})
  unfolding create_tss_desc
  tss_init s =
      let desc = create_tss_desc tss_addr (tss_size - 1) tss_attr_low tss_attr_high in
      let loaded = ltr desc in
      if desc_high_word loaded == desc_high_word desc
      then fault Fault.endless
      else ok (
        tt,
        record {
          esp0 = 0;
          ss0 = bit_and data_selector 0xFFFF;
          io_base = tss_size;
          gdt = update s.gdt tss_cpu0_desc_pos_on_gdt loaded;
        },
      )

-- What the processor reads from a descriptor.
abbrev pub base_of : TssDesc → ℕ
base_of d = d.base_low_word + d.base_mid_byte * 2 ^ 16 + d.base_high_byte * 2 ^ 24

abbrev pub limit_of : TssDesc → ℕ
limit_of d = d.limit_low_word + d.limit_high_attr_high % 16 * 2 ^ 16

-- `create_tss_desc` loses nothing: base and limit are read back from the descriptor, for a 32-bit base and
-- a 20-bit limit, and so are the attributes, of which the high ones are a multiple of 16.
pub create_tss_desc_lem :
    (base limit attr_low attr_high : ℕ)
    → base < 2 ^ 32
    → limit < 2 ^ 20
    → attr_high < 16
    → let d = create_tss_desc base limit attr_low (attr_high * 16) in
      (base_of d ≡ base)
      × (limit_of d ≡ limit)
      × (d.attr_low_byte ≡ attr_low)
      × (d.limit_high_attr_high / 16 ≡ attr_high)
unfolding create_tss_desc
create_tss_desc_lem base limit attr_low attr_high hb hl ha =
    let b16 = bit_and_low 16 base in
    let l16 = bit_and_low 16 limit in
    let b8 = bit_and_high 16 base 0xFF in
    let l4 = bit_and_high 16 limit 0xF in
    let c8 = bit_and_low 8 (base / 2 ^ 16) in
    let m4 = bit_and_low 4 (limit / 2 ^ 16) in
    (omega (arith, b16, b8, c8), omega (arith, l16, l4, m4), refl, omega (arith, l4, m4))

-- `ltr` sets bit 1 of the type of the descriptor.
abbrev pub marks_busy : TssDesc → TssDesc
marks_busy d = record d { attr_low_byte = d.attr_low_byte + 2 }

-- `tss_init` ends, on a processor that marks the loaded descriptor as busy: descriptor 6 has the segment's
-- base and its limit 107, the kernel's stack segment is the low word of the selector, the bit map begins
-- behind the segment, and the other descriptors are as before.
pub tss_init-base_of :
    (ltr : TssDesc → TssDesc) (tss_addr data_selector : ℕ) (s : Tss)
    → ((d : TssDesc) → ltr d ≡ marks_busy d)
    → tss_addr < 2 ^ 32
    → Returns
        (λ _ t.
          (base_of (t.gdt 6) ≡ tss_addr)
          × (limit_of (t.gdt 6) ≡ 107)
          × ((t.gdt 6).attr_low_byte ≡ 0x8B)
          × (t.ss0 ≡ data_selector % 2 ^ 16)
          × (t.io_base ≡ 108)
          × ((n : ℕ) → (if n == 6 then s.gdt n else t.gdt n) ≡ s.gdt n))
        (tss_init ltr tss_addr data_selector s)
unfolding tss_init
tss_init-base_of ltr tss_addr data_selector s busy small =
    let desc = create_tss_desc tss_addr (tss_size - 1) tss_attr_low tss_attr_high in
    let facts = create_tss_desc_lem tss_addr 107 0x89 8 small (omega arith) (omega arith) in
    let changed : (desc_high_word (marks_busy desc) == desc_high_word desc) ≡ false =
      ground arith in
    (
      tt,
      record {
        esp0 = 0;
        ss0 = bit_and data_selector 0xFFFF;
        io_base = tss_size;
        gdt = update s.gdt 6 (marks_busy desc);
      },
      rw (busy desc, changed) refl,
      (
        facts.0,
        facts.1,
        omega (arith, facts.2),
        bit_and_low 16 data_selector,
        refl,
        (λ n. ground arith),
      ),
    )
