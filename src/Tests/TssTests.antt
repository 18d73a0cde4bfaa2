-- ===== src/Tests/TssTests.antt =====
-- The task state segment, kernel/modules/tss/tss.c, at 0xC0211234.
use bhos.Common.{◌≡◌, refl}
use bhos.Tss.{TssDesc, Tss, create_tss_desc}

abbrev no_desc : TssDesc
no_desc = record {
  limit_low_word = 0;
  base_low_word = 0;
  base_mid_byte = 0;
  attr_low_byte = 0;
  limit_high_attr_high = 0;
  base_high_byte = 0;
}

abbrev pub before_init : Tss
before_init = record { esp0 = 7; ss0 = 0; io_base = 0; gdt = λ _. no_desc }

abbrev cpu0_desc : TssDesc
cpu0_desc = record {
  limit_low_word = 107;
  base_low_word = 0x1234;
  base_mid_byte = 0x21;
  attr_low_byte = 0x89;
  limit_high_attr_high = 0x80;
  base_high_byte = 0xC0;
}

create_tss_desc_test : create_tss_desc 0xC021_1234 107 0x89 0x80 ≡ cpu0_desc
unfolding create_tss_desc
create_tss_desc_test = refl
