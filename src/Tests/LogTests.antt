-- ===== src/Tests/LogTests.antt =====
-- The log, kernel/modules/log/kern_log.c, with the strings and arrays of FormatTests: "ok" is the source and
-- the text.
use bhos.Common.{refl, arith, [], ◌∷◌, Returns}
use bhos.Printk.Format.Render.{IsConst}
use bhos.Log.{info_format, error_format, warning_format, info_kern, error_kern, warning_kern}
use bhos.Log.Lines.{line, info_level, error_level, warning_level, Shows, log-line}
use bhos.Tests.ThreadsTests.{no_pages}
use bhos.Tests.SyncTests.{free_lock-IsFree}
use bhos.Tests.FormatTests.{
  word_ok, places, strings, text_at, console, places-AreLaid, strings-HasLiterals, word_ok-IsConst,
}

info-IsConst : IsConst strings places 0x2000 info_format
info-IsConst = record {
  spelled = (
    refl,
    refl,
    (
      refl,
      refl,
      (
        refl,
        refl,
        (
          refl,
          refl,
          (
            refl,
            refl,
            (
              refl,
              refl,
              (
                refl,
                refl,
                (
                  refl,
                  refl,
                  (refl, refl, (refl, refl, (refl, refl, (refl, refl, (refl, refl, refl))))),
                ),
              ),
            ),
          ),
        ),
      ),
    ),
  );
  off_out = refl;
  off_temp = refl;
  off_decimal = refl;
  off_static = refl;
  off_first = refl;
  off_second = refl;
}

error-IsConst : IsConst strings places 0x2040 error_format
error-IsConst = record {
  spelled = (
    refl,
    refl,
    (
      refl,
      refl,
      (
        refl,
        refl,
        (
          refl,
          refl,
          (
            refl,
            refl,
            (
              refl,
              refl,
              (
                refl,
                refl,
                (
                  refl,
                  refl,
                  (
                    refl,
                    refl,
                    (refl, refl, (refl, refl, (refl, refl, (refl, refl, (refl, refl, refl))))),
                  ),
                ),
              ),
            ),
          ),
        ),
      ),
    ),
  );
  off_out = refl;
  off_temp = refl;
  off_decimal = refl;
  off_static = refl;
  off_first = refl;
  off_second = refl;
}

warning-IsConst : IsConst strings places 0x2080 warning_format
warning-IsConst = record {
  spelled = (
    refl,
    refl,
    (
      refl,
      refl,
      (
        refl,
        refl,
        (
          refl,
          refl,
          (
            refl,
            refl,
            (
              refl,
              refl,
              (
                refl,
                refl,
                (
                  refl,
                  refl,
                  (
                    refl,
                    refl,
                    (
                      refl,
                      refl,
                      (
                        refl,
                        refl,
                        (refl, refl, (refl, refl, (refl, refl, (refl, refl, (refl, refl, refl))))),
                      ),
                    ),
                  ),
                ),
              ),
            ),
          ),
        ),
      ),
    ),
  );
  off_out = refl;
  off_temp = refl;
  off_decimal = refl;
  off_static = refl;
  off_first = refl;
  off_second = refl;
}

log-line_example :
    Returns
      (Shows (line info_level word_ok word_ok) 0 15 console)
      (info_kern no_pages 0x5000 0xB0 101 places 0x2000 (λ _. 7) 0x200 0x200 console)
    × Returns
        (Shows (line error_level word_ok word_ok) 0 4 console)
        (error_kern no_pages 0x5000 0xB0 101 places 0x2040 (λ _. 7) 0x200 0x200 console)
    × Returns
        (Shows (line warning_level word_ok word_ok) 0 14 console)
        (warning_kern no_pages 0x5000 0xB0 101 places 0x2080 (λ _. 7) 0x200 0x200 console)
log-line_example =
    log-line no_pages 0x5000 0xB0 101 places text_at (λ _. 7) 0x200 0x200 0x10 (0x90 ∷ 0xA0 ∷ [])
      console places-AreLaid strings-HasLiterals word_ok-IsConst word_ok-IsConst (omega arith)
      (omega arith) (λ n. omega arith) (omega arith) (omega arith) (λ _. free_lock-IsFree) 0x2000
      0x2040 0x2080 info-IsConst error-IsConst warning-IsConst
