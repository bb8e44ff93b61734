-- ===== src/Tokens/Ascii.antt =====
-- Tables for texts of ASCII characters alone, which agree with those of Go's package `unicode` on
-- these characters.
use google_in_a_day_crawler.Base.{◌==◌, ◌||◌, refl}
use google_in_a_day_crawler.Tokens.{
  Unicode, AsciiTables, is_ascii_upper, is_ascii_lower, is_ascii_digit, ascii_to_lower,
}

abbrev pub ascii : Unicode
ascii = record {
  is_letter = λ c. is_ascii_upper c || is_ascii_lower c;
  is_digit = λ c. is_ascii_digit c;
  is_space = λ c. (c == 32) || ((c == 9) || ((c == 10) || (c == 13)));
  to_lower = λ c. ascii_to_lower c;
}

pub ascii-AsciiTables : AsciiTables ascii
ascii-AsciiTables = record { letters = λ c h. refl; digits = λ c h. refl; lower = λ c h. refl }
