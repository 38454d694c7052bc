-- ===== src/Console/Tests.antt =====
-- A console of three rows of four columns.
use ikaros.Base.{◌≡◌, refl, some, arith, replicate}
use ikaros.Console.{Console}
use ikaros.Console.Screen.{OnScreen}
use ikaros.Console.Putch.{putch}
use ikaros.Console.Gathering.{WellFormed, code_length_after}
use ikaros.Console.Escape.{putch-WellFormed}

abbrev console : Console
console = record {
  columns = 4;
  rows = 3;
  column = 0;
  row = 3;
  attrs = 7;
  flags = 0;
  escape_code_sequence = replicate 32 0;
  escape_code_parameter = replicate 32 0;
  escape_code_length = 0;
  buffer = replicate 12 (record { ch = 32; attrs = 7 });
}

console-OnScreen : OnScreen console
console-OnScreen = record {
  some_columns = omega arith;
  some_rows = omega arith;
  cells = refl;
  small = omega arith;
  row = omega arith;
  column = omega arith;
}

console-WellFormed : WellFormed console
console-WellFormed = record {
  on_screen = console-OnScreen;
  sequence = refl;
  parameter = refl;
  code_length = omega arith;
}

putch-WellFormed_example :
    (r : Console) × (putch 65 console ≡ some r)
    × WellFormed r
    × (r.escape_code_length ≡ code_length_after 65 console.escape_code_length)
putch-WellFormed_example = putch-WellFormed 65 console console-WellFormed (omega arith)
