-- ===== src/Debug/PeekPoke.antt =====
-- `peek` shows what `poke` wrote.
use filestick.Base.{ℕ}
use filestick.Debug.{Size, word, half, byte}

abbrev pub size_bits : Size → ℕ
size_bits word = 32
size_bits half = 16
size_bits byte = 8
