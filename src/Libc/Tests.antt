-- ===== src/Libc/Tests.antt =====
-- Tests of the copies and of the splitting of a line.
use filestick.Base.{ℕ, ◌%◌, ◌<◌, ◌≡◌, refl, List, [], ◌∷◌, ◌++◌, map, arith, take}
use filestick.Base.Text.{codes}
use filestick.Libc.{Bytes, memcpy, copy_bytes, copy_words, unaligned, load32, store32}
use filestick.Libc.Copied.{moved, memcpy-moved}
use filestick.Libc.Tokens.{split_args, c_str}
use filestick.Libc.Words.{words, cut}
use filestick.Libc.Arguments.{split_args-words}

abbrev counted : Bytes
counted a = a % 256

counted_byte : (a : ℕ) → counted a < 256
counted_byte a = omega arith

memcpy-moved_example : memcpy 200 100 7 counted 205 ≡ moved 7 200 100 counted 205
memcpy-moved_example = memcpy-moved 200 100 7 counted 205 (omega arith) counted_byte

memcpy_seven : memcpy 200 100 7 counted 206 ≡ 106
unfolding memcpy copy_bytes copy_words unaligned load32 store32
memcpy_seven = refl

abbrev poke_line : List ℕ
poke_line = codes "poke  b 80 ff "

poke_words : words poke_line ≡ codes "poke" ∷ codes "b" ∷ codes "80" ∷ codes "ff" ∷ []
unfolding cut
poke_words = refl

split_args-words_example :
    let (args, buf) = split_args 3 (poke_line ++ 0 ∷ 7 ∷ []) in
    map (c_str buf) args ≡ take 3 (words poke_line)
split_args-words_example = split_args-words 3 poke_line (0 ∷ 7 ∷ []) refl refl
