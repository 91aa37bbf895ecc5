-- ===== src/Poll/Led.antt =====
-- system/rgbled.c: the LED keeps the last byte that was written, and a read gives it back.
use filestick.Base.{
  ℕ, ◌+◌, ◌%◌, ◌<◌, ◌≡◌, refl, ap, List, [], ◌∷◌, ◌++◌, arith, length, length-append, replicate,
  Ret, val,
}

-- `ledval` and the LED's register.
pub record Led : Type 0 where
  pub ledval : ℕ
  pub led_dev : ℕ

unfoldable pub rgbled_write_loop : List ℕ → Led → Led
rgbled_write_loop [] s = s
rgbled_write_loop (b ∷ buf) s = rgbled_write_loop buf (record { ledval = b; led_dev = b })

unfoldable pub rgbled_write : List ℕ → Led → Ret × Led
rgbled_write buf s = (val (length buf), rgbled_write_loop buf s)

unfoldable pub rgbled_read : ℕ → Led → Ret × List ℕ
rgbled_read count s = (val count, replicate count (s.ledval % 256))

unfoldable pub rgbled_close : Led → Ret × Led
rgbled_close s = (val 0, s)

write_loop-last :
    (buf : List ℕ) (b : ℕ) (s : Led)
    → rgbled_write_loop (buf ++ (b ∷ [])) s ≡ record { ledval = b; led_dev = b }
unfolding rgbled_write_loop
write_loop-last [] b s = refl
write_loop-last (x ∷ buf) b s = write_loop-last buf b (record { ledval = x; led_dev = x })

-- After a write that ends in the byte `b`, the LED shows `b` and a read gives `b` as often as it is
-- asked; an empty write changes nothing.
pub rgbled_read-rgbled_write :
    (buf : List ℕ) (b count : ℕ) (s : Led)
    → b < 256
    → let (r, s') = rgbled_write (buf ++ (b ∷ [])) s in
      (r ≡ val (length buf + 1))
      × (s'.led_dev ≡ b)
      × (rgbled_read count s' ≡ (val count, replicate count b))
      × (rgbled_write [] s ≡ (val 0, s))
unfolding rgbled_write rgbled_read rgbled_write_loop
rgbled_read-rgbled_write buf b count s h =
    rw (write_loop-last buf b s, length-append buf (b ∷ []))
      (refl, refl, ap (λ x. (val count, replicate count x)) (omega arith), refl)
