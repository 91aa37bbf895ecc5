-- ===== src/Fs/Handles.antt =====
-- The directory handles: what opening and closing do to the table.
use filestick.Base.{
  ℕ, zero, suc, ◌<◌, ◌≡◌, refl, true, false, none, some, List, [], ◌∷◌, arith, ltb, length,
  get_elem?, get_elem?-lt, get_elem?-none, set, get_elem?-set_self, set-set, enfile, val, err,
}
use filestick.Base.Int.{pos, negsuc}
use filestick.Fs.{FatFs, fr_ok}
use filestick.Fs.Directory.{
  DirHnd, Dirs, max_dhnd, free_handle, sys_opendir, sys_closedir, sys_readdir,
}

module _ {T : Type 0} where
  free_handle-lowest :
      (hs : List (DirHnd T)) (i : ℕ) (h : DirHnd T)
      → get_elem? hs i ≡ some h
      → h.in_use ≡ false
      → ((j : ℕ) (x : DirHnd T) → j < i → get_elem? hs j ≡ some x → x.in_use ≡ true)
      → free_handle hs ≡ some i
  unfolding free_handle
  free_handle-lowest [] i h g f l = absurd (ground arith)
  free_handle-lowest (x ∷ hs) zero h g f l = ground arith
  free_handle-lowest (x ∷ hs) (suc i) h g f l =
      let u : x.in_use ≡ true = l 0 x (omega arith) refl in
      rw (u, free_handle-lowest hs i h g f (λ j y lt q. l (suc j) y (omega arith) q)) refl

  free_handle-none :
      (hs : List (DirHnd T))
      → ((j : ℕ) (x : DirHnd T) → get_elem? hs j ≡ some x → x.in_use ≡ true)
      → free_handle hs ≡ none
  unfolding free_handle
  free_handle-none [] l = refl
  free_handle-none (x ∷ hs) l =
      let u : x.in_use ≡ true = l 0 x refl in
      rw (u, free_handle-none hs (λ j y q. l (suc j) y q)) refl

module _ (fatfs : FatFs) where
  open fatfs use {Disk, Dir}

  -- In the table of eight handles `SYS_opendir` hands out the lowest handle that is not in use, if
  -- FatFs opens the directory; and `SYS_closedir` of that handle, if FatFs closes it, makes it free
  -- again and leaves the others.
  pub sys_closedir-sys_opendir :
      (path : List ℕ) (s : Dirs fatfs) (i : ℕ) (h : DirHnd Dir) (dir dir' : Dir) (disk disk' : Disk)
      → length s.dhnd ≡ max_dhnd
      → get_elem? s.dhnd i ≡ some h
      → h.in_use ≡ false
      → ((j : ℕ) (x : DirHnd Dir) → j < i → get_elem? s.dhnd j ≡ some x → x.in_use ≡ true)
      → fatfs.f_opendir path h.dir s.disk ≡ (fr_ok, dir, disk)
      → fatfs.f_closedir dir disk ≡ (fr_ok, dir', disk')
      → (s' : Dirs fatfs) × (sys_opendir fatfs path s ≡ (val i, s'))
        × (sys_closedir fatfs (pos i) s'
            ≡ some (
              val 0,
              record { dhnd = set s.dhnd i (record { in_use = false; dir = dir' }); disk = disk' },
            ))
  unfolding sys_opendir sys_closedir
  sys_closedir-sys_opendir path s i h dir dir' disk disk' len g f l o c =
      let lt : i < length s.dhnd = get_elem?-lt s.dhnd i g in
      let small : ltb 8 i ≡ false = ground arith in
      let now = get_elem?-set_self s.dhnd i (record { in_use = true; dir = dir }) lt in
      (
        record { dhnd = set s.dhnd i (record { in_use = true; dir = dir }); disk = disk },
        rw (sys_opendir, free_handle-lowest s.dhnd i h g f l, g, o) refl,
        rw (small, now, c, set-set s.dhnd i (record { in_use = true; dir = dir })) refl,
      )

  -- With every handle in use `SYS_opendir` returns ENFILE and changes nothing.
  pub sys_opendir_full :
      (path : List ℕ) (s : Dirs fatfs)
      → ((j : ℕ) (x : DirHnd Dir) → get_elem? s.dhnd j ≡ some x → x.in_use ≡ true)
      → sys_opendir fatfs path s ≡ (err enfile, s)
  unfolding sys_opendir
  sys_opendir_full path s l = rw (sys_opendir, free_handle-none s.dhnd l) refl

  -- `SYS_closedir` and `SYS_readdir` refuse only numbers above 8: the number 8, one past the last
  -- handle, and every negative number lead outside the table.
  pub handles_past_end :
      (s : Dirs fatfs) (n : ℕ)
      → length s.dhnd ≡ max_dhnd
      → (sys_closedir fatfs (pos max_dhnd) s ≡ none)
        × (sys_readdir fatfs (pos max_dhnd) s ≡ none)
        × (sys_closedir fatfs (negsuc n) s ≡ none)
        × (sys_readdir fatfs (negsuc n) s ≡ none)
  unfolding sys_closedir sys_readdir
  handles_past_end s n len =
      let e : get_elem? s.dhnd 8 ≡ none = get_elem?-none s.dhnd 8 (omega arith) in
      (rw e, rw e, refl, refl)
