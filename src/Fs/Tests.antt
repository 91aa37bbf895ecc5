-- ===== src/Fs/Tests.antt =====
-- Tests of the file system calls, over a FatFs whose calls all succeed.
use filestick.Base.{
  ℕ, zero, suc, ◌+◌, ◌-◌, ◌<◌, ◌≡◌, refl, true, false, none, some, [], ◌∷◌, arith, length,
  get_elem?, set, replicate, Ret, val,
}
use filestick.Base.Int.{pos, negsuc}
use filestick.Base.Text.{codes, str_eq}
use filestick.Fd.{Kernel}
use filestick.Fd.Open.{DevOpen, opened, find_device, fd_init, sys_open}
use filestick.Fd.Invariant.{IsValid}
use filestick.Fd.Invariant.Init.{fd_init-IsValid}
use filestick.Fd.Invariant.Opening.{IsFresh}
use filestick.Fs.{FatFs, FilInfo, fr_ok}
use filestick.Fs.Directory.{DirHnd, Dirs, sys_opendir, sys_closedir, sys_readdir}
use filestick.Fs.File.{Files, fileio_open}
use filestick.Fs.Handles.{sys_closedir-sys_opendir, handles_past_end}
use filestick.Fs.Opening.{sys_open-IsFresh}

abbrev readme : FilInfo
readme = record { fname = codes "README"; fsize = 7; is_dir = false; is_read_only = false }

-- A file is its position; a directory is how many entries were read.
abbrev ram_fs : FatFs
ram_fs = record {
  Disk = ℕ;
  Dir = ℕ;
  Fil = ℕ;
  f_mount = λ drv d. (fr_ok, d);
  f_unmount = λ drv d. (fr_ok, d);
  f_opendir = λ path dir d. (fr_ok, 0, d + 1);
  f_closedir = λ dir d. (fr_ok, dir, d - 1);
  f_readdir = λ dir d. (fr_ok, readme, dir + 1, d);
  f_open = λ path mode fil d. (fr_ok, 0, d + 1);
  f_read = λ count fil d. (fr_ok, replicate count 0, fil + count, d);
  f_write = λ bytes fil d. (fr_ok, length bytes, fil + length bytes, d);
  f_close = λ fil d. (fr_ok, fil, d - 1);
  f_lseek = λ at fil d. (fr_ok, at, d);
  f_tell = λ fil. fil;
  f_size = λ fil. 7;
  f_unlink = λ path d. (fr_ok, d);
  f_mkdir = λ path d. (fr_ok, d);
  f_chdir = λ path d. (fr_ok, d);
  f_stat = λ path d. (fr_ok, readme, d);
}

data FsDriver : Type 0 where
  console file : FsDriver

abbrev fs_console : DevOpen FsDriver (Files ram_fs)
fs_console = record { devname = codes "console"; open_device_impl = λ n s. opened console s }

abbrev no_files : Files ram_fs
no_files = record { fhnd = replicate 13 0; disk = 0 }

-- The state after start-up, with what the drivers hold.
abbrev fs_kernel : Kernel FsDriver (Files ram_fs)
fs_kernel = record { fdtable = (fd_init (fs_console ∷ []) no_files).fdtable; dev = no_files }

finds_fs_console : find_device (codes "console") (fs_console ∷ []) ≡ some fs_console
unfolding find_device str_eq
finds_fs_console = refl

fs_kernel-IsValid : IsValid fs_kernel.fdtable
fs_kernel-IsValid =
    (fd_init-IsValid (fs_console ∷ []) fs_console console no_files finds_fs_console (λ n s. refl)).0

sys_open-IsFresh_example :
    (r : Ret) × (k' : Kernel FsDriver (Files ram_fs)) × (sys_open
        (fs_console ∷ [])
        (fileio_open ram_fs file)
        (codes "README")
        0
        fs_kernel
      ≡ some (r, k'))
    × IsValid k'.fdtable
    × ((n : ℕ) → r ≡ val n → (f : ℕ) × IsFresh f fs_kernel.fdtable n k'.fdtable)
sys_open-IsFresh_example =
    sys_open-IsFresh ram_fs file (fs_console ∷ []) (codes "README") 0 fs_kernel fs_kernel-IsValid
      refl

-- Handle 0 is in use.
abbrev dirs : Dirs ram_fs
dirs = record {
  dhnd = record { in_use = true; dir = 3 } ∷ replicate 7 (record { in_use = false; dir = 0 });
  disk = 1;
}

first_in_use : (j : ℕ) (x : DirHnd ℕ) → j < 1 → get_elem? dirs.dhnd j ≡ some x → x.in_use ≡ true
first_in_use zero x l g = ground arith
first_in_use (suc j) x l g = absurd (omega arith)

sys_closedir-sys_opendir_example :
    (s' : Dirs ram_fs) × (sys_opendir ram_fs (codes "/") dirs ≡ (val 1, s'))
    × (sys_closedir ram_fs (pos 1) s'
        ≡ some (
          val 0,
          record { dhnd = set dirs.dhnd 1 (record { in_use = false; dir = 0 }); disk = 1 },
        ))
sys_closedir-sys_opendir_example =
    sys_closedir-sys_opendir ram_fs (codes "/") dirs 1 (record { in_use = false; dir = 0 }) 0 0 2 1
      refl refl refl first_in_use refl refl

-- A table of one handle, which is in use.
abbrev one_dir : Dirs ram_fs
one_dir = record { dhnd = record { in_use = true; dir = 3 } ∷ []; disk = 1 }

one_in_use : (j : ℕ) (x : DirHnd ℕ) → get_elem? one_dir.dhnd j ≡ some x → x.in_use ≡ true
one_in_use zero x g = ground arith
one_in_use (suc j) x g = absurd (ground arith)

handles_past_end_example :
    (sys_closedir ram_fs (pos 8) dirs ≡ none)
    × (sys_readdir ram_fs (pos 8) dirs ≡ none)
    × (sys_closedir ram_fs (negsuc 0) dirs ≡ none)
    × (sys_readdir ram_fs (negsuc 0) dirs ≡ none)
handles_past_end_example = handles_past_end ram_fs dirs 0 refl
