-- ===== src/History/Files.antt =====
-- The directory of history.c: the names of its files, the latest one, and which are removed.
pub mod Names
pub mod Rotation
use iot_zephyr_app.Base.{
  ℕ, zero, suc, ◌+◌, ◌-◌, ◌*◌, ◌/◌, ◌%◌, min, max, Bool, true, false, not, ◌&&◌, ◌||◌, Option, none,
  some, List, [], ◌∷◌, ◌++◌, if◌then◌else◌, ltb, ◌==◌, length, take, get_or, set,
}

-- What the file uses of `struct fs_dirent`.
pub record Entry : Type 0 where
  pub is_file : Bool
  pub name : List ℕ

-- What the file uses of `struct tm`, with the month from 0.
pub record Tm : Type 0 where
  pub tm_mon : ℕ
  pub tm_mday : ℕ
  pub tm_hour : ℕ
  pub tm_min : ℕ
  pub tm_sec : ℕ

-- Zephyr's file system, and gmtime_r of the time in UTC+8. A Boolean is whether a call succeeds,
-- `none` an error; `entries` is what fs_readdir gives until it ends, if fs_opendir succeeds.
pub record Fs (W : Type 0) : Type 0 where
  pub entries : W → Option (List Entry)
  pub fs_open : W → List ℕ → Bool → Bool × W
  pub fs_seek_end : W → Bool × W
  pub fs_tell : W → Option ℕ × W
  pub fs_close : W → W
  pub fs_unlink : W → List ℕ → W
  pub fs_write : W → List ℕ → Option ℕ × W
  pub fs_sync : W → W
  pub local_time : W → Option Tm

abbrev pub hist_file_max : ℕ
hist_file_max = 1024 * 1024

abbrev pub hist_max_files : ℕ
hist_max_files = 10

-- The texts "/lfs1", "data_" and ".raw".
abbrev pub hist_dir : List ℕ
hist_dir = 47 ∷ 108 ∷ 102 ∷ 115 ∷ 49 ∷ []

abbrev pub data_prefix : List ℕ
data_prefix = 100 ∷ 97 ∷ 116 ∷ 97 ∷ 95 ∷ []

abbrev pub raw_suffix : List ℕ
raw_suffix = 46 ∷ 114 ∷ 97 ∷ 119 ∷ []

abbrev pub path : List ℕ → List ℕ
path name = hist_dir ++ 47 ∷ name

-- strcmp (a, b) < 0.
pub before : List ℕ → List ℕ → Bool
before [] [] = false
before [] (b ∷ bs) = true
before (a ∷ as_) [] = false
before (a ∷ as_) (b ∷ bs) = let rest = before as_ bs in if a == b then rest else ltb a b

-- strncmp (name, prefix, strlen (prefix)) == 0.
pub starts_with : List ℕ → List ℕ → Bool
starts_with [] name = true
starts_with (p ∷ ps) [] = false
starts_with (p ∷ ps) (c ∷ cs) = p == c && starts_with ps cs

abbrev pub is_history : Entry → Bool
is_history e = e.is_file && starts_with data_prefix e.name

-- The first names that there is room for, each cut to 23 bytes.
pub collect : ℕ → List Entry → List (List ℕ)
collect room [] = []
collect zero (e ∷ es) = []
collect (suc room) (e ∷ es) =
    if is_history e then take 23 e.name ∷ collect room es else collect (suc room) es

-- The index of the least name: the loop, with the names from index `i` on.
pub min_loop : List (List ℕ) → ℕ → ℕ → List ℕ → ℕ
unfolding before
min_loop [] i min_i least = min_i
min_loop (name ∷ names) i min_i least =
    if before name least then min_loop names (i + 1) i name else min_loop names (i + 1) min_i least

pub min_index : List (List ℕ) → ℕ
unfolding min_loop
min_index [] = 0
min_index (name ∷ names) = min_loop names 1 0 name

-- The last name takes the place of the one that is removed.
pub swap_remove : List (List ℕ) → ℕ → List (List ℕ)
swap_remove names i = take (length names - 1) (set names i (get_or names (length names - 1) []))

-- The names that are removed, and those that are left.
pub rotate_out : ℕ → List (List ℕ) → List (List ℕ) × List (List ℕ)
unfolding min_index swap_remove
rotate_out zero names = ([], names)
rotate_out (suc fuel) names =
    let i = min_index names in
    let (removed, kept) = rotate_out fuel (swap_remove names i) in
    if ltb hist_max_files (length names) then (get_or names i [] ∷ removed, kept) else ([], names)

-- The loop's round removes a name, so that there are no more than the surplus.
unfoldable pub rotated : List (List ℕ) → List (List ℕ) × List (List ℕ)
unfolding rotate_out
rotated names = rotate_out (length names - hist_max_files) names

pub latest_loop : List Entry → List ℕ → List ℕ
unfolding before
latest_loop [] latest = latest
latest_loop (e ∷ es) latest =
    latest_loop es (if is_history e && before latest e.name then take 23 e.name else latest)

-- "%02d" of a number below 100.
abbrev pub two_digits : ℕ → List ℕ
two_digits n = (48 + n / 10) ∷ (48 + n % 10) ∷ []

abbrev pub clamp : ℕ → ℕ → ℕ → ℕ
clamp n lo hi = min (max n lo) hi

unfoldable pub make_hist_name : Option Tm → List ℕ
make_hist_name none =
    data_prefix
    ++ (two_digits 1
        ++ two_digits 1
        ++ 95 ∷ two_digits 0
        ++ two_digits 0
        ++ two_digits 0
        ++ raw_suffix)
make_hist_name (some t) =
    data_prefix
    ++ (two_digits (clamp (t.tm_mon + 1) 1 12)
        ++ (two_digits (clamp t.tm_mday 1 31)
            ++ 95
              ∷ (two_digits (clamp t.tm_hour 0 23)
                  ++ (two_digits (clamp t.tm_min 0 59)
                      ++ (two_digits (clamp t.tm_sec 0 59) ++ raw_suffix)))))

module _ {W : Type 0} (fs : Fs W) where
  pub unlink_all : List (List ℕ) → W → W
  unlink_all [] w = w
  unlink_all (name ∷ names) w = unlink_all names (fs.fs_unlink w (path name))

  unfoldable pub cleanup_old_files : W → W
  unfolding collect rotated unlink_all
  cleanup_old_files w = elim (fs.entries w) [
    | none ↦ w
    | some es ↦ unlink_all (rotated (collect (hist_max_files + 2) es)).0 w
  ]

  -- Empty if there is none.
  unfoldable pub latest_file : W → List ℕ
  unfolding latest_loop
  latest_file w = elim (fs.entries w) [ none ↦ [] | some es ↦ latest_loop es [] ]
