-- ===== src/Doom/Runtime.antt =====
-- doom/runtime.c: the C library's host functions for the Doom guest: a bounded heap, a read-only
-- WAD with eight file slots, and console output.
pub mod Errors
pub mod Reads
pub mod Heap
mod Tests
use rv_o.Base.{
  ℕ, zero, suc, ◌+◌, ◌-◌, ◌^◌, Bool, true, false, ◌&&◌, ◌||◌, not, Option, none, some, List, [],
  ◌∷◌, ◌++◌, length, get_or, set, take, drop, replicate, ltb, leb, ◌==◌, if◌then◌else◌, u8, bit_and,
  bit_or, min,
}
use rv_o.Base.Int.{ℤ, pos, negsuc, ◌+ℤ◌}

-- The values that `errno` takes here.
pub data Errno : Type 0 where
  no_error enomem ebadf enoent erofs emfile einval : Errno

-- What the build supplies: the WAD that is linked in, the bounds of the heap, and the flags of
-- `fcntl.h` and `unistd.h`.
pub record Host : Type 0 where
  pub wad : List ℕ
  pub heap_start : ℕ
  pub heap_end : ℕ
  pub o_accmode : ℕ
  pub o_rdonly : ℕ
  pub o_creat : ℕ
  pub o_trunc : ℕ
  pub w_ok : ℕ

pub record File : Type 0 where
  pub used : Bool
  pub position : ℕ

abbrev pub no_file : File
no_file = record { used = false; position = 0 }

abbrev pub max_files : ℕ
max_files = 8

-- The static variables, `errno`, and what went to the console. A `top` of 0 is the null pointer.
pub record Runtime : Type 0 where
  pub top : ℕ
  pub files : List File
  pub errno : Errno
  pub console : List ℕ

abbrev pub initial : Runtime
initial = record { top = 0; files = replicate max_files no_file; errno = no_error; console = [] }

-- A failing call sets `errno` and answers -1, which is `none`.
abbrev pub fail {ℓ} : {A : Type ℓ} → Runtime → Errno → Option A × Runtime
fail s e = (none, record s { errno = e })

-- `sbrk`, with the `int` as an integer.
unfoldable pub sbrk : Host → Runtime → ℤ → Option ℕ × Runtime
sbrk h s (negsuc n) = fail (record s { top = if s.top == 0 then h.heap_start else s.top }) enomem
sbrk h s (pos increment) =
    let top = if s.top == 0 then h.heap_start else s.top in
    if ltb (h.heap_end - top) increment
    then fail (record s { top = top }) enomem
    else (some top, record s { top = top + increment })

abbrev pub file : Runtime → ℕ → File
file s i = get_or s.files i no_file

-- `valid_fd`: the slot of an open descriptor.
unfoldable pub valid_fd : Runtime → ℤ → Option ℕ
valid_fd s (negsuc n) = none
valid_fd s (pos fd) =
    if leb 3 fd && (ltb fd (3 + max_files) && (file s (fd - 3)).used) then some (fd - 3) else none

-- Equality of strings, without their zero byte.
abbrev pub same_bytes : List ℕ → List ℕ → Bool
same_bytes [] [] = true
same_bytes [] (y ∷ ys) = false
same_bytes (x ∷ xs) [] = false
same_bytes (x ∷ xs) (y ∷ ys) = x == y && same_bytes xs ys

abbrev pub game_wad : List ℕ
game_wad = 103 ∷ 97 ∷ 109 ∷ 101 ∷ 46 ∷ 119 ∷ 97 ∷ 100 ∷ []

unfoldable pub is_wad : List ℕ → Bool
is_wad path = same_bytes path game_wad || same_bytes path (46 ∷ 47 ∷ game_wad)

-- The loop of `open` for a free slot, from slot `i` on.
unfoldable pub free_file : List File → ℕ → Option ℕ
free_file [] i = none
free_file (f ∷ fs) i = elim (f.used) [ true ↦ free_file fs (i + 1) | false ↦ some i ]

abbrev pub put_file : Runtime → ℕ → File → Runtime
put_file s i f = record s { files = set s.files i f }

abbrev pub claim_file : Runtime → Option ℕ → Option ℕ × Runtime
claim_file s none = fail s emfile
claim_file s (some i) = (some (i + 3), put_file s i (record { used = true; position = 0 }))

unfoldable pub open_file : Host → Runtime → List ℕ → ℕ → Option ℕ × Runtime
unfolding is_wad free_file
open_file h s path flags =
    if not (is_wad path)
    then fail s enoent
    else if not (bit_and flags h.o_accmode == h.o_rdonly)
        || not (bit_and flags (bit_or h.o_creat h.o_trunc) == 0)
    then fail s erofs
    else claim_file s (free_file s.files 0)

unfoldable pub close : Runtime → ℤ → Option ℕ × Runtime
close s fd = elim (valid_fd s fd) [
  | none ↦ fail s ebadf
  | some i ↦ (some 0, put_file s i (record (file s i) { used = false }))
]

-- `read`: the bytes that it stores in the buffer. Their number is what it returns.
unfoldable pub read : Host → Runtime → ℤ → ℕ → Option (List ℕ) × Runtime
read h s fd count = elim (valid_fd s fd) [
  | none ↦ fail s ebadf
  | some i ↦
      let at = (file s i).position in
      let remaining = if ltb at (length h.wad) then length h.wad - at else 0 in
      let n = if ltb remaining count then remaining else count in
      (some (take n (drop at h.wad)), put_file s i (record (file s i) { position = at + n }))
]

unfoldable pub write : Runtime → ℤ → List ℕ → Option ℕ × Runtime
write s (negsuc n) buffer = fail s erofs
write s (pos fd) buffer =
    if not (fd == 1) && not (fd == 2)
    then fail s erofs
    else (some (length buffer), record s { console = s.console ++ buffer })

pub data Whence : Type 0 where
  seek_set seek_cur seek_end other : Whence

abbrev pub seek_base : Host → File → Whence → Option ℕ
seek_base h f seek_set = some 0
seek_base h f seek_cur = some f.position
seek_base h f seek_end = some (length h.wad)
seek_base h f other = none

-- The last steps of `lseek`, at the position that it computed.
abbrev pub seek_to : Runtime → ℕ → ℤ → Option ℕ × Runtime
seek_to s i (negsuc n) = fail s einval
seek_to s i (pos n) =
    if ltb (2 ^ 31 - 1) n
    then fail s einval
    else (some n, put_file s i (record (file s i) { position = n }))

unfoldable pub lseek : Host → Runtime → ℤ → ℤ → Whence → Option ℕ × Runtime
lseek h s fd offset whence = elim (valid_fd s fd) [
  | none ↦ fail s ebadf
  | some i ↦ elim (seek_base h (file s i) whence) [
    | none ↦ fail s einval
    | some base ↦ seek_to s i (pos base +ℤ offset)
  ]
]

-- `fstat`: the size that it reports; the mode is always a read-only regular file.
unfoldable pub fstat : Host → Runtime → ℤ → Option ℕ × Runtime
fstat h s fd = elim (valid_fd s fd) [ none ↦ fail s ebadf | some i ↦ (some (length h.wad), s) ]

-- `stat` opens the file, asks, and closes it.
unfoldable pub stat : Host → Runtime → List ℕ → Option ℕ × Runtime
unfolding open_file fstat close
stat h s path =
    let (fd, s') = open_file h s path h.o_rdonly in
    elim fd [
      | none ↦ (none, s')
      | some n ↦ let (result, s'') = fstat h s' (pos n) in (result, (close s'' (pos n)).1)
    ]

unfoldable pub access : Host → Runtime → List ℕ → ℕ → Option ℕ × Runtime
access h s path mode =
    if not (is_wad path)
    then fail s enoent
    else if not (bit_and mode h.w_ok == 0)
    then fail s erofs
    else (some 0, s)

-- `mkdir`, `remove` and `rename`
unfoldable pub refuse : Runtime → Option ℕ × Runtime
refuse s = fail s erofs
