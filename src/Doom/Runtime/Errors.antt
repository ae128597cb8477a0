-- ===== src/Doom/Runtime/Errors.antt =====
-- doom/runtime.c: what a failing call leaves behind.
use rv_o.Base.{
  ℕ, ◌+◌, ◌-◌, ◌<◌, ◌≡◌, ◌∙◌, sym, subst, [], ◌∷◌, get_or-set_self, Bool-cases, inl, inr,
  some_injective, refl, ap, arith, if-both, Bool, true, false, ◌||◌, not, Option, none, some, List,
  length, ltb, ◌==◌, if◌then◌else◌, bit_and, bit_or,
}
use rv_o.Base.Int.{ℤ, pos, negsuc, ◌+ℤ◌}
use rv_o.Doom.Runtime.{
  Errno, ebadf, emfile, enoent, erofs, einval, Host, File, Runtime, fail, sbrk, file, valid_fd,
  is_wad, free_file, claim_file, open_file, close, read, write, Whence, seek_base, seek_to, lseek,
  fstat, stat, access, refuse, no_file, max_files, put_file,
}

-- The calls of the guest. A path is the list of its bytes.
pub data Call : Type 0 where
  sbrks : ℤ → Call
  opens : List ℕ → ℕ → Call
  closes : ℤ → Call
  reads : ℤ → ℕ → Call
  writes : ℤ → List ℕ → Call
  seeks : ℤ → ℤ → Whence → Call
  fstats : ℤ → Call
  stats : List ℕ → Call
  accesses : List ℕ → ℕ → Call
  refuses : Call

-- The rest of `stat`, after its `open`.
abbrev stat_of : Host → Option ℕ × Runtime → Option ℕ × Runtime
stat_of h (none, s) = (none, s)
stat_of h (some n, s) = let (result, s') = fstat h s (pos n) in (result, (close s' (pos n)).1)

abbrev done {ℓ} : {A : Type ℓ} → Option A × Runtime → Bool × Runtime
done (none, s) = (false, s)
done (some _, s) = (true, s)

-- Does the call succeed, and the state after it.
unfoldable pub serve : Host → Runtime → Call → Bool × Runtime
serve h s (sbrks n) = done (sbrk h s n)
serve h s (opens path flags) = done (open_file h s path flags)
serve h s (closes fd) = done (close s fd)
serve h s (reads fd n) = done (read h s fd n)
serve h s (writes fd buffer) = done (write s fd buffer)
serve h s (seeks fd offset whence) = done (lseek h s fd offset whence)
serve h s (fstats fd) = done (fstat h s fd)
serve h s (stats path) = done (stat h s path)
serve h s (accesses path mode) = done (access h s path mode)
serve h s refuses = done (refuse s)

-- What the guest can observe besides `errno`: the end of the heap, the files and the console.
pub record View : Type 0 where
  pub heap : ℕ
  pub files : List File
  pub console : List ℕ

abbrev pub view : Host → Runtime → View
view h s = record {
  heap = if s.top == 0 then h.heap_start else s.top;
  files = s.files;
  console = s.console;
}

free_file-lt : (fs : List File) (k i : ℕ) → free_file fs k ≡ some i → i < k + length fs
unfolding free_file
free_file-lt [] k i e = absurd (ground (arith, e))
free_file-lt (f ∷ fs) k i e = elim (Bool-cases f.used) [
  | inl u ↦
      let rest = free_file-lt fs (k + 1) i (sym (ap (free_step f fs k) u) ∙ e) in
      omega (arith, rest)
  | inr u ↦
      let here : some k ≡ some i = sym (ap (free_step f fs k) u) ∙ e in
      ground (arith, some_injective here)
]
  where
    free_step : File → List File → ℕ → Bool → Option ℕ
    free_step f fs k b = elim b [ true ↦ free_file fs (k + 1) | false ↦ some k ]

-- A failing answer goes with an unchanged view.
record Keeps {A : Type 0} (h : Host) (s : Runtime) (r : Option A × Runtime) : Type 0 where
  kept : (done r).0 ≡ false → view h (done r).1 ≡ view h s

module _ {A : Type 0} (h : Host) (s : Runtime) where
  succeeds-Keeps : (s' : Runtime) (a : A) → Keeps h s (some a, s')
  succeeds-Keeps s' a = record { kept = λ e. absurd (ground (arith, e)) }

  fail-Keeps : (e : Errno) → Keeps {A = A} h s (fail s e)
  fail-Keeps e = record { kept = λ _. refl }

  valid-Keeps :
      (o : Option ℕ) (e : Errno) (f : ℕ → Option A × Runtime)
      → ((i : ℕ) → Keeps h s (f i))
      → Keeps {A = A} h s (elim o [ none ↦ fail s e | some i ↦ f i ])
  valid-Keeps none e f k = fail-Keeps e
  valid-Keeps (some i) e f k = k i

  guard-Keeps :
      (c : Bool) (e : Errno) (r : Option A × Runtime)
      → Keeps h s r
      → Keeps {A = A} h s (if c then fail s e else r)
  guard-Keeps true e r k = fail-Keeps e
  guard-Keeps false e r k = k

module _ (h : Host) (s : Runtime) where
  view-top :
      (n : ℕ)
      → view h (record s { top = if n == 0 then h.heap_start else n })
        ≡ record (view h s) { heap = if n == 0 then h.heap_start else n }
  view-top n =
      ap (λ t. record (view h s) { heap = t })
        (if-both (λ t. (if t == 0 then h.heap_start else t) ≡ t) (n == 0) h.heap_start n
          (λ _. if-both (λ t. t ≡ h.heap_start) (h.heap_start == 0) _ _ (λ _. refl) (λ _. refl))
          (λ e. ap (λ b. if b then h.heap_start else n) e))

  sbrk-Keeps : (n : ℤ) → Keeps h s (sbrk h s n)
  unfolding sbrk
  sbrk-Keeps (negsuc n) = record { kept = λ _. view-top s.top }
  sbrk-Keeps (pos n) =
      let top = if s.top == 0 then h.heap_start else s.top in
      if-both (Keeps {A = ℕ} h s) (ltb (h.heap_end - top) n) _ _
        (λ _. record { kept = λ _. view-top s.top }) (λ _. succeeds-Keeps h s _ top)

  claim_file-Keeps : (o : Option ℕ) → Keeps h s (claim_file s o)
  claim_file-Keeps none = fail-Keeps h s emfile
  claim_file-Keeps (some i) = succeeds-Keeps h s _ (i + 3)

  open-Keeps : (path : List ℕ) (flags : ℕ) → Keeps h s (open_file h s path flags)
  unfolding open_file
  open-Keeps path flags = guard-Keeps h s (not (is_wad path)) enoent _ (
      guard-Keeps h s
        (not (bit_and flags h.o_accmode == h.o_rdonly)
          || not (bit_and flags (bit_or h.o_creat h.o_trunc) == 0))
        erofs _ (claim_file-Keeps (free_file s.files 0)))

  close-Keeps : (fd : ℤ) → Keeps h s (close s fd)
  unfolding close
  close-Keeps fd = valid-Keeps h s (valid_fd s fd) _ _ (λ i. succeeds-Keeps h s _ 0)

  read-Keeps : (fd : ℤ) (n : ℕ) → Keeps h s (read h s fd n)
  unfolding read
  read-Keeps fd n = valid-Keeps h s (valid_fd s fd) _ _ (λ i. succeeds-Keeps h s _ _)

  write-Keeps : (fd : ℤ) (buffer : List ℕ) → Keeps h s (write s fd buffer)
  unfolding write
  write-Keeps (negsuc n) buffer = fail-Keeps h s erofs
  write-Keeps (pos fd) buffer = guard-Keeps h s _ _ _ (succeeds-Keeps h s _ (length buffer))

  seek_to-Keeps : (i : ℕ) (to : ℤ) → Keeps h s (seek_to s i to)
  seek_to-Keeps i (negsuc n) = fail-Keeps h s einval
  seek_to-Keeps i (pos n) = guard-Keeps h s _ _ _ (succeeds-Keeps h s _ n)

  lseek-Keeps : (fd offset : ℤ) (whence : Whence) → Keeps h s (lseek h s fd offset whence)
  unfolding lseek
  lseek-Keeps fd offset whence = valid-Keeps h s (valid_fd s fd) _ _ (λ i.
      valid-Keeps h s (seek_base h (file s i) whence) _ _
        (λ base. seek_to-Keeps i (pos base +ℤ offset)))

  fstat-Keeps : (fd : ℤ) → Keeps h s (fstat h s fd)
  unfolding fstat
  fstat-Keeps fd = valid-Keeps h s (valid_fd s fd) _ _ (λ i. succeeds-Keeps h s s (length h.wad))

  answered-Keeps : (r : Option ℕ) (s' : Runtime) (a : ℕ) → r ≡ some a → Keeps h s (r, s')
  answered-Keeps r s' a e = subst (λ x. Keeps h s (x, s')) (sym e) (succeeds-Keeps h s s' a)

  -- A descriptor that `open` has just given is valid, so the `fstat` of it succeeds.
  stat_claimed-Keeps :
      (o : Option ℕ)
      → ((i : ℕ) → o ≡ some i → i < length s.files)
      → length s.files ≡ max_files
      → Keeps {A = ℕ} h s (stat_of h (claim_file s o))
  stat_claimed-Keeps none b l = fail-Keeps h s emfile
  stat_claimed-Keeps (some i) b l =
      let s1 = put_file s i (record { used = true; position = 0 }) in
      let slot : i + 3 - 3 ≡ i = omega arith in
      let used : (file s1 (i + 3 - 3)).used ≡ true =
        ap (λ k. (file s1 k).used) slot
        ∙ ap (λ (f : File). f.used)
            (get_or-set_self s.files i (record { used = true; position = 0 }) no_file (b i refl)) in
      let valid : valid_fd s1 (pos (i + 3)) ≡ some (i + 3 - 3) =
        unfold valid_fd in ground (arith, used, b i refl, l) in
      answered-Keeps (fstat h s1 (pos (i + 3))).0 _ (length h.wad) (
        unfold fstat in
        ap
          (λ (v : Option ℕ).
            (elim v as (λ _. Option ℕ × Runtime) [
              | none ↦ fail s1 ebadf
              | some k ↦ (some (length h.wad), s1)
            ]).0)
          valid)

  stat-stat_of :
      (path : List ℕ) (r : Option ℕ × Runtime)
      → open_file h s path h.o_rdonly ≡ r
      → stat h s path ≡ stat_of h r
  unfolding stat
  stat-stat_of path (none, s') e = ap rest e
    where
      rest : Option ℕ × Runtime → Option ℕ × Runtime
      rest x = elim x.0 [
        | none ↦ (none, x.1)
        | some n ↦ ((fstat h x.1 (pos n)).0, (close (fstat h x.1 (pos n)).1 (pos n)).1)
      ]
  stat-stat_of path (some n, s') e = ap rest e
    where
      rest : Option ℕ × Runtime → Option ℕ × Runtime
      rest x = elim x.0 [
        | none ↦ (none, x.1)
        | some n ↦ ((fstat h x.1 (pos n)).0, (close (fstat h x.1 (pos n)).1 (pos n)).1)
      ]

  stat-Keeps : (path : List ℕ) → length s.files ≡ max_files → Keeps h s (stat h s path)
  stat-Keeps path l =
      let kept : Option ℕ × Runtime → Type 0 = λ x. Keeps {A = ℕ} h s (stat_of h x) in
      let claimed = claim_file s (free_file s.files 0) in
      let no_write =
        not (bit_and h.o_rdonly h.o_accmode == h.o_rdonly)
        || not (bit_and h.o_rdonly (bit_or h.o_creat h.o_trunc) == 0) in
      let opened : kept (open_file h s path h.o_rdonly) =
        unfold open_file in
        if-both kept (not (is_wad path)) (fail s enoent)
          (if no_write then fail s erofs else claimed) (λ _. fail-Keeps h s enoent)
          (λ _.
            if-both kept no_write (fail s erofs) claimed (λ _. fail-Keeps h s erofs)
              (λ _.
                stat_claimed-Keeps (free_file s.files 0)
                  (λ i e. omega (arith, free_file-lt s.files 0 i e)) l)) in
      subst (Keeps {A = ℕ} h s) (sym (stat-stat_of path (open_file h s path h.o_rdonly) refl))
        opened

  access-Keeps : (path : List ℕ) (mode : ℕ) → Keeps h s (access h s path mode)
  unfolding access
  access-Keeps path mode =
      guard-Keeps h s (not (is_wad path)) enoent _
        (guard-Keeps h s (not (bit_and mode h.w_ok == 0)) erofs _ (succeeds-Keeps h s s 0))

-- A call of `sbrk`, `open`, `close`, `read`, `write`, `lseek`, `fstat`, `stat`, `access`, or of the
-- refused `mkdir`, `remove` and `rename`, that fails, for whatever reason, leaves what the guest can
-- observe as it was: the end of the heap, the file slots with their positions, and the console. Only
-- `errno` may differ. It supposes that there are eight slots.
pub serve-fails :
    (h : Host) (s : Runtime) (c : Call)
    → length s.files ≡ max_files
    → (serve h s c).0 ≡ false
    → view h (serve h s c).1 ≡ view h s
unfolding serve refuse
serve-fails h s (sbrks n) l = (sbrk-Keeps h s n).kept
serve-fails h s (opens path flags) l = (open-Keeps h s path flags).kept
serve-fails h s (closes fd) l = (close-Keeps h s fd).kept
serve-fails h s (reads fd n) l = (read-Keeps h s fd n).kept
serve-fails h s (writes fd buffer) l = (write-Keeps h s fd buffer).kept
serve-fails h s (seeks fd offset whence) l = (lseek-Keeps h s fd offset whence).kept
serve-fails h s (fstats fd) l = (fstat-Keeps h s fd).kept
serve-fails h s (stats path) l = (stat-Keeps h s path l).kept
serve-fails h s (accesses path mode) l = (access-Keeps h s path mode).kept
serve-fails h s refuses l = λ e. refl
