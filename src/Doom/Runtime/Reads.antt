-- ===== src/Doom/Runtime/Reads.antt =====
-- Reading the WAD in pieces.
use rv_o.Base.{
  ℕ, zero, suc, ◌+◌, ◌-◌, ◌<◌, ◌≡◌, refl, sym, ap, ap₂, ◌∙◌, arith, Bool-cases, Option-cases,
  if-both, inl, inr, ◌&&◌, Option, none, some, List, [], ◌∷◌, ◌++◌, length, set, take, drop, ltb,
  leb, ◌==◌, if◌then◌else◌, subst, get_or-set_self, get_or-set,
}
use rv_o.Base.Int.{ℤ, pos, negsuc}
use rv_o.Doom.Runtime.{
  Errno, ebadf, fail, Host, File, Runtime, no_file, max_files, file, valid_fd, put_file, read,
}

module _ {A : Type 0} where
  take-nil : (n : ℕ) → take {A = A} n [] ≡ []
  take-nil zero = refl
  take-nil (suc n) = refl

  drop-nil : (n : ℕ) → drop {A = A} n [] ≡ []
  drop-nil zero = refl
  drop-nil (suc n) = refl

  take-append : (xs : List A) (a b : ℕ) → take a xs ++ take b (drop a xs) ≡ take (a + b) xs
  take-append [] a b = rw (take-nil a, drop-nil a, take-nil b, take-nil (a + b)) refl
  take-append (x ∷ xs) zero b = subst (λ n. take b (x ∷ xs) ≡ take n (x ∷ xs)) (omega arith) refl
  take-append (x ∷ xs) (suc a) b =
      let sum : suc (a + b) ≡ suc a + b = omega arith in
      ap (◌∷◌ x) (take-append xs a b) ∙ ap (λ n. take n (x ∷ xs)) sum

  drop-drop : (xs : List A) (a b : ℕ) → drop b (drop a xs) ≡ drop (a + b) xs
  drop-drop [] a b = rw (drop-nil a, drop-nil b, drop-nil (a + b)) refl
  drop-drop (x ∷ xs) zero b = subst (λ n. drop b (x ∷ xs) ≡ drop n (x ∷ xs)) (omega arith) refl
  drop-drop (x ∷ xs) (suc a) b =
      let sum : suc (a + b) ≡ suc a + b = omega arith in
      drop-drop xs a b ∙ ap (λ n. drop n (x ∷ xs)) sum

  set-set : (xs : List A) (i : ℕ) (v w : A) → set (set xs i v) i w ≡ set xs i w
  set-set [] i v w = refl
  set-set (x ∷ xs) zero v w = refl
  set-set (x ∷ xs) (suc i) v w = ap (◌∷◌ x) (set-set xs i v w)

-- How many bytes a read at position `at` gets.
abbrev granted : Host → ℕ → ℕ → ℕ
granted h at count =
    let remaining = if ltb at (length h.wad) then length h.wad - at else 0 in
    if ltb remaining count then remaining else count

granted-add :
    (h : Host) (at m n : ℕ)
    → granted h at m + granted h (at + granted h at m) n ≡ granted h at (m + n)
granted-add h at m n = ground arith

abbrev after_read : Host → Runtime → ℕ → ℕ → Option (List ℕ) × Runtime
after_read h s i count =
    let at = (file s i).position in
    let n = granted h at count in
    (some (take n (drop at h.wad)), put_file s i (record (file s i) { position = at + n }))

read-valid :
    (h : Host) (s : Runtime) (fd : ℤ) (i count : ℕ)
    → valid_fd s fd ≡ some i
    → read h s fd count ≡ after_read h s i count
unfolding read
read-valid h s fd i count v = rw (v, read) refl

abbrev moved : Runtime → ℕ → ℕ → Runtime
moved s i q = put_file s i (record (file s i) { position = q })

moved-used : (s : Runtime) (i q j : ℕ) → (file (moved s i q) j).used ≡ (file s j).used
moved-used s i q j =
    let new = record (file s i) { position = q } in
    rw (get_or-set s.files i j new no_file) (elim (Bool-cases (i == j)) [
      | inl e ↦
          let at : i ≡ j = ground (arith, e) in
          if-both (λ (f : File). f.used ≡ (file s j).used) (i == j && ltb i (length s.files)) new
            (file s j) (λ _. ap (λ k. (file s k).used) at) (λ _. refl)
      | inr e ↦
          if-both (λ (f : File). f.used ≡ (file s j).used) (i == j && ltb i (length s.files)) new
            (file s j) (λ both. absurd (ground (arith, e, both))) (λ _. refl)
    ])

-- A move opens and closes nothing.
moved-valid : (s : Runtime) (i q : ℕ) (fd : ℤ) → valid_fd (moved s i q) fd ≡ valid_fd s fd
unfolding valid_fd
moved-valid s i q (negsuc n) = refl
moved-valid s i q (pos k) =
    ap (λ u. if leb 3 k && (ltb k (3 + max_files) && u) then some (k - 3) else none)
      (moved-used s i q (k - 3))

valid-slot : (s : Runtime) (fd : ℤ) (i : ℕ) → valid_fd s fd ≡ some i → i < max_files
unfolding valid_fd
valid-slot s (negsuc n) i e = absurd (ground (arith, e))
valid-slot s (pos k) i e = ground (arith, e)

file-moved :
    (s : Runtime) (i q : ℕ)
    → i < length s.files
    → file (moved s i q) i ≡ record (file s i) { position = q }
file-moved s i q h = get_or-set_self s.files i (record (file s i) { position = q }) no_file h

-- Two moves are the second.
moved-moved : (s : Runtime) (i q r : ℕ) → i < length s.files → moved (moved s i q) i r ≡ moved s i r
moved-moved s i q r h =
    ap (λ (f : File). put_file (moved s i q) i (record f { position = r })) (file-moved s i q h)
    ∙ ap (λ fs. record s { files = fs }) (set-set s.files i _ _)

abbrev joined : Option (List ℕ) → Option (List ℕ) → Option (List ℕ)
joined (some x) (some y) = some (x ++ y)
joined (some x) none = none
joined none y = none

-- Two reads, one after the other.
abbrev pub read_twice : Host → Runtime → ℤ → ℕ → ℕ → Option (List ℕ) × Runtime
read_twice h s fd m n =
    let (x, s') = read h s fd m in let (y, s'') = read h s' fd n in (joined x y, s'')

read_twice-valid :
    (h : Host) (s : Runtime) (fd : ℤ) (i m n : ℕ)
    → valid_fd s fd ≡ some i
    → i < length s.files
    → read_twice h s fd m n ≡ after_read h s i (m + n)
read_twice-valid h s fd i m n v l =
    let at = (file s i).position in
    let g = granted h at m in
    let g' = granted h (at + g) n in
    let s' = moved s i (at + g) in
    let second : Option (List ℕ) × Runtime → Option (List ℕ) × Runtime =
      λ (x, s'). let (y, s'') = read h s' fd n in (joined x y, s'') in
    let third : Option (List ℕ) × Runtime → Option (List ℕ) × Runtime =
      λ (y, s''). (joined (some (take g (drop at h.wad))) y, s'') in
    let from : File → Option (List ℕ) × Runtime = λ f.
      let k = granted h f.position n in
      (
        some (take g (drop at h.wad) ++ take k (drop f.position h.wad)),
        put_file s' i (record f { position = f.position + k }),
      ) in
    let total : g + g' ≡ granted h at (m + n) = granted-add h at m n in
    let same_place : at + g + g' ≡ at + granted h at (m + n) = omega (arith, total) in
    ap second (read-valid h s fd i m v)
    ∙ ap third (read-valid h s' fd i n (moved-valid s i (at + g) fd ∙ v))
    ∙ ap from (file-moved s i (at + g) l)
    ∙ ap₂ (λ x z. (some x, z))
        (ap (λ xs. take g (drop at h.wad) ++ take g' xs) (sym (drop-drop h.wad at g))
          ∙ take-append (drop at h.wad) g g'
          ∙ ap (λ k. take k (drop at h.wad)) total)
        (ap (λ fs. record s { files = fs }) (set-set s.files i _ _) ∙ ap (moved s i) same_place)

read-invalid :
    (h : Host) (s : Runtime) (fd : ℤ) (count : ℕ)
    → valid_fd s fd ≡ none
    → read h s fd count ≡ fail s ebadf
unfolding read
read-invalid h s fd count v = rw (v, read) refl

errno-valid :
    (s : Runtime) (e : Errno) (fd : ℤ) → valid_fd (record s { errno = e }) fd ≡ valid_fd s fd
unfolding valid_fd
errno-valid s e (negsuc n) = refl
errno-valid s e (pos k) = refl

-- Reading `m` bytes and then `n` is reading `m + n`: the same bytes, or the same error, and the
-- same state after it, at the end of the WAD as well. It supposes the eight file slots.
pub read-add :
    (h : Host) (s : Runtime) (fd : ℤ) (m n : ℕ)
    → length s.files ≡ max_files
    → read_twice h s fd m n ≡ read h s fd (m + n)
read-add h s fd m n l = elim (Option-cases (valid_fd s fd)) [
  | inl v ↦
      let again : Option (List ℕ) × Runtime → Option (List ℕ) × Runtime =
        λ (x, s'). let (y, s'') = read h s' fd n in (joined x y, s'') in
      ap again (read-invalid h s fd m v)
      ∙ ap (λ (r : Option (List ℕ) × Runtime). (joined none r.0, r.1))
          (read-invalid h (record s { errno = ebadf }) fd n (errno-valid s ebadf fd ∙ v))
      ∙ sym (read-invalid h s fd (m + n) v)
  | inr (i, v) ↦
      read_twice-valid h s fd i m n v (omega (arith, l, valid-slot s fd i v))
      ∙ sym (read-valid h s fd i (m + n) v)
]
