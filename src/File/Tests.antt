-- ===== src/File/Tests.antt =====
-- Runs of the table of File, and its theorems at concrete inputs.
use peach_os.Prelude.{ℕ, ◌≡◌, refl, none, some, [], ◌∷◌, ◌++◌, inr, arith, replicate, pos, negsuc}
use peach_os.CString.{strlen, strnlen, is_digit, to_numeric_digit}
use peach_os.Memory.{memcmp}
use peach_os.File.{
  Filesystem, FileDescriptor, Files, free_slot, fs_init, file_new_descriptor, file_get_descriptor,
  fclose, fopen, fread, fseek, fstat,
}
use peach_os.File.Table.{file_new_descriptor-last}
use peach_os.File.Close.{IsIndexed, init, opens, Reachable-IsIndexed, fclose-file_new_descriptor}

-- A filesystem whose open files are their positions in a file of ten bytes.
abbrev ten : Filesystem ℕ Unit
ten = record {
  resolve = λ d. (pos 0, d);
  open_file = λ parts mode. inr 0;
  read = λ p size n. ((pos n, replicate size p), p);
  close = λ p. pos 0;
  seek = λ p offset whence. (pos 0, offset);
  stat = λ p. (pos 0, record { flags = 0; file_size = 10 });
}

abbrev empty : Files ℕ Unit
empty = replicate 512 none

abbrev a_descriptor : FileDescriptor ℕ Unit
a_descriptor = record { index = 1; filesystem = ten; private = 7 }

abbrev one_open : Files ℕ Unit
one_open = (file_new_descriptor ten 7 (fs_init ℕ Unit)).1

abbrev almost_full : Files ℕ Unit
almost_full = replicate 511 (some a_descriptor) ++ none ∷ []

fopen-run :
    fopen (some ten) (b'0' ∷ b':' ∷ b'/' ∷ b'a' ∷ 0 ∷ []) (b'r' ∷ 0 ∷ []) (none ∷ none ∷ [])
    ≡ some (pos 1, some (record { index = 1; filesystem = ten; private = 0 }) ∷ none ∷ [])
unfolding fopen strlen strnlen is_digit memcmp to_numeric_digit
fopen-run = refl

fopen-bad_mode :
    fopen (some ten) (b'0' ∷ b':' ∷ b'/' ∷ b'a' ∷ 0 ∷ []) (b'x' ∷ 0 ∷ []) (none ∷ none ∷ [])
    ≡ some (pos 0, none ∷ none ∷ [])
unfolding fopen strlen strnlen is_digit memcmp to_numeric_digit
fopen-bad_mode = refl

free_slot-empty : free_slot empty ≡ some 0
unfolding free_slot
free_slot-empty = refl

free_slot-almost_full : free_slot almost_full ≡ some 511
unfolding free_slot
free_slot-almost_full = refl

one_open-get : file_get_descriptor (pos 1) one_open ≡ some a_descriptor
unfolding fs_init file_new_descriptor file_get_descriptor
one_open-get = refl

file_new_descriptor-last_example :
    ((file_new_descriptor ten 3 almost_full).0 ≡ pos 512)
    × (file_get_descriptor (pos 512) (file_new_descriptor ten 3 almost_full).1 ≡ none)
    × ((size n : ℕ)
        → fread size n (pos 512) (file_new_descriptor ten 3 almost_full).1
          ≡ ((negsuc 1, []), (file_new_descriptor ten 3 almost_full).1))
    × ((offset whence : ℕ)
        → fseek (pos 512) offset whence (file_new_descriptor ten 3 almost_full).1
          ≡ (negsuc 0, (file_new_descriptor ten 3 almost_full).1))
    × (fstat (pos 512) (file_new_descriptor ten 3 almost_full).1 ≡ (negsuc 0, none))
    × (fclose (pos 512) (file_new_descriptor ten 3 almost_full).1
        ≡ (negsuc 1, (file_new_descriptor ten 3 almost_full).1))
file_new_descriptor-last_example = file_new_descriptor-last ten 3 almost_full free_slot-almost_full

Reachable-IsIndexed_example : IsIndexed one_open
Reachable-IsIndexed_example = Reachable-IsIndexed one_open (opens ten 7 init)

fclose-file_new_descriptor_example :
    fclose (file_new_descriptor ten 7 empty).0 (file_new_descriptor ten 7 empty).1 ≡ (pos 0, empty)
fclose-file_new_descriptor_example =
    fclose-file_new_descriptor ten 7 empty 0 free_slot-empty (omega arith) refl
