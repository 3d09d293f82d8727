-- ===== src/Task/Copy.antt =====
-- Copying a string from a task into the kernel.
use peach_os.Prelude.{ℕ, suc, List, length, drop}
use peach_os.CString.{ended}
use peach_os.KernelHeap.{Ram, read_bytes}
use peach_os.KernelHeap.Alloc.{address, zeroed}
use peach_os.Paging.{map}

module _ (chunk v max a : ℕ) (physical s rest : List ℕ) (ram : Ram) where
  -- The allocation, and the words while it is mapped.
  abbrev tmp : ℕ
  tmp = address ram.heap a

  abbrev fresh : Ram
  fresh = zeroed max a ram

  abbrev pub shared : ℕ → ℕ
  shared = (map fresh.words (fresh.words chunk) tmp tmp 7).1

  abbrev buffer : List ℕ
  buffer = read_bytes max tmp fresh.bytes

  abbrev text : List ℕ
  text = ended s (drop (suc (length s)) buffer)
