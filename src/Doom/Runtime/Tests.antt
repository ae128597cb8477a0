-- ===== src/Doom/Runtime/Tests.antt =====
-- A guest that reads a WAD of four bytes and takes a block of heap.
use rv_o.Base.{◌+◌, ◌≡◌, refl, arith, some, [], ◌∷◌}
use rv_o.Base.Int.{pos}
use rv_o.Doom.Runtime.{
  Host, Runtime, initial, game_wad, open_file, read, free_file, is_wad, valid_fd, sbrk,
}
use rv_o.Doom.Runtime.Errors.{serve, view, serve-fails, reads}
use rv_o.Doom.Runtime.Reads.{read_twice, read-add}
use rv_o.Doom.Runtime.Heap.{IsHeap, Granted, sbrk-Granted}

abbrev host : Host
host = record {
  wad = 73 ∷ 87 ∷ 65 ∷ 68 ∷ [];
  heap_start = 4096;
  heap_end = 8192;
  o_accmode = 3;
  o_rdonly = 0;
  o_creat = 512;
  o_trunc = 1024;
  w_ok = 2;
}

abbrev opened : Runtime
opened = (open_file host initial game_wad 0).1

serve-fails_example : view host (serve host opened (reads (pos 4) 1)).1 ≡ view host opened
unfolding serve read valid_fd open_file is_wad free_file
serve-fails_example = serve-fails host opened (reads (pos 4) 1) refl refl

read-add_example : read_twice host opened (pos 3) 3 2 ≡ read host opened (pos 3) (3 + 2)
unfolding open_file is_wad free_file
read-add_example = read-add host opened (pos 3) 3 2 refl

read_past_end : (read host opened (pos 3) 9).0 ≡ some (73 ∷ 87 ∷ 65 ∷ 68 ∷ [])
unfolding read valid_fd open_file is_wad free_file
read_past_end = refl

sbrk-Granted_example :
    IsHeap host (sbrk host initial (pos 16)).1
    × Granted host initial (pos 16) (sbrk host initial (pos 16))
sbrk-Granted_example =
    sbrk-Granted host initial (pos 16)
      (record { start = omega arith; low = omega arith; high = omega arith })
