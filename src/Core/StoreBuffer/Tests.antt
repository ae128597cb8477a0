-- ===== src/Core/StoreBuffer/Tests.antt =====
-- A store that commits, goes out, is acknowledged and leaves.
use rv_o.Base.{◌≤◌, ◌≡◌, refl, arith, some}
use rv_o.Core.Ring
use rv_o.Core.Ring.{Ring}
use rv_o.Core.Ring.Contents.{contents}
use rv_o.Core.StoreBuffer.{
  StoreBufEntry, fresh, StoreBuffer, make, next_to_issue, put_nth, issue, store_request, retire,
  send, acknowledge, pop_acked,
}
use rv_o.Core.StoreBuffer.Issued.{
  IsOrdered, Reached, start, retires, sends, acknowledges, pops, Reached-IsOrdered,
}
use rv_o.Core.StoreBuffer.Drain.{from_unacked, pop_acked-contents}

abbrev new : StoreBufEntry
new = record fresh { addr = 64; size = 4; data_word = 7 }

abbrev held : StoreBuffer
held = record (make 2) { ring = Ring.push fresh (make 2).ring new }

retired : retire (make 2) 64 4 7 ≡ some held
unfolding retire make Ring.full Ring.make
retired = refl

abbrev out : StoreBuffer
out = issue (put_nth held 0 (record new { txn = 3 }))

sent : send held 3 ≡ some (store_request held new 3, out)
unfolding send next_to_issue make issue Ring.make Ring.push Ring.alloc Ring.put Ring.nth Ring.at
    Ring.index_of
sent = refl

run : Reached (acknowledge out 0 3)
run =
    acknowledges 0 3
      (sends 3 (store_request held new 3)
        (retires 64 4 7 (start 2 (omega arith) (omega arith)) retired) sent)
      (omega arith)

Reached-IsOrdered_example : IsOrdered (pop_acked 1 (acknowledge out 0 3))
Reached-IsOrdered_example = Reached-IsOrdered (pops 1 run)

one_left : (acknowledge out 0 3).ring.n ≤ 1
unfolding acknowledge issue make Ring.make Ring.push Ring.alloc Ring.put Ring.nth Ring.at
    Ring.index_of Ring.live
one_left = omega arith

pop_acked-contents_example :
    contents fresh (pop_acked 1 (acknowledge out 0 3)).ring
    ≡ from_unacked (contents fresh (acknowledge out 0 3).ring)
pop_acked-contents_example =
    pop_acked-contents 1 (acknowledge out 0 3) (Reached-IsOrdered run).ring one_left
