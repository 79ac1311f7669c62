-- ===== src/Sstf/Tests.antt =====
-- The elevator on concrete queues.
use mathlib.Core.List.{Perm}
use cs.Common.{ℕ, ◌≡◌, ◌⊎◌, none, some, List, [], ◌∷◌, arith}
use cs.Sstf.{Request, SstfData, Direction, next, add_request, dispatch}
use cs.Sstf.Insert.{IsSorted, insert, add_request_lem}
use cs.Sstf.Dispatch.{Nearest, dispatch_lem}
use cs.Sstf.Sweep.{drain, drain-sweep}

abbrev at : ℕ → Request
at n = record { id = n; pos = n }

abbrev three : SstfData
three = record { direction = next; prevsec = 30; queue = at 10 ∷ at 40 ∷ at 70 ∷ [] }

three-IsSorted : IsSorted three.queue
three-IsSorted = ((omega arith, (omega arith, tt)), ((omega arith, tt), (tt, tt)))

add_request_lem_example :
    (add_request three (at 50) ≡ record three { queue = insert (at 50) three.queue })
    × IsSorted (add_request three (at 50)).queue
    × Perm (add_request three (at 50)).queue (at 50 ∷ three.queue)
add_request_lem_example = add_request_lem three (at 50) three-IsSorted

dispatch_lem_example :
    ((three.queue ≡ []) × (dispatch three ≡ (three, none)))
    ⊎ ((rq : Request) × (d : Direction) × (rest : List Request) × (dispatch three
          ≡ (record { direction = d; prevsec = rq.pos; queue = rest }, some rq))
        × Perm three.queue (rq ∷ rest)
        × Nearest three.direction three.prevsec three.queue d rq)
dispatch_lem_example = dispatch_lem three three-IsSorted

drain-sweep_example :
    drain 3 (record { direction = next; prevsec = 30; queue = at 10 ∷ at 40 ∷ at 70 ∷ [] })
    ≡ at 40 ∷ at 70 ∷ at 10 ∷ []
drain-sweep_example =
    drain-sweep 30 (at 10 ∷ []) (at 40 ∷ at 70 ∷ []) (tt, tt) (omega arith, tt)
      ((omega arith, tt), (tt, tt)) (omega arith, (omega arith, tt))
