-- ===== src/Examples/Pool.antt =====
-- A memory pool of three transactions.
use didem.Base.{zero, suc, ◌<◌, ◌+◌, Bool, List, [], ◌∷◌, length, if◌then◌else◌, ok, ◌≡◌, arith}
use didem.Tx.{pos, negsuc, Tx}
use didem.Examples.Objects.{a_tx}
use didem.Pool.{add_tx}
use didem.Pool.Order.{count}
use didem.Pool.Up.{IsHeap}
use didem.Pool.Laws.{add_tx-IsHeap}
use didem.Pool.Drain.{drain, IsSorted, drain-IsSorted}

abbrev early : Tx
early = record a_tx { ts = negsuc 3 }

abbrev late : Tx
late = record a_tx { ts = pos 90 }

abbrev three : List Tx
three = early ∷ late ∷ a_tx ∷ []

three-IsHeap : IsHeap three
three-IsHeap zero h k = absurd (omega arith)
three-IsHeap (suc zero) h k = ground arith
three-IsHeap (suc (suc zero)) h k = ground arith
three-IsHeap (suc (suc (suc n))) h k = absurd (omega arith)

three_full : 0 < length three
three_full = ground arith

add_tx-IsHeap_example :
    (l' : List Tx) × (add_tx early (pos 0) three ≡ (ok tt, l'))
    × IsHeap l'
    × ((p : Tx → Bool) → count p l' ≡ count p three + (if p early then 1 else 0))
add_tx-IsHeap_example = add_tx-IsHeap early (pos 0) three three-IsHeap

drain-IsSorted_example :
    IsSorted (drain 3 three) × ((p : Tx → Bool) → count p (drain 3 three) ≡ count p three)
drain-IsSorted_example = drain-IsSorted three three-IsHeap
