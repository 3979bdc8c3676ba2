-- ===== src/Examples/Runs.antt =====
-- The results on sequences of commands and on FLUSHDB, applied to a small store.
use redistill.Base.{◌^◌, ◌<◌, ◌≡◌, refl, [], ◌∷◌, arith, Bytes, codes, List}
use redistill.Store.Entry.{size_of, calculate_entry_size, entry_size, add_sizes}
use redistill.Store.Dash.{without}
use redistill.Store.State.{Store, IsWf}
use redistill.Store.Laws.{total_size}
use redistill.Store.Balance.{IsAccounted}
use redistill.Store.Strings.{delete}
use redistill.Commands.Set.{handle_set}
use redistill.Commands.Run.{Run, start, then_step, set_step, del_step, Run-IsAccounted}
use redistill.Commands.Flush.{flush, expired_of, size_by, flush_leaks}
use redistill.Examples.Samples.{here, two_keys, two_keys-IsWf, two_keys-IsAccounted}

abbrev args : List Bytes
args = codes "SET" ∷ codes "c" ∷ codes "8" ∷ codes "EX" ∷ codes "5" ∷ []

abbrev after_set : Store here
after_set = (handle_set here two_keys args [] 10).1

abbrev after_del : Store here
after_del = (delete here after_set (codes "ab" ∷ []) 12).1

set_then_del : Run here two_keys after_del
set_then_del = then_step (then_step start (set_step args [] 10)) (del_step (codes "ab" ∷ []) 12)

run_example : IsWf here after_del × IsAccounted here after_del
run_example = Run-IsAccounted here refl set_then_del two_keys-IsWf two_keys-IsAccounted

-- At 60 the counter has expired, and nothing has removed it.
abbrev at_60 : Store here
at_60 = record two_keys { clock = 60 }

at_60-exact : at_60.memory_used ≡ total_size here at_60
unfolding total_size size_of calculate_entry_size entry_size add_sizes without
at_60-exact = refl

at_60-small : total_size here at_60 < 2 ^ 64
unfolding total_size size_of calculate_entry_size entry_size add_sizes without
at_60-small = omega arith

flush_leaks_example :
    (flush here at_60 []).1.memory_used ≡ size_by here (expired_of 60) at_60.shards
flush_leaks_example = flush_leaks here at_60 [] at_60-exact at_60-small
