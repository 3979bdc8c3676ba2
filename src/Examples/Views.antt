-- ===== src/Examples/Views.antt =====
-- The result on the store as a map, applied to a small store.
use redistill.Base.{
  ◌≡◌, refl, some, [], ◌∷◌, arith, codes, none, Bytes, length, ap, ◌%◌, get_or-replicate,
}
use redistill.Store.State
use redistill.Embedded
use redistill.Embedded.{Crates, ShardedStore}
use redistill.Embedded.Steps
use redistill.Embedded.Grouped.{IsWf, delete_each, delete-delete_each}
use redistill.Embedded.Traces.{Alongside, responses-Alongside}
use redistill.Store.State.{find}
use redistill.Store.View.{
  stored, value, Items, item_of, Shows, set_request, get_request, type_request, delete_request,
  exists_request, hset_request, hget_request, hgetall_request, hdel_request,
}
use redistill.Store.View.Traces.{Timed}
use redistill.Server.Link.Stale.{stamped, answers-stamped}
use redistill.Commands.Visible.{response, on_store, answers}
use redistill.Store.View.Meaning.{absent}
use redistill.Examples.Snapshots.{emptied}
use redistill.Examples.Samples.{here, two_keys, two_keys-IsWf, user_fields}

abbrev shown : Items
shown j = item_of (find here two_keys j)

two_keys-Shows : Shows here 10 two_keys shown
two_keys-Shows = record { wf = two_keys-IsWf; same = λ j later h. refl }

-- The counter `c` expires at 50.
abbrev requests : Timed
requests =
    (get_request (codes "c"), 10)
    ∷ (set_request (codes "d") (codes "1") (some 5), 20)
    ∷ (exists_request (codes "c" ∷ codes "d" ∷ []), 30)
    ∷ (delete_request (codes "ab" ∷ codes "ab" ∷ []), 40)
    ∷ (hdel_request (codes "e") (codes "f" ∷ []), 45)
    ∷ (hset_request (codes "c") user_fields, 60)
    ∷ (hget_request (codes "c") (codes "g"), 60)
    ∷ (hdel_request (codes "c") (codes "f" ∷ codes "g" ∷ []), 70)
    ∷ (hgetall_request (codes "c"), 70)
    ∷ (type_request (codes "c"), 70)
    ∷ []

abbrev crates : Crates
crates = record { dash = here.dash; hash_maps = here.hash_maps; ahash = here.ahash }

abbrev embedded : ShardedStore crates
embedded = record { shards = two_keys.shards; num_shards = 2 }

embedded-IsWf : IsWf crates embedded
embedded-IsWf = record { some_shard = omega arith; shard_count = refl }

emptied-IsWf : State.IsWf here emptied
emptied-IsWf = record { some_shard = omega arith; shard_count = refl; queue_count = refl }

emptied-find : (key : Bytes) → find here emptied key ≡ none
unfolding State.find State.shard_of State.hash
emptied-find key =
    ap (λ shard. here.dash.get shard key) (get_or-replicate 2 (length key % 2) ([], tt))

emptied-Shows : Shows here 0 emptied (λ key. none)
emptied-Shows = record { wf = emptied-IsWf; same = λ j later h. rw (emptied-find j) }

abbrev bare : ShardedStore crates
bare = record { shards = emptied.shards; num_shards = 2 }

bare-IsWf : IsWf crates bare
bare-IsWf = record { some_shard = omega arith; shard_count = refl }

bare-Shows : Steps.Shows crates 0 bare (λ key. none)
unfolding Embedded.find Embedded.shard_of Embedded.shard_index State.find State.shard_of State.hash
bare-Shows = record { wf = bare-IsWf; same = λ j later h. rw (emptied-find j) }

responses-Alongside_example : Alongside crates here requests (λ key. none) bare emptied
responses-Alongside_example =
    responses-Alongside crates here 0 bare emptied (λ key. none) (λ key. none) requests bare-Shows
      emptied-Shows (λ key. absent) (omega arith)

delete-delete_each_example :
    Embedded.delete crates embedded (codes "ab" ∷ codes "c" ∷ codes "ab" ∷ [])
    ≡ delete_each crates embedded (codes "ab" ∷ codes "c" ∷ codes "ab" ∷ [])
delete-delete_each_example =
    delete-delete_each crates embedded (codes "ab" ∷ codes "c" ∷ codes "ab" ∷ []) embedded-IsWf

-- A client connects at 10 and waits for 20 seconds; its SET with EX 5 is gone at once.
answers-stamped_example :
    answers here two_keys (
      stamped 10 (
        (on_store (set_request (codes "d") (codes "1") (some 5)), 30)
        ∷ (on_store (get_request (codes "d")), 30)
        ∷ []))
    ≡ response stored ∷ response (value none) ∷ []
answers-stamped_example =
    answers-stamped here two_keys shown (codes "d") (codes "1") 10 5 30 30 two_keys-Shows
      (omega arith) (omega arith)
