-- ===== src/Examples/Fields.antt =====
-- The results on hashes, each applied to a small store.
use redistill.Base.{
  ◌+◌, ◌%◌, ◌^◌, ◌<◌, ◌≡◌, refl, true, false, none, some, List, [], ◌∷◌, arith, Bytes, codes, beq,
}
use redistill.Store.Entry.{is_expired, field_get, field_remove}
use redistill.Store.State
use redistill.Store.State.{Env, Store, IsWf, EvictionPolicy, all_keys_lru, find, shard_of}
use redistill.Store.Laws.{total_size}
use redistill.Store.Hashes.{hdel, remove_fields, is_empty}
use redistill.Store.Hashes.Shrink.{hdel_leaks, fields_size}
use redistill.Examples.Samples.{
  here, two_keys, two_keys-IsWf, two_keys-IsAccounted, user, user_fields, entry_of,
}

found_user : find here two_keys (codes "ab") ≡ some (entry_of user none)
unfolding find shard_of State.hash beq
found_user = refl

abbrev both : List Bytes
both = codes "f" ∷ codes "g" ∷ []

some_removed : 0 < (remove_fields both user_fields 0).0
unfolding remove_fields field_get field_remove beq
some_removed = omega arith

none_left : is_empty (remove_fields both user_fields 0).1 ≡ true
unfolding is_empty remove_fields field_get field_remove beq
none_left = refl

never_expires : is_expired 10 none ≡ false
unfolding is_expired
never_expires = refl

hdel_leaks_example :
    (find here (hdel here two_keys (codes "ab") both 10).1 (codes "ab") ≡ none)
    × ((hdel here two_keys (codes "ab") both 10).1.memory_used % 2 ^ 64
        ≡ (total_size here (hdel here two_keys (codes "ab") both 10).1 + fields_size user_fields)
          % 2 ^ 64)
hdel_leaks_example =
    hdel_leaks here refl two_keys (codes "ab") both 10 (entry_of user none) user_fields
      two_keys-IsWf found_user never_expires refl some_removed none_left two_keys-IsAccounted
