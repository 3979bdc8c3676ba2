-- ===== src/Examples/Samples.antt =====
-- A store of two shards that the examples share.
use redistill.Base.{ℕ, refl, Option, none, some, [], ◌∷◌, arith, codes, length}
use redistill.Store.Dash.{without}
use redistill.Store.Assoc.{assoc_map, insert}
use redistill.Store.Entry.{
  HashMaps, Entry, EntryValue, string, hash, Fields, size_of, calculate_entry_size, entry_size,
  add_sizes,
}
use redistill.Store.State.{Env, Store, IsWf, all_keys_lru}
use redistill.Store.Access.{no_queues}
use redistill.Store.Laws.{total_size}
use redistill.Store.Balance.{IsAccounted}

-- A map that is visited as its list is.
abbrev pub in_order : HashMaps
in_order = record {
  order = λ key now map. map;
  order-length = λ key now map. refl;
  order-unique = λ key now map unique. unique;
  order-lookup = λ key now map f unique. refl;
}

abbrev pub here : Env
here = record {
  dash = assoc_map Entry;
  hash_maps = in_order;
  ahash = λ key. length key;
  fastrand = λ n. n;
  start_time = 0;
  config = record { max_memory = 300; eviction_policy = all_keys_lru; eviction_sample_size = 3 };
}

abbrev pub entry_of : EntryValue → Option ℕ → Entry
entry_of value expiry = record {
  value = value;
  expiry = expiry;
  last_accessed = 0;
  queue_type = 0;
  access_count = 0;
}

abbrev pub user_fields : Fields
user_fields = (codes "f", codes "v") ∷ (codes "g", codes "w") ∷ []

abbrev pub user : EntryValue
user = hash user_fields

-- A hash in one shard, a counter that expires at 50 in the other.
abbrev pub two_keys : Store here
two_keys = record {
  shards =
      insert ([], tt) (codes "ab") (entry_of user none)
      ∷ insert ([], tt) (codes "c") (entry_of (string (codes "41")) (some 50))
      ∷ [];
  s3fifo_queues = no_queues ∷ no_queues ∷ [];
  num_shards = 2;
  memory_used = 265;
  evicted_keys = 0;
  draws = 0;
  clock = 7;
}

pub two_keys-IsWf : IsWf here two_keys
two_keys-IsWf = record { some_shard = omega arith; shard_count = refl; queue_count = refl }

pub two_keys-IsAccounted : IsAccounted here two_keys
unfolding total_size size_of calculate_entry_size entry_size add_sizes without
two_keys-IsAccounted = refl
