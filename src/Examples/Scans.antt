-- ===== src/Examples/Scans.antt =====
-- The result on SCAN, applied to eleven keys in one shard.
use redistill.Base.{
  ◌↔◌, some, true, ◌≢◌, ◌≡◌, refl, false, none, List, [], ◌∷◌, ◌++◌, arith, Bytes, All, beq, codes,
  some, true, ◌↔◌,
}
use redistill.Store.Dash.{without}
use redistill.Store.Assoc.{Table, insert}
use redistill.Store.Entry.{Entry, string, is_expired}
use redistill.Store.State.{Store}
use redistill.Store.Access.{no_queues}
use redistill.Store.Scan.Glob.{Glob, matches_pattern_iff}
use redistill.Store.Scan.Rounds.{matches_pattern_ends}
use redistill.Store.Scan.{matches_pattern, scan, keys_of, scan_misses}
use redistill.Store.Strings.Lookup.{is_among}
use redistill.Examples.Samples.{here, entry_of}

abbrev kept : Entry
kept = entry_of (string []) none

abbrev fill : List Bytes → Table Entry
fill [] = ([], tt)
fill (key ∷ keys) = insert (fill keys) key kept

abbrev ten : List Bytes
ten =
    codes "a"
    ∷ codes "b"
    ∷ codes "c"
    ∷ codes "d"
    ∷ codes "e"
    ∷ codes "f"
    ∷ codes "g"
    ∷ codes "h"
    ∷ codes "i"
    ∷ codes "j"
    ∷ []

abbrev eleven : Table Entry
eleven = fill (ten ++ codes "k" ∷ [])

abbrev first_ten : List (Bytes × Entry)
first_ten =
    (codes "a", kept)
    ∷ (codes "b", kept)
    ∷ (codes "c", kept)
    ∷ (codes "d", kept)
    ∷ (codes "e", kept)
    ∷ (codes "f", kept)
    ∷ (codes "g", kept)
    ∷ (codes "h", kept)
    ∷ (codes "i", kept)
    ∷ (codes "j", kept)
    ∷ []

eleven-entries : eleven.0 ≡ first_ten ++ (codes "k", kept) ∷ []
unfolding without beq
eleven-entries = refl

none_expired : All (λ y. is_expired 10 y.1.expiry ≡ false) first_ten
unfolding is_expired
none_expired = (refl, (refl, (refl, (refl, (refl, (refl, (refl, (refl, (refl, (refl, tt))))))))))

abbrev one_shard : Store here
one_shard = record {
  shards = eleven ∷ [];
  s3fifo_queues = no_queues ∷ [];
  num_shards = 1;
  memory_used = 0;
  evicted_keys = 0;
  draws = 0;
  clock = 10;
}

scan_misses_example :
    (scan here one_shard 0 10 none 10 ≡ (0, keys_of first_ten))
    × (is_among (codes "k") (keys_of first_ten) ≡ false)
scan_misses_example =
    scan_misses here one_shard eleven first_ten (codes "k") kept 10 refl refl eleven-entries
      none_expired (omega arith) (omega arith)

matches_pattern_ends_example : matches_pattern (codes "user:1") (codes "u*:?") ≢ none
matches_pattern_ends_example = matches_pattern_ends (codes "user:1") (codes "u*:?")

matches_pattern_iff_example :
    (matches_pattern (codes "user:1") (codes "u*:?") ≡ some true)
    ↔ Glob (codes "u*:?") (codes "user:1")
matches_pattern_iff_example = matches_pattern_iff (codes "user:1") (codes "u*:?")
