-- ===== src/Examples/Keys.antt =====
-- The results on strings and eviction, each applied to a small store.
use redistill.Base.{
  ◌≡◌, ◌≢◌, none, some, List, [], ◌∷◌, arith, if◌then◌else◌, Bytes, codes, leb, ◌+◌, ◌%◌, ◌^◌,
}
use redistill.Store.Entry.{is_expired}
use redistill.Store.Strings.{expiry_of, set, get}
use redistill.Store.Strings.Lookup.{get-set}
use redistill.Store.Evict.{evict_if_needed}
use redistill.Store.Evict.Balance.{evict_if_needed-fits}
use redistill.Examples.Samples.{here, two_keys, two_keys-IsWf}

abbrev args : List Bytes
args = codes "_" ∷ codes "c" ∷ codes "8" ∷ []

get-set_example :
    (get here (set here two_keys (codes "ab") (codes "x") (some 5) 10).1 (codes "ab") 14).0
    ≡ (if is_expired 14 (expiry_of (some 5) 10) then none else some (codes "x"))
get-set_example = get-set here two_keys (codes "ab") (codes "x") (some 5) 10 14 two_keys-IsWf

ab-ne-c : codes "ab" ≢ codes "c"
ab-ne-c e = cc e

evict_fits_example :
    (evict_if_needed here two_keys 100).0
    ≡ leb (((evict_if_needed here two_keys 100).1.memory_used + 100) % 2 ^ 64) 300
evict_fits_example = evict_if_needed-fits here two_keys 100 (omega arith)
