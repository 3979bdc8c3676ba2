-- ===== src/Embedded/Steps.antt =====
-- Each operation of src/lib.rs against the map from keys to values that the store stands for.
use redistill.Base.{
  ℕ, zero, suc, ◌+◌, ◌-◌, ◌*◌, ◌/◌, ◌%◌, ◌^◌, ◌≤◌, ◌<◌, min, max, ◌≡◌, refl, sym, ap, ◌∙◌, ◌≢◌, ◌↔◌,
  ◌⊎◌, inl, inr, Bool, true, false, ◌&&◌, ◌||◌, not, Option, none, some, List, [], ◌∷◌, ◌++◌,
  append_assoc, append-nil, arith, ltb, leb, ◌==◌, if◌then◌else◌, Bytes, codes, beq, length, take,
  drop, All, length-append, take-append, Bool-cases, Option-cases, le→ltb, lt→ltb, beq_iff,
  beq_refl, get_or,
}
mod Moves
mod Strings
mod Hashes
use redistill.Store.Entry.{Entry, EntryValue, string, hash, Fields, is_expired}
use redistill.Store.Strings.{expiry_of, as_string, type_of}
use redistill.Store.Hashes.{ok, insert_fields, remove_fields, is_empty}
use redistill.Store.View.{
  Items, item_of, seen, Request, set_request, get_request, type_request, delete_request,
  exists_request, hset_request, hget_request, hgetall_request, hdel_request, Response, stored,
  value, type_name, count, new_fields, field, all_of, gone_fields, string_of, kind_of, one_if_some,
  update, remove_all, count_all, with_fields, field_in, fields_in, without_fields, specified,
}
use redistill.Embedded
use redistill.Embedded.{Crates, ShardedStore, new_entry, find, put, drop_key}
use redistill.Embedded.Grouped.{IsWf, delete_each, delete-delete_each}
use redistill.Embedded.Steps.Moves.{
  Shows, put-Shows, drop_key-Shows, update_twice-Shows, expired-Shows, seen_found, seen_missing,
  find-put_self,
}
use redistill.Embedded.Steps.Strings.{get-Shows, key_type-Shows, exists-seen, delete_each-Shows}
use redistill.Embedded.Steps.Hashes.{hget-Shows, hgetall-Shows, hset-Shows, hdel-Shows}
pub use Moves.{Shows}

-- The operations of the store.
unfoldable pub respond : (C : Crates) → ShardedStore C → Request → ℕ → Response × ShardedStore C
respond C s (set_request key v ttl) now = (stored, Embedded.set C s key v ttl now)
respond C s (get_request key) now = let (v, t) = Embedded.get C s key now in (value v, t)
respond C s (type_request key) now = let (k, t) = Embedded.key_type C s key now in (type_name k, t)
respond C s (delete_request keys) now = let (n, t) = Embedded.delete C s keys in (count n, t)
respond C s (exists_request keys) now = (count (Embedded.exists C s keys now), s)
respond C s (hset_request key fields) now =
    let (n, t) = Embedded.hset C s key fields now in (new_fields n, t)
respond C s (hget_request key f) now = let (v, t) = Embedded.hget C s key f now in (field v, t)
respond C s (hgetall_request key) now = let (v, t) = Embedded.hgetall C s key now in (all_of v, t)
respond C s (hdel_request key fields) now =
    let (n, t) = Embedded.hdel C s key fields now in (gone_fields n, t)

-- The reply is that of the map; only a DEL may count more, since it counts expired keys too.
abbrev pub Agrees : Request → Response → Response → Type 0
Agrees (delete_request keys) reply expected =
    (n : ℕ) × (k : ℕ) × (reply ≡ count n) × (expected ≡ count k) × (k ≤ n)
Agrees r reply expected = reply ≡ expected

module _ (C : Crates) (now : ℕ) where
  -- One operation replies what it replies on the map, but for the count of DEL, and the store then
  -- shows what the map then shows.
  pub respond-Shows :
      (s : ShardedStore C) (m : Items) (r : Request)
      → Shows C now s m
      → Agrees r (respond C s r now).0 (specified C.hash_maps m r now).0
        × Shows C now (respond C s r now).1 (specified C.hash_maps m r now).1
  unfolding respond
  respond-Shows s m (set_request key v ttl) sh = (
    refl,
    unfold Embedded.set in put-Shows C now s m key (new_entry (string v) (expiry_of ttl now)) sh,
  )
  respond-Shows s m (get_request key) sh =
      let (v, next) = get-Shows C now s m key sh in (ap value v, next)
  respond-Shows s m (type_request key) sh =
      let (k, next) = key_type-Shows C now s m key sh in (ap type_name k, next)
  respond-Shows s m (delete_request keys) sh =
      let (le, next) = delete_each-Shows C now s m keys sh in
      rw (delete-delete_each C s keys sh.wf)
        (((delete_each C s keys).0, (remove_all m keys now).0, refl, refl, le), next)
  respond-Shows s m (exists_request keys) sh = (ap count (exists-seen C now s m keys sh), sh)
  respond-Shows s m (hset_request key fields) sh =
      let (n, next) = hset-Shows C now s m key fields sh in (ap new_fields n, next)
  respond-Shows s m (hget_request key f) sh =
      let (v, next) = hget-Shows C now s m key f sh in (ap field v, next)
  respond-Shows s m (hgetall_request key) sh =
      let (v, next) = hgetall-Shows C now s m key sh in (ap all_of v, next)
  respond-Shows s m (hdel_request key fields) sh =
      let (n, next) = hdel-Shows C now s m key fields sh in (ap gone_fields n, next)
