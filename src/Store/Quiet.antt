-- ===== src/Store/Quiet.antt =====
-- Access tracking of src/store.rs: what it changes in the store.
use redistill.Base.{
  Option-cases, ◌∙◌, ◌%◌, ℕ, ◌+◌, ◌≡◌, refl, true, Option, none, some, Bytes, length-set,
  Bool-cases, inl, inr, ltb, ◌%◌,
}
use redistill.Store.Entry.{Entry, QueueType, small, main, is_expired, size_of, queue_type_from}
use redistill.Store.State.{Env, Store, IsWf, hash, find, put, draw}
use redistill.Store.Access.{
  is_s3fifo, leave, queues_of, set_queues, one_in_ten, first_access, maybe_update_access_time,
  expire_key, leave_queue, join_queue, access_small, access_main, access_in, track_access,
}
use redistill.Store.State.{S3FifoQueues}
use redistill.Store.Balance.{
  IsBalanced, IsQuiet, IsQuiet-refl, IsQuiet-trans, find-IsQuiet, IsWf-IsQuiet, IsBalanced-IsQuiet,
  IsBalanced-trans, put-IsBalanced, free-IsBalanced,
}

module _ (E : Env) where
  set_queues-IsQuiet :
      (s : Store E) (key : Bytes) (q : S3FifoQueues) → IsQuiet E s (set_queues E s key q)
  unfolding set_queues
  set_queues-IsQuiet s key q = record {
    shards = refl;
    num_shards = refl;
    memory = refl;
    queue_count = length-set s.s3fifo_queues (hash E s key) q;
  }

  one_in_ten-IsQuiet : (s : Store E) → IsQuiet E s (one_in_ten E s).1
  unfolding one_in_ten draw
  one_in_ten-IsQuiet s = record {
    shards = refl;
    num_shards = refl;
    memory = refl;
    queue_count = refl;
  }

  pub first_access-IsQuiet : (s : Store E) → IsQuiet E s (first_access E s).1
  unfolding first_access
  first_access-IsQuiet s = one_in_ten-IsQuiet s

  leave_found-IsQuiet :
      (s : Store E) (key : Bytes) (o : Option Entry)
      → IsQuiet E s (elim o [
        | none ↦ s
        | some old ↦
            set_queues E s key (leave (queue_type_from old.queue_type) key (queues_of E s key))
      ])
  leave_found-IsQuiet s key none = IsQuiet-refl E s
  leave_found-IsQuiet s key (some old) = set_queues-IsQuiet s key _

  pub leave_queue-IsQuiet : (s : Store E) (key : Bytes) → IsQuiet E s (leave_queue E s key)
  unfolding leave_queue
  leave_queue-IsQuiet s key = elim (Bool-cases (is_s3fifo E.config.eviction_policy)) [
    | inl e ↦ rw e (leave_found-IsQuiet s key (find E s key))
    | inr e ↦ rw e (IsQuiet-refl E s)
  ]

  pub join_queue-IsQuiet : (s : Store E) (key : Bytes) → IsQuiet E s (join_queue E s key).1
  unfolding join_queue
  join_queue-IsQuiet s key = elim (Bool-cases (is_s3fifo E.config.eviction_policy)) [
    | inl e ↦ rw e (set_queues-IsQuiet s key _)
    | inr e ↦ rw e (IsQuiet-refl E s)
  ]

  -- An access changes neither the value nor the expiry of the entry.
  record IsTouch (e e' : Entry) : Type 0 where
    value : e'.value ≡ e.value
    expiry : e'.expiry ≡ e.expiry

  maybe_update_access_time-IsTouch :
      (s : Store E) (e : Entry)
      → IsTouch e (maybe_update_access_time E s e).0
        × IsQuiet E s (maybe_update_access_time E s e).1
  unfolding maybe_update_access_time
  maybe_update_access_time-IsTouch s e = elim (Bool-cases (one_in_ten E s).0) [
    | inl h ↦ rw h (record { value = refl; expiry = refl }, one_in_ten-IsQuiet s)
    | inr h ↦ rw h (record { value = refl; expiry = refl }, one_in_ten-IsQuiet s)
  ]

  access_in-IsTouch :
      (qt : QueueType) (s : Store E) (key : Bytes) (e : Entry)
      → IsTouch e (access_in E qt s key e).0 × IsQuiet E s (access_in E qt s key e).1
  unfolding access_in access_main access_small
  access_in-IsTouch main s key e =
      (record { value = refl; expiry = refl }, set_queues-IsQuiet s key _)
  access_in-IsTouch small s key e = elim (Bool-cases (ltb 1 ((e.access_count + 1) % 256))) [
    | inl h ↦ rw h (record { value = refl; expiry = refl }, set_queues-IsQuiet s key _)
    | inr h ↦ rw h (record { value = refl; expiry = refl }, IsQuiet-refl E s)
  ]

  -- An access replaces the entry by one with the same value and expiry, and is quiet otherwise.
  pub record IsTracked (s : Store E) (key : Bytes) (e : Entry) (t : Store E) : Type 0 where
    pub base : Store E
    pub entry : Entry
    pub same_value : entry.value ≡ e.value
    pub same_expiry : entry.expiry ≡ e.expiry
    pub quiet : IsQuiet E s base
    pub result : t ≡ put E base key entry

  pub track_access-IsTracked :
      (s : Store E) (key : Bytes) (e : Entry) → IsTracked s key e (track_access E s key e)
  unfolding track_access
  track_access-IsTracked s key e =
      let (touch1, quiet1) = maybe_update_access_time-IsTouch s e in
      let (e1, s1) = maybe_update_access_time E s e in
      let qt = queue_type_from e1.queue_type in
      let (touch2, quiet2) = access_in-IsTouch qt s1 key e1 in
      elim (Bool-cases (is_s3fifo E.config.eviction_policy)) [
        | inl h ↦ rw h (record {
          base = (access_in E qt s1 key e1).1;
          entry = (access_in E qt s1 key e1).0;
          same_value = touch2.value ∙ touch1.value;
          same_expiry = touch2.expiry ∙ touch1.expiry;
          quiet = IsQuiet-trans E quiet1 quiet2;
          result = refl;
        })
        | inr h ↦ rw h (record {
          base = s1;
          entry = e1;
          same_value = touch1.value;
          same_expiry = touch1.expiry;
          quiet = quiet1;
          result = refl;
        })
      ]

  pub track_access-IsBalanced :
      (s : Store E) (key : Bytes) (e : Entry)
      → IsWf E s
      → find E s key ≡ some e
      → IsBalanced E s (track_access E s key e)
  track_access-IsBalanced s key e wf found =
      let t = track_access-IsTracked s key e in
      rw t.result (
        IsBalanced-trans E (IsBalanced-IsQuiet E wf t.quiet) (
          put-IsBalanced E t.base key e t.entry (IsWf-IsQuiet E t.quiet wf)
            (find-IsQuiet E t.quiet key ∙ found) (unfold size_of in rw t.same_value)))

  -- Removing an entry that has expired frees its size.
  pub expire_key-IsBalanced :
      (s : Store E) (key : Bytes) (now : ℕ)
      → ltb 0 E.config.max_memory ≡ true
      → IsWf E s
      → IsBalanced E s (expire_key E s key now)
  unfolding expire_key
  expire_key-IsBalanced s key now tracked wf = elim (Option-cases (find E s key)) [
    | inl e ↦ rw (e, expire_key) (IsBalanced-IsQuiet E wf (IsQuiet-refl E s))
    | inr (old, e) ↦ elim (Bool-cases (is_expired now old.expiry)) [
      | inl x ↦ rw (e, expire_key, x, tracked) (unfold size_of in free-IsBalanced E s key old wf e)
      | inr x ↦ rw (e, expire_key, x) (IsBalanced-IsQuiet E wf (IsQuiet-refl E s))
    ]
  ]
