-- ===== src/Persistence/Stream.antt =====
-- The entries that `save_snapshot_sync` of src/persistence.rs streams to its file.
use redistill.Base.{
  ℕ, ◌+◌, ◌%◌, ◌^◌, ◌<◌, ◌≡◌, refl, sym, ◌∙◌, ◌⊎◌, inl, inr, List, [], ◌∷◌, ◌++◌, append_assoc,
  append-nil, arith, if◌then◌else◌, Bytes, codes, length, length-append, Bool-cases,
}
use redistill.Store.State.{Env}
use redistill.Store.Entry.{Entry, is_expired}
use redistill.Persistence.{
  Bincode, Streamed, to_le_bytes, to_snapshot_entry, write_encoded, stream_entry, stream_entries,
  stream_shards,
}

-- The entries of a store that are live at a time, in the order of the shards' iterations.
abbrev pub live_entries : ℕ → List (Bytes × Entry) → List (Bytes × Entry)
live_entries now [] = []
live_entries now ((key, e) ∷ entries) =
    let rest = live_entries now entries in if is_expired now e.expiry then rest else (key, e) ∷ rest

abbrev pub all_live_entries : (E : Env) → ℕ → List E.dash.Shard → List (Bytes × Entry)
all_live_entries E now [] = []
all_live_entries E now (shard ∷ shards) =
    live_entries now (E.dash.iter shard) ++ all_live_entries E now shards

pub Sum-cases : {A B : Type 0} (x : A ⊎ B) → ((a : A) × (x ≡ inl a)) ⊎ ((b : B) × (x ≡ inr b))
Sum-cases (inl a) = inl (a, refl)
Sum-cases (inr b) = inr (b, refl)

module _ (B : Bincode) (E : Env) (now : ℕ) where
  -- The bytes are the records of the entries, one behind the other.
  unfoldable pub Encodes : List (Bytes × Entry) → Bytes → Type 0
  Encodes [] body = body ≡ []
  Encodes ((key, e) ∷ entries) body =
      (encoded : Bytes) × (rest : Bytes) × (B.serialize (to_snapshot_entry E.hash_maps now key e)
        ≡ inl encoded)
      × (body ≡ to_le_bytes 4 (length encoded) ++ (encoded ++ rest))
      × Encodes entries rest

  Encodes-append :
      (entries more : List (Bytes × Entry)) (a b : Bytes)
      → Encodes entries a
      → Encodes more b
      → Encodes (entries ++ more) (a ++ b)
  unfolding Encodes
  Encodes-append [] more a b e g = rw e g
  Encodes-append ((key, x) ∷ entries) more a b (encoded, rest, s, e, r) g =
      (encoded, rest ++ b, s, rw e (simp append_assoc), Encodes-append entries more rest b r g)

  -- What streaming some entries came to, if it succeeded.
  pub record Streams (w : Bytes × ℕ) (entries : List (Bytes × Entry)) (v : Bytes × ℕ) : Type 0 where
    pub body : Bytes
    pub file : v.0 ≡ w.0 ++ body
    pub count : v.1 % 2 ^ 64 ≡ (w.1 + length entries) % 2 ^ 64
    pub bound : w.1 < 2 ^ 64 → v.1 < 2 ^ 64
    pub encodes : Encodes entries body

  Streams-refl : (w : Bytes × ℕ) → Streams w [] w
  unfolding Encodes
  Streams-refl w = record {
    body = [];
    file = sym (append-nil w.0);
    count = ground arith;
    bound = λ b. b;
    encodes = refl;
  }

  Streams-trans :
      {u v w : Bytes × ℕ} {entries more : List (Bytes × Entry)}
      → Streams u entries v
      → Streams v more w
      → Streams u (entries ++ more) w
  Streams-trans {u} {v} {w} {entries} {more} f g = record {
    body = f.body ++ g.body;
    file = g.file ∙ rw f.file (append_assoc u.0 f.body g.body);
    count = omega (arith, f.count, g.count, length-append entries more);
    bound = λ b. g.bound (f.bound b);
    encodes = Encodes-append entries more f.body g.body f.encodes g.encodes;
  }

  one-Streams :
      (file : Bytes) (count : ℕ) (key : Bytes) (e : Entry) (encoded : Bytes)
      → B.serialize (to_snapshot_entry E.hash_maps now key e) ≡ inl encoded
      → Streams
          (file, count)
          ((key, e) ∷ [])
          (file ++ (to_le_bytes 4 (length encoded) ++ encoded), (count + 1) % 2 ^ 64)
  unfolding Encodes
  one-Streams file count key e encoded x = record {
    body = to_le_bytes 4 (length encoded) ++ encoded;
    file = refl;
    count = ground arith;
    bound = λ _. omega arith;
    encodes = (encoded, [], x, rw append-nil, refl);
  }

  unfoldable pub StreamsTo : Bytes × ℕ → List (Bytes × Entry) → Streamed → Type 0
  StreamsTo w entries (inl v) = Streams w entries v
  StreamsTo w entries (inr e) = Unit

  StreamsTo-trans :
      (u v : Bytes × ℕ) (entries more : List (Bytes × Entry)) (r : Streamed)
      → Streams u entries v
      → StreamsTo v more r
      → StreamsTo u (entries ++ more) r
  unfolding StreamsTo
  StreamsTo-trans u v entries more (inl w) f g = Streams-trans f g
  StreamsTo-trans u v entries more (inr e) f g = tt

  stuck_entries :
      (entries : List (Bytes × Entry)) (e : Bytes)
      → stream_entries B E.hash_maps now entries (inr e) ≡ inr e
  unfolding stream_entries stream_entry
  stuck_entries [] e = refl
  stuck_entries ((key, x) ∷ entries) e = stuck_entries entries e

  stream_entries-StreamsTo :
      (entries : List (Bytes × Entry)) (w : Bytes × ℕ)
      → StreamsTo w (live_entries now entries) (stream_entries B E.hash_maps now entries (inl w))
  unfolding stream_entries stream_entry write_encoded StreamsTo
  stream_entries-StreamsTo [] w = Streams-refl w
  stream_entries-StreamsTo ((key, e) ∷ entries) (file, count) =
      elim (Bool-cases (is_expired now e.expiry)) [
        | inl x ↦ rw x (stream_entries-StreamsTo entries (file, count))
        | inr x ↦ elim (Sum-cases (B.serialize (to_snapshot_entry E.hash_maps now key e))) [
          | inl (encoded, y) ↦
              rw (x, y)
                (StreamsTo-trans (file, count) _ ((key, e) ∷ []) (live_entries now entries) _
                  (one-Streams file count key e encoded y) (stream_entries-StreamsTo entries _))
          | inr (text, y) ↦
              rw (x, y, stuck_entries entries (codes "Failed to serialize entry: " ++ text)) tt
        ]
      ]

  stuck_shards :
      (shards : List E.dash.Shard) (e : Bytes) → stream_shards B E now shards (inr e) ≡ inr e
  unfolding stream_shards
  stuck_shards [] e = refl
  stuck_shards (shard ∷ shards) e = rw (stuck_entries (E.dash.iter shard) e) (stuck_shards shards e)

  then_shards :
      (shards : List E.dash.Shard) (w : Bytes × ℕ) (entries : List (Bytes × Entry)) (r : Streamed)
      → ((v : Bytes × ℕ)
          → StreamsTo v (all_live_entries E now shards) (stream_shards B E now shards (inl v)))
      → StreamsTo w entries r
      → StreamsTo w (entries ++ all_live_entries E now shards) (stream_shards B E now shards r)
  unfolding StreamsTo
  then_shards shards w entries (inl v) next f =
      StreamsTo-trans w v entries (all_live_entries E now shards) _ f (next v)
  then_shards shards w entries (inr e) next f = rw (stuck_shards shards e) tt

  pub stream_shards-StreamsTo :
      (shards : List E.dash.Shard) (w : Bytes × ℕ)
      → StreamsTo w (all_live_entries E now shards) (stream_shards B E now shards (inl w))
  unfolding stream_shards StreamsTo
  stream_shards-StreamsTo [] w = Streams-refl w
  stream_shards-StreamsTo (shard ∷ shards) w =
      then_shards shards w (live_entries now (E.dash.iter shard))
        (stream_entries B E.hash_maps now (E.dash.iter shard) (inl w))
        (stream_shards-StreamsTo shards) (stream_entries-StreamsTo (E.dash.iter shard) w)
