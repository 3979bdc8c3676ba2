-- ===== src/Server/Words.antt =====
-- The command names that `execute_command` of src/main.rs knows.
use redistill.Base.{List, [], ◌∷◌, if◌then◌else◌, Bytes, codes}
use redistill.Commands.Words.{eq_ignore_case}

pub data Word : Type 0 where
  set_word ttl_word get_word del_word : Word
  ping_word keys_word save_word incr_word decr_word pttl_word mget_word mset_word : Word
  auth_word info_word scan_word hset_word hget_word hdel_word type_word : Word
  exists_word bgsave_word dbsize_word config_word incrby_word decrby_word expire_word : Word
  flushdb_word command_word persist_word hgetall_word : Word
  lastsave_word flushall_word bgrewriteaof_word unknown_word : Word

-- The tests in the order of the source.
unfoldable pub names : List (Bytes × Word)
names =
    (codes "set", set_word)
    ∷ (codes "ttl", ttl_word)
    ∷ (codes "get", get_word)
    ∷ (codes "del", del_word)
    ∷ (codes "ping", ping_word)
    ∷ (codes "keys", keys_word)
    ∷ (codes "save", save_word)
    ∷ (codes "incr", incr_word)
    ∷ (codes "decr", decr_word)
    ∷ (codes "pttl", pttl_word)
    ∷ (codes "mget", mget_word)
    ∷ (codes "mset", mset_word)
    ∷ (codes "auth", auth_word)
    ∷ (codes "info", info_word)
    ∷ (codes "scan", scan_word)
    ∷ (codes "hset", hset_word)
    ∷ (codes "hget", hget_word)
    ∷ (codes "hdel", hdel_word)
    ∷ (codes "type", type_word)
    ∷ (codes "exists", exists_word)
    ∷ (codes "bgsave", bgsave_word)
    ∷ (codes "dbsize", dbsize_word)
    ∷ (codes "config", config_word)
    ∷ (codes "incrby", incrby_word)
    ∷ (codes "decrby", decrby_word)
    ∷ (codes "expire", expire_word)
    ∷ (codes "flushdb", flushdb_word)
    ∷ (codes "command", command_word)
    ∷ (codes "persist", persist_word)
    ∷ (codes "hgetall", hgetall_word)
    ∷ (codes "lastsave", lastsave_word)
    ∷ (codes "flushall", flushall_word)
    ∷ (codes "bgrewriteaof", bgrewriteaof_word)
    ∷ []

-- The first name that the word spells in any case.
unfoldable pub find_word : List (Bytes × Word) → Bytes → Word
find_word [] cmd = unknown_word
find_word ((name, word) ∷ rest) cmd =
    let other = find_word rest cmd in if eq_ignore_case cmd name then word else other

unfoldable pub word_of : Bytes → Word
word_of cmd = find_word names cmd
