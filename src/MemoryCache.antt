-- ===== src/MemoryCache.antt =====
-- praxis/cache/memory_cache.py: `InMemoryCache`. A time is a number of seconds of the monotonic clock.
pub mod Laws
mod Tests
use praxis_ai_agent_platform.Common.{
  ℕ, ◌+◌, String, Bool, false, Option, none, some, List, [], ◌∷◌, leb, if◌then◌else◌, nat_eq,
  string_eq, pair_eq, length, Json, Dict, lookup, insert, remove,
}

-- The entries: a value, and when it expires.
abbrev pub Entries : Type 0
Entries = Dict String (Json × Option ℕ)

-- `expires_at is not None and expires_at <= time.monotonic()`
abbrev pub is_expired : Option ℕ → ℕ → Bool
is_expired none now = false
is_expired (some expires_at) now = leb expires_at now

abbrev pub read_entry : String → ℕ → Entries → Option (Json × Option ℕ) → Option Json × Entries
read_entry key now c none = (none, c)
read_entry key now c (some (v, expires_at)) =
    if is_expired expires_at now then (none, remove key c) else (some v, c)

-- `get`: the value, and the entries after it
unfoldable pub get : String → ℕ → Entries → Option Json × Entries
unfolding lookup remove
get key now c = read_entry key now c (lookup key c)

abbrev pub expiry : ℕ → Option ℕ → Option ℕ
expiry now none = none
expiry now (some ttl_seconds) = some (now + ttl_seconds)

-- `set`
unfoldable pub set : String → Json → Option ℕ → ℕ → Entries → Entries
unfolding insert
set key v ttl_seconds now c = insert key (v, expiry now ttl_seconds) c

-- `__len__`
unfoldable pub size : Entries → ℕ
size c = length c

-- One call of a cache.
pub data Operation : Type 0 where
  gets : (key : String) (now : ℕ) → Operation
  sets : (key : String) (v : Json) (ttl_seconds : Option ℕ) (now : ℕ) → Operation

unfoldable pub run : List Operation → Entries → Entries
unfolding get set
run [] c = c
run (gets key now ∷ ops) c = run ops (get key now c).1
run (sets key v ttl_seconds now ∷ ops) c = run ops (set key v ttl_seconds now c)
