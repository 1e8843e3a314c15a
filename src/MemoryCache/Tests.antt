-- ===== src/MemoryCache/Tests.antt =====
-- A cache with two keys.
use praxis_ai_agent_platform.Common.{
  ◌≡◌, refl, true, none, some, List, [], ◌∷◌, arith, if◌then◌else◌, nat_eq, string_eq, pair_eq,
  null, boolean, lookup, insert, remove,
}
use praxis_ai_agent_platform.MemoryCache.{
  is_expired, get, set, expiry, size, Operation, gets, sets, run,
}
use praxis_ai_agent_platform.MemoryCache.Laws.{get-set}

abbrev between : List Operation
between = gets "a" 5 ∷ sets "b" null none 6 ∷ gets "b" 7 ∷ []

-- an expired entry is evicted as it is read
evicts :
    let c = run between (set "a" (boolean true) (some 10) 0 []) in
    ((get "a" 9 c).0 ≡ some (boolean true)) × (size (get "a" 10 c).1 ≡ 1)
unfolding run get set size lookup insert remove
evicts = (refl, refl)

get-set_example :
    (get "a" 9 (run between (set "a" (boolean true) (some 10) 0 []))).0
    ≡ (if is_expired (expiry 0 (some 10)) 9 then none else some (boolean true))
get-set_example =
    get-set "a" (boolean true) (some 10) 0 9 [] between (omega arith, (refl, (omega arith, tt)))
