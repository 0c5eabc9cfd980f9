-- ===== src/Db/Examples.antt =====
-- The theorem on the cached database at a database of one entry.
use pttp.Prelude.{◌≡◌, arith, List, [], ◌∷◌, some, ◌>>=◌}
use pttp.Db.{open_cached}
use pttp.Db.Sessions.{Call, get_call, del_call, session, absent, session-open_cached}
use pttp.Samples.{sum_hasher, slot_db}

-- A key that the database does not have, and one that it has until it is deleted.
abbrev calls : List Call
calls =
    get_call (8 ∷ []) (0 ∷ [])
    ∷ del_call (3 ∷ [])
    ∷ get_call (3 ∷ []) (5 ∷ [])
    ∷ get_call (3 ∷ []) (6 ∷ [])
    ∷ []

session-open_cached_example :
    (open_cached (λ path. some (some (3 ∷ [], 4 ∷ []))) [] 16 (1 ∷ []) (90 ∷ []) >>= λ c.
    session sum_hasher slot_db calls c)
    ≡ absent sum_hasher slot_db calls (some (3 ∷ [], 4 ∷ []))
session-open_cached_example =
    session-open_cached sum_hasher slot_db (λ path. some (some (3 ∷ [], 4 ∷ []))) [] 16 (1 ∷ [])
      (90 ∷ []) calls (omega arith) (omega arith)
