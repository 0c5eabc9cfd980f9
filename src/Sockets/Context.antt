-- ===== src/Sockets/Context.antt =====
-- src/socket.cc, `Context`: ZeroMQ's context, which the first socket makes.
use pttp.Prelude.{◌≡◌, refl, List, [], ◌∷◌, Option, none, some, Bool, true, if◌then◌else◌, ◌>>=◌}

-- The pointer `s` of the class, and the context that it points to.
pub data Context : Type 0 where
  unmade alive destroyed : Context

-- `Context::inst`, with whether the library makes a context where one is made. What has been destroyed is not used
-- again: that is undefined.
unfoldable pub inst : Bool → Context → Option Context
inst created unmade = if created then some alive else none
inst created alive = some alive
inst created destroyed = none

-- `Context::shutdown`, which calls the destructor and keeps the pointer.
unfoldable pub shutdown : Context → Option Context
shutdown unmade = some unmade
shutdown alive = some destroyed
shutdown destroyed = none

-- What a program does with the context: it opens sockets, and shuts the context down.
pub data Call : Type 0 where
  opens closes_all : Call

abbrev pub call : Call → Context → Option Context
call opens c = inst true c
call closes_all c = shutdown c

abbrev pub calls : List Call → Context → Option Context
calls [] c = some c
calls (x ∷ xs) c = call x c >>= λ c'. calls xs c'

-- A program that has opened a socket and shut the context down can do nothing more.
over : (x : Call) (xs : List Call) → calls (opens ∷ closes_all ∷ x ∷ xs) unmade ≡ none
unfolding inst shutdown
over opens xs = refl
over closes_all xs = refl
