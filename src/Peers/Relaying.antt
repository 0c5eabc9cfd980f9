-- ===== src/Peers/Relaying.antt =====
-- bin/p2p.cc: how a text that is typed at one node comes to another and from there to the next.
use mathlib.Core.List.{Memᴰ}
use pttp.Prelude.{
  ℕ, ◌<◌, ◌≡◌, refl, ap, ◌∙◌, arith, List, length, get_elem?, some, true, false, All,
}
use pttp.Bytes.{Bytes}
use pttp.Maps.{member}
use pttp.Merkle.{hash_size}
use pttp.Gtd.{Task, TaskType, Gtd}
use pttp.Gtd
use pttp.Gtd.Draining.{drain, drain-Memᴰ}
use pttp.Peers.{text, ok, Libs, Connection, Node, add_to, add_to_all, task_with, read_line}
use pttp.Peers.Serving.{serve_text, serve}
use pttp.Peers.Managing.{ask}
use pttp.Peers.Requests.{envelope}
use pttp.Peers.Flooding.{serve-text, marks_seen, get_elem?-add_to_all}

-- The thread of the node's connection `i` takes, at some of these readings of the clock, a task that makes it
-- send `m`.
abbrev pub Sends : Libs → Node → ℕ → List ℕ → Bytes → Type 0
Sends libs n i nows m =
    (con : Connection) × (task : Task) × (get_elem? n.connections i ≡ some con)
    × Memᴰ task (drain nows con.gtd)
    × ((key : Bytes) → ask libs key task n ≡ some (some m))

-- There is a connection `i`, and the readings are as many as its tasks and one more.
abbrev pub IsPatient : Node → ℕ → List ℕ → Type 0
IsPatient n i nows =
    (con : Connection) × (get_elem? n.connections i ≡ some con)
    × (length (Gtd.tasks con.gtd) < length nows)
    × All (λ now. 0 < now) nows

passes_on :
    (libs : Libs) (n n' : Node) (i : ℕ) (nows : List ℕ) (m : Bytes)
    → IsPatient n i nows
    → n'.connections ≡ add_to_all (task_with TaskType.send m) n.connections
    → Sends libs n' i nows m
unfolding add_to ask Gtd.add
passes_on libs n n' i nows m (con, there, room, late) added =
    let task = task_with TaskType.send m in
    let con' = add_to task con in
    (
      con',
      task,
      ap (λ cs. get_elem? cs i) added ∙ get_elem?-add_to_all task n.connections i con there,
      drain-Memᴰ nows task con'.gtd (Memᴰ.head refl) late (omega (arith, room)),
      (λ key. refl),
    )

-- The message that a typed line makes.
abbrev pub typed_text : Libs → Bytes → Bytes
typed_text libs line = libs.messages.write (text line)

unseen_text :
    (libs : Libs) (m : Bytes) (n : Node)
    → member (libs.hasher.digest hash_size m) n.seen ≡ false
    → (serve_text libs m n).connections ≡ add_to_all (task_with TaskType.send m) n.connections
unfolding serve_text
unseen_text libs m n new = rw (new, serve_text) refl

-- A line that is typed at one node is sent by the thread of each of its connections. A peer that has not seen the
-- text answers OK and has seen it then, and the thread of each of the peer's connections sends the same bytes on.
-- Each thread is given as many rounds as its queue had tasks, and one more, at clock readings other
-- than 0, while nothing else is added to its queue.
pub read_line-serve :
    (libs : Libs) (line sender key : Bytes) (p q : Node) (i j : ℕ) (nows nows' : List ℕ)
    → IsPatient p i nows
    → IsPatient q j nows'
    → member (libs.hasher.digest hash_size (typed_text libs line)) q.seen ≡ false
    → (q' : Node) × Sends libs (read_line libs line p) i nows (typed_text libs line)
      × (serve libs key (envelope sender (typed_text libs line)) q
          ≡ some (envelope sender (libs.messages.write ok), q'))
      × (member (libs.hasher.digest hash_size (typed_text libs line)) q'.seen ≡ true)
      × Sends libs q' j nows' (typed_text libs line)
unfolding read_line
read_line-serve libs line sender key p q i j nows nows' patient patient' new =
    let m = typed_text libs line in
    (
      serve_text libs m q,
      passes_on libs p (read_line libs line p) i nows m patient refl,
      serve-text libs key (envelope sender m) m q
          (refl, (line, libs.messages.read-write (text line) tt)),
      marks_seen libs m q,
      passes_on libs q (serve_text libs m q) j nows' m patient' (unseen_text libs m q new),
    )
