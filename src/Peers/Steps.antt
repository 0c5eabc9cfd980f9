-- ===== src/Peers/Steps.antt =====
-- bin/p2p.cc: the steps that the threads of a node take. Each locks what it shares or is taken as one step.
use mathlib.Core.List.{Perm}
use pttp.Prelude.{ℕ, Bool, ◌≡◌, List, [], set, get_elem?, some}
use pttp.Bytes.{Bytes}
use pttp.Gtd.{Task, TaskType, Gtd, poll}
use pttp.Peers.{Libs, Connection, Node, add_to, task_with, read_line}
use pttp.Peers.Serving.{serve}
use pttp.Peers.Managing.{plan_first, manage, take_reply}

-- The connection of a place is replaced.
abbrev pub put_connection : ℕ → Connection → Node → Node
put_connection i con node = record node { connections = set node.connections i con }

-- What a thread may do next: answer a message, send a typed line, start to manage, carry out a due task of the
-- manager's queue, start a connection's thread, take a due task of a connection, and take whatever reply to such
-- a task. The clock and the order of the shuffled addresses are any.
pub data Step (libs : Libs) : Node → Node → Type 0 where
  served :
      {n n' : Node}
      → (key : Bytes) (msg msg' : List Bytes) → serve libs key msg n ≡ some (msg', n')
      → Step libs n n'
  typed : {n : Node} → (line : Bytes) → Step libs n (read_line libs line n)
  planned : {n : Node} → (now_ms : ℕ) → Step libs n (plan_first now_ms n)
  managed :
      {n n' : Node}
      → (connects : Bytes → Bool) (shuffle : List Bytes → List Bytes) (now now_ms : ℕ) (task : Task)
        (g : Gtd)
      → ((addrs : List Bytes) → Perm (shuffle addrs) addrs)
      → poll now n.manager_gtd ≡ (some task, g)
      → manage libs connects shuffle now_ms task (record n { manager_gtd = g }) ≡ some n'
      → Step libs n n'
  started :
      {n : Node}
      → (i : ℕ) (con : Connection) → get_elem? n.connections i ≡ some con
      → Step libs n (put_connection i (add_to (task_with TaskType.hello []) con) n)
  polled :
      {n : Node}
      → (i now : ℕ) (con : Connection) (task : Task) (g : Gtd)
      → get_elem? n.connections i ≡ some con
      → poll now con.gtd ≡ (some task, g)
      → Step libs n (put_connection i (record con { gtd = g }) n)
  replied :
      {n n' : Node}
      → (now_ms : ℕ) (task : Task) (result : Bytes) → take_reply libs now_ms task result n ≡ some n'
      → Step libs n n'

-- Any number of steps.
pub data Run (libs : Libs) (start : Node) : Node → Type 0 where
  here : Run libs start start
  next : {n n' : Node} → Run libs start n → Step libs n n' → Run libs start n'
